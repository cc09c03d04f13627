-- ===== src/Lib.antt =====
-- sqlx: the parts of an asynchronous SQL client for Rust, with one module for each part.
--
-- The program opens connections to a database server (sqlx-postgres, sqlx-mysql) or to a database
-- file (sqlx-sqlite), and hands them out from a pool (sqlx-core/src/pool). A connection to a server
-- speaks the protocol of its driver over a buffered socket (sqlx-core/src/net/socket): what is to be
-- sent is encoded into a write buffer and flushed, what arrives is collected in a read buffer and
-- decoded. The migrator (sqlx-core/src/migrate) brings the tables of a database up to the migrations
-- of a source, over the operations that each driver gives it.
--
-- Files and the code they model:
-- - Core/Pool.antt: sqlx-core/src/pool/inner.rs and connection.rs. `Pool` is PoolInner with the
--   counts of the tasks that stand between two accesses of what they share; each constructor of
--   `Action` is one such access, and `Reach` is the closure under `perform`. The functions `pop_idle`,
--   `release`, `try_increment_size`, `close` and the drop of DecrementSizeGuard are split where they
--   touch the shared state twice. `size` wraps at 2^32 and `num_idle` at 2^64, as the atomic counters
--   do.
-- - Core/WriteBuffer.antt: WriteBuffer, `write_with` and `flush` of sqlx-core/src/net/socket/buffered.rs.
--   The capacity of the vector is a field; a failed assertion is the outcome `panic`. `flush` runs on
--   the list of the socket's answers, so that it needs no fuel: where the list ends the flush is still
--   waiting. What the flush of the socket itself comes to is an argument of its own.
-- - Core/Migrate.antt: sqlx-core/src/migrate/migrator.rs with the types it uses. The trait Migrate is
--   a record of operations on a connection, and `IsFaithful` says what its documentation promises.
--   Core/Migrate/Source.antt has migrate/source.rs, the files of a directory and their names, over what
--   the directory is read as, and Core/Migrate/Add.antt the new files of sqlx-cli/src/migrate.rs, whose
--   clock is a parameter. Taking off suffixes runs on fuel, one round for each character.
-- - Sqlite/IntMap.antt: sqlx-sqlite/src/connection/intmap.rs. A key that is negative is a panic; the
--   conversions between i64, u64 and usize are those of a 64-bit target, where an index fits.
-- - Mysql/Time.antt: sqlx-mysql/src/types/mysql_time.rs, the values of type TIME; Mysql/Time/Wire.antt
--   has their binary encoding and Mysql/Time/Spans.antt their conversions to and from durations. The
--   cursor of the crate `bytes` is the record `Buf` of Base/Bytes.antt.
-- - Mysql/LengthEncoded.antt: sqlx-mysql/src/io/buf.rs and buf_mut.rs, and the rows of the text protocol
--   in protocol/text/row.rs and protocol/row.rs.
-- - Mysql/Packet.antt: `Packet::encode_with` of sqlx-mysql/src/protocol/packet.rs and `recv_packet` of
--   connection/stream.rs. What the server sends before it closes the connection is a list of bytes;
--   the loops that cut and gather run on fuel of the number of bytes before them, which each round
--   lowers.
-- - Mysql/Response.antt: the OK and EOF packets of sqlx-mysql/src/protocol/response, and
--   Mysql/Response/Errors.antt the packets of errors; Mysql/Ready.antt:
--   `wait_until_ready` of connection/stream.rs. Its three loops are one function with a round for each
--   packet that a loop receives, on fuel; Ready/Answers.antt has the answers as a server sends them.
-- - Postgres/Pgpass.antt: sqlx-postgres/src/options/pgpass.rs. Strings are lists of code points, and a
--   file is the list of its lines.
-- - Postgres/Numeric.antt: sqlx-postgres/src/types/numeric.rs. An i16 is an integer with the 16 bits of
--   its residue.
-- - Postgres/Frontend.antt: sqlx-postgres/src/io/mod.rs and buf_mut.rs, and the messages Bind, Close,
--   Describe and Execute of sqlx-postgres/src/message with the frame that message/mod.rs gives them.
-- - Core/Transaction.antt: sqlx-core/src/transaction.rs with the transaction managers of
--   sqlx-postgres/src/transaction.rs and sqlx-mysql/src/transaction.rs. The two managers differ in
--   `begin` only; Session.antt says what the manuals of the servers promise of savepoints, with `Rules`
--   for what they say differently, and Nesting.antt what a user does with transactions that nest.
-- - Sqlite/Worker.antt: the commands of sqlx-sqlite/src/connection/worker.rs that begin and end
--   transactions, on the same assumptions about the database. A caller that has given up is a reply
--   that is not received.
-- - Postgres/TypeInfo.antt: sqlx-postgres/src/type_info.rs. The tables are those of the source, arm by
--   arm. `eq_impl` calls itself on the elements of arrays, here with fuel of the sizes of both types,
--   which each call lowers.
-- - Postgres/Backend/DataRow.antt: sqlx-postgres/src/message/data_row.rs. A row is its bytes and the
--   ranges of its values.
-- - Postgres/Backend/Notice.antt: notices and errors, sqlx-postgres/src/message/response.rs. The loop
--   over the fields of a message runs on fuel of its length, of which each field takes two bytes or more.
-- - Core/ReadBuffer.antt: the half of sqlx-core/src/net/socket/buffered.rs that reads, against the replies
--   of the socket. `try_read` runs on fuel, of which `read_buffered` needs two rounds. The capacity of
--   `BytesMut` is an interface, a record of operations and laws.
-- - Core/BufExt.antt: byte sequences and texts that end in a zero byte or have a known length,
--   sqlx-core/src/io/buf.rs, and Postgres/Backend/RowDescription.antt,
--   sqlx-postgres/src/message/row_description.rs, which reads the names of the columns with them.
-- - Sqlite/Explain.antt: sqlx-sqlite/src/connection/explain.rs, the types of the columns of a query
--   from its bytecode. Explain/Types.antt has what is known of registers, tables and cursors,
--   Opcodes.antt the names of the instructions, Control.antt, Values.antt and Cursors.antt the handlers
--   of `explain`, Step.antt the match on the names, Equality.antt the derived equality of memories,
--   Branches.antt the branches and the two loops, and Output.antt the columns. The loops are one
--   recursion on fuel, seven turns for each of the 100000 instructions that the gas allows: a turn that
--   takes gas starts three branches at most. Sums of the numbers of registers are not wrapped, since
--   SQLite keeps these below 2^31; the integers that registers hold wrap as i64 does in a build without
--   overflow checks. Allocations are taken to succeed. The state's field `result`, which is never set,
--   is left out.
-- - Base.antt and its children: numbers, lists, outcomes, equality and slices, shared by all parts.
--
-- Not modelled: the runtimes, TLS and the sockets themselves, the macros, most of the command line
-- tool, the conversions to types of other crates, and the rest of the drivers, which is input and
-- output around the protocol; of the pool, child pools, time limits and user callbacks.
pub mod Base
pub mod Sqlite
pub mod Core
pub mod Mysql
pub mod Postgres
