-- ===== src/Mysql/Packet/Tests.antt =====
-- Runs of packets.
use sqlx.Base.{ℕ, ◌≡◌, refl, List, [], ◌∷◌, ◌++◌, arith, none, ok}
use sqlx.Base.Bytes.Cursor.{cursor}
use sqlx.Core.WriteBuffer.{Encoder}
use sqlx.Mysql.Packet.{encode_with, Stream, recv_packet}
use sqlx.Mysql.Packet.RoundTrip.{recv_packet-encode_with}

-- COM_QUERY with a text of two bytes.
abbrev query : Encoder (Unit {0})
query v = (v ++ 3 ∷ 97 ∷ 98 ∷ [], none)

recv_packet-encode_with_example :
    (wire : List ℕ) × (last : ℕ) × (encode_with query (7 ∷ []) 255 ≡ ((7 ∷ [] ++ wire, last), none))
    × ((s : Stream) (rest : List ℕ)
        → s.incoming ≡ wire ++ rest
        → recv_packet cursor s
          ≡ (ok (3 ∷ 97 ∷ 98 ∷ []), record s { incoming = rest; sequence_id = last }))
recv_packet-encode_with_example =
    recv_packet-encode_with cursor query (7 ∷ []) (3 ∷ 97 ∷ 98 ∷ []) 255 3 (97 ∷ 98 ∷ []) refl refl
      (omega arith)

-- A packet of one byte.
abbrev short_stream : Stream
short_stream = record { incoming = 1 ∷ 0 ∷ 0 ∷ 3 ∷ 9 ∷ []; sequence_id = 0; waiting = [] }
