-- ===== src/Core/WriteBuffer/Tests.antt =====
-- The write buffer on short runs, and its theorems at concrete inputs.
use sqlx.Base.{ℕ, ◌≡◌, refl, some, [], ◌∷◌, ◌++◌, ok, arith}
use sqlx.Core.WriteBuffer.{
  WriteBuffer, new, checked, advance, placed, put_slice, get, consume, Encoder, write_with, flush,
  wrote, refused, Flush,
}
use sqlx.Core.WriteBuffer.Queue.{IsSane}
use sqlx.Core.WriteBuffer.Writing.{write_with_lem}
use sqlx.Core.WriteBuffer.Flushing.{Delivers, flush-Delivers}

-- Two of four written bytes are flushed, and a fifth is left from before.
abbrev half_flushed : WriteBuffer
half_flushed = record {
  buf = 1 ∷ 2 ∷ 3 ∷ 4 ∷ 9 ∷ [];
  capacity = 16;
  bytes_written = 4;
  bytes_flushed = 2;
}

half_flushed-IsSane : IsSane half_flushed
half_flushed-IsSane = omega arith

new-IsSane : IsSane new
unfolding new
new-IsSane = omega arith

put_over :
    put_slice half_flushed (7 ∷ [])
    ≡ ok (record {
      buf = 1 ∷ 2 ∷ 3 ∷ 4 ∷ 7 ∷ [];
      capacity = 16;
      bytes_written = 5;
      bytes_flushed = 2;
    })
unfolding put_slice placed advance checked
put_over = refl

consume_all :
    consume half_flushed 2
    ≡ ok (record {
      buf = 1 ∷ 2 ∷ 3 ∷ 4 ∷ 9 ∷ [];
      capacity = 16;
      bytes_written = 0;
      bytes_flushed = 0;
    })
unfolding consume
consume_all = refl

-- An encoder that writes a byte and then fails.
abbrev half_encoder : Encoder ℕ
half_encoder bytes = (bytes ++ (5 ∷ []), some 13)

write_with_lem_example :
    (w' : WriteBuffer) × (write_with half_encoder half_flushed ≡ ok (w', some 13))
    × IsSane w'
    × (get w' ≡ get half_flushed ++ [])
write_with_lem_example =
    write_with_lem half_encoder half_flushed (5 ∷ []) (some 13) half_flushed-IsSane refl
      (omega arith)

flush-Delivers_example :
    (f : Flush) × (flush half_flushed (wrote 1 ∷ wrote 1 ∷ []) refused ≡ ok f)
    × Delivers half_flushed (wrote 1 ∷ wrote 1 ∷ []) refused f
unfolding get
flush-Delivers_example =
    flush-Delivers half_flushed (wrote 1 ∷ wrote 1 ∷ []) refused half_flushed-IsSane (omega arith)
