-- ===== src/Core/ReadBuffer/Tests.antt =====
-- Runs of the read buffer.
use sqlx.Base.{ℕ, ◌≡◌, refl, max, ◌≤◌, List, [], ◌∷◌, arith}
use sqlx.Core.ReadBuffer.{
  Capacity, ReadBuffer, Reply, received, done, unexpected_eof, reserve, read_more, try_read,
  read_buffered,
}
use sqlx.Core.ReadBuffer.Delivery.{IsMessage, read_buffered_lem}

max_right : (c n : ℕ) → n ≤ max c n
max_right c n = ground arith

max_left : (c n : ℕ) → c ≤ max c n
max_left c n = ground arith

-- As much as is asked for.
abbrev exact : Capacity
exact = record {
  with_capacity = λ n. n;
  reserve_more = max;
  with_capacity_enough = λ n. omega arith;
  reserve_more_enough = max_right;
  reserve_more_keeps = max_left;
}

abbrev one_read : ReadBuffer
one_read = record { read = 1 ∷ []; available = 2 }

abbrev two_replies : List Reply
two_replies = received (2 ∷ 3 ∷ []) ∷ received (4 ∷ 5 ∷ []) ∷ []

message_and_rest : read_buffered exact 4 one_read two_replies ≡ record {
  buffer = record { read = 5 ∷ []; available = 0 };
  progress = done (1 ∷ 2 ∷ 3 ∷ 4 ∷ []);
  replies = [];
}
unfolding read_buffered try_read read_more reserve
message_and_rest = refl

end_of_file : (read_buffered exact 4 one_read (received [] ∷ [])).progress ≡ unexpected_eof 4 1
unfolding read_buffered try_read read_more reserve
end_of_file = refl

read_buffered_lem_example :
    IsMessage exact 4 (1 ∷ 2 ∷ 3 ∷ 4 ∷ 5 ∷ []) (read_buffered exact 4 one_read two_replies)
read_buffered_lem_example =
    read_buffered_lem exact 4 one_read two_replies (omega arith, (omega arith, tt)) (omega arith)
