-- ===== src/Mysql/Packet/Rounds.antt =====
-- The fuel of the loop of `recv_packet`.
use sqlx.Base.{
  ℕ, zero, suc, ◌+◌, ◌%◌, ◌≤◌, ◌≡◌, refl, inl, inr, false, List, ◌++◌, arith, leb, ◌==◌,
  if◌then◌else◌, Outcome, ok, err, panic, lift, length, length-drop, Bool-cases,
}
use sqlx.Base.Bytes.{Buf}
use sqlx.Base.Runs.{resume, return}
use sqlx.Mysql.Packet.{
  max_payload, Stream, RecvError, Recv, read_exact, set_sequence_id, recv_packet_part, gather,
}

-- Where a call succeeds, it has taken at least `k` bytes off the stream.
abbrev Takes : {A : Type 0} → ℕ → Stream → Outcome RecvError A × Stream → Type 0
Takes k s (ok a, t) = length t.incoming + k ≤ length s.incoming
Takes k s (err e, t) = Unit
Takes k s (panic, t) = Unit

Takes-resume :
    {A B : Type 0} (j k : ℕ) (s : Stream) (r : Outcome RecvError A × Stream) (f : A → Recv B)
    → Takes j s r
    → ((a : A) (t : Stream) → Takes k t (f a t))
    → Takes (j + k) s (resume f r.0 r.1)
Takes-resume {B = B} j k s (ok a, t) f h g = later (f a t) (g a t)
  where
    later : (r : Outcome RecvError B × Stream) → Takes k t r → Takes (j + k) s r
    later (ok b, u) l = omega (arith, h, l)
    later (err e, u) l = tt
    later (panic, u) l = tt
Takes-resume j k s (err e, t) f h g = tt
Takes-resume j k s (panic, t) f h g = tt

read_exact-Takes : (n : ℕ) (s : Stream) → Takes n s (read_exact n s)
unfolding read_exact
read_exact-Takes n s = elim (Bool-cases (leb n (length s.incoming))) [
  | inl e ↦ rw e (ground (arith, e, length-drop n s.incoming))
  | inr e ↦ rw e tt
]

pure_run-Takes : {A : Type 0} (r : Outcome RecvError A) (s : Stream) → Takes 0 s (r, s)
pure_run-Takes (ok a) s = omega arith
pure_run-Takes (err e) s = tt
pure_run-Takes panic s = tt

module _ (buf : Buf) where
  open buf use {get_le}

  recv_packet_part-Takes : (s : Stream) → Takes 4 s (recv_packet_part buf s)
  unfolding recv_packet_part set_sequence_id
  recv_packet_part-Takes s =
      Takes-resume 4 0 s (read_exact 4 s) _ (read_exact-Takes 4 s) λ header t.
        Takes-resume 0 0 t (lift (get_le 3 header), t) _ (pure_run-Takes (lift (get_le 3 header)) t)
          λ p u.
            Takes-resume 0 0 u (lift (get_le 1 p.1), u) _ (pure_run-Takes (lift (get_le 1 p.1)) u)
              λ q v.
                Takes-any p.0 v (read_exact p.0 (record v { sequence_id = (q.0 + 1) % 256 }))
                  (read_exact-Takes p.0 (record v { sequence_id = (q.0 + 1) % 256 }))
    where
      Takes-any :
          (n : ℕ) (t : Stream) (r : Outcome RecvError (List ℕ) × Stream) → Takes n t r → Takes 0 t r
      Takes-any n t (ok a, u) l = omega (arith, l)
      Takes-any n t (err e, u) l = tt
      Takes-any n t (panic, u) l = tt

  -- A round of the loop with two fuels, given that the rounds after it agree.
  same_rounds :
      (r : Outcome RecvError (List ℕ) × Stream) (f g : ℕ) (s : Stream) (acc : List ℕ)
      → Takes 4 s r
      → ((part : List ℕ) (t : Stream)
          → length t.incoming + 4 ≤ length s.incoming
          → gather buf f (acc ++ part) t ≡ gather buf g (acc ++ part) t)
      → resume
          (λ part.
            if length part == max_payload then gather buf f (acc ++ part) else return (acc ++ part))
          r.0
          r.1
        ≡ resume
            (λ part.
              if length part == max_payload
              then gather buf g (acc ++ part)
              else return (acc ++ part))
            r.0
            r.1
  same_rounds (ok part, t) f g s acc k ih = elim (Bool-cases (length part == max_payload)) [
    | inl e ↦ rw e (ih part t k)
    | inr e ↦ rw e refl
  ]
  same_rounds (err e, t) f g s acc k ih = refl
  same_rounds (panic, t) f g s acc k ih = refl

  -- A fuel of the number of bytes in the stream is enough: more of it changes nothing, so that the
  -- loop of `recv_packet` ends only where the source's loop does.
  pub gather-enough :
      (g : ℕ) (acc : List ℕ) (s : Stream)
      → length s.incoming ≤ g
      → gather buf (suc g) acc s ≡ gather buf g acc s
  unfolding gather
  gather-enough zero acc s h =
      let none_left : leb 4 (length s.incoming) ≡ false = ground (arith, h) in
      unfold recv_packet_part read_exact in rw none_left refl
  gather-enough (suc g) acc s h =
      same_rounds (recv_packet_part buf s) (suc g) g s acc (recv_packet_part-Takes s)
        λ part t l. gather-enough g (acc ++ part) t (omega (arith, l, h))
