-- ===== src/Mysql/Packet/RoundTrip.antt =====
-- What `Packet::encode_with` writes, and `recv_packet` on it.
use mathlib.Core.List.{append_assoc}
use sqlx.Base.{
  ℕ, suc, ◌+◌, ◌-◌, ◌%◌, ◌≡◌, ◌≢◌, ◌≤◌, ◌<◌, refl, sym, ap, ◌∙◌, inl, inr, min, true, false, none,
  List, [], ◌∷◌, ◌++◌, arith, leb, ltb, ◌==◌, ok, length, length-append, length-take,
  take-append-drop, take, drop, Bool-cases, le→leb, ltb→lt,
}
use sqlx.Base.Slices.{take-append, drop-append, take-append_length, drop-drop}
use sqlx.Base.Bytes.{Buf}
use sqlx.Core.WriteBuffer.{Encoder}
use sqlx.Mysql.Packet.{
  max_payload, next_header, put_chunks, put_headers, settle, encode_with, Stream, check_payload,
  rest_of, recv_packet,
}
use sqlx.Mysql.Packet.Split.{
  header, length-header, put_chunks_last, put_chunks_more, long_of, length-put_chunks,
  recv_packet_part_lem, gather_lem,
}

abbrev pub zeros : List ℕ
zeros = 0 ∷ 0 ∷ 0 ∷ 0 ∷ []

-- The packets of a payload, and the sequence number after them.
abbrev pub packets : List ℕ → ℕ → List ℕ × ℕ
packets p seq = put_chunks (suc (length (drop max_payload p))) p seq

put_headers_lem :
    (v p : List ℕ) (seq : ℕ)
    → put_headers (v ++ zeros ++ p) (length v) seq ≡ (v ++ (packets p seq).0, (packets p seq).1)
unfolding put_headers next_header
put_headers_lem v p seq = elim (Bool-cases (ltb (length p) max_payload)) [
  | inl b ↦
      let short : length p < max_payload = ground (arith, b) in
      let single : leb max_payload (length p) ≡ false = ground (arith, b) in
      let whole : min (length p) max_payload ≡ length p = omega (arith, short) in
      rw
        (
          size,
          front,
          back,
          single,
          whole,
          put_chunks_last (suc (length (drop max_payload p))) p seq short,
        )
        (ap (λ xs. (xs, (seq + 1) % 256)) (append_assoc v (header (length p) seq) p))
  | inr b ↦
      let long : max_payload ≤ length p = ground (arith, b) in
      let several : leb max_payload (length p) ≡ true = le→leb _ _ long in
      let full : min (length p) max_payload ≡ max_payload = omega (arith, long) in
      rw
        (
          size,
          front,
          back,
          several,
          full,
          behind max_payload,
          before max_payload,
          put_chunks_more (length (drop max_payload p)) p seq long,
        )
        (ap
          (λ xs. (
            xs,
            (put_chunks (length (drop max_payload p)) (drop max_payload p) ((seq + 1) % 256)).1,
          ))
          (simp append_assoc))
]
  where
    size : length (v ++ zeros ++ p) - length v - 4 ≡ length p
    size = omega (arith, length-append (v ++ zeros) p, length-append v zeros)

    front : take (length v) (v ++ zeros ++ p) ≡ v
    front =
        ap (take (length v)) (append_assoc v zeros p) ∙ take-append v (zeros ++ p) (length v) refl

    back : drop (length v + 4) (v ++ zeros ++ p) ≡ p
    back = drop-append (v ++ zeros) p (length v + 4) (length-append v zeros)

    behind :
        (n : ℕ) → drop (length v + 4 + max_payload) (v ++ header n seq ++ p) ≡ drop max_payload p
    behind n =
        sym (drop-drop max_payload (length v + 4) (v ++ header n seq ++ p))
        ∙ ap (drop max_payload) (
            drop-append (v ++ header n seq) p (length v + 4)
              (omega (arith, length-append v (header n seq), length-header n seq)))

    before :
        (n : ℕ)
        → take (length v + 4 + max_payload) (v ++ header n seq ++ p)
          ≡ v ++ header n seq ++ take max_payload p
    before n =
        take-append_length (v ++ header n seq) p (length v + 4) max_payload
          (omega (arith, length-append v (header n seq), length-header n seq))

enough_fuel :
    (header first more rest incoming : List ℕ) (f : ℕ)
    → incoming ≡ header ++ first ++ (more ++ rest)
    → length first ≡ max_payload
    → f ≤ length more
    → f < length incoming
enough_fuel header first more rest incoming f e size h = omega (
  arith,
  ap length e,
  length-append (header ++ first) (more ++ rest),
  length-append header first,
  length-append more rest,
  size,
  h,
)

module _ (buf : Buf) where
  check_payload_lem :
      (s : Stream) (p : List ℕ) (b : ℕ) (bs : List ℕ)
      → p ≡ b ∷ bs
      → b ≢ 255
      → check_payload p s ≡ (ok p, s)
  unfolding check_payload
  check_payload_lem s p b bs cons h =
      let fine : (b == 255) ≡ false = ground (arith, h) in rw (cons, fine) refl

  recv_first :
      (s : Stream) (p rest : List ℕ) (q b : ℕ) (bs : List ℕ)
      → p ≡ b ∷ bs
      → b ≢ 255
      → s.incoming ≡ (packets p q).0 ++ rest
      → recv_packet buf s ≡ (ok p, record s { incoming = rest; sequence_id = (packets p q).1 })
  unfolding recv_packet rest_of
  recv_first s p rest q b bs cons h e = elim (Bool-cases (ltb (length p) max_payload)) [
    | inl k ↦
        let short : length p < max_payload = ltb→lt (length p) max_payload k in
        let chunks = put_chunks_last (suc (length (drop max_payload p))) p q short in
        let s' : Stream = record s { incoming = rest; sequence_id = (q + 1) % 256 } in
        rw (recv_packet_part_lem buf s p rest q (rw chunks at e) (omega (arith, short)), k, chunks)
          (check_payload_lem s' p b bs cons h)
    | inr k ↦
        let long : max_payload ≤ length p = long_of (length p) k in
        let later = drop max_payload p in
        let first = take max_payload p in
        let f = length later in
        let more = put_chunks f later ((q + 1) % 256) in
        let chunks = put_chunks_more f p q long in
        let size : length first ≡ max_payload = omega (arith, length-take max_payload p, long) in
        let whole : first ++ later ≡ p = take-append-drop max_payload p in
        let s' : Stream = record s { incoming = more.0 ++ rest; sequence_id = (q + 1) % 256 } in
        let split : s.incoming ≡ header max_payload q ++ first ++ (more.0 ++ rest) =
          (rw chunks at e) ∙ append_assoc (header max_payload q ++ first) more.0 rest in
        let at_first : s.incoming ≡ header (length first) q ++ first ++ (more.0 ++ rest) =
          split ∙ ap (λ n. header n q ++ first ++ (more.0 ++ rest)) (sym size) in
        let enough : f < length s.incoming =
          enough_fuel (header max_payload q) first more.0 rest s.incoming f split size
            (length-put_chunks f later ((q + 1) % 256)) in
        let again : (ltb (length first) max_payload ≡ false) = rw size refl in
        rw
          (
            recv_packet_part_lem buf s first (more.0 ++ rest) q at_first (omega (arith, size)),
            again,
            gather_lem buf f (length s.incoming) s' first later rest ((q + 1) % 256) (omega arith)
                enough refl,
            whole,
            chunks,
          )
          (check_payload_lem (record s { incoming = rest; sequence_id = more.1 }) p b bs cons h)
  ]

  -- A payload that is not empty and does not begin with the mark of an error, written by an encoder
  -- that appends it, in one packet or cut into several: what `encode_with` appends is received as
  -- the payload, whatever follows is left for the next call, and both sides end with the same
  -- sequence number.
  pub recv_packet-encode_with :
      {E : Type 0} (encode : Encoder E) (v p : List ℕ) (seq b : ℕ) (bs : List ℕ)
      → encode (v ++ zeros) ≡ (v ++ zeros ++ p, none)
      → p ≡ b ∷ bs
      → b ≢ 255
      → (wire : List ℕ) × (last : ℕ) × (encode_with encode v seq ≡ ((v ++ wire, last), none))
        × ((s : Stream) (rest : List ℕ)
            → s.incoming ≡ wire ++ rest
            → recv_packet buf s ≡ (ok p, record s { incoming = rest; sequence_id = last }))
  unfolding encode_with settle
  recv_packet-encode_with encode v p seq b bs appends cons h = (
    (packets p seq).0,
    (packets p seq).1,
    rw (appends, put_headers_lem v p seq) refl,
    λ s rest e. recv_first s p rest seq b bs cons h e,
  )
