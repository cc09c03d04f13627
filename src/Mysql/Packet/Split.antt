-- ===== src/Mysql/Packet/Split.antt =====
-- A payload that was cut into packets is received as it was.
use mathlib.Core.List.{append_assoc}
use sqlx.Base.{
  ℕ, zero, suc, ◌+◌, ◌%◌, ◌≡◌, ◌≤◌, ◌<◌, refl, sym, ap, ◌∙◌, inl, inr, min, true, false, List, [],
  ◌∷◌, ◌++◌, arith, ltb, ◌==◌, ok, length, length-append, length-take, length-drop,
  take-append-drop, take, drop, Bool-cases, le→leb, lt→ltb,
}
use sqlx.Base.Slices.{take-append, drop-append}
use sqlx.Base.Bytes.{
  Buf, to_le_bytes, length-to_le_bytes, get_le-to_le_bytes, get_u8, set-to_le_bytes,
}
use sqlx.Mysql.Packet.{
  max_payload, next_header, put_chunks, Stream, read_exact, set_sequence_id, recv_packet_part,
  gather,
}

abbrev pub header : ℕ → ℕ → List ℕ
header len seq = (next_header len seq).0

header_lem : (len seq : ℕ) → header len seq ≡ to_le_bytes 3 len ++ seq ∷ []
unfolding next_header
header_lem len seq = set-to_le_bytes 3 len seq

pub length-header : (len seq : ℕ) → length (header len seq) ≡ 4
length-header len seq =
    ap length (header_lem len seq)
    ∙ omega (arith, length-append (to_le_bytes 3 len) (seq ∷ []), length-to_le_bytes 3 len)

read_exact_lem :
    (s : Stream) (n : ℕ) (p rest : List ℕ)
    → s.incoming ≡ p ++ rest
    → length p ≡ n
    → read_exact n s ≡ (ok p, record s { incoming = rest })
unfolding read_exact
read_exact_lem s n p rest e len =
    rw
      (
        e,
        le→leb n (length (p ++ rest)) (omega (arith, length-append p rest, len)),
        take-append p rest n len,
        drop-append p rest n len,
      )
      refl

pub put_chunks_last :
    (f : ℕ) (p : List ℕ) (q : ℕ)
    → length p < max_payload
    → put_chunks f p q ≡ (header (length p) q ++ p, (q + 1) % 256)
unfolding put_chunks next_header
put_chunks_last zero p q h = refl
put_chunks_last (suc f) p q h =
    let whole : min (length p) max_payload ≡ length p = omega (arith, h) in
    rw (lt→ltb (length p) max_payload h, whole) refl

pub put_chunks_more :
    (f : ℕ) (p : List ℕ) (q : ℕ)
    → max_payload ≤ length p
    → put_chunks (suc f) p q ≡ (
      header max_payload q
          ++ take max_payload p
          ++ (put_chunks f (drop max_payload p) ((q + 1) % 256)).0,
      (put_chunks f (drop max_payload p) ((q + 1) % 256)).1,
    )
unfolding put_chunks next_header
put_chunks_more f p q h =
    let full : min (length p) max_payload ≡ max_payload = omega (arith, h) in
    let more : ltb (length p) max_payload ≡ false = ground (arith, h) in rw (more, full) refl

pub long_of : (n : ℕ) → ltb n max_payload ≡ false → max_payload ≤ n
long_of n h = ground (arith, h)

pub length-put_chunks : (f : ℕ) (p : List ℕ) (q : ℕ) → length p ≤ length (put_chunks f p q).0
unfolding put_chunks
length-put_chunks zero p q = omega (arith, length-append (header (length p) q) p)
length-put_chunks (suc f) p q = elim (Bool-cases (ltb (length p) max_payload)) [
  | inl b ↦ rw b (omega (arith, length-append (header (min (length p) max_payload) q) p))
  | inr b ↦
      let later =
        put_chunks f (drop max_payload p) (next_header (min (length p) max_payload) q).1 in
      let front = header (min (length p) max_payload) q ++ take max_payload p in
      rw b (
        omega (
          arith,
          length-append front later.0,
          length-append (header (min (length p) max_payload) q) (take max_payload p),
          length-take max_payload p,
          length-drop max_payload p,
          length-put_chunks f (drop max_payload p) (next_header (min (length p) max_payload) q).1,
        ))
]

module _ (buf : Buf) where
  open buf use {get_le}

  pub recv_packet_part_lem :
      (s : Stream) (p rest : List ℕ) (q : ℕ)
      → s.incoming ≡ header (length p) q ++ p ++ rest
      → length p ≤ max_payload
      → recv_packet_part buf s ≡ (ok p, record s { incoming = rest; sequence_id = (q + 1) % 256 })
  unfolding recv_packet_part set_sequence_id
  recv_packet_part_lem s p rest q e h =
      rw
        (
          read_exact_lem s 4 (header (length p) q) (p ++ rest)
              (e ∙ append_assoc (header (length p) q) p rest) (length-header (length p) q),
          header_lem (length p) q,
          get_le-to_le_bytes buf 3 (length p) (q ∷ []) (omega (arith, h)),
          get_u8 buf q [],
        )
        (read_exact_lem (record s { incoming = p ++ rest; sequence_id = (q + 1) % 256 }) (length p)
          p rest refl refl)

  gather_last :
      (g : ℕ) (s : Stream) (acc p rest : List ℕ) (q : ℕ)
      → s.incoming ≡ header (length p) q ++ p ++ rest
      → length p < max_payload
      → gather buf (suc g) acc s
        ≡ (ok (acc ++ p), record s { incoming = rest; sequence_id = (q + 1) % 256 })
  unfolding gather
  gather_last g s acc p rest q e h =
      let short : (length p == max_payload) ≡ false = ground (arith, h) in
      rw (recv_packet_part_lem s p rest q e (omega (arith, h)), short) refl

  gather_more :
      (g : ℕ) (s : Stream) (acc p rest : List ℕ) (q : ℕ)
      → s.incoming ≡ header max_payload q ++ p ++ rest
      → length p ≡ max_payload
      → gather buf (suc g) acc s
        ≡ gather buf g (acc ++ p) (record s { incoming = rest; sequence_id = (q + 1) % 256 })
  unfolding gather
  gather_more g s acc p rest q e h =
      let full : (length p == max_payload) ≡ true = ground (arith, h) in
      rw
        (
          recv_packet_part_lem s p rest q (e ∙ ap (λ n. header n q ++ p ++ rest) (sym h))
              (omega (arith, h)),
          full,
        )
        refl

  pub gather_lem :
      (f g : ℕ) (s : Stream) (acc p rest : List ℕ) (q : ℕ)
      → length p ≤ f
      → f < g
      → s.incoming ≡ (put_chunks f p q).0 ++ rest
      → gather buf g acc s
        ≡ (ok (acc ++ p), record s { incoming = rest; sequence_id = (put_chunks f p q).1 })
  gather_lem f zero s acc p rest q le lt e = absurd (omega (arith, lt))
  gather_lem zero (suc g) s acc p rest q le lt e =
      let short : length p < max_payload = omega (arith, le) in
      let chunks = put_chunks_last zero p q short in
      rw chunks (gather_last g s acc p rest q (rw chunks at e) short)
  gather_lem (suc f) (suc g) s acc p rest q le lt e =
      elim (Bool-cases (ltb (length p) max_payload)) [
        | inl b ↦
            let short : length p < max_payload = ground (arith, b) in
            let chunks = put_chunks_last (suc f) p q short in
            rw chunks (gather_last g s acc p rest q (rw chunks at e) short)
        | inr b ↦
            let long : max_payload ≤ length p = ground (arith, b) in
            let chunks = put_chunks_more f p q long in
            let later = drop max_payload p in
            let first = take max_payload p in
            let more = put_chunks f later ((q + 1) % 256) in
            let s' : Stream = record s { incoming = more.0 ++ rest; sequence_id = (q + 1) % 256 } in
            rw chunks (
              gather_more g s acc first (more.0 ++ rest) q
                ((rw chunks at e) ∙ append_assoc (header max_payload q ++ first) more.0 rest)
                (omega (arith, length-take max_payload p, long))
              ∙ gather_lem f g s' (acc ++ first) later rest ((q + 1) % 256)
                  (omega (arith, length-drop max_payload p, le, long)) (omega (arith, lt)) refl
              ∙ ap (λ xs. (ok xs, record s { incoming = rest; sequence_id = more.1 }))
                  (append_assoc acc first later
                    ∙ ap (λ xs. acc ++ xs) (take-append-drop max_payload p)))
      ]
