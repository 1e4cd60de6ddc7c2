-- ===== src/Records/Recordio/Chunks.antt =====
-- recordio_record_reader.cc: how the decoder depends on where a chunk ends.
use ml_io.Base.{
  ◌⊎◌, ℕ, ◌+◌, ◌≤◌, ◌<◌, ◌≡◌, refl, sym, ap, ◌∙◌, Bool, true, false, Option, none, some, [], ◌∷◌,
  ◌++◌, length, length-append, take, drop, drop-append_le, take-append_le, length-drop, ltb, inl,
  inr, Bytes, Bool-cases, ltb→lt, arith,
}
use ml_io.Action.{Error, corrupt_header, Result, ok, err}
use ml_io.Records.Slice.{cut_bytes, drop_bytes}
use ml_io.Records.{Record}
use ml_io.Records.Recordio.{
  ByteOrder, decode_recordio_header, payload_size, header_size, align, record_kind, Chunk,
  decode_body, decode_record,
}

abbrev pub chunk : Bytes → Option ℕ → Chunk
chunk b hint = record { bits = b; record_size_hint = hint }

header-grow :
    (host : ByteOrder) (b more : Bytes) (h : ℕ)
    → decode_recordio_header host b ≡ ok (some h)
    → decode_recordio_header host (b ++ more) ≡ ok (some h)
unfolding decode_recordio_header
header-grow host (a ∷ b ∷ c ∷ d ∷ e ∷ f ∷ g ∷ h ∷ bits) more w x = x
header-grow host _ more w x = cc

abbrev record_size : ℕ → ℕ
record_size h = header_size + align (payload_size h) 4

-- The body decodes where the chunk holds it, whatever follows.
pub body_lem :
    (b : Bytes) (ignore_leftover : Bool) (h : ℕ) (hint : Option ℕ)
    → record_size h ≤ length b
    → header_size + payload_size h ≤ length b
    → decode_body ignore_leftover h (chunk b hint) ≡ (
      ok (
          some (record {
            payload = take (payload_size h) (drop header_size b);
            kind = record_kind h;
          })),
      chunk (drop (record_size h) b) hint,
    )
unfolding cut_bytes drop_bytes
body_lem b ignore_leftover h hint l m =
    let e : ltb (length b) (record_size h) ≡ false = ground arith in
    let f : ltb (length b) (header_size + payload_size h) ≡ false = ground arith in rw (e, f)

body_short :
    (b : Bytes) (h : ℕ) (hint : Option ℕ)
    → length b < record_size h
    → decode_body true h (chunk b hint) ≡ (ok none, chunk b (some (record_size h)))
body_short b h hint l = let e : ltb (length b) (record_size h) ≡ true = ground arith in rw e

payload-le-record : (h : ℕ) → header_size + payload_size h ≤ record_size h
unfolding align
payload-le-record h = omega arith

Header-cases :
    (r : Result (Option ℕ))
    → (r ≡ ok none) ⊎ (((h : ℕ) × (r ≡ ok (some h))) ⊎ ((e : Error) × (r ≡ err e)))
Header-cases (ok none) = inl refl
Header-cases (ok (some h)) = inr (inl (h, refl))
Header-cases (err e) = inr (inr (e, refl))

-- A call that decodes a record has found its header, and the chunk holds all of it.
decode-some :
    (host : ByteOrder) (ignore_leftover : Bool) (b : Bytes) (hint : Option ℕ) {r : Record}
    {s : Chunk}
    → decode_record host ignore_leftover (chunk b hint) ≡ (ok (some r), s)
    → (h : ℕ) × (decode_recordio_header host b ≡ ok (some h)) × (record_size h ≤ length b)
unfolding decode_record
decode-some host ign [] hint x = cc
decode-some host ign (c ∷ b) hint x = elim (Header-cases (decode_recordio_header host (c ∷ b))) [
  | inl e ↦ absurd (ground (arith, e))
  | inr (inl (h, e)) ↦ (h, e, ground (arith, e))
  | inr (inr (f, e)) ↦ absurd (ground (arith, e))
]

decode-body :
    (host : ByteOrder) (ignore_leftover : Bool) (b : Bytes) (hint : Option ℕ) (h : ℕ)
    → decode_recordio_header host b ≡ ok (some h)
    → record_size h ≤ length b
    → decode_record host ignore_leftover (chunk b hint)
      ≡ decode_body ignore_leftover h (chunk b hint)
unfolding decode_record
decode-body host ign [] hint h e l = absurd (omega arith)
decode-body host ign (c ∷ b) hint h e l = rw e

-- A record that was decoded is decoded the same whatever follows in the chunk, and whether the
-- stream is at its end or not: chunk boundaries do not show.
pub decode_record-grow :
    (host : ByteOrder) (ignore_leftover at_end : Bool) (b more : Bytes) (hint : Option ℕ)
    {r : Record} {s : Chunk}
    → decode_record host ignore_leftover (chunk b hint) ≡ (ok (some r), s)
    → decode_record host at_end (chunk (b ++ more) hint)
      ≡ (ok (some r), chunk (s.bits ++ more) hint)
decode_record-grow host ign at_end b more hint {r} {s} x =
    let (h, e, l) = decode-some host ign b hint x in
    let m = payload-le-record h in
    let here = decode-body host ign b hint h e l ∙ body_lem b ign h hint l (omega arith) in
    let there =
      decode-body host at_end (b ++ more) hint h (header-grow host b more h e)
        (omega (arith, length-append b more))
      ∙ body_lem (b ++ more) at_end h hint (omega (arith, length-append b more))
          (omega (arith, length-append b more)) in
    let same : take (payload_size h) (drop header_size (b ++ more))
        ≡ take (payload_size h) (drop header_size b) =
      ap (take (payload_size h)) (drop-append_le header_size b more (omega arith))
      ∙ take-append_le (payload_size h) (drop header_size b) more
          (omega (arith, length-drop header_size b)) in
    let left = drop-append_le (record_size h) b more l in ground (arith, here, there, same, left)

-- With more to come a chunk that holds no whole record is left as it is, for the reader to extend.
pub decode_record-none :
    (host : ByteOrder) (b : Bytes) (hint : Option ℕ) {s : Chunk}
    → decode_record host true (chunk b hint) ≡ (ok none, s)
    → s.bits ≡ b
unfolding decode_record
decode_record-none host [] hint x = cc
decode_record-none host (c ∷ b) hint x = elim (Header-cases (decode_recordio_header host (c ∷ b))) [
  | inl e ↦ ground (arith, e)
  | inr (inl (h, e)) ↦ ground (arith, e)
  | inr (inr (f, e)) ↦ ground (arith, e)
]

-- What is left of a chunk is not longer than the chunk.
pub decode_record-length :
    (host : ByteOrder) (ignore_leftover : Bool) (b : Bytes) (hint : Option ℕ) {r : Record}
    {s : Chunk}
    → decode_record host ignore_leftover (chunk b hint) ≡ (ok (some r), s)
    → length s.bits ≤ length b
decode_record-length host ign b hint {r} {s} x =
    let (h, e, l) = decode-some host ign b hint x in
    let m = payload-le-record h in
    let here = decode-body host ign b hint h e l ∙ body_lem b ign h hint l (omega arith) in
    let same : s.bits ≡ drop (record_size h) b = ap (λ z. z.1.bits) (sym x ∙ here) in
    omega (arith, ap length same, length-drop (record_size h) b)

header-fault :
    (host : ByteOrder) (b more : Bytes) {f : Error}
    → decode_recordio_header host b ≡ err f
    → decode_recordio_header host (b ++ more) ≡ err f
unfolding decode_recordio_header
header-fault host (a ∷ b ∷ c ∷ d ∷ e ∷ f ∷ g ∷ h ∷ bits) more x = x
header-fault host _ more x = cc

body-cases :
    (host : ByteOrder) (b : Bytes) (hint : Option ℕ) (h : ℕ) {e : Error} {c : Chunk}
    → decode_body true h (chunk b hint) ≡ (err e, c)
    → ⊥
body-cases host b hint h x = elim (Bool-cases (ltb (length b) (record_size h))) [
  | inl f ↦
      let y = body_short b h hint (ltb→lt _ _ f) in absurd (let k = ap (λ z. z.0) (sym x ∙ y) in cc)
  | inr f ↦
      let m = payload-le-record h in
      let l : record_size h ≤ length b = ground arith in
      let y = body_lem b true h hint l (omega arith) in
      absurd (let k = ap (λ z. z.0) (sym x ∙ y) in cc)
]

open-body :
    (host : ByteOrder) (ignore_leftover : Bool) (a : ℕ) (b : Bytes) (hint : Option ℕ) (h : ℕ)
    → decode_recordio_header host (a ∷ b) ≡ ok (some h)
    → decode_record host ignore_leftover (chunk (a ∷ b) hint)
      ≡ decode_body ignore_leftover h (chunk (a ∷ b) hint)
unfolding decode_record
open-body host ign a b hint h e = rw e

open-fault :
    (host : ByteOrder) (ignore_leftover : Bool) (a : ℕ) (b : Bytes) (hint : Option ℕ) {g : Error}
    → decode_recordio_header host (a ∷ b) ≡ err g
    → decode_record host ignore_leftover (chunk (a ∷ b) hint) ≡ (err g, chunk (a ∷ b) hint)
unfolding decode_record
open-fault host ign a b hint e = rw e

-- With more to come only a header can be at fault, and it stays so.
pub decode_record-fault :
    (host : ByteOrder) (b more : Bytes) (hint : Option ℕ) {e : Error} {c : Chunk}
    → decode_record host true (chunk b hint) ≡ (err e, c)
    → (d : Chunk) × (decode_record host false (chunk (b ++ more) hint) ≡ (err e, d))
unfolding decode_record
decode_record-fault host [] more hint x = cc
decode_record-fault host (a ∷ b) more hint {e} x =
    elim (Header-cases (decode_recordio_header host (a ∷ b))) [
      | inl f ↦ absurd (ground (arith, f))
      | inr (inl (h, f)) ↦
          absurd (body-cases host (a ∷ b) hint h (sym (open-body host true a b hint h f) ∙ x))
      | inr (inr (g, f)) ↦
          let k : err g ≡ err e = ap (λ z. z.0) (sym (open-fault host true a b hint f) ∙ x) in
          (
            chunk ((a ∷ b) ++ more) hint,
            open-fault host false a (b ++ more) hint (header-fault host (a ∷ b) more f)
                ∙ ap (λ q. (q, chunk ((a ∷ b) ++ more) hint)) k,
          )
    ]

body-some :
    (b : Bytes) (hint : Option ℕ) (h : ℕ) {c : Chunk}
    → decode_body false h (chunk b hint) ≡ (ok none, c)
    → ⊥
body-some b hint h x = elim (Bool-cases (ltb (length b) (record_size h))) [
  | inl f ↦
      let y : decode_body false h (chunk b hint) ≡ (err corrupt_header, chunk b hint) = rw f refl in
      absurd (let k = ap (λ z. z.0) (sym x ∙ y) in cc)
  | inr f ↦
      let m = payload-le-record h in
      let l : record_size h ≤ length b = ground arith in
      let y = body_lem b false h hint l (omega arith) in
      absurd (let k = ap (λ z. z.0) (sym x ∙ y) in cc)
]

-- At the end of the stream only an empty chunk gives no record.
pub decode_record-ended :
    (host : ByteOrder) (b : Bytes) (hint : Option ℕ) {c : Chunk}
    → decode_record host false (chunk b hint) ≡ (ok none, c)
    → b ≡ []
unfolding decode_record
decode_record-ended host [] hint x = refl
decode_record-ended host (a ∷ b) hint x =
    elim (Header-cases (decode_recordio_header host (a ∷ b))) [
      | inl f ↦ absurd (ground (arith, f))
      | inr (inl (h, f)) ↦
          absurd (body-some (a ∷ b) hint h (sym (open-body host false a b hint h f) ∙ x))
      | inr (inr (g, f)) ↦ absurd (ground (arith, f))
    ]

pub decode_record-nil :
    (host : ByteOrder) (ignore_leftover : Bool) (hint : Option ℕ)
    → decode_record host ignore_leftover (chunk [] hint) ≡ (ok none, chunk [] hint)
unfolding decode_record
decode_record-nil host ign hint = refl
