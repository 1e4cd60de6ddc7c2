-- ===== src/Records/Recordio/RoundTrip.antt =====
-- recordio_record_reader.cc: a writer of the RecordIO format beside the decoder.
use ml_io.Base.{
  ℕ, ◌+◌, ◌-◌, ◌*◌, ◌/◌, ◌%◌, ◌^◌, ◌≤◌, ◌<◌, ◌≡◌, sym, ap, ◌∙◌, Bool, false, Option, some, ◌∷◌,
  ◌++◌, length, length-append, length-replicate, drop, drop-drop, take-append, drop-append,
  append_assoc, replicate, ltb, Bytes, arith,
}
use ml_io.Action.{ok}
use ml_io.Records.Slice.{cut_bytes, drop_bytes}
use ml_io.Records.{RecordKind, complete, begin, middle, end, unnamed, Record}
use ml_io.Records.Recordio.{
  ByteOrder, little, big, word, reverse_bytes, decode_recordio_header, record_kind, payload_size,
  header_size, align, decode_record, decode_body,
}

abbrev pub kind_code : RecordKind → ℕ
kind_code complete = 0
kind_code begin = 1
kind_code middle = 2
kind_code end = 3
kind_code (unnamed k) = k

abbrev pub IsKind : RecordKind → Type 0
IsKind (unnamed k) = (4 ≤ k) × (k < 8)
IsKind _ = Unit {0}

-- A 32-bit number, its lowest byte first.
abbrev pub write_word : ℕ → Bytes → Bytes
write_word v rest =
    (v % 2 ^ 8) ∷ (v / 2 ^ 8 % 2 ^ 8) ∷ (v / 2 ^ 16 % 2 ^ 8) ∷ (v / 2 ^ 24 % 2 ^ 8) ∷ rest

abbrev pub header_word : Record → ℕ
header_word r = kind_code r.kind * 2 ^ 29 + length r.payload

-- A record as the format has it: magic number, header, payload, and zeros up to four bytes.
abbrev pub write_record : Record → Bytes → Bytes
write_record r rest = write_word 0xced7230a (
    write_word (header_word r)
      (r.payload ++ (replicate (align (length r.payload) 4 - length r.payload) 0 ++ rest)))

word-write :
    (v : ℕ)
    → v < 2 ^ 32
    → word little (v % 2 ^ 8) (v / 2 ^ 8 % 2 ^ 8) (v / 2 ^ 16 % 2 ^ 8) (v / 2 ^ 24 % 2 ^ 8) ≡ v
unfolding word
word-write v h = omega arith

-- A big-endian host sees the bytes the other way round, and turns them back.
reverse-word :
    (a b c d : ℕ)
    → a < 2 ^ 8
    → b < 2 ^ 8
    → c < 2 ^ 8
    → d < 2 ^ 8
    → reverse_bytes (word big a b c d) ≡ word little a b c d
unfolding word reverse_bytes
reverse-word a b c d ha hb hc hd = omega arith

reverse-write :
    (v : ℕ)
    → v < 2 ^ 32
    → reverse_bytes
        (word big (v % 2 ^ 8) (v / 2 ^ 8 % 2 ^ 8) (v / 2 ^ 16 % 2 ^ 8) (v / 2 ^ 24 % 2 ^ 8))
      ≡ v
reverse-write v h =
    reverse-word (v % 2 ^ 8) (v / 2 ^ 8 % 2 ^ 8) (v / 2 ^ 16 % 2 ^ 8) (v / 2 ^ 24 % 2 ^ 8)
      (omega arith) (omega arith) (omega arith) (omega arith)
    ∙ word-write v h

header-write :
    (host : ByteOrder) (v : ℕ) (rest : Bytes)
    → v < 2 ^ 32
    → decode_recordio_header host (write_word 0xced7230a (write_word v rest)) ≡ ok (some v)
unfolding decode_recordio_header
header-write little v rest h = ap (λ x. ok (some x)) (word-write v h)
header-write big v rest h = ap (λ x. ok (some x)) (reverse-write v h)

-- The kind takes the upper three bits of the header, the payload's size the others.
header-fields :
    (kind : RecordKind) (n : ℕ)
    → IsKind kind
    → n < 2 ^ 29
    → (kind_code kind * 2 ^ 29 + n < 2 ^ 32)
      × (record_kind (kind_code kind * 2 ^ 29 + n) ≡ kind)
      × (payload_size (kind_code kind * 2 ^ 29 + n) ≡ n)
unfolding record_kind payload_size
header-fields kind n k h = ground arith

align_bounds : (n : ℕ) → (n ≤ align n 4) × (align n 4 < n + 4) × (align n 4 % 4 ≡ 0)
unfolding align
align_bounds n = omega arith

abbrev padding : Bytes → Bytes
padding payload = replicate (align (length payload) 4 - length payload) 0

module _ (r : Record) (rest : Bytes) where
  length-written :
      length (write_record r rest) ≡ header_size + align (length r.payload) 4 + length rest
  length-written = omega (
    arith,
    length-append r.payload (padding r.payload ++ rest),
    length-append (padding r.payload) rest,
    length-replicate {A = ℕ} (align (length r.payload) 4 - length r.payload) 0,
    (align_bounds (length r.payload)).0,
  )

  cut-written : cut_bytes (write_record r rest) header_size (length r.payload) ≡ ok r.payload
  unfolding cut_bytes
  cut-written =
      let e : ltb (length (write_record r rest)) (header_size + length r.payload) ≡ false =
        ground (arith, length-written, (align_bounds (length r.payload)).0) in
      rw (e, take-append r.payload (padding r.payload ++ rest))

  drop-written :
      drop_bytes (write_record r rest) (header_size + align (length r.payload) 4) ≡ ok rest
  unfolding drop_bytes
  drop-written =
      let e : ltb (length (write_record r rest)) (header_size + align (length r.payload) 4)
          ≡ false =
        ground (arith, length-written) in
      let k : length (r.payload ++ padding r.payload) ≡ align (length r.payload) 4 = omega (
        arith,
        length-append r.payload (padding r.payload),
        length-replicate {A = ℕ} (align (length r.payload) 4 - length r.payload) 0,
        (align_bounds (length r.payload)).0,
      ) in
      rw e (
        ap ok (
          sym (drop-drop (align (length r.payload) 4) header_size (write_record r rest))
          ∙ ap (drop (align (length r.payload) 4))
              (sym (append_assoc r.payload (padding r.payload) rest))
          ∙ ap (λ n. drop n ((r.payload ++ padding r.payload) ++ rest)) (sym k)
          ∙ drop-append (r.payload ++ padding r.payload) rest))

  body-written :
      (ignore_leftover : Bool) (hint : Option ℕ)
      → IsKind r.kind
      → length r.payload < 2 ^ 29
      → decode_body ignore_leftover
          (header_word r)
          (record { bits = write_record r rest; record_size_hint = hint })
        ≡ (ok (some r), record { bits = rest; record_size_hint = hint })
  body-written ignore_leftover hint k h =
      let (_, kind, size) = header-fields r.kind (length r.payload) k h in
      let e : ltb (length (write_record r rest)) (header_size + align (length r.payload) 4)
          ≡ false =
        ground (arith, length-written) in
      rw (size, e, cut-written, drop-written, kind)

  -- A record of a payload below 2 ^ 29 bytes and a kind of three bits that was written is read
  -- back, on a host of either byte order, and the chunk goes on behind it.
  pub decode_record-write :
      (host : ByteOrder) (ignore_leftover : Bool) (hint : Option ℕ)
      → IsKind r.kind
      → length r.payload < 2 ^ 29
      → decode_record host ignore_leftover
          (record { bits = write_record r rest; record_size_hint = hint })
        ≡ (ok (some r), record { bits = rest; record_size_hint = hint })
  unfolding decode_record
  decode_record-write host ignore_leftover hint k h =
      rw (header-write host (header_word r) _ (header-fields r.kind (length r.payload) k h).0)
        (body-written ignore_leftover hint k h)
