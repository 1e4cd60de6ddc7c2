-- ===== src/Records/Stream/Memory.antt =====
-- record_readers/detail/chunk_reader.cc and in_memory_chunk_reader.cc beside it: the reader of a
-- stream that gives its bytes without a copy, as a memory stream does.
use ml_io.Base.{
  ℕ, zero, suc, ◌+◌, ◌≤◌, ◌≡◌, refl, sym, ap, subst, ◌∙◌, Bool, true, false, not, Option, none,
  some, List, [], ◌∷◌, length, min, length-take, length-drop, take, drop, ◌==◌, if◌then◌else◌,
  Bytes, Bool-cases, inl, inr, take_all, arith,
}
use ml_io.Action.{out_of_fuel, Result, ok, err, Action, ◌>>=◌, ◌>>◌, pure}
use ml_io.Records.{Record}
use ml_io.Records.Recordio.{Chunk}
use ml_io.Instances.Yields.{Yields, done, more, Yields-step}
use ml_io.Records.Stream.{State, is_empty, fresh_chunk, read_record_core}
use ml_io.Records.Stream.Content.{IsChunked, decode_whole, stream-Yields}
use ml_io.Streams.{MemoryStream, read_memory, seek_memory, size_memory}

-- The one chunk that is to be given, and the chunk of the record reader.
pub record Held : Type 0 where
  pub held : Bytes
  pub chunk : Bytes

-- `std::exchange(chunk_, {})`; a leftover is not kept.
pub exchange_chunk : Held → Held
exchange_chunk s = record { held = []; chunk = s.held }

module _ (decode : Bool → Action Chunk (Option Record)) where
  -- A size hint has no effect here.
  abbrev go_on_held :
      (Held → Result (Option Record) × Held)
      → Held
      → Result (Option Record) × Chunk
      → Result (Option Record) × Held
  go_on_held again s (err e, c) = (err e, record s { chunk = c.bits })
  go_on_held again s (ok (some r), c) = (ok (some r), record s { chunk = c.bits })
  go_on_held again s (ok none, c) = elim (is_empty s.held) [
    | true ↦ (ok none, exchange_chunk s)
    | false ↦ again (exchange_chunk s)
  ]

  -- `read_record_core` over this chunk reader, by a bound on the rounds of its loop.
  pub read_held : ℕ → Action Held (Option Record)
  read_held zero s = (err out_of_fuel, s)
  read_held (suc fuel) s =
      go_on_held (read_held fuel) s (decode (not (is_empty s.held)) (fresh_chunk s.chunk))

-- The two chunk readers behind one record reader.
pub data ChunkReader : Type 0 where
  in_memory : Held → ChunkReader
  by_chunks : State → ChunkReader

-- `next_chunk_size_` of a new `Default_chunk_reader`, 32 MiB.
abbrev default_chunk_size : ℕ
default_chunk_size = 33554432

abbrev new_default : Action MemoryStream ChunkReader
new_default s = (
  ok (
      by_chunks (record {
        stream = drop s.position s.source;
        eof = false;
        block_size = none;
        next_chunk_size = default_chunk_size;
        chunk = [];
      })),
  s,
)

abbrev ask_size : Action MemoryStream ℕ
ask_size s = (size_memory s, s)

-- `make_chunk_reader` on a memory stream, which supports reading without a copy.
pub make_chunk_reader : Action MemoryStream ChunkReader
make_chunk_reader = do
  size ← ask_size
  chunk ← read_memory size
  size_again ← ask_size
  if length chunk == size_again
      then pure (in_memory (record { held = chunk; chunk = [] }))
      else (seek_memory 0 >> new_default)

module _ (decode : Bool → Action Chunk (Option Record)) where
  abbrev on_held : Result (Option Record) × Held → Result (Option Record) × ChunkReader
  on_held (r, s) = (r, in_memory s)

  abbrev on_chunks : Result (Option Record) × State → Result (Option Record) × ChunkReader
  on_chunks (r, s) = (r, by_chunks s)

  -- `read_record_core` of the record reader, whichever chunk reader it has.
  pub read_stream : ℕ → Action ChunkReader (Option Record)
  read_stream fuel (in_memory s) = on_held (read_held decode fuel s)
  read_stream fuel (by_chunks s) = on_chunks (read_record_core decode fuel s)

  held-Yields :
      (fuel : ℕ) {s : Held} {rs : List Record}
      → Yields (read_held decode fuel) s rs
      → Yields (read_stream fuel) (in_memory s) rs
  unfolding read_stream
  held-Yields fuel (done e f) = done (ap on_held e) (ap on_held f)
  held-Yields fuel (more e y) = more (ap on_held e) (held-Yields fuel y)

  chunks-Yields :
      (fuel : ℕ) {s : State} {rs : List Record}
      → Yields (read_record_core decode fuel) s rs
      → Yields (read_stream fuel) (by_chunks s) rs
  unfolding read_stream
  chunks-Yields fuel (done e f) = done (ap on_chunks e) (ap on_chunks f)
  chunks-Yields fuel (more e y) = more (ap on_chunks e) (chunks-Yields fuel y)

-- A state whose chunk was given already.
abbrev given : Bytes → Held
given b = record { held = []; chunk = b }

module _ (decode : Bool → Action Chunk (Option Record)) (laws : IsChunked decode) where
  -- Without a further chunk the loop makes no further round.
  go_on_held-given :
      (again again' : Held → Result (Option Record) × Held) (b : Bytes)
      (r : Result (Option Record) × Chunk)
      → go_on_held decode again (given b) r ≡ go_on_held decode again' (given b) r
  go_on_held-given again again' b (err e, c) = refl
  go_on_held-given again again' b (ok (some r), c) = refl
  go_on_held-given again again' b (ok none, c) = refl

  read_held-given :
      (fuel fuel' : ℕ) (b : Bytes)
      → read_held decode (suc fuel) (given b) ≡ read_held decode (suc fuel') (given b)
  unfolding read_held
  read_held-given fuel fuel' b =
      go_on_held-given (read_held decode fuel) (read_held decode fuel') b
        (decode false (fresh_chunk b))

  read_held-end : (fuel : ℕ) → read_held decode (suc fuel) (given []) ≡ (ok none, given [])
  unfolding read_held exchange_chunk
  read_held-end fuel = rw (laws.nothing false) refl

  given-Yields :
      (fuel : ℕ) {b : Bytes} {rs : List Record}
      → Yields (decode_whole decode laws) b rs
      → Yields (read_held decode (suc fuel)) (given b) rs
  unfolding read_held
  given-Yields fuel {b} (done x y) =
      subst (λ c. Yields (read_held decode (suc fuel)) (given c) [])
        (sym (laws.ended b (λ i. ((x i).0, (decode false (fresh_chunk b)).1))))
        (done (read_held-end fuel) (read_held-end fuel))
  given-Yields fuel {b} (more {t = t} {x = r} x y) =
      more {t = given t}
        (ap (go_on_held decode (read_held decode fuel) (given b))
            (λ i. ((x i).0, (decode false (fresh_chunk b)).1))
          ∙ ap (λ z. (ok (some r), given z.1)) x)
        (given-Yields fuel y)

  read_held-first :
      (fuel : ℕ) (b : Bytes)
      → read_held decode (suc (suc fuel)) (record { held = b; chunk = [] })
        ≡ read_held decode (suc (suc fuel)) (given b)
  unfolding read_held exchange_chunk
  read_held-first fuel [] = refl
  read_held-first fuel (c ∷ cs) =
      ap (go_on_held decode (read_held decode (suc fuel)) (record { held = c ∷ cs; chunk = [] }))
        (laws.nothing true)
      ∙ read_held-given fuel (suc fuel) (c ∷ cs)

  whole_taken :
      (bs : Bytes) (position : ℕ)
      → length (take (length bs) (drop position bs)) ≡ length bs
      → take (length bs) (drop position bs) ≡ bs
  whole_taken [] position e = refl
  whole_taken (b ∷ bs) zero e = take_all (length (b ∷ bs)) (b ∷ bs) (omega arith)
  whole_taken (b ∷ bs) (suc position) e =
      absurd
        (omega (arith, length-take (length (b ∷ bs)) (drop position bs), length-drop position bs))

  abbrev opened : Bytes → ℕ → MemoryStream
  opened bs position = record { source = bs; position = position; closed = false }

  abbrev taken : Bytes → ℕ → Bytes
  taken bs position = take (length bs) (drop position bs)

  -- A memory stream that is not closed gives record by record what the decoder makes of its whole
  -- source at once, wherever the stream stood and whichever chunk reader is made for it, where the
  -- decoder keeps the laws of chunks and the bound on the rounds is two above the bytes.
  pub make_chunk_reader-Yields :
      (fuel : ℕ) (bs : Bytes) (position : ℕ) {rs : List Record}
      → length bs ≤ fuel
      → Yields (decode_whole decode laws) bs rs
      → (r : ChunkReader) × ((make_chunk_reader (opened bs position)).0 ≡ ok r)
        × Yields (read_stream decode (suc (suc fuel))) r rs
  unfolding make_chunk_reader read_memory size_memory seek_memory
  make_chunk_reader-Yields fuel bs position {rs} l y =
      elim (Bool-cases (length (taken bs position) == length bs)) [
        | inl e ↦ (
          in_memory (record { held = taken bs position; chunk = [] }),
          rw e refl,
          subst
              (λ c.
                Yields (read_stream decode (suc (suc fuel)))
                  (in_memory (record { held = c; chunk = [] })) rs)
              (sym (whole_taken bs position (ground arith)))
              (held-Yields decode (suc (suc fuel)) (
                Yields-step (read_held decode (suc (suc fuel))) (read_held-first fuel bs)
                  (given-Yields (suc fuel) y))),
        )
        | inr e ↦ (
          by_chunks (record {
            stream = bs;
            eof = false;
            block_size = none;
            next_chunk_size = default_chunk_size;
            chunk = [];
          }),
          let m : min (0 + 0) (length bs) ≡ 0 = omega arith in rw (e, m) refl,
          chunks-Yields decode (suc (suc fuel)) (
              stream-Yields decode laws (suc fuel) default_chunk_size bs (omega arith) (omega arith)
                y),
        )
      ]
