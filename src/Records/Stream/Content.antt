-- ===== src/Records/Stream/Content.antt =====
-- stream_record_reader.cc: the stream in chunks beside its whole content, for any decoder.
use ml_io.Base.{
  ℕ, zero, suc, ◌+◌, ◌-◌, ◌≤◌, ◌<◌, ◌≡◌, refl, sym, ap, subst, ◌∙◌, ◌⊎◌, inl, inr, Bool, true,
  false, not, Option, none, some, List, [], ◌∷◌, ◌++◌, append-nil, length, ltb, lt→ltb, take-nil,
  drop-nil, if◌then◌else◌, Bytes, Bool-cases, arith,
}
use ml_io.Action.{Error, Result, ok, err, Action}
use ml_io.Records.{Record}
use ml_io.Records.Recordio.{Chunk}
use ml_io.Instances.Yields.{Yields, done, more}
use ml_io.Records.Stream.{
  State, grown_size, read_chunk, set_chunk_size_hint, is_empty, fresh_chunk, put_chunk, go_on,
  read_record_core,
}
use ml_io.Records.Stream.Chunks.{
  content, IsValid, put_chunk-IsValid, grown_size-room, read_chunk-IsValid,
}

-- What a decoder has to keep for its chunks not to show.
pub record IsChunked (decode : Bool → Action Chunk (Option Record)) : Type 0 where
  pub grow :
      (b more : Bytes) (ignore_leftover : Bool) {r : Record} {c : Chunk}
      → decode ignore_leftover (fresh_chunk b) ≡ (ok (some r), c)
      → (decode false (fresh_chunk (b ++ more)) ≡ (ok (some r), fresh_chunk (c.bits ++ more)))
        × (length c.bits ≤ length b)
  pub wait : (b : Bytes) {c : Chunk} → decode true (fresh_chunk b) ≡ (ok none, c) → c.bits ≡ b
  pub fault :
      (b more : Bytes) {e : Error} {c : Chunk}
      → decode true (fresh_chunk b) ≡ (err e, c)
      → (d : Chunk) × (decode false (fresh_chunk (b ++ more)) ≡ (err e, d))
  pub ended : (b : Bytes) {c : Chunk} → decode false (fresh_chunk b) ≡ (ok none, c) → b ≡ []
  pub nothing :
      (ignore_leftover : Bool) → decode ignore_leftover (fresh_chunk []) ≡ (ok none, fresh_chunk [])

Decoded-cases :
    (r : Result (Option Record))
    → ((x : Record) × (r ≡ ok (some x))) ⊎ ((r ≡ ok none) ⊎ ((e : Error) × (r ≡ err e)))
Decoded-cases (ok (some x)) = inl (x, refl)
Decoded-cases (ok none) = inr (inl refl)
Decoded-cases (err e) = inr (inr (e, refl))

append-empty : (b c : Bytes) → b ++ c ≡ [] → (b ≡ []) × (c ≡ [])
append-empty [] c e = (refl, e)
append-empty (x ∷ b) c e = absurd cc

is_empty-cases : (b : Bytes) → (b ≡ []) ⊎ (is_empty b ≡ false)
is_empty-cases [] = inl refl
is_empty-cases (x ∷ b) = inr refl

-- Rounds that may still be needed: one for every byte of the stream, and one to meet its end.
abbrev pub rounds : State → ℕ
rounds s = length s.stream + (if s.eof then 0 else 1)

less-than : {a b c : ℕ} {P : Type 0} → b ≡ c → (a < b) ⊎ P → (a < c) ⊎ P
less-than e (inl h) = inl (omega arith)
less-than e (inr p) = inr p

le-than : {a b c : ℕ} → b ≡ c → a ≤ b → a ≤ c
le-than e h = omega arith

-- A round that read a chunk leaves fewer.
rounds-less :
    (fuel : ℕ) (w s : State)
    → s.eof ≡ false
    → (length w.stream < length s.stream) ⊎ (w.eof ≡ true)
    → length w.stream ≤ length s.stream
    → rounds s < suc fuel
    → rounds w < fuel
rounds-less fuel w s f less le l = ground (arith, f, less)

rounds-same : (t s : State) → t.eof ≡ s.eof → t.stream ≡ s.stream → rounds t ≤ rounds s
rounds-same t s e h = rw (e, h) (omega arith)

module _ (decode : Bool → Action Chunk (Option Record)) (laws : IsChunked decode) where
  -- The next record of a content that is decoded as a whole.
  abbrev pub decode_whole : Action Bytes (Option Record)
  decode_whole b = ((decode false (fresh_chunk b)).0, (decode false (fresh_chunk b)).1.bits)

  abbrev Found : ℕ → State → Record → Bytes → Type 0
  Found fuel s r rest =
      (t : State) × (read_record_core decode fuel s ≡ (ok (some r), t))
      × IsValid t
      × (content t ≡ rest)
      × (rounds t ≤ rounds s)

  go_on-again :
      (k : Action State (Option Record)) (s : State) (c : Chunk)
      → is_empty (read_chunk (put_chunk c s)).chunk ≡ false
      → go_on decode k s (ok none, c) ≡ k (read_chunk (put_chunk c s))
  go_on-again k s c x =
      ap
        (λ b. elim b as (λ _. Result (Option Record) × State) [
          | true ↦ (ok none, read_chunk (put_chunk c s))
          | false ↦ k (read_chunk (put_chunk c s))
        ])
        x

  found :
      (fuel : ℕ) (s : State) {r : Record} {rest : Bytes} {d : Chunk}
      → IsValid s
      → rounds s < fuel
      → decode false (fresh_chunk (content s)) ≡ (ok (some r), d)
      → d.bits ≡ rest
      → Found fuel s r rest
  unfolding read_record_core
  found zero s v l e b = absurd (omega arith)
  found (suc fuel) s {r} {rest} {d} v l e b =
      step (decode (not s.eof) (fresh_chunk s.chunk)).0 (decode (not s.eof) (fresh_chunk s.chunk)).1
        refl (λ w w-IsValid m x. found fuel w w-IsValid m x b)
    where
      at_end :
          {q : Result (Option Record)} {c : Chunk}
          → s.eof ≡ true
          → decode (not s.eof) (fresh_chunk s.chunk) ≡ (q, c)
          → q ≡ ok (some r)
      at_end f x =
          let y : s.chunk ++ s.stream ≡ s.chunk =
            ap (λ m. s.chunk ++ m) (v.at_eof f) ∙ append-nil s.chunk in
          ap (λ z. z.0)
            (sym x
              ∙ ap (λ k. decode (not k) (fresh_chunk s.chunk)) f
              ∙ ap (λ m. decode false (fresh_chunk m)) (sym y)
              ∙ e)

      step :
          (q : Result (Option Record)) (c : Chunk)
          → decode (not s.eof) (fresh_chunk s.chunk) ≡ (q, c)
          → ((w : State)
              → IsValid w
              → rounds w < fuel
              → decode false (fresh_chunk (content w)) ≡ (ok (some r), d)
              → Found fuel w r rest)
          → Found (suc fuel) s r rest
      step (ok (some x)) c h again =
          let (g, len) = laws.grow s.chunk s.stream (not s.eof) h in
          let (valid, bytes, ends, streams) = put_chunk-IsValid c s len v in
          let same = sym e ∙ g in
          (
            put_chunk c s,
            rw h (let k = ap (λ z. z.0) same in cc),
            valid,
            bytes ∙ sym (ap (λ z. z.1.bits) same) ∙ b,
            rounds-same (put_chunk c s) s ends streams,
          )
      step (ok none) c h again = elim (Bool-cases s.eof) [
        | inl f ↦ absurd (let k = at_end f h in cc)
        | inr f ↦
            let same =
              laws.wait s.chunk (ap (λ k. decode (not k) (fresh_chunk s.chunk)) (sym f) ∙ h) in
            let (valid, bytes, ends, streams) =
              put_chunk-IsValid c s (omega (arith, ap length same)) v in
            let w : State = read_chunk (put_chunk c s) in
            let (w-IsValid, kept, less, le, nil) =
              read_chunk-IsValid (put_chunk c s) valid (ends ∙ f) in
            let all : content w ≡ content s = kept ∙ bytes ∙ ap (λ m. m ++ s.stream) same in
            elim (is_empty-cases w.chunk) [
              | inl x ↦
                  let empty : content s ≡ [] = sym all ∙ ap (λ m. m ++ w.stream) x ∙ nil x in
                  absurd (
                    let k =
                      ap (λ z. z.0)
                        (sym (laws.nothing false)
                          ∙ ap (λ m. decode false (fresh_chunk m)) (sym empty)
                          ∙ e) in
                    cc)
              | inr x ↦
                  let (t, g, tv, tb, tr) =
                    again w w-IsValid
                      (rounds-less fuel w s f (less-than (ap length streams) less)
                        (le-than (ap length streams) le) l)
                      (ap (λ m. decode false (fresh_chunk m)) all ∙ e) in
                  (
                    t,
                    ap (go_on decode (read_record_core decode fuel) s) h
                        ∙ go_on-again (read_record_core decode fuel) s c x
                        ∙ g,
                    tv,
                    tb,
                    omega (
                      arith,
                      tr,
                      rounds-less (rounds s) w s f (less-than (ap length streams) less)
                          (le-than (ap length streams) le) (omega arith),
                    ),
                  )
            ]
      ]
      step (err x) c h again = elim (Bool-cases s.eof) [
        | inl f ↦ absurd (let k = at_end f h in cc)
        | inr f ↦
            let (d', g) =
              laws.fault s.chunk s.stream
                (ap (λ k. decode (not k) (fresh_chunk s.chunk)) (sym f) ∙ h) in
            absurd (let k = ap (λ z. z.0) (sym e ∙ g) in cc)
      ]

  abbrev drained : Bool → Option ℕ → ℕ → State
  drained eof o n = record {
    stream = [];
    eof = eof;
    block_size = o;
    next_chunk_size = n;
    chunk = [];
  }

  drained-eof :
      (fuel : ℕ) (o : Option ℕ) (n : ℕ)
      → read_record_core decode (suc fuel) (drained true o n) ≡ (ok none, drained true o n)
  unfolding read_record_core read_chunk set_chunk_size_hint
  drained-eof fuel o n = rw (laws.nothing false) refl

  read_chunk-drained :
      (o : Option ℕ) (n : ℕ)
      → IsValid (drained false o n)
      → read_chunk (drained false o n) ≡ drained true none (grown_size (drained false o n))
  unfolding read_chunk
  read_chunk-drained o n v =
      let (room, _) = grown_size-room (drained false o n) v refl in
      let k : ltb 0 (grown_size (drained false o n) - 0) ≡ true = lt→ltb 0 _ (omega arith) in
      rw
        (
          k,
          take-nil {A = ℕ} (grown_size (drained false o n) - 0),
          drop-nil {A = ℕ} (grown_size (drained false o n) - 0),
        )
        refl

  drained-none :
      (fuel : ℕ) (o : Option ℕ) (n : ℕ)
      → IsValid (drained false o n)
      → (m : ℕ) × (read_record_core decode (suc fuel) (drained false o n)
          ≡ (ok none, drained true none m))
  unfolding read_record_core read_chunk set_chunk_size_hint
  drained-none fuel o n v = (
    grown_size (drained false o n),
    ap (go_on decode (read_record_core decode fuel) (drained false o n)) (laws.nothing true)
        ∙ ap
            (λ w. elim (is_empty w.chunk) as (λ _. Result (Option Record) × State) [
              | true ↦ (ok none, w)
              | false ↦ read_record_core decode fuel w
            ])
            (read_chunk-drained o n v),
  )

  drained-Yields :
      (fuel : ℕ) (eof : Bool) (o : Option ℕ) (n : ℕ)
      → IsValid (drained eof o n)
      → Yields (read_record_core decode (suc fuel)) (drained eof o n) []
  drained-Yields fuel true o n v = done (drained-eof fuel o n) (drained-eof fuel o n)
  drained-Yields fuel false o n v =
      let (m, e) = drained-none fuel o n v in done e (drained-eof fuel none m)

  content-nil :
      (fuel : ℕ) (s : State)
      → IsValid s
      → content s ≡ []
      → Yields (read_record_core decode (suc fuel)) s []
  content-nil fuel s v e =
      let (c, st) = append-empty s.chunk s.stream e in
      let q : drained s.eof s.block_size s.next_chunk_size ≡ s = λ i. record {
        stream = sym st i;
        eof = s.eof;
        block_size = s.block_size;
        next_chunk_size = s.next_chunk_size;
        chunk = sym c i;
      } in
      subst (λ x. Yields (read_record_core decode (suc fuel)) x []) q
        (drained-Yields fuel s.eof s.block_size s.next_chunk_size (subst IsValid (sym q) v))

  by_records :
      (fuel : ℕ) (s : State) {b : Bytes} {rs : List Record}
      → IsValid s
      → rounds s < suc fuel
      → content s ≡ b
      → Yields decode_whole b rs
      → Yields (read_record_core decode (suc fuel)) s rs
  by_records fuel s {b} v l e (done x y) =
      content-nil fuel s v (e ∙ laws.ended b (λ i. ((x i).0, (decode false (fresh_chunk b)).1)))
  by_records fuel s {b} v l e (more x y) =
      let (t, g, tv, tb, tr) =
        found (suc fuel) s v l
          (ap (λ m. decode false (fresh_chunk m)) e ∙ λ i.
            ((x i).0, (decode false (fresh_chunk b)).1))
          (ap (λ z. z.1) x) in
      more g (by_records fuel t tv (omega arith) tb y)

  -- A reader that starts on a stream with a chunk size above zero, and a bound above the bytes of the
  -- stream, gives record by record what the decoder makes of the whole stream at once, whatever the
  -- chunk size, where the decoder keeps the laws of chunks.
  pub stream-Yields :
      (fuel n : ℕ) (bs : Bytes) {rs : List Record}
      → 0 < n
      → length bs < fuel
      → Yields decode_whole bs rs
      → Yields
          (read_record_core decode (suc fuel))
          (record { stream = bs; eof = false; block_size = none; next_chunk_size = n; chunk = [] })
          rs
  stream-Yields fuel n bs h l y =
      by_records fuel
        (record { stream = bs; eof = false; block_size = none; next_chunk_size = n; chunk = [] })
        (record { next_positive = h; block = refl; at_eof = λ k. absurd cc }) (omega arith) refl y
