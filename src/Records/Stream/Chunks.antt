-- ===== src/Records/Stream/Chunks.antt =====
-- default_chunk_reader.cc: the chunk beside what the stream has still to give.
use ml_io.Base.{
  ℕ, zero, suc, ◌-◌, ◌*◌, ◌≤◌, ◌<◌, ◌≡◌, refl, ap, ◌∙◌, ◌⊎◌, inl, inr, Bool, true, false, ◌&&◌,
  Option, none, some, [], ◌∷◌, ◌++◌, append_assoc, length, length-append, length-take, length-drop,
  take, drop, take-append-drop, drop_all, ltb, if◌then◌else◌, Bytes, Bool-cases, arith,
}
use ml_io.Records.Recordio.{Chunk}
use ml_io.Records.Stream.{
  State, same_size, grown_size, read_chunk, doubled, set_chunk_size_hint, put_chunk,
}

-- The bytes that no record was made of yet.
abbrev pub content : State → Bytes
content s = s.chunk ++ s.stream

-- A block holds the chunk, and the next one is not smaller; without a block there is no leftover, or
-- the stream has ended.
abbrev FitsBlock : Option ℕ → Bool → Bytes → ℕ → Type 0
FitsBlock (some c) eof b n = (length b ≤ c) × (c ≤ n)
FitsBlock none true b n = Unit {0}
FitsBlock none false b n = b ≡ []

pub record IsValid (s : State) : Type 0 where
  pub next_positive : 0 < s.next_chunk_size
  pub block : FitsBlock s.block_size s.eof s.chunk s.next_chunk_size
  pub at_eof : s.eof ≡ true → s.stream ≡ []

doubled-grows : (fuel value n : ℕ) → n ≤ doubled fuel value n
unfolding doubled
doubled-grows zero value n = omega arith
doubled-grows (suc fuel) value n = let h = doubled-grows fuel value (n * 2) in ground arith

FitsBlock-le :
    (o : Option ℕ) (eof : Bool) (b b' : Bytes) (n n' : ℕ)
    → FitsBlock o eof b n
    → length b' ≤ length b
    → n ≤ n'
    → FitsBlock o eof b' n'
FitsBlock-le (some c) eof b b' n n' (h, k) l m = (omega arith, omega arith)
FitsBlock-le none true b b' n n' h l m = tt
FitsBlock-le none false b [] n n' h l m = refl
FitsBlock-le none false [] (x ∷ b') n n' h l m = absurd (omega arith)
FitsBlock-le none false (y ∷ b) (x ∷ b') n n' h l m = absurd cc

pub put_chunk-IsValid :
    (c : Chunk) (s : State)
    → length c.bits ≤ length s.chunk
    → IsValid s
    → IsValid (put_chunk c s)
      × (content (put_chunk c s) ≡ c.bits ++ s.stream)
      × ((put_chunk c s).eof ≡ s.eof)
      × ((put_chunk c s).stream ≡ s.stream)
unfolding set_chunk_size_hint
put_chunk-IsValid c s l v = go c.record_size_hint c.bits l
  where
    go :
        (o : Option ℕ) (b : Bytes)
        → length b ≤ length s.chunk
        → IsValid (put_chunk (record { bits = b; record_size_hint = o }) s)
          × (content (put_chunk (record { bits = b; record_size_hint = o }) s) ≡ b ++ s.stream)
          × ((put_chunk (record { bits = b; record_size_hint = o }) s).eof ≡ s.eof)
          × ((put_chunk (record { bits = b; record_size_hint = o }) s).stream ≡ s.stream)
    go none b l = (
      record {
        next_positive = v.next_positive;
        block = FitsBlock-le s.block_size s.eof s.chunk b _ _ v.block l (omega arith);
        at_eof = v.at_eof;
      },
      refl,
      refl,
      refl,
    )
    go (some m) b l =
        let g = doubled-grows m m s.next_chunk_size in
        (
          record {
            next_positive = omega (arith, v.next_positive);
            block = FitsBlock-le s.block_size s.eof s.chunk b _ _ v.block l g;
            at_eof = v.at_eof;
          },
          refl,
          refl,
          refl,
        )

-- A block is made with room for at least one byte behind the leftover.
pub grown_size-room :
    (s : State)
    → IsValid s
    → s.eof ≡ false
    → (length s.chunk < grown_size s) × (s.next_chunk_size ≤ grown_size s)
unfolding grown_size
grown_size-room s v e =
    go s.block_size s.eof s.chunk s.next_chunk_size refl v.next_positive v.block e
  where
    go :
        (o : Option ℕ) (eof : Bool) (b : Bytes) (n : ℕ)
        → b ≡ b
        → 0 < n
        → FitsBlock o eof b n
        → eof ≡ false
        → (length b < (if same_size o (length b) && same_size o n then n * 2 else n))
          × (n ≤ (if same_size o (length b) && same_size o n then n * 2 else n))
    go none true b n _ p h e = absurd cc
    go none false [] n _ p h e = (omega arith, omega arith)
    go none false (x ∷ b) n _ p h e = absurd cc
    go (some c) eof b n _ p (h, k) e = ground arith

pub read_chunk-IsValid :
    (s : State)
    → IsValid s
    → s.eof ≡ false
    → IsValid (read_chunk s)
      × (content (read_chunk s) ≡ content s)
      × ((length (read_chunk s).stream < length s.stream) ⊎ ((read_chunk s).eof ≡ true))
      × (length (read_chunk s).stream ≤ length s.stream)
      × ((read_chunk s).chunk ≡ [] → (read_chunk s).stream ≡ [])
unfolding read_chunk
read_chunk-IsValid s v e =
    let (room, grows) = grown_size-room s v e in
    let left = length-drop (grown_size s - length s.chunk) s.stream in
    elim (Bool-cases (ltb (length s.stream) (grown_size s - length s.chunk))) [
      | inl f ↦
          rw (e, f)
            (
              record {
                next_positive = omega (arith, v.next_positive);
                block = tt;
                at_eof = λ _. drop_all (grown_size s - length s.chunk) s.stream (ground arith);
              },
              whole,
              inr refl,
              omega arith,
              λ _. drop_all (grown_size s - length s.chunk) s.stream (ground arith),
            )
      | inr f ↦
          rw (e, f)
            (
              record {
                next_positive = omega (arith, v.next_positive);
                block = (
                  omega (
                    arith,
                    length-append s.chunk (take (grown_size s - length s.chunk) s.stream),
                    length-take (grown_size s - length s.chunk) s.stream,
                  ),
                  omega arith,
                );
                at_eof = λ x. absurd cc;
              },
              whole,
              inl (ground arith),
              omega arith,
              λ x. absurd (filled x (ground arith) (omega arith)),
            )
    ]
  where
    filled :
        s.chunk ++ take (grown_size s - length s.chunk) s.stream ≡ []
        → grown_size s - length s.chunk ≤ length s.stream
        → 0 < grown_size s - length s.chunk
        → ⊥
    filled x l p =
        let n : length (s.chunk ++ take (grown_size s - length s.chunk) s.stream) ≡ 0 =
          ap length x in
        omega (
          arith,
          length-append s.chunk (take (grown_size s - length s.chunk) s.stream),
          length-take (grown_size s - length s.chunk) s.stream,
        )

    whole :
        (s.chunk ++ take (grown_size s - length s.chunk) s.stream)
          ++ drop (grown_size s - length s.chunk) s.stream
        ≡ content s
    whole =
        append_assoc s.chunk _ _
        ∙ ap (λ b. s.chunk ++ b) (take-append-drop (grown_size s - length s.chunk) s.stream)
