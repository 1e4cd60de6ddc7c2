-- ===== src/Records/Slice.antt =====
-- memory/memory_slice.h and memory_slice.cc: a slice is a range of a memory block. The readers are
-- modelled over the bytes of their slices, by `first_bytes` and the two cuts below it.
use ml_io.Base.{
  ℕ, ◌+◌, ◌-◌, ◌≤◌, ◌<◌, ◌≡◌, false, ◌||◌, length, length-take, length-drop, take, drop, drop-take,
  drop-drop, take-take, sym, ltb, ltb→lt, Bool-cases, inl, inr, if◌then◌else◌, Bytes, arith,
}
use ml_io.Action.{Result, ok, err, invalid_argument}

pub record MemorySlice : Type 0 where
  pub block : Bytes
  pub beg : ℕ
  pub last : ℕ

-- The range check of every cut; iterators are offsets in the block.
pub validate_range : MemorySlice → ℕ → ℕ → Result (Unit {0})
validate_range s first last =
    if ltb last first
    then err invalid_argument
    else if ltb first s.beg || ltb s.last last
    then err invalid_argument
    else ok tt

abbrev set_range : MemorySlice → ℕ → ℕ → Result (Unit {0}) → Result MemorySlice
set_range s first last (ok _) = ok (record s { beg = first; last = last })
set_range s first last (err e) = err e

pub subslice_range : MemorySlice → ℕ → ℕ → Result MemorySlice
unfolding validate_range
subslice_range s first last = set_range s first last (validate_range s first last)

pub size : MemorySlice → ℕ
size s = s.last - s.beg

pub subslice_from : MemorySlice → ℕ → Result MemorySlice
unfolding subslice_range
subslice_from s offset = subslice_range s (s.beg + offset) s.last

-- The sum of the source wraps around in 64 bits, and is then an error as it is here.
pub subslice_count : MemorySlice → ℕ → ℕ → Result MemorySlice
unfolding subslice_range
subslice_count s offset count = subslice_range s (s.beg + offset) (s.beg + (offset + count))

pub first : MemorySlice → ℕ → Result MemorySlice
unfolding subslice_range
first s count = subslice_range s s.beg (s.beg + count)

-- The bytes that a slice shows.
pub bytes : MemorySlice → Bytes
bytes s = take (s.last - s.beg) (drop s.beg s.block)

pub record IsValid (s : MemorySlice) : Type 0 where
  pub ordered : s.beg ≤ s.last
  pub within : s.last ≤ length s.block

-- The same cuts on the bytes themselves.
unfoldable pub first_bytes : Bytes → ℕ → Result Bytes
first_bytes b count = if ltb (length b) count then err invalid_argument else ok (take count b)

unfoldable pub drop_bytes : Bytes → ℕ → Result Bytes
drop_bytes b offset = if ltb (length b) offset then err invalid_argument else ok (drop offset b)

unfoldable pub cut_bytes : Bytes → ℕ → ℕ → Result Bytes
cut_bytes b offset count =
    if ltb (length b) (offset + count)
    then err invalid_argument
    else ok (take count (drop offset b))

abbrev pub Shows : Result MemorySlice → Result Bytes → Type 0
Shows (ok s) (ok b) = IsValid s × (bytes s ≡ b)
Shows (err e) (err f) = e ≡ f
Shows _ _ = ⊥

length-bytes : (s : MemorySlice) → IsValid s → length (bytes s) ≡ s.last - s.beg
unfolding bytes
length-bytes s v =
    omega (arith, length-take (s.last - s.beg) (drop s.beg s.block), length-drop s.beg s.block)

-- A range within the slice, counted from its beginning.
range-inside :
    (s : MemorySlice) (offset count : ℕ)
    → IsValid s
    → offset + count ≤ s.last - s.beg
    → Shows
        (subslice_range s (s.beg + offset) (s.beg + (offset + count)))
        (ok (take count (drop offset (bytes s))))
unfolding subslice_range bytes
range-inside s offset count v h =
    let e : ltb (s.beg + (offset + count)) (s.beg + offset) ≡ false = ground arith in
    let f : ltb (s.beg + offset) s.beg ≡ false = ground arith in
    let g : ltb s.last (s.beg + (offset + count)) ≡ false = ground arith in
    rw (e, f, g) (record { ordered = omega arith; within = omega (arith, v.within) }, shown)
  where
    shown :
        take (s.beg + (offset + count) - (s.beg + offset)) (drop (s.beg + offset) s.block)
        ≡ take count (drop offset (take (s.last - s.beg) (drop s.beg s.block)))
    shown =
        let k : s.beg + (offset + count) - (s.beg + offset) ≡ count = omega arith in
        rw
          (
            k,
            drop-take offset (s.last - s.beg) (drop s.beg s.block),
            drop-drop offset s.beg s.block,
          )
          (sym (
            take-take count (s.last - s.beg - offset) (drop (s.beg + offset) s.block)
              (omega arith)))

range-outside :
    (s : MemorySlice) (offset count : ℕ)
    → IsValid s
    → s.last - s.beg < offset + count
    → subslice_range s (s.beg + offset) (s.beg + (offset + count)) ≡ err invalid_argument
unfolding subslice_range
range-outside s offset count v h = ground (arith, v.ordered)

-- In a well-formed slice the range that starts at an offset and has a size gives the bytes there,
-- and is well-formed, or it is the error that the bytes end before.
pub subslice_count-cut_bytes :
    (s : MemorySlice) (offset count : ℕ)
    → IsValid s
    → Shows (subslice_count s offset count) (cut_bytes (bytes s) offset count)
unfolding subslice_count cut_bytes
subslice_count-cut_bytes s offset count v =
    elim (Bool-cases (ltb (length (bytes s)) (offset + count))) [
      | inl e ↦
          rw (e, range-outside s offset count v (omega (arith, length-bytes s v, ltb→lt _ _ e)))
      | inr e ↦ rw e (range-inside s offset count v (ground (arith, length-bytes s v)))
    ]
