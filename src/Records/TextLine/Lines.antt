-- ===== src/Records/TextLine/Lines.antt =====
-- What `read_line` takes from a chunk, by the line's end.
use ml_io.Base.{
  ℕ, suc, ◌+◌, ◌-◌, ◌<◌, ◌≡◌, ◌≢◌, refl, sym, ap, ◌∙◌, Bool, true, false, Option, none, some, [],
  ◌∷◌, ◌++◌, append-nil, length, length-append, drop, take-append, drop_zero, ◌==◌, ltb, subst,
  append_assoc, if◌then◌else◌, Bytes, arith,
}
use ml_io.Action.{ok}
use ml_io.Records.{complete, Record}
use ml_io.Records.Slice.{first_bytes, drop_bytes}
use ml_io.Records.TextLine.{
  new_line, carriage, LineEnd, find_line_end, finish_line, read_line, reaches,
}

-- A line without its end.
abbrev pub IsLine : Bytes → Type 0
IsLine [] = Unit {0}
IsLine (c ∷ cs) = (c ≢ new_line) × (c ≢ carriage) × IsLine cs

abbrev pub line : Bytes → Record
line bs = record { payload = bs; kind = complete }

-- The line's characters are passed over.
find_line_end-append :
    (bs rest : Bytes)
    → IsLine bs
    → (find_line_end (bs ++ rest)).pos ≡ length bs + (find_line_end rest).pos
unfolding find_line_end
find_line_end-append [] rest h = omega arith
find_line_end-append (c ∷ bs) rest h = ground (arith, find_line_end-append bs rest h.2)

find_line_end-append_carriage :
    (bs rest : Bytes)
    → IsLine bs
    → (find_line_end (bs ++ rest)).has_carriage ≡ (find_line_end rest).has_carriage
unfolding find_line_end
find_line_end-append_carriage [] rest h = refl
find_line_end-append_carriage (c ∷ bs) rest h =
    ground (arith, find_line_end-append_carriage bs rest h.2)

read_line-finish :
    (l : Option ℕ) (ignore_leftover : Bool) (chunk : Bytes)
    → 0 < length chunk
    → read_line l ignore_leftover chunk ≡ finish_line l ignore_leftover (find_line_end chunk) chunk
unfolding read_line
read_line-finish l ig [] h = absurd (omega arith)
read_line-finish l ig (c ∷ cs) h = refl

-- A line that ends within the chunk.
finish_line-cut :
    (l : Option ℕ) (ignore_leftover : Bool) (e : LineEnd) (bs tail rest : Bytes)
    → reaches l e.pos ≡ false
    → e.pos < length (bs ++ tail)
    → (if e.has_carriage then e.pos - 1 else e.pos) ≡ length bs
    → drop (e.pos + 1) (bs ++ tail) ≡ rest
    → finish_line l ignore_leftover e (bs ++ tail) ≡ (ok (some (line bs)), rest)
unfolding finish_line first_bytes drop_bytes
finish_line-cut l ig e bs tail rest h k c d =
    let same : (e.pos == length (bs ++ tail)) ≡ false = ground arith in
    let far : ltb (length (bs ++ tail)) (length bs) ≡ false =
      ground (arith, length-append bs tail) in
    let near : ltb (length (bs ++ tail)) (e.pos + 1) ≡ false = ground arith in
    rw (h, same, c, far, near, d, take-append bs tail) refl

-- A line that the chunk's end ends.
finish_line-last :
    (l : Option ℕ) (e : LineEnd) (bs tail : Bytes)
    → reaches l e.pos ≡ false
    → e.pos ≡ length (bs ++ tail)
    → (if e.has_carriage then e.pos - 1 else e.pos) ≡ length bs
    → finish_line l false e (bs ++ tail) ≡ (ok (some (line bs)), [])
unfolding finish_line first_bytes drop_bytes
finish_line-last l e bs tail h k c =
    let same : (e.pos == length (bs ++ tail)) ≡ true = ground arith in
    let far : ltb (length (bs ++ tail)) (length bs) ≡ false =
      ground (arith, length-append bs tail) in
    rw (h, same, c, far, take-append bs tail) refl

drop-append_suc : (bs tail : Bytes) (c : ℕ) → drop (suc (length bs)) (bs ++ c ∷ tail) ≡ tail
drop-append_suc [] tail c = drop_zero tail
drop-append_suc (b ∷ bs) tail c = drop-append_suc bs tail c

-- Behind a line and the character that ends it.
pub drop-append_line :
    (n : ℕ) (bs tail : Bytes) (c : ℕ) → n ≡ length bs → drop (n + 1) (bs ++ c ∷ tail) ≡ tail
drop-append_line n bs tail c h =
    subst (λ m. drop m (bs ++ c ∷ tail) ≡ tail) {x = suc (length bs)} (omega arith)
      (drop-append_suc bs tail c)

drop-append_two :
    (n : ℕ) (bs tail : Bytes) (c d : ℕ)
    → n ≡ length bs + 1
    → drop (n + 1) (bs ++ c ∷ d ∷ tail) ≡ tail
drop-append_two n bs tail c d h =
    subst (λ b. drop (n + 1) b ≡ tail) (append_assoc bs (c ∷ []) (d ∷ tail))
      (drop-append_line n (bs ++ c ∷ []) tail d (omega (arith, length-append bs (c ∷ []))))

-- A line and a line feed are read as that line, where its length is below the limit; what follows
-- is left.
pub read_line-new_line :
    (l : Option ℕ) (ignore_leftover : Bool) (bs rest : Bytes)
    → IsLine bs
    → reaches l (length bs) ≡ false
    → read_line l ignore_leftover (bs ++ new_line ∷ rest) ≡ (ok (some (line bs)), rest)
unfolding find_line_end
read_line-new_line l ig bs rest h k =
    let e : LineEnd = find_line_end (bs ++ new_line ∷ rest) in
    let p : e.pos ≡ length bs = omega (arith, find_line_end-append bs (new_line ∷ rest) h) in
    let c : e.has_carriage ≡ false = find_line_end-append_carriage bs (new_line ∷ rest) h in
    read_line-finish l ig (bs ++ new_line ∷ rest)
      (omega (arith, length-append bs (new_line ∷ rest)))
    ∙ finish_line-cut l ig e bs (new_line ∷ rest) rest (rw p k)
        (omega (arith, p, length-append bs (new_line ∷ rest))) (rw c p)
        (drop-append_line e.pos bs rest new_line p)

-- A line, a carriage return and a line feed are read as that line, where the length with the
-- carriage return is below the limit; what follows is left.
pub read_line-carriage-new_line :
    (l : Option ℕ) (ignore_leftover : Bool) (bs rest : Bytes)
    → IsLine bs
    → reaches l (length bs + 1) ≡ false
    → read_line l ignore_leftover (bs ++ carriage ∷ new_line ∷ rest) ≡ (ok (some (line bs)), rest)
unfolding find_line_end
read_line-carriage-new_line l ig bs rest h k =
    let t : Bytes = carriage ∷ new_line ∷ rest in
    let e : LineEnd = find_line_end (bs ++ t) in
    let p : e.pos ≡ length bs + 1 = omega (arith, find_line_end-append bs t h) in
    let c : e.has_carriage ≡ true = find_line_end-append_carriage bs t h in
    read_line-finish l ig (bs ++ t) (omega (arith, length-append bs t))
    ∙ finish_line-cut l ig e bs t rest (rw p k) (omega (arith, p, length-append bs t))
        (rw c (omega (arith, p))) (drop-append_two e.pos bs rest carriage new_line p)

-- A line of at least one character that the chunk's end ends, with a length below the limit, is
-- read where the leftover counts, and waits for more bytes where it does not.
pub read_line-leftover :
    (l : Option ℕ) (bs : Bytes)
    → IsLine bs
    → 0 < length bs
    → reaches l (length bs) ≡ false
    → (read_line l false bs ≡ (ok (some (line bs)), [])) × (read_line l true bs ≡ (ok none, bs))
unfolding find_line_end finish_line
read_line-leftover l bs h n k = (
  read_line-finish l false bs n
      ∙ subst (λ b. finish_line l false e b ≡ (ok (some (line bs)), [])) (append-nil bs)
          (finish_line-last l e bs [] (rw p k) (p ∙ ap length (sym (append-nil bs))) (rw c p)),
  read_line-finish l true bs n ∙ (rw (p, k) (ground arith)),
)
  where
    e : LineEnd
    e = find_line_end bs

    p : e.pos ≡ length bs
    p =
        subst (λ b. (find_line_end b).pos ≡ length bs) (append-nil bs)
          (omega (arith, find_line_end-append bs [] h))

    c : e.has_carriage ≡ false
    c =
        subst (λ b. (find_line_end b).has_carriage ≡ false) (append-nil bs)
          (find_line_end-append_carriage bs [] h)

-- A carriage return behind a line at the end of a chunk ends that line there even where the
-- leftover is to wait, so that a line feed at the start of the next chunk makes a second, empty
-- line.
pub read_line-split_carriage :
    (bs rest : Bytes)
    → IsLine bs
    → (read_line none true (bs ++ carriage ∷ []) ≡ (ok (some (line bs)), []))
      × (read_line none true (new_line ∷ rest) ≡ (ok (some (line [])), rest))
unfolding find_line_end
read_line-split_carriage bs rest h =
    let t : Bytes = carriage ∷ [] in
    let e : LineEnd = find_line_end (bs ++ t) in
    let p : e.pos ≡ length bs = omega (arith, find_line_end-append bs t h) in
    let c : e.has_carriage ≡ false = find_line_end-append_carriage bs t h in
    (
      read_line-finish none true (bs ++ t) (omega (arith, length-append bs t))
          ∙ finish_line-cut none true e bs t [] refl (omega (arith, p, length-append bs t)) (rw c p)
              (drop-append_line e.pos bs [] carriage p),
      read_line-new_line none true [] rest tt refl,
    )
