-- ===== src/Tensors/Coo/Faults.antt =====
-- coo_tensor_builder.h and coo_tensor_builder.cc: a row that was refused has left its elements and
-- some of its coordinates in the builder.
use native.Mathlib.Nat.{mul-add, mul-suc, suc-mul}
use mathlib.Core.Bool.{true≢false}
use ml_io.Base.{
  subst, ==_iff, ℕ, zero, suc, ◌+◌, ◌*◌, ◌/◌, ◌%◌, ◌≤◌, ◌<◌, ◌≡◌, ◌≢◌, refl, sym, ap, ◌∙◌, Bool,
  true, false, ◌&&◌, Option, none, some, List, [], ◌∷◌, ◌++◌, length, length-append, replicate, leb,
  ◌==◌, if◌then◌else◌, Bool-cases, inl, inr, arith,
}
use ml_io.Action.{
  Result, ok, err, invalid_argument, undefined_behaviour, Error, Action, then_call, pure,
}
use ml_io.Tensors.{make_coo_tensor, all_of_size}
use ml_io.Tensors.Schema.{Attribute}
use ml_io.Tensors.Coo.{
  Builder, push_dims, push_index, push_indices, append_indices, append, tail, end_row, start, build,
  try_narrow,
}

-- How many coordinates the lists hold together.
abbrev total : List (List ℕ) → ℕ
total [] = 0
total (c ∷ cs) = length c + total cs

-- A call with at most `n` rounds adds at most one coordinate to each list in each round, and fewer
-- where it says no.
record Adds (n : ℕ) (cs : List (List ℕ)) (r : Result Bool × List (List ℕ)) : Type 0 where
  same_length : length r.1 ≡ length cs
  bound : total r.1 ≤ total cs + length cs * n
  fewer : r.0 ≡ ok false → total r.1 < total cs + length cs * n

ok≢ : ok true ≢ ok false
ok≢ e = cc

module _ (n : ℕ) where
  true-Adds : (cs : List (List ℕ)) → Adds n cs (ok true, cs)
  true-Adds cs = record { same_length = refl; bound = omega arith; fewer = λ e. absurd (ok≢ e) }

  err-Adds : (e : Error) (cs : List (List ℕ)) → Adds n cs (err e, cs)
  err-Adds e cs = record { same_length = refl; bound = omega arith; fewer = λ f. cc }

  false-Adds : (c : List ℕ) (cs : List (List ℕ)) → 0 < n → Adds n (c ∷ cs) (ok false, c ∷ cs)
  false-Adds c cs h = record { same_length = refl; bound = omega arith; fewer = λ e. grind arith }

extended-Adds :
    (c : List ℕ) (x : ℕ) (cs : List (List ℕ)) (r : Result Bool × List (List ℕ))
    → Adds 1 cs r
    → Adds 1 (c ∷ cs) (r.0, (c ++ x ∷ []) ∷ r.1)
extended-Adds c x cs r h = record {
  same_length = ap suc h.same_length;
  bound = omega (arith, h.bound, length-append c (x ∷ []));
  fewer = λ e. omega (arith, h.fewer e, length-append c (x ∷ []));
}

push_dims-Adds :
    (dims strides : List ℕ) (idx : ℕ) (cs : List (List ℕ))
    → Adds 1 cs (push_dims dims strides idx cs)
unfolding push_dims
push_dims-Adds [] strides idx cs = true-Adds 1 cs
push_dims-Adds (d ∷ dims) [] idx cs = true-Adds 1 cs
push_dims-Adds (d ∷ dims) (s ∷ strides) idx [] = true-Adds 1 []
push_dims-Adds (d ∷ dims) (s ∷ strides) idx (c ∷ cs) =
    let rest = push_dims dims strides (idx % s) cs in
    let longer : Result Bool × List (List ℕ) = (rest.0, (c ++ idx / s ∷ []) ∷ rest.1) in
    elim (s == 0)
      as (λ zero. Adds 1 (c ∷ cs) (
        if zero
        then (err undefined_behaviour, c ∷ cs)
        else if leb d (idx / s)
        then (ok false, c ∷ cs)
        else longer)) [
          | true ↦ err-Adds 1 undefined_behaviour (c ∷ cs)
          | false ↦
              elim (leb d (idx / s))
                as (λ beyond. Adds 1 (c ∷ cs) (if beyond then (ok false, c ∷ cs) else longer)) [
                  | true ↦ false-Adds 1 c cs (omega arith)
                  | false ↦
                      extended-Adds c (idx / s) cs rest (push_dims-Adds dims strides (idx % s) cs)
                ]
        ]

module _ (attr : Attribute) (row_idx : ℕ) where
  push_index-Adds : (idx : ℕ) (cs : List (List ℕ)) → Adds 1 cs (push_index attr row_idx idx cs)
  unfolding push_index
  push_index-Adds idx [] = err-Adds 1 undefined_behaviour []
  push_index-Adds idx (c ∷ cs) =
      let rest = push_dims (tail attr.shape) (tail attr.strides) idx cs in
      elim (try_narrow idx)
        as (λ (o : Option ℕ). Adds 1 (c ∷ cs) (elim o as (λ _. Result Bool × List (List ℕ)) [
          | none ↦ (ok false, c ∷ cs)
          | some _ ↦ (rest.0, (c ++ row_idx ∷ []) ∷ rest.1)
        ])) [
          | none ↦ false-Adds 1 c cs (omega arith)
          | some _ ↦
              extended-Adds c row_idx cs rest
                (push_dims-Adds (tail attr.shape) (tail attr.strides) idx cs)
        ]

  -- One round and those that follow it.
  then-Adds :
      (n : ℕ) (cs : List (List ℕ)) (r : Result Bool × List (List ℕ))
      → Adds 1 cs r
      → (next : Action (List (List ℕ)) Bool) → ((cs' : List (List ℕ)) → Adds n cs' (next cs'))
      → Adds (suc n) cs (then_call r (λ within. if within then next else pure false))
  then-Adds n cs (ok true, cs') h next k = record {
    same_length = (k cs').same_length ∙ h.same_length;
    bound =
        omega (arith, h.bound, (k cs').bound, ap (λ l. l * n) h.same_length, mul-suc (length cs) n);
    fewer = λ e.
        omega
          (arith, h.bound, (k cs').fewer e, ap (λ l. l * n) h.same_length, mul-suc (length cs) n);
  }
  then-Adds n cs (ok false, cs') h next k = record {
    same_length = h.same_length;
    bound = omega (arith, h.bound, mul-suc (length cs) n);
    fewer = λ e. omega (arith, h.fewer refl, mul-suc (length cs) n);
  }
  then-Adds n cs (err e, cs') h next k = record {
    same_length = h.same_length;
    bound = omega (arith, h.bound, mul-suc (length cs) n);
    fewer = λ f. cc;
  }

  push_indices-Adds :
      (indices : List ℕ) (cs : List (List ℕ))
      → Adds (length indices) cs (push_indices attr row_idx indices cs)
  unfolding push_indices
  push_indices-Adds [] cs = true-Adds 0 cs
  push_indices-Adds (idx ∷ indices) cs =
      then-Adds (length indices) cs (push_index attr row_idx idx cs) (push_index-Adds idx cs)
        (push_indices attr row_idx indices) (push_indices-Adds indices)

-- As many coordinates in each list as elements, or fewer.
abbrev Fits : {V : Type 0} → Builder V → Type 0
Fits b = total b.coordinates ≤ length b.coordinates * length b.elements

abbrev LacksSome : {V : Type 0} → Builder V → Type 0
LacksSome b = total b.coordinates < length b.coordinates * length b.elements

-- Calls of `append` with as many keys as values, and what they returned.
pub data Appends {V : Type 0} (attr : Attribute) : Builder V → List Bool → Builder V → Type 0 where
  none_more : {b : Builder V} → Appends attr b [] b
  append_more :
      {b c d : Builder V} {r : Bool} {rs : List Bool} (values : List V) (indices : List ℕ)
      → length values ≡ length indices
      → append attr values indices b ≡ (ok r, c)
      → Appends attr c rs d
      → Appends attr b (r ∷ rs) d

abbrev pub all_true : List Bool → Bool
all_true [] = true
all_true (b ∷ bs) = b && all_true bs

all_of_size-total :
    (n : ℕ) (cs : List (List ℕ)) → all_of_size n cs ≡ true → total cs ≡ length cs * n
unfolding all_of_size
all_of_size-total n [] h = omega arith
all_of_size-total n (c ∷ cs) h = elim (Bool-cases (length c == n)) [
  | inl s ↦
      let rest = all_of_size-total n cs (rw s at h) in
      omega (arith, rest, (==_iff (length c) n).0 s, suc-mul (length cs) n)
  | inr s ↦ absurd (true≢false (sym h ∙ rw s))
]

total-replicate : (n : ℕ) → total (replicate n []) ≡ 0
total-replicate zero = refl
total-replicate (suc n) = omega (arith, total-replicate n)

-- What a call of `append` with `k` values and keys that returns `r` has made of the builder.
record Grows {V : Type 0} (k : ℕ) (b : Builder V) (r : Bool) (c : Builder V) : Type 0 where
  lists : length c.coordinates ≡ length b.coordinates
  grown : length c.elements ≡ length b.elements + k
  bound : total c.coordinates ≤ total b.coordinates + length b.coordinates * k
  fewer : r ≡ false → total c.coordinates < total b.coordinates + length b.coordinates * k

module _ {V : Type 0} (attr : Attribute) where
  append-Grows :
      (values : List V) (indices : List ℕ) (b c : Builder V) (r : Bool)
      → length values ≡ length indices
      → append attr values indices b ≡ (ok r, c)
      → Grows (length indices) b r c
  unfolding append append_indices
  append-Grows values indices b c r e =
      ended (push_indices attr b.row_idx indices b.coordinates)
        (push_indices-Adds attr b.row_idx indices b.coordinates)
    where
      ended :
          (q : Result Bool × List (List ℕ))
          → Adds (length indices) b.coordinates q
          → end_row (record b { elements = b.elements ++ values }) q ≡ (ok r, c)
          → Grows (length indices) b r c
      ended (err x, cs) h g = cc
      ended (ok true, cs) h g =
          let same_cs : cs ≡ c.coordinates = ap (λ x. x.1.coordinates) g in
          let same_elements : b.elements ++ values ≡ c.elements = ap (λ x. x.1.elements) g in
          record {
            lists = ap length (sym same_cs) ∙ h.same_length;
            grown =
                ap length (sym same_elements)
                ∙ length-append b.elements values
                ∙ ap (λ k. length b.elements + k) e;
            bound =
                subst (λ x. total x ≤ total b.coordinates + length b.coordinates * length indices)
                  same_cs h.bound;
            fewer = λ f. absurd (ok≢ (ap (λ x. x.0) g ∙ ap ok f));
          }
      ended (ok false, cs) h g =
          let same_cs : cs ≡ c.coordinates = ap (λ x. x.1.coordinates) g in
          let same_elements : b.elements ++ values ≡ c.elements = ap (λ x. x.1.elements) g in
          record {
            lists = ap length (sym same_cs) ∙ h.same_length;
            grown =
                ap length (sym same_elements)
                ∙ length-append b.elements values
                ∙ ap (λ k. length b.elements + k) e;
            bound =
                subst (λ x. total x ≤ total b.coordinates + length b.coordinates * length indices)
                  same_cs h.bound;
            fewer = λ f.
                subst (λ x. total x < total b.coordinates + length b.coordinates * length indices)
                  same_cs (h.fewer refl);
          }

  -- The room that the elements ask for grows with them.
  room :
      (k : ℕ) (b c : Builder V) (r : Bool)
      → Grows k b r c
      → length c.coordinates * length c.elements
        ≡ length b.coordinates * length b.elements + length b.coordinates * k
  room k b c r g =
      ap (λ l. l * length c.elements) g.lists
      ∙ ap (λ n. length b.coordinates * n) g.grown
      ∙ mul-add (length b.coordinates) (length b.elements) k

  Appends-LacksSome :
      (b c : Builder V) (rs : List Bool) → Appends attr b rs c → LacksSome b → LacksSome c
  Appends-LacksSome b c [] none_more f = f
  Appends-LacksSome b d (r ∷ rs) (append_more {c = c} values indices e a more) f =
      let g = append-Grows values indices b c r e a in
      Appends-LacksSome c d rs more (omega (arith, g.bound, room (length indices) b c r g))

  Appends-fewer :
      (b c : Builder V) (rs : List Bool)
      → Appends attr b rs c
      → all_true rs ≡ false
      → Fits b
      → LacksSome c
  Appends-fewer b c [] none_more t f = absurd (true≢false t)
  Appends-fewer b d (true ∷ rs) (append_more {c = c} values indices e a more) t f =
      let g = append-Grows values indices b c true e a in
      Appends-fewer c d rs more t (omega (arith, g.bound, room (length indices) b c true g))
  Appends-fewer b d (false ∷ rs) (append_more {c = c} values indices e a more) t f =
      let g = append-Grows values indices b c false e a in
      Appends-LacksSome c d rs more (omega (arith, g.fewer refl, room (length indices) b c false g))

  -- Once a call of `append` with as many keys as values has refused its row, whatever rows are
  -- appended before and after it, the constructor of the tensor throws when the builder builds it.
  pub build-refused :
      (batch_size : ℕ) (b : Builder V) (rs : List Bool)
      → Appends attr (start attr) rs b
      → all_true rs ≡ false
      → build attr batch_size b ≡ err invalid_argument
  unfolding build make_coo_tensor start
  build-refused batch_size b rs a t =
      let lacks =
        Appends-fewer (start attr) b rs a t (omega (arith, total-replicate (length attr.shape))) in
      elim (Bool-cases (all_of_size (length b.elements) b.coordinates)) [
        | inl s ↦
            absurd (omega (arith, lacks, all_of_size-total (length b.elements) b.coordinates s))
        | inr s ↦ ground (arith, s)
      ]
