-- ===== src/Tensors/Coo/Coordinates.antt =====
-- coo_tensor_builder.cc: the coordinates that a row of flat indices leads to.
use native.Mathlib.Nat.{
  div-lt_iff_lt-mul, le-div_iff_mul-le, mod-lt, div-add-mod, mul-pos, mul_comm,
}
use mathlib.Core.Bool.{true≢false}
use ml_io.Base.{
  ℕ, suc, ◌+◌, ◌*◌, ◌/◌, ◌%◌, ◌^◌, ◌≤◌, ◌<◌, ◌≡◌, refl, sym, ap, ◌∙◌, Bool, true, false, List, [],
  ◌∷◌, ◌++◌, length, ltb, if◌then◌else◌, Bool-cases, inl, inr, arith, ltb→lt, map,
}
use ml_io.Action.{ok, then_call, pure}
use ml_io.Tensors.{word_mod, default_strides}
use ml_io.Tensors.Bounds.{product, StridesFit, default_strides-cons}
use ml_io.Tensors.Schema.{Attribute}
use ml_io.Tensors.Coo.{
  Builder, push_dims, push_index, push_indices, append_indices, append, tail, end_row,
}

-- The flat index of a point, and the points of a shape.
abbrev pub ravel : List ℕ → List ℕ → ℕ
ravel (d ∷ dims) (c ∷ point) = c * product dims + ravel dims point
ravel _ _ = 0

abbrev pub Within : List ℕ → List ℕ → Type 0
Within [] [] = Unit {0}
Within (d ∷ dims) (c ∷ point) = (c < d) × Within dims point
Within _ _ = ⊥

-- Each index has its point.
abbrev pub AllLocated : List ℕ → List ℕ → List (List ℕ) → Type 0
AllLocated dims [] [] = Unit {0}
AllLocated dims (i ∷ indices) (p ∷ points) =
    (ravel dims p ≡ i) × Within dims p × AllLocated dims indices points
AllLocated dims _ _ = ⊥

abbrev pub AllPositive : List ℕ → Type 0
AllPositive [] = Unit {0}
AllPositive (d ∷ dims) = (0 < d) × AllPositive dims

-- A point behind the lists of coordinates, one coordinate behind each.
abbrev pub add_point : List ℕ → List (List ℕ) → List (List ℕ)
add_point (p ∷ point) (c ∷ cs) = (c ++ p ∷ []) ∷ add_point point cs
add_point _ cs = cs

abbrev pub add_points : ℕ → List (List ℕ) → List (List ℕ) → List (List ℕ)
add_points row_idx [] cs = cs
add_points row_idx (p ∷ points) cs = add_points row_idx points (add_point (row_idx ∷ p) cs)

abbrev pub all_below : ℕ → List ℕ → Bool
all_below n [] = true
all_below n (i ∷ indices) = if ltb i n then all_below n indices else false

abbrev unravel : List ℕ → ℕ → List ℕ
unravel [] i = []
unravel (d ∷ dims) i = i / product dims ∷ unravel dims (i % product dims)

product-pos : (dims : List ℕ) → AllPositive dims → 0 < product dims
product-pos [] h = omega arith
product-pos (d ∷ dims) (p, h) = mul-pos p (product-pos dims h)

ravel-unravel :
    (dims : List ℕ) (i : ℕ)
    → AllPositive dims
    → i < product dims
    → (ravel dims (unravel dims i) ≡ i) × Within dims (unravel dims i)
ravel-unravel [] i h l = (omega arith, tt)
ravel-unravel (d ∷ dims) i (p, h) l =
    let q : 0 < product dims = product-pos dims h in
    let (e, w) = ravel-unravel dims (i % product dims) h (mod-lt i q) in
    (
      omega (arith, e, div-add-mod i (product dims), mul_comm (product dims) (i / product dims)),
      ((div-lt_iff_lt-mul q).1 l, w),
    )

length-add_point : (p : List ℕ) (cs : List (List ℕ)) → length (add_point p cs) ≡ length cs
length-add_point [] cs = refl
length-add_point (p ∷ ps) [] = refl
length-add_point (p ∷ ps) (c ∷ cs) = ap suc (length-add_point ps cs)

push_dims-unravel :
    (dims : List ℕ) (i : ℕ) (cs : List (List ℕ))
    → AllPositive dims
    → StridesFit dims
    → length cs ≡ length dims
    → i < product dims
    → push_dims dims (default_strides dims) i cs ≡ (ok true, add_point (unravel dims i) cs)
unfolding push_dims default_strides
push_dims-unravel [] i cs h f e l = refl
push_dims-unravel (d ∷ dims) i [] h f e l = absurd (omega arith)
push_dims-unravel (d ∷ dims) i (c ∷ cs) (p, h) (f, g) e l =
    let q : 0 < product dims = product-pos dims h in
    let small : i / product dims < d = (div-lt_iff_lt-mul q).1 l in
    let rest = push_dims-unravel dims (i % product dims) cs h g (omega arith) (mod-lt i q) in
    ap (λ strides. push_dims (d ∷ dims) strides i (c ∷ cs)) (default_strides-cons d dims (f, g))
    ∙ ground (arith, rest)

push_dims-beyond :
    (d : ℕ) (dims : List ℕ) (i : ℕ) (cs : List (List ℕ))
    → AllPositive dims
    → StridesFit (d ∷ dims)
    → length cs ≡ length (d ∷ dims)
    → product (d ∷ dims) ≤ i
    → push_dims (d ∷ dims) (default_strides (d ∷ dims)) i cs ≡ (ok false, cs)
unfolding push_dims default_strides
push_dims-beyond d dims i [] h f e l = absurd (omega arith)
push_dims-beyond d dims i (c ∷ cs) h f e l =
    let q : 0 < product dims = product-pos dims h in
    let big : d ≤ i / product dims = (le-div_iff_mul-le q).1 l in
    ap (λ strides. push_dims (d ∷ dims) strides i (c ∷ cs)) (default_strides-cons d dims f)
    ∙ ground arith

all_below-cons :
    (n i : ℕ) (indices : List ℕ)
    → all_below n (i ∷ indices) ≡ true
    → (i < n) × (all_below n indices ≡ true)
all_below-cons n i indices b = ground arith

-- A sparse row that the attribute of a shape with default strides describes.
module _ (attr : Attribute) (n d : ℕ) (dims : List ℕ) (shape : attr.shape ≡ n ∷ d ∷ dims)
    (strides : attr.strides ≡ default_strides (n ∷ d ∷ dims)) (h : AllPositive (d ∷ dims))
    (f : StridesFit (d ∷ dims)) (l : product (d ∷ dims) < 2 ^ 64) where
  tail_dims :
      (i : ℕ) (cs : List (List ℕ))
      → push_dims (tail attr.shape) (tail attr.strides) i cs
        ≡ push_dims (d ∷ dims) (default_strides (d ∷ dims)) i cs
  unfolding default_strides
  tail_dims i cs =
      ap (λ s. push_dims (tail s) (tail attr.strides) i cs) shape
      ∙ ap (λ s. push_dims (d ∷ dims) (tail s) i cs) strides

  push_index-unravel :
      (row_idx i : ℕ) (cs : List (List ℕ))
      → length cs ≡ length (n ∷ d ∷ dims)
      → i < product (d ∷ dims)
      → push_index attr row_idx i cs ≡ (ok true, add_point (row_idx ∷ unravel (d ∷ dims) i) cs)
  unfolding push_index default_strides
  push_index-unravel row_idx i [] e b = absurd (omega arith)
  push_index-unravel row_idx i (c ∷ cs) e b =
      ground (arith, tail_dims i cs ∙ push_dims-unravel (d ∷ dims) i cs h f (omega arith) b)

  push_index-beyond :
      (row_idx i : ℕ) (cs : List (List ℕ))
      → length cs ≡ length (n ∷ d ∷ dims)
      → product (d ∷ dims) ≤ i
      → (cs' : List (List ℕ)) × (push_index attr row_idx i cs ≡ (ok false, cs'))
  unfolding push_index default_strides
  push_index-beyond row_idx i [] e b = absurd (omega arith)
  push_index-beyond row_idx i (c ∷ cs) e b =
      let rest = tail_dims i cs ∙ push_dims-beyond d dims i cs h.1 f (omega arith) b in
      elim (Bool-cases (ltb i word_mod)) [
        | inl w ↦ ((c ++ row_idx ∷ []) ∷ cs, ground (arith, w, rest))
        | inr w ↦ (c ∷ cs, ground (arith, w))
      ]

  push_indices-unravel :
      (row_idx : ℕ) (indices : List ℕ) (cs : List (List ℕ))
      → length cs ≡ length (n ∷ d ∷ dims)
      → all_below (product (d ∷ dims)) indices ≡ true
      → push_indices attr row_idx indices cs
        ≡ (ok true, add_points row_idx (map (unravel (d ∷ dims)) indices) cs)
  unfolding push_indices
  push_indices-unravel row_idx [] cs e b = refl
  push_indices-unravel row_idx (i ∷ indices) cs e b =
      let (small, all) = all_below-cons (product (d ∷ dims)) i indices b in
      let p : List ℕ = row_idx ∷ unravel (d ∷ dims) i in
      ap
        (λ r.
          then_call r (λ within. if within then push_indices attr row_idx indices else pure false))
        (push_index-unravel row_idx i cs e small)
      ∙ push_indices-unravel row_idx indices (add_point p cs) (length-add_point p cs ∙ e) all

  push_indices-beyond :
      (row_idx : ℕ) (indices : List ℕ) (cs : List (List ℕ))
      → length cs ≡ length (n ∷ d ∷ dims)
      → all_below (product (d ∷ dims)) indices ≡ false
      → (cs' : List (List ℕ)) × (push_indices attr row_idx indices cs ≡ (ok false, cs'))
  unfolding push_indices
  push_indices-beyond row_idx [] cs e b = absurd (true≢false b)
  push_indices-beyond row_idx (i ∷ indices) cs e b =
      elim (Bool-cases (ltb i (product (d ∷ dims)))) [
        | inl s ↦
            let p : List ℕ = row_idx ∷ unravel (d ∷ dims) i in
            let (cs', r) =
              push_indices-beyond row_idx indices (add_point p cs) (length-add_point p cs ∙ e)
                (rw s at b) in
            (
              cs',
              ap
                    (λ r.
                      then_call r (λ within.
                        if within then push_indices attr row_idx indices else pure false))
                    (push_index-unravel row_idx i cs e (ltb→lt i (product (d ∷ dims)) s))
                  ∙ r,
            )
        | inr s ↦
            let (cs', r) = push_index-beyond row_idx i cs e (ground arith) in
            (
              cs',
              ap
                  (λ r.
                    then_call r
                      (λ within. if within then push_indices attr row_idx indices else pure false))
                  r,
            )
      ]

  located :
      (indices : List ℕ)
      → all_below (product (d ∷ dims)) indices ≡ true
      → AllLocated (d ∷ dims) indices (map (unravel (d ∷ dims)) indices)
  located [] b = tt
  located (i ∷ indices) b =
      let (small, all) = all_below-cons (product (d ∷ dims)) i indices b in
      let (e, w) = ravel-unravel (d ∷ dims) i h small in (e, w, located indices all)

  -- A row of a builder for an attribute with default strides, positive dimensions and fewer than
  -- 2 ^ 64 points is taken exactly if its keys are below the number of points. Then behind the lists
  -- of coordinates stand, row number first, the points that have the keys as their flat indices.
  pub append-AllLocated :
      {V : Type 0} (values : List V) (indices : List ℕ) (b : Builder V)
      → length b.coordinates ≡ length attr.shape
      → ((append attr values indices b).0 ≡ ok (all_below (product (d ∷ dims)) indices))
        × (all_below (product (d ∷ dims)) indices ≡ true
            → (points : List (List ℕ)) × AllLocated (d ∷ dims) indices points
              × ((append attr values indices b).1 ≡ record {
                row_idx = b.row_idx + 1;
                coordinates = add_points b.row_idx points b.coordinates;
                elements = b.elements ++ values;
              }))
  unfolding append append_indices
  append-AllLocated values indices b e =
      let same_length = e ∙ ap length shape in
      elim (Bool-cases (all_below (product (d ∷ dims)) indices)) [
        | inl s ↦
            let r = push_indices-unravel b.row_idx indices b.coordinates same_length s in
            (
              ap (λ x. (end_row (record b { elements = b.elements ++ values }) x).0) r
                  ∙ ap ok (sym s),
              λ _. (
                map (unravel (d ∷ dims)) indices,
                located indices s,
                ap (λ x. (end_row (record b { elements = b.elements ++ values }) x).1) r,
              ),
            )
        | inr s ↦
            let (cs', r) = push_indices-beyond b.row_idx indices b.coordinates same_length s in
            (
              ap (λ x. (end_row (record b { elements = b.elements ++ values }) x).0) r
                  ∙ ap ok (sym s),
              λ t. absurd (true≢false (sym t ∙ s)),
            )
      ]
