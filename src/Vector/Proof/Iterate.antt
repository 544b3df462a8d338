-- ===== src/Vector/Proof/Iterate.antt =====
-- The loops of the header visit the elements (cstructures/include/cstructures/vector.h).
use mathlib.Core.Path.{fun_ext}
use cstructures.Prelude.{
  ℕ, zero, suc, ◌+◌, ◌-◌, ◌*◌, ◌≤◌, ◌<◌, ◌≡◌, ◌≢◌, refl, ◌∙◌, ap, ap₂, List, [], ◌∷◌, Exec, done,
  ◌>>=◌, arith, eq→==, ne→==, lt→ltb, le→ltb,
}
use cstructures.Prelude.Word.{mul32, mul32-eq, mul-le, entry-le}
use cstructures.Vector.Struct.{Vector}
use cstructures.Vector.Iterate.{
  for_each_to, vector_for_each, for_each_down_to, vector_for_each_r, for_each_below,
  vector_for_each_range, for_each_above, vector_for_each_range_r,
}
use cstructures.Vector.Valid.{IsValid}

-- The offsets of `n` elements from `i` on, and the same backwards.
abbrev pub offsets : ℕ → ℕ → ℕ → List ℕ
offsets es i zero = []
offsets es i (suc n) = i * es ∷ offsets es (suc i) n

abbrev pub offsets_down : ℕ → ℕ → ℕ → List ℕ
offsets_down es i zero = []
offsets_down es i (suc n) = (i + n) * es ∷ offsets_down es i n

-- The body, run on one pointer after the other.
abbrev pub visit_all {ℓ} : {S : Type ℓ} → (S → ℕ → Exec S) → List ℕ → S → Exec S
visit_all body [] s = done s
visit_all body (p ∷ ps) s = body s p >>= λ s'. visit_all body ps s'

module _ {ℓ} {S : Type ℓ} (v : Vector) (body : S → ℕ → Exec S) (pos : 0 < v.element_size) where
  place-lt : (i j : ℕ) → i < j → i * v.element_size < j * v.element_size
  place-lt i j lt = omega (arith, entry-le i j v.element_size lt)

  same_place : (i j : ℕ) → i ≡ j → i * v.element_size ≡ j * v.element_size
  same_place i j e = ap (λ k. k * v.element_size) e

  for_each_to_more :
      (fuel end var : ℕ) (s : S)
      → var ≢ end
      → for_each_to v body (suc fuel) end var s
        ≡ (body s (var) >>= λ s'. for_each_to v body fuel end (var + v.element_size) s')
  unfolding for_each_to
  for_each_to_more fuel end var s h = rw (for_each_to, ne→== var end h) refl

  for_each_to_done :
      (fuel end var : ℕ) (s : S) → var ≡ end → for_each_to v body (suc fuel) end var s ≡ done s
  unfolding for_each_to
  for_each_to_done fuel end var s h = rw (for_each_to, eq→== var end h) refl

  for_each_to-visit_all :
      (n i end var : ℕ) (s : S)
      → var ≡ i * v.element_size
      → end ≡ (i + n) * v.element_size
      → for_each_to v body (suc n) end var s ≡ visit_all body (offsets v.element_size i n) s
  for_each_to-visit_all zero i end var s e e' =
      for_each_to_done 0 end var s (omega (arith, same_place i (i + 0) (omega arith)))
  for_each_to-visit_all (suc n) i end var s e e' =
      for_each_to_more (suc n) end var s (omega (arith, place-lt i (i + suc n) (omega arith)))
      ∙ ap₂ (λ x f. body s x >>= f) e
          (fun_ext λ s'.
            for_each_to-visit_all n (suc i) end (var + v.element_size) s' (omega arith)
              (e' ∙ same_place (i + suc n) (suc i + n) (omega arith)))

  for_each_below_more :
      (fuel end var : ℕ) (s : S)
      → var < end
      → for_each_below v body (suc fuel) end var s
        ≡ (body s (var) >>= λ s'. for_each_below v body fuel end (var + v.element_size) s')
  unfolding for_each_below
  for_each_below_more fuel end var s h = rw (for_each_below, lt→ltb var end h) refl

  for_each_below_done :
      (fuel end var : ℕ) (s : S) → end ≤ var → for_each_below v body (suc fuel) end var s ≡ done s
  unfolding for_each_below
  for_each_below_done fuel end var s h = rw (for_each_below, le→ltb var end h) refl

  for_each_below-visit_all :
      (n i end var : ℕ) (s : S)
      → var ≡ i * v.element_size
      → end ≡ (i + n) * v.element_size
      → for_each_below v body (suc n) end var s ≡ visit_all body (offsets v.element_size i n) s
  for_each_below-visit_all zero i end var s e e' =
      for_each_below_done 0 end var s (omega (arith, same_place i (i + 0) (omega arith)))
  for_each_below-visit_all (suc n) i end var s e e' =
      for_each_below_more (suc n) end var s (omega (arith, place-lt i (i + suc n) (omega arith)))
      ∙ ap₂ (λ x f. body s x >>= f) e
          (fun_ext λ s'.
            for_each_below-visit_all n (suc i) end (var + v.element_size) s' (omega arith)
              (e' ∙ same_place (i + suc n) (suc i + n) (omega arith)))

  for_each_down_to_more :
      (fuel start place : ℕ) (s : S)
      → place ≢ start
      → for_each_down_to v body (suc fuel) start place s ≡ (
          body s (place - v.element_size) >>= λ s'.
          for_each_down_to v body fuel start (place - v.element_size) s')
  unfolding for_each_down_to
  for_each_down_to_more fuel start place s h = rw (for_each_down_to, ne→== place start h) refl

  for_each_down_to_done :
      (fuel start place : ℕ) (s : S)
      → place ≡ start
      → for_each_down_to v body (suc fuel) start place s ≡ done s
  unfolding for_each_down_to
  for_each_down_to_done fuel start place s h = rw (for_each_down_to, eq→== place start h) refl

  for_each_down_to-visit_all :
      (n i start place : ℕ) (s : S)
      → start ≡ i * v.element_size
      → place ≡ (i + n) * v.element_size
      → for_each_down_to v body (suc n) start place s
        ≡ visit_all body (offsets_down v.element_size i n) s
  for_each_down_to-visit_all zero i start place s e e' =
      for_each_down_to_done 0 start place s (omega (arith, same_place i (i + 0) (omega arith)))
  for_each_down_to-visit_all (suc n) i start place s e e' =
      let lower : place - v.element_size ≡ (i + n) * v.element_size =
        omega (arith, e', same_place (i + suc n) (suc (i + n)) (omega arith)) in
      for_each_down_to_more (suc n) start place s
        (omega (arith, place-lt i (i + suc n) (omega arith)))
      ∙ ap₂ (λ x f. body s x >>= f) lower
          (fun_ext λ s'. for_each_down_to-visit_all n i start (place - v.element_size) s' e lower)

  for_each_above_more :
      (fuel start place : ℕ) (s : S)
      → start < place
      → for_each_above v body (suc fuel) start place s ≡ (
          body s (place - v.element_size) >>= λ s'.
          for_each_above v body fuel start (place - v.element_size) s')
  unfolding for_each_above
  for_each_above_more fuel start place s h = rw (for_each_above, lt→ltb start place h) refl

  for_each_above_done :
      (fuel start place : ℕ) (s : S)
      → place ≤ start
      → for_each_above v body (suc fuel) start place s ≡ done s
  unfolding for_each_above
  for_each_above_done fuel start place s h = rw (for_each_above, le→ltb start place h) refl

  for_each_above-visit_all :
      (n i start place : ℕ) (s : S)
      → start ≡ i * v.element_size
      → place ≡ (i + n) * v.element_size
      → for_each_above v body (suc n) start place s
        ≡ visit_all body (offsets_down v.element_size i n) s
  for_each_above-visit_all zero i start place s e e' =
      for_each_above_done 0 start place s (omega (arith, same_place i (i + 0) (omega arith)))
  for_each_above-visit_all (suc n) i start place s e e' =
      let lower : place - v.element_size ≡ (i + n) * v.element_size =
        omega (arith, e', same_place (i + suc n) (suc (i + n)) (omega arith)) in
      for_each_above_more (suc n) start place s
        (omega (arith, place-lt i (i + suc n) (omega arith)))
      ∙ ap₂ (λ x f. body s x >>= f) lower
          (fun_ext λ s'. for_each_above-visit_all n i start (place - v.element_size) s' e lower)

-- The loops over a valid vector, forwards and backwards, with any body that leaves the vector alone,
-- end, and do what the body does when it is run once on a pointer to each element, in order.
pub vector_for_each-visit_all {ℓ} :
    {S : Type ℓ} (v : Vector) (body : S → ℕ → Exec S) (s : S)
    → IsValid v
    → (vector_for_each v body s ≡ visit_all body (offsets v.element_size 0 v.count) s)
      × (vector_for_each_r v body s ≡ visit_all body (offsets_down v.element_size 0 v.count) s)
unfolding vector_for_each vector_for_each_r
vector_for_each-visit_all v body s valid =
    let le = mul-le v.count v.capacity v.element_size valid.room in
    let exact : mul32 v.count v.element_size ≡ (0 + v.count) * v.element_size =
      mul32-eq v.count v.element_size (omega (arith, valid.bounded))
      ∙ ap (λ k. k * v.element_size) (omega arith) in
    (
      for_each_to-visit_all v body valid.sized v.count 0 _ 0 s (omega arith) exact,
      for_each_down_to-visit_all v body valid.sized v.count 0 0 _ s (omega arith) exact,
    )

-- The loops over a range of indices, the first one included and the last one not, end, and visit the
-- elements of the range in order.
pub vector_for_each_range-visit_all {ℓ} :
    {S : Type ℓ} (v : Vector) (body : S → ℕ → Exec S) (begin_index end_index : ℕ) (s : S)
    → 0 < v.element_size
    → begin_index ≤ end_index
    → let n = end_index - begin_index in
      (vector_for_each_range v body begin_index end_index s
        ≡ visit_all body (offsets v.element_size begin_index n) s)
      × (vector_for_each_range_r v body begin_index end_index s
          ≡ visit_all body (offsets_down v.element_size begin_index n) s)
unfolding vector_for_each_range vector_for_each_range_r
vector_for_each_range-visit_all v body begin_index end_index s pos le =
    let n : ℕ = end_index - begin_index in
    let e : end_index * v.element_size ≡ (begin_index + n) * v.element_size =
      ap (λ k. k * v.element_size) (omega arith) in
    (
      for_each_below-visit_all v body pos n begin_index _ _ s refl e,
      for_each_above-visit_all v body pos n begin_index _ _ s refl e,
    )
