-- ===== src/Vector/Proof/Capacity.antt =====
-- The functions that change the capacity (`vector_reserve`, `vector_resize`, `vector_compact`,
-- `vector_clear` and `vector_clear_compact` of cstructures/src/vector.c).
use cstructures.Prelude.{
  ℕ, ◌+◌, ◌<◌, ◌≡◌, ◌≢◌, ◌⊎◌, refl, inl, inr, Option, none, Returns, Returns->>=, Returns_mono,
  arith, if◌then◌else◌, ◌==◌, ltb, ne→==, false, Bool-cases,
}
use cstructures.Prelude.Word.{mul-le}
use cstructures.Buffer.{Block, Allocator}
use cstructures.Vector.Struct.{Vector, Status, success, out_of_memory, size_differs}
use cstructures.Vector.Storage.{
  initial_capacity, vector_realloc, vector_reserve, finish_resize, keep_result, vector_resize,
  vector_compact,
}
use cstructures.Vector.Valid.{IsValid, entry, elements, Refuses, OrUnchanged, OrUnchanged-mono}
use cstructures.Vector.Proof.Grow.{
  Grown, Grown-weaken, elements-Grown, Regrown, Fits, vector_realloc-Grown,
}

abbrev pub Resized : Vector → ℕ → Vector → Type 0
Resized v n w = IsValid w × (w.count ≡ n) × ((k : ℕ) → k < n → k < v.count → entry w k ≡ entry v k)

finish_resize-Resized :
    (v : Vector) (n : ℕ) (Why : Type 0) (r : Status × Vector)
    → OrUnchanged v Why (Grown v n) r
    → Returns (finish_resize n r) (OrUnchanged v Why (Resized v n))
unfolding finish_resize
finish_resize-Resized v n Why (out_of_memory, w) h = h
finish_resize-Resized v n Why (size_differs, w) h = absurd h
finish_resize-Resized v n Why (success, w) g = (
  record { sized = g.valid.sized; room = g.enough; bounded = g.valid.bounded; owns = g.valid.owns },
  refl,
  λ k p q. g.same k q,
)

pub record Compacted (a : Allocator) (v : Vector) (r : Option Block × Vector) : Type 0 where
  pub valid : IsValid r.1
  pub same : elements r.1 ≡ elements v
  pub freed : r.0 ≡ (if v.count == 0 then v.buf else none)
  pub tight : (r.1.capacity ≡ v.count) ⊎ ((r.1 ≡ v) × Refuses a)

keep_result-Compacted :
    (a : Allocator) (v : Vector)
    → IsValid v
    → v.count ≢ 0
    → (r : Status × Vector) → OrUnchanged v (Refuses a) (Regrown v v.count) r
    → Returns (keep_result r) (Compacted a v)
unfolding keep_result
keep_result-Compacted a v valid ne (success, w) (g, c) =
    let test : v.count == 0 ≡ false = ne→== v.count 0 ne in
    record { valid = g.valid; same = elements-Grown g; freed = rw test; tight = inl (ground arith) }
keep_result-Compacted a v valid ne (out_of_memory, w) (e, why) =
    let test : v.count == 0 ≡ false = ne→== v.count 0 ne in
    record { valid = rw e valid; same = rw e; freed = rw test; tight = inr (e, why) }
keep_result-Compacted a v valid ne (size_differs, w) h = absurd h

module _ (a : Allocator) where
  -- `vector_reserve` of a valid vector does not fault: it keeps the elements and leaves room for
  -- the size, or the size was above the capacity, the allocator refused, and nothing has changed.
  pub vector_reserve-Grown :
      (v : Vector) (n : ℕ)
      → IsValid v
      → Fits v n
      → Returns (vector_reserve a v n) (OrUnchanged v ((v.capacity < n) × Refuses a) (Grown v n))
  unfolding vector_reserve
  vector_reserve-Grown v n valid fits = elim (Bool-cases (ltb v.capacity n)) [
    | inr e ↦ rw e (record {
      valid = valid;
      same = λ k p. refl;
      count = refl;
      element_size = refl;
      enough = ground arith;
    })
    | inl e ↦
        let more : v.capacity < n = ground arith in
        rw e (
          Returns_mono (vector_realloc a v none n) _ _
            (vector_realloc-Grown a v n valid (omega (arith, valid.room)) (omega arith) fits)
            (λ r h.
              OrUnchanged-mono v _ _ _ _ r h (λ why. (more, why))
                (λ w g. Grown-weaken g.0 (ground arith))))
  ]

  -- `vector_resize` to `n` gives a valid vector of exactly `n` elements, the first of which are
  -- those of before, as far as both reach.
  pub vector_resize-Resized :
      (v : Vector) (n : ℕ)
      → IsValid v
      → Fits v n
      → Returns (vector_resize a v n) (OrUnchanged v ((v.capacity < n) × Refuses a) (Resized v n))
  unfolding vector_resize
  vector_resize-Resized v n valid fits =
      Returns->>= (vector_reserve a v n) (finish_resize n) _ _ (vector_reserve-Grown v n valid fits)
        (finish_resize-Resized v n _)

  -- `vector_compact` of a valid vector never faults and keeps the elements. An empty vector is left
  -- without an object, and its object is freed; else nothing is freed, and the capacity is the
  -- count, unless the allocator refused, when it is as before. (vector.h says that all elements are
  -- erased, which is what `vector_clear_compact` does.)
  pub vector_compact-Compacted :
      (v : Vector) → IsValid v → Returns (vector_compact a v) (Compacted a v)
  unfolding vector_compact
  vector_compact-Compacted v valid = elim (Bool-cases (v.count == 0)) [
    | inl e ↦
        let empty : v.count ≡ 0 = ground arith in
        rw e (record {
          valid = record {
            sized = valid.sized;
            room = omega arith;
            bounded =
                omega
                  (arith, valid.bounded, mul-le 1 (v.capacity + 1) v.element_size (omega arith));
            owns = refl;
          };
          same = rw empty;
          freed = rw e;
          tight = inl (omega arith);
        })
    | inr e ↦
        let some_left : v.count ≢ 0 = ground arith in
        let exact : initial_capacity v.count ≡ v.count = ground arith in
        let fits : Fits v v.count = rw exact (
          omega (
            arith,
            valid.bounded,
            mul-le (v.count + 1) (v.capacity + 1) v.element_size (omega (arith, valid.room)),
          )) in
        rw e (
          Returns->>= (vector_realloc a v none v.count) keep_result _ _
            (vector_realloc-Grown a v v.count valid (omega arith) (omega arith) fits)
            (keep_result-Compacted a v valid some_left))
  ]
