-- ===== src/Vector/Iterate.antt =====
-- The reads of the fields, and the loops VECTOR_FOR_EACH, VECTOR_FOR_EACH_R, VECTOR_FOR_EACH_RANGE and
-- VECTOR_FOR_EACH_RANGE_R (cstructures/include/cstructures/vector.h). The body of a loop is any function
-- of what it keeps and of the pointer to the element, as an offset; it leaves the vector alone. The
-- loops are on fuel: a round for each element and one more; to run out of it counts as a fault.
use cstructures.Prelude.{
  ℕ, zero, suc, ◌+◌, ◌-◌, ◌*◌, true, false, Option, Exec, done, fault, ◌>>=◌, ltb, ◌==◌,
}
use cstructures.Prelude.Word.{mul32}
use cstructures.Buffer.{Block}
use cstructures.Vector.Struct.{Vector}

unfoldable pub vector_count : Vector → ℕ
vector_count v = v.count

unfoldable pub vector_capacity : Vector → ℕ
vector_capacity v = v.capacity

unfoldable pub vector_data : Vector → Option Block
vector_data v = v.buf

module _ {ℓ} {S : Type ℓ} (v : Vector) (body : S → ℕ → Exec S) where
  unfoldable pub for_each_to : ℕ → ℕ → ℕ → S → Exec S
  for_each_to zero end var s = fault
  for_each_to (suc fuel) end var s = elim (var == end) [
    | true ↦ done s
    | false ↦ body s var >>= λ s'. for_each_to fuel end (var + v.element_size) s'
  ]

  unfoldable pub vector_for_each : S → Exec S
  unfolding for_each_to
  vector_for_each s = for_each_to (suc v.count) (mul32 v.count v.element_size) 0 s

  -- Backwards. The places are the ends of the elements: the source compares pointers that are one
  -- element lower, and the last one lies before the object.
  unfoldable pub for_each_down_to : ℕ → ℕ → ℕ → S → Exec S
  for_each_down_to zero start place s = fault
  for_each_down_to (suc fuel) start place s = elim (place == start) [
    | true ↦ done s
    | false ↦ body s (place - v.element_size) >>= λ s'.
        for_each_down_to fuel start (place - v.element_size) s'
  ]

  unfoldable pub vector_for_each_r : S → Exec S
  unfolding for_each_down_to
  vector_for_each_r s = for_each_down_to (suc v.count) 0 (mul32 v.count v.element_size) s

  -- The indices are `cs_vec_idx`, so their products do not wrap.
  unfoldable pub for_each_below : ℕ → ℕ → ℕ → S → Exec S
  for_each_below zero end var s = fault
  for_each_below (suc fuel) end var s = elim (ltb var end) [
    | true ↦ body s var >>= λ s'. for_each_below fuel end (var + v.element_size) s'
    | false ↦ done s
  ]

  unfoldable pub vector_for_each_range : ℕ → ℕ → S → Exec S
  unfolding for_each_below
  vector_for_each_range begin_index end_index s =
      for_each_below (suc (end_index - begin_index)) (end_index * v.element_size)
        (begin_index * v.element_size) s

  unfoldable pub for_each_above : ℕ → ℕ → ℕ → S → Exec S
  for_each_above zero start place s = fault
  for_each_above (suc fuel) start place s = elim (ltb start place) [
    | true ↦ body s (place - v.element_size) >>= λ s'.
        for_each_above fuel start (place - v.element_size) s'
    | false ↦ done s
  ]

  unfoldable pub vector_for_each_range_r : ℕ → ℕ → S → Exec S
  unfolding for_each_above
  vector_for_each_range_r begin_index end_index s =
      for_each_above (suc (end_index - begin_index)) (begin_index * v.element_size)
        (end_index * v.element_size) s
