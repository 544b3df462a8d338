-- ===== src/Vector/Proof/Insert.antt =====
-- Insertion in the middle (`vector_insert_emplace` and `vector_insert` of cstructures/src/vector.c):
-- both ways of moving the upper elements up, inside the capacity and by reallocation.
use cstructures.Prelude.{
  ℕ, ◌*◌, ◌≤◌, ◌≡◌, inl, inr, some, List, Returns, Returns->>=, Returns_mono, arith, length,
  if◌then◌else◌, ◌==◌, le→leb, Bool-cases,
}
use cstructures.Prelude.Word.{mul32, mul32-eq}
use cstructures.Buffer.{Allocator}
use cstructures.Vector.Struct.{Vector, needs_realloc}
use cstructures.Vector.Storage.{vector_realloc}
use cstructures.Vector.Insert.{
  shift_up, finish_insert_emplace, vector_insert_emplace, finish_insert, vector_insert,
}
use cstructures.Vector.Valid.{IsValid, OrUnchanged, OrUnchanged-mono}
use cstructures.Vector.Proof.Grow.{Fits-lt}
use cstructures.Vector.Proof.Open.{
  OpensOrNot, CanDouble, FullAndRefused, Inserted, finish_insert-Stored,
}
use cstructures.Vector.Proof.Raise.{
  Shifted, realloc-Shifted, finish_insert_emplace-Opens, shift_up-Shifted,
}

module _ (a : Allocator) where
  shift-Shifted :
      (v : Vector) (i : ℕ)
      → IsValid v
      → CanDouble v
      → i ≤ v.count
      → Returns
          (if needs_realloc v then vector_realloc a v (some i) (mul32 v.count 2) else shift_up v i)
          (OrUnchanged v (FullAndRefused a v) (Shifted v i))
  shift-Shifted v i valid fits le = elim (Bool-cases (v.count == v.capacity)) [
    | inr e ↦
        rw e (shift_up-Shifted v.capacity v.count v.element_size i le v.buf valid (ground arith) _)
    | inl e ↦
        let full : v.count ≡ v.capacity = ground arith in
        let exact : mul32 v.count 2 ≡ v.count * 2 =
          mul32-eq v.count 2 (Fits-lt v (v.count * 2) valid (fits full)) in
        rw (e, exact)
          (Returns_mono (vector_realloc a v (some i) (v.count * 2)) _ _
            (realloc-Shifted v.capacity v.count v.element_size i le a v.buf valid full (fits full))
            (λ r h. OrUnchanged-mono v _ _ _ _ r h (λ why. (full, why)) (λ w s. s)))
  ]

  -- `vector_insert_emplace` of a valid vector at an index up to its count does not fault: it makes
  -- room for one element at the index, or returns null with the vector as it was.
  pub vector_insert_emplace-Opens :
      (v : Vector) (i : ℕ)
      → IsValid v
      → CanDouble v
      → i ≤ v.count
      → Returns (vector_insert_emplace a v i) (OpensOrNot v (FullAndRefused a v) i)
  unfolding vector_insert_emplace
  vector_insert_emplace-Opens v i valid fits le = rw (le→leb i v.count le) (
      Returns->>= _ (finish_insert_emplace i) _ _ (shift-Shifted v i valid fits le)
        (finish_insert_emplace-Opens v _ i))

  -- `vector_insert` of a valid vector, at an index up to its count and of an element of its size,
  -- where the sizes of a full vector can be doubled without wrapping, does not fault: the elements
  -- are those of before with the new one at the index, or the vector is full, the allocator refused
  -- a request, and nothing has changed.
  pub vector_insert-Inserted :
      (v : Vector) (i : ℕ) (x : List ℕ)
      → IsValid v
      → CanDouble v
      → i ≤ v.count
      → length x ≡ v.element_size
      → Returns (vector_insert a v i x) (OrUnchanged v (FullAndRefused a v) (Inserted v i x))
  unfolding vector_insert
  vector_insert-Inserted v i x valid fits le l =
      Returns->>= (vector_insert_emplace a v i) (finish_insert x) _ _
        (vector_insert_emplace-Opens v i valid fits le)
        (λ r h. finish_insert-Stored v _ i x r le l h)
