-- ===== src/Tests/Vector.antt =====
-- Runs of the vector's operations on concrete vectors, and instances of its properties.
use cstructures.Prelude.{
  ℕ, ◌<◌, ◌≡◌, refl, inl, none, some, List, [], ◌∷◌, Exec, done, fault, Returns, arith,
}
use cstructures.Vector.Struct.{Vector, out_of_memory, size_differs}
use cstructures.Vector.Storage.{vector_realloc, vector_compact}
use cstructures.Vector.Insert.{
  vector_emplace, vector_push, vector_push_vector, vector_insert_emplace, vector_insert,
}
use cstructures.Vector.Erase.{vector_erase_index}
use cstructures.Vector.Access.{vector_find_element}
use cstructures.Vector.Reverse.{vector_reverse}
use cstructures.Vector.Valid.{IsValid, elements, Refuses, OrUnchanged}
use cstructures.Vector.Proof.Grow.{Regrown, Fits, vector_realloc-Grown}
use cstructures.Vector.Proof.Open.{CanDouble, FullAndRefused, Inserted, vector_push-Pushed}
use cstructures.Vector.Proof.Insert.{vector_insert-Inserted}
use cstructures.Vector.Proof.Erase.{Removed, vector_erase_index-Removed}
use cstructures.Vector.Proof.Capacity.{Compacted, vector_compact-Compacted}
use cstructures.Vector.Proof.Append.{
  Appended, vector_push_vector-differs, vector_push_vector-Appended,
}
use cstructures.Vector.Proof.Find.{FirstAt, vector_find_element-FirstAt}
use cstructures.Vector.Proof.Reverse.{FaultsInRound, vector_reverse-reverse, vector_reverse-empty}
use cstructures.Vector.Iterate.{vector_for_each, vector_for_each_r}
use cstructures.Vector.Proof.Iterate.{visit_all, vector_for_each-visit_all}
use cstructures.Vector.Proof.Shape.{Shaped, vector_push-Bounded}
use cstructures.Tests.Memory.{object, generous, refusing}

-- Two elements of two bytes, and no room for a third.
abbrev pair : Vector
pair = record {
  buf = some (object 6 (1 ∷ 2 ∷ 3 ∷ 4 ∷ []));
  capacity = 2;
  count = 2;
  element_size = 2;
}

abbrev empty : Vector
empty = record { buf = none; capacity = 0; count = 0; element_size = 2 }

-- One element of three bytes.
abbrev wide : Vector
wide = record { buf = some (object 6 (7 ∷ 8 ∷ 9 ∷ [])); capacity = 1; count = 1; element_size = 3 }

pair-IsValid : IsValid pair
pair-IsValid = record {
  sized = omega arith;
  room = omega arith;
  bounded = omega arith;
  owns = (omega arith, refl);
}

empty-IsValid : IsValid empty
empty-IsValid = record {
  sized = omega arith;
  room = omega arith;
  bounded = omega arith;
  owns = refl;
}

wide-IsValid : IsValid wide
wide-IsValid = record {
  sized = omega arith;
  room = omega arith;
  bounded = omega arith;
  owns = (omega arith, refl);
}

pair-Fits : (n : ℕ) → n < 9 → Fits pair n
pair-Fits n p = ground arith

pair-CanDouble : CanDouble pair
pair-CanDouble e = pair-Fits 4 (omega arith)

vector_push-Pushed_example : Returns (vector_push generous pair (5 ∷ 6 ∷ [])) (
    OrUnchanged pair
      (FullAndRefused generous pair)
      (λ w. IsValid w × (elements w ≡ (1 ∷ 2 ∷ []) ∷ (3 ∷ 4 ∷ []) ∷ (5 ∷ 6 ∷ []) ∷ [])))
vector_push-Pushed_example =
    vector_push-Pushed generous pair (5 ∷ 6 ∷ []) pair-IsValid pair-CanDouble refl

vector_insert-Inserted_example :
    Returns
      (vector_insert generous pair 1 (5 ∷ 6 ∷ []))
      (OrUnchanged pair (FullAndRefused generous pair) (Inserted pair 1 (5 ∷ 6 ∷ [])))
vector_insert-Inserted_example =
    vector_insert-Inserted generous pair 1 (5 ∷ 6 ∷ []) pair-IsValid pair-CanDouble (omega arith)
      refl

vector_erase_index-Removed_example : Returns (vector_erase_index pair 0) (Removed pair 0)
vector_erase_index-Removed_example = vector_erase_index-Removed pair 0 pair-IsValid (omega arith)

vector_realloc-Grown_example :
    Returns
      (vector_realloc generous pair none 4)
      (OrUnchanged pair (Refuses generous) (Regrown pair 4))
vector_realloc-Grown_example =
    vector_realloc-Grown generous pair 4 pair-IsValid (omega arith) (inl (omega arith))
      (pair-Fits 4 (omega arith))

vector_push_vector-Appended_example :
    Returns
      (vector_push_vector generous pair pair)
      (OrUnchanged pair ((2 < 4) × Refuses generous) (Appended pair pair))
vector_push_vector-Appended_example =
    vector_push_vector-Appended generous pair pair pair-IsValid pair-IsValid refl (omega arith)
      (omega arith) (pair-Fits 4 (omega arith))

vector_push_vector-differs_example :
    vector_push_vector generous pair wide ≡ done (size_differs, pair)
vector_push_vector-differs_example = vector_push_vector-differs generous pair wide (omega arith)

vector_reverse-reverse_example :
    Returns (vector_reverse pair) (λ w. IsValid w × (elements w ≡ (3 ∷ 4 ∷ []) ∷ (1 ∷ 2 ∷ []) ∷ []))
vector_reverse-reverse_example = vector_reverse-reverse pair pair-IsValid (omega arith)

vector_reverse-empty_example : FaultsInRound empty × (vector_reverse empty ≡ fault)
vector_reverse-empty_example = vector_reverse-empty empty empty-IsValid refl

vector_compact-Compacted_example : Returns (vector_compact generous pair) (Compacted generous pair)
vector_compact-Compacted_example = vector_compact-Compacted generous pair pair-IsValid

vector_find_element-FirstAt_example :
    Returns (vector_find_element pair (3 ∷ 4 ∷ [])) (FirstAt pair (3 ∷ 4 ∷ []))
vector_find_element-FirstAt_example = vector_find_element-FirstAt pair (3 ∷ 4 ∷ []) pair-IsValid

-- The least capacity, for a vector that has no object yet.
push_first :
    Returns
      (vector_push generous empty (8 ∷ 9 ∷ []))
      (λ r. (r.1.capacity ≡ 32) × (elements r.1 ≡ (8 ∷ 9 ∷ []) ∷ []))
unfolding vector_push vector_emplace vector_realloc
push_first = (refl, refl)

push_refused : vector_push refusing pair (8 ∷ 9 ∷ []) ≡ done (out_of_memory, pair)
unfolding vector_push vector_emplace vector_realloc
push_refused = refl

insert_moves_up :
    Returns
      (vector_insert generous pair 1 (8 ∷ 9 ∷ []))
      (λ r. elements r.1 ≡ (1 ∷ 2 ∷ []) ∷ (8 ∷ 9 ∷ []) ∷ (3 ∷ 4 ∷ []) ∷ [])
unfolding vector_insert vector_insert_emplace vector_realloc
insert_moves_up = refl

reverse_swaps : Returns (vector_reverse pair) (λ w. elements w ≡ (3 ∷ 4 ∷ []) ∷ (1 ∷ 2 ∷ []) ∷ [])
unfolding vector_reverse
reverse_swaps = refl

-- The body keeps the offsets.
abbrev note : List ℕ → ℕ → Exec (List ℕ)
note s p = done (p ∷ s)

vector_for_each-visit_all_example :
    (vector_for_each pair note [] ≡ visit_all note (0 ∷ 2 ∷ []) [])
    × (vector_for_each_r pair note [] ≡ visit_all note (2 ∷ 0 ∷ []) [])
vector_for_each-visit_all_example = vector_for_each-visit_all pair note [] pair-IsValid

for_each_r_runs : vector_for_each_r pair note [] ≡ done (0 ∷ 2 ∷ [])
unfolding vector_for_each_r
for_each_r_runs = refl

vector_push-Bounded_example :
    Returns (vector_push generous pair (5 ∷ 6 ∷ [])) (λ r. Shaped 2 40 r.1)
vector_push-Bounded_example =
    vector_push-Bounded generous pair (5 ∷ 6 ∷ []) 40 pair-IsValid pair-CanDouble refl (omega arith)
      (omega arith) (omega arith)
