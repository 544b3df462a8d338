-- ===== src/Vector/Valid.antt =====
-- What `struct cs_vector` has to satisfy between calls, and the sequence of elements that it stands
-- for (cstructures/src/vector.c).
use cstructures.Prelude.{
  ℕ, ◌+◌, ◌*◌, ◌≤◌, ◌<◌, ◌≡◌, ◌⊎◌, Option, none, some, List, [], arith, tabulate,
}
use cstructures.Prelude.Word.{word, entry-le, le-mul}
use cstructures.Buffer.{Block, bytes, Allocator}
use cstructures.Vector.Struct.{Vector, Status, success, out_of_memory, size_differs}

-- The object has room for the capacity and one scratch element; a null pointer has no capacity.
abbrev pub Owns : Option Block → ℕ → ℕ → Type 0
Owns none capacity n = capacity ≡ 0
Owns (some b) capacity n = (0 < capacity) × (b.size ≡ (capacity + 1) * n)

pub record IsValid (v : Vector) : Type 0 where
  pub sized : 0 < v.element_size
  pub room : v.count ≤ v.capacity
  pub bounded : (v.capacity + 1) * v.element_size < word
  pub owns : Owns v.buf v.capacity v.element_size

-- Place `i`, the scratch element included, lies inside the object, whose size does not wrap.
pub place_in :
    {v : Vector} (i : ℕ)
    → IsValid v
    → i ≤ v.capacity
    → (i * v.element_size + v.element_size ≤ (v.capacity + 1) * v.element_size)
      × (i * v.element_size < word)
      × (i < word)
place_in {v} i valid le =
    let p = entry-le i (v.capacity + 1) v.element_size (omega arith) in
    (
      p,
      omega (arith, valid.bounded),
      omega (arith, valid.bounded, le-mul i v.element_size valid.sized),
    )

-- The bytes of element `k`.
abbrev pub entry : Vector → ℕ → List ℕ
entry v k = elim v.buf [ none ↦ [] | some b ↦ bytes b.cell (k * v.element_size) v.element_size ]

abbrev pub elements : Vector → List (List ℕ)
elements v = tabulate v.count (entry v)

-- A request that the allocator turned down.
abbrev pub Refuses : Allocator → Type 0
Refuses a = ((n : ℕ) × (a.malloc n ≡ none)) ⊎ ((b : Block) × (n : ℕ) × (a.realloc b n ≡ none))

-- Success in a vector that satisfies `P`; or out of memory for the reason `Why`, with nothing
-- changed.
abbrev pub OrUnchanged : Vector → Type 0 → (Vector → Type 0) → Status × Vector → Type 0
OrUnchanged v Why P (success, w) = P w
OrUnchanged v Why P (out_of_memory, w) = (w ≡ v) × Why
OrUnchanged v Why P (size_differs, w) = ⊥

pub OrUnchanged-mono :
    (v : Vector) (Why Why' : Type 0) (P Q : Vector → Type 0) (r : Status × Vector)
    → OrUnchanged v Why P r
    → (Why → Why')
    → ((w : Vector) → P w → Q w)
    → OrUnchanged v Why' Q r
OrUnchanged-mono v Why Why' P Q (success, w) h f g = g w h
OrUnchanged-mono v Why Why' P Q (out_of_memory, w) h f g = (h.0, f h.1)
OrUnchanged-mono v Why Why' P Q (size_differs, w) h f g = h
