-- ===== src/BTree/Valid.antt =====
-- What `struct cs_btree` has to satisfy between calls, and the sorted sequence of entries that it
-- stands for (cstructures/src/btree.c).
use cstructures.Buffer.{decode32, Block, bytes, Allocator}
use cstructures.Prelude.{
  ℕ, ◌+◌, ◌*◌, ◌≤◌, ◌<◌, ◌≡◌, ◌∙◌, ◌⊎◌, Option, none, some, List, [], ◌∷◌, arith, tabulate,
  if◌then◌else◌, ◌==◌,
}
use cstructures.Prelude.Word.{word, mul32, mul32-eq, mul-le}
use cstructures.BTree.Struct.{BTree, Status, not_found, exists, ok, oom, value_offset}

-- The object has room for the keys and values of the capacity; null has no capacity.
abbrev pub Owns : Option Block → ℕ → ℕ → Type 0
Owns none capacity n = capacity ≡ 0
Owns (some b) capacity n = (0 < capacity) × (capacity * (4 + n) ≤ b.size)

-- Key `i` of an object, and value `i` of `n` bytes behind a capacity `c`.
abbrev pub key_of : (ℕ → ℕ) → ℕ → ℕ
key_of cell i = decode32 (bytes cell (i * 4) 4)

abbrev pub value_of : (ℕ → ℕ) → ℕ → ℕ → ℕ → List ℕ
value_of cell c n i = bytes cell (c * 4 + i * n) n

abbrev pub key_at : BTree → ℕ → ℕ
key_at t i = elim t.buf [ none ↦ 0 | some b ↦ key_of b.cell i ]

abbrev pub value_at : BTree → ℕ → List ℕ
value_at t i = elim t.buf [ none ↦ [] | some b ↦ value_of b.cell t.capacity t.value_size i ]

-- Keys ascend strictly. No offset of a value wraps.
pub record IsValid (t : BTree) : Type 0 where
  pub room : t.count ≤ t.capacity
  pub small : t.capacity < word
  pub bounded : t.capacity * t.value_size < word
  pub owns : Owns t.buf t.capacity t.value_size
  pub sorted : (i j : ℕ) → i < j → j < t.count → key_at t i < key_at t j

abbrev pub entry : BTree → ℕ → ℕ × List ℕ
entry t i = (key_at t i, value_at t i)

abbrev pub entries : BTree → List (ℕ × List ℕ)
entries t = tabulate t.count (entry t)

-- The value under a key in a sequence of entries.
abbrev pub lookup : ℕ → List (ℕ × List ℕ) → Option (List ℕ)
lookup k [] = none
lookup k ((j, x) ∷ es) = if j == k then some x else lookup k es

-- A request that the allocator turned down.
abbrev pub Refuses : Allocator → Type 0
Refuses a = ((n : ℕ) × (a.malloc n ≡ none)) ⊎ ((b : Block) × (n : ℕ) × (a.realloc b n ≡ none))

-- The offset of value `i` within the capacity.
pub value_offset-eq :
    (t : BTree) (i : ℕ)
    → t.capacity * t.value_size < word
    → i ≤ t.capacity
    → value_offset t i ≡ t.capacity * 4 + i * t.value_size
value_offset-eq t i h le =
    let p = mul-le i t.capacity t.value_size le in
    let e : mul32 t.value_size i ≡ i * t.value_size =
      mul32-eq t.value_size i (omega arith) ∙ omega arith in
    omega arith

-- Success in a tree that satisfies `P`; or out of memory for the reason `Why`, with nothing changed.
abbrev pub OrUnchanged : BTree → Type 0 → (BTree → Type 0) → Status × BTree → Type 0
OrUnchanged t Why P (ok, u) = P u
OrUnchanged t Why P (oom, u) = (u ≡ t) × Why
OrUnchanged t Why P (exists, u) = ⊥
OrUnchanged t Why P (not_found, u) = ⊥

pub OrUnchanged-mono :
    (t : BTree) (Why Why' : Type 0) (P Q : BTree → Type 0) (r : Status × BTree)
    → OrUnchanged t Why P r
    → (Why → Why')
    → ((u : BTree) → P u → Q u)
    → OrUnchanged t Why' Q r
OrUnchanged-mono t Why Why' P Q (ok, u) h f g = g u h
OrUnchanged-mono t Why Why' P Q (oom, u) h f g = (h.0, f h.1)
OrUnchanged-mono t Why Why' P Q (exists, u) h f g = h
OrUnchanged-mono t Why Why' P Q (not_found, u) h f g = h
