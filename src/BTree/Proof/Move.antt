-- ===== src/BTree/Proof/Move.antt =====
-- The move of the values from behind one capacity to behind another (`btree_realloc` of
-- cstructures/src/btree.c).
use cstructures.Buffer.{decode32, Block, bytes, moved, memmove-eq, bytes-moved, bytes-moved_beside}
use cstructures.Prelude.{ℕ, ◌+◌, ◌*◌, ◌≤◌, ◌<◌, ◌≡◌, ◌∙◌, ap, inl, done, arith, tabulate_ext}
use cstructures.Prelude.Word.{word, mul32, mul32-eq, entry-le}
use cstructures.BTree.Struct.{BTree}
use cstructures.BTree.Storage.{request, move_values}
use cstructures.BTree.Valid.{IsValid, key_of, value_of, key_at, value_at, entry, entries}

-- `u` holds the entries of `t`, at capacity `n`.
pub record Kept (t : BTree) (n : ℕ) (u : BTree) : Type 0 where
  pub valid : IsValid u
  pub count : u.count ≡ t.count
  pub value_size : u.value_size ≡ t.value_size
  pub capacity : u.capacity ≡ n
  pub keys : (i : ℕ) → i < t.count → key_at u i ≡ key_at t i
  pub values : (i : ℕ) → i < t.count → value_at u i ≡ value_at t i

pub entries-Kept : {t u : BTree} {n : ℕ} → Kept t n u → entries u ≡ entries t
entries-Kept {t} {u} {n} k =
    rw k.count
      (tabulate_ext t.count (entry u) (entry t) (λ i p. λ j. (k.keys i p j, k.values i p j)))

-- The hypothesis under which no size of a reallocation to `n` entries wraps.
abbrev pub Fits : BTree → ℕ → Type 0
Fits t n = (n < word) × (n * t.value_size < word)

pub request-eq : (t : BTree) (n : ℕ) → Fits t n → request t n ≡ n * (4 + t.value_size)
request-eq t n (p, q) = omega arith

-- A tree whose first entries are those of another is valid for the entries that they share.
pub Kept-sorted :
    (t u : BTree)
    → u.count ≡ t.count
    → ((i : ℕ) → i < t.count → key_at u i ≡ key_at t i)
    → IsValid t
    → (i j : ℕ) → i < j
    → j < u.count
    → key_at u i < key_at u j
Kept-sorted t u e h valid i j p q =
    omega (arith, h i (omega arith), h j (omega arith), valid.sorted i j p (omega arith))

-- The move of the values, from behind `c` keys to behind `n`.
module _ (cell : ℕ → ℕ) (c n vs : ℕ) where
  abbrev pub moved_values : ℕ → ℕ
  moved_values = moved cell (n * 4) (c * 4) (c * vs)

  pub moved_key : (i : ℕ) → i < n → key_of moved_values i ≡ key_of cell i
  moved_key i p =
      ap decode32 (bytes-moved_beside cell (n * 4) (c * vs) (i * 4) 4 (c * 4) (inl (omega arith)))

  pub moved_value : (i : ℕ) → i < c → value_of moved_values n vs i ≡ value_of cell c vs i
  moved_value i p =
      bytes-moved cell (n * 4) (c * vs) (n * 4 + i * vs) vs (c * 4) (omega arith)
        (omega (arith, entry-le i c vs p))
      ∙ ap (λ t. bytes cell t vs) (omega arith)

pub move_values-eq :
    (t : BTree) (b : Block) (n : ℕ)
    → t.capacity * t.value_size < word
    → n * 4 + t.capacity * t.value_size ≤ b.size
    → t.capacity * (4 + t.value_size) ≤ b.size
    → move_values t b n ≡ done (record b { cell = moved_values b.cell t.capacity n t.value_size })
unfolding move_values
move_values-eq t b n h p q =
    let vs = t.value_size in
    let z : mul32 vs 0 ≡ 0 = omega arith in
    let e : n * 4 + 0 ≡ n * 4 = omega arith in
    let e' : t.capacity * 4 + 0 ≡ t.capacity * 4 = omega arith in
    rw (z, mul32-eq t.capacity vs h, e, e')
      (memmove-eq b (n * 4) (t.capacity * 4) (t.capacity * vs) p (omega arith))
