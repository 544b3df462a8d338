-- ===== src/BTree/Proof/Find.antt =====
-- Look-up by key in the finite map that the tree stands for (`btree_find`, `btree_key_exists` and
-- `btree_find_and_compare` of cstructures/src/btree.c).
use cstructures.Prelude.{
  ℕ, ◌+◌, ◌*◌, ◌<◌, ◌≡◌, ◌↔◌, refl, ap, Option, none, some, List, done, Returns, Returns->>=, arith,
  lt→ltb, Bool, true, false,
}
use cstructures.Prelude.Word.{word, entry-le}
use cstructures.Buffer.{Block, read-eq, same_bytes_iff}
use cstructures.BTree.Struct.{BTree, read_value, value_offset}
use cstructures.BTree.Search.{
  found_value, search_key, btree_find, btree_key_exists, compare_value, btree_find_and_compare,
}
use cstructures.BTree.Valid.{Owns, IsValid, value_at, entry, entries, lookup, value_offset-eq}
use cstructures.BTree.Proof.Read.{Searched, search_key-Searched}
use cstructures.BTree.Proof.Lookup.{lookup-tabulate-none, lookup-tabulate_at}

-- A search that finds the key tells its value, and one that does not tells that there is none.
pub Searched-found :
    (t : BTree) (key i : ℕ)
    → Searched t key (i, true)
    → lookup key (entries t) ≡ some (value_at t i)
Searched-found t key i s =
    lookup-tabulate_at t.count (entry t) key i (s.found refl).0 (s.found refl).1
      (λ j p e. omega (arith, s.bound.below j p))

pub Searched-missing :
    (t : BTree) (key i : ℕ) → Searched t key (i, false) → lookup key (entries t) ≡ none
Searched-missing t key i s = lookup-tabulate-none t.count (entry t) key (s.missing refl)

-- The bytes that a pointer to value `i` points at.
pub read_value-eq :
    (t : BTree) (i : ℕ)
    → IsValid t
    → i < t.capacity
    → read_value t (value_offset t i) ≡ done (value_at t i)
unfolding read_value
read_value-eq t i valid lt = go t.buf t.capacity t.value_size valid.owns valid.bounded lt
  where
    go :
        (o : Option Block) (c n : ℕ)
        → let u : BTree = record { buf = o; count = t.count; capacity = c; value_size = n } in
          Owns o c n → c * n < word → i < c → read_value u (value_offset u i) ≡ done (value_at u i)
    go none c n own h p = absurd (omega arith)
    go (some b) c n own h p =
        let u : BTree = record { buf = some b; count = t.count; capacity = c; value_size = n } in
        rw (
          value_offset-eq u i h (omega arith),
          read-eq b (c * 4 + i * n) n (omega (arith, own, entry-le i c n p)),
        )

-- A pointer to a value, or null, for what a look-up in the map finds.
abbrev pub Points : BTree → Option (List ℕ) → Option ℕ → Type 0
Points t x none = x ≡ none
Points t x (some off) = (y : List ℕ) × (x ≡ some y) × (read_value t off ≡ done y)

pub Searched-Points :
    (t : BTree) (key : ℕ) (r : ℕ × Bool)
    → IsValid t
    → Searched t key r
    → Points t (lookup key (entries t)) (found_value t r)
Searched-Points t key (i, true) valid s = (
  value_at t i,
  Searched-found t key i s,
  read_value-eq t i valid (omega (arith, s.found refl, valid.room)),
)
Searched-Points t key (i, false) valid s = Searched-missing t key i s

-- `btree_find` of a valid tree with values does not fault. It returns a pointer to the bytes that
-- the map has under the key, or null if the map has none.
pub btree_find-Points :
    (t : BTree) (key : ℕ)
    → IsValid t
    → 0 < t.value_size
    → Returns (btree_find t key) (Points t (lookup key (entries t)))
unfolding btree_find
btree_find-Points t key valid pos = rw (lt→ltb 0 t.value_size pos) (
    Returns->>= (search_key t key) _ (Searched t key) (Points t (lookup key (entries t)))
      (search_key-Searched t key valid) (λ r s. Searched-Points t key r valid s))

-- `btree_key_exists` of a valid tree does not fault, and returns false if and only if the map has
-- nothing under the key.
pub btree_key_exists-lookup :
    (t : BTree) (key : ℕ)
    → IsValid t
    → Returns (btree_key_exists t key) (λ f. (f ≡ false) ↔ (lookup key (entries t) ≡ none))
unfolding btree_key_exists
btree_key_exists-lookup t key valid =
    Returns->>= (search_key t key) _ (Searched t key) _ (search_key-Searched t key valid) answer
  where
    answer : (r : ℕ × Bool) → Searched t key r → (r.1 ≡ false) ↔ (lookup key (entries t) ≡ none)
    answer (i, true) s = (λ e. cc, λ e. cc (Searched-found t key i s))
    answer (i, false) s = (λ _. Searched-missing t key i s, λ _. refl)

compare_value-lookup :
    (t : BTree) (value : List ℕ) (x : Option (List ℕ)) (p : Option ℕ)
    → Points t x p
    → Returns (compare_value t value p) (λ f. (f ≡ true) ↔ (x ≡ some value))
unfolding compare_value
compare_value-lookup t value x none h = (λ e. cc, λ e. cc)
compare_value-lookup t value x (some off) (y, e, e') =
    rw (e', e) (λ f. ap some ((same_bytes_iff y value).0 f), λ f. (same_bytes_iff y value).1 cc)

-- `btree_find_and_compare` of a valid tree with values does not fault, and returns true if and only
-- if the map has the given value under the key.
pub btree_find_and_compare-lookup :
    (t : BTree) (key : ℕ) (value : List ℕ)
    → IsValid t
    → 0 < t.value_size
    → Returns
        (btree_find_and_compare t key value)
        (λ f. (f ≡ true) ↔ (lookup key (entries t) ≡ some value))
unfolding btree_find_and_compare
btree_find_and_compare-lookup t key value valid pos =
    Returns->>= (btree_find t key) (compare_value t value) _ _ (btree_find-Points t key valid pos)
      (λ p h. compare_value-lookup t value (lookup key (entries t)) p h)
