-- ===== src/BTree/Proof/Match.antt =====
-- The search for a value, and removal by value (`btree_find_index_of_matching_value`,
-- `btree_find_key`, `btree_erase_value` and `btree_erase_internal_value` of
-- cstructures/src/btree.c).
use native.Mathlib.Decide.{dec_lt}
use native.Mathlib.Nat.{mul-div_cancel}
use cstructures.Prelude.{
  ℕ, zero, suc, ◌+◌, ◌-◌, ◌*◌, ◌/◌, ◌%◌, ◌<◌, ◌≡◌, ◌≢◌, refl, ◌∙◌, ap, inl, inr, Option, none, some,
  List, Returns, Returns_mono, Returns->>=, ◌⊎◌, ◌>>=◌, arith, lt→ltb, le→leb, false, Bool-cases,
}
use cstructures.Prelude.Word.{word, mul32, entry-le}
use cstructures.Buffer.{same_bytes, same_bytes_iff}
use cstructures.BTree.Struct.{BTree, value_offset, value_offset_cap}
use cstructures.BTree.Query.{matching_from, btree_find_index_of_matching_value, btree_find_key}
use cstructures.BTree.Erase.{
  invalid_key, btree_erase_index, erase_matching, btree_erase_value, btree_erase_internal_value,
}
use cstructures.BTree.Valid.{IsValid, key_at, value_at, value_offset-eq}
use cstructures.BTree.Proof.Find.{read_value-eq}
use cstructures.BTree.Proof.Erase.{btree_erase_index-Removed}
use cstructures.BTree.Proof.Close.{Removed}

-- No entry of index `i` or above, and below the count, matters: the first one that has the value, or
-- none if no entry has it.
abbrev pub Matches : BTree → List ℕ → Option ℕ → Type 0
Matches t value none = (j : ℕ) → j < t.count → value_at t j ≢ value
Matches t value (some i) =
    (i < t.count) × (value_at t i ≡ value) × ((j : ℕ) → j < i → value_at t j ≢ value)

matching_from-Matches :
    (t : BTree) (value : List ℕ) (rounds i : ℕ)
    → IsValid t
    → rounds + i ≡ t.count
    → ((j : ℕ) → j < i → value_at t j ≢ value)
    → Returns (matching_from t value rounds i) (Matches t value)
unfolding matching_from
matching_from-Matches t value zero i valid e h = λ j p. h j (omega arith)
matching_from-Matches t value (suc rounds) i valid e h =
    rw (read_value-eq t i valid (omega (arith, valid.room)), matching_from)
      (elim (Bool-cases (same_bytes (value_at t i) value)) [
        | inl y ↦ rw (y, ◌>>=◌) (omega arith, (same_bytes_iff _ _).0 y, h)
        | inr n ↦
            rw (n, ◌>>=◌)
              (matching_from-Matches t value rounds (i + 1) valid (omega arith) (further n))
      ])
  where
    further : same_bytes (value_at t i) value ≡ false → (j : ℕ) → j < i + 1 → value_at t j ≢ value
    further n j p = elim (dec_lt j i) [
      | yes q ↦ h j q
      | no q ↦ λ y.
          let at : i ≡ j = omega arith in
          let found = (same_bytes_iff (value_at t i) value).1 (ap (value_at t) at ∙ y) in cc
    ]

-- `btree_find_key` of a valid tree with values does not fault, and returns a pointer to the least
-- key whose value is the one given, or null if no key has it. (btree.h says that it is
-- BTREE_INVALID_KEY then; the code returns null.)
pub btree_find_key-Matches :
    (t : BTree) (value : List ℕ)
    → IsValid t
    → 0 < t.value_size
    → Returns (btree_find_key t value) (Matches t value)
unfolding btree_find_key
btree_find_key-Matches t value valid pos =
    rw (lt→ltb 0 t.value_size pos)
      (matching_from-Matches t value t.count 0 valid (omega arith) (λ j p. absurd (omega arith)))

-- The outcome of a removal by value: the key of the first entry that has it, and a tree without that
-- entry; or the invalid key and no change, as no entry has it.
abbrev pub MatchRemoved : BTree → List ℕ → ℕ × BTree → Type 0
MatchRemoved t value (key, u) =
    ((i : ℕ) × Matches t value (some i) × (key ≡ key_at t i) × Removed t i u)
    ⊎ ((key ≡ invalid_key) × (u ≡ t) × Matches t value none)

erase_matching-MatchRemoved :
    (t : BTree) (value : List ℕ) (p : Option ℕ)
    → IsValid t
    → t.count < t.capacity
    → Matches t value p
    → Returns (erase_matching t p) (MatchRemoved t value)
unfolding erase_matching
erase_matching-MatchRemoved t value none valid free m = inr (refl, refl, m)
erase_matching-MatchRemoved t value (some i) valid free m =
    Returns_mono (btree_erase_index t i) (λ r. (r.0 ≡ key_at t i) × Removed t i r.1)
      (MatchRemoved t value) (btree_erase_index-Removed t i valid m.0 free)
      (λ r h. inl (i, m, h.0, h.1))

-- `btree_erase_value` of a valid tree with values that is not full does not fault. It takes out the
-- first entry that has the value and returns its key, or returns the invalid key and changes nothing
-- if no entry has it.
pub btree_erase_value-MatchRemoved :
    (t : BTree) (value : List ℕ)
    → IsValid t
    → 0 < t.value_size
    → t.count < t.capacity
    → Returns (btree_erase_value t value) (MatchRemoved t value)
unfolding btree_erase_value
btree_erase_value-MatchRemoved t value valid pos free = rw (lt→ltb 0 t.value_size pos) (
    Returns->>= (btree_find_index_of_matching_value t value) (erase_matching t) (Matches t value)
      (MatchRemoved t value)
      (matching_from-Matches t value t.count 0 valid (omega arith) (λ j p. absurd (omega arith)))
      (λ p m. erase_matching-MatchRemoved t value p valid free m))

-- `btree_erase_internal_value` of a valid tree with values, at a pointer to value `i`, is
-- `btree_erase_index` at `i`.
pub btree_erase_internal_value-eq :
    (t : BTree) (i : ℕ)
    → IsValid t
    → 0 < t.value_size
    → i < t.count
    → btree_erase_internal_value t (value_offset t i) ≡ btree_erase_index t i
unfolding btree_erase_internal_value
btree_erase_internal_value-eq t i valid pos lt =
    let vs = t.value_size in
    let zeroth : mul32 vs 0 ≡ 0 = omega arith in
    let at = value_offset-eq t i valid.bounded (omega (arith, valid.room)) in
    let end = value_offset-eq t t.count valid.bounded valid.room in
    let distance : value_offset t i - value_offset_cap t 0 t.capacity ≡ i * vs =
      omega (arith, at, zeroth) in
    let index : (value_offset t i - value_offset_cap t 0 t.capacity) / vs % word ≡ i =
      ap (λ d. d / vs % word) distance
      ∙ (ap (λ d. d % word) (mul-div_cancel i pos) ∙ omega (arith, valid.room, valid.small)) in
    rw
      (
        lt→ltb 0 vs pos,
        le→leb (value_offset_cap t 0 t.capacity) (value_offset t i) (omega (arith, at, zeroth)),
        lt→ltb (value_offset t i) (value_offset t t.count)
            (omega (arith, at, end, entry-le i t.count vs lt, pos)),
      )
      (ap (btree_erase_index t) index)
