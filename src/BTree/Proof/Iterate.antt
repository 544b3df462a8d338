-- ===== src/BTree/Proof/Iterate.antt =====
-- The loops of the header visit the entries, and may remove them (cstructures/include/cstructures/btree.h).
use mathlib.Core.Path.{fun_ext}
use cstructures.Prelude.{
  ℕ, zero, suc, ◌+◌, ◌*◌, ◌<◌, ◌≡◌, refl, ◌∙◌, ap, Exec, done, fault, ◌>>=◌, arith, ltb, eq→==,
  ne→==, if◌then◌else◌,
}
use cstructures.Prelude.Word.{add32, add32-eq}
use cstructures.BTree.Struct.{BTree}
use cstructures.BTree.Iterate.{for_each_from, btree_for_each, btree_keys_for_each}
use cstructures.BTree.Valid.{IsValid, key_at, value_offset-eq}
use cstructures.BTree.Proof.Read.{read_key-eq}

-- The body, run on the entries `i`, …, `i + n - 1`.
abbrev pub visit_all {ℓ} : {S : Type ℓ} → BTree → (S → ℕ → ℕ → Exec S) → ℕ → ℕ → S → Exec S
visit_all t body i zero s = done s
visit_all t body i (suc n) s =
    body s (key_at t i) (t.capacity * 4 + i * t.value_size) >>= visit_all t body (suc i) n

module _ {ℓ} {S : Type ℓ} (t : BTree) (body : S → ℕ → ℕ → Exec S) (valid : IsValid t) where
  for_each_from_done :
      (fuel i : ℕ) (s : S) → i ≡ t.count → for_each_from t body (suc fuel) i s ≡ done s
  unfolding for_each_from
  for_each_from_done fuel i s e = rw (for_each_from, eq→== i t.count e) refl

  for_each_from_more :
      (fuel i : ℕ) (s : S)
      → i < t.count
      → for_each_from t body (suc fuel) i s ≡ (
          body s (key_at t i) (t.capacity * 4 + i * t.value_size) >>= λ s'.
          for_each_from t body fuel (suc i) s')
  unfolding for_each_from
  for_each_from_more fuel i s lt =
      let within : i < t.capacity = omega (arith, valid.room) in
      let next : add32 i 1 ≡ suc i = add32-eq i 1 (omega (arith, valid.small)) ∙ omega arith in
      rw
        (
          for_each_from,
          ne→== i t.count (omega arith),
          read_key-eq t i valid within,
          ◌>>=◌,
          value_offset-eq t i valid.bounded (omega arith),
          next,
        )
        refl

  for_each_from-visit_all :
      (n i : ℕ) (s : S)
      → i + n ≡ t.count
      → for_each_from t body (suc n) i s ≡ visit_all t body i n s
  for_each_from-visit_all zero i s e = for_each_from_done 0 i s (omega arith)
  for_each_from-visit_all (suc n) i s e =
      for_each_from_more (suc n) i s (omega arith)
      ∙ ap (λ f. body s (key_at t i) (t.capacity * 4 + i * t.value_size) >>= f)
          (fun_ext λ s'. for_each_from-visit_all n (suc i) s' (omega arith))

-- The loops over a valid tree, with any body that leaves the tree alone, do what the body does when it
-- is run once on the key of each entry, in ascending order, and on a pointer to its value. The loop
-- over keys and values faults where the values are empty.
pub btree_for_each-visit_all {ℓ} :
    {S : Type ℓ} (t : BTree) (body : S → ℕ → ℕ → Exec S) (keys_body : S → ℕ → Exec S) (s : S)
    → IsValid t
    → (btree_for_each t body s
        ≡ (if ltb 0 t.value_size then visit_all t body 0 t.count s else fault))
      × (btree_keys_for_each t keys_body s ≡ visit_all t (λ s' k value. keys_body s' k) 0 t.count s)
unfolding btree_for_each btree_keys_for_each
btree_for_each-visit_all t body keys_body s valid = (
  ap (λ r. if ltb 0 t.value_size then r else fault)
      (for_each_from-visit_all t body valid t.count 0 s (omega arith)),
  for_each_from-visit_all t (λ s' k value. keys_body s' k) valid t.count 0 s (omega arith),
)
