-- ===== src/HashMap/Proof/Entry.antt =====
-- The write of one entry: the bytes that a slot's write leaves alone, and the keys that lead to what
-- they led to (cstructures/src/hashmap.c).
use native.Mathlib.Decide.{ℕ_discrete}
use cstructures.Prelude.{
  ℕ, ◌+◌, ◌*◌, ◌<◌, ◌≡◌, ◌≢◌, ◌↔◌, inl, inr, refl, sym, ◌∙◌, ap, subst, List, arith,
}
use cstructures.Prelude.Word.{word, entry-le, entry_apart}
use cstructures.Buffer.{
  pasted, bytes-pasted, bytes-pasted_beside, encode32, decode32, decode32-encode32,
}
use cstructures.HashMap.Struct.{HashMap}
use cstructures.HashMap.Valid.{slot_of, key_of, value_of, slot_at, key_at, value_at, InUse, Has}

-- The table after the write of slot `p`.
module _ (cell : ℕ → ℕ) (ks p s : ℕ) where
  abbrev pub slot_put : ℕ → ℕ
  slot_put = pasted cell (p * (4 + ks)) (encode32 s) 4

  pub slot_put-here : s < word → slot_of slot_put ks p ≡ s
  slot_put-here small =
      ap decode32 (bytes-pasted cell (p * (4 + ks)) 4 (encode32 s) refl) ∙ decode32-encode32 s small

  pub slot_put-slot : (q : ℕ) → q ≢ p → slot_of slot_put ks q ≡ slot_of cell ks q
  slot_put-slot q ne = ap decode32 (
      bytes-pasted_beside cell (p * (4 + ks)) 4 (q * (4 + ks)) 4 (encode32 s)
        (elim (entry_apart q p (4 + ks) ne) [
          | inl h ↦ inl (omega (arith, h))
          | inr h ↦ inr (omega (arith, h))
        ]))

  pub slot_put-key : (q : ℕ) → key_of slot_put ks q ≡ key_of cell ks q
  slot_put-key q =
      bytes-pasted_beside cell (p * (4 + ks)) 4 (q * (4 + ks) + 4) ks (encode32 s)
        (elim (ℕ_discrete q p) [
          | yes e ↦ inr (rw e (omega arith))
          | no ne ↦ elim (entry_apart q p (4 + ks) ne) [
            | inl h ↦ inl (omega (arith, h))
            | inr h ↦ inr (omega (arith, h))
          ]
        ])

  pub slot_put-value : (t vs q : ℕ) → p < t → value_of slot_put t ks vs q ≡ value_of cell t ks vs q
  slot_put-value t vs q lt =
      bytes-pasted_beside cell (p * (4 + ks)) 4 (t * (4 + ks) + q * vs) vs (encode32 s)
        (inr (omega (arith, entry-le p t (4 + ks) lt)))

pub InUse-along : (s s' : ℕ) → s ≡ s' → InUse s → InUse s'
InUse-along s s' e (u, r) = ((λ z. u (e ∙ z)), λ z. r (e ∙ z))

-- The sizes and the hash function stay.
abbrev pub SameShape : HashMap → HashMap → Type 0
SameShape hm u =
    (u.table_count ≡ hm.table_count)
    × (u.key_size ≡ hm.key_size)
    × (u.value_size ≡ hm.value_size)
    × (u.hash ≡ hm.hash)

-- What the other keys lead to stays.
abbrev pub KeepsOthers : HashMap → List ℕ → HashMap → Type 0
KeepsOthers hm key u =
    (k : List ℕ)
    → k ≢ key
    → (q : ℕ) → (Has hm k q ↔ Has u k q) × (Has hm k q → value_at u q ≡ value_at hm q)

module _ (hm u : HashMap) (key : List ℕ) (p : ℕ) (table : u.table_count ≡ hm.table_count)
    (slots : (q : ℕ) → q < hm.table_count → q ≢ p → slot_at u q ≡ slot_at hm q)
    (keys : (q : ℕ) → q < hm.table_count → q ≢ p → key_at u q ≡ key_at hm q)
    (values : (q : ℕ) → q ≢ p → value_at u q ≡ value_at hm q)
    (before : (k : List ℕ) → Has hm k p → k ≡ key)
    (after : (k : List ℕ) → Has u k p → k ≡ key) where
  -- Entry `p` is of no other key.
  pub entry-KeepsOthers : KeepsOthers hm key u
  entry-KeepsOthers k ne q = elim (ℕ_discrete q p) [
    | yes e ↦
        let none_before : ¬ Has hm k q = λ h. ne (before k (subst (Has hm k) e h)) in
        let none_after : ¬ Has u k q = λ h. ne (after k (subst (Has u k) e h)) in
        (((λ h. absurd (none_before h)), λ h. absurd (none_after h)), λ h. absurd (none_before h))
    | no d ↦ (
      (
        (λ (lt, used, e).
            (omega (arith, lt, table), InUse-along _ _ (sym (slots q lt d)) used, keys q lt d ∙ e)),
        λ (lt, used, e).
            let lt' : q < hm.table_count = omega (arith, lt, table) in
            (lt', InUse-along _ _ (slots q lt' d) used, sym (keys q lt' d) ∙ e),
      ),
      λ h. values q d,
    )
  ]
