-- ===== src/HashMap/Proof/Iterate.antt =====
-- The loop HASHMAP_FOR_EACH visits the entries in use (cstructures/include/cstructures/hashmap.h).
use mathlib.Core.Path.{fun_ext}
use cstructures.Prelude.{
  ℕ, zero, suc, ◌+◌, ◌<◌, ◌≡◌, ◌≢◌, inl, inr, refl, ap, subst, Bool, true, false, ◌||◌, List, [],
  ◌∷◌, Exec, done, ◌>>=◌, Returns, Returns->>=, arith, ◌==◌, if◌then◌else◌, Bool-cases,
}
use cstructures.HashMap.Struct.{
  HashMap, slot_unused, slot_rip, slot_invalid, key_offset, value_offset, hash_wrapper,
}
use cstructures.HashMap.Iterate.{for_each_from, hashmap_for_each}
use cstructures.HashMap.Valid.{slot_at, key_at, InUse, IsValid}
use cstructures.HashMap.Proof.Read.{read_slot-eq}

-- The test of the loop.
abbrev is_skipped : ℕ → Bool
is_skipped slot = slot == slot_unused || (slot == slot_rip || slot == slot_invalid)

hash_wrapper-valid : (hm : HashMap) (key : List ℕ) → hash_wrapper hm key ≢ slot_invalid
unfolding hash_wrapper
hash_wrapper-valid hm key = ground arith

visited-InUse : (hm : HashMap) (p : ℕ) → is_skipped (slot_at hm p) ≡ false → InUse (slot_at hm p)
visited-InUse hm p e = (ground arith, ground arith)

skipped-InUse :
    (hm : HashMap) (p : ℕ)
    → IsValid hm
    → p < hm.table_count
    → is_skipped (slot_at hm p) ≡ true
    → ¬ InUse (slot_at hm p)
skipped-InUse hm p valid lt e u =
    let own = valid.sound.hashed p lt u in
    let proper = hash_wrapper-valid hm (key_at hm p) in ground (arith, own, proper)

-- The positions in use among the `left` from `pos` on.
abbrev pub used_from : HashMap → ℕ → ℕ → List ℕ
used_from hm zero pos = []
used_from hm (suc left) pos =
    if is_skipped (slot_at hm pos)
    then used_from hm left (pos + 1)
    else pos ∷ used_from hm left (pos + 1)

-- The body, run on the entries at the positions one after the other.
unfoldable pub visit_all {ℓ} : {S : Type ℓ} → HashMap → (S → ℕ → ℕ → Exec S) → List ℕ → S → Exec S
visit_all hm body [] s = done s
visit_all hm body (pos ∷ rest) s =
    body s (key_offset hm pos) (value_offset hm pos) >>= λ s'. visit_all hm body rest s'

module _ {ℓ} {S : Type ℓ} (hm : HashMap) (valid : IsValid hm) (body : S → ℕ → ℕ → Exec S) where
  for_each_from-visit_all :
      (left pos : ℕ) (s : S)
      → pos + left ≡ hm.table_count
      → for_each_from hm body left pos s ≡ visit_all hm body (used_from hm left pos) s
  unfolding for_each_from visit_all
  for_each_from-visit_all zero pos s e = refl
  for_each_from-visit_all (suc left) pos s e =
      let rest : (s' : S)
          → for_each_from hm body left (pos + 1) s'
            ≡ visit_all hm body (used_from hm left (pos + 1)) s' =
        λ s'. for_each_from-visit_all left (pos + 1) s' (omega arith) in
      rw (read_slot-eq hm pos valid (omega arith), ◌>>=◌)
        (elim (Bool-cases (is_skipped (slot_at hm pos))) [
          | inl skip ↦ rw skip (rest s)
          | inr visit ↦
              rw visit
                (ap (λ f. body s (key_offset hm pos) (value_offset hm pos) >>= f) (fun_ext rest))
        ])

  -- HASHMAP_FOR_EACH over a valid map, with any body that leaves the map alone, does what the body does
  -- when it is run once for every entry in use, in the order of the positions, on pointers to its key
  -- and to its value.
  pub hashmap_for_each-visit_all :
      (s : S) → hashmap_for_each hm body s ≡ visit_all hm body (used_from hm hm.table_count 0) s
  unfolding hashmap_for_each
  hashmap_for_each-visit_all s = for_each_from-visit_all hm.table_count 0 s (omega arith)

  -- What holds before the loop and is kept by every position holds after the loop.
  module _ (P : ℕ → S → Type 0)
      (skip : (pos : ℕ) (s : S)
        → pos < hm.table_count
        → ¬ InUse (slot_at hm pos)
        → P pos s
        → P (pos + 1) s)
      (visit : (pos : ℕ) (s : S)
        → pos < hm.table_count
        → InUse (slot_at hm pos)
        → P pos s
        → Returns (body s (key_offset hm pos) (value_offset hm pos)) (P (pos + 1))) where
    for_each_from-keeps :
        (left pos : ℕ) (s : S)
        → pos + left ≡ hm.table_count
        → P pos s
        → Returns (for_each_from hm body left pos s) (P hm.table_count)
    unfolding for_each_from
    for_each_from-keeps zero pos s e h = subst (λ i. P i s) (omega arith) h
    for_each_from-keeps (suc left) pos s e h =
        rw (read_slot-eq hm pos valid (omega arith), ◌>>=◌)
          (elim (Bool-cases (is_skipped (slot_at hm pos))) [
            | inl b ↦ rw b (
                for_each_from-keeps left (pos + 1) s (omega arith)
                  (skip pos s (omega arith) (skipped-InUse hm pos valid (omega arith) b) h))
            | inr b ↦ rw b (
                Returns->>= (body s (key_offset hm pos) (value_offset hm pos)) _ (P (pos + 1)) _
                  (visit pos s (omega arith) (visited-InUse hm pos b) h)
                  (λ s' h'. for_each_from-keeps left (pos + 1) s' (omega arith) h'))
          ])

    pub hashmap_for_each-keeps :
        (s : S) → P 0 s → Returns (hashmap_for_each hm body s) (P hm.table_count)
    unfolding hashmap_for_each
    hashmap_for_each-keeps s h = for_each_from-keeps hm.table_count 0 s (omega arith) h
