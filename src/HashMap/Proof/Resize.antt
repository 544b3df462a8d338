-- ===== src/HashMap/Proof/Resize.antt =====
-- The rehash of a table whose size is a power of two (`resize_rehash` of cstructures/src/hashmap.c).
use cstructures.Prelude.{
  ℕ, zero, suc, ◌+◌, ◌^◌, ◌≤◌, ◌<◌, ◌≡◌, inl, inr, refl, sym, ◌∙◌, ap, subst, Bool, true, false,
  ◌||◌, some, List, done, ◌>>=◌, Returns, Returns->>=, arith, length, ◌==◌, Bool-cases,
}
use cstructures.Buffer.{Allocator}
use cstructures.HashMap.Struct.{HashMap, Status, exists, ok, oom, slot_unused, slot_rip}
use cstructures.HashMap.Insert.{rehash_loop, insert_nested}
use cstructures.HashMap.Valid.{slot_at, key_at, value_at, InUse, IsValid}
use cstructures.HashMap.Proof.Read.{read_slot-eq, read_key-eq, read_value-eq}
use cstructures.HashMap.Proof.Store.{Inserted}
use cstructures.HashMap.Proof.Insert.{insert_nested-Inserted}
use cstructures.HashMap.Proof.Spread.{spread-Stops}
use cstructures.HashMap.Proof.Rehash.{
  key_at-length, value_at-length, light, Copied, Next, copy_skip, copy-Next,
}

-- The test of the loop.
abbrev is_free : ℕ → Bool
is_free slot = slot == slot_unused || slot == slot_rip

free-InUse : (slot : ℕ) → is_free slot ≡ true → ¬ InUse slot
free-InUse slot e (a, b) = ground (arith, e, a, b)

taken-InUse : (slot : ℕ) → is_free slot ≡ false → InUse slot
taken-InUse slot e = (ground arith, ground arith)

module _ (a : Allocator) (k : ℕ) (hm : HashMap) (gap : ℕ) (valid : IsValid hm)
    (size : hm.table_count ≡ 2 ^ k) (free : slot_at hm gap ≡ slot_unused) where
  -- The insertion of the next entry, into the copy.
  insert-Inserted :
      (i : ℕ) (nm : HashMap)
      → i < hm.table_count
      → Copied hm gap i nm
      → Returns
          (insert_nested a 1 nm (key_at hm i) (some (value_at hm i)))
          (Inserted nm (key_at hm i) (some (value_at hm i)))
  insert-Inserted i nm lt c =
      let (table, keys, values, hash) = c.shape in
      let few : nm.slots_used ≤ i = ground (arith, c.few) in
      insert_nested-Inserted a 0 nm (key_at hm i) (some (value_at hm i)) c.valid
        (light nm hm.table_count valid.slots table (omega arith))
        (spread-Stops k 3 nm (key_at hm i) (omega (arith, table, size)) c.valid.slots
          (omega (arith, table, size, c.spare)))
        (key_at-length hm i valid ∙ sym keys)
        (λ x e. ap length (given e) ∙ (value_at-length hm i valid ∙ sym values))
    where
      given : {x : List ℕ} → some (value_at hm i) ≡ some x → x ≡ value_at hm i
      given e = cc

  abbrev pub CopiedWhole : Bool × HashMap → Type 0
  CopiedWhole r = (r.0 ≡ true) × Copied hm gap hm.table_count r.1

  -- What the loop does after an insertion, where the rounds after it are right.
  after_insert :
      (left i : ℕ) (r : Status × HashMap)
      → ((u : HashMap)
          → Copied hm gap (i + 1) u
          → Returns (rehash_loop (insert_nested a 1) hm left (i + 1) u) CopiedWhole)
      → Next hm gap i r
      → Returns
          (elim r.0 [
            | ok ↦ rehash_loop (insert_nested a 1) hm left (i + 1) r.1
            | exists ↦ done (false, r.1)
            | oom ↦ done (false, r.1)
          ])
          CopiedWhole
  after_insert left i (ok, u) rest h = rest u h
  after_insert left i (exists, u) rest h = absurd h
  after_insert left i (oom, u) rest h = absurd h

  pub rehash_loop-Copied :
      (left i : ℕ) (nm : HashMap)
      → i + left ≡ hm.table_count
      → Copied hm gap i nm
      → Returns (rehash_loop (insert_nested a 1) hm left i nm) CopiedWhole
  unfolding rehash_loop
  rehash_loop-Copied zero i nm e c = (refl, subst (λ j. Copied hm gap j nm) (omega arith) c)
  rehash_loop-Copied (suc left) i nm e c =
      rw (read_slot-eq hm i valid (omega arith), ◌>>=◌)
        (elim (Bool-cases (is_free (slot_at hm i))) [
          | inl skip ↦ rw skip (
              rehash_loop-Copied left (i + 1) nm (omega arith)
                (copy_skip hm gap valid free i nm (free-InUse (slot_at hm i) skip) c))
          | inr used ↦
              rw
                (
                  used,
                  read_key-eq hm i valid (omega arith),
                  ◌>>=◌,
                  read_value-eq hm i valid (omega arith),
                )
                (Returns->>= (insert_nested a 1 nm (key_at hm i) (some (value_at hm i))) _
                  (Inserted nm (key_at hm i) (some (value_at hm i))) CopiedWhole
                  (insert-Inserted i nm (omega arith) c)
                  (λ r h.
                    after_insert left i r
                      (λ u c'. rehash_loop-Copied left (i + 1) u (omega arith) c')
                      (copy-Next hm gap valid free i nm r (omega arith)
                        (taken-InUse (slot_at hm i) used) c h)))
        ])
