-- ===== src/HashMap/Proof/Rehash.antt =====
-- The copies into a larger table (`resize_rehash` of cstructures/src/hashmap.c).
use native.Mathlib.Decide.{ℕ_discrete}
use native.Mathlib.Nat.{div-lt_iff_lt-mul, mod-le}
use cstructures.Prelude.{
  ℕ, ◌+◌, ◌*◌, ◌/◌, ◌≤◌, ◌<◌, ◌≡◌, ◌≢◌, refl, sym, ◌∙◌, ap, subst, false, Option, none, some, List,
  arith, length, length-tabulate, ltb, if◌then◌else◌, lt→leb,
}
use cstructures.Prelude.Word.{word, mul32}
use cstructures.Buffer.{Block}
use cstructures.HashMap.Struct.{HashMap, Status, exists, ok, oom, slot_unused}
use cstructures.HashMap.Insert.{is_loaded}
use cstructures.HashMap.Valid.{slot_at, key_at, value_at, InUse, Owns, IsValid, Has}
use cstructures.HashMap.Proof.Entry.{SameShape}
use cstructures.HashMap.Proof.Store.{Inserted}
use cstructures.HashMap.Proof.Room.{unused, Inserted-unused}

-- Keys and values that are read have the sizes of the map.
pub key_at-length : (hm : HashMap) (p : ℕ) → IsValid hm → length (key_at hm p) ≡ hm.key_size
key_at-length hm p valid = go hm.storage valid.owns
  where
    go :
        (o : Option Block)
        → Owns o hm.table_count hm.key_size hm.value_size
        → length (key_at (record hm { storage = o }) p) ≡ hm.key_size
    go none own = absurd own
    go (some b) own = length-tabulate hm.key_size _

pub value_at-length : (hm : HashMap) (p : ℕ) → IsValid hm → length (value_at hm p) ≡ hm.value_size
value_at-length hm p valid = go hm.storage valid.owns
  where
    go :
        (o : Option Block)
        → Owns o hm.table_count hm.key_size hm.value_size
        → length (value_at (record hm { storage = o }) p) ≡ hm.value_size
    go none own = absurd own
    go (some b) own = length-tabulate hm.value_size _

-- A table with entries in less than a third of its slots asks for no rehash.
pub light :
    (hm : HashMap) (t : ℕ)
    → 0 < t
    → hm.table_count ≡ t * 3
    → hm.slots_used < t
    → is_loaded hm ≡ false
light hm t pos size few = lt→leb 70 (mul32 hm.slots_used 100 / hm.table_count) (
    (div-lt_iff_lt-mul {k = hm.table_count} {x = mul32 hm.slots_used 100} {y = 70}
        (omega (arith, size))).1
      (omega (arith, size, mod-le (hm.slots_used * 100) word)))

-- The entries of the first `i` slots of a map, which has an unused slot at `gap`, are copied into `nm`,
-- and no others.
pub record Copied (hm : HashMap) (gap i : ℕ) (nm : HashMap) : Type 0 where
  pub valid : IsValid nm
  pub shape : SameShape (record hm { table_count = hm.table_count * 3 }) nm
  pub few : nm.slots_used + (if ltb gap i then 1 else 0) ≤ i
  pub spare : hm.table_count * 3 ≤ unused nm + nm.slots_used
  pub kept :
      (p : ℕ)
      → p < i
      → InUse (slot_at hm p)
      → (q : ℕ) × Has nm (key_at hm p) q × (value_at nm q ≡ value_at hm p)
  pub only : (key : List ℕ) (q : ℕ) → Has nm key q → (p : ℕ) × (p < i) × Has hm key p

-- The map after the insertion of the next entry.
abbrev pub Next : HashMap → ℕ → ℕ → Status × HashMap → Type 0
Next hm gap i (ok, u) = Copied hm gap (i + 1) u
Next hm gap i (exists, u) = ⊥
Next hm gap i (oom, u) = ⊥

module _ (hm : HashMap) (gap : ℕ) (valid : IsValid hm) (free : slot_at hm gap ≡ slot_unused) where
  pub copy_skip :
      (i : ℕ) (nm : HashMap)
      → ¬ InUse (slot_at hm i)
      → Copied hm gap i nm
      → Copied hm gap (i + 1) nm
  copy_skip i nm skipped c = record {
    valid = c.valid;
    shape = c.shape;
    few = ground (arith, c.few);
    spare = c.spare;
    kept = λ p lt used. elim (ℕ_discrete p i) [
      | yes e ↦ absurd (skipped (subst (λ j. InUse (slot_at hm j)) e used))
      | no ne ↦ c.kept p (omega arith) used
    ];
    only = λ key q has. let (p, lt, own) = c.only key q has in (p, omega arith, own);
  }

  pub copy-Next :
      (i : ℕ) (nm : HashMap) (r : Status × HashMap)
      → i < hm.table_count
      → InUse (slot_at hm i)
      → Copied hm gap i nm
      → Inserted nm (key_at hm i) (some (value_at hm i)) r
      → Next hm gap i r
  copy-Next i nm (oom, u) lt used c h = h
  copy-Next i nm (exists, u) lt used c (same, (q, has)) =
      let (p, below, own) = c.only (key_at hm i) q has in
      absurd (omega (arith, valid.sound.unique p i own.0 lt own.1 used own.2))
  copy-Next i nm (ok, u) lt used c
        (ready, absent, (at, has, given, slots), keeps, (table, keys, values, hash), more) =
      let (table', keys', values', hash') = c.shape in
      record {
        valid = ready;
        shape = (table ∙ table', keys ∙ keys', values ∙ values', hash ∙ hash');
        few = ground (arith, c.few, more, used, free, apart);
        spare = omega (
          arith,
          c.spare,
          c.few,
          more,
          valid.small,
          Inserted-unused nm u (key_at hm i) (some (value_at hm i))
              (ready, absent, (at, has, given, slots), keeps, (table, keys, values, hash), more),
        );
        kept = λ p below inside. elim (ℕ_discrete p i) [
          | yes e ↦ (
            at,
            subst (λ j. Has u (key_at hm j) at) (sym e) has,
            given (value_at hm i) refl ∙ ap (value_at hm) (sym e),
          )
          | no ne ↦
              let (q, own, v) = c.kept p (omega arith) inside in
              let other : key_at hm p ≢ key_at hm i =
                λ e. ne (valid.sound.unique p i (omega arith) lt inside used e) in
              (q, (keeps (key_at hm p) other q).0.0 own, (keeps (key_at hm p) other q).1 own ∙ v)
        ];
        only = λ key q own. elim (ℕ_discrete q at) [
          | yes e ↦ (i, omega arith, (lt, used, sym has.2 ∙ (ap (key_at u) (sym e) ∙ own.2)))
          | no ne ↦
              let other : key ≢ key_at hm i = λ e.
                ne (ready.sound.unique q at own.0 has.0 own.1 has.1 (own.2 ∙ (e ∙ sym has.2))) in
              let (p, below, old) = c.only key q ((keeps key other q).0.1 own) in
              (p, omega arith, old)
        ];
      }
    where
      apart : i ≢ gap
      apart e = used.0 (ap (slot_at hm) e ∙ free)
