-- ===== src/Memory/Proof/Listed.antt =====
-- The report after an insertion and after a removal (the calls that cstructures/src/memory.c makes of
-- the hash map).
use mathlib.Core.List.{List-discrete}
use native.Mathlib.Decide.{ℕ_discrete}
use cstructures.Prelude.{
  ℕ, ◌^◌, ◌<◌, ◌≡◌, ◌≢◌, refl, sym, ◌∙◌, ap, subst, Option, none, some, List, ◌∷◌, done, Returns,
  Returns_mono, arith, length, ne→==, eq→==, lt→leb, false, suc, ◌/◌,
}
use cstructures.Prelude.Word.{mul32}
use cstructures.Buffer.{Allocator}
use cstructures.HashMap.Struct.{HashMap, Status, exists, ok, oom, rehash_at_percent, read_value}
use cstructures.HashMap.Find.{hashmap_erase}
use cstructures.HashMap.Insert.{is_loaded, hashmap_insert}
use cstructures.HashMap.Valid.{slot_at, key_at, value_at, InUse, Has, Stops}
use cstructures.HashMap.Proof.Entry.{KeepsOthers}
use cstructures.HashMap.Proof.Store.{Sized, Inserted}
use cstructures.HashMap.Proof.Insert.{hashmap_insert-Inserted}
use cstructures.HashMap.Proof.Erase.{Erased, hashmap_erase-Erased}
use cstructures.HashMap.Proof.Room.{unused_some-Stops, Inserted-unused, Erased-unused}
use cstructures.Memory.Struct.{encode64, report_info}
use cstructures.Memory.Valid.{size_of, release, Leads, Listed}
use cstructures.Memory.Proof.Ledger.{size_of-release, release-Distinct, length-release, encode64-ne}

Leads-kept :
    (hm u : HashMap) (key : List ℕ) (j : ℕ) (o : Option ℕ)
    → KeepsOthers hm key u
    → encode64 j ≢ key
    → Leads hm j o
    → Leads u j o
Leads-kept hm u key j none keeps ne h = λ q has. h q ((keeps (encode64 j) ne q).0.1 has)
Leads-kept hm u key j (some s) keeps ne (q, has, e) =
    (q, (keeps (encode64 j) ne q).0.0 has, (keeps (encode64 j) ne q).1 has ∙ e)

info-Sized : (hm : HashMap) (p s : ℕ) → hm.value_size ≡ 16 → Sized hm (some (report_info p s))
info-Sized hm p s e x given = let same : report_info p s ≡ x = cc in ap length (sym same) ∙ sym e

pub Listed-light :
    (hm : HashMap) (live : List (ℕ × ℕ)) (room : ℕ)
    → Listed hm live (suc room)
    → is_loaded hm ≡ false
Listed-light hm live room l =
    lt→leb rehash_at_percent (mul32 hm.slots_used 100 / hm.table_count)
      (rw l.table (omega (arith, l.counted, l.light)))

pub Listed-Stops :
    (hm : HashMap) (live : List (ℕ × ℕ)) (room : ℕ) (key : List ℕ)
    → Listed hm live room
    → Stops hm key
Listed-Stops hm live room key l = unused_some-Stops 12 hm key l.table (omega (arith, l.spare))

-- A slot in use after a change of the key of `p` was in use for another key before, or has that key.
only-kept :
    (hm u : HashMap) (live : List (ℕ × ℕ)) (room p q : ℕ)
    → Listed hm live room
    → p < 2 ^ 64
    → KeepsOthers hm (encode64 p) u
    → u.table_count ≡ hm.table_count
    → q < u.table_count
    → InUse (slot_at u q)
    → (j : ℕ) × (j < 2 ^ 64) × (key_at u q ≡ encode64 j)
only-kept hm u live room p q l lt keeps table lt' used =
    elim (List-discrete ℕ_discrete (key_at u q) (encode64 p)) [
      | yes e ↦ (p, lt, e)
      | no ne ↦
          let has : Has hm (key_at u q) q = (keeps (key_at u q) ne q).0.1 (lt', used, refl) in
          let (j, small, e) = l.only q has.0 has.1 in (j, small, sym has.2 ∙ e)
    ]

pub insert-Listed :
    (a : Allocator) (hm : HashMap) (live : List (ℕ × ℕ)) (room p s : ℕ)
    → Listed hm live (suc room)
    → p < 2 ^ 64
    → s < 2 ^ 64
    → size_of p live ≡ none
    → Returns
        (hashmap_insert a hm (encode64 p) (some (report_info p s)))
        (λ r. Listed r.1 ((p, s) ∷ live) room)
insert-Listed a hm live room p s l small fits fresh =
    Returns_mono (hashmap_insert a hm (encode64 p) (some (report_info p s)))
      (Inserted hm (encode64 p) (some (report_info p s))) _
      (hashmap_insert-Inserted a hm (encode64 p) (some (report_info p s)) l.valid
        (Listed-light hm live room l) (Listed-Stops hm live (suc room) (encode64 p) l) (sym l.keys)
        (info-Sized hm p s l.values))
      (λ r h. step r.0 r.1 h h)
  where
    absent : (q : ℕ) → ¬ Has hm (encode64 p) q
    absent = subst (Leads hm p) fresh (l.leads p small)

    step :
        (st : Status) (u : HashMap)
        → Inserted hm (encode64 p) (some (report_info p s)) (st, u)
        → Inserted hm (encode64 p) (some (report_info p s)) (st, u)
        → Listed u ((p, s) ∷ live) room
    step exists u whole (e, (q, has)) = absurd (absent q has)
    step oom u whole h = absurd h
    step ok u whole
          (valid, none_before, (q, has, given, slots), keeps, (table, keys, values, hash), used) =
        record {
          valid = valid;
          keys = keys ∙ l.keys;
          values = values ∙ l.values;
          distinct = (fresh, l.distinct);
          bounded = λ j r e. ground (arith, l.bounded j r);
          leads = leads;
          only = λ j lt in_use. only-kept hm u live (suc room) p j l small keeps table lt in_use;
          counted = omega (arith, used, l.counted, l.light);
          table = table ∙ l.table;
          spare = omega (arith, l.spare, Inserted-unused hm u _ _ whole);
          light = omega (arith, l.light);
        }
      where
        leads : (j : ℕ) → j < 2 ^ 64 → Leads u j (size_of j ((p, s) ∷ live))
        leads j lt = elim (ℕ_discrete p j) [
          | yes e ↦
              rw (eq→== p j e)
                (subst (λ i. Leads u i (some s)) e (q, has, given (report_info p s) refl))
          | no ne ↦ rw (ne→== p j ne) (
              Leads-kept hm u (encode64 p) j (size_of j live) keeps
                (encode64-ne j p lt small (λ e. ne (sym e))) (l.leads j lt))
        ]

-- The outcome of a removal from the report.
abbrev pub Unlisted : HashMap → List (ℕ × ℕ) → ℕ → ℕ → Option ℕ × HashMap → Type 0
Unlisted hm live room p (none, u) = (u ≡ hm) × (size_of p live ≡ none)
Unlisted hm live room p (some off, u) =
    (s : ℕ) × (size_of p live ≡ some s)
    × (read_value u off ≡ done (report_info p s))
    × Listed u (release p live) room

pub erase-Unlisted :
    (hm : HashMap) (live : List (ℕ × ℕ)) (room p : ℕ)
    → Listed hm live room
    → p < 2 ^ 64
    → Returns (hashmap_erase hm (encode64 p)) (Unlisted hm live room p)
erase-Unlisted hm live room p l small =
    Returns_mono (hashmap_erase hm (encode64 p)) (Erased hm (encode64 p)) _
      (hashmap_erase-Erased hm (encode64 p) l.valid (Listed-Stops hm live room (encode64 p) l))
      (λ r h. step r.0 r.1 (size_of p live) refl (l.leads p small) h h)
  where
    step :
        (off : Option ℕ) (u : HashMap) (o : Option ℕ)
        → size_of p live ≡ o
        → Leads hm p o
        → Erased hm (encode64 p) (off, u)
        → Erased hm (encode64 p) (off, u)
        → Unlisted hm live room p (off, u)
    step none u none e h whole (same, gone) = (same, e)
    step none u (some s) e (q, has, v) whole (same, gone) = absurd (gone q has)
    step (some off) u none e h whole (valid, (q, has, v), gone, keeps, shape, used, unused) =
        absurd (h q has)
    step (some off) u (some s) e (q', has', v') whole
          (valid, (q, has, v), gone, keeps, (table, keys, values, hash), used, unused) =
        (
          s,
          e,
          v
              ∙ ap (λ i. done (value_at hm i))
                  (l.valid.sound.unique q q' has.0 has'.0 has.1 has'.1 (has.2 ∙ sym has'.2))
              ∙ ap done v',
          record {
            valid = valid;
            keys = keys ∙ l.keys;
            values = values ∙ l.values;
            distinct = release-Distinct p live l.distinct;
            bounded = λ j r e'. ground (arith, size_of-release j p live l.distinct, l.bounded j r);
            leads = leads;
            only = λ j lt in_use. only-kept hm u live room p j l small keeps table lt in_use;
            counted = omega (arith, used, l.counted, l.light, length-release p s live e);
            table = table ∙ l.table;
            spare = omega (arith, l.spare, Erased-unused hm u _ _ whole);
            light = omega (arith, l.light, length-release p s live e);
          },
        )
      where
        leads : (j : ℕ) → j < 2 ^ 64 → Leads u j (size_of j (release p live))
        leads j lt = elim (ℕ_discrete p j) [
          | yes e' ↦
              rw (size_of-release j p live l.distinct, eq→== p j e')
                (subst (λ i. Leads u i none) e' gone)
          | no ne ↦
              rw (size_of-release j p live l.distinct, ne→== p j ne)
                (Leads-kept hm u (encode64 p) j (size_of j live) keeps
                  (encode64-ne j p lt small (λ e'. ne (sym e'))) (l.leads j lt))
        ]
