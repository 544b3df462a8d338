-- ===== src/HashMap/Probe.antt =====
-- The probing sequences (cstructures/src/hashmap.c). The loops are on fuel; to run out of it counts
-- as a fault. The positions come round after twice the table, so that is the fuel.
use cstructures.Prelude.{
  ℕ, zero, suc, ◌*◌, ◌%◌, Bool, true, false, Option, none, some, List, Exec, done, fault, ◌>>=◌,
  ◌==◌, if◌then◌else◌,
}
use cstructures.Prelude.Word.{add32}
use cstructures.Buffer.{same_bytes}
use cstructures.HashMap.Struct.{HashMap, slot_unused, slot_rip, read_slot, read_key}

-- `pos += i; pos = pos % hm->table_count`
abbrev pub advance : HashMap → ℕ → ℕ → ℕ
advance hm pos i = add32 pos i % hm.table_count

abbrev pub rounds : HashMap → ℕ
rounds hm = 2 * hm.table_count

-- What the body of the loops of `hashmap_find` and `hashmap_erase` does: leave it with the key, leave
-- it with null, or go on.
pub data Verdict : Type 0 where
  hit : Verdict
  miss : Verdict
  next : Verdict

unfoldable pub inspect : HashMap → List ℕ → ℕ → ℕ → Exec Verdict
unfolding read_slot read_key same_bytes
inspect hm key hash pos = read_slot hm pos >>= λ slot.
    if slot == hash
    then (read_key hm pos >>= λ stored. done (if same_bytes stored key then hit else next))
    else done (if slot == slot_unused then miss else next)

unfoldable pub find_loop : ℕ → HashMap → List ℕ → ℕ → ℕ → ℕ → Exec (Option ℕ)
unfolding inspect
find_loop zero hm key hash pos i = fault
find_loop (suc fuel) hm key hash pos i = inspect hm key hash pos >>= λ verdict. elim verdict [
  | hit ↦ done (some pos)
  | miss ↦ done none
  | next ↦ find_loop fuel hm key hash (advance hm pos (add32 i 1)) (add32 i 1)
]

-- The test of `hashmap_insert` for the key, in a slot that is in use.
unfoldable pub same_key : HashMap → List ℕ → ℕ → ℕ → ℕ → Exec Bool
unfolding read_key same_bytes
same_key hm key hash pos slot =
    if slot == hash
    then (read_key hm pos >>= λ stored. done (same_bytes stored key))
    else done false

-- `last_tombstone` after a slot.
abbrev pub tombstone : ℕ → ℕ → ℕ → ℕ → ℕ
tombstone hash slot pos last =
    if slot == hash then last else (if slot == slot_rip then pos else last)

-- The loop of `hashmap_insert`: none if the key exists, else where it ended and the last tombstone.
unfoldable pub insert_loop : ℕ → HashMap → List ℕ → ℕ → ℕ → ℕ → ℕ → Exec (Option (ℕ × ℕ))
unfolding read_slot same_key
insert_loop zero hm key hash pos i last = fault
insert_loop (suc fuel) hm key hash pos i last = read_slot hm pos >>= λ slot.
    elim (slot == slot_unused) [
      | true ↦ done (some (pos, last))
      | false ↦ same_key hm key hash pos slot >>= λ same. elim same [
        | true ↦ done none
        | false ↦
            insert_loop fuel hm key hash (advance hm pos (add32 i 1)) (add32 i 1)
              (tombstone hash slot pos last)
      ]
    ]
