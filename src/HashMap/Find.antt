-- ===== src/HashMap/Find.antt =====
-- Look-up and removal (cstructures/src/hashmap.c).
use cstructures.Prelude.{ℕ, ◌%◌, Option, none, some, List, Exec, done, ◌>>=◌}
use cstructures.Prelude.Word.{sub32}
use cstructures.HashMap.Struct.{HashMap, slot_rip, value_offset, write_slot, hash_wrapper}
use cstructures.HashMap.Probe.{rounds, find_loop}

-- The position of the key, or none.
unfoldable pub locate : HashMap → List ℕ → Exec (Option ℕ)
unfolding find_loop hash_wrapper
locate hm key =
    find_loop (rounds hm) hm key (hash_wrapper hm key) (hash_wrapper hm key % hm.table_count) 0

-- The offset of the value, or null.
unfoldable pub hashmap_find : HashMap → List ℕ → Exec (Option ℕ)
unfolding locate
hashmap_find hm key =
    locate hm key >>= λ p. done (elim p [ none ↦ none | some pos ↦ some (value_offset hm pos) ])

-- `hashmap_erase` once the key has been looked for.
unfoldable pub erase_at : HashMap → Option ℕ → Exec (Option ℕ × HashMap)
unfolding write_slot
erase_at hm none = done (none, hm)
erase_at hm (some pos) =
    write_slot (record hm { slots_used = sub32 hm.slots_used 1 }) pos slot_rip >>= λ hm'.
    done (some (value_offset hm pos), hm')

unfoldable pub hashmap_erase : HashMap → List ℕ → Exec (Option ℕ × HashMap)
unfolding locate erase_at
hashmap_erase hm key = locate hm key >>= erase_at hm
