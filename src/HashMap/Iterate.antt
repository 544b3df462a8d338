-- ===== src/HashMap/Iterate.antt =====
-- `hashmap_count` and the loop HASHMAP_FOR_EACH (cstructures/include/cstructures/hashmap.h).
use cstructures.Prelude.{ℕ, zero, suc, ◌+◌, true, false, ◌||◌, Exec, done, ◌>>=◌, ◌==◌}
use cstructures.HashMap.Struct.{
  HashMap, slot_unused, slot_rip, slot_invalid, key_offset, value_offset, read_slot,
}

unfoldable pub hashmap_count : HashMap → ℕ
hashmap_count hm = hm.slots_used

-- The body of the loop is any function of what it keeps, and of the pointers to the key and the value;
-- it leaves the map alone.
module _ {ℓ} {S : Type ℓ} (hm : HashMap) (body : S → ℕ → ℕ → Exec S) where
  -- The loop, with the rounds that are left.
  unfoldable pub for_each_from : ℕ → ℕ → S → Exec S
  unfolding read_slot
  for_each_from zero pos s = done s
  for_each_from (suc left) pos s = read_slot hm pos >>= λ slot.
      elim (slot == slot_unused || (slot == slot_rip || slot == slot_invalid)) [
        | true ↦ for_each_from left (pos + 1) s
        | false ↦ body s (key_offset hm pos) (value_offset hm pos) >>= λ s'.
            for_each_from left (pos + 1) s'
      ]

  unfoldable pub hashmap_for_each : S → Exec S
  unfolding for_each_from
  hashmap_for_each s = for_each_from hm.table_count 0 s
