-- ===== src/HashMap/Insert.antt =====
-- Insertion, and the rehash that it starts with (cstructures/src/hashmap.c). `hashmap_insert` and
-- `resize_rehash` call each other; the depth of the calls is bounded by fuel, and to run out of it
-- counts as a fault.
use cstructures.Prelude.{
  ℕ, zero, suc, ◌+◌, ◌/◌, ◌%◌, Bool, true, false, ◌||◌, Option, none, some, List, Exec, done, fault,
  ◌>>=◌, leb, ◌==◌, if◌then◌else◌,
}
use cstructures.Prelude.Word.{add32, mul32}
use cstructures.Buffer.{memcpy, Allocator}
use cstructures.HashMap.Struct.{
  HashMap, Status, exists, ok, oom, slot_unused, slot_rip, slot_invalid, rehash_at_percent,
  expand_factor, key_offset, value_offset, read_slot, read_key, read_value, write_slot,
  hash_wrapper, malloc_and_init_storage,
}
use cstructures.HashMap.Probe.{rounds, insert_loop}

-- `memcpy` to an offset of the storage.
unfoldable pub write_bytes : HashMap → ℕ → List ℕ → ℕ → Exec HashMap
unfolding memcpy
write_bytes hm off from n = elim hm.storage [
  | none ↦ fault
  | some b ↦ memcpy b off from n >>= λ b'. done (record hm { storage = some b' })
]

-- The copy of the value, which is left out for a null pointer.
unfoldable pub write_value : HashMap → ℕ → Option (List ℕ) → Exec HashMap
unfolding write_bytes
write_value hm pos none = done hm
write_value hm pos (some value) = write_bytes hm (value_offset hm pos) value hm.value_size

-- `Store hash, key and value`
unfoldable pub store_entry : HashMap → ℕ → ℕ → List ℕ → Option (List ℕ) → Exec HashMap
unfolding write_slot write_bytes
store_entry hm pos hash key value = do
  hm₁ ← write_slot hm pos hash
  hm₂ ← write_bytes hm₁ (key_offset hm₁ pos) key hm₁.key_size
  hm₃ ← write_value hm₂ pos value
  done (record hm₃ { slots_used = add32 hm₃.slots_used 1 })

-- The last tombstone, if there is one, comes before the end of the sequence.
abbrev pub chosen : ℕ → ℕ → ℕ
chosen pos last = if last == slot_invalid then pos else last

unfoldable pub insert_at :
    HashMap → ℕ → List ℕ → Option (List ℕ) → Option (ℕ × ℕ) → Exec (Status × HashMap)
unfolding store_entry write_value
insert_at hm hash key value none = done (exists, hm)
insert_at hm hash key value (some (pos, last)) =
    store_entry hm (chosen pos last) hash key value >>= λ hm'. done (ok, hm')

-- `hashmap_insert` after the rehash.
unfoldable pub insert_no_rehash : HashMap → List ℕ → Option (List ℕ) → Exec (Status × HashMap)
unfolding insert_loop hash_wrapper insert_at
insert_no_rehash hm key value =
    insert_loop (rounds hm) hm key (hash_wrapper hm key) (hash_wrapper hm key % hm.table_count) 0
      slot_invalid
    >>= insert_at hm (hash_wrapper hm key) key value

-- `hm->slots_used * 100 / hm->table_count >= HM_REHASH_AT_PERCENT`
abbrev pub is_loaded : HashMap → Bool
is_loaded hm = leb rehash_at_percent (mul32 hm.slots_used 100 / hm.table_count)

-- The loop of `resize_rehash`, with the rounds that are left and the insertion that it calls; false
-- where that does not say ok.
unfoldable pub rehash_loop :
    (HashMap → List ℕ → Option (List ℕ) → Exec (Status × HashMap))
    → HashMap
    → ℕ
    → ℕ
    → HashMap
    → Exec (Bool × HashMap)
unfolding read_slot read_key read_value
rehash_loop insert hm zero i new_hm = done (true, new_hm)
rehash_loop insert hm (suc left) i new_hm = read_slot hm i >>= λ slot.
    elim (slot == slot_unused || slot == slot_rip) [
      | true ↦ rehash_loop insert hm left (i + 1) new_hm
      | false ↦ do
        key ← read_key hm i
        value ← read_value hm (value_offset hm i)
        r ← insert new_hm key (some value)
        elim r.0 [
          | ok ↦ rehash_loop insert hm left (i + 1) r.1
          | exists ↦ done (false, r.1)
          | oom ↦ done (false, r.1)
        ]
    ]

module _ (a : Allocator) where
  -- The return value 0 is true. On failure the map is as it was, and the new storage is freed.
  unfoldable pub resize_rehash :
      (HashMap → List ℕ → Option (List ℕ) → Exec (Status × HashMap))
      → HashMap
      → ℕ
      → Exec (Bool × HashMap)
  unfolding malloc_and_init_storage rehash_loop
  resize_rehash insert hm new_table_count =
      malloc_and_init_storage a hm.key_size hm.value_size new_table_count >>= λ storage.
      elim storage [
        | none ↦ done (false, hm)
        | some b ↦
            rehash_loop insert hm hm.table_count 0
              (record hm { table_count = new_table_count; slots_used = 0; storage = some b })
            >>= λ r. done (
                if r.0
                then (true, record hm { storage = r.1.storage; table_count = new_table_count })
                else (false, hm))
      ]

  unfoldable pub insert_nested : ℕ → HashMap → List ℕ → Option (List ℕ) → Exec (Status × HashMap)
  unfolding insert_no_rehash resize_rehash
  insert_nested zero hm key value = fault
  insert_nested (suc depth) hm key value =
      let insert = insert_nested depth in
      if is_loaded hm
      then (resize_rehash insert hm (mul32 hm.table_count expand_factor) >>= λ r.
          if r.0 then insert_no_rehash r.1 key value else done (oom, r.1))
      else insert_no_rehash hm key value

  -- A rehash inserts into a table three times as large, which needs none.
  unfoldable pub hashmap_insert : HashMap → List ℕ → Option (List ℕ) → Exec (Status × HashMap)
  unfolding insert_nested
  hashmap_insert hm key value = insert_nested 2 hm key value
