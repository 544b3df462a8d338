-- ===== src/HashMap/Struct.antt =====
-- `struct cs_hashmap`, its slots, keys and values in one object, and the functions that set it up
-- (cstructures/include/cstructures/hashmap.h, cstructures/src/hashmap.c).
use cstructures.Prelude.{
  ℕ, ◌+◌, ◌-◌, ◌*◌, ◌%◌, ◌^◌, ◌||◌, Option, none, some, List, Exec, done, fault, ◌>>=◌, ltb, ◌==◌,
  if◌then◌else◌, ◌&&◌,
}
use cstructures.Prelude.Word.{word, mul32}
use cstructures.Hash.Defs.{hash32_jenkins_oaat}
use cstructures.Buffer.{Block, read, memcpy, clear_bytes, encode32, decode32, Allocator}

-- `hash` is the function pointer: what it gives for a key of `key_size` bytes. The statistics, which
-- only a build with CSTRUCTURES_HASHMAP_STATS keeps, are left out.
pub record HashMap : Type 0 where
  pub table_count : ℕ
  pub key_size : ℕ
  pub value_size : ℕ
  pub slots_used : ℕ
  pub hash : List ℕ → ℕ
  pub storage : Option Block

-- `enum cs_hashmap_status`
pub data Status : Type 0 where
  exists : Status
  ok : Status
  oom : Status

-- HM_SLOT_UNUSED, HM_SLOT_RIP and HM_SLOT_INVALID
abbrev pub slot_unused : ℕ
slot_unused = 0

abbrev pub slot_rip : ℕ
slot_rip = 1

abbrev pub slot_invalid : ℕ
slot_invalid = word - 1

-- HM_REHASH_AT_PERCENT, HM_DEFAULT_TABLE_COUNT and HM_EXPAND_FACTOR
abbrev pub rehash_at_percent : ℕ
rehash_at_percent = 70

abbrev pub default_table_count : ℕ
default_table_count = 128

abbrev pub expand_factor : ℕ
expand_factor = 3

-- `sizeof(**hm)`
abbrev pub sizeof_hashmap : ℕ
sizeof_hashmap = 32

-- `sizeof(cs_hash32) + hm->key_size`
abbrev pub entry_size : HashMap → ℕ
entry_size hm = 4 + hm.key_size

-- The byte offsets of SLOT, KEY and VALUE. The product in VALUE is one of two `uint32_t`.
abbrev pub slot_offset : HashMap → ℕ → ℕ
slot_offset hm pos = pos * entry_size hm

abbrev pub key_offset : HashMap → ℕ → ℕ
key_offset hm pos = pos * entry_size hm + 4

abbrev pub value_offset : HashMap → ℕ → ℕ
value_offset hm pos = hm.table_count * entry_size hm + mul32 hm.value_size pos

-- Reads of SLOT, KEY and VALUE.
unfoldable pub read_slot : HashMap → ℕ → Exec ℕ
unfolding read
read_slot hm pos = elim hm.storage [
  | none ↦ fault
  | some b ↦ read b (slot_offset hm pos) 4 >>= λ s. done (decode32 s)
]

unfoldable pub read_key : HashMap → ℕ → Exec (List ℕ)
unfolding read
read_key hm pos = elim hm.storage [ none ↦ fault | some b ↦ read b (key_offset hm pos) hm.key_size ]

unfoldable pub read_value : HashMap → ℕ → Exec (List ℕ)
unfolding read
read_value hm off = elim hm.storage [ none ↦ fault | some b ↦ read b off hm.value_size ]

-- `SLOT(hm, pos) = slot`
unfoldable pub write_slot : HashMap → ℕ → ℕ → Exec HashMap
unfolding memcpy
write_slot hm pos slot = elim hm.storage [
  | none ↦ fault
  | some b ↦ memcpy b (slot_offset hm pos) (encode32 slot) 4 >>= λ b'.
      done (record hm { storage = some b' })
]

-- A hash that is not one of the reserved slots.
unfoldable pub hash_wrapper : HashMap → List ℕ → ℕ
hash_wrapper hm key =
    if hm.hash key == slot_unused || (hm.hash key == slot_rip || hm.hash key == slot_invalid)
    then 2
    else hm.hash key

module _ (a : Allocator) where
  unfoldable pub malloc_and_init_storage : ℕ → ℕ → ℕ → Exec (Option Block)
  unfolding clear_bytes
  malloc_and_init_storage key_size value_size table_count =
      elim (a.malloc ((4 + key_size + value_size) * table_count % 2 ^ 64)) [
        | none ↦ done none
        | some b ↦ clear_bytes b 0 ((4 + key_size) * table_count % 2 ^ 64) >>= λ b'. done (some b')
      ]

  -- The function pointer is not null.
  unfoldable pub hashmap_init_with_options : ℕ → ℕ → ℕ → (List ℕ → ℕ) → Exec (Status × HashMap)
  unfolding malloc_and_init_storage
  hashmap_init_with_options key_size value_size table_count hash =
      if ltb 0 key_size && ltb 0 table_count
      then (malloc_and_init_storage key_size value_size table_count >>= λ storage. done (
        elim storage [ none ↦ oom | some b ↦ ok ],
        record {
          table_count = table_count;
          key_size = key_size;
          value_size = value_size;
          slots_used = 0;
          hash = hash;
          storage = storage;
        },
      ))
      else fault

  unfoldable pub hashmap_init : ℕ → ℕ → Exec (Status × HashMap)
  unfolding hashmap_init_with_options
  hashmap_init key_size value_size =
      hashmap_init_with_options key_size value_size default_table_count hash32_jenkins_oaat

  -- A struct whose storage could not be allocated is not freed.
  unfoldable pub hashmap_create_with_options :
      ℕ → ℕ → ℕ → (List ℕ → ℕ) → Exec (Status × Option HashMap)
  unfolding hashmap_init_with_options
  hashmap_create_with_options key_size value_size table_count hash =
      elim (a.malloc sizeof_hashmap) [
        | none ↦ done (oom, none)
        | some object ↦ hashmap_init_with_options key_size value_size table_count hash >>= λ r.
            done (r.0, some r.1)
      ]

  unfoldable pub hashmap_create : ℕ → ℕ → Exec (Status × Option HashMap)
  unfolding hashmap_create_with_options
  hashmap_create key_size value_size =
      hashmap_create_with_options key_size value_size default_table_count hash32_jenkins_oaat

-- The object that is freed.
unfoldable pub hashmap_deinit : HashMap → Option Block
hashmap_deinit hm = hm.storage

-- The object of the struct itself is freed after its storage.
unfoldable pub hashmap_free : HashMap → Option Block
unfolding hashmap_deinit
hashmap_free hm = hashmap_deinit hm
