-- ===== src/Memory/Report.antt =====
-- What the tracker tells: `memory_get_num_allocs`, `memory_get_memory_usage`, `memory_deinit` and the
-- dump of a leak (cstructures/src/memory.c).
use cstructures.Prelude.{
  ℕ, zero, suc, ◌+◌, ◌-◌, ◌%◌, ◌^◌, false, Option, none, some, List, [], ◌∷◌, Exec, done, fault,
  ◌>>=◌, ltb, ◌==◌, if◌then◌else◌,
}
use cstructures.Buffer.{Block, read, memcpy, Allocator}
use cstructures.HashMap.Struct.{HashMap, read_value, hashmap_deinit}
use cstructures.HashMap.Iterate.{hashmap_count, hashmap_for_each}
use cstructures.Memory.Struct.{Tracker, add64, sub64, info_location, info_bytes, deallocated}

unfoldable pub memory_get_num_allocs : Tracker → ℕ
unfolding hashmap_count
memory_get_num_allocs m = hashmap_count m.report

unfoldable pub memory_get_memory_usage : Tracker → ℕ
memory_get_memory_usage m = m.bytes_in_use

-- The loop that mutates null terminators into dots, with the rounds that are left.
unfoldable pub mutate_from : ℕ → Block → ℕ → Exec Block
unfolding read memcpy
mutate_from zero dump i = done dump
mutate_from (suc left) dump i = read dump i 1 >>= λ byte. elim byte [
  | [] ↦ fault
  | c ∷ rest ↦ (if c == 0 then memcpy dump i (46 ∷ []) 1 else done dump) >>= λ dump'.
      mutate_from left dump' (i + 1)
]

-- The string that is printed as text and, byte by byte, in hexadecimal; none if there is no room for
-- it. The copy is freed.
unfoldable pub mutated_string_and_hex_dump : Allocator → List ℕ → ℕ → Exec (Option (List ℕ))
unfolding memcpy mutate_from read
mutated_string_and_hex_dump a source length_in_bytes =
    elim (a.malloc ((length_in_bytes + 1) % 2 ^ 64)) [
      | none ↦ done none
      | some dump ↦ do
        copied ← memcpy dump 0 source length_in_bytes
        ended ← memcpy copied length_in_bytes (0 ∷ []) 1
        mutated ← mutate_from length_in_bytes ended 0
        text ← read mutated 0 (length_in_bytes + 1)
        done (some text)
    ]

-- `un-freed memory at …, size …`: one line of the report, after those before it. The object is dumped,
-- and the text of the dump not kept. The bytes of the object at an address are an argument.
unfoldable pub report_line :
    Allocator → (ℕ → List ℕ) → HashMap → List (ℕ × ℕ) → ℕ → ℕ → Exec (List (ℕ × ℕ))
unfolding read_value mutated_string_and_hex_dump
report_line a memory hm lines key value = do
  info ← read_value hm value
  text ← mutated_string_and_hex_dump a (memory (info_location info)) (info_bytes info)
  done ((info_location info, info_bytes info) ∷ lines)

abbrev pub leak_count : ℕ → ℕ → ℕ
leak_count allocs deallocs = if ltb deallocs allocs then allocs - deallocs else deallocs - allocs

-- The storage of the report is freed, and counted again.
abbrev pub reported : Option Block → Tracker → Tracker
reported none m = record m {
  allocations = add64 (sub64 m.allocations 1) 1;
  ignore_hm_malloc = false;
}
reported (some storage) m = record (deallocated m) {
  allocations = add64 (sub64 m.allocations 1) 1;
  ignore_hm_malloc = false;
}

-- The return value, the lines of the report, the last one first, and the object that the map frees.
-- Between the two changes of `g_allocations` the storage of the report does not count.
unfoldable pub memory_deinit :
    Allocator → (ℕ → List ℕ) → Tracker → Exec ((ℕ × List (ℕ × ℕ)) × (Option Block × Tracker))
unfolding hashmap_count hashmap_for_each report_line hashmap_deinit
memory_deinit a memory m =
    (if hashmap_count m.report == 0
      then done []
      else hashmap_for_each m.report (report_line a memory m.report) [])
    >>= λ lines. done (
      (leak_count (sub64 m.allocations 1) m.deallocations, lines),
      (hashmap_deinit m.report, reported (hashmap_deinit m.report) m),
    )
