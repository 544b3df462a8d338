-- ===== src/BTree/Storage.antt =====
-- Reallocation and the functions that change the capacity (cstructures/src/btree.c). A function
-- that frees the object returns the freed object first.
use cstructures.Prelude.{
  ℕ, ◌*◌, ◌%◌, ◌^◌, Option, none, some, Exec, done, ◌>>=◌, ltb, leb, ◌==◌, if◌then◌else◌,
}
use cstructures.Prelude.Word.{mul32}
use cstructures.Buffer.{Block, memmove, Allocator}
use cstructures.BTree.Struct.{BTree, Status, ok, oom, min_capacity, kv_size, value_offset_cap}

-- The clamp at the head of `btree_realloc`.
abbrev pub clamped : ℕ → ℕ
clamped n = if ltb n min_capacity then min_capacity else n

-- `new_capacity * BTREE_KV_SIZE (btree)`, of type `size_t`.
abbrev pub request : BTree → ℕ → ℕ
request t n = n * kv_size t % 2 ^ 64

-- The move of the values from behind the old capacity to behind the new one.
unfoldable pub move_values : BTree → Block → ℕ → Exec Block
unfolding memmove
move_values t b new_capacity =
    memmove b (value_offset_cap t 0 new_capacity) (value_offset_cap t 0 t.capacity)
      (mul32 t.capacity t.value_size)

module _ (a : Allocator) where
  unfoldable pub first_alloc : BTree → ℕ → Exec (Status × BTree)
  first_alloc t n = elim (a.malloc (request t n)) [
    | none ↦ done (oom, t)
    | some b ↦ done (ok, record t { buf = some b; capacity = n })
  ]

  -- A larger capacity: the object first, then the values.
  unfoldable pub grow_block : BTree → Block → ℕ → Exec (Status × BTree)
  unfolding move_values
  grow_block t b n = elim (a.realloc b (request t n)) [
    | none ↦ done (oom, t)
    | some b' ↦
        move_values t b' n >>= λ moved. done (ok, record t { buf = some moved; capacity = n })
  ]

  -- A smaller capacity: the values first, then the object, which may stay as it is.
  unfoldable pub shrink_block : BTree → Block → ℕ → Exec (Status × BTree)
  unfolding move_values
  shrink_block t b n = move_values t b n >>= λ moved. elim (a.realloc moved (request t n)) [
    | none ↦ done (ok, record t { buf = some moved; capacity = n })
    | some b' ↦ done (ok, record t { buf = some b'; capacity = n })
  ]

  unfoldable pub btree_realloc : BTree → ℕ → Exec (Status × BTree)
  unfolding first_alloc grow_block shrink_block
  btree_realloc t new_capacity = elim t.buf [
    | none ↦ first_alloc t (clamped new_capacity)
    | some b ↦
        if leb t.capacity (clamped new_capacity)
        then grow_block t b (clamped new_capacity)
        else shrink_block t b (clamped new_capacity)
  ]

  unfoldable pub btree_reserve : BTree → ℕ → Exec (Status × BTree)
  btree_reserve t size = if ltb t.capacity size then btree_realloc t size else done (ok, t)

  -- The status of the reallocation is dropped, as in the source.
  unfoldable pub btree_compact : BTree → Exec (Option Block × BTree)
  btree_compact t =
      if t.count == 0
      then done (t.buf, record t { buf = none; capacity = 0 })
      else btree_realloc t t.count >>= λ r. done (none, r.1)

  -- `btree_clear` and `btree_compact` in turn.
  unfoldable pub btree_deinit : BTree → Exec (Option Block × BTree)
  btree_deinit t = btree_compact (record t { count = 0 })

  -- The object of the struct itself is freed after that of its entries.
  unfoldable pub btree_free : BTree → Exec (Option Block)
  unfolding btree_deinit
  btree_free t = btree_deinit t >>= λ r. done r.0

unfoldable pub btree_clear : BTree → BTree
btree_clear t = record t { count = 0 }
