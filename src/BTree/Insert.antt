-- ===== src/BTree/Insert.antt =====
-- Insertion and update (cstructures/src/btree.c).
use cstructures.Buffer.{encode32, Block, memmove, memcpy, Allocator}
use cstructures.Prelude.{
  ℕ, ◌+◌, ◌*◌, Bool, true, false, Option, none, some, List, Exec, done, fault, ◌>>=◌, ltb,
  if◌then◌else◌,
}
use cstructures.Prelude.Word.{add32, mul32, sub32}
use cstructures.BTree.Struct.{
  BTree, Status, not_found, exists, ok, expand_factor, key_size, needs_realloc, key_offset,
  value_offset,
}
use cstructures.BTree.Storage.{btree_realloc}
use cstructures.BTree.Search.{search_key, btree_find}

-- The copy of the value, which `btree_insert_new` leaves out if values have no bytes.
unfoldable pub put_value : BTree → Block → ℕ → List ℕ → Exec Block
unfolding memcpy
put_value t b i value =
    if ltb 0 t.value_size then memcpy b (value_offset t i) value t.value_size else done b

-- The entries from `i` on move up by one, and the new one is copied to `i`.
unfoldable pub place_entry : BTree → Block → ℕ → ℕ → List ℕ → Exec Block
unfolding memmove memcpy
place_entry t b i key value = do
  let entries_to_move = sub32 t.count i
  b₁ ← memmove b (key_offset (i + 1)) (key_offset i) (entries_to_move * key_size)
  b₂ ←
      memmove b₁ (value_offset t (add32 i 1)) (value_offset t i)
        (mul32 entries_to_move t.value_size)
  b₃ ← memcpy b₂ (key_offset i) (encode32 key) key_size
  put_value t b₃ i value

unfoldable pub insert_entry : BTree → ℕ → ℕ → List ℕ → Exec BTree
unfolding place_entry
insert_entry t i key value = elim t.buf [
  | none ↦ fault
  | some b ↦ place_entry t b i key value >>= λ b'.
      done (record t { buf = some b'; count = add32 t.count 1 })
]

-- `btree_insert_new` once there is room, and once the key has been looked for.
unfoldable pub insert_found : BTree → ℕ → List ℕ → ℕ × Bool → Exec (Status × BTree)
unfolding insert_entry put_value
insert_found t key value (i, true) = done (exists, t)
insert_found t key value (i, false) = insert_entry t i key value >>= λ t'. done (ok, t')

unfoldable pub finish_insert : ℕ → List ℕ → Status × BTree → Exec (Status × BTree)
unfolding search_key insert_found
finish_insert key value (ok, t) = search_key t key >>= insert_found t key value
finish_insert key value (s, t) = done (s, t)

-- `btree_insert_or_get` after the search. Values have bytes here, so its copy without a test is
-- that of `put_value`. The offset is what is written through `inserted_value`.
unfoldable pub get_found : BTree → ℕ → List ℕ → ℕ × Bool → Exec (Status × Option ℕ × BTree)
unfolding insert_entry put_value
get_found t key value (i, true) = done (exists, some (value_offset t i), t)
get_found t key value (i, false) =
    insert_entry t i key value >>= λ t'. done (not_found, some (value_offset t' i), t')

unfoldable pub finish_get : ℕ → List ℕ → Status × BTree → Exec (Status × Option ℕ × BTree)
unfolding search_key get_found
finish_get key value (ok, t) = search_key t key >>= get_found t key value
finish_get key value (s, t) = done (s, none, t)

-- `memcpy (found, value, btree->value_size)` of `btree_set_existing`.
unfoldable pub overwrite : BTree → List ℕ → Option ℕ → Exec (Status × BTree)
unfolding memcpy
overwrite t value none = done (not_found, t)
overwrite t value (some off) = elim t.buf [
  | none ↦ fault
  | some b ↦ memcpy b off value t.value_size >>= λ b'. done (ok, record t { buf = some b' })
]

unfoldable pub btree_set_existing : BTree → ℕ → List ℕ → Exec (Status × BTree)
unfolding btree_find overwrite
btree_set_existing t key value =
    if ltb 0 t.value_size then btree_find t key >>= overwrite t value else fault

module _ (a : Allocator) where
  -- The reallocation that both insertions start with.
  unfoldable pub make_room : BTree → Exec (Status × BTree)
  make_room t =
      if needs_realloc t then btree_realloc a t (mul32 t.capacity expand_factor) else done (ok, t)

  unfoldable pub btree_insert_new : BTree → ℕ → List ℕ → Exec (Status × BTree)
  unfolding make_room finish_insert
  btree_insert_new t key value = make_room t >>= finish_insert key value

  unfoldable pub btree_insert_or_get : BTree → ℕ → List ℕ → Exec (Status × Option ℕ × BTree)
  unfolding make_room finish_get
  btree_insert_or_get t key value =
      if ltb 0 t.value_size then make_room t >>= finish_get key value else fault
