-- ===== src/Vector/Insert.antt =====
-- Insertion at the end and in the middle (cstructures/src/vector.c). A pointer that a function
-- returns is an offset into the object, and null is none.
use cstructures.Prelude.{
  ℕ, ◌+◌, ◌*◌, ◌%◌, Option, none, some, List, Exec, done, fault, ◌>>=◌, ltb, leb, ◌==◌,
  if◌then◌else◌,
}
use cstructures.Prelude.Word.{word, add32, sub32, mul32}
use cstructures.Buffer.{read, memmove, memcpy, Allocator}
use cstructures.Vector.Struct.{
  Vector, Status, success, out_of_memory, size_differs, expand_factor, needs_realloc,
}
use cstructures.Vector.Storage.{vector_realloc}

-- `memcpy(data + off, element, vector->element_size)`
unfoldable pub store : Vector → ℕ → List ℕ → Exec Vector
unfolding memcpy
store v off element = elim v.buf [
  | none ↦ fault
  | some b ↦ memcpy b off element v.element_size >>= λ b'. done (record v { buf = some b' })
]

-- What `vector_emplace` does after the reallocation.
unfoldable pub finish_emplace : Status × Vector → Exec (Option ℕ × Vector)
finish_emplace (success, v) =
    done (some (mul32 v.element_size v.count), record v { count = add32 v.count 1 })
finish_emplace (_, v) = done (none, v)

-- What `vector_push` and `vector_insert` do with the emplaced element.
unfoldable pub finish_insert : List ℕ → Option ℕ × Vector → Exec (Status × Vector)
unfolding store
finish_insert element (none, v) = done (out_of_memory, v)
finish_insert element (some off, v) = store v off element >>= λ v'. done (success, v')

-- The shift of `vector_insert_emplace` where no reallocation is needed.
unfoldable pub shift_up : Vector → ℕ → Exec (Status × Vector)
unfolding memmove
shift_up v index = elim v.buf [
  | none ↦ fault
  | some b ↦ do
    let total_size = mul32 v.count v.element_size
    let offset = v.element_size * index
    b' ← memmove b (offset + v.element_size) offset (sub32 total_size (offset % word))
    done (success, record v { buf = some b' })
]

-- What `vector_insert_emplace` does when there is room.
unfoldable pub finish_insert_emplace : ℕ → Status × Vector → Exec (Option ℕ × Vector)
finish_insert_emplace index (success, v) =
    done (some (index * v.element_size), record v { count = add32 v.count 1 })
finish_insert_emplace index (_, v) = done (none, v)

-- The copy at the end of `vector_push_vector`. A null source or target is a fault, also for
-- no bytes at all: C leaves `memcpy` with a null pointer undefined.
unfoldable pub append_source : Vector → Status × Vector → Exec (Status × Vector)
unfolding read memcpy
append_source source (success, v) = elim source.buf [
  | none ↦ fault
  | some from ↦ elim v.buf [
    | none ↦ fault
    | some b ↦ do
      let n = mul32 source.count source.element_size
      copied ← read from 0 n
      b' ← memcpy b (mul32 v.count v.element_size) copied n
      done (success, record v { buf = some b'; count = add32 v.count source.count })
  ]
]
append_source source (_, v) = done (out_of_memory, v)

module _ (a : Allocator) where
  unfoldable pub vector_emplace : Vector → Exec (Option ℕ × Vector)
  unfolding finish_emplace
  vector_emplace v =
      (if needs_realloc v
        then vector_realloc a v none (mul32 v.count expand_factor)
        else done (success, v))
      >>= finish_emplace

  unfoldable pub vector_push : Vector → List ℕ → Exec (Status × Vector)
  unfolding finish_insert
  vector_push v element = vector_emplace v >>= finish_insert element

  -- The source is another vector than the target.
  unfoldable pub vector_push_vector : Vector → Vector → Exec (Status × Vector)
  unfolding append_source
  vector_push_vector v source =
      if v.element_size == source.element_size
      then ((if ltb v.capacity (add32 v.count source.count)
            then vector_realloc a v none (add32 v.count source.count)
            else done (success, v))
          >>= append_source source)
      else done (size_differs, v)

  -- The index is an `intptr_t` that is not negative; the assertion bounds it from above.
  unfoldable pub vector_insert_emplace : Vector → ℕ → Exec (Option ℕ × Vector)
  unfolding shift_up finish_insert_emplace
  vector_insert_emplace v index =
      if leb index v.count
      then ((if needs_realloc v
            then vector_realloc a v (some index) (mul32 v.count expand_factor)
            else shift_up v index)
          >>= finish_insert_emplace index)
      else fault

  unfoldable pub vector_insert : Vector → ℕ → List ℕ → Exec (Status × Vector)
  unfolding finish_insert
  vector_insert v index element = vector_insert_emplace v index >>= finish_insert element
