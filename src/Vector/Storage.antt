-- ===== src/Vector/Storage.antt =====
-- Reallocation and the functions that change the capacity (cstructures/src/vector.c). A function
-- that frees the object returns the freed object first.
use cstructures.Prelude.{
  ℕ, ◌+◌, ◌*◌, Option, none, some, Exec, done, ◌>>=◌, ltb, ◌==◌, if◌then◌else◌,
}
use cstructures.Prelude.Word.{add32, sub32, mul32}
use cstructures.Buffer.{Block, memmove, Allocator}
use cstructures.Vector.Struct.{Vector, Status, success, out_of_memory, min_capacity}

-- `insertion_index` is none for VEC_INVALID_INDEX.
unfoldable pub open_gap : Vector → Block → Option ℕ → Exec Block
unfolding memmove
open_gap v b none = done b
open_gap v b (some i) =
    memmove b ((i + 1) * v.element_size) ((i + 0) * v.element_size)
      (mul32 (sub32 v.capacity i) v.element_size)

-- What `vector_resize` does after the reservation.
unfoldable pub finish_resize : ℕ → Status × Vector → Exec (Status × Vector)
finish_resize size (success, v) = done (success, record v { count = size })
finish_resize size (_, v) = done (out_of_memory, v)

-- `vector_compact` drops the status of the reallocation, and frees nothing itself then.
unfoldable pub keep_result : Status × Vector → Exec (Option Block × Vector)
keep_result (s, v) = done (none, v)

-- The clamp at the head of the first branch of `vector_realloc`.
abbrev pub initial_capacity : ℕ → ℕ
initial_capacity n = if n == 0 then min_capacity else n

module _ (a : Allocator) where
  unfoldable pub first_alloc : Vector → ℕ → Exec (Status × Vector)
  first_alloc v requested =
      let new_capacity = initial_capacity requested in
      elim (a.malloc (mul32 (add32 new_capacity 1) v.element_size)) [
        | none ↦ done (out_of_memory, v)
        | some b ↦ done (success, record v { buf = some b; capacity = new_capacity })
      ]

  unfoldable pub realloc_block : Vector → Block → Option ℕ → ℕ → Exec (Status × Vector)
  unfolding open_gap
  realloc_block v b insertion_index new_capacity =
      elim (a.realloc b (mul32 (add32 new_capacity 1) v.element_size)) [
        | none ↦ done (out_of_memory, v)
        | some new_data ↦ do
          shifted ← open_gap v new_data insertion_index
          done (success, record v { buf = some shifted; capacity = new_capacity })
      ]

  unfoldable pub vector_realloc : Vector → Option ℕ → ℕ → Exec (Status × Vector)
  unfolding first_alloc realloc_block
  vector_realloc v insertion_index new_capacity = elim v.buf [
    | none ↦ first_alloc v new_capacity
    | some b ↦ realloc_block v b insertion_index new_capacity
  ]

  unfoldable pub vector_reserve : Vector → ℕ → Exec (Status × Vector)
  vector_reserve v size =
      if ltb v.capacity size then vector_realloc v none size else done (success, v)

  unfoldable pub vector_resize : Vector → ℕ → Exec (Status × Vector)
  unfolding finish_resize
  vector_resize v size = vector_reserve v size >>= finish_resize size

  unfoldable pub vector_compact : Vector → Exec (Option Block × Vector)
  unfolding keep_result
  vector_compact v =
      if v.count == 0
      then done (v.buf, record v { buf = none; capacity = 0 })
      else vector_realloc v none v.count >>= keep_result

unfoldable pub vector_clear : Vector → Vector
vector_clear v = record v { count = 0 }

unfoldable pub vector_clear_compact : Vector → Option Block × Vector
vector_clear_compact v = (v.buf, record v { buf = none; capacity = 0; count = 0 })
