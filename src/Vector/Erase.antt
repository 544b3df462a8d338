-- ===== src/Vector/Erase.antt =====
-- Removal (cstructures/src/vector.c).
use cstructures.Prelude.{
  ℕ, ◌+◌, ◌-◌, ◌*◌, ◌%◌, Option, none, some, Exec, done, fault, ◌>>=◌, ltb, leb, ◌==◌,
  if◌then◌else◌,
}
use cstructures.Prelude.Word.{word, sub32, mul32}
use cstructures.Buffer.{memmove}
use cstructures.Vector.Struct.{Vector}

unfoldable pub vector_pop : Vector → Option ℕ × Vector
vector_pop v =
    if v.count == 0
    then (none, v)
    else (some (mul32 v.element_size (v.count - 1)), record v { count = v.count - 1 })

-- `memmove(data + to, data + from, n)`, then `--vector->count`
unfoldable pub close_gap : Vector → ℕ → ℕ → ℕ → Exec Vector
unfolding memmove
close_gap v to from n = elim v.buf [
  | none ↦ fault
  | some b ↦
      memmove b to from n >>= λ b'. done (record v { buf = some b'; count = sub32 v.count 1 })
]

unfoldable pub vector_erase_index : Vector → ℕ → Exec Vector
unfolding vector_pop
vector_erase_index v index =
    if ltb index v.count
    then (if index == sub32 v.count 1
        then done (vector_pop v).1
        else (let offset = v.element_size * index in
            let total_size = mul32 v.element_size v.count in
            close_gap v offset (offset + v.element_size)
              (sub32 (sub32 total_size (offset % word)) v.element_size)))
    else fault

-- The element is an offset into the object.
unfoldable pub vector_erase_element : Vector → ℕ → Exec Vector
vector_erase_element v element =
    let last_element = mul32 (sub32 v.count 1) v.element_size in
    if leb element last_element
    then (if element == last_element
        then done (record v { count = sub32 v.count 1 })
        else close_gap v element (element + v.element_size) ((last_element - element) % word))
    else fault
