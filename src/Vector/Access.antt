-- ===== src/Vector/Access.antt =====
-- Reading (cstructures/src/vector.c).
use cstructures.Prelude.{
  ℕ, zero, suc, ◌+◌, ◌-◌, ◌*◌, Option, none, some, List, Exec, done, fault, ◌>>=◌, ltb, ◌==◌,
  if◌then◌else◌,
}
use cstructures.Prelude.Word.{mul32}
use cstructures.Buffer.{read, same_bytes}
use cstructures.Vector.Struct.{Vector}

unfoldable pub vector_back : Vector → Option ℕ
vector_back v = if v.count == 0 then none else some (mul32 v.element_size (v.count - 1))

unfoldable pub vector_get_element : Vector → ℕ → Exec ℕ
vector_get_element v index = if ltb index v.count then done (index * v.element_size) else fault

-- The `element_size` bytes that a pointer into the object points at.
unfoldable pub element_at : Vector → ℕ → Exec (List ℕ)
unfolding read
element_at v off = elim v.buf [ none ↦ fault | some b ↦ read b off v.element_size ]

-- The loop, with the rounds that are left: `i` runs up to the count.
unfoldable pub find_from : Vector → List ℕ → ℕ → ℕ → Exec ℕ
unfolding vector_get_element element_at same_bytes
find_from v element zero i = done v.count
find_from v element (suc rounds) i =
    let rest = find_from v element rounds (i + 1) in
    do
      off ← vector_get_element v i
      current_element ← element_at v off
      if same_bytes current_element element then done i else rest

unfoldable pub vector_find_element : Vector → List ℕ → Exec ℕ
unfolding find_from
vector_find_element v element = find_from v element v.count 0
