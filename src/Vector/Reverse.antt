-- ===== src/Vector/Reverse.antt =====
-- Reversal in place, through the scratch element behind the capacity (cstructures/src/vector.c).
use cstructures.Prelude.{
  ℕ, zero, suc, ◌+◌, ◌-◌, true, false, Option, none, some, Exec, done, fault, ◌>>=◌, ltb,
}
use cstructures.Prelude.Word.{word, sub32, mul32}
use cstructures.Buffer.{Block, copy_within}
use cstructures.Vector.Struct.{Vector}

-- One round: the elements at `begin` and `end` change places through `tmp`.
unfoldable pub swap_elements : Block → ℕ → ℕ → ℕ → ℕ → Exec Block
unfolding copy_within
swap_elements b begin end tmp n = do
  b₁ ← copy_within b tmp begin n
  b₂ ← copy_within b₁ begin end n
  copy_within b₂ end tmp n

-- The loop on fuel; to run out of it counts as a fault.
unfoldable pub reverse_loop : ℕ → Block → ℕ → ℕ → ℕ → ℕ → Exec Block
unfolding swap_elements
reverse_loop zero b begin end tmp n = fault
reverse_loop (suc fuel) b begin end tmp n = elim (ltb begin end) [
  | false ↦ done b
  | true ↦
      swap_elements b begin end tmp n >>= λ b'. reverse_loop fuel b' (begin + n) (end - n) tmp n
]

-- What a null pointer points to: no byte can be read or written.
abbrev pub no_bytes : Block
no_bytes = record { size = 0; cell = λ i. 0 }

-- What `vector->data` points to.
abbrev pub pointed : Option Block → Block
pointed none = no_bytes
pointed (some b) = b

-- `begin` is the start of the data, so that pointers are offsets.
abbrev pub end_offset : Vector → ℕ
end_offset v = mul32 (sub32 v.count 1) v.element_size

abbrev pub scratch_offset : Vector → ℕ
scratch_offset v = mul32 v.capacity v.element_size

-- `begin` goes up and `end` down by an element in each round, and `end` starts below 2 ^ 32, so that
-- 2 ^ 32 rounds are more than there can be if an element has a byte, whatever the count is. A null
-- pointer stays null.
unfoldable pub vector_reverse : Vector → Exec Vector
unfolding reverse_loop
vector_reverse v =
    reverse_loop word (pointed v.buf) 0 (end_offset v) (scratch_offset v) v.element_size >>= λ b.
    done (record v { buf = elim v.buf [ none ↦ none | some old ↦ some b ] })
