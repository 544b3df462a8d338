-- ===== src/String/Valid.antt =====
-- Which bytes a string's buffer holds, and what it has to satisfy between calls
-- (cstructures/src/string.c).
use cstructures.Prelude.{ℕ, ◌+◌, ◌*◌, ◌≤◌, ◌<◌, ◌≡◌, List, [], ◌∷◌, map}
use cstructures.Prelude.Word.{word}
use cstructures.Vector.Struct.{Vector}
use cstructures.Vector.Valid.{IsValid, elements}

-- A character as an element of the buffer.
abbrev pub char : ℕ → List ℕ
char c = c ∷ []

-- The buffer holds the characters, and its capacity is below a bound.
pub record Holds (v : Vector) (chars : List ℕ) (bound : ℕ) : Type 0 where
  pub valid : IsValid v
  pub single : v.element_size ≡ 1
  pub below : v.capacity ≤ bound
  pub chars_are : elements v ≡ map char chars

-- A bound for the capacity of a buffer that at most `n` characters are pushed to: no size of it wraps.
pub record Bounds (n bound : ℕ) : Type 0 where
  pub least : 32 ≤ bound
  pub double : n * 2 ≤ bound
  pub small : bound + 1 < word
