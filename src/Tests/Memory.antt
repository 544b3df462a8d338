-- ===== src/Tests/Memory.antt =====
-- Concrete objects and allocators.
use cstructures.Prelude.{ℕ, ◌≡◌, sym, ap, none, some, List, get_or}
use cstructures.Buffer.{Block, Allocator}

-- An object of `n` bytes that starts with the list.
abbrev pub object : ℕ → List ℕ → Block
object n xs = record { size = n; cell = λ i. get_or xs i 0 }

abbrev pub resized : (ℕ → ℕ) → ℕ → Block
resized cell n = record { size = n; cell = cell }

pub resized_size : (cell : ℕ → ℕ) (n : ℕ) (b : Block) → some (resized cell n) ≡ some b → b.size ≡ n
resized_size cell n b e = let same : resized cell n ≡ b = cc in ap (λ x. x.size) (sym same)

pub resized_cell :
    (cell : ℕ → ℕ) (n : ℕ) (b : Block)
    → some (resized cell n) ≡ some b
    → (i : ℕ) → b.cell i ≡ cell i
resized_cell cell n b e i = let same : resized cell n ≡ b = cc in ap (λ x. x.cell i) (sym same)

-- Every request is granted.
abbrev pub generous : Allocator
generous = record {
  malloc = λ n. some (resized (λ i. 170) n);
  realloc = λ b n. some (resized b.cell n);
  malloc_size = λ n b e. resized_size _ n b e;
  realloc_size = λ b n b' e. resized_size b.cell n b' e;
  realloc_keeps = λ b n b' e i p q. resized_cell b.cell n b' e i;
}

pub none_size : (n : ℕ) (b : Block) → none ≡ some b → b.size ≡ n
none_size n b e = cc

pub none_cell : (cell : ℕ → ℕ) (b : Block) → none ≡ some b → (i : ℕ) → b.cell i ≡ cell i
none_cell cell b e i = cc

-- Every request is refused.
abbrev pub refusing : Allocator
refusing = record {
  malloc = λ n. none;
  realloc = λ b n. none;
  malloc_size = λ n b e. none_size n b e;
  realloc_size = λ b n b' e. none_size n b' e;
  realloc_keeps = λ b n b' e i p q. none_cell b.cell b' e i;
}
