-- ===== src/Buffer/Laws.antt =====
-- When the memory functions succeed, and what a byte string is after a write beside it or over it.
use mathlib.Core.Path.{fun_ext}
use cstructures.Prelude.{
  some, ℕ, ◌+◌, ◌-◌, ◌≤◌, ◌<◌, ◌≡◌, ◌↔◌, ◌⊎◌, ap, ◌∙◌, true, List, [], ◌∷◌, done, fault, arith,
  length, get_or, tabulate, tabulate_ext, tabulate-get_or,
}
use cstructures.Prelude.Word.{word}
use cstructures.Buffer.Defs.{
  encode32, decode32, zeroed, clear_bytes, Allocator, Block, moved, memmove, copy_within, pasted,
  memcpy, bytes, read, same_bytes,
}

pub memmove-eq :
    (b : Block) (dst src n : ℕ)
    → dst + n ≤ b.size
    → src + n ≤ b.size
    → memmove b dst src n ≡ done (record b { cell = moved b.cell dst src n })
unfolding memmove
memmove-eq b dst src n p q = ground arith

pub copy_within-eq :
    (b : Block) (dst src n : ℕ)
    → dst + n ≤ b.size
    → src + n ≤ b.size
    → (dst + n ≤ src) ⊎ (src + n ≤ dst)
    → copy_within b dst src n ≡ done (record b { cell = moved b.cell dst src n })
unfolding copy_within
copy_within-eq b dst src n p q apart = ground (arith, memmove-eq b dst src n)

pub copy_within_outside :
    (b : Block) (dst src n : ℕ) → b.size < src + n → copy_within b dst src n ≡ fault
unfolding copy_within memmove
copy_within_outside b dst src n p = ground arith

pub memcpy-eq :
    (b : Block) (dst : ℕ) (from : List ℕ) (n : ℕ)
    → dst + n ≤ b.size
    → n ≤ length from
    → memcpy b dst from n ≡ done (record b { cell = pasted b.cell dst from n })
unfolding memcpy
memcpy-eq b dst from n p q = ground arith

pub read-eq : (b : Block) (off n : ℕ) → off + n ≤ b.size → read b off n ≡ done (bytes b.cell off n)
unfolding read
read-eq b off n p = ground arith

module _ (cell : ℕ → ℕ) (dst n off m : ℕ) where
  -- A string that was moved whole.
  pub bytes-moved :
      (src : ℕ)
      → dst ≤ off
      → off + m ≤ dst + n
      → bytes (moved cell dst src n) off m ≡ bytes cell (src + (off - dst)) m
  bytes-moved src p q = tabulate_ext m _ _ (λ k r. ground (arith, eq k r))
    where
      eq : (k : ℕ) → k < m → cell (src + (off + k - dst)) ≡ cell (src + (off - dst) + k)
      eq k r = ap cell (omega arith)

  -- A string beside the target of a move.
  pub bytes-moved_beside :
      (src : ℕ)
      → (off + m ≤ dst) ⊎ (dst + n ≤ off)
      → bytes (moved cell dst src n) off m ≡ bytes cell off m
  bytes-moved_beside src h = tabulate_ext m _ _ (λ k r. ground arith)

  pub bytes-pasted_beside :
      (from : List ℕ)
      → (off + m ≤ dst) ⊎ (dst + n ≤ off)
      → bytes (pasted cell dst from n) off m ≡ bytes cell off m
  bytes-pasted_beside from h = tabulate_ext m _ _ (λ k r. ground arith)

pub bytes-pasted :
    (cell : ℕ → ℕ) (dst n : ℕ) (from : List ℕ)
    → length from ≡ n
    → bytes (pasted cell dst from n) dst n ≡ from
bytes-pasted cell dst n from e =
    tabulate_ext n _ (λ k. get_or from k 0) (λ k r. ground (arith, eq k r))
    ∙ tabulate-get_or n from 0 e
  where
    eq : (k : ℕ) → k < n → get_or from (dst + k - dst) 0 ≡ get_or from k 0
    eq k r = ap (λ j. get_or from j 0) (omega arith)

-- A pasted byte is the source's.
pub pasted_at :
    (cell : ℕ → ℕ) (dst : ℕ) (from : List ℕ) (n i : ℕ)
    → i < n
    → pasted cell dst from n (dst + i) ≡ get_or from i 0
pasted_at cell dst from n i p = ground (arith, eq)
  where
    eq : get_or from (dst + i - dst) 0 ≡ get_or from i 0
    eq = ap (λ j. get_or from j 0) (omega arith)

pub same_bytes_iff : (xs ys : List ℕ) → (same_bytes xs ys ≡ true) ↔ (xs ≡ ys)
unfolding same_bytes
same_bytes_iff [] [] = ground arith
same_bytes_iff [] (y ∷ ys) = ground arith
same_bytes_iff (x ∷ xs) [] = ground arith
same_bytes_iff (x ∷ xs) (y ∷ ys) = ground (arith, same_bytes_iff xs ys)

-- A string that both sizes hold survives a reallocation.
pub bytes-realloc :
    (a : Allocator) (b b' : Block) (n off m : ℕ)
    → a.realloc b n ≡ some b'
    → off + m ≤ n
    → off + m ≤ b.size
    → bytes b'.cell off m ≡ bytes b.cell off m
bytes-realloc a b b' n off m e p q =
    tabulate_ext m _ _ (λ k r. a.realloc_keeps b n b' e (off + k) (omega arith) (omega arith))

pub pasted_nothing :
    (cell : ℕ → ℕ) (dst n : ℕ) (from : List ℕ) → n ≡ 0 → pasted cell dst from n ≡ cell
pasted_nothing cell dst n from e = fun_ext λ i. ground arith

pub decode32-encode32 : (k : ℕ) → k < word → decode32 (encode32 k) ≡ k
decode32-encode32 k h = omega arith

pub clear_bytes-eq :
    (b : Block) (dst n : ℕ)
    → dst + n ≤ b.size
    → clear_bytes b dst n ≡ done (record b { cell = zeroed b.cell dst n })
unfolding clear_bytes
clear_bytes-eq b dst n p = ground arith

pub bytes-zeroed :
    (cell : ℕ → ℕ) (dst n off m : ℕ)
    → dst ≤ off
    → off + m ≤ dst + n
    → bytes (zeroed cell dst n) off m ≡ tabulate m (λ k. 0)
bytes-zeroed cell dst n off m p q = tabulate_ext m _ _ (λ k r. ground arith)
