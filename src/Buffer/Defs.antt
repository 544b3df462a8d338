-- ===== src/Buffer/Defs.antt =====
-- An object has a size in bytes and a value for each byte; an access that leaves it is a fault.
use cstructures.Prelude.{
  ℕ, ◌+◌, ◌-◌, ◌*◌, ◌/◌, ◌%◌, ◌<◌, ◌≡◌, Bool, true, false, ◌&&◌, ◌||◌, Option, some, List, [], ◌∷◌,
  Exec, done, fault, ltb, leb, ◌==◌, if◌then◌else◌, length, get_or, tabulate,
}

pub record Block : Type 0 where
  pub size : ℕ
  pub cell : ℕ → ℕ

-- `memmove(p + dst, p + src, n)` within one object: the source is read before it is written.
abbrev pub moved : (ℕ → ℕ) → ℕ → ℕ → ℕ → ℕ → ℕ
moved cell dst src n i = if leb dst i && ltb i (dst + n) then cell (src + (i - dst)) else cell i

unfoldable pub memmove : Block → ℕ → ℕ → ℕ → Exec Block
memmove b dst src n =
    if leb (dst + n) b.size && leb (src + n) b.size
    then done (record b { cell = moved b.cell dst src n })
    else fault

-- `memcpy(p + dst, from, n)` out of another object, whose bytes are the list.
abbrev pub pasted : (ℕ → ℕ) → ℕ → List ℕ → ℕ → ℕ → ℕ
pasted cell dst from n i = if leb dst i && ltb i (dst + n) then get_or from (i - dst) 0 else cell i

unfoldable pub memcpy : Block → ℕ → List ℕ → ℕ → Exec Block
memcpy b dst from n =
    if leb (dst + n) b.size && leb n (length from)
    then done (record b { cell = pasted b.cell dst from n })
    else fault

-- `memcpy(p + dst, p + src, n)` within one object: C asks that the two places do not overlap.
unfoldable pub copy_within : Block → ℕ → ℕ → ℕ → Exec Block
unfolding memmove
copy_within b dst src n =
    if leb (dst + n) src || leb (src + n) dst then memmove b dst src n else fault

-- The `n` bytes at `off`.
abbrev pub bytes : (ℕ → ℕ) → ℕ → ℕ → List ℕ
bytes cell off n = tabulate n (λ k. cell (off + k))

unfoldable pub read : Block → ℕ → ℕ → Exec (List ℕ)
read b off n = if leb (off + n) b.size then done (bytes b.cell off n) else fault

-- `memcmp(…) == 0` on two byte strings of one length.
unfoldable pub same_bytes : List ℕ → List ℕ → Bool
same_bytes [] [] = true
same_bytes [] (y ∷ ys) = false
same_bytes (x ∷ xs) [] = false
same_bytes (x ∷ xs) (y ∷ ys) = x == y && same_bytes xs ys

-- The bytes of a `uint32_t` in memory, lowest first, and back.
abbrev pub encode32 : ℕ → List ℕ
encode32 k = k % 256 ∷ k / 256 % 256 ∷ k / 65536 % 256 ∷ k / 16777216 % 256 ∷ []

abbrev pub decode32 : List ℕ → ℕ
decode32 (a ∷ b ∷ c ∷ d ∷ rest) = a + 256 * b + 65536 * c + 16777216 * d
decode32 _ = 0

-- `memset(p + dst, 0, n)`.
abbrev pub zeroed : (ℕ → ℕ) → ℕ → ℕ → ℕ → ℕ
zeroed cell dst n i = if leb dst i && ltb i (dst + n) then 0 else cell i

unfoldable pub clear_bytes : Block → ℕ → ℕ → Exec Block
clear_bytes b dst n =
    if leb (dst + n) b.size then done (record b { cell = zeroed b.cell dst n }) else fault

-- `malloc` and `realloc` as the C standard describes them: null, or an object of the size asked for;
-- a reallocated object keeps its bytes up to the smaller size. New bytes have any value.
pub record Allocator : Type 0 where
  pub malloc : ℕ → Option Block
  pub realloc : Block → ℕ → Option Block
  pub malloc_size : (n : ℕ) (b : Block) → malloc n ≡ some b → b.size ≡ n
  pub realloc_size : (b : Block) (n : ℕ) (b' : Block) → realloc b n ≡ some b' → b'.size ≡ n
  pub realloc_keeps :
      (b : Block) (n : ℕ) (b' : Block)
      → realloc b n ≡ some b'
      → (i : ℕ) → i < n
      → i < b.size
      → b'.cell i ≡ b.cell i
