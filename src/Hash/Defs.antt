-- ===== src/Hash/Defs.antt =====
-- The hash functions on bytes and on pointers (cstructures/src/hash.c). A shift to the left is a
-- product that wraps at 32 bits, and a shift to the right a division.
use Prim.Native.Nat.{bit_xor}
use cstructures.Prelude.{ℕ, ◌/◌, ◌%◌, List, [], ◌∷◌, Exec, done, fault, ◌==◌, if◌then◌else◌}
use cstructures.Prelude.Word.{word, add32, mul32}

-- `hash += (hash << n)`, for the power of two of `n`.
abbrev pub add_shifted : ℕ → ℕ → ℕ
add_shifted hash power = add32 hash (mul32 hash power)

-- `hash ^= (hash >> n)`, for the power of two of `n`.
abbrev pub xor_shifted : ℕ → ℕ → ℕ
xor_shifted hash power = bit_xor hash (hash / power)

-- The loop, over the bytes that are left.
unfoldable pub mix_bytes : ℕ → List ℕ → ℕ
mix_bytes hash [] = hash
mix_bytes hash (byte ∷ rest) = mix_bytes (xor_shifted (add_shifted (add32 hash byte) 1024) 64) rest

-- The key's `len` bytes.
unfoldable pub hash32_jenkins_oaat : List ℕ → ℕ
unfolding mix_bytes
hash32_jenkins_oaat key = add_shifted (xor_shifted (add_shifted (mix_bytes 0 key) 8) 2) 32768

unfoldable pub hash32_combine : ℕ → ℕ → ℕ
hash32_combine lhs rhs = bit_xor lhs (add32 (add32 (add32 rhs 0x9e3779b9) (mul32 lhs 64)) (lhs / 4))

-- The pointer that `ptr` points at, of 64 bits; `len` has to be its size.
unfoldable pub hash32_ptr : ℕ → ℕ → Exec ℕ
unfolding hash32_combine
hash32_ptr pointer len =
    if len == 8 then done (hash32_combine (pointer % word) (pointer / word)) else fault

unfoldable pub hash32_aligned_ptr : ℕ → ℕ → Exec ℕ
hash32_aligned_ptr pointer len = if len == 8 then done (pointer / 8 % word) else fault
