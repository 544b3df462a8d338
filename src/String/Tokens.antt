-- ===== src/String/Tokens.antt =====
-- Splitting a string (`cs_stringok` of cstructures/src/string.c).
use cstructures.Prelude.{
  ℕ, zero, suc, ◌+◌, Bool, true, false, Option, none, some, [], ◌∷◌, Exec, done, fault, ◌>>=◌, ◌==◌,
  if◌then◌else◌,
}
use cstructures.Buffer.{Block, read, memcpy}
use cstructures.String.Struct.{CsString}

-- `*p` for a byte of the buffer.
unfoldable pub char_at : Block → ℕ → Exec ℕ
unfolding read
char_at b off = read b off 1 >>= λ byte. elim byte [ [] ↦ fault | c ∷ rest ↦ done c ]

-- `strchr`: the first place from `off` on with the character, or none where the terminator comes first.
-- A string without a terminator ends in a fault, as it is read beyond the object; the fuel is a round
-- for every byte of the object and one more.
unfoldable pub strchr_from : ℕ → Block → ℕ → ℕ → Exec (Option ℕ)
unfolding char_at
strchr_from zero b off delimiter = fault
strchr_from (suc fuel) b off delimiter = char_at b off >>= λ c. elim (c == delimiter) [
  | true ↦ done (some off)
  | false ↦ elim (c == 0) [ true ↦ done none | false ↦ strchr_from fuel b (off + 1) delimiter ]
]

unfoldable pub strchr : Block → ℕ → ℕ → Exec (Option ℕ)
unfolding strchr_from
strchr b off delimiter = strchr_from (suc b.size) b off delimiter

-- `Empty tokens`: null, where the token starts with the terminator.
unfoldable pub nonempty : Block → ℕ → Exec (Option ℕ)
unfolding char_at
nonempty b begin = char_at b begin >>= λ c. done (if c == 0 then none else some begin)

-- The call once there is a token to come: the pointer to it, the new `*saveptr`, and the buffer.
-- Pointers are offsets into the buffer, and `*saveptr` is the offset after the one it points at: it
-- starts one place before the buffer.
unfoldable pub next_token : Block → ℕ → ℕ → Option ℕ → Exec (Option ℕ × (Option ℕ × Block))
unfolding memcpy nonempty
next_token b begin delimiter none = nonempty b begin >>= λ p. done (p, (none, b))
next_token b begin delimiter (some end_ptr) = do
  b' ← memcpy b end_ptr (0 ∷ []) 1
  p ← nonempty b' begin
  done (p, (some (end_ptr + 1), b'))

-- `first` says that the string is passed in, which sets `*saveptr` before its first byte. Otherwise
-- `*saveptr` points into the same string, which has not been changed in between.
unfoldable pub cs_stringok :
    Bool → ℕ → CsString → Option ℕ → Exec (Option ℕ × (Option ℕ × CsString))
unfolding strchr next_token
cs_stringok first delimiter str saveptr = elim (if first then some 0 else saveptr) [
  | none ↦ done (none, (none, str))
  | some begin ↦ elim str.buf.buf [
    | none ↦ fault
    | some b ↦ do
      end_ptr ← strchr b begin delimiter
      r ← next_token b begin delimiter end_ptr
      done (r.0, (r.1.0, record { buf = record (str.buf) { buf = some r.1.1 } }))
  ]
]
