-- ===== src/HashMap/Valid.antt =====
-- What `struct cs_hashmap` has to satisfy between calls, and which value a map has under a key
-- (cstructures/src/hashmap.c).
use cstructures.Prelude.{
  ℕ, zero, suc, ◌+◌, ◌*◌, ◌%◌, ◌≤◌, ◌<◌, ◌≡◌, ◌≢◌, Option, none, some, List, [],
}
use cstructures.Prelude.Word.{word}
use cstructures.Buffer.{Block, bytes, decode32}
use cstructures.HashMap.Struct.{HashMap, slot_unused, slot_rip, hash_wrapper}

-- Slot, key and value `p` of an object, for a table of `t` entries.
abbrev pub slot_of : (ℕ → ℕ) → ℕ → ℕ → ℕ
slot_of cell ks p = decode32 (bytes cell (p * (4 + ks)) 4)

abbrev pub key_of : (ℕ → ℕ) → ℕ → ℕ → List ℕ
key_of cell ks p = bytes cell (p * (4 + ks) + 4) ks

abbrev pub value_of : (ℕ → ℕ) → ℕ → ℕ → ℕ → ℕ → List ℕ
value_of cell t ks vs p = bytes cell (t * (4 + ks) + p * vs) vs

abbrev pub slot_at : HashMap → ℕ → ℕ
slot_at hm p = elim hm.storage [ none ↦ 0 | some b ↦ slot_of b.cell hm.key_size p ]

abbrev pub key_at : HashMap → ℕ → List ℕ
key_at hm p = elim hm.storage [ none ↦ [] | some b ↦ key_of b.cell hm.key_size p ]

abbrev pub value_at : HashMap → ℕ → List ℕ
value_at hm p = elim hm.storage [
  | none ↦ []
  | some b ↦ value_of b.cell hm.table_count hm.key_size hm.value_size p
]

-- The position of round `n` of the probing of a table of `t` entries for a hash.
abbrev pub probe : ℕ → ℕ → ℕ → ℕ
probe t hash zero = hash % t
probe t hash (suc n) = (probe t hash n + suc n) % t

-- A slot that holds a hash.
abbrev pub InUse : ℕ → Type 0
InUse slot = (slot ≢ slot_unused) × (slot ≢ slot_rip)

-- The probing for the hash comes to `p`, and meets no unused slot before.
abbrev pub Reaches : ℕ → (ℕ → ℕ) → ℕ → ℕ → Type 0
Reaches t slot hash p =
    (n : ℕ) × (probe t hash n ≡ p) × ((m : ℕ) → m < n → slot (probe t hash m) ≢ slot_unused)

-- A table of hashes and keys: a slot in use has the hash of its key, is reached from it, and is the
-- only one with that key.
pub record Sound (t : ℕ) (hash : List ℕ → ℕ) (slot : ℕ → ℕ) (key : ℕ → List ℕ) : Type 0 where
  pub hashed : (p : ℕ) → p < t → InUse (slot p) → slot p ≡ hash (key p)
  pub reached : (p : ℕ) → p < t → InUse (slot p) → Reaches t slot (slot p) p
  pub unique : (p q : ℕ) → p < t → q < t → InUse (slot p) → InUse (slot q) → key p ≡ key q → p ≡ q

-- The object has room for the slots, keys and values of the table.
abbrev pub Owns : Option Block → ℕ → ℕ → ℕ → Type 0
Owns none t ks vs = ⊥
Owns (some b) t ks vs = t * (4 + ks) + t * vs ≤ b.size

-- No position in a probing sequence, and no offset of a value, wraps.
pub record IsValid (hm : HashMap) : Type 0 where
  pub keyed : 0 < hm.key_size
  pub slots : 0 < hm.table_count
  pub small : hm.table_count * 3 < word
  pub bounded : hm.table_count * hm.value_size < word
  pub hashes : (key : List ℕ) → hm.hash key < word
  pub owns : Owns hm.storage hm.table_count hm.key_size hm.value_size
  pub sound : Sound hm.table_count (hash_wrapper hm) (slot_at hm) (key_at hm)

-- The map has the key, at `p`.
abbrev pub Has : HashMap → List ℕ → ℕ → Type 0
Has hm key p = (p < hm.table_count) × InUse (slot_at hm p) × (key_at hm p ≡ key)

-- The probing for the key meets an unused slot.
abbrev pub Stops : HashMap → List ℕ → Type 0
Stops hm key = (n : ℕ) × (slot_at hm (probe hm.table_count (hash_wrapper hm key) n) ≡ slot_unused)
