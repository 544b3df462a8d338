-- ===== src/HashMap/Proof/Init.antt =====
-- A new map (`hashmap_init_with_options` of cstructures/src/hashmap.c).
use cstructures.Prelude.{
  ℕ, ◌+◌, ◌*◌, ◌%◌, ◌^◌, ◌≤◌, ◌<◌, ◌≡◌, inl, inr, refl, ap, Option, none, some, List, done, Returns,
  Returns->>=, arith, lt→ltb, Option-cases,
}
use cstructures.Prelude.Word.{word, mul-le, entry-le}
use cstructures.Buffer.{Block, Allocator, zeroed, clear_bytes-eq, bytes-zeroed, decode32}
use cstructures.HashMap.Struct.{
  HashMap, Status, exists, ok, oom, malloc_and_init_storage, hashmap_init_with_options,
  hashmap_init,
}
use cstructures.Hash.Defs.{hash32_jenkins_oaat}
use cstructures.Hash.Bounds.{hash32_jenkins_oaat-lt}
use cstructures.HashMap.Valid.{slot_of, slot_at, Sound, IsValid}

-- The outcome of the initialization: a valid map of the sizes asked for, with all slots unused; or
-- no storage, as the allocator refused.
abbrev pub Initialized : Allocator → ℕ → ℕ → ℕ → (List ℕ → ℕ) → Status × HashMap → Type 0
Initialized a ks vs t hash (ok, hm) =
    IsValid hm
    × ((hm.key_size ≡ ks) × (hm.value_size ≡ vs) × (hm.table_count ≡ t) × (hm.hash ≡ hash))
    × (hm.slots_used ≡ 0)
    × ((p : ℕ) → p < t → slot_at hm p ≡ 0)
Initialized a ks vs t hash (oom, hm) = (hm.storage ≡ none) × ((n : ℕ) × (a.malloc n ≡ none))
Initialized a ks vs t hash (exists, hm) = ⊥

-- A table without entries is sound.
pub empty-Sound :
    (t : ℕ) (hash : List ℕ → ℕ) (slot : ℕ → ℕ) (key : ℕ → List ℕ)
    → ((p : ℕ) → p < t → slot p ≡ 0)
    → Sound t hash slot key
empty-Sound t hash slot key free = record {
  hashed = λ p lt u. absurd (u.0 (free p lt));
  reached = λ p lt u. absurd (u.0 (free p lt));
  unique = λ p q lt lt' u u' e. absurd (u.0 (free p lt));
}

zeroed-slot : (cell : ℕ → ℕ) (t ks p : ℕ) → p < t → slot_of (zeroed cell 0 ((4 + ks) * t)) ks p ≡ 0
zeroed-slot cell t ks p lt = ap decode32 (
    bytes-zeroed cell 0 ((4 + ks) * t) (p * (4 + ks)) 4 (omega arith)
      (omega (arith, entry-le p t (4 + ks) lt)))

-- The storage: null, or zeroes in the slots and keys.
abbrev pub Allocated : Allocator → ℕ → ℕ → ℕ → Option Block → Type 0
Allocated a ks vs t none = (n : ℕ) × (a.malloc n ≡ none)
Allocated a ks vs t (some b) =
    (t * (4 + ks) + t * vs ≤ b.size) × ((p : ℕ) → p < t → slot_of b.cell ks p ≡ 0)

pub malloc_and_init_storage-Allocated :
    (a : Allocator) (ks vs t : ℕ)
    → ks < word
    → t * 3 < word
    → t * vs < word
    → Returns (malloc_and_init_storage a ks vs t) (Allocated a ks vs t)
unfolding malloc_and_init_storage
malloc_and_init_storage-Allocated a ks vs t narrow few bounded =
    let keys : t * 3 * ks ≤ word * ks = mul-le (t * 3) word ks (omega arith) in
    let whole : (4 + ks + vs) * t % 2 ^ 64 ≡ t * (4 + ks) + t * vs = omega arith in
    let part : (4 + ks) * t % 2 ^ 64 ≡ (4 + ks) * t = omega arith in
    elim (Option-cases (a.malloc (t * (4 + ks) + t * vs))) [
      | inl e ↦ rw (malloc_and_init_storage, whole, e) (_, e)
      | inr (b, e) ↦
          let size = a.malloc_size _ b e in
          rw
            (
              malloc_and_init_storage,
              whole,
              e,
              part,
              clear_bytes-eq b 0 ((4 + ks) * t) (omega (arith, size)),
            )
            (omega (arith, size), λ p lt. zeroed-slot b.cell t ks p lt)
    ]

-- `hashmap_init_with_options` with a key size and a table count above zero, whose sizes do not wrap,
-- does not fault: it gives a valid map in which every slot is unused, or the allocator refused.
pub hashmap_init_with_options-Initialized :
    (a : Allocator) (ks vs t : ℕ) (hash : List ℕ → ℕ)
    → 0 < ks
    → ks < word
    → 0 < t
    → t * 3 < word
    → t * vs < word
    → ((key : List ℕ) → hash key < word)
    → Returns (hashmap_init_with_options a ks vs t hash) (Initialized a ks vs t hash)
unfolding hashmap_init_with_options
hashmap_init_with_options-Initialized a ks vs t hash keyed narrow slots small bounded hashes =
    rw (lt→ltb 0 ks keyed, lt→ltb 0 t slots)
      (Returns->>= (malloc_and_init_storage a ks vs t) _ (Allocated a ks vs t)
        (Initialized a ks vs t hash)
        (malloc_and_init_storage-Allocated a ks vs t narrow small bounded) built)
  where
    built :
        (o : Option Block)
        → Allocated a ks vs t o
        → Returns
            (done (
              elim o [ none ↦ oom | some b ↦ ok ],
              record {
                table_count = t;
                key_size = ks;
                value_size = vs;
                slots_used = 0;
                hash = hash;
                storage = o;
              },
            ))
            (Initialized a ks vs t hash)
    built none h = (refl, h)
    built (some b) (fits, free) = (
      record {
        keyed = keyed;
        slots = slots;
        small = small;
        bounded = bounded;
        hashes = hashes;
        owns = fits;
        sound = empty-Sound t _ _ _ free;
      },
      (refl, refl, refl, refl),
      refl,
      free,
    )

-- `hashmap_init` with a key size above zero, whose sizes do not wrap, does not fault: it gives a
-- valid map of 128 slots, all unused, that hashes with `hash32_jenkins_oaat`, or the allocator
-- refused.
pub hashmap_init-Initialized :
    (a : Allocator) (ks vs : ℕ)
    → 0 < ks
    → ks < word
    → 128 * vs < word
    → Returns (hashmap_init a ks vs) (Initialized a ks vs 128 hash32_jenkins_oaat)
unfolding hashmap_init
hashmap_init-Initialized a ks vs keyed narrow bounded =
    hashmap_init_with_options-Initialized a ks vs 128 hash32_jenkins_oaat keyed narrow (omega arith)
      (omega arith) bounded hash32_jenkins_oaat-lt
