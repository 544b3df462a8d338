-- ===== src/HashMap/Proof/Put.antt =====
-- The bytes of the table after the three copies of an insertion (cstructures/src/hashmap.c).
use cstructures.Prelude.{
  ℕ, ◌+◌, ◌*◌, ◌≤◌, ◌<◌, ◌≡◌, ◌≢◌, inl, inr, refl, ◌∙◌, ap, Option, none, some, List, arith, length,
}
use cstructures.Prelude.Word.{word, entry-le, entry_apart}
use cstructures.Buffer.{bytes, pasted, bytes-pasted, bytes-pasted_beside, decode32}
use cstructures.HashMap.Valid.{slot_of, key_of, value_of}
use cstructures.HashMap.Proof.Entry.{
  slot_put, slot_put-here, slot_put-slot, slot_put-key, slot_put-value,
}

-- The bytes of a value that is given.
abbrev pub value_put : (ℕ → ℕ) → ℕ → ℕ → Option (List ℕ) → ℕ → ℕ
value_put cell off vs none = cell
value_put cell off vs (some value) = pasted cell off value vs

-- The table after the three copies.
module _ (cell : ℕ → ℕ) (t ks vs p s : ℕ) (key : List ℕ) (value : Option (List ℕ)) where
  abbrev pub key_put : ℕ → ℕ
  key_put = pasted (slot_put cell ks p s) (p * (4 + ks) + 4) key ks

  abbrev pub all_put : ℕ → ℕ
  all_put = value_put key_put (t * (4 + ks) + p * vs) vs value

  -- What stands in the slots and keys is not touched by the value.
  below_values : (off n : ℕ) → off + n ≤ t * (4 + ks) → bytes all_put off n ≡ bytes key_put off n
  below_values off n le = go value
    where
      go :
          (v : Option (List ℕ))
          → bytes (value_put key_put (t * (4 + ks) + p * vs) vs v) off n ≡ bytes key_put off n
      go none = refl
      go (some x) =
          bytes-pasted_beside key_put (t * (4 + ks) + p * vs) vs off n x (inl (omega arith))

  pub put-here : p < t → s < word → slot_of all_put ks p ≡ s
  put-here lt small =
      ap decode32 (
        below_values (p * (4 + ks)) 4 (omega (arith, entry-le p t (4 + ks) lt))
        ∙ bytes-pasted_beside (slot_put cell ks p s) (p * (4 + ks) + 4) ks (p * (4 + ks)) 4 key
            (inl (omega arith)))
      ∙ slot_put-here cell ks p s small

  pub put-key_here : p < t → length key ≡ ks → key_of all_put ks p ≡ key
  put-key_here lt l =
      below_values (p * (4 + ks) + 4) ks (omega (arith, entry-le p t (4 + ks) lt))
      ∙ bytes-pasted (slot_put cell ks p s) (p * (4 + ks) + 4) ks key l

  -- Other entries: `off` and `n` lie in entry `q`.
  put-beside :
      (q off n : ℕ)
      → q < t
      → q ≢ p
      → q * (4 + ks) ≤ off
      → off + n ≤ q * (4 + ks) + (4 + ks)
      → bytes all_put off n ≡ bytes (slot_put cell ks p s) off n
  put-beside q off n lt ne le le' =
      below_values off n (omega (arith, entry-le q t (4 + ks) lt))
      ∙ bytes-pasted_beside (slot_put cell ks p s) (p * (4 + ks) + 4) ks off n key
          (elim (entry_apart q p (4 + ks) ne) [
            | inl h ↦ inl (omega (arith, h))
            | inr h ↦ inr (omega (arith, h))
          ])

  pub put-slot : (q : ℕ) → q < t → q ≢ p → slot_of all_put ks q ≡ slot_of cell ks q
  put-slot q lt ne =
      ap decode32 (put-beside q (q * (4 + ks)) 4 lt ne (omega arith) (omega arith))
      ∙ slot_put-slot cell ks p s q ne

  pub put-key : (q : ℕ) → q < t → q ≢ p → key_of all_put ks q ≡ key_of cell ks q
  put-key q lt ne =
      put-beside q (q * (4 + ks) + 4) ks lt ne (omega arith) (omega arith)
      ∙ slot_put-key cell ks p s q

  key_put-value : (q : ℕ) → p < t → value_of key_put t ks vs q ≡ value_of cell t ks vs q
  key_put-value q lt =
      bytes-pasted_beside (slot_put cell ks p s) (p * (4 + ks) + 4) ks (t * (4 + ks) + q * vs) vs
        key (inr (omega (arith, entry-le p t (4 + ks) lt)))
      ∙ slot_put-value cell ks p s t vs q lt

  pub put-value : (q : ℕ) → p < t → q ≢ p → value_of all_put t ks vs q ≡ value_of cell t ks vs q
  put-value q lt ne = go value ∙ key_put-value q lt
    where
      go :
          (v : Option (List ℕ))
          → value_of (value_put key_put (t * (4 + ks) + p * vs) vs v) t ks vs q
            ≡ value_of key_put t ks vs q
      go none = refl
      go (some x) =
          bytes-pasted_beside key_put (t * (4 + ks) + p * vs) vs (t * (4 + ks) + q * vs) vs x
            (elim (entry_apart q p vs ne) [
              | inl h ↦ inl (omega (arith, h))
              | inr h ↦ inr (omega (arith, h))
            ])

  pub put-value_here :
      (x : List ℕ) → value ≡ some x → length x ≡ vs → value_of all_put t ks vs p ≡ x
  put-value_here x e l = rw e (bytes-pasted key_put (t * (4 + ks) + p * vs) vs x l)
