-- ===== src/BTree/Proof/Update.antt =====
-- The insertion that leaves a key that exists alone, and the update of one (`btree_insert_or_get`
-- and `btree_set_existing` of cstructures/src/btree.c).
use native.Mathlib.Decide.{ℕ_discrete}
use cstructures.Buffer.{decode32, Block, Allocator, memcpy-eq, bytes-pasted, bytes-pasted_beside}
use cstructures.Prelude.{
  ℕ, ◌+◌, ◌*◌, ◌<◌, ◌≡◌, ◌≢◌, refl, sym, ◌∙◌, ap, inl, inr, Option, none, some, List, done, Returns,
  Returns_mono, Returns->>=, ◌>>=◌, arith, lt→ltb, if◌then◌else◌, ◌==◌, eq→==, ne→==, Bool, true,
  false, length,
}
use cstructures.Prelude.Word.{word, entry-le, entry_apart}
use cstructures.BTree.Struct.{BTree, Status, not_found, exists, ok, oom, value_offset}
use cstructures.BTree.Search.{found_value, search_key}
use cstructures.BTree.Insert.{
  insert_entry, get_found, finish_get, overwrite, btree_set_existing, make_room,
  btree_insert_or_get,
}
use cstructures.BTree.Valid.{
  IsValid, key_at, value_at, entry, entries, lookup, OrUnchanged, value_offset-eq,
}
use cstructures.BTree.Proof.Read.{Searched, search_key-Searched}
use cstructures.BTree.Proof.Move.{entries-Kept}
use cstructures.BTree.Proof.Shift.{Placed}
use cstructures.BTree.Proof.Find.{Searched-found, Searched-missing, read_value-eq, Points}
use cstructures.BTree.Proof.Lookup.{lookup-tabulate_at, lookup-tabulate_beside}
use cstructures.BTree.Proof.Insert.{
  CanDouble, FullAndRefused, lookup-Placed, Searched-Placed, Room, make_room-Room,
}

-- The outcome of `btree_insert_or_get`: a pointer to the value that the key, which exists, leads to,
-- with the entries as they were; or the map updated at a key that it did not have, and a pointer to
-- the new value; or nothing changed, for the reason `Why`.
abbrev pub Gets : BTree → Type 0 → ℕ → List ℕ → Status × Option ℕ × BTree → Type 0
Gets t Why key value (exists, p, u) =
    IsValid u × (entries u ≡ entries t) × (p ≢ none) × Points u (lookup key (entries t)) p
Gets t Why key value (not_found, p, u) =
    IsValid u
    × (lookup key (entries t) ≡ none)
    × (p ≢ none)
    × Points u (some value) p
    × ((j : ℕ) → lookup j (entries u) ≡ (if key == j then some value else lookup j (entries t)))
Gets t Why key value (oom, p, u) = (u ≡ t) × (p ≡ none) × Why
Gets t Why key value (ok, p, u) = ⊥

get_found-Gets :
    (t u : BTree) (Why : Type 0) (key : ℕ) (value : List ℕ) (r : ℕ × Bool)
    → Room t u
    → key < word
    → length value ≡ t.value_size
    → Searched u key r
    → Returns (get_found u key value r) (Gets t Why key value)
unfolding get_found
get_found-Gets t u Why key value (i, true) (k, free) small l s = (
  k.valid,
  entries-Kept k,
  λ e. cc,
  (
    value_at u i,
    sym (ap (lookup key) (entries-Kept k)) ∙ Searched-found u key i s,
    read_value-eq u i k.valid (omega (arith, s.found refl)),
  ),
)
get_found-Gets t u Why key value (i, false) (k, free) small l s =
    let absent = Searched-missing u key i s in
    let old = entries-Kept k in
    Returns->>= (insert_entry u i key value) _ (Placed u i key value) (Gets t Why key value)
      (Searched-Placed u key i value k.valid free small (l ∙ sym k.value_size) s)
      (λ w p. (
        p.valid,
        sym (ap (lookup key) old) ∙ absent,
        (λ e. cc),
        (
          value,
          refl,
          read_value-eq w i p.valid (omega (arith, s.bound.within, p.count, p.valid.room))
              ∙ ap done (ap (λ e. e.1) p.here),
        ),
        λ j.
            lookup-Placed s.bound.within p absent j
            ∙ ap (λ e. if key == j then some value else lookup j e) old,
      ))

finish_get-Gets :
    (t : BTree) (Why : Type 0) (key : ℕ) (value : List ℕ) (r : Status × BTree)
    → key < word
    → length value ≡ t.value_size
    → OrUnchanged t Why (Room t) r
    → Returns (finish_get key value r) (Gets t Why key value)
unfolding finish_get
finish_get-Gets t Why key value (ok, u) small l room =
    Returns->>= (search_key u key) _ (Searched u key) (Gets t Why key value)
      (search_key-Searched u key room.0.valid)
      (λ r s. get_found-Gets t u Why key value r room small l s)
finish_get-Gets t Why key value (oom, u) small l h = (h.0, refl, h.1)
finish_get-Gets t Why key value (exists, u) small l h = absurd h
finish_get-Gets t Why key value (not_found, u) small l h = absurd h

-- `btree_insert_or_get` of a valid tree with values, a key and a value of its size, where the sizes
-- of a full tree can be doubled without wrapping, does not fault. It says that the key exists and
-- points to its value, with the entries as they were; or it says that it is not found, inserts it
-- and points to the value given; or the tree is full, the allocator refused a request, and nothing
-- has changed.
pub btree_insert_or_get-Gets :
    (a : Allocator) (t : BTree) (key : ℕ) (value : List ℕ)
    → IsValid t
    → 0 < t.value_size
    → CanDouble t
    → key < word
    → length value ≡ t.value_size
    → Returns (btree_insert_or_get a t key value) (Gets t (FullAndRefused a t) key value)
unfolding btree_insert_or_get
btree_insert_or_get-Gets a t key value valid pos fits small l = rw (lt→ltb 0 t.value_size pos) (
    Returns->>= (make_room a t) (finish_get key value) _ _ (make_room-Room a t valid fits)
      (λ r h. finish_get-Gets t (FullAndRefused a t) key value r small l h))

-- `u` is `t` with the value of entry `i` overwritten.
record Changed (t : BTree) (i : ℕ) (value : List ℕ) (u : BTree) : Type 0 where
  valid : IsValid u
  count : u.count ≡ t.count
  keys : (k : ℕ) → k < t.count → key_at u k ≡ key_at t k
  here : value_at u i ≡ value
  others : (k : ℕ) → k ≢ i → value_at u k ≡ value_at t k

overwrite-Changed :
    (o : Option Block) (m c vs i : ℕ) (value : List ℕ)
    → let t : BTree = record { buf = o; count = m; capacity = c; value_size = vs } in
      IsValid t
      → i < m
      → length value ≡ vs
      → Returns (overwrite t value (some (value_offset t i))) (OrUnchanged t ⊥ (Changed t i value))
unfolding overwrite
overwrite-Changed none m c vs i value valid lt l = absurd (omega (arith, valid.room, valid.owns))
overwrite-Changed (some b) m c vs i value valid lt l =
    let t : BTree = record { buf = some b; count = m; capacity = c; value_size = vs } in
    let off : ℕ = c * 4 + i * vs in
    let p = entry-le i c vs (omega (arith, valid.room)) in
    let keys = λ (k : ℕ) (q : k < m).
      ap decode32
        (bytes-pasted_beside b.cell off vs (k * 4) 4 value (inl (omega (arith, valid.room)))) in
    rw
      (
        value_offset-eq t i valid.bounded (omega (arith, valid.room)),
        memcpy-eq b off value vs (omega (arith, valid.owns, p)) (omega arith),
      )
      (record {
        valid = record {
          room = valid.room;
          small = valid.small;
          bounded = valid.bounded;
          owns = valid.owns;
          sorted = λ j k q r. omega (arith, keys j (omega arith), keys k r, valid.sorted j k q r);
        };
        count = refl;
        keys = keys;
        here = bytes-pasted b.cell off vs value l;
        others = λ k ne.
            bytes-pasted_beside b.cell off vs (c * 4 + k * vs) vs value
              (elim (entry_apart k i vs ne) [
                | inl h ↦ inl (omega (arith, h))
                | inr h ↦ inr (omega (arith, h))
              ]);
      })

lookup-Changed :
    {t u : BTree} {i : ℕ} {value : List ℕ} (key : ℕ)
    → Searched t key (i, true)
    → Changed t i value u
    → (j : ℕ) → lookup j (entries u) ≡ (if key == j then some value else lookup j (entries t))
lookup-Changed {t} {u} {i} {value} key s c j =
    let at = s.found refl in
    elim (ℕ_discrete key j) [
      | yes e ↦ rw (eq→== key j e) (
          lookup-tabulate_at u.count (entry u) j i (omega (arith, c.count))
            (c.keys i at.0 ∙ (at.1 ∙ e))
            (λ k p q. omega (arith, c.keys k (omega arith), s.bound.below k p))
          ∙ ap some c.here)
      | no ne ↦
          rw (ne→== key j ne, c.count)
            (lookup-tabulate_beside t.count (entry u) (entry t) key j (λ e. ne (sym e)) c.keys
              (λ k p q. c.others k (λ e. q (ap (key_at t) e ∙ at.1))))
    ]

-- The outcome of an update of `key`: the map, which had it, updated there; or no change, as it had not.
abbrev pub Sets : BTree → ℕ → List ℕ → Status × BTree → Type 0
Sets t key value (ok, u) =
    IsValid u
    × ((x : List ℕ) × (lookup key (entries t) ≡ some x))
    × ((j : ℕ) → lookup j (entries u) ≡ (if key == j then some value else lookup j (entries t)))
Sets t key value (not_found, u) = (u ≡ t) × (lookup key (entries t) ≡ none)
Sets t key value (exists, u) = ⊥
Sets t key value (oom, u) = ⊥

Changed-Sets :
    (t : BTree) (key i : ℕ) (value : List ℕ) (r : Status × BTree)
    → Searched t key (i, true)
    → OrUnchanged t ⊥ (Changed t i value) r
    → Sets t key value r
Changed-Sets t key i value (ok, u) s c =
    (c.valid, (value_at t i, Searched-found t key i s), lookup-Changed key s c)
Changed-Sets t key i value (oom, u) s h = absurd h.1
Changed-Sets t key i value (exists, u) s h = absurd h
Changed-Sets t key i value (not_found, u) s h = absurd h

overwrite-Sets :
    (t : BTree) (key : ℕ) (value : List ℕ) (r : ℕ × Bool)
    → IsValid t
    → length value ≡ t.value_size
    → Searched t key r
    → Returns (overwrite t value (found_value t r)) (Sets t key value)
unfolding overwrite
overwrite-Sets t key value (i, false) valid l s = (refl, Searched-missing t key i s)
overwrite-Sets t key value (i, true) valid l s =
    Returns_mono (overwrite t value (some (value_offset t i))) (OrUnchanged t ⊥ (Changed t i value))
      _ (overwrite-Changed t.buf t.count t.capacity t.value_size i value valid (s.found refl).0 l)
      (λ r h. Changed-Sets t key i value r s h)

-- `btree_set_existing` of a valid tree with values, and a value of its size, does not fault. It says
-- ok, and the key, which the map had, leads to the value, all others to what they led to; or it says
-- that the key is not found, where the map does not have it, and nothing changes.
pub btree_set_existing-Sets :
    (t : BTree) (key : ℕ) (value : List ℕ)
    → IsValid t
    → 0 < t.value_size
    → length value ≡ t.value_size
    → Returns (btree_set_existing t key value) (Sets t key value)
unfolding btree_set_existing
btree_set_existing-Sets t key value valid pos l = rw (lt→ltb 0 t.value_size pos) (
    Returns->>= (search_key t key >>= λ r. done (found_value t r)) (overwrite t value)
      (λ p. (r : ℕ × Bool) × Searched t key r × (p ≡ found_value t r)) (Sets t key value)
      (Returns->>= (search_key t key) _ (Searched t key) _ (search_key-Searched t key valid)
        (λ r s. (r, s, refl)))
      (λ p h. rw h.2 (overwrite-Sets t key value h.0 valid l h.1)))
