-- ===== src/BTree/Proof/Insert.antt =====
-- Insertion as an update of a finite map (`btree_insert_new`, `btree_insert_or_get` and
-- `btree_set_existing` of cstructures/src/btree.c).
use cstructures.Prelude.{
  ℕ, ◌*◌, ◌≤◌, ◌<◌, ◌≡◌, refl, sym, ◌∙◌, ap, inl, inr, none, some, List, Returns, Returns->>=,
  Returns_mono, arith, if◌then◌else◌, ◌==◌, Bool, true, false, Bool-cases, length, take, drop,
  take-append-drop,
}
use cstructures.Prelude.Word.{word, mul32}
use cstructures.Buffer.{Allocator}
use cstructures.BTree.Struct.{BTree, Status, not_found, exists, ok, oom}
use cstructures.BTree.Storage.{clamped, btree_realloc}
use cstructures.BTree.Search.{search_key}
use cstructures.BTree.Insert.{
  insert_entry, insert_found, finish_insert, make_room, btree_insert_new,
}
use cstructures.BTree.Valid.{
  IsValid, value_at, entries, lookup, Refuses, OrUnchanged, OrUnchanged-mono,
}
use cstructures.BTree.Proof.Read.{Searched, search_key-Searched}
use cstructures.BTree.Proof.Find.{Searched-found, Searched-missing}
use cstructures.BTree.Proof.Grow.{btree_realloc-Kept}
use cstructures.BTree.Proof.Move.{Kept, entries-Kept, Fits}
use cstructures.BTree.Proof.Place.{insert_entry-Placed}
use cstructures.BTree.Proof.Shift.{Placed, entries-Placed}
use cstructures.BTree.Proof.Lookup.{lookup-append_left, lookup-insert}

-- The hypothesis of an insertion: where the tree is full, twice its capacity fits.
abbrev pub CanDouble : BTree → Type 0
CanDouble t = t.count ≡ t.capacity → Fits t (clamped (t.capacity * 2))

-- Why an insertion may fail.
abbrev pub FullAndRefused : Allocator → BTree → Type 0
FullAndRefused a t = (t.count ≡ t.capacity) × Refuses a

-- The outcome of an insertion of `value` under `key` into `t`: the map updated at a key that it did
-- not have; or the map as it was, which has the key; or nothing changed, for the reason `Why`.
abbrev pub Inserts : BTree → Type 0 → ℕ → List ℕ → Status × BTree → Type 0
Inserts t Why key value (ok, u) =
    IsValid u
    × (lookup key (entries t) ≡ none)
    × ((j : ℕ) → lookup j (entries u) ≡ (if key == j then some value else lookup j (entries t)))
Inserts t Why key value (exists, u) =
    IsValid u × (entries u ≡ entries t) × ((x : List ℕ) × (lookup key (entries t) ≡ some x))
Inserts t Why key value (oom, u) = (u ≡ t) × Why
Inserts t Why key value (not_found, u) = ⊥

pub lookup-Placed :
    {t u : BTree} {i key : ℕ} {value : List ℕ}
    → i ≤ t.count
    → Placed t i key value u
    → lookup key (entries t) ≡ none
    → (j : ℕ) → lookup j (entries u) ≡ (if key == j then some value else lookup j (entries t))
lookup-Placed {t} {u} {i} {key} {value} le p absent j =
    let whole = take-append-drop i (entries t) in
    ap (lookup j) (entries-Placed le p)
    ∙ (lookup-insert key j value (take i (entries t)) (drop i (entries t)) (
          lookup-append_left key (take i (entries t)) (drop i (entries t))
            (ap (lookup key) whole ∙ absent))
        ∙ ap (λ e. if key == j then some value else lookup j e) whole)

-- The new entry, where the search did not find its key.
pub Searched-Placed :
    (t : BTree) (key i : ℕ) (value : List ℕ)
    → IsValid t
    → t.count < t.capacity
    → key < word
    → length value ≡ t.value_size
    → Searched t key (i, false)
    → Returns (insert_entry t i key value) (Placed t i key value)
Searched-Placed t key i value valid free small l s =
    insert_entry-Placed t.count t.capacity t.value_size i key value t.buf valid s.bound.within free
      l small s.bound.below (λ j p q. omega (arith, s.bound.above j p q, s.missing refl j q))

-- A tree that was made room in.
abbrev pub Room : BTree → BTree → Type 0
Room t u = Kept t u.capacity u × (u.count < u.capacity)

insert_found-Inserts :
    (t u : BTree) (Why : Type 0) (key : ℕ) (value : List ℕ) (r : ℕ × Bool)
    → Room t u
    → key < word
    → length value ≡ t.value_size
    → Searched u key r
    → Returns (insert_found u key value r) (Inserts t Why key value)
unfolding insert_found
insert_found-Inserts t u Why key value (i, true) (k, free) small l s = (
  k.valid,
  entries-Kept k,
  (value_at u i, sym (ap (lookup key) (entries-Kept k)) ∙ Searched-found u key i s),
)
insert_found-Inserts t u Why key value (i, false) (k, free) small l s =
    let absent = Searched-missing u key i s in
    let old = entries-Kept k in
    Returns->>= (insert_entry u i key value) _ (Placed u i key value) (Inserts t Why key value)
      (Searched-Placed u key i value k.valid free small (l ∙ sym k.value_size) s)
      (λ w p. (
        p.valid,
        sym (ap (lookup key) old) ∙ absent,
        λ j.
            lookup-Placed s.bound.within p absent j
            ∙ ap (λ e. if key == j then some value else lookup j e) old,
      ))

finish_insert-Inserts :
    (t : BTree) (Why : Type 0) (key : ℕ) (value : List ℕ) (r : Status × BTree)
    → key < word
    → length value ≡ t.value_size
    → OrUnchanged t Why (Room t) r
    → Returns (finish_insert key value r) (Inserts t Why key value)
unfolding finish_insert
finish_insert-Inserts t Why key value (ok, u) small l room =
    Returns->>= (search_key u key) _ (Searched u key) (Inserts t Why key value)
      (search_key-Searched u key room.0.valid)
      (λ r s. insert_found-Inserts t u Why key value r room small l s)
finish_insert-Inserts t Why key value (oom, u) small l h = h
finish_insert-Inserts t Why key value (exists, u) small l h = absurd h
finish_insert-Inserts t Why key value (not_found, u) small l h = absurd h

module _ (a : Allocator) where
  -- The reallocation of a full tree leaves room for one more entry.
  pub make_room-Room :
      (t : BTree)
      → IsValid t
      → CanDouble t
      → Returns (make_room a t) (OrUnchanged t (FullAndRefused a t) (Room t))
  unfolding make_room
  make_room-Room t valid fits = elim (Bool-cases (t.count == t.capacity)) [
    | inr e ↦ rw e (
      record {
        valid = valid;
        count = refl;
        value_size = refl;
        capacity = refl;
        keys = λ i p. refl;
        values = λ i p. refl;
      },
      ground (arith, valid.room),
    )
    | inl e ↦
        let full : t.count ≡ t.capacity = ground arith in
        let f = (fits full).0 in
        let exact : mul32 t.capacity 2 ≡ t.capacity * 2 = ground arith in
        rw (e, exact)
          (Returns_mono (btree_realloc a t (t.capacity * 2)) _ _
            (btree_realloc-Kept a t (t.capacity * 2) valid (ground arith) (fits full))
            (λ r h.
              OrUnchanged-mono t _ _ _ _ r h (λ why. (full, why))
                (λ u k. (
                  record {
                    valid = k.valid;
                    count = k.count;
                    value_size = k.value_size;
                    capacity = refl;
                    keys = k.keys;
                    values = k.values;
                  },
                  ground (arith, k.count, k.capacity, valid.room),
                ))))
  ]

  -- `btree_insert_new` of a valid tree, a key and a value of its size, where the sizes of a full
  -- tree can be doubled without wrapping, does not fault. It says ok and the key, which the tree
  -- did not have, now leads to the value, all others to what they led to; or it says that the key
  -- exists, where it does, with the entries as they were; or the tree is full, the allocator
  -- refused a request, and nothing has changed.
  pub btree_insert_new-Inserts :
      (t : BTree) (key : ℕ) (value : List ℕ)
      → IsValid t
      → CanDouble t
      → key < word
      → length value ≡ t.value_size
      → Returns (btree_insert_new a t key value) (Inserts t (FullAndRefused a t) key value)
  unfolding btree_insert_new
  btree_insert_new-Inserts t key value valid fits small l =
      Returns->>= (make_room a t) (finish_insert key value) _ _ (make_room-Room t valid fits)
        (λ r h. finish_insert-Inserts t (FullAndRefused a t) key value r small l h)
