-- ===== src/Vector/Proof/Open.antt =====
-- Making room for one element, and storing it (`vector_emplace`, `vector_push`,
-- `vector_insert_emplace` and `vector_insert` of cstructures/src/vector.c).
use native.Mathlib.Nat.{mul_comm}
use cstructures.Prelude.{
  ℕ, suc, ◌+◌, ◌*◌, ◌≤◌, ◌<◌, ◌≡◌, ◌≢◌, refl, ◌∙◌, ap, ap₂, inl, inr, Option, none, some, List, [],
  ◌∷◌, ◌++◌, done, Returns, Returns->>=, Returns_mono, arith, length, take, drop, tabulate-take,
  tabulate-drop, tabulate-insert, if◌then◌else◌, ◌==◌, Bool-cases,
}
use cstructures.Prelude.Word.{add32, mul32, add32-eq, mul32-eq, entry-le, entry_apart}
use cstructures.Buffer.{Block, memcpy-eq, bytes-pasted, bytes-pasted_beside, Allocator}
use cstructures.Vector.Struct.{Vector, Status, success, out_of_memory, size_differs, needs_realloc}
use cstructures.Vector.Insert.{store, finish_emplace, finish_insert, vector_emplace, vector_push}
use cstructures.Vector.Storage.{vector_realloc}
use cstructures.Vector.Valid.{
  IsValid, place_in, entry, elements, Refuses, OrUnchanged, OrUnchanged-mono,
}
use cstructures.Vector.Proof.Grow.{Grown, Grown-weaken, Fits, Fits-lt, vector_realloc-Grown}

-- `w` has one element more than `v`, at `i`, with any value; the elements from `i` on stand one
-- place higher.
pub record Opened (v : Vector) (i : ℕ) (w : Vector) : Type 0 where
  pub valid : IsValid w
  pub count : w.count ≡ v.count + 1
  pub element_size : w.element_size ≡ v.element_size
  pub low : (k : ℕ) → k < i → entry w k ≡ entry v k
  pub high : (k : ℕ) → i ≤ k → k < v.count → entry w (suc k) ≡ entry v k

-- The new element's offset, in such a vector; or null for the reason `Why`, with nothing changed.
abbrev pub OpensOrNot : Vector → Type 0 → ℕ → Option ℕ × Vector → Type 0
OpensOrNot v Why i (none, w) = (w ≡ v) × Why
OpensOrNot v Why i (some off, w) = (off ≡ i * v.element_size) × Opened v i w

-- `u` is `w` with the bytes `x` as element `i`.
record Stored (w : Vector) (i : ℕ) (x : List ℕ) (u : Vector) : Type 0 where
  valid : IsValid u
  count : u.count ≡ w.count
  here : entry u i ≡ x
  others : (k : ℕ) → k ≢ i → entry u k ≡ entry w k

module _ (c m es : ℕ) (i off : ℕ) (x : List ℕ) where
  store_block :
      (o : Option Block)
      → let w : Vector = record { buf = o; capacity = c; count = m; element_size = es } in
        IsValid w → i < m → off ≡ i * es → length x ≡ es → Returns (store w off x) (Stored w i x)
  unfolding store
  store_block none valid p e l = absurd (omega arith)
  store_block (some b) valid p e l =
      rw
        (
          e,
          memcpy-eq b (i * es) x es (omega (arith, entry-le i (c + 1) es (omega arith)))
              (omega arith),
          store,
        )
        (record {
          valid = record {
            sized = valid.sized;
            room = valid.room;
            bounded = valid.bounded;
            owns = valid.owns;
          };
          count = refl;
          here = bytes-pasted b.cell (i * es) es x l;
          others =
              λ k ne. bytes-pasted_beside b.cell (i * es) es (k * es) es x (entry_apart k i es ne);
        })

store-Stored :
    (w : Vector) (i off : ℕ) (x : List ℕ)
    → IsValid w
    → i < w.count
    → off ≡ i * w.element_size
    → length x ≡ w.element_size
    → Returns (store w off x) (Stored w i x)
store-Stored w i off x valid p e l =
    store_block w.capacity w.count w.element_size i off x w.buf valid p e l

-- `u` is a valid vector that holds the elements of `v` with `x` inserted at `i`.
pub record Inserted (v : Vector) (i : ℕ) (x : List ℕ) (u : Vector) : Type 0 where
  pub valid : IsValid u
  pub inserted : elements u ≡ take i (elements v) ++ x ∷ drop i (elements v)

Stored-Inserted :
    {v w u : Vector} {i : ℕ} {x : List ℕ}
    → i ≤ v.count
    → Opened v i w
    → Stored w i x u
    → Inserted v i x u
Stored-Inserted {v} {w} {u} {i} {x} le o s =
    let e : u.count ≡ suc v.count = omega (arith, s.count, o.count) in
    record {
      valid = s.valid;
      inserted = rw e (
          tabulate-insert i v.count (entry u) (entry v) x le
            (λ k p. s.others k (omega arith) ∙ o.low k p) s.here
            (λ k p q. s.others (suc k) (omega arith) ∙ o.high k p q));
    }

-- The hypothesis of an insertion: where the vector is full, twice its count fits.
abbrev pub CanDouble : Vector → Type 0
CanDouble v = v.count ≡ v.capacity → Fits v (v.count * 2)

-- Why an insertion may fail.
abbrev pub FullAndRefused : Allocator → Vector → Type 0
FullAndRefused a v = (v.count ≡ v.capacity) × Refuses a

finish_emplace-Opens :
    (v : Vector) (Why : Type 0) (r : Status × Vector)
    → OrUnchanged v Why (Grown v (v.count + 1)) r
    → Returns (finish_emplace r) (OpensOrNot v Why v.count)
unfolding finish_emplace
finish_emplace-Opens v Why (out_of_memory, w) h = h
finish_emplace-Opens v Why (size_differs, w) h = absurd h
finish_emplace-Opens v Why (success, w) g =
    let p = place_in w.count g.valid g.valid.room in
    let e : add32 w.count 1 ≡ w.count + 1 =
      add32-eq w.count 1
        (omega (arith, place_in w.capacity g.valid (omega arith), g.enough, g.count)) in
    (
      mul32-eq w.element_size w.count (omega arith)
          ∙ (ap₂ ◌*◌ g.element_size g.count ∙ mul_comm v.element_size v.count),
      record {
        valid = record {
          sized = g.valid.sized;
          room = omega (arith, g.enough, g.count);
          bounded = g.valid.bounded;
          owns = g.valid.owns;
        };
        count = omega (arith, g.count);
        element_size = g.element_size;
        low = λ k p. g.same k p;
        high = λ k p q. absurd (omega arith);
      },
    )

pub finish_insert-Stored :
    (v : Vector) (Why : Type 0) (i : ℕ) (x : List ℕ) (r : Option ℕ × Vector)
    → i ≤ v.count
    → length x ≡ v.element_size
    → OpensOrNot v Why i r
    → Returns (finish_insert x r) (OrUnchanged v Why (Inserted v i x))
unfolding finish_insert
finish_insert-Stored v Why i x (none, w) le l h = h
finish_insert-Stored v Why i x (some off, w) le l (e, o) =
    Returns->>= (store w off x) (λ u. done (success, u)) (Stored w i x) _
      (store-Stored w i off x o.valid (omega (arith, o.count))
        (omega (arith, ap (λ t. i * t) o.element_size)) (omega (arith, o.element_size)))
      (λ u s. Stored-Inserted le o s)

-- Insertion at the count is insertion at the end.
at_end :
    (v : Vector) (x : List ℕ)
    → take v.count (elements v) ++ x ∷ drop v.count (elements v) ≡ elements v ++ x ∷ []
at_end v x =
    ap₂ (λ s t. s ++ x ∷ t) (tabulate-take v.count v.count (entry v) (omega arith))
      (tabulate-drop v.count (entry v))

module _ (a : Allocator) where
  -- The reallocation of a full vector leaves room for one more.
  grow_full :
      (v : Vector)
      → IsValid v
      → CanDouble v
      → Returns
          (if needs_realloc v then vector_realloc a v none (mul32 v.count 2) else done (success, v))
          (OrUnchanged v (FullAndRefused a v) (Grown v (v.count + 1)))
  grow_full v valid fits = elim (Bool-cases (v.count == v.capacity)) [
    | inr e ↦ rw e (record {
      valid = valid;
      same = λ k p. refl;
      count = refl;
      element_size = refl;
      enough = ground arith;
    })
    | inl e ↦
        let full : v.count ≡ v.capacity = ground arith in
        let exact : mul32 v.count 2 ≡ v.count * 2 =
          mul32-eq v.count 2 (Fits-lt v (v.count * 2) valid (fits full)) in
        rw (e, exact)
          (Returns_mono (vector_realloc a v none (v.count * 2)) _ _
            (vector_realloc-Grown a v (v.count * 2) valid (omega arith) (omega arith) (fits full))
            (λ r h.
              OrUnchanged-mono v _ _ _ _ r h (λ why. (full, why))
                (λ w g. Grown-weaken g.0 (ground arith))))
  ]

  -- `vector_emplace` of a valid vector does not fault: it makes room for one element at the end, or
  -- returns null with the vector as it was.
  pub vector_emplace-Opens :
      (v : Vector)
      → IsValid v
      → CanDouble v
      → Returns (vector_emplace a v) (OpensOrNot v (FullAndRefused a v) v.count)
  unfolding vector_emplace
  vector_emplace-Opens v valid fits =
      Returns->>= _ finish_emplace _ _ (grow_full v valid fits) (finish_emplace-Opens v _)

  -- `vector_push` of a valid vector and an element of its size, where the sizes of a full vector
  -- can be doubled without wrapping, does not fault: the elements are those of before and the new
  -- one at the end, or the vector is full, the allocator refused a request, and nothing has
  -- changed.
  pub vector_push-Pushed :
      (v : Vector) (x : List ℕ)
      → IsValid v
      → CanDouble v
      → length x ≡ v.element_size
      → Returns (vector_push a v x) (
          OrUnchanged v (FullAndRefused a v) (λ w. IsValid w × (elements w ≡ elements v ++ x ∷ [])))
  unfolding vector_push
  vector_push-Pushed v x valid fits l =
      Returns->>= (vector_emplace a v) (finish_insert x) _ _ (vector_emplace-Opens v valid fits)
        (λ r h.
          Returns_mono (finish_insert x r) _ _
            (finish_insert-Stored v _ v.count x r (omega arith) l h)
            (λ q k.
              OrUnchanged-mono v _ _ _ _ q k (λ why. why)
                (λ w i. (i.valid, i.inserted ∙ at_end v x))))
