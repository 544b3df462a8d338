-- ===== src/Vector/Proof/Raise.antt =====
-- Both ways of moving the upper elements up, inside the capacity and by reallocation
-- (`vector_insert_emplace` of cstructures/src/vector.c).
use native.Mathlib.Nat.{mul_comm}
use cstructures.Prelude.{
  ℕ, suc, ◌+◌, ◌-◌, ◌*◌, ◌%◌, ◌≤◌, ◌<◌, ◌≡◌, refl, ◌∙◌, ap, inl, inr, Option, none, some, Returns,
  Returns_mono, arith, Option-cases,
}
use cstructures.Prelude.Word.{
  word, add32, sub32, mul32, add32-eq, mul32-eq, mul-le, entry-le, request_eq, sub-mul,
}
use cstructures.Buffer.{Block, bytes, moved, memmove-eq, bytes-moved, bytes-moved_beside, Allocator}
use cstructures.Vector.Struct.{Vector, Status, success, out_of_memory, size_differs}
use cstructures.Vector.Storage.{open_gap, first_alloc, realloc_block, vector_realloc}
use cstructures.Vector.Insert.{shift_up, finish_insert_emplace}
use cstructures.Vector.Valid.{IsValid, place_in, entry, Refuses, OrUnchanged, OrUnchanged-mono}
use cstructures.Vector.Proof.Grow.{Fits, first_alloc-Grown, realloc_keeps-entry}
use cstructures.Vector.Proof.Open.{OpensOrNot}

-- The move of `n` bytes, up to the end of element `m`, up by one element.
module _ (cell : ℕ → ℕ) (es i m n : ℕ) (le : i ≤ m) (e : i * es + n ≡ m * es) where
  abbrev opened_cell : ℕ → ℕ
  opened_cell = moved cell (i * es + es) (i * es) n

  opened_low : (k : ℕ) → k < i → bytes opened_cell (k * es) es ≡ bytes cell (k * es) es
  opened_low k p =
      bytes-moved_beside cell (i * es + es) n (k * es) es (i * es)
        (inl (omega (arith, entry-le k i es p)))

  opened_high : (k : ℕ) → i ≤ k → k < m → bytes opened_cell (suc k * es) es ≡ bytes cell (k * es) es
  opened_high k p q =
      bytes-moved cell (i * es + es) n (suc k * es) es (i * es) (omega (arith, mul-le i k es p))
        (omega (arith, entry-le k m es q))
      ∙ ap (λ t. bytes cell t es) (omega (arith, mul-le i k es p))

-- `w` has room for one more, and its elements from `i` on have moved up.
pub record Shifted (v : Vector) (i : ℕ) (w : Vector) : Type 0 where
  pub valid : IsValid w
  pub count : w.count ≡ v.count
  pub element_size : w.element_size ≡ v.element_size
  pub free : w.count < w.capacity
  pub low : (k : ℕ) → k < i → entry w k ≡ entry v k
  pub high : (k : ℕ) → i ≤ k → k < v.count → entry w (suc k) ≡ entry v k

pub finish_insert_emplace-Opens :
    (v : Vector) (Why : Type 0) (i : ℕ) (r : Status × Vector)
    → OrUnchanged v Why (Shifted v i) r
    → Returns (finish_insert_emplace i r) (OpensOrNot v Why i)
unfolding finish_insert_emplace
finish_insert_emplace-Opens v Why i (out_of_memory, w) h = h
finish_insert_emplace-Opens v Why i (size_differs, w) h = absurd h
finish_insert_emplace-Opens v Why i (success, w) s =
    let e : add32 w.count 1 ≡ w.count + 1 =
      add32-eq w.count 1 (omega (arith, place_in w.capacity s.valid (omega arith), s.free)) in
    (
      ap (λ t. i * t) s.element_size,
      record {
        valid = record {
          sized = s.valid.sized;
          room = omega (arith, s.free);
          bounded = s.valid.bounded;
          owns = s.valid.owns;
        };
        count = omega (arith, s.count);
        element_size = s.element_size;
        low = s.low;
        high = s.high;
      },
    )

module _ (c m es i : ℕ) (le : i ≤ m) where
  pub shift_up-Shifted :
      (o : Option Block)
      → let v : Vector = record { buf = o; capacity = c; count = m; element_size = es } in
        IsValid v
        → m < c
        → (Why : Type 0) → Returns (shift_up v i) (OrUnchanged v Why (Shifted v i))
  unfolding shift_up
  shift_up-Shifted none valid free Why = absurd (omega arith)
  shift_up-Shifted (some b) valid free Why =
      let p = place_in m valid valid.room in
      let q = mul-le i m es le in
      let lower : es * i ≡ i * es = mul_comm es i in
      let size : sub32 (mul32 m es) (i * es % word) ≡ m * es - i * es = omega (arith, p, q) in
      rw
        (
          lower,
          size,
          memmove-eq b (i * es + es) (i * es) (m * es - i * es) (omega (arith, p, q, valid.owns))
              (omega (arith, p, q, valid.owns)),
          shift_up,
        )
        (record {
          valid = record {
            sized = valid.sized;
            room = valid.room;
            bounded = valid.bounded;
            owns = valid.owns;
          };
          count = refl;
          element_size = refl;
          free = free;
          low = opened_low b.cell es i m (m * es - i * es) le (omega (arith, q));
          high = opened_high b.cell es i m (m * es - i * es) le (omega (arith, q));
        })

  module _ (a : Allocator) where
    realloc_block-Shifted :
        (b : Block) (n : ℕ)
        → let v : Vector = record { buf = some b; capacity = c; count = m; element_size = es } in
          IsValid v
          → m ≡ c
          → m < n
          → (n + 1) * es < word
          → Returns (realloc_block a v b (some i) n) (OrUnchanged v (Refuses a) (Shifted v i))
    unfolding realloc_block open_gap
    realloc_block-Shifted b n valid full more fits =
        elim (Option-cases (a.realloc b ((n + 1) * es))) [
          | inl e ↦ rw (request_eq n es valid.sized fits, e, realloc_block) (refl, inr (_, _, e))
          | inr (b', e) ↦
              let p = place_in m valid valid.room in
              let q = mul-le i m es le in
              let r = mul-le (m + 1) (n + 1) es (omega arith) in
              let upper : (i + 1) * es ≡ i * es + es = omega arith in
              let lower : (i + 0) * es ≡ i * es = omega arith in
              let size : mul32 (sub32 c i) es ≡ m * es - i * es =
                (let d : sub32 c i ≡ m - i = omega (arith, p) in ap (λ t. mul32 t es) d)
                ∙ (mul32-eq (m - i) es (omega (arith, p, mul-le (m - i) m es (omega arith)))
                    ∙ sub-mul m i es le) in
              let got : b'.size ≡ (n + 1) * es = a.realloc_size b _ b' e in
              rw
                (
                  request_eq n es valid.sized fits,
                  e,
                  realloc_block,
                  upper,
                  lower,
                  size,
                  memmove-eq b' (i * es + es) (i * es) (m * es - i * es) (omega (arith, q, r))
                      (omega (arith, q, r)),
                )
                (record {
                  valid = record {
                    sized = valid.sized;
                    room = omega arith;
                    bounded = fits;
                    owns = (omega arith, got);
                  };
                  count = refl;
                  element_size = refl;
                  free = more;
                  low = λ k s.
                      opened_low b'.cell es i m (m * es - i * es) le (omega (arith, q)) k s
                      ∙ realloc_keeps-entry a c m es b b' n k e valid.owns.1 valid.room
                          (omega arith) (omega arith);
                  high = λ k s t.
                      opened_high b'.cell es i m (m * es - i * es) le (omega (arith, q)) k s t
                      ∙ realloc_keeps-entry a c m es b b' n k e valid.owns.1 valid.room
                          (omega arith) t;
                })
        ]

    pub realloc-Shifted :
        (o : Option Block)
        → let v : Vector = record { buf = o; capacity = c; count = m; element_size = es } in
          IsValid v
          → m ≡ c
          → Fits v (m * 2)
          → Returns (vector_realloc a v (some i) (m * 2)) (OrUnchanged v (Refuses a) (Shifted v i))
    unfolding vector_realloc
    realloc-Shifted none valid full fits =
        let v : Vector = record { buf = none; capacity = c; count = m; element_size = es } in
        Returns_mono (first_alloc a v (m * 2)) _ _
          (first_alloc-Grown a c m es (m * 2) valid (ground arith) fits)
          (λ r h.
            OrUnchanged-mono v _ _ _ _ r h (λ why. why)
              (λ w g. record {
                valid = g.0.valid;
                count = g.0.count;
                element_size = g.0.element_size;
                free = ground (arith, g.0.enough, g.0.count);
                low = λ k p. g.0.same k (omega arith);
                high = λ k p q. absurd (omega arith);
              }))
    realloc-Shifted (some b) valid full fits =
        realloc_block-Shifted b (m * 2) valid full (omega arith) (ground arith)
