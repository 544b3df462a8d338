-- ===== src/Vector/Proof/Swap.antt =====
-- The rounds of the reversal in place (`vector_reverse` of cstructures/src/vector.c).
use native.Mathlib.Decide.{dec_lt, ℕ_discrete}
use cstructures.Prelude.{
  ℕ, zero, suc, ◌+◌, ◌-◌, ◌*◌, ◌≤◌, ◌<◌, ◌≡◌, ◌≢◌, refl, inl, inr, ap, sym, ◌∙◌, ◌⊎◌, List, Returns,
  Returns->>=, arith, lt→ltb, le→ltb,
}
use cstructures.Prelude.Word.{mul-le, entry-le, entry_apart, sub-mul}
use cstructures.Buffer.{Block, bytes, moved, copy_within-eq, bytes-moved, bytes-moved_beside}
use cstructures.Vector.Reverse.{swap_elements, reverse_loop}

module _ (es c : ℕ) where
  abbrev cell_entry : (ℕ → ℕ) → ℕ → List ℕ
  cell_entry cell k = bytes cell (k * es) es

  -- A copy of element `j` to place `i`.
  copied_here :
      (cell : ℕ → ℕ) (i j : ℕ) → cell_entry (moved cell (i * es) (j * es) es) i ≡ cell_entry cell j
  copied_here cell i j =
      bytes-moved cell (i * es) es (i * es) es (j * es) (omega arith) (omega arith)
      ∙ ap (λ t. bytes cell t es) (omega arith)

  copied_beside :
      (cell : ℕ → ℕ) (i j k : ℕ)
      → k ≢ i
      → cell_entry (moved cell (i * es) (j * es) es) k ≡ cell_entry cell k
  copied_beside cell i j k ne =
      bytes-moved_beside cell (i * es) es (k * es) es (j * es) (entry_apart k i es ne)

  -- `b'` is `b` with elements `i` and `j` exchanged; the scratch element at `c` has any bytes.
  record Swapped (b : Block) (i j : ℕ) (b' : Block) : Type 0 where
    size : b'.size ≡ b.size
    first : cell_entry b'.cell i ≡ cell_entry b.cell j
    second : cell_entry b'.cell j ≡ cell_entry b.cell i
    others : (k : ℕ) → k ≢ i → k ≢ j → k ≢ c → cell_entry b'.cell k ≡ cell_entry b.cell k

  swap_elements-Swapped :
      (b : Block) (i j : ℕ)
      → b.size ≡ (c + 1) * es
      → i < j
      → j < c
      → Returns (swap_elements b (i * es) (j * es) (c * es) es) (Swapped b i j)
  unfolding swap_elements
  swap_elements-Swapped b i j size p q =
      let inside_i = entry-le i (c + 1) es (omega arith) in
      let inside_j = entry-le j (c + 1) es (omega arith) in
      let inside_c = entry-le c (c + 1) es (omega arith) in
      let b₁ : Block = record b { cell = moved b.cell (c * es) (i * es) es } in
      let b₂ : Block = record b₁ { cell = moved b₁.cell (i * es) (j * es) es } in
      rw
        (
          copy_within-eq b (c * es) (i * es) es (omega arith) (omega arith)
              (entry_apart c i es (omega arith)),
          copy_within-eq b₁ (i * es) (j * es) es (omega arith) (omega arith)
              (entry_apart i j es (omega arith)),
          copy_within-eq b₂ (j * es) (c * es) es (omega arith) (omega arith)
              (entry_apart j c es (omega arith)),
        )
        (record {
          size = refl;
          first =
              copied_beside b₂.cell j c i (omega arith)
              ∙ (copied_here b₁.cell i j ∙ copied_beside b.cell c i j (omega arith));
          second =
              copied_here b₂.cell j c
              ∙ (copied_beside b₁.cell i j c (omega arith) ∙ copied_here b.cell c i);
          others = λ k ni nj nc.
              copied_beside b₂.cell j c k nj
              ∙ (copied_beside b₁.cell i j k ni ∙ copied_beside b.cell c i k nc);
        })

  -- After `r` rounds the outer `r` elements at each end have changed places.
  pub record Progress (m r : ℕ) (b b' : Block) : Type 0 where
    pub size : b'.size ≡ b.size
    pub outer :
        (k : ℕ)
        → k < m
        → (k < r) ⊎ (m ≤ k + r)
        → cell_entry b'.cell k ≡ cell_entry b.cell (m - 1 - k)
    pub inner : (k : ℕ) → r ≤ k → k + r < m → cell_entry b'.cell k ≡ cell_entry b.cell k

  -- Where the loop stops, the element that is left is its own mirror image.
  met :
      {m r : ℕ} {b b' : Block} (k : ℕ)
      → k < m
      → m - 1 - r ≤ r
      → Progress m r b b'
      → cell_entry b'.cell k ≡ cell_entry b.cell (m - 1 - k)
  met {m} {r} {b} {b'} k p stop g = elim (dec_lt k r) [
    | yes q ↦ g.outer k p (inl q)
    | no q ↦ elim (dec_lt (k + r) m) [
      | no q' ↦ g.outer k p (inr (omega arith))
      | yes q' ↦
          g.inner k (omega arith) q'
          ∙ (let e : k ≡ m - 1 - k = omega arith in ap (cell_entry b.cell) e)
    ]
  ]

  module _ {m r : ℕ} {b b' b'' : Block} (room : m ≤ c) (go : r < m - 1 - r) (g : Progress m r b b')
      (s : Swapped b' r (m - 1 - r) b'') where
    swapped_outer :
        (k : ℕ)
        → k < m
        → (k < r + 1) ⊎ (m ≤ k + (r + 1))
        → cell_entry b''.cell k ≡ cell_entry b.cell (m - 1 - k)
    swapped_outer k p h = elim (ℕ_discrete k r) [
      | yes e ↦ rw e (s.first ∙ g.inner (m - 1 - r) (omega arith) (omega arith))
      | no n ↦ elim (ℕ_discrete k (m - 1 - r)) [
        | yes e ↦
            let back : r ≡ m - 1 - k = omega arith in
            ap (cell_entry b''.cell) e
            ∙ (s.second ∙ (g.inner r (omega arith) (omega arith) ∙ ap (cell_entry b.cell) back))
        | no n' ↦ s.others k n n' (omega arith) ∙ g.outer k p (omega arith)
      ]
    ]

    swapped : Progress m (r + 1) b b''
    swapped = record {
      size = s.size ∙ g.size;
      outer = swapped_outer;
      inner = λ k p q.
          s.others k (omega arith) (omega arith) (omega arith)
          ∙ g.inner k (omega arith) (omega arith);
    }

  pub reverse_loop-Progress :
      (fuel m r : ℕ) (b b' : Block)
      → 0 < es
      → b.size ≡ (c + 1) * es
      → m ≤ c
      → r + r ≤ m
      → 0 < m
      → m < fuel + r
      → Progress m r b b'
      → Returns (reverse_loop fuel b' (r * es) ((m - 1 - r) * es) (c * es) es) (λ b''.
        (b''.size ≡ b.size)
        × ((k : ℕ) → k < m → cell_entry b''.cell k ≡ cell_entry b.cell (m - 1 - k)))
  unfolding reverse_loop
  reverse_loop-Progress zero m r b b' pos size room half some_left enough g = absurd (omega arith)
  reverse_loop-Progress (suc fuel) m r b b' pos size room half some_left enough g =
      elim (dec_lt r (m - 1 - r)) [
        | no stop ↦
            rw
              (
                le→ltb (r * es) ((m - 1 - r) * es) (mul-le (m - 1 - r) r es (omega arith)),
                reverse_loop,
              )
              (g.size, λ k p. met k p (omega arith) g)
        | yes go ↦
            rw
              (
                lt→ltb (r * es) ((m - 1 - r) * es) (omega (arith, entry-le r (m - 1 - r) es go)),
                reverse_loop,
              )
              (Returns->>= (swap_elements b' (r * es) ((m - 1 - r) * es) (c * es) es) _
                (Swapped b' r (m - 1 - r)) _
                (swap_elements-Swapped b' r (m - 1 - r) (omega (arith, g.size)) go (omega arith))
                (λ b'' s.
                  let up : r * es + es ≡ (r + 1) * es = omega arith in
                  let down : (m - 1 - r) * es - es ≡ (m - 1 - (r + 1)) * es =
                    (let e : (m - 1 - r) * es - 1 * es ≡ (m - 1 - r) * es - es = omega arith in
                      sym e)
                    ∙ (sym (sub-mul (m - 1 - r) 1 es (omega arith))
                        ∙ (let e : m - 1 - r - 1 ≡ m - 1 - (r + 1) = omega arith in
                            ap (λ t. t * es) e)) in
                  rw (up, down)
                    (reverse_loop-Progress fuel m (r + 1) b b'' pos size room (omega arith)
                      some_left (omega arith) (swapped room go g s))))
      ]
