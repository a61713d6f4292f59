-- ===== src/Server/Rows.antt =====
-- The rows that chunks have for steps, and the cells of a run of steps.
use interlatent.Base.{
  ℕ, zero, suc, ◌+◌, ◌-◌, ◌≤◌, ◌<◌, min, true, Option, none, some, List, [], ◌∷◌, length, take,
  replicate, get_elem?, leb, if◌then◌else◌, ◌≡◌, refl, ap, ◌∙◌, arith,
}
use interlatent.Server.ChunkBuffer.{StoredChunk, overlay}

module _ {V : Type 0} where
  -- The row of a list of rows from step `s` on.
  unfoldable pub row_from : ℕ → List V → ℕ → Option V
  row_from s rows t = if leb s t then get_elem? rows (t - s) else none

  abbrev pub or_else_row : Option V → Option V → Option V
  or_else_row none cell = cell
  or_else_row (some v) cell = some v

  -- The row that the newest chunk which covers a step has for it.
  unfoldable pub newest : List (StoredChunk V) → (ℕ → Option V) → ℕ → Option V
  newest [] g t = g t
  newest (c ∷ cs) g t = newest cs (λ u. or_else_row (row_from c.start_step c.actions u) (g u)) t

  -- The cells of `n` steps from `s` on.
  unfoldable pub cells_of : (ℕ → Option V) → ℕ → ℕ → List (Option V)
  cells_of g s zero = []
  cells_of g s (suc n) = g s ∷ cells_of g (suc s) n

  pub cells_of-ext :
      (f g : ℕ → Option V) (s n : ℕ)
      → ((t : ℕ) → s ≤ t → t < s + n → f t ≡ g t)
      → cells_of f s n ≡ cells_of g s n
  unfolding cells_of
  cells_of-ext f g s zero h = refl
  cells_of-ext f g s (suc n) h =
      rw
        (
          h s (omega arith) (omega arith),
          cells_of-ext f g (suc s) n (λ t p q. h t (omega arith) (omega arith)),
        )
        refl

  pub cells_of-none : (s n : ℕ) → replicate n none ≡ cells_of (λ t. none) s n
  unfolding cells_of
  cells_of-none s zero = refl
  cells_of-none s (suc n) = ap (◌∷◌ none) (cells_of-none (suc s) n)

  pub row_from-suc :
      (s t : ℕ) (r : V) (rows : List V)
      → suc s ≤ t
      → row_from s (r ∷ rows) t ≡ row_from (suc s) rows t
  unfolding row_from
  row_from-suc s t r rows h =
      let before : leb s t ≡ true = ground arith in
      let after : leb (suc s) t ≡ true = ground arith in
      let shift : t - s ≡ suc (t - suc s) = omega arith in rw (before, after, shift) refl

  pub row_from_self : (s : ℕ) (r : V) (rows : List V) → row_from s (r ∷ rows) s ≡ some r
  unfolding row_from
  row_from_self s r rows =
      let there : leb s s ≡ true = ground arith in
      let first : s - s ≡ 0 = omega arith in rw (there, first) refl

  pub row_from_nil : (s t : ℕ) → row_from s [] t ≡ none
  unfolding row_from
  row_from_nil s t = ground arith

  -- Writing rows over the first cells gives each of these steps its row.
  pub overlay-cells_of :
      (g : ℕ → Option V) (s n k : ℕ) (rows : List V)
      → min n (length rows) ≤ k
      → k ≤ n
      → overlay (take k rows) (cells_of g s n)
        ≡ cells_of (λ t. or_else_row (row_from s rows t) (g t)) s n
  unfolding overlay cells_of
  overlay-cells_of g s zero zero rows h j = refl
  overlay-cells_of g s (suc n) zero [] h j =
      cells_of-ext g (λ t. or_else_row (row_from s [] t) (g t)) s (suc n)
        (λ t p q. rw (row_from_nil s t) refl)
  overlay-cells_of g s (suc n) zero (r ∷ rows) h j = ground (arith, h)
  overlay-cells_of g s n (suc k) [] h j =
      cells_of-ext g (λ t. or_else_row (row_from s [] t) (g t)) s n
        (λ t p q. rw (row_from_nil s t) refl)
  overlay-cells_of g s zero (suc k) (r ∷ rows) h j = refl
  overlay-cells_of g s (suc n) (suc k) (r ∷ rows) h j = rw (row_from_self s r rows) (
      ap (◌∷◌ (some r)) (
        overlay-cells_of g (suc s) n k rows (omega (arith, h)) (omega arith)
        ∙ cells_of-ext (λ t. or_else_row (row_from (suc s) rows t) (g t))
            (λ t. or_else_row (row_from s (r ∷ rows) t) (g t)) (suc s) n
            (λ t p q. rw (row_from-suc s t r rows p) refl)))
