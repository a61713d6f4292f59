-- ===== src/Server/Stitching.antt =====
-- Stitching, against its meaning: each step takes the row of the newest chunk that covers it.
use interlatent.Base.{
  ℕ, zero, suc, ◌+◌, ◌-◌, ◌≤◌, ◌<◌, max, min, Bool, true, false, Option, none, List, [], ◌∷◌,
  length, take, drop, replicate, length-drop, get_elem?, ltb, leb, if◌then◌else◌, ◌≡◌, refl, ap,
  ◌∙◌, arith, Bool-cases, inl, inr, ◌⊎◌, dec_le,
}
use interlatent.Server.ChunkBuffer.{
  StoredChunk, write_at, all_set, piece, pieces, write_all, fill, stitch,
}
use interlatent.Server.Rows.{
  row_from, or_else_row, newest, cells_of, cells_of-ext, cells_of-none, overlay-cells_of,
}

module _ {V : Type 0} where
  row_from_before : (s t : ℕ) (rows : List V) → t < s → row_from s rows t ≡ none
  unfolding row_from
  row_from_before s t rows h = let before : leb s t ≡ false = ground arith in rw before refl

  get_elem?-none : (rows : List V) (i : ℕ) → length rows ≤ i → get_elem? rows i ≡ none
  get_elem?-none [] i h = refl
  get_elem?-none (r ∷ rows) zero h = ground (arith, h)
  get_elem?-none (r ∷ rows) (suc i) h = get_elem?-none rows i (omega (arith, h))

  row_from_past : (s t : ℕ) (rows : List V) → s + length rows ≤ t → row_from s rows t ≡ none
  unfolding row_from
  row_from_past s t rows h =
      let before : leb s t ≡ true = ground arith in
      rw before (get_elem?-none rows (t - s) (omega (arith, h)))

  get_elem?-drop :
      (d : ℕ) (rows : List V) (i : ℕ) → get_elem? (drop d rows) i ≡ get_elem? rows (d + i)
  get_elem?-drop zero rows i = ap (get_elem? rows) (omega arith)
  get_elem?-drop (suc d) [] i = refl
  get_elem?-drop (suc d) (r ∷ rows) i =
      let next : suc d + i ≡ suc (d + i) = omega arith in rw next (get_elem?-drop d rows i)

  row_from-drop :
      (d s t : ℕ) (rows : List V) → s + d ≤ t → row_from (s + d) (drop d rows) t ≡ row_from s rows t
  unfolding row_from
  row_from-drop d s t rows h =
      let there : leb (s + d) t ≡ true = ground arith in
      let before : leb s t ≡ true = ground arith in
      let index : d + (t - (s + d)) ≡ t - s = omega arith in
      rw (there, before) (get_elem?-drop d rows (t - (s + d)) ∙ ap (get_elem? rows) index)

  write_at-cells_of :
      (g : ℕ → Option V) (lo n o k : ℕ) (rows : List V)
      → o + k ≤ n
      → min (n - o) (length rows) ≤ k
      → write_at o (take k rows) (cells_of g lo n)
        ≡ cells_of (λ t. or_else_row (row_from (lo + o) rows t) (g t)) lo n
  unfolding write_at cells_of
  write_at-cells_of g lo n zero k rows h j =
      let same_start : lo + 0 ≡ lo = omega arith in
      rw same_start (overlay-cells_of g lo n k rows (omega (arith, j)) (omega (arith, h)))
  write_at-cells_of g lo zero (suc o) k rows h j = ground (arith, h)
  write_at-cells_of g lo (suc n) (suc o) k rows h j =
      rw (row_from_before (lo + suc o) lo rows (omega arith)) (
        ap (◌∷◌ (g lo)) (
          write_at-cells_of g (suc lo) n o k rows (omega (arith, h)) (omega (arith, j))
          ∙ cells_of-ext (λ t. or_else_row (row_from (suc lo + o) rows t) (g t))
              (λ t. or_else_row (row_from (lo + suc o) rows t) (g t)) (suc lo) n
              (λ t p q. ap (λ a. or_else_row (row_from a rows t) (g t)) (omega arith))))

  -- A chunk that does not overlap the range has no row for a step of it.
  apart :
      (start end t : ℕ) (c : StoredChunk V)
      → ltb (max start c.start_step) (min end (c.start_step + length c.actions)) ≡ false
      → start ≤ t
      → t < end
      → row_from c.start_step c.actions t ≡ none
  apart start end t c h p q =
      let split : (t < c.start_step) ⊎ (c.start_step + length c.actions ≤ t) = ground (arith, h) in
      elim split [
        | inl e ↦ row_from_before c.start_step t c.actions e
        | inr e ↦ row_from_past c.start_step t c.actions e
      ]

  -- The rows from where the chunk and the range both begin are the chunk's own.
  from_overlap :
      (start t b : ℕ) (rows : List V)
      → start ≤ t
      → row_from (start + (max start b - start)) (drop (max start b - b) rows) t ≡ row_from b rows t
  from_overlap start t b rows h = elim (dec_le start b) [
    | yes p ↦
        let begins : start + (max start b - start) ≡ b = omega (arith, p) in
        let whole : max start b - b ≡ 0 = omega (arith, p) in rw (begins, whole) refl
    | no p ↦
        let begins : start + (max start b - start) ≡ b + (start - b) = omega (arith, p) in
        let skipped : max start b - b ≡ start - b = omega (arith, p) in
        rw (begins, skipped) (row_from-drop (start - b) b t rows (omega (arith, p)))
  ]

  -- An overlapping chunk's slice gives each step of the range the chunk's row.
  overlapping :
      (g : ℕ → Option V) (start end : ℕ) (c : StoredChunk V)
      → ltb (max start c.start_step) (min end (c.start_step + length c.actions)) ≡ true
      → write_at
          (max start c.start_step - start)
          (take
            (min end (c.start_step + length c.actions) - max start c.start_step)
            (drop (max start c.start_step - c.start_step) c.actions))
          (cells_of g start (end - start))
        ≡ cells_of (λ t. or_else_row (row_from c.start_step c.actions t) (g t)) start (end - start)
  overlapping g start end c h =
      let lo = max start c.start_step in
      let hi = min end (c.start_step + length c.actions) in
      let d = lo - c.start_step in
      let rows = drop d c.actions in
      let long : length rows ≡ length c.actions - d = length-drop d c.actions in
      let begins : lo < hi = ground (arith, h) in
      let at_lo : start + (lo - start) ≡ lo = omega arith in
      write_at-cells_of g start (end - start) (lo - start) (hi - lo) rows (omega (arith, begins))
        (omega (arith, long))
      ∙ cells_of-ext (λ t. or_else_row (row_from (start + (lo - start)) rows t) (g t))
          (λ t. or_else_row (row_from c.start_step c.actions t) (g t)) start (end - start)
          (λ t p q. ap (λ r. or_else_row r (g t)) (from_overlap start t c.start_step c.actions p))

  write_all-cells_of :
      (start end : ℕ) (chunks : List (StoredChunk V)) (g : ℕ → Option V)
      → write_all (pieces start end chunks) (cells_of g start (end - start))
        ≡ cells_of (newest chunks g) start (end - start)
  unfolding write_all pieces piece newest
  write_all-cells_of start end [] g = refl
  write_all-cells_of start end (c ∷ cs) g =
      let covered : ℕ → Option V = λ t. or_else_row (row_from c.start_step c.actions t) (g t) in
      elim (Bool-cases (ltb (max start c.start_step) (min end (c.start_step + length c.actions)))) [
        | inl h ↦
            rw (h, piece, pieces, write_all, overlapping g start end c h)
              (write_all-cells_of start end cs covered)
        | inr h ↦
            rw (h, piece, pieces)
              (rw
                (cells_of-ext g covered start (end - start)
                  (λ t p q. rw (apart start end t c h p (omega (arith, q))) refl))
                (write_all-cells_of start end cs covered))
      ]

  fill-all_set :
      (has_nan : V → Bool) (n : ℕ) (ps : List (ℕ × List V))
      → 0 < n
      → fill has_nan n ps ≡ all_set has_nan (write_all ps (replicate n none))
  unfolding fill write_all all_set
  fill-all_set has_nan zero [] h = ground (arith, h)
  fill-all_set has_nan (suc n) [] h = refl
  fill-all_set has_nan n (p ∷ ps) h = refl

  -- What is stitched is, for a range that is not empty, the newest row of each of its steps, and
  -- nothing if a step has none or a row of them holds a NaN.
  pub stitch-newest :
      (has_nan : V → Bool) (chunks : List (StoredChunk V)) (start end : ℕ)
      → stitch has_nan chunks start end ≡ (
          if ltb start end
          then all_set has_nan (cells_of (newest chunks (λ t. none)) start (end - start))
          else none)
  unfolding stitch fill
  stitch-newest has_nan chunks start end = elim (Bool-cases (ltb start end)) [
    | inr h ↦ rw (h, stitch) refl
    | inl h ↦
        rw (h, stitch)
          (fill-all_set has_nan (end - start) (pieces start end chunks) (ground (arith, h))
            ∙ ap (λ out. all_set has_nan (write_all (pieces start end chunks) out))
                (cells_of-none start (end - start))
            ∙ ap (all_set has_nan) (write_all-cells_of start end chunks (λ t. none)))
  ]
