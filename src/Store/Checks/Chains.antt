-- ===== src/Store/Checks/Chains.antt =====
-- The segments of one key, from models in their order.
use onlybackup.Prelude.{
  ℕ, ◌≤◌, ◌<◌, ◌≡◌, refl, inl, inr, Bool, true, ◌&&◌, ◌||◌, List, [], ◌∷◌, All, ltb, leb, nat_eq,
  any, arith, Bool-cases,
}
use onlybackup.Catalog.Tables.{ModelRow, CheckModel}
use onlybackup.Store.Checks.Plan.{segment_end, segment_start, segments}
use onlybackup.Store.Checks.Learned.{LearnedFrom}

-- Each segment begins where the one before it ended or later, and none ends before it begins.
abbrev pub Chained : ℕ → List CheckModel → Type 0
Chained t [] = Unit
Chained t (cm ∷ cms) =
    (t ≤ cm.covered_from) × (cm.covered_from ≤ cm.covered_to) × Chained cm.covered_to cms

unfoldable pub HeadStarts : ℕ → ℕ → Bool → List ModelRow → Type 0
HeadStarts t start later [] = Unit
HeadStarts t start later (m ∷ ms) = t ≤ segment_start start later m

module _ (id revision start last : ℕ) where
  next_starts :
      (later : Bool) (m : ModelRow) (ms : List ModelRow)
      → LearnedFrom m.learned_at ms
      → HeadStarts (segment_start start later m) start true ms
        × HeadStarts (segment_end last ms) start true ms
  unfolding HeadStarts segment_start segment_end
  next_starts later m [] h = (tt, tt)
  next_starts later m (n ∷ ms) h = (ground arith, ground arith)

  HeadStarts-mono :
      (t u : ℕ) (ms : List ModelRow)
      → t ≤ u
      → HeadStarts u start true ms
      → HeadStarts t start true ms
  unfolding HeadStarts
  HeadStarts-mono t u [] l h = tt
  HeadStarts-mono t u (m ∷ ms) l h = omega (arith, l, h)

  pub segments-Chained :
      (t k : ℕ) (later : Bool) (ms : List ModelRow)
      → LearnedFrom k ms
      → HeadStarts t start later ms
      → Chained t (segments id revision start last later ms)
  unfolding segments HeadStarts
  segments-Chained t k later [] h b = tt
  segments-Chained t k later (m ∷ ms) h b =
      let (early, next) = next_starts later m ms h.1 in
      elim (Bool-cases
        (ltb (segment_end last ms) (segment_start start later m) || ltb revision m.revision)) [
          | inl hit ↦ rw hit (
              segments-Chained t m.learned_at true ms h.1
                (HeadStarts-mono t (segment_start start later m) ms b early))
          | inr miss ↦ rw miss (
            b,
            ground arith,
            segments-Chained (segment_end last ms) m.learned_at true ms h.1 next,
          )
        ]

  starts : (later : Bool) (m : ModelRow) → start ≤ segment_start start later m
  unfolding segment_start
  starts later m = ground arith

  ends : (ms : List ModelRow) → segment_end last ms ≤ last
  unfolding segment_end
  ends [] = omega arith
  ends (m ∷ ms) = ground arith

  pub segments-bounded :
      (later : Bool) (ms : List ModelRow)
      → All
          (λ cm. (cm.check_id ≡ id) × (start ≤ cm.covered_from) × (cm.covered_to ≤ last))
          (segments id revision start last later ms)
  unfolding segments
  segments-bounded later [] = tt
  segments-bounded later (m ∷ ms) =
      elim (Bool-cases
        (ltb (segment_end last ms) (segment_start start later m) || ltb revision m.revision)) [
          | inl hit ↦ rw hit (segments-bounded true ms)
          | inr miss ↦ rw miss ((refl, starts later m, ends ms), segments-bounded true ms)
        ]

  -- a time after which the head applies
  unfoldable pub Applies : ℕ → Bool → List ModelRow → Type 0
  Applies x later [] = ⊥
  Applies x later (m ∷ ms) = segment_start start later m ≤ x

  next-Applies :
      (x : ℕ) (ms : List ModelRow)
      → start ≤ x
      → x ≤ last
      → segment_end last ms < x
      → Applies x true ms
  unfolding Applies segment_end segment_start
  next-Applies x [] b l h = omega (arith, l, h)
  next-Applies x (m ∷ ms) b l h = ground arith

  -- Every time between the start and the end lies in a segment, if the first model applies to it.
  pub segments-cover :
      (x : ℕ) (later : Bool) (ms : List ModelRow)
      → start ≤ x
      → x ≤ last
      → Applies x later ms
      → All (λ m. m.revision ≤ revision) ms
      → any
          (λ cm. leb cm.covered_from x && leb x cm.covered_to)
          (segments id revision start last later ms)
        ≡ true
  unfolding segments Applies any
  segments-cover x later [] b l a h = absurd a
  segments-cover x later (m ∷ ms) b l a h = elim (Bool-cases (leb x (segment_end last ms))) [
    | inl within ↦ ground arith
    | inr beyond ↦
        let rest = segments-cover x true ms b l (next-Applies x ms b l (ground arith)) h.1 in
        ground (arith, rest)
  ]

  pub first_starts : (later : Bool) (ms : List ModelRow) → HeadStarts start start later ms
  unfolding HeadStarts
  first_starts later [] = tt
  first_starts later (m ∷ ms) = starts later m
