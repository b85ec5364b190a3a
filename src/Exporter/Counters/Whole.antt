-- ===== src/Exporter/Counters/Whole.antt =====
-- Where the numbers of a report are whole, its counters show the greatest (cmd/transcoding-exporter/progress.go).
use stream_api.Base.{
  ℕ, ◌+◌, ◌-◌, ◌≤◌, ◌≡◌, refl, ap, ◌∙◌, Bool, true, false, List, [], ◌∷◌, Str, if◌then◌else◌, ltb,
  ltb→lt, map, arith, Bool-cases, inl, inr,
}
use stream_api.Exporter.{Floats, Metrics, new_active, read_lines}
use stream_api.Exporter.Counters.{
  Counter, last, frames, dropped, duplicated, bytes, duration, shown, numbers, climb, bump,
  read_lines-climb,
}

abbrev max_ℕ : ℕ → ℕ → ℕ
max_ℕ a b = if ltb a b then b else a

abbrev pub greatest : List ℕ → ℕ
greatest [] = 0
greatest (n ∷ ns) = max_ℕ n (greatest ns)

module _ (num : Floats) where
  open num use {F, origin, add, sub, less}

  -- The whole numbers up to a limit are floats, on which the operations are exact; for float64 the
  -- limit is 2^53.
  pub record IsExact (limit : ℕ) (whole : ℕ → F) : Type 0 where
    pub at_origin : origin ≡ whole 0
    pub on_less : (a b : ℕ) → a ≤ limit → b ≤ limit → less (whole a) (whole b) ≡ ltb a b
    pub on_sub : (a b : ℕ) → a ≤ b → b ≤ limit → sub (whole b) (whole a) ≡ whole (b - a)
    pub on_add : (a b : ℕ) → a + b ≤ limit → add (whole a) (whole b) ≡ whole (a + b)

  module _ (limit : ℕ) (whole : ℕ → F) (exact : IsExact limit whole) where
    bump_whole :
        (n old total : ℕ)
        → old ≤ total
        → total + n ≤ limit + old
        → n ≤ limit
        → old ≤ limit
        → bump num (whole n) (whole old, whole total)
          ≡ (whole (max_ℕ old n), whole (total + (max_ℕ old n - old)))
    bump_whole n old total below high hn hl = elim (Bool-cases (ltb old n)) [
      | inl more ↦
          let above = ltb→lt old n more in
          let e : max_ℕ old n ≡ n = rw more refl in
          rw
            (
              e,
              exact.on_less old n hl hn,
              more,
              exact.on_sub old n (omega (arith, above)) hn,
              exact.on_add total (n - old) (omega (arith, above)),
            )
            refl
      | inr less_or_same ↦
          let e : total + (old - old) ≡ total = omega arith in
          rw (exact.on_less old n hl hn, less_or_same, e) refl
    ]

    climb_whole :
        (ns : List ℕ) (old total : ℕ)
        → old ≤ total
        → total ≤ limit
        → total + greatest ns ≤ limit + old
        → climb num (map whole ns) (whole old, whole total)
          ≡ (whole (max_ℕ old (greatest ns)), whole (total + (max_ℕ old (greatest ns) - old)))
    climb_whole [] old total below fits high =
        let e : max_ℕ old 0 ≡ old = ground arith in
        let same : total + (old - old) ≡ total = omega arith in rw (e, same) refl
    climb_whole (n ∷ ns) old total below fits high =
        let g : ℕ = greatest ns in
        let next : ℕ = max_ℕ old n in
        let sum : ℕ = total + (next - old) in
        let n_fits : n ≤ limit = ground arith in
        let step = bump_whole n old total below (ground arith) n_fits (omega arith) in
        let rest = climb_whole ns next sum (ground arith) (ground arith) (ground arith) in
        let e : max_ℕ next g ≡ max_ℕ old (max_ℕ n g) = ground arith in
        let e' : sum + (max_ℕ next g - next) ≡ total + (max_ℕ old (max_ℕ n g) - old) =
          ground arith in
        ap (climb num (map whole ns)) step ∙ rest ∙ λ i. (whole (e i), whole (e' i))

    -- If the numbers that a report gives a counter are whole, seconds where it counts those, and the counter does not go above
    -- the limit up to which whole numbers are exact (2^53 for a float64), then after the report has been read, also up to any
    -- line of it, the counter shows of the stream what it showed before and the greatest of the numbers, whatever their
    -- order and also where a number was below one before it. The name of the stream is a label that prometheus takes.
    pub shown-read_lines :
        (label_ok : Str → Bool) (c : Counter) (id : Str) (lines : List Str) (m : Metrics num)
        (before : ℕ) (ns : List ℕ)
        → label_ok id ≡ true
        → shown num c id m ≡ whole before
        → numbers num c lines ≡ map whole ns
        → before + greatest ns ≤ limit
        → let r = read_lines num label_ok id lines (new_active num, m) in
          (r.0 ≡ false) × (shown num c id r.2 ≡ whole (before + greatest ns))
    shown-read_lines label_ok c id lines m before ns ok at_first all_whole fits =
        let (fine, read) = read_lines-climb num label_ok c id lines (new_active num) m ok in
        let start : last num c (new_active num) ≡ whole 0 = last_origin c ∙ exact.at_origin in
        let end_at = climb_whole ns 0 before (omega arith) (omega arith) (omega arith) in
        let e : before + (max_ℕ 0 (greatest ns) - 0) ≡ before + greatest ns = ground arith in
        (fine, ap (λ (p : F × F). p.1) read ∙ rw (all_whole, start, at_first, end_at, e) refl)
      where
        last_origin : (c : Counter) → last num c (new_active num) ≡ origin
        last_origin frames = refl
        last_origin dropped = refl
        last_origin duplicated = refl
        last_origin bytes = refl
        last_origin duration = refl
