-- ===== src/Upload/Metrics.antt =====
-- The recording half of `HLSMetrics` (upload/hls_metrics.go). Durations are the bit patterns of
-- their float64; the counters of the prometheus library are a map of counts. Prometheus panics (`none`) on a
-- label's value that it does not take: `label_ok`. It panics on a second registration of a slug too, which is not
-- modelled: a stream has one parser until its clean-up, and that unregisters the slug.
use stream_api.Base.{
  ℕ, ◌+◌, ◌≡◌, refl, Bool, true, false, Option, none, some, List, [], ◌∷◌, ◌++◌, Str, str_Eq,
  length, drop, ltb, if◌then◌else◌, not, ◌&&◌,
}
use stream_api.Base.Int.{ℤ, pos, pos_part, neg_part}
use stream_api.Base.Dict.{Dict, lookup, insert}

pub record HlsMetrics : Type 0 where
  pub slug : Str
  pub target_duration : ℤ
  pub segment_durations : Dict Str (List ℕ)
  pub invalid_durations : Dict Str ℕ

abbrev fresh_metrics : Str → HlsMetrics
fresh_metrics slug = record {
  slug = slug;
  target_duration = pos 0;
  segment_durations = [];
  invalid_durations = [];
}

-- The slug is a constant label of what is registered.
unfoldable pub new_hls_metrics : (Str → Bool) → Str → Option HlsMetrics
new_hls_metrics label_ok slug = if label_ok slug then some (fresh_metrics slug) else none

abbrev pub or_zero : Option ℕ → ℕ
or_zero none = 0
or_zero (some n) = n

abbrev eq_ℤ : ℤ → ℤ → Bool
eq_ℤ a b =
    not (ltb (pos_part a + neg_part b) (pos_part b + neg_part a))
    && not (ltb (pos_part b + neg_part a) (pos_part a + neg_part b))

abbrev or_empty : Option (List ℕ) → List ℕ
or_empty none = []
or_empty (some xs) = xs

-- `segmentDurations` keeps the last ten.
abbrev trim : List ℕ → List ℕ
trim xs = if ltb 10 (length xs) then drop 1 xs else xs

unfoldable pub record_target_duration : (Str → Bool) → ℤ → Str → HlsMetrics → Option HlsMetrics
unfolding lookup insert
record_target_duration label_ok target playlist m =
    let first =
      if eq_ℤ m.target_duration (pos 0) then record m { target_duration = target } else m in
    if eq_ℤ first.target_duration target
    then some first
    else if label_ok playlist
    then some (record first {
      invalid_durations =
          insert playlist (or_zero (lookup playlist m.invalid_durations) + 1) m.invalid_durations;
      target_duration = target;
    })
    else none

unfoldable pub record_segment_duration : Str → ℕ → HlsMetrics → HlsMetrics
unfolding lookup insert
record_segment_duration name duration m = record m {
  segment_durations =
      insert name (trim (or_empty (lookup name m.segment_durations) ++ (duration ∷ [])))
        m.segment_durations;
}

-- With a label that prometheus takes, the target duration is recorded.
pub record_target_duration-Runs :
    (label_ok : Str → Bool) (target : ℤ) (playlist : Str) (m : HlsMetrics)
    → label_ok playlist ≡ true
    → (m' : HlsMetrics) × (record_target_duration label_ok target playlist m ≡ some m')
unfolding record_target_duration
record_target_duration-Runs label_ok target playlist m ok = rw ok (
    by_change
      (eq_ℤ
        (if eq_ℤ m.target_duration (pos 0)
          then record m { target_duration = target }
          else m).target_duration
        target)
      _ _)
  where
    by_change :
        (same : Bool) (a b : HlsMetrics)
        → (m' : HlsMetrics) × ((if same then some a else some b) ≡ some m')
    by_change true a b = (a, refl)
    by_change false a b = (b, refl)
