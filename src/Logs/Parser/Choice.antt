-- ===== src/Logs/Parser/Choice.antt =====
-- Which stream a user counts as a viewer of (`count` and `maxQuality` of logreceiver/parser.go).
use stream_api.Base.{
  ℕ, ◌+◌, ◌-◌, ◌≤◌, ◌<◌, ◌≡◌, refl, Bool, true, false, not, none, some, List, [], ◌∷◌,
  if◌then◌else◌, ltb, arith, Bool-cases, inl, inr, ◌⊎◌, suc, str_eq,
}
use stream_api.Base.Dict.{Dict, lookup, lookup-insert, IsDistinct, insert-IsDistinct}
use stream_api.Logs.{StreamId, stream_Eq, stream_eq, stream_eq_iff, Segment, type_video}
use stream_api.Logs.Parser.{or_zero, count_up, tally, max_loop, no_stream, max_quality}
use stream_api.Logs.Parser.Window.{recent}

-- Video, or anything else, which counts as audio.
abbrev pub is_kind : Bool → StreamId → Bool
is_kind video id = if str_eq id.stream_type type_video then video else not video

-- How often a user asked for a stream.
abbrev pub occurrences : StreamId → List Segment → ℕ
occurrences id [] = 0
occurrences id (s ∷ segments) =
    let rest = occurrences id segments in if stream_eq s.stream_id id then suc rest else rest

-- What the choice of a stream of the one kind says of a user's segments: the stream is one of those that the
-- user asked for most, more than `min` times, or none of that kind was asked for so often.
abbrev pub Chosen : Bool → ℕ → List Segment → StreamId × Bool → Type 0
Chosen video min segments (id, true) =
    (is_kind video id ≡ true)
    × (min < occurrences id segments)
    × ((other : StreamId)
        → is_kind video other ≡ true
        → occurrences other segments ≤ occurrences id segments)
Chosen video min segments (id, false) =
    (other : StreamId) → is_kind video other ≡ true → occurrences other segments ≤ min

count_up_lem :
    (id q : StreamId) (counts : Dict StreamId ℕ)
    → or_zero (lookup q (count_up id counts))
      ≡ (if stream_eq id q then suc (or_zero (lookup q counts)) else or_zero (lookup q counts))
unfolding count_up or_zero
count_up_lem id q counts =
    ground (arith, lookup-insert id q (suc (or_zero (lookup id counts))) counts, stream_eq_iff id q)

count_up-IsDistinct :
    (id : StreamId) (counts : Dict StreamId ℕ) → IsDistinct counts → IsDistinct (count_up id counts)
unfolding count_up
count_up-IsDistinct id counts h = insert-IsDistinct id (suc (or_zero (lookup id counts))) counts h

tally-IsDistinct :
    (video : Bool) (window now : ℕ) (segments : List Segment) (counts : Dict StreamId ℕ)
    → IsDistinct counts
    → IsDistinct (tally video window now segments counts)
unfolding tally
tally-IsDistinct video window now [] counts h = h
tally-IsDistinct video window now (s ∷ segments) counts h =
    tally-IsDistinct video window now segments _ (by_test (ltb window (now - s.timestamp)) video)
  where
    by_test :
        (old picks : Bool)
        → IsDistinct (
            if old
            then counts
            else if str_eq s.stream_id.stream_type type_video
            then (if picks then count_up s.stream_id counts else counts)
            else if picks
            then counts
            else count_up s.stream_id counts)
    by_test true picks = h
    by_test false picks = elim (Bool-cases (str_eq s.stream_id.stream_type type_video)) [
      | inl v ↦ rw v (by_picks picks)
      | inr a ↦ rw a (by_not_picks picks)
    ]
      where
        by_picks :
            (picks : Bool) → IsDistinct (if picks then count_up s.stream_id counts else counts)
        by_picks true = count_up-IsDistinct s.stream_id counts h
        by_picks false = h

        by_not_picks :
            (picks : Bool) → IsDistinct (if picks then counts else count_up s.stream_id counts)
        by_not_picks true = h
        by_not_picks false = count_up-IsDistinct s.stream_id counts h

-- The tally holds, of each stream of its kind, how often it was asked for in the window.
tally_lem :
    (video : Bool) (window now : ℕ) (segments : List Segment) (counts : Dict StreamId ℕ)
    (q : StreamId)
    → or_zero (lookup q (tally video window now segments counts))
      ≡ or_zero (lookup q counts)
        + (if is_kind video q then occurrences q (recent window now segments) else 0)
unfolding tally
tally_lem video window now [] counts q = ground arith
tally_lem video window now (s ∷ segments) counts q = ground (
  arith,
  tally_lem video window now segments counts q,
  tally_lem video window now segments (count_up s.stream_id counts) q,
  count_up_lem s.stream_id q counts,
  stream_eq_iff s.stream_id q,
)

-- An entry found behind the first one is found, where no key stands twice.
lookup-later :
    (quality : StreamId) (count : ℕ) (qualities : Dict StreamId ℕ) (r : ℕ × StreamId)
    → lookup quality qualities ≡ none
    → lookup r.1 qualities ≡ some r.0
    → lookup r.1 ((quality, count) ∷ qualities) ≡ some r.0
unfolding lookup
lookup-later quality count qualities r fresh h = ground (arith, stream_eq_iff quality r.1)

-- No entry exceeds the result, which is where the loop began or the count of an entry.
abbrev IsGreatest : Dict StreamId ℕ → ℕ × StreamId → ℕ × StreamId → Type 0
IsGreatest qualities start r =
    (start.0 ≤ r.0)
    × ((q : StreamId) → or_zero (lookup q qualities) ≤ r.0)
    × ((r ≡ start) ⊎ (lookup r.1 qualities ≡ some r.0))

greater_step :
    (quality : StreamId) (count : ℕ) (qualities : Dict StreamId ℕ) (max : ℕ) (best : StreamId)
    (better : Bool) (r : ℕ × StreamId)
    → ltb max count ≡ better
    → lookup quality qualities ≡ none
    → IsGreatest qualities (if better then count else max, if better then quality else best) r
    → IsGreatest ((quality, count) ∷ qualities) (max, best) r
unfolding lookup or_zero
greater_step quality count qualities max best true r t fresh (above, most, inl e) = (
  ground (arith, stream_eq_iff quality quality),
  λ q. ground (arith, most q),
  inr (ground (arith, stream_eq_iff quality quality)),
)
greater_step quality count qualities max best true r t fresh (above, most, inr e) = (
  ground arith,
  λ q. ground (arith, most q),
  inr (lookup-later quality count qualities r fresh e),
)
greater_step quality count qualities max best false r t fresh (above, most, inl e) =
    (above, λ q. ground (arith, most q), inl e)
greater_step quality count qualities max best false r t fresh (above, most, inr e) =
    (above, λ q. ground (arith, most q), inr (lookup-later quality count qualities r fresh e))

max_loop_lem :
    (qualities : Dict StreamId ℕ) (max : ℕ) (best : StreamId)
    → IsDistinct qualities
    → IsGreatest qualities (max, best) (max_loop qualities max best)
unfolding max_loop lookup or_zero
max_loop_lem [] max best h = (omega arith, λ q. omega arith, inl refl)
max_loop_lem ((quality, count) ∷ qualities) max best (fresh, h) =
    let better = ltb max count in
    greater_step quality count qualities max best better _ refl fresh
      (max_loop_lem qualities (if better then count else max) (if better then quality else best) h)

zero-lookup-nil : (q : StreamId) → or_zero (lookup q []) ≡ 0
unfolding lookup or_zero
zero-lookup-nil q = refl

-- What is chosen from a tally is what the user watched most of in the window, if that is more than the least
-- number of segments, whatever order the segments came in; and nothing is chosen exactly if no stream of
-- the kind was asked for more often than that.
pub max_quality-tally :
    (video : Bool) (min window now : ℕ) (segments : List Segment)
    → Chosen video min
        (recent window now segments)
        (max_quality min (tally video window now segments []))
unfolding max_quality or_zero
max_quality-tally video min window now segments =
    by_result (max_loop counts 0 no_stream) (max_loop_lem counts 0 no_stream distinct)
      (Bool-cases (ltb min (max_loop counts 0 no_stream).0))
  where
    counts : Dict StreamId ℕ
    counts = tally video window now segments []

    distinct : IsDistinct counts
    distinct = tally-IsDistinct video window now segments [] tt

    counted :
        (q : StreamId)
        → or_zero (lookup q counts)
          ≡ (if is_kind video q then occurrences q (recent window now segments) else 0)
    counted q = ground (arith, tally_lem video window now segments [] q, zero-lookup-nil q)

    by_result :
        (r : ℕ × StreamId)
        → IsGreatest counts (0, no_stream) r
        → (ltb min r.0 ≡ true) ⊎ (ltb min r.0 ≡ false)
        → Chosen video min (recent window now segments) (r.1, ltb min r.0)
    by_result r (_, most, _) (inr few) =
        rw few (λ other kind. ground (arith, most other, counted other))
    by_result r (_, most, inl e) (inl many) = absurd (ground arith)
    by_result r (_, most, inr e) (inl many) = rw many (
      ground (arith, counted r.1),
      ground (arith, counted r.1),
      λ other kind. ground (arith, most other, counted other, counted r.1),
    )
