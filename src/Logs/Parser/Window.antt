-- ===== src/Logs/Parser/Window.antt =====
-- Which segments of a user a count leaves (`count` of logreceiver/parser.go).
use stream_api.Base.{
  ℕ, ◌+◌, ◌-◌, ◌≤◌, ◌<◌, ◌≡◌, refl, ap, Option, none, some, is_some, List, [], ◌∷◌, if◌then◌else◌,
  ltb, ◌==◌, length, drop, length-drop, All, arith,
}
use stream_api.Base.Dict.{Dict, lookup, lookup-insert, lookup-remove, IsDistinct}
use stream_api.Logs.{UserId, user_Eq, user_eq, user_eq_iff, Segment}
use stream_api.Logs.Parser.{Parser, remove_segments, count_user, count_loop, count}

-- The segments no older than the window.
abbrev pub recent : ℕ → ℕ → List Segment → List Segment
recent window now [] = []
recent window now (s ∷ segments) =
    if ltb window (now - s.timestamp)
    then recent window now segments
    else s ∷ recent window now segments

-- The timestamps never fall.
abbrev pub IsOrdered : List Segment → Type 0
IsOrdered [] = Unit
IsOrdered (s ∷ segments) = All (λ t. s.timestamp ≤ t.timestamp) segments × IsOrdered segments

-- What a count makes of a user's entry.
abbrev some_if_any : List Segment → Option (List Segment)
some_if_any [] = none
some_if_any (s ∷ segments) = some (s ∷ segments)

abbrev pub kept : ℕ → ℕ → Option (List Segment) → Option (List Segment)
kept window now none = none
kept window now (some segments) = some_if_any (recent window now segments)

module _ (window now : ℕ) where
  old_before :
      (time : ℕ) (segments : List Segment)
      → All (λ t. time ≤ t.timestamp) segments
      → 0 < remove_segments window now segments
      → window < now - time
  unfolding remove_segments
  old_before time [] h p = absurd (omega arith)
  old_before time (s ∷ segments) (hs, h) p = ground (arith, old_before time segments h)

  pub drop-remove_segments :
      (segments : List Segment)
      → IsOrdered segments
      → drop (remove_segments window now segments) segments ≡ recent window now segments
  unfolding remove_segments
  drop-remove_segments [] h = refl
  drop-remove_segments (s ∷ segments) (hs, h) =
      ground (arith, drop-remove_segments segments h, old_before s.timestamp segments hs)

  remove_segments-le :
      (segments : List Segment) → remove_segments window now segments ≤ length segments
  unfolding remove_segments
  remove_segments-le [] = omega arith
  remove_segments-le (s ∷ segments) = ground (arith, remove_segments-le segments)

  length-recent :
      (segments : List Segment)
      → IsOrdered segments
      → length (recent window now segments) + remove_segments window now segments ≡ length segments
  length-recent segments h = omega (
    arith,
    ap length (drop-remove_segments segments h),
    length-drop (remove_segments window now segments) segments,
    remove_segments-le segments,
  )

  -- All are removed exactly if none is recent, and else the recent ones stay.
  pub kept_lem :
      (segments : List Segment)
      → IsOrdered segments
      → (if remove_segments window now segments == length segments
          then none
          else some (drop (remove_segments window now segments) segments))
        ≡ kept window now (some segments)
  kept_lem segments h =
      rw (drop-remove_segments segments h)
        (by_recent (recent window now segments) (length-recent segments h))
    where
      by_recent :
          (some_recent : List Segment)
          → length some_recent + remove_segments window now segments ≡ length segments
          → (if remove_segments window now segments == length segments
              then none
              else some some_recent)
            ≡ some_if_any some_recent
      by_recent [] e = ground arith
      by_recent (s ∷ rest) e = ground arith

count_user_lem :
    (now : ℕ) (user q : UserId) (segments : List Segment) (p : Parser)
    → IsOrdered segments
    → (lookup q (count_user now user segments p).segments ≡ (
        if user_eq user q
        then kept p.conf.sliding_window now (some segments)
        else lookup q p.segments))
      × ((count_user now user segments p).conf ≡ p.conf)
unfolding count_user
count_user_lem now user q segments p h = ground (
  arith,
  kept_lem p.conf.sliding_window now segments h,
  lookup-remove user q p.segments,
  lookup-insert user q (drop (remove_segments p.conf.sliding_window now segments) segments)
      p.segments,
)

-- The segments of each user are in the order of their times.
abbrev pub AllOrdered : Dict UserId (List Segment) → Type 0
AllOrdered = All (λ e. IsOrdered e.1)

count_loop_lem :
    (now : ℕ) (users : Dict UserId (List Segment)) (q : UserId) (p : Parser)
    → IsDistinct users
    → AllOrdered users
    → lookup q (count_loop now users p).segments ≡ (
        if is_some (lookup q users)
        then kept p.conf.sliding_window now (lookup q users)
        else lookup q p.segments)
unfolding count_loop lookup
count_loop_lem now [] q p d h = refl
count_loop_lem now ((user, segments) ∷ users) q p (fresh, d) (first, h) = ground (
  arith,
  count_loop_lem now users q (count_user now user segments p) d h,
  count_user_lem now user q segments p first,
  user_eq_iff user q,
  fresh,
)

-- Where no user is listed twice and each user's segments are in the order of their times, a count leaves every
-- user the segments that are no older than the window, all of them and in the same order, and it leaves no
-- entry for a user without such a segment, and none for a user that had none.
pub lookup-count :
    (now : ℕ) (p : Parser) (q : UserId)
    → IsDistinct p.segments
    → AllOrdered p.segments
    → lookup q (count now p).segments ≡ kept p.conf.sliding_window now (lookup q p.segments)
unfolding count
lookup-count now p q d h =
    ground (
      arith,
      count_loop_lem now p.segments q (record p { last_count = some now; viewers = [] }) d h,
    )
