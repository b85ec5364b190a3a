-- ===== src/Logs/Parser/Bounds.antt =====
-- How many viewers a count can report (`count` of logreceiver/parser.go).
use stream_api.Base.{
  ℕ, ◌+◌, ◌≤◌, ◌≡◌, refl, Bool, true, false, not, some, List, [], ◌∷◌, if◌then◌else◌, ltb, arith,
  suc, length,
}
use stream_api.Base.Dict.{Dict, lookup, insert}
use stream_api.Logs.{UserId, StreamId, stream_Eq, stream_eq_iff, Segment}
use stream_api.Logs.Parser.{
  Parser, or_zero, count_up, count_best, max_quality, tally, count_user, count_loop, count,
}
use stream_api.Logs.Parser.Window.{recent}
use stream_api.Logs.Parser.Choice.{is_kind, occurrences, Chosen, max_quality-tally}

-- The viewers of all streams of a kind together.
abbrev pub total : Bool → Dict StreamId ℕ → ℕ
total video [] = 0
total video ((id, viewers) ∷ rest) = (if is_kind video id then viewers else 0) + total video rest

-- The users that asked for more than `min` segments in the window.
abbrev pub busy_users : ℕ → ℕ → ℕ → Dict UserId (List Segment) → ℕ
busy_users min window now [] = 0
busy_users min window now ((user, segments) ∷ users) =
    (if ltb min (length (recent window now segments)) then 1 else 0)
    + busy_users min window now users

total-insert :
    (video : Bool) (id : StreamId) (n : ℕ) (counts : Dict StreamId ℕ)
    → total video (insert id n counts)
        + (if is_kind video id then or_zero (lookup id counts) else 0)
      ≡ total video counts + (if is_kind video id then n else 0)
unfolding insert lookup or_zero
total-insert video id n [] = ground arith
total-insert video id n ((j, m) ∷ counts) =
    ground (arith, total-insert video id n counts, stream_eq_iff j id)

total-count_up :
    (video : Bool) (id : StreamId) (counts : Dict StreamId ℕ)
    → total video (count_up id counts) ≡ total video counts + (if is_kind video id then 1 else 0)
unfolding count_up
total-count_up video id counts =
    ground (arith, total-insert video id (suc (or_zero (lookup id counts))) counts)

occurrences-le :
    (id : StreamId) (segments : List Segment) → occurrences id segments ≤ length segments
occurrences-le id [] = omega arith
occurrences-le id (s ∷ segments) = ground (arith, occurrences-le id segments)

total-count_best :
    (video : Bool) (min : ℕ) (segments : List Segment) (choice : StreamId × Bool)
    (counts : Dict StreamId ℕ)
    → Chosen video min segments choice
    → total video (count_best choice counts)
      ≤ total video counts + (if ltb min (length segments) then 1 else 0)
unfolding count_best
total-count_best video min segments (id, true) counts (kind, many, _) =
    ground (arith, total-count_up video id counts, occurrences-le id segments)
total-count_best video min segments (id, false) counts h = omega arith

total-count_best_other :
    (video other : Bool) (min : ℕ) (segments : List Segment) (choice : StreamId × Bool)
    (counts : Dict StreamId ℕ)
    → other ≡ not video
    → Chosen other min segments choice
    → total video (count_best choice counts) ≡ total video counts
unfolding count_best
total-count_best_other video other min segments (id, true) counts e (kind, _, _) =
    ground (arith, total-count_up video id counts)
total-count_best_other video other min segments (id, false) counts e h = refl

-- Both choices of one user together.
total-user :
    (video : Bool) (min window now : ℕ) (segments : List Segment) (counts : Dict StreamId ℕ)
    → total video (
        count_best
          (max_quality min (tally false window now segments []))
          (count_best (max_quality min (tally true window now segments [])) counts))
      ≤ total video counts + (if ltb min (length (recent window now segments)) then 1 else 0)
total-user video min window now segments counts = by_kind video
  where
    videos : StreamId × Bool
    videos = max_quality min (tally true window now segments [])

    audios : StreamId × Bool
    audios = max_quality min (tally false window now segments [])

    rs : List Segment
    rs = recent window now segments

    by_kind :
        (kind : Bool)
        → total kind (count_best audios (count_best videos counts))
          ≤ total kind counts + (if ltb min (length rs) then 1 else 0)
    by_kind true = omega (
      arith,
      total-count_best_other true false min rs audios (count_best videos counts) refl
          (max_quality-tally false min window now segments),
      total-count_best true min rs videos counts (max_quality-tally true min window now segments),
    )
    by_kind false = omega (
      arith,
      total-count_best_other false true min rs videos counts refl
          (max_quality-tally true min window now segments),
      total-count_best false min rs audios (count_best videos counts)
          (max_quality-tally false min window now segments),
    )

count_user-conf :
    (now : ℕ) (user : UserId) (segments : List Segment) (p : Parser)
    → (count_user now user segments p).conf ≡ p.conf
unfolding count_user
count_user-conf now user segments p = ground arith

total-count_user :
    (video : Bool) (now : ℕ) (user : UserId) (segments : List Segment) (p : Parser)
    → total video (count_user now user segments p).viewers
      ≤ total video p.viewers
        + (if ltb p.conf.min_segments (length (recent p.conf.sliding_window now segments))
            then 1
            else 0)
unfolding count_user
total-count_user video now user segments p =
    ground
      (arith, total-user video p.conf.min_segments p.conf.sliding_window now segments p.viewers)

total-count_loop :
    (video : Bool) (now : ℕ) (users : Dict UserId (List Segment)) (p : Parser)
    → total video (count_loop now users p).viewers
      ≤ total video p.viewers + busy_users p.conf.min_segments p.conf.sliding_window now users
unfolding count_loop
total-count_loop video now [] p = omega arith
total-count_loop video now ((user, segments) ∷ users) p =
    let rest = total-count_loop video now users (count_user now user segments p) in
    let kept_conf = rw (count_user-conf now user segments p) at rest in
    omega (arith, kept_conf, total-count_user video now user segments p)

-- After a count, the viewers of all video streams together are at most the users that asked for more than
-- `min_segments` segments in the window, and so are those of all audio streams: no user counts twice.
pub total-count :
    (video : Bool) (now : ℕ) (p : Parser)
    → total video (count now p).viewers
      ≤ busy_users p.conf.min_segments p.conf.sliding_window now p.segments
unfolding count
total-count video now p = omega (
  arith,
  total-count_loop video now p.segments (record p { last_count = some now; viewers = [] }),
)
