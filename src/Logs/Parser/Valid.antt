-- ===== src/Logs/Parser/Valid.antt =====
-- What holds of the log parser between its operations (logreceiver/parser.go), and that they keep it.
use stream_api.Base.{
  ℕ, ◌≤◌, ◌≡◌, refl, Option, none, some, List, [], ◌∷◌, ◌++◌, str_eq, str_Eq, codes, ◌==◌, All,
  arith, Bool-cases, inl, inr, length, drop, zero, suc,
}
use stream_api.Base.Dict.{Dict, lookup, IsDistinct, insert-IsDistinct, remove-IsDistinct}
use stream_api.Base.Dict.Entries.{All-insert, All-remove, All-lookup}
use stream_api.Logs.{UserId, user_Eq, StreamId, Segment}
use stream_api.Logs.Hls.{get_quality}
use stream_api.Logs.Hls.Named.{HasNames, get_quality-HasNames}
use stream_api.Logs.Parser.{
  NginxLogEntry, Parser, Groups, find_groups, or_no_segments, add_segment, add_found, parse_matched,
  parse_entry, remove_segments, count_user, count_loop, count, is_due, collect,
}
use stream_api.Logs.Parser.Window.{IsOrdered}

-- The segments of a user are in the order of their times, and none is later than `now`.
pub record IsPast (now : ℕ) (segments : List Segment) : Type 0 where
  pub ordered : IsOrdered segments
  pub past : All (λ s. s.timestamp ≤ now) segments

-- No user is listed twice, every user's segments are in order, and the qualities have their streams' names.
pub record IsValid (now : ℕ) (p : Parser) : Type 0 where
  pub distinct : IsDistinct p.segments
  pub in_order : All (λ e. IsPast now e.1) p.segments
  pub named : HasNames p.hls

All-later :
    (now later : ℕ) (segments : List Segment)
    → now ≤ later
    → All (λ s. s.timestamp ≤ now) segments
    → All (λ s. s.timestamp ≤ later) segments
All-later now later [] le h = tt
All-later now later (s ∷ segments) le (hs, h) = (omega arith, All-later now later segments le h)

later-All :
    (now later : ℕ) (users : Dict UserId (List Segment))
    → now ≤ later
    → All (λ e. IsPast now e.1) users
    → All (λ e. IsPast later e.1) users
later-All now later [] le h = tt
later-All now later ((user, segments) ∷ users) le (hs, h) = (
  record { ordered = hs.ordered; past = All-later now later segments le hs.past },
  later-All now later users le h,
)

pub later-IsValid : (now later : ℕ) (p : Parser) → now ≤ later → IsValid now p → IsValid later p
later-IsValid now later p le v = record {
  distinct = v.distinct;
  in_order = later-All now later p.segments le v.in_order;
  named = v.named;
}

All-append_one :
    (n : ℕ) (segments : List Segment) (s : Segment)
    → All (λ t. n ≤ t.timestamp) segments
    → n ≤ s.timestamp
    → All (λ t. n ≤ t.timestamp) (segments ++ (s ∷ []))
All-append_one n [] s h e = (e, tt)
All-append_one n (t ∷ segments) s (ht, h) e = (ht, All-append_one n segments s h e)

append-IsPast :
    (segments : List Segment) (s : Segment)
    → IsPast s.timestamp segments
    → IsPast s.timestamp (segments ++ (s ∷ []))
append-IsPast [] s h = record { ordered = (tt, tt); past = (omega arith, tt) }
append-IsPast (t ∷ segments) s h =
    let rest = append-IsPast segments s (record { ordered = h.ordered.1; past = h.past.1 }) in
    record {
      ordered = (All-append_one t.timestamp segments s h.ordered.0 h.past.0, rest.ordered);
      past = (h.past.0, rest.past);
    }

or_no_segments-IsPast :
    (now : ℕ) (user : UserId) (users : Dict UserId (List Segment)) (found : Option (List Segment))
    → lookup user users ≡ found
    → All (λ e. IsPast now e.1) users
    → IsPast now (or_no_segments found)
unfolding or_no_segments
or_no_segments-IsPast now user users none e h = record { ordered = tt; past = tt }
or_no_segments-IsPast now user users (some segments) e h =
    All-lookup (λ _ s. IsPast now s) user segments users h e

add_segment-IsValid :
    (now : ℕ) (user : UserId) (id : StreamId) (p : Parser)
    → IsValid now p
    → IsValid now (add_segment now user id p)
unfolding add_segment
add_segment-IsValid now user id p v =
    let before = or_no_segments (lookup user p.segments) in
    let segment : Segment = record { timestamp = now; stream_id = id } in
    record {
      distinct = insert-IsDistinct user (before ++ (segment ∷ [])) p.segments v.distinct;
      in_order =
          All-insert (IsPast now) user (before ++ (segment ∷ [])) p.segments
            (append-IsPast before segment
              (or_no_segments-IsPast now user p.segments (lookup user p.segments) refl v.in_order))
            v.in_order;
      named = v.named;
    }

add_found-IsValid :
    (now : ℕ) (user : UserId) (found : Option StreamId) (p : Parser)
    → IsValid now p
    → IsValid now (add_found now user found p)
unfolding add_found
add_found-IsValid now user none p v = v
add_found-IsValid now user (some id) p v = add_segment-IsValid now user id p v

parse_matched-IsValid :
    (now : ℕ) (point : NginxLogEntry) (found : Option Groups) (p : Parser)
    → IsValid now p
    → IsValid now (parse_matched now point found p)
unfolding parse_matched
parse_matched-IsValid now point none p v = v
parse_matched-IsValid now point (some g) p v =
    elim (Bool-cases (str_eq g.transport (codes "dash"))) [
      | inl dash ↦ rw dash v
      | inr other ↦ rw other (
          add_found-IsValid now
            (record { ip = point.address; agent = point.user_agent; country = point.country })
            (get_quality now g.slug g.transport g.file p.hls).0
            (record p { hls = (get_quality now g.slug g.transport g.file p.hls).1 })
            (record {
              distinct = v.distinct;
              in_order = v.in_order;
              named = get_quality-HasNames now g.slug g.transport g.file p.hls v.named;
            }))
    ]

pub parse_entry-IsValid :
    (now : ℕ) (point : NginxLogEntry) (p : Parser)
    → IsValid now p
    → IsValid now (parse_entry now point p)
unfolding parse_entry
parse_entry-IsValid now point p v = elim (Bool-cases (str_eq point.method (codes "GET"))) [
  | inl get ↦ rw get (parse_matched-IsValid now point (find_groups point.uri) p v)
  | inr other ↦ rw other v
]

All-drop :
    (now n : ℕ) (segments : List Segment) → IsPast now segments → IsPast now (drop n segments)
All-drop now zero segments h = h
All-drop now (suc n) [] h = h
All-drop now (suc n) (s ∷ segments) h =
    All-drop now n segments (record { ordered = h.ordered.1; past = h.past.1 })

count_user-IsValid :
    (now : ℕ) (user : UserId) (segments : List Segment) (p : Parser)
    → IsPast now segments
    → IsValid now p
    → IsValid now (count_user now user segments p)
unfolding count_user
count_user-IsValid now user segments p h v =
    let removed = remove_segments p.conf.sliding_window now segments in
    elim (Bool-cases (removed == length segments)) [
      | inl all ↦ rw all (record {
        distinct = remove-IsDistinct user p.segments v.distinct;
        in_order = All-remove (IsPast now) user p.segments v.in_order;
        named = v.named;
      })
      | inr not_all ↦ rw not_all (record {
        distinct = insert-IsDistinct user (drop removed segments) p.segments v.distinct;
        in_order =
            All-insert (IsPast now) user (drop removed segments) p.segments
              (All-drop now removed segments h) v.in_order;
        named = v.named;
      })
    ]

count_loop-IsValid :
    (now : ℕ) (users : Dict UserId (List Segment)) (p : Parser)
    → All (λ e. IsPast now e.1) users
    → IsValid now p
    → IsValid now (count_loop now users p)
unfolding count_loop
count_loop-IsValid now [] p h v = v
count_loop-IsValid now ((user, segments) ∷ users) p (first, h) v =
    count_loop-IsValid now users (count_user now user segments p) h
      (count_user-IsValid now user segments p first v)

count-IsValid : (now : ℕ) (p : Parser) → IsValid now p → IsValid now (count now p)
unfolding count
count-IsValid now p v =
    count_loop-IsValid now p.segments (record p { last_count = some now; viewers = [] }) v.in_order
      (record { distinct = v.distinct; in_order = v.in_order; named = v.named })

pub collect-IsValid : (now : ℕ) (p : Parser) → IsValid now p → IsValid now (collect now p).1
unfolding collect
collect-IsValid now p v = elim (Bool-cases (is_due now p.last_count)) [
  | inl due ↦ rw due (count-IsValid now p v)
  | inr early ↦ rw early v
]
