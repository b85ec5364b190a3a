-- ===== src/Logs/Parser.antt =====
-- The segments that each user has asked for, and the viewers counted from them (logreceiver/parser.go).
-- The socket, the syslog envelope and the JSON of an entry are I/O; a clock reading is an argument. One
-- call reads the clock once here, where the code reads it again for each segment that it compares.
pub mod Window
pub mod Choice
pub mod Bounds
pub mod Uri
pub mod Attribution
pub mod Valid
pub mod History
use stream_api.Base.{
  ℕ, zero, suc, ◌+◌, ◌-◌, ◌*◌, ◌==◌, Bool, true, false, ◌&&◌, ◌||◌, not, Option, none, some, List,
  [], ◌∷◌, ◌++◌, Str, str_Eq, str_eq, codes, if◌then◌else◌, ltb, length, drop,
}
use stream_api.Base.Dict.{Dict, lookup, insert, remove}
use stream_api.Base.Text.{has_prefix}
use stream_api.Base.FilePath.{slash, before_slash}
use stream_api.Logs.{
  UserId, user_Eq, StreamId, stream_Eq, Segment, transport_hls, transport_hlsll, type_video,
}
use stream_api.Logs.Hls.{HlsParser, get_quality, second}

-- The fields of an entry that the code reads.
pub record NginxLogEntry : Type 0 where
  pub address : Str
  pub method : Str
  pub uri : Str
  pub user_agent : Str
  pub country : Str

pub record ParserConfig : Type 0 where
  pub sliding_window : ℕ
  pub min_segments : ℕ

-- `last_count` is `none` for the zero time.
pub record Parser : Type 0 where
  pub conf : ParserConfig
  pub hls : HlsParser
  pub segments : Dict UserId (List Segment)
  pub viewers : Dict StreamId ℕ
  pub last_count : Option ℕ

pub record Groups : Type 0 where
  pub transport : Str
  pub slug : Str
  pub file : Str

unfoldable pub has_newline : Str → Bool
has_newline [] = false
has_newline (c ∷ s) = (c == 10) || has_newline s

-- What follows the first slash, if there is one.
abbrev after_slash : Str → Option Str
after_slash [] = none
after_slash (c ∷ s) = if c == slash then some s else after_slash s

-- `([^\/]+)\/(.+)$` at the start of a text
file_groups : Str → Str → Option Str → Option Groups
unfolding has_newline
file_groups transport [] rest = none
file_groups transport (c ∷ slug) none = none
file_groups transport (c ∷ slug) (some []) = none
file_groups transport (c ∷ slug) (some (d ∷ file)) =
    if has_newline (d ∷ file)
    then none
    else some (record { transport = transport; slug = c ∷ slug; file = d ∷ file })

slug_groups : Str → Str → Option Groups
unfolding file_groups
slug_groups transport rest = file_groups transport (before_slash rest) (after_slash rest)

-- The whole pattern at the start of a text
groups_here : Str → Option Groups
unfolding slug_groups has_prefix
groups_here s =
    if has_prefix s (codes "/dash/")
    then slug_groups (codes "dash") (drop 6 s)
    else if has_prefix s (codes "/hls/")
    then slug_groups transport_hls (drop 5 s)
    else if has_prefix s (codes "/hlsll/")
    then slug_groups transport_hlsll (drop 7 s)
    else none

or_else : Option Groups → Option Groups → Option Groups
or_else none later = later
or_else (some g) later = some g

-- `uriRegexp.FindStringSubmatch`: the leftmost match
unfoldable pub find_groups : Str → Option Groups
unfolding groups_here or_else
find_groups [] = none
find_groups (c ∷ s) = or_else (groups_here (c ∷ s)) (find_groups s)

or_no_segments : Option (List Segment) → List Segment
or_no_segments none = []
or_no_segments (some segments) = segments

unfoldable pub add_segment : ℕ → UserId → StreamId → Parser → Parser
unfolding or_no_segments lookup insert
add_segment now user id p =
    let segment : Segment = record { timestamp = now; stream_id = id } in
    let before = or_no_segments (lookup user p.segments) in
    record p { segments = insert user (before ++ segment ∷ []) p.segments }

add_found : ℕ → UserId → Option StreamId → Parser → Parser
unfolding add_segment
add_found now user none p = p
add_found now user (some id) p = add_segment now user id p

parse_matched : ℕ → NginxLogEntry → Option Groups → Parser → Parser
unfolding add_found get_quality
parse_matched now point none p = p
parse_matched now point (some g) p =
    if str_eq g.transport (codes "dash")
    then p
    else (let (found, hls) = get_quality now g.slug g.transport g.file p.hls in
        add_found now
          (record { ip = point.address; agent = point.user_agent; country = point.country }) found
          (record p { hls = hls }))

unfoldable pub parse_entry : ℕ → NginxLogEntry → Parser → Parser
unfolding parse_matched find_groups
parse_entry now point p =
    if str_eq point.method (codes "GET")
    then parse_matched now point (find_groups point.uri) p
    else p

-- How many segments stand up to the last one that is older than the window.
unfoldable pub remove_segments : ℕ → ℕ → List Segment → ℕ
remove_segments window now [] = 0
remove_segments window now (s ∷ segments) =
    let rest = remove_segments window now segments in
    if 0 == rest then (if ltb window (now - s.timestamp) then 1 else 0) else suc rest

or_zero : Option ℕ → ℕ
or_zero none = 0
or_zero (some n) = n

-- `counts[id] += 1`
unfoldable pub count_up : StreamId → Dict StreamId ℕ → Dict StreamId ℕ
unfolding or_zero lookup insert
count_up id counts = insert id (suc (or_zero (lookup id counts))) counts

-- The segments in the window of the one kind, video or not, by their stream.
unfoldable pub tally : Bool → ℕ → ℕ → List Segment → Dict StreamId ℕ → Dict StreamId ℕ
unfolding count_up
tally video window now [] counts = counts
tally video window now (s ∷ segments) counts = tally video window now segments (
    if ltb window (now - s.timestamp)
    then counts
    else if str_eq s.stream_id.stream_type type_video
    then (if video then count_up s.stream_id counts else counts)
    else if video
    then counts
    else count_up s.stream_id counts)

-- The loop of `maxQuality`, with the greatest count so far and its stream.
max_loop : Dict StreamId ℕ → ℕ → StreamId → ℕ × StreamId
max_loop [] max best = (max, best)
max_loop ((quality, count) ∷ qualities) max best =
    let better = ltb max count in
    max_loop qualities (if better then count else max) (if better then quality else best)

abbrev no_stream : StreamId
no_stream = record {
  slug = [];
  transport = [];
  stream_type = [];
  variant = [];
  quality = [];
  meta = [];
}

unfoldable pub max_quality : ℕ → Dict StreamId ℕ → StreamId × Bool
unfolding max_loop
max_quality min_segments qualities =
    let (max, best) = max_loop qualities 0 no_stream in (best, ltb min_segments max)

count_best : StreamId × Bool → Dict StreamId ℕ → Dict StreamId ℕ
unfolding count_up
count_best (id, ok) viewers = if ok then count_up id viewers else viewers

-- One round of the loop over the users. Which of the streams with the same count Go takes depends on the order
-- of its map; here it is the one that was seen first.
unfoldable pub count_user : ℕ → UserId → List Segment → Parser → Parser
unfolding remove_segments tally max_quality count_best insert remove
count_user now user segments p =
    let window = p.conf.sliding_window in
    let removed = remove_segments window now segments in
    if removed == length segments
    then record p { segments = remove user p.segments }
    else record p {
      segments = insert user (drop removed segments) p.segments;
      viewers = count_best (max_quality p.conf.min_segments (tally false window now segments [])) (
          count_best (max_quality p.conf.min_segments (tally true window now segments []))
            p.viewers);
    }

unfoldable pub count_loop : ℕ → Dict UserId (List Segment) → Parser → Parser
unfolding count_user
count_loop now [] p = p
count_loop now ((user, segments) ∷ users) p = count_loop now users (count_user now user segments p)

unfoldable pub count : ℕ → Parser → Parser
unfolding count_loop
count now p = count_loop now p.segments (record p { last_count = some now; viewers = [] })

-- `time.Since(p.lastCount) > time.Second*3`
is_due : ℕ → Option ℕ → Bool
is_due now none = true
is_due now (some last) = ltb (3 * second) (now - last)

-- The viewers that are handed to prometheus, and the parser.
unfoldable pub collect : ℕ → Parser → Dict StreamId ℕ × Parser
unfolding is_due count
collect now p =
    let counted = if is_due now p.last_count then count now p else p in (counted.viewers, counted)
