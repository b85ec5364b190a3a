-- ===== src/Exporter.antt =====
-- The exporter of transcoding metrics (cmd/transcoding-exporter/progress.go and metrics.go): it reads the
-- progress reports of ffmpeg. The float64 numbers and what the code does with them are the record `Floats`.
-- Prometheus panics on a label's value that is no text in UTF-8, which is what `label_ok` tests; the handler then
-- ends at once, after its deferred call, and its connection is closed: `aborted`.
pub mod Counters
pub mod Cleanup
pub mod Tests
use mathlib.Core.List.{reverse}
use stream_api.Base.{
  ℕ, Bool, true, false, ◌&&◌, ◌||◌, not, Option, none, some, List, [], ◌∷◌, Str, str_Eq, str_eq,
  codes, if◌then◌else◌, ltb, ◌==◌, ◌>>=◌,
}
use stream_api.Base.Dict.{Dict, lookup, insert, remove}
use stream_api.Base.Text.{split, trim_prefix, trim_suffix}

-- float64: 0, `+`, `-`, `<`, the division by 1e6, and `strconv.ParseFloat`
pub record Floats : Type 1 where
  pub F : Type 0
  pub origin : F
  pub add : F → F → F
  pub sub : F → F → F
  pub less : F → F → Bool
  pub millionth : F → F
  pub parse_float : Str → Option F

-- The ASCII characters that `strings.TrimSpace` cuts off
is_space : ℕ → Bool
is_space c = (c == 32) || (not (ltb c 9) && ltb c 14)

trim_left : Str → Str
unfolding is_space
trim_left [] = []
trim_left (c ∷ s) = if is_space c then trim_left s else c ∷ s

trim_space : Str → Str
unfolding trim_left
trim_space s = reverse (trim_left (reverse (trim_left s)))

-- `strings.SplitN(line, "=", 2)`, if it gives two parts
cut_pair : Str → Option (Str × Str)
cut_pair [] = none
cut_pair (c ∷ s) =
    if c == b'='
    then some ([], s)
    else elim (cut_pair s) [ none ↦ none | some (key, value) ↦ some (c ∷ key, value) ]

value_text : Str → Str → Str
unfolding trim_space trim_suffix
value_text key value =
    if str_eq key (codes "speed")
    then trim_suffix (trim_space value) (codes "x")
    else trim_space value

pub data Answer : Type 0 where
  ok : Answer
  bad_request : Answer
  method_not_allowed : Answer
  aborted : Answer

-- A request: `lines` are what `bufio.Scanner` makes of the body, without the ends of the lines, and `failed`
-- whether it ended with an error.
pub record Request : Type 0 where
  pub method : Str
  pub path : Str
  pub lines : List Str
  pub failed : Bool

abbrev first_part : List Str → Str
first_part [] = []
first_part (part ∷ _) = part

-- The first part of the path after `/progress/`
unfoldable pub stream_id : Str → Str
unfolding split trim_prefix
stream_id path = first_part (split (trim_prefix path (codes "/progress/")) b'/')

module _ (num : Floats) where
  open num use {F, origin, add, sub, less, millionth, parse_float}

  -- The vectors of counters and gauges, by the label `stream_id`.
  pub record Metrics : Type 0 where
    pub total_frames : Dict Str F
    pub total_dropped_frames : Dict Str F
    pub total_duplicated_frames : Dict Str F
    pub total_bytes : Dict Str F
    pub total_duration : Dict Str F
    pub current_bitrate : Dict Str F
    pub current_fps : Dict Str F
    pub current_speed : Dict Str F

  pub record ActiveStream : Type 0 where
    pub last_frame : F
    pub last_dropped : F
    pub last_dup : F
    pub last_bytes : F
    pub last_duration : F

  abbrev pub new_active : ActiveStream
  new_active = record {
    last_frame = origin;
    last_dropped = origin;
    last_dup = origin;
    last_bytes = origin;
    last_duration = origin;
  }

  abbrev pub or_origin : Option F → F
  or_origin none = origin
  or_origin (some x) = x

  -- `DeleteStream`
  unfoldable pub delete_stream : Str → Metrics → Metrics
  unfolding remove
  delete_stream id m = record {
    total_frames = remove id m.total_frames;
    total_dropped_frames = remove id m.total_dropped_frames;
    total_duplicated_frames = remove id m.total_duplicated_frames;
    total_bytes = remove id m.total_bytes;
    total_duration = remove id m.total_duration;
    current_bitrate = remove id m.current_bitrate;
    current_fps = remove id m.current_fps;
    current_speed = remove id m.current_speed;
  }

  with_value : Str → Option F → Option (Str × F)
  with_value key none = none
  with_value key (some value) = some (key, value)

  read_pair : Option (Str × Str) → Option (Str × F)
  unfolding with_value value_text
  read_pair none = none
  read_pair (some (key, text)) = with_value key (parse_float (value_text key text))

  -- The key and the number of a line, if it has both.
  unfoldable pub read_line : Str → Option (Str × F)
  unfolding read_pair cut_pair
  read_line line = read_pair (cut_pair line)

  module _ (label_ok : Str → Bool) where
    -- `WithLabelValues(streamID).Add(delta)`
    add_to : Str → F → Dict Str F → Option (Dict Str F)
    unfolding lookup insert
    add_to id delta counter =
        if label_ok id
        then some (insert id (add (or_origin (lookup id counter)) delta) counter)
        else none

    -- `WithLabelValues(streamID).Set(value)`
    set_to : Str → F → Dict Str F → Option (Dict Str F)
    unfolding insert
    set_to id value gauge = if label_ok id then some (insert id value gauge) else none

    -- `record`: the last value and the counter
    record_value : Str → F → F → Dict Str F → Option (F × Dict Str F)
    unfolding add_to
    record_value id last value counter =
        if less last value
        then (do after ← add_to id (sub value last) counter; some (value, after))
        else some (last, counter)

    -- `updateMetrics`
    pub update_metrics : Str → Str → F → ActiveStream × Metrics → Option (ActiveStream × Metrics)
    unfolding record_value set_to
    update_metrics id key value (s, m) =
        if str_eq key (codes "frame")
        then (do
          (last, counter) ← record_value id s.last_frame value m.total_frames
          some (record s { last_frame = last }, record m { total_frames = counter }))
        else if str_eq key (codes "drop_frames")
        then (do
          (last, counter) ← record_value id s.last_dropped value m.total_dropped_frames
          some (record s { last_dropped = last }, record m { total_dropped_frames = counter }))
        else if str_eq key (codes "dup_frames")
        then (do
          (last, counter) ← record_value id s.last_dup value m.total_duplicated_frames
          some (record s { last_dup = last }, record m { total_duplicated_frames = counter }))
        else if str_eq key (codes "total_size")
        then (do
          (last, counter) ← record_value id s.last_bytes value m.total_bytes
          some (record s { last_bytes = last }, record m { total_bytes = counter }))
        else if str_eq key (codes "out_time_us")
        then (do
          (last, counter) ← record_value id s.last_duration (millionth value) m.total_duration
          some (record s { last_duration = last }, record m { total_duration = counter }))
        else if str_eq key (codes "bitrate")
        then (do
          gauge ← set_to id value m.current_bitrate
          some (s, record m { current_bitrate = gauge }))
        else if str_eq key (codes "fps")
        then (do gauge ← set_to id value m.current_fps; some (s, record m { current_fps = gauge }))
        else if str_eq key (codes "speed")
        then (do
          gauge ← set_to id value m.current_speed
          some (s, record m { current_speed = gauge }))
        else some (s, m)

    apply_line : Str → Option (Str × F) → ActiveStream × Metrics → Option (ActiveStream × Metrics)
    unfolding update_metrics
    apply_line id none state = some state
    apply_line id (some (key, value)) state = update_metrics id key value state

    -- The loop of the scanner, over the lines of the body: whether it panicked, and the state. An empty
    -- line has no `=`.
    unfoldable pub read_lines :
        Str → List Str → ActiveStream × Metrics → Bool × ActiveStream × Metrics
    unfolding apply_line read_line
    read_lines id [] state = (false, state.0, state.1)
    read_lines id (line ∷ lines) state = elim (apply_line id (read_line line) state) [
      | none ↦ (true, state.0, state.1)
      | some after ↦ read_lines id lines after
    ]

    -- `ServeHTTP`: its deferred call of `DeleteStream` runs however the scan ended.
    unfoldable pub serve_http : Request → Metrics → Answer × Metrics
    unfolding read_lines delete_stream stream_id
    serve_http req m =
        if not (str_eq req.method (codes "POST")) && not (str_eq req.method (codes "PUT"))
        then (method_not_allowed, m)
        else if str_eq (stream_id req.path) []
        then (bad_request, m)
        else (let (panicked, _, read) = read_lines (stream_id req.path) req.lines (new_active, m) in
            (
              if panicked then aborted else (if req.failed then bad_request else ok),
              delete_stream (stream_id req.path) read,
            ))
