-- ===== src/Exporter/Tests.antt =====
-- The theorems on the exporter (cmd/transcoding-exporter/) at a concrete report, and runs of its functions.
use stream_api.Base.{
  ℕ, ◌+◌, ◌-◌, ◌*◌, ◌/◌, ◌≡◌, ◌⊎◌, refl, Bool, true, false, ◌&&◌, Option, none, some, List, [], ◌∷◌,
  ◌++◌, Str, str_Eq, codes, if◌then◌else◌, leb, ltb, map, arith,
}
use stream_api.Base.Text.Decimal.{value_from}
use stream_api.Base.Dict.{lookup}
use stream_api.Exporter.{
  Floats, Metrics, new_active, Request, aborted, read_line, read_lines, serve_http,
}
use stream_api.Exporter.Counters.{frames, duration, shown, numbers}
use stream_api.Exporter.Counters.Whole.{greatest, IsExact, shown-read_lines}
use stream_api.Exporter.Cleanup.{IsRefused, IsRead, serve_http_lem}

all_digits : Str → Bool
all_digits [] = true
all_digits (c ∷ s) = leb b'0' c && leb c b'9' && all_digits s

-- Whole numbers, and nothing else
abbrev parse_whole : Str → Option ℕ
parse_whole [] = none
parse_whole (c ∷ s) = if all_digits (c ∷ s) then some (1000000 * value_from 0 (c ∷ s)) else none

-- Millionths of a number
abbrev millionths : Floats
millionths = record {
  F = ℕ;
  origin = 0;
  add = λ a b. a + b;
  sub = λ a b. a - b;
  less = ltb;
  millionth = λ a. a / 1000000;
  parse_float = parse_whole;
}

abbrev is_ascii : Str → Bool
is_ascii [] = true
is_ascii (c ∷ text) = ltb c 128 && is_ascii text

abbrev whole : ℕ → ℕ
whole n = 1000000 * n

whole-IsExact : IsExact millionths 9007199254740992 whole
whole-IsExact = record {
  at_origin = refl;
  on_less = λ a b ha hb. ground arith;
  on_sub = λ a b h hb. omega arith;
  on_add = λ a b h. omega arith;
}

abbrev idle : Metrics millionths
idle = record {
  total_frames = (codes "s1", 100000000) ∷ [];
  total_dropped_frames = [];
  total_duplicated_frames = [];
  total_bytes = [];
  total_duration = [];
  current_bitrate = [];
  current_fps = [];
  current_speed = [];
}

abbrev report : List Str
report =
    codes "frame=25"
    ∷ codes "fps= 25"
    ∷ codes "bitrate=2000.5kbits/s"
    ∷ codes "speed=1x"
    ∷ []
    ∷ codes "frame=20"
    ∷ codes "frame=50"
    ∷ codes "out_time_us=2500000"
    ∷ []

frames_before : shown millionths frames (codes "s1") idle ≡ whole 100
unfolding lookup
frames_before = refl

frames_given : numbers millionths frames report ≡ map whole (25 ∷ 20 ∷ 50 ∷ [])
unfolding read_line all_digits value_from
frames_given = refl

shown-read_lines_example :
    let r = read_lines millionths is_ascii (codes "s1") report (new_active millionths, idle) in
    (r.0 ≡ false)
    × (shown millionths frames (codes "s1") r.2 ≡ whole (100 + greatest (25 ∷ 20 ∷ 50 ∷ [])))
shown-read_lines_example =
    shown-read_lines millionths 9007199254740992 whole whole-IsExact is_ascii frames (codes "s1")
      report idle 100 (25 ∷ 20 ∷ 50 ∷ []) refl frames_before frames_given (omega arith)

abbrev request : Request
request = record {
  method = codes "POST";
  path = codes "/progress/s1/x";
  lines = report;
  failed = false;
}

serve_http_lem_example :
    IsRefused millionths is_ascii request idle (serve_http millionths is_ascii request idle)
    ⊎ IsRead millionths is_ascii request
        (codes "s2")
        idle
        (serve_http millionths is_ascii request idle)
serve_http_lem_example = serve_http_lem millionths is_ascii request (codes "s2") idle

-- 2.5 seconds
duration_shown :
    shown millionths duration
      (codes "s1")
      (read_lines millionths is_ascii (codes "s1") report (new_active millionths, idle)).2
    ≡ 2500000
unfolding read_lines all_digits value_from
duration_shown = refl

gauges_read :
    (read_lines millionths is_ascii (codes "s1") report (new_active millionths, idle)).2.current_fps
    ≡ (codes "s1", 25000000) ∷ []
unfolding read_lines all_digits value_from
gauges_read = refl

speed_read : read_line millionths (codes "speed= 2x ") ≡ some (codes "speed", 2000000)
unfolding read_line all_digits value_from
speed_read = refl

-- What ffmpeg prints for the bitrate is not a number.
bitrate_unread : read_line millionths (codes "bitrate=2000.5kbits/s") ≡ none
unfolding read_line all_digits
bitrate_unread = refl

all_gone : (serve_http millionths is_ascii request idle).1.total_frames ≡ []
unfolding serve_http all_digits value_from
all_gone = refl

-- A stream that is no label
abbrev odd_request : Request
odd_request = record request { path = codes "/progress/" ++ (255 ∷ []) }

odd_answer : (serve_http millionths is_ascii odd_request idle).0 ≡ aborted
unfolding serve_http all_digits value_from
odd_answer = refl
