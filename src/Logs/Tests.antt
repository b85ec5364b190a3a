-- ===== src/Logs/Tests.antt =====
-- The theorems on the log receiver (logreceiver/) at concrete entries, and runs of its functions.
use stream_api.Base.{ℕ, ◌≤◌, ◌≡◌, refl, true, none, some, List, [], ◌∷◌, str_Eq, codes, arith}
use stream_api.Base.Dict.{lookup, IsDistinct}
use stream_api.Logs.{
  UserId, user_Eq, StreamId, stream_Eq, Segment, transport_hls, type_video, type_audio,
}
use stream_api.Logs.Hls.{media, playlist, Fetch, HlsParser, new_hls_parser}
use stream_api.Logs.Hls.Named.{HasNames}
use stream_api.Logs.Parser.{
  ParserConfig, NginxLogEntry, Parser, find_groups, parse_entry, tally, max_quality, count,
}
use stream_api.Logs.Parser.Window.{recent, kept, lookup-count}
use stream_api.Logs.Parser.Choice.{Chosen, max_quality-tally}
use stream_api.Logs.Parser.Bounds.{total, busy_users, total-count}
use stream_api.Logs.Parser.Attribution.{Attributes, user_of, parse_entry-Attributes}
use stream_api.Logs.Parser.Valid.{IsValid}
use stream_api.Logs.Parser.History.{
  Event, log_entry, scrape, tick, fetched, new_parser, run_events, run_events-IsValid,
}

abbrev hd : StreamId
hd = record {
  slug = codes "s1";
  transport = transport_hls;
  stream_type = type_video;
  variant = [];
  quality = codes "hd";
  meta = codes "1920x1080";
}

abbrev english : StreamId
english = record {
  slug = codes "s1";
  transport = transport_hls;
  stream_type = type_audio;
  variant = [];
  quality = codes "en";
  meta = codes "eng";
}

abbrev entry : NginxLogEntry
entry = record {
  address = codes "10.0.0.1";
  method = codes "GET";
  uri = codes "/hls/s1/hd_007.ts";
  user_agent = codes "VLC";
  country = codes "DE";
}

abbrev viewer : UserId
viewer = user_of entry

abbrev watched : List Segment
watched =
    record { timestamp = 1; stream_id = hd }
    ∷ record { timestamp = 6; stream_id = hd }
    ∷ record { timestamp = 7; stream_id = english }
    ∷ record { timestamp = 8; stream_id = hd }
    ∷ []

abbrev conf : ParserConfig
conf = record { sliding_window = 5; min_segments = 1 }

abbrev hls : HlsParser
hls = record {
  streams =
      (
        codes "s1",
        record {
          transport = transport_hls;
          qualities = (codes "hd", hd) ∷ (codes "en", english) ∷ [];
          last_used = 0;
        },
      )
      ∷ [];
  stream_timeout = 900;
}

abbrev parser : Parser
parser = record {
  conf = conf;
  hls = hls;
  segments = (viewer, watched) ∷ [];
  viewers = [];
  last_count = none;
}

parser-IsDistinct : IsDistinct parser.segments
unfolding lookup
parser-IsDistinct = (refl, tt)

lookup-count_example :
    lookup viewer (count 9 parser).segments ≡ kept 5 9 (lookup viewer parser.segments)
lookup-count_example = lookup-count 9 parser viewer parser-IsDistinct (omega arith)

max_quality-tally_example :
    Chosen true 1 (recent 5 9 watched) (max_quality 1 (tally true 5 9 watched []))
max_quality-tally_example = max_quality-tally true 1 5 9 watched

total-count_example : total true (count 9 parser).viewers ≤ busy_users 1 5 9 parser.segments
total-count_example = total-count true 9 parser

hls-HasNames : HasNames hls
hls-HasNames = (
  (record { of_stream = refl; of_key = refl }, (record { of_stream = refl; of_key = refl }, tt)),
  tt,
)

parse_entry-Attributes_example : Attributes 10 entry viewer parser (parse_entry 10 entry parser)
parse_entry-Attributes_example = parse_entry-Attributes 10 entry viewer parser hls-HasNames

abbrev server : Fetch
server url = some (record {
  is_master = true;
  items =
      media (record {
        media_type = codes "AUDIO";
        language = some (codes "eng");
        uri = some (codes "en_stream.m3u8");
      })
      ∷ playlist (record { uri = codes "hd.m3u8"; width = some 1920; height = some 1080 })
      ∷ [];
})

abbrev history : List (ℕ × Event)
history =
    (1, log_entry entry)
    ∷ (2, fetched server (codes "s1"))
    ∷ (3, log_entry entry)
    ∷ (3, tick)
    ∷ (4, scrape)
    ∷ []

run_events-IsValid_example : IsValid 4 (run_events history (new_parser conf 0))
run_events-IsValid_example = run_events-IsValid conf 0 4 history (omega arith)

-- The first entry makes the stream known, and the second one counts.
history_segments :
    (run_events history (new_parser conf 0)).segments
    ≡ (viewer, record { timestamp = 3; stream_id = hd } ∷ []) ∷ []
unfolding run_events new_parser new_hls_parser
history_segments = refl

-- The viewer of two segments in the window counts for the video, and not for the audio, seen once.
count_viewers : (count 9 parser).viewers ≡ (hd, 1) ∷ []
unfolding count
count_viewers = refl

uri_of_dash :
    (find_groups (codes "/x/hls//dash/s1/a/b.m4s"))
    ≡ some (record { transport = codes "dash"; slug = codes "s1"; file = codes "a/b.m4s" })
unfolding find_groups
uri_of_dash = refl
