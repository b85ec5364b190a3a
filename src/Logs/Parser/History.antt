-- ===== src/Logs/Parser/History.antt =====
-- The invariant of the log parser over its whole life (logreceiver/parser.go): entries of the log, scrapes
-- of the metrics, ticks, and fetches of playlists that end, in the order of their times.
use stream_api.Base.{ℕ, ◌≤◌, none, List, [], ◌∷◌, Str, str_Eq}
use stream_api.Logs.{user_Eq}
use stream_api.Logs.Hls.{Fetch, new_hls_parser, update_playlists, finish_update}
use stream_api.Logs.Hls.Named.{update_playlists-HasNames, finish_update-HasNames}
use stream_api.Logs.Parser.{ParserConfig, NginxLogEntry, Parser, parse_entry, collect}
use stream_api.Logs.Parser.Valid.{IsValid, later-IsValid, parse_entry-IsValid, collect-IsValid}

-- `NewParser`, with the timeout of the streams
unfoldable pub new_parser : ParserConfig → ℕ → Parser
new_parser conf stream_timeout = record {
  conf = conf;
  hls = new_hls_parser stream_timeout;
  segments = [];
  viewers = [];
  last_count = none;
}

pub data Event : Type 0 where
  log_entry : NginxLogEntry → Event
  scrape : Event
  tick : Event
  fetched : Fetch → Str → Event

pub handle_event : ℕ → Event → Parser → Parser
unfolding parse_entry collect update_playlists finish_update
handle_event now (log_entry point) p = parse_entry now point p
handle_event now scrape p = (collect now p).1
handle_event now tick p = record p { hls = update_playlists now p.hls }
handle_event now (fetched fetch slug) p = record p { hls = finish_update fetch slug p.hls }

unfoldable pub run_events : List (ℕ × Event) → Parser → Parser
unfolding handle_event
run_events [] p = p
run_events ((now, event) ∷ events) p = run_events events (handle_event now event p)

handle_event-IsValid :
    (now : ℕ) (event : Event) (p : Parser) → IsValid now p → IsValid now (handle_event now event p)
unfolding handle_event
handle_event-IsValid now (log_entry point) p v = parse_entry-IsValid now point p v
handle_event-IsValid now scrape p v = collect-IsValid now p v
handle_event-IsValid now tick p v = record {
  distinct = v.distinct;
  in_order = v.in_order;
  named = update_playlists-HasNames now p.hls v.named;
}
handle_event-IsValid now (fetched fetch slug) p v = record {
  distinct = v.distinct;
  in_order = v.in_order;
  named = finish_update-HasNames fetch slug p.hls v.named;
}

-- The times of a history never fall, from a time on, and none is later than another time.
abbrev pub InOrder : ℕ → ℕ → List (ℕ × Event) → Type 0
InOrder from to [] = from ≤ to
InOrder from to ((now, _) ∷ events) = (from ≤ now) × InOrder now to events

run_events_from :
    (events : List (ℕ × Event)) (from to : ℕ) (p : Parser)
    → InOrder from to events
    → IsValid from p
    → IsValid to (run_events events p)
unfolding run_events
run_events_from [] from to p le v = later-IsValid from to p le v
run_events_from ((now, event) ∷ events) from to p (le, rest) v =
    run_events_from events now to (handle_event now event p) rest
      (handle_event-IsValid now event p (later-IsValid from now p le v))

-- However many entries, scrapes, ticks and fetches a new parser has handled, if the clock never went back, then no
-- user is listed twice, the segments of every user are in the order of their times and none is later than the
-- last time, and every quality that the parser knows has the name of its stream and of its key.
pub run_events-IsValid :
    (conf : ParserConfig) (stream_timeout to : ℕ) (events : List (ℕ × Event))
    → InOrder 0 to events
    → IsValid to (run_events events (new_parser conf stream_timeout))
unfolding new_parser new_hls_parser
run_events-IsValid conf stream_timeout to events h =
    run_events_from events 0 to (new_parser conf stream_timeout) h
      (record { distinct = tt; in_order = tt; named = tt })
