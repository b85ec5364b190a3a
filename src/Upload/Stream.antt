-- ===== src/Upload/Stream.antt =====
-- `Stream` (upload/stream.go). Times and durations are nanoseconds; the zero time is 0. The map of
-- parsers has one key, "hls". The field `directories` is never read and is left out.
pub mod Origin
use stream_api.Base.{
  ℕ, ◌+◌, Bool, true, false, Option, none, some, [], Str, str_eq, if◌then◌else◌, ltb, not, ◌>>=◌,
}
use stream_api.Base.Int.{ℤ, pos, ◌-ℤ◌, leb_ℤ}
use stream_api.Upload.Channels.{Channels, make_channel, close}
use stream_api.Upload.Hls.{HlsParser, new_hls_parser, close_tracked}

pub record Stream : Type 0 where
  pub slug : Str
  pub timeout : ℕ
  pub origin_timeout : ℕ
  pub ttl : ℤ
  pub origin : Str
  pub origin_updated : ℕ
  pub alive : ℕ
  pub parser : Option HlsParser

unfoldable pub new_stream : Str → ℕ → ℕ → Channels → Stream × Channels
unfolding make_channel
new_stream slug timeout origin_timeout cs =
    let (alive, made) = make_channel cs in
    (
      record {
        slug = slug;
        timeout = timeout;
        origin_timeout = origin_timeout;
        ttl = pos timeout;
        origin = [];
        origin_updated = 0;
        alive = alive;
        parser = none;
      },
      made,
    )

pub data StreamError : Type 0 where
  invalid_origin : StreamError

-- `Update`, with the clock.
unfoldable pub update : Str → ℕ → Stream → Option StreamError × Stream
update origin now s =
    let updated = record s { origin = origin; origin_updated = now; ttl = pos s.timeout } in
    if not (str_eq origin s.origin)
    then (if ltb now (s.origin_updated + s.origin_timeout)
        then (some invalid_origin, s)
        else (none, updated))
    else (none, updated)

-- `Age`
unfoldable pub age : ℕ → Stream → Bool × Stream
age duration s = let ttl = s.ttl -ℤ pos duration in (leb_ℤ ttl (pos 0), record s { ttl = ttl })

unfoldable pub cleanup_parser : Option HlsParser → Channels → Option Channels
unfolding close_tracked
cleanup_parser none cs = some cs
cleanup_parser (some p) cs = close_tracked p.files cs

-- `Cleanup`: the stream's channel is closed, then those of its parser. `none` is a panic.
unfoldable pub cleanup : Stream → Channels → Option (Stream × Channels)
unfolding cleanup_parser close
cleanup s cs = do
  cs' ← close s.alive cs
  cs'' ← cleanup_parser s.parser cs'
  some (record s { parser = none }, cs'')

-- `GetHLSParser`; the caller puts the parser back after its use.
unfoldable pub get_hls_parser : (Str → Bool) → Str → Str → ℕ → Stream → Option (HlsParser × Stream)
unfolding new_hls_parser
get_hls_parser label_ok slug base_path size s = elim s.parser [
  | some p ↦ some (p, s)
  | none ↦ do
    p ← new_hls_parser label_ok slug base_path size
    some (p, record s { parser = some p })
]
