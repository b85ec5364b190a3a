-- ===== src/Publish/Sources.antt =====
-- The scrapers (publish/source/icecast.go, publish/source/srtrelay.go): what they make of an answer of their
-- server. HTTP is not part of it and JSON is a parameter, one function for each type that is decoded.
use stream_api.Base.{Option, none, some, List, [], ◌∷◌, Str, codes, ◌>>=◌}
use stream_api.Base.FilePath.{base}
use stream_api.Transcode.Claim.{Stream}

-- The field of an `IcecastStream` that the code reads
pub record IcecastStream : Type 0 where
  pub url : Str

pub record SrtStream : Type 0 where
  pub name : Str
  pub url : Str

-- `IcecastSource.mapStreams`
unfoldable pub map_streams : List IcecastStream → List Stream
unfolding base
map_streams [] = []
map_streams (source ∷ sources) =
    record {
      format = codes "matroska";
      source = source.url;
      slug = base source.url;
      published_at = 0;
    }
    ∷ map_streams sources

-- `SrtSource.mapSources`
unfoldable pub map_sources : List SrtStream → List Stream
map_sources [] = []
map_sources (s ∷ streams) =
    record { format = codes "mpegts"; source = s.url; slug = s.name; published_at = 0 }
    ∷ map_sources streams

-- What is decoded of the icecast statistics: the raw sources, if there are any.
pub record IcecastJson : Type 0 where
  pub decode_stats : Str → Option (Option Str)
  pub decode_list : Str → Option (List IcecastStream)
  pub decode_one : Str → Option IcecastStream

single : Option IcecastStream → Option (List IcecastStream)
single none = none
single (some stream) = some (stream ∷ [])

list_or_single : IcecastJson → Str → Option (List IcecastStream) → Option (List IcecastStream)
unfolding single
list_or_single json raw none = single (json.decode_one raw)
list_or_single json raw (some streams) = some streams

parse_sources : IcecastJson → Option Str → Option (List IcecastStream)
unfolding list_or_single
parse_sources json none = some []
parse_sources json (some raw) = list_or_single json raw (json.decode_list raw)

-- `IcecastSource.parse`; `none` is an error.
unfoldable pub parse : IcecastJson → Str → Option (List IcecastStream)
unfolding parse_sources
parse json text = do stats ← json.decode_stats text; parse_sources json stats

-- `Scrape` of both, from the body that the server sent
unfoldable pub scrape_icecast : IcecastJson → Str → Option (List Stream)
unfolding parse map_streams
scrape_icecast json text = do streams ← parse json text; some (map_streams streams)

unfoldable pub scrape_srt : (Str → Option (List SrtStream)) → Str → Option (List Stream)
unfolding map_sources
scrape_srt decode text = do streams ← decode text; some (map_sources streams)
