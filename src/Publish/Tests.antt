-- ===== src/Publish/Tests.antt =====
-- The theorem on the publisher (publish/publisher.go) at a concrete stream.
use stream_api.Base.{◌-◌, ◌≡◌, refl, true, none, some, [], ◌∷◌, str_Eq, codes, if◌then◌else◌, ltb}
use stream_api.Base.Dict.{lookup, IsDistinct}
use stream_api.Transcode.Claim.{Stream}
use stream_api.Publish.{StoredStream, Publisher, World, process_update}
use stream_api.Publish.Sources.{map_streams}
use stream_api.Publish.Refresh.{refreshed, lookup-process_update}
use stream_api.Publish.Expiry.{expire_times, lookup-expire_times}

abbrev open_world : World
open_world = record { puts = λ key. true; deletes = λ key. true }

abbrev stored : StoredStream
stored = record {
  st = record {
    format = codes "matroska";
    source = codes "http://in/s1";
    slug = codes "s1";
    published_at = 1;
  };
  ttl = 3;
}

abbrev publisher : Publisher
publisher = record { ttl = 3; streams = (codes "s1", stored) ∷ []; store = [] }

publisher-IsDistinct : IsDistinct publisher.streams
unfolding lookup
publisher-IsDistinct = (refl, tt)

stored_found : lookup (codes "s1") publisher.streams ≡ some stored
unfolding lookup
stored_found = refl

lookup-expire_times_example :
    lookup (codes "s1") (expire_times open_world 2 publisher).streams
    ≡ (if ltb 2 stored.ttl then some (record stored { ttl = stored.ttl - 2 }) else none)
lookup-expire_times_example =
    lookup-expire_times open_world 1 publisher (codes "s1") stored (λ key. refl)
      publisher-IsDistinct stored_found

abbrev other_stream : Stream
other_stream = record {
  format = codes "flv";
  source = codes "http://in/s2";
  slug = codes "s2";
  published_at = 2;
}

lookup-process_update_example :
    lookup (codes "s2") (process_update open_world (other_stream ∷ []) publisher).streams
    ≡ refreshed open_world 3
        (codes "s2")
        (other_stream ∷ [])
        (lookup (codes "s2") publisher.streams)
lookup-process_update_example =
    lookup-process_update open_world (other_stream ∷ []) publisher (codes "s2")

-- The slug of an icecast stream is the last part of its mount.
icecast_slug :
    map_streams (record { url = codes "http://ice:8000/s1" } ∷ [])
    ≡ record {
      format = codes "matroska";
      source = codes "http://ice:8000/s1";
      slug = codes "s1";
      published_at = 0;
    }
      ∷ []
unfolding map_streams
icecast_slug = refl
