-- ===== src/Upload/Tests/Requests.antt =====
-- The theorems on requests (upload/auth.go, upload/handler.go, upload/server.go) at a concrete upload.
use mathlib.Core.Option.{some-injective}
use stream_api.Base.{
  true, sym, ◌∙◌, ◌≡◌, ◌+◌, ◌*◌, refl, Bool, false, Option, none, some, Runs, List, [], ◌∷◌, Str,
  codes, arith, str_Eq, str_eq, if◌then◌else◌, ◌>>=◌,
}
use stream_api.Base.Dict.{insert}
use stream_api.Base.FilePath.{dir, base, join_path, ext, slash}
use stream_api.Base.Int.{pos}
use stream_api.Base.Text.{Lacks}
use stream_api.Upload.Channels.{no_channels}
use stream_api.Upload.Registry.{FileRegistry, register_file, keep_file, file_status}
use stream_api.Upload.Registry.Lifetime.{has_keep}
use stream_api.Upload.Stream.{Stream}
use stream_api.Upload.Store.{get_stream}
use stream_api.Upload.Auth.{StaticAuth, AuthConfigEntry, auth}
use stream_api.Upload.Auth.Sound.{IsAllowed, auth_sound}
use stream_api.Upload.Writer.{Files}
use stream_api.Upload.Handler.{Handler, Body, handle_file, validate, is_thumbnail, copy_failed}
use stream_api.Upload.Handler.Registers.{handle_file_segment}
use stream_api.Upload.Handler.Server.{Request, Response, authenticate, ok, handle_upload}
use stream_api.Upload.Handler.Server.Guards.{IsGuarded, handle_upload-IsGuarded}
use stream_api.Upload.Handler.Total.{IsSound}
use stream_api.Upload.Handler.Server.Run.{
  ServerConfig, Event, request, store_tick, registry_tick, new_handler, stop, handle_events,
}
use stream_api.Upload.Handler.Server.Answers.{HasLabels}
use stream_api.Upload.Handler.Server.Sound.{server-Runs}
use stream_api.Upload.Tests.{test_lib}

abbrev alice : AuthConfigEntry
alice = record { match = codes "s1"; user = codes "alice"; pass = codes "secret" }

abbrev static_auth : StaticAuth
static_auth = record { allowed_dirs = codes "/hls/" ∷ []; conf = (codes "alice", alice) ∷ [] }

alice_auth :
    auth str_eq static_auth (codes "alice") (codes "secret") (codes "/x/../hls/s1/a.ts")
    ≡ some (some (codes "s1"))
unfolding auth
alice_auth = refl

auth_sound_example :
    IsAllowed str_eq static_auth
      (codes "alice")
      (codes "secret")
      (codes "/x/../hls/s1/a.ts")
      (codes "s1")
    × Lacks slash (codes "s1")
auth_sound_example =
    auth_sound str_eq static_auth (codes "alice") (codes "secret") (codes "/x/../hls/s1/a.ts")
      (codes "s1") alice_auth

abbrev test_copier : Str → Str → Bool → Files → Option (Bool × Files)
test_copier path text broken disk = some (broken, insert path text disk)

abbrev a_stream : Stream
a_stream = record {
  slug = codes "s1";
  timeout = 10;
  origin_timeout = 6;
  ttl = pos 10;
  origin = codes "10.0.0.1";
  origin_updated = 100;
  alive = 0;
  parser = none;
}

abbrev server : Handler test_lib test_copier 2
server = record {
  registry = record {
    config = record { expire_interval = 5; keep_delay = 10 };
    files = [];
    removed = [];
  };
  store = record {
    config = record { stream_timeout = 10; stream_expire_interval = 2; stream_origin_duration = 6 };
    streams = (codes "s1", a_stream) ∷ [];
    cleaned = [];
  };
  channels = record no_channels { next = 1 };
  disk = [];
  playlist_size = 5;
  max_playlist_size = 100;
  max_segment_size = 100;
}

abbrev a_body : Body
a_body = record { text = codes "data"; broken = false; eager = true }

abbrev poster : Str
poster = codes "/srv/hls/s1/p.jpg"

server_stream : get_stream (codes "s1") server.store ≡ some a_stream
unfolding get_stream
server_stream = refl

poster_m3u8 : str_eq (ext poster) (codes ".m3u8") ≡ false
unfolding ext
poster_m3u8 = refl

poster_mpd : str_eq (ext poster) (codes ".mpd") ≡ false
unfolding ext
poster_mpd = refl

abbrev folder : FileRegistry
folder = keep_file (dir poster) 0 server.registry

abbrev registered_file : FileRegistry
registered_file =
    register_file poster (200 + 30 * 1000000000)
      (if is_thumbnail poster then keep_file poster 0 folder else folder)

handle_file_segment_example :
    (handle_file test_lib test_copier 2 a_body 200 (codes "s1") poster server ≡ (
      test_copier poster (codes "data") false [] >>= λ r. some (
        if r.0 then some copy_failed else none,
        record server { registry = registered_file; disk = r.1 },
      )))
    × (file_status poster registered_file ≡ (
        if is_thumbnail poster
        then some (record { path = poster; deadline = 0; keep = some 0 })
        else if has_keep (file_status poster folder)
        then file_status poster folder
        else some (record { path = poster; deadline = 200 + 30 * 1000000000; keep = none })))
handle_file_segment_example =
    handle_file_segment test_lib test_copier 2 a_body 200 (codes "s1") poster a_stream server
      (omega arith) server_stream poster_m3u8 poster_mpd

abbrev a_request : Request
a_request = record {
  method = codes "PUT";
  path = codes "/hls/s1/a.ts";
  credentials = some (codes "alice", codes "secret");
  forwarded_for = [];
  remote_addr = codes "10.0.0.1:4000";
  body = a_body;
}

abbrev split_host : Str → Option Str
split_host _ = some (codes "10.0.0.1")

abbrev served : Response × Handler test_lib test_copier 2
served = (
  ok,
  record (validate test_lib test_copier 2 (codes "s1") (codes "10.0.0.1") 200 server).1 {
    registry =
        register_file (codes "/srv/hls/s1/a.ts") (200 + 30 * 1000000000)
          (keep_file (codes "/srv/hls/s1") 0 server.registry);
    disk = (codes "/srv/hls/s1/a.ts", codes "data") ∷ [];
  },
)

a_request-answer :
    handle_upload test_lib test_copier 2 split_host
      (auth str_eq static_auth)
      (codes "/srv")
      a_request
      200
      server
    ≡ some served
unfolding handle_upload validate register_file keep_file auth
a_request-answer = refl

handle_upload-IsGuarded_example :
    IsGuarded test_lib test_copier 2 split_host
      (auth str_eq static_auth)
      (codes "/srv")
      a_request
      200
      server
      served
handle_upload-IsGuarded_example =
    handle_upload-IsGuarded test_lib test_copier 2 split_host (auth str_eq static_auth)
      (codes "/srv") a_request 200 server served a_request-answer

-- Two uploads of a segment and of a playlist, and ticks until the stream is gone.
abbrev a_playlist : Request
a_playlist = record a_request {
  path = codes "/hls/s1/hd.m3u8";
  body = record { text = codes "media"; broken = false; eager = true };
}

abbrev config : ServerConfig
config = record {
  output_path = codes "/srv";
  max_segment_size = 100;
  max_playlist_size = 100;
  stream_timeout = 4000000000;
  stream_origin_duration = 0;
  playlist_size = 5;
}

abbrev server_events : List Event
server_events =
    request a_request 200
    ∷ request a_playlist 201
    ∷ store_tick
    ∷ request a_playlist 202
    ∷ store_tick
    ∷ store_tick
    ∷ store_tick
    ∷ registry_tick 900 (λ _. 901)
    ∷ request a_request 902
    ∷ []

granted_slug :
    (path : Str) (slug : Str)
    → auth str_eq static_auth (codes "alice") (codes "secret") path ≡ some (some (codes "s1"))
    → auth str_eq static_auth (codes "alice") (codes "secret") path ≡ some (some slug)
    → codes "s1" ≡ slug
granted_slug path slug one other =
    some-injective (codes "s1") slug
      (some-injective (some (codes "s1")) (some slug) (sym one ∙ other))

segment_granted :
    auth str_eq static_auth (codes "alice") (codes "secret") a_request.path
    ≡ some (some (codes "s1"))
unfolding auth
segment_granted = refl

playlist_granted :
    auth str_eq static_auth (codes "alice") (codes "secret") a_playlist.path
    ≡ some (some (codes "s1"))
unfolding auth
playlist_granted = refl

a_request-HasLabels : HasLabels test_lib (auth str_eq static_auth) (codes "/srv") a_request
unfolding authenticate join_path base
a_request-HasLabels slug granted =
    (rw (← (granted_slug a_request.path slug segment_granted granted)) refl, refl)

a_playlist-HasLabels : HasLabels test_lib (auth str_eq static_auth) (codes "/srv") a_playlist
unfolding authenticate join_path base
a_playlist-HasLabels slug granted =
    (rw (← (granted_slug a_playlist.path slug playlist_granted granted)) refl, refl)

server-Runs_example :
    Runs
      (λ h.
        IsSound test_lib test_copier 2 h
        × ((h' : Handler test_lib test_copier 2) × (stop test_lib test_copier 2 h ≡ some h')))
      (handle_events test_lib test_copier 2 split_host
        (auth str_eq static_auth)
        (codes "/srv")
        server_events
        (new_handler test_lib test_copier 2 config []))
server-Runs_example =
    server-Runs test_lib test_copier 2 split_host str_eq static_auth (omega arith)
      (λ path bytes broken disk. ((broken, insert path bytes disk), refl))
      (λ path text disk. ((true, insert path text disk), refl)) config [] server_events
      (omega arith)
      (
        a_request-HasLabels,
        (
          a_playlist-HasLabels,
          (tt, (a_playlist-HasLabels, (tt, (tt, (tt, (tt, (a_request-HasLabels, tt))))))),
        ),
      )
