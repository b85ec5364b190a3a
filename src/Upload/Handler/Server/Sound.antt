-- ===== src/Upload/Handler/Server/Sound.antt =====
-- The upload server at work never panics (upload/server.go, upload/handler.go, upload/stream_store.go).
use stream_api.Base.{
  ℕ, ◌<◌, ◌≡◌, refl, Bool, Option, some, List, [], ◌∷◌, Str, str_Eq, All, Runs, Runs-some,
  Runs-bind,
}
use stream_api.Base.Dict.{lookup}
use stream_api.Upload.M3u8.{Library}
use stream_api.Upload.Store.{StreamStore, new_stream_store, timeout, remove_all, cleanup_all}
use stream_api.Upload.Store.Release.{timeout-IsReleased, remove_all-IsReleased}
use stream_api.Upload.Auth.{StaticAuth, auth}
use stream_api.Upload.Auth.Sound.{auth-Returns}
use stream_api.Upload.Owners.{IsOwned}
use stream_api.Upload.Handler.{Handler}
use stream_api.Upload.Handler.Total.{IsSound}
use stream_api.Upload.Handler.Server.{Response}
use stream_api.Upload.Handler.Server.Answers.{HasLabels, handle_upload-Runs}
use stream_api.Upload.Handler.Server.Run.{
  ServerConfig, Event, request, store_tick, registry_tick, new_handler, collect, stop, handle_event,
  handle_events,
}

-- A request whose slug and file prometheus takes as labels, if it is authorised, or a tick
abbrev pub IsLabelled : Library → (Str → Str → Str → Option (Option Str)) → Str → Event → Type 0
IsLabelled lib auth output_path (request req now) = HasLabels lib auth output_path req
IsLabelled lib auth output_path store_tick = Unit
IsLabelled lib auth output_path (registry_tick now later) = Unit

module _ (lib : Library) (copier : Str → Str → Bool → lib.Disk → Option (Bool × lib.Disk))
    (buffer : ℕ) where
  abbrev Sound : Handler lib copier buffer → Type 0
  Sound = IsSound lib copier buffer

  collect-IsSound :
      (st : StreamStore) (h : Handler lib copier buffer)
      → 0 < h.playlist_size
      → Runs (IsOwned lib st.streams) (cleanup_all st.cleaned h.channels)
      → Runs Sound (collect lib copier buffer st h)
  unfolding collect
  collect-IsSound st h positive released =
      Runs-bind (IsOwned lib st.streams) Sound _ _ released (λ cs owned.
        Runs-some Sound _ (record { owned = owned; collected = refl; positive = positive }))

  new_handler-IsSound :
      (config : ServerConfig) (disk : lib.Disk)
      → 0 < config.playlist_size
      → Sound (new_handler lib copier buffer config disk)
  unfolding new_handler new_stream_store lookup
  new_handler-IsSound config disk positive = record {
    owned = record { distinct = tt; fresh = λ c h. refl; owner = λ slug s e. cc };
    collected = refl;
    positive = positive;
  }

  stop-Runs :
      (h : Handler lib copier buffer)
      → Sound h
      → (h' : Handler lib copier buffer) × (stop lib copier buffer h ≡ some h')
  unfolding stop
  stop-Runs h sound =
      let done =
        collect-IsSound (remove_all h.store) h sound.positive
          (remove_all-IsReleased lib h.disk h.channels h.store sound.owned sound.collected) in
      let r : Runs Sound (stop lib copier buffer h) = Runs-bind Sound Sound _ _ done (λ h' kept.
        Runs-some Sound _
          (record { owned = kept.owned; collected = kept.collected; positive = kept.positive })) in
      (r.result, r.runs)

  module _ (split_host : Str → Option Str) (auth : Str → Str → Str → Option (Option Str))
      (output_path : Str) (enough : 0 < buffer)
      (copies : (path bytes : Str) (broken : Bool) (disk : lib.Disk)
        → (r : Bool × lib.Disk) × (copier path bytes broken disk ≡ some r))
      (writes : (path text : Str) (disk : lib.Disk)
        → (r : Bool × lib.Disk) × (lib.write_file path text disk ≡ some r))
      (authorises : (user pass path : Str)
        → (slug : Option Str) × (auth user pass path ≡ some slug)) where
    handle_event-IsSound :
        (e : Event) (h : Handler lib copier buffer)
        → IsLabelled lib auth output_path e
        → Sound h
        → Runs Sound (handle_event lib copier buffer split_host auth output_path e h)
    unfolding handle_event
    handle_event-IsSound (request req now) h labels sound =
        Runs-bind (λ (r : Response × Handler lib copier buffer). Sound r.1) Sound _ _
          (handle_upload-Runs lib copier buffer split_host auth output_path req now enough copies
            writes authorises labels h sound)
          (λ r kept. Runs-some Sound _ kept)
    handle_event-IsSound store_tick h labels sound =
        collect-IsSound (timeout h.store) h sound.positive
          (timeout-IsReleased lib h.disk h.channels h.store sound.owned sound.collected)
    handle_event-IsSound (registry_tick now later) h labels sound =
        Runs-some Sound _
          (record { owned = sound.owned; collected = sound.collected; positive = sound.positive })

    handle_events-IsSound :
        (events : List Event) (h : Handler lib copier buffer)
        → All (IsLabelled lib auth output_path) events
        → Sound h
        → Runs Sound (handle_events lib copier buffer split_host auth output_path events h)
    unfolding handle_events
    handle_events-IsSound [] h labels sound = Runs-some Sound h sound
    handle_events-IsSound (e ∷ events) h (labels, later) sound =
        Runs-bind Sound Sound _ _ (handle_event-IsSound e h labels sound)
          (λ h' sound'. handle_events-IsSound events h' later sound')

  module _ (split_host : Str → Option Str) (matches : Str → Str → Bool) (a : StaticAuth) where
    -- If no call of the file writers panics, the read buffer is not empty, playlists have room for an item and the slugs and
    -- file names of the authorised requests are labels that prometheus takes, then a new server with
    -- a static authorisation handles any sequence of requests and ticks, one after the other, without a panic: no
    -- channel is closed twice and no file is tracked by a parser that was cleaned up. After it every stream
    -- owns its open channels, apart from those of the others, and the server can be stopped without a panic.
    pub server-Runs :
        0 < buffer
        → ((path bytes : Str) (broken : Bool) (disk : lib.Disk)
            → (r : Bool × lib.Disk) × (copier path bytes broken disk ≡ some r))
        → ((path text : Str) (disk : lib.Disk)
            → (r : Bool × lib.Disk) × (lib.write_file path text disk ≡ some r))
        → (config : ServerConfig) (disk : lib.Disk) (events : List Event) → 0 < config.playlist_size
        → All (IsLabelled lib (auth matches a) config.output_path) events
        → Runs
            (λ h.
              IsSound lib copier buffer h
              × ((h' : Handler lib copier buffer) × (stop lib copier buffer h ≡ some h')))
            (handle_events lib copier buffer split_host
              (auth matches a)
              config.output_path
              events
              (new_handler lib copier buffer config disk))
    server-Runs enough copies writes config disk events positive labels =
        let done =
          handle_events-IsSound split_host (auth matches a) config.output_path enough copies writes
            (auth-Returns matches a) events (new_handler lib copier buffer config disk) labels
            (new_handler-IsSound config disk positive) in
        record {
          result = done.result;
          runs = done.runs;
          holds = (done.holds, stop-Runs done.result done.holds);
        }
