-- ===== src/Upload/Handler/Server/Run.antt =====
-- The upload server at work: `NewHandler` and `Stop` (upload/handler.go) and the loops of the stream store and
-- of the file registry (upload/stream_store.go, upload/file_registry.go). An event is handled whole before the next
-- one begins. What a drop of streams cleans up is done in its order, at the end of the drop.
use stream_api.Base.{ℕ, Bool, Option, some, List, [], ◌∷◌, Str, ◌>>=◌}
use stream_api.Upload.M3u8.{Library}
use stream_api.Upload.Channels.{no_channels}
use stream_api.Upload.Registry.{new_file_registry, expire, cleanup}
use stream_api.Upload.Store.{StreamStore, new_stream_store, timeout, remove_all, cleanup_all}
use stream_api.Upload.Handler.{Handler}
use stream_api.Upload.Handler.Server.{Request, handle_upload}

pub record ServerConfig : Type 0 where
  pub output_path : Str
  pub max_segment_size : ℕ
  pub max_playlist_size : ℕ
  pub stream_timeout : ℕ
  pub stream_origin_duration : ℕ
  pub playlist_size : ℕ

-- A request at a time, a tick of the store, or one of the registry at a time, with the clock as it
-- is when the entry of a path is looked at.
pub data Event : Type 0 where
  request : Request → ℕ → Event
  store_tick : Event
  registry_tick : ℕ → (Str → ℕ) → Event

module _ (lib : Library) (copier : Str → Str → Bool → lib.Disk → Option (Bool × lib.Disk))
    (buffer : ℕ) where
  unfoldable pub new_handler : ServerConfig → lib.Disk → Handler lib copier buffer
  unfolding new_file_registry new_stream_store
  new_handler config disk = record {
    registry = new_file_registry (record { expire_interval = 0; keep_delay = 0 });
    store = new_stream_store (record {
      stream_timeout = config.stream_timeout;
      stream_expire_interval = 0;
      stream_origin_duration = config.stream_origin_duration;
    });
    channels = no_channels;
    disk = disk;
    playlist_size = config.playlist_size;
    max_playlist_size = config.max_playlist_size;
    max_segment_size = config.max_segment_size;
  }

  -- The clean-ups of the streams that the store has dropped.
  unfoldable pub collect :
      StreamStore → Handler lib copier buffer → Option (Handler lib copier buffer)
  unfolding cleanup_all
  collect st h = do
    cs ← cleanup_all st.cleaned h.channels
    some (record h { store = record st { cleaned = [] }; channels = cs })

  unfoldable pub stop : Handler lib copier buffer → Option (Handler lib copier buffer)
  unfolding remove_all collect cleanup
  stop h = do
    h' ← collect (remove_all h.store) h
    some (record h' { registry = cleanup h'.registry })

  module _ (split_host : Str → Option Str) (auth : Str → Str → Str → Option (Option Str))
      (output_path : Str) where
    unfoldable pub handle_event :
        Event → Handler lib copier buffer → Option (Handler lib copier buffer)
    unfolding handle_upload timeout collect expire
    handle_event (request req now) h = do
      (answer, h') ← handle_upload lib copier buffer split_host auth output_path req now h
      some h'
    handle_event store_tick h = collect (timeout h.store) h
    handle_event (registry_tick now later) h =
        some (record h { registry = expire h.channels.closed now later h.registry })

    unfoldable pub handle_events :
        List Event → Handler lib copier buffer → Option (Handler lib copier buffer)
    unfolding handle_event
    handle_events [] h = some h
    handle_events (e ∷ events) h = do h' ← handle_event e h; handle_events events h'
