-- ===== src/Auth.antt =====
-- The service that answers whether a stream may be published (auth/watcher.go, auth/auth.go), by the settings that it
-- watches. The decoding of JSON is the parameter `decode`.
pub mod Latest
pub mod Tests
use stream_api.Base.{
  ℕ, Bool, true, false, Option, none, some, List, [], ◌∷◌, Str, str_Eq, str_eq, if◌then◌else◌, ◌&&◌,
  codes,
}
use stream_api.Base.Dict.{Dict, lookup, insert, remove}
use stream_api.Client.Path.{parse_stream_name}
use stream_api.Client.Watch.{WatchUpdate, put, delete}

pub record Settings : Type 0 where
  pub slug : Str
  pub ingest_type : Str
  pub secret : Str
  pub is_public : Bool
  pub passthrough : Bool

pub record Watcher : Type 0 where
  pub settings : Dict Str Settings

module _ (decode : Str → Option Settings) where
  put_settings : Str → Option Settings → Watcher → Watcher
  unfolding insert
  put_settings name none w = w
  put_settings name (some s) w = record w { settings = insert name s w.settings }

  update_named : Str → WatchUpdate → Watcher → Watcher
  unfolding put_settings remove
  update_named name (put key value) w = put_settings name (decode value) w
  update_named name (delete key) w = record w { settings = remove name w.settings }

  update_key : WatchUpdate → Str
  update_key (put key value) = key
  update_key (delete key) = key

  -- `handleStreamSettings`
  unfoldable pub handle_stream_settings : WatchUpdate → Watcher → Watcher
  unfolding update_named update_key parse_stream_name
  handle_stream_settings update w =
      let name = parse_stream_name (update_key update) in
      if str_eq name [] then w else update_named name update w

  unfoldable pub handle_updates : List WatchUpdate → Watcher → Watcher
  unfolding handle_stream_settings
  handle_updates [] w = w
  handle_updates (u ∷ updates) w = handle_updates updates (handle_stream_settings u w)

permits : Str → Str → Option Settings → Bool
permits app secret none = false
permits app secret (some s) = str_eq app s.ingest_type && str_eq secret s.secret

abbrev or_empty : Option Str → Str
or_empty none = []
or_empty (some s) = s

-- `Auth`
unfoldable pub authorise : Str → Str → Str → Watcher → Bool
unfolding permits lookup
authorise app slug secret w = permits app secret (lookup slug w.settings)

-- The value of a field of the form, empty if it has none
field : Str → Dict Str Str → Str
unfolding lookup
field key form = or_empty (lookup key form)

-- `authHandler` (auth/auth.go): the status that it answers; `none` is a form that cannot be parsed.
unfoldable pub auth_handler : Option (Dict Str Str) → Watcher → ℕ
unfolding authorise field
auth_handler none w = 401
auth_handler (some form) w =
    if authorise (field (codes "app") form) (field (codes "name") form) (field (codes "auth") form)
      w
    then 200
    else 401
