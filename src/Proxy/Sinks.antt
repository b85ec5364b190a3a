-- ===== src/Proxy/Sinks.antt =====
-- The proxy's list of sinks (cmd/upload-proxy/proxy.go). `parse_url` is `url.Parse`.
pub mod Update
use stream_api.Base.{
  ℕ, ◌+◌, ◌*◌, Bool, true, false, Option, none, some, List, [], ◌∷◌, ◌++◌, Str, str_eq, codes,
  if◌then◌else◌, ◌||◌, map, ◌>>=◌,
}
use stream_api.Base.FilePath.{ext}
use stream_api.Proxy.{SinkConfig, Config}
use stream_api.Proxy.Url.{Url}
use stream_api.Proxy.Sink.{
  Request, Sink, SinkError, invalid_address, new_sink, handle, start_grace_period, is_stale,
  update_config,
}

-- `firstErr`
abbrev pub first_err : Option SinkError → Option SinkError → Option SinkError
first_err err none = err
first_err err (some e) = some e

is_configured : Str → List SinkConfig → Bool
is_configured address [] = false
is_configured address (c ∷ confs) = str_eq address c.address || is_configured address confs

mark_removed : ℕ → List SinkConfig → List Sink → List Sink
unfolding is_configured start_grace_period
mark_removed now confs [] = []
mark_removed now confs (s ∷ sinks) =
    let rest = mark_removed now confs sinks in
    if is_configured s.conf.address confs then s ∷ rest else start_grace_period now s ∷ rest

-- The first sink with the address takes the configuration. The result says whether there is one.
update_first : SinkConfig → List Sink → Bool × Option SinkError × List Sink
unfolding update_config
update_first conf [] = (false, none, [])
update_first conf (s ∷ sinks) =
    let (found, err, rest) = update_first conf sinks in
    let (err', s') = update_config conf s in
    if str_eq s.conf.address conf.address then (true, err', s' ∷ sinks) else (found, err, s ∷ rest)

-- The loop over the configuration: the first error, the new configurations, and the sinks.
update_sinks :
    List SinkConfig → Option SinkError → List Sink → Option SinkError × List SinkConfig × List Sink
unfolding update_first
update_sinks [] err sinks = (err, [], sinks)
update_sinks (c ∷ confs) err sinks =
    let (found, err', sinks') = update_first c sinks in
    let (last_err, new_confs, updated) = update_sinks confs (first_err err' err) sinks' in
    (last_err, if found then new_confs else c ∷ new_confs, updated)

module _ (parse_url : Str → Option Url) where
  create_sinks : List SinkConfig → Option SinkError → List Sink → Option SinkError × List Sink
  unfolding new_sink
  create_sinks [] err sinks = (err, sinks)
  create_sinks (c ∷ confs) err sinks = elim (new_sink c (parse_url c.address)) [
    | none ↦ create_sinks confs (first_err (some (invalid_address c.address)) err) sinks
    | some s ↦ create_sinks confs err (sinks ++ (s ∷ []))
  ]

  unfoldable pub update_proxy : ℕ → List SinkConfig → List Sink → Option SinkError × List Sink
  unfolding mark_removed update_sinks create_sinks
  update_proxy now confs sinks =
      let (err, new_confs, updated) = update_sinks confs none (mark_removed now confs sinks) in
      create_sinks new_confs err updated

-- A tick of `runTimeout`: the stale sinks are stopped and left out.
unfoldable pub expire_sinks : ℕ → List Sink → List Sink
unfolding is_stale
expire_sinks now [] = []
expire_sinks now (s ∷ sinks) =
    let rest = expire_sinks now sinks in if is_stale now s then rest else s ∷ rest

abbrev second : ℕ
second = 1000000000

unfoldable pub get_deadline : Str → ℕ → ℕ
unfolding ext
get_deadline path now =
    if str_eq (ext path) (codes ".m3u8") || str_eq (ext path) (codes ".mpd")
    then now + 6 * second
    else if str_eq (ext path) (codes ".jpg") || str_eq (ext path) (codes ".jpeg")
    then now + 20 * second
    else now + 60 * second

module _ (escaped_path : Url → Str) where
  handle_each : Request → ℕ → ℕ → List Sink → Option (List Sink)
  unfolding handle
  handle_each req deadline now [] = some []
  handle_each req deadline now (s ∷ sinks) = do
    s' ← handle escaped_path req deadline now s
    rest ← handle_each req deadline now sinks
    some (s' ∷ rest)

  -- `HandleUpload`: the status and the sinks. `body` is `none` if it is over the limit or breaks.
  unfoldable pub handle_upload : Request → Option Str → ℕ → List Sink → Option (ℕ × List Sink)
  unfolding handle_each get_deadline
  handle_upload req body now sinks =
      let served : Option (ℕ × List Sink) = elim body [
        | none ↦ some (500, sinks)
        | some text ↦ do
          sinks' ←
              handle_each (record req { body = text }) (get_deadline req.url.path now) now sinks
          some (200, sinks')
      ] in
      if str_eq req.method (codes "PUT")
        || (str_eq req.method (codes "POST") || str_eq req.method (codes "DELETE"))
      then served
      else some (200, sinks)
