-- ===== src/Monitor.antt =====
-- The monitor (monitor/): the watcher (watcher.go) keeps what the watches report and relays every change, here
-- to the list `sent`, which stands for the channel of updates. The decoding of JSON is a parameter.
pub mod Server
pub mod Follow
pub mod Clients
pub mod Latest
pub mod Mirror
pub mod Rest
pub mod Tests
use stream_api.Base.{
  Bool, true, false, Option, none, some, List, [], ◌∷◌, ◌++◌, Str, str_Eq, str_eq, codes,
  if◌then◌else◌,
}
use stream_api.Base.Dict.{Dict, lookup, insert, remove}
use stream_api.Client.Path.{
  parse_service_name, parse_stream_name, path_is_stream, path_is_stream_transcoder,
}
use stream_api.Client.Watch.{WatchUpdate, put, delete}
use stream_api.Transcode.Load.{TranscoderStatus}
use stream_api.Transcode.Claim.{Stream}

-- What is sent under a key: a copy of one of the three maps.
pub data Value : Type 0 where
  statuses : Dict Str TranscoderStatus → Value
  all_streams : Dict Str Stream → Value
  names : Dict Str Str → Value

-- `map[string]interface{}` with one key
abbrev pub Update : Type 0
Update = Str × Value

pub record Watcher : Type 0 where
  pub transcoders : Dict Str TranscoderStatus
  pub streams : Dict Str Stream
  pub stream_transcoders : Dict Str Str
  pub sent : List Update

abbrev pub new_watcher : Watcher
new_watcher = record { transcoders = []; streams = []; stream_transcoders = []; sent = [] }

-- `sendUpdate`
unfoldable pub send_update : Str → Value → Watcher → Watcher
send_update key value w = record w { sent = w.sent ++ (key, value) ∷ [] }

update_key : WatchUpdate → Str
update_key (put key value) = key
update_key (delete key) = key

send_transcoders : Watcher → Watcher
unfolding send_update
send_transcoders w = send_update (codes "transcoders") (statuses w.transcoders) w

send_streams : Watcher → Watcher
unfolding send_update
send_streams w = send_update (codes "streams") (all_streams w.streams) w

-- `handleStreamTranscoder`
unfoldable pub handle_stream_transcoder : Str → WatchUpdate → Watcher → Watcher
unfolding send_update insert remove
handle_stream_transcoder name (put key value) w =
    let kept = insert name value w.stream_transcoders in
    send_update (codes "streamTranscoders") (names kept) (record w { stream_transcoders = kept })
handle_stream_transcoder name (delete key) w =
    let kept = remove name w.stream_transcoders in
    send_update (codes "streamTranscoders") (names kept) (record w { stream_transcoders = kept })

module _ (decode_status : Str → Option TranscoderStatus) (decode_stream : Str → Option Stream) where
  put_transcoder : Str → Option TranscoderStatus → Watcher → Watcher
  unfolding send_transcoders insert
  put_transcoder name none w = w
  put_transcoder name (some status) w =
      send_transcoders (record w { transcoders = insert name status w.transcoders })

  update_transcoder : Str → WatchUpdate → Watcher → Watcher
  unfolding put_transcoder remove
  update_transcoder name (put key value) w = put_transcoder name (decode_status value) w
  update_transcoder name (delete key) w =
      send_transcoders (record w { transcoders = remove name w.transcoders })

  unfoldable pub handle_transcoder : WatchUpdate → Watcher → Watcher
  unfolding update_transcoder update_key parse_service_name
  handle_transcoder update w =
      let name = parse_service_name (update_key update) in
      if str_eq name [] then w else update_transcoder name update w

  put_stream : Str → Option Stream → Watcher → Watcher
  unfolding send_streams insert
  put_stream name none w = w
  put_stream name (some stream) w =
      send_streams (record w { streams = insert name stream w.streams })

  -- `handleStreamUpdate`
  unfoldable pub handle_stream_update : Str → WatchUpdate → Watcher → Watcher
  unfolding put_stream remove
  handle_stream_update name (put key value) w = put_stream name (decode_stream value) w
  handle_stream_update name (delete key) w =
      send_streams (record w { streams = remove name w.streams })

  unfoldable pub handle_stream : WatchUpdate → Watcher → Watcher
  unfolding handle_stream_update handle_stream_transcoder update_key parse_stream_name
      path_is_stream path_is_stream_transcoder
  handle_stream update w =
      let path = update_key update in
      let name = parse_stream_name path in
      if str_eq name []
      then w
      else if path_is_stream path
      then handle_stream_update name update w
      else if path_is_stream_transcoder path
      then handle_stream_transcoder name update w
      else w

  -- The updates of one batch of the watch of the streams.
  unfoldable pub handle_streams : List WatchUpdate → Watcher → Watcher
  unfolding handle_stream
  handle_streams [] w = w
  handle_streams (u ∷ updates) w = handle_streams updates (handle_stream u w)

  unfoldable pub handle_transcoders : List WatchUpdate → Watcher → Watcher
  unfolding handle_transcoder
  handle_transcoders [] w = w
  handle_transcoders (u ∷ updates) w = handle_transcoders updates (handle_transcoder u w)
