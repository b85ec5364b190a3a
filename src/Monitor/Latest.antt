-- ===== src/Monitor/Latest.antt =====
-- What the watcher has sent last under each key is what it has (monitor/watcher.go).
use stream_api.Base.{
  ◌≡◌, refl, ap, ◌∙◌, Option, none, some, [], ◌∷◌, ◌++◌, Str, str_Eq, nat_Eq, str_eq, codes,
  if◌then◌else◌, Bool-cases, inl, inr,
}
use stream_api.Base.Dict.{Dict, lookup, insert, remove, lookup-insert}
use stream_api.Client.Path.{
  parse_service_name, parse_stream_name, path_is_stream, path_is_stream_transcoder,
}
use stream_api.Client.Watch.{WatchUpdate, put, delete}
use stream_api.Transcode.Load.{TranscoderStatus}
use stream_api.Transcode.Claim.{Stream}
use stream_api.Monitor.{
  Value, statuses, all_streams, names, Watcher, update_key, send_update, send_transcoders,
  send_streams, handle_stream_transcoder, put_transcoder, update_transcoder, handle_transcoder,
  put_stream, handle_stream_update, handle_stream,
}
use stream_api.Monitor.Server.{Message}
use stream_api.Monitor.Clients.{merge}

-- The map that stands under a key of a message; a key that was never sent stands for the empty map.
abbrev pub streams_in : Option Value → Dict Str Stream
streams_in (some (all_streams streams)) = streams
streams_in _ = []

abbrev pub transcoders_in : Option Value → Dict Str TranscoderStatus
transcoders_in (some (statuses transcoders)) = transcoders
transcoders_in _ = []

abbrev pub names_in : Option Value → Dict Str Str
names_in (some (names stream_transcoders)) = stream_transcoders
names_in _ = []

-- The three maps of a watcher stand in a message.
pub record Holds (w : Watcher) (m : Message) : Type 0 where
  pub transcoders : transcoders_in (lookup (codes "transcoders") m) ≡ w.transcoders
  pub streams : streams_in (lookup (codes "streams") m) ≡ w.streams
  pub stream_transcoders : names_in (lookup (codes "streamTranscoders") m) ≡ w.stream_transcoders

-- What was sent last under each key.
abbrev pub latest : Watcher → Message
latest w = merge w.sent []

merge-append :
    (us : Message) (key : Str) (value : Value) (view : Message)
    → merge (us ++ ((key, value) ∷ [])) view ≡ insert key value (merge us view)
unfolding merge
merge-append [] key value view = refl
merge-append ((k, v) ∷ us) key value view = merge-append us key value (insert k v view)

latest-send_update :
    (key q : Str) (value : Value) (w : Watcher)
    → lookup q (latest (send_update key value w))
      ≡ (if str_eq key q then some value else lookup q (latest w))
unfolding send_update
latest-send_update key q value w =
    ap (lookup q) (merge-append w.sent key value []) ∙ lookup-insert key q value (latest w)

-- A change of one of the maps, followed by its sending.
send_transcoders-Holds :
    (w : Watcher) (kept : Dict Str TranscoderStatus)
    → Holds w (latest w)
    → Holds
        (send_transcoders (record w { transcoders = kept }))
        (latest (send_transcoders (record w { transcoders = kept })))
unfolding send_transcoders
send_transcoders-Holds w kept h =
    let w' : Watcher = record w { transcoders = kept } in
    let sent = λ (q : Str). latest-send_update (codes "transcoders") q (statuses kept) w' in
    unfold send_update in
    record {
      transcoders = ap transcoders_in (sent (codes "transcoders"));
      streams = ap streams_in (sent (codes "streams")) ∙ h.streams;
      stream_transcoders = ap names_in (sent (codes "streamTranscoders")) ∙ h.stream_transcoders;
    }

send_streams-Holds :
    (w : Watcher) (kept : Dict Str Stream)
    → Holds w (latest w)
    → Holds
        (send_streams (record w { streams = kept }))
        (latest (send_streams (record w { streams = kept })))
unfolding send_streams
send_streams-Holds w kept h =
    let w' : Watcher = record w { streams = kept } in
    let sent = λ (q : Str). latest-send_update (codes "streams") q (all_streams kept) w' in
    unfold send_update in
    record {
      transcoders = ap transcoders_in (sent (codes "transcoders")) ∙ h.transcoders;
      streams = ap streams_in (sent (codes "streams"));
      stream_transcoders = ap names_in (sent (codes "streamTranscoders")) ∙ h.stream_transcoders;
    }

send_names-Holds :
    (w : Watcher) (kept : Dict Str Str)
    → Holds w (latest w)
    → Holds
        (send_update
          (codes "streamTranscoders")
          (names kept)
          (record w { stream_transcoders = kept }))
        (latest (
          send_update
            (codes "streamTranscoders")
            (names kept)
            (record w { stream_transcoders = kept })))
send_names-Holds w kept h =
    let w' : Watcher = record w { stream_transcoders = kept } in
    let sent = λ (q : Str). latest-send_update (codes "streamTranscoders") q (names kept) w' in
    unfold send_update in
    record {
      transcoders = ap transcoders_in (sent (codes "transcoders")) ∙ h.transcoders;
      streams = ap streams_in (sent (codes "streams")) ∙ h.streams;
      stream_transcoders = ap names_in (sent (codes "streamTranscoders"));
    }

handle_stream_transcoder-Holds :
    (name : Str) (u : WatchUpdate) (w : Watcher)
    → Holds w (latest w)
    → Holds (handle_stream_transcoder name u w) (latest (handle_stream_transcoder name u w))
unfolding handle_stream_transcoder
handle_stream_transcoder-Holds name (put key value) w h =
    send_names-Holds w (insert name value w.stream_transcoders) h
handle_stream_transcoder-Holds name (delete key) w h =
    send_names-Holds w (remove name w.stream_transcoders) h

module _ (decode_status : Str → Option TranscoderStatus) (decode_stream : Str → Option Stream) where
  put_transcoder-Holds :
      (name : Str) (o : Option TranscoderStatus) (w : Watcher)
      → Holds w (latest w)
      → Holds
          (put_transcoder decode_status decode_stream name o w)
          (latest (put_transcoder decode_status decode_stream name o w))
  unfolding put_transcoder
  put_transcoder-Holds name none w h = h
  put_transcoder-Holds name (some status) w h =
      send_transcoders-Holds w (insert name status w.transcoders) h

  update_transcoder-Holds :
      (name : Str) (u : WatchUpdate) (w : Watcher)
      → Holds w (latest w)
      → Holds
          (update_transcoder decode_status decode_stream name u w)
          (latest (update_transcoder decode_status decode_stream name u w))
  unfolding update_transcoder
  update_transcoder-Holds name (put key value) w h =
      put_transcoder-Holds name (decode_status value) w h
  update_transcoder-Holds name (delete key) w h =
      send_transcoders-Holds w (remove name w.transcoders) h

  pub handle_transcoder-Holds :
      (u : WatchUpdate) (w : Watcher)
      → Holds w (latest w)
      → Holds
          (handle_transcoder decode_status decode_stream u w)
          (latest (handle_transcoder decode_status decode_stream u w))
  unfolding handle_transcoder
  handle_transcoder-Holds u w h =
      elim (Bool-cases (str_eq (parse_service_name (update_key u)) [])) [
        | inl unnamed ↦ rw unnamed h
        | inr named ↦ rw named (update_transcoder-Holds (parse_service_name (update_key u)) u w h)
      ]

  put_stream-Holds :
      (name : Str) (o : Option Stream) (w : Watcher)
      → Holds w (latest w)
      → Holds
          (put_stream decode_status decode_stream name o w)
          (latest (put_stream decode_status decode_stream name o w))
  unfolding put_stream
  put_stream-Holds name none w h = h
  put_stream-Holds name (some stream) w h = send_streams-Holds w (insert name stream w.streams) h

  handle_stream_update-Holds :
      (name : Str) (u : WatchUpdate) (w : Watcher)
      → Holds w (latest w)
      → Holds
          (handle_stream_update decode_status decode_stream name u w)
          (latest (handle_stream_update decode_status decode_stream name u w))
  unfolding handle_stream_update
  handle_stream_update-Holds name (put key value) w h =
      put_stream-Holds name (decode_stream value) w h
  handle_stream_update-Holds name (delete key) w h = send_streams-Holds w (remove name w.streams) h

  pub handle_stream-Holds :
      (u : WatchUpdate) (w : Watcher)
      → Holds w (latest w)
      → Holds
          (handle_stream decode_status decode_stream u w)
          (latest (handle_stream decode_status decode_stream u w))
  unfolding handle_stream
  handle_stream-Holds u w h =
      let name = parse_stream_name (update_key u) in
      elim (Bool-cases (str_eq name [])) [
        | inl unnamed ↦ rw unnamed h
        | inr named ↦ elim (Bool-cases (path_is_stream (update_key u))) [
          | inl stream ↦ rw (named, stream) (handle_stream_update-Holds name u w h)
          | inr other ↦ elim (Bool-cases (path_is_stream_transcoder (update_key u))) [
            | inl claim ↦ rw (named, other, claim) (handle_stream_transcoder-Holds name u w h)
            | inr neither ↦ rw (named, other, neither) h
          ]
        ]
      ]
