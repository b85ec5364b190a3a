-- ===== src/Monitor/Mirror.antt =====
-- What the watcher sends, the server keeps and a client sees are the same maps (monitor/watcher.go,
-- monitor/server.go).
use stream_api.Base.{
  ◌≡◌, refl, ap, ◌∙◌, true, Option, is_some, List, [], ◌∷◌, Str, str_Eq, nat_Eq, codes, ℕ,
}
use stream_api.Base.Dict.{lookup, insert}
use stream_api.Client.Watch.{WatchUpdate}
use stream_api.Transcode.Load.{TranscoderStatus}
use stream_api.Transcode.Claim.{Stream}
use stream_api.Monitor.{
  Update, Watcher, new_watcher, handle_transcoder, handle_stream, handle_streams,
  handle_transcoders,
}
use stream_api.Monitor.Server.{
  Server, new_server, Event, add_client, remove_client, update, handle_event, run,
}
use stream_api.Monitor.Clients.{
  merge, view_of, write-rest, broadcast-rest, run-IsTold, new_server-IsTold,
}
use stream_api.Monitor.Latest.{
  streams_in, transcoders_in, names_in, Holds, latest, handle_stream-Holds, handle_transcoder-Holds,
}

-- What the two watches hand over: a batch of updates of one of them.
pub data Batch : Type 0 where
  of_streams : List WatchUpdate → Batch
  of_transcoders : List WatchUpdate → Batch

-- The updates that reach the server, in order.
abbrev pub updates_of : List Event → List Update
updates_of [] = []
updates_of (add_client ws ∷ events) = updates_of events
updates_of (remove_client ws ∷ events) = updates_of events
updates_of (update u ∷ events) = u ∷ updates_of events

run-state :
    (events : List Event) (s : Server) → (run events s).state ≡ merge (updates_of events) s.state
unfolding run handle_event merge
run-state [] s = refl
run-state (add_client ws ∷ events) s =
    run-state events (handle_event (add_client ws) s)
    ∙ ap (merge (updates_of events)) (write-rest ws s.state s).0
run-state (remove_client ws ∷ events) s = run-state events (handle_event (remove_client ws) s)
run-state (update (key, value) ∷ events) s =
    run-state events (handle_event (update (key, value)) s)
    ∙ ap (merge (updates_of events))
        (broadcast-rest s.clients ((key, value) ∷ [])
          (record s { state = insert key value s.state })).0

module _ (decode_status : Str → Option TranscoderStatus) (decode_stream : Str → Option Stream) where
  pub handle_batch : Batch → Watcher → Watcher
  unfolding handle_streams handle_transcoders
  handle_batch (of_streams us) w = handle_streams decode_status decode_stream us w
  handle_batch (of_transcoders us) w = handle_transcoders decode_status decode_stream us w

  unfoldable pub run_batches : List Batch → Watcher → Watcher
  unfolding handle_batch
  run_batches [] w = w
  run_batches (b ∷ batches) w = run_batches batches (handle_batch b w)

  handle_streams-Holds :
      (us : List WatchUpdate) (w : Watcher)
      → Holds w (latest w)
      → Holds
          (handle_streams decode_status decode_stream us w)
          (latest (handle_streams decode_status decode_stream us w))
  unfolding handle_streams
  handle_streams-Holds [] w h = h
  handle_streams-Holds (u ∷ us) w h =
      handle_streams-Holds us (handle_stream decode_status decode_stream u w)
        (handle_stream-Holds decode_status decode_stream u w h)

  handle_transcoders-Holds :
      (us : List WatchUpdate) (w : Watcher)
      → Holds w (latest w)
      → Holds
          (handle_transcoders decode_status decode_stream us w)
          (latest (handle_transcoders decode_status decode_stream us w))
  unfolding handle_transcoders
  handle_transcoders-Holds [] w h = h
  handle_transcoders-Holds (u ∷ us) w h =
      handle_transcoders-Holds us (handle_transcoder decode_status decode_stream u w)
        (handle_transcoder-Holds decode_status decode_stream u w h)

  run_batches-Holds :
      (batches : List Batch) (w : Watcher)
      → Holds w (latest w)
      → Holds (run_batches batches w) (latest (run_batches batches w))
  unfolding run_batches
  run_batches-Holds [] w h = h
  run_batches-Holds (of_streams us ∷ batches) w h =
      run_batches-Holds batches (handle_streams decode_status decode_stream us w)
        (handle_streams-Holds us w h)
  run_batches-Holds (of_transcoders us ∷ batches) w h =
      run_batches-Holds batches (handle_transcoders decode_status decode_stream us w)
        (handle_transcoders-Holds us w h)

  new_watcher-Holds : Holds new_watcher (latest new_watcher)
  unfolding merge lookup
  new_watcher-Holds = record { transcoders = refl; streams = refl; stream_transcoders = refl }

  -- Whenever the server has taken what a watcher has sent since both began, in that order and with clients that
  -- come and go at any time in between, what was written to a connected client, read by keeping the latest value
  -- of each key, holds the watcher's three maps, also if the client came late or was away for a while.
  pub client-Holds :
      (batches : List Batch) (events : List Event) (ws : ℕ)
      → updates_of events ≡ (run_batches batches new_watcher).sent
      → is_some (lookup ws (run events new_server).clients) ≡ true
      → Holds (run_batches batches new_watcher) (view_of ws (run events new_server))
  client-Holds batches events ws same connected =
      let w = run_batches batches new_watcher in
      let h = run_batches-Holds batches new_watcher new_watcher-Holds in
      let told = (run-IsTold events new_server new_server-IsTold).told ws in
      let seen = λ (q : Str).
        told q connected
        ∙ ap (lookup q) (run-state events new_server)
        ∙ ap (λ us. lookup q (merge us [])) same in
      record {
        transcoders = ap transcoders_in (seen (codes "transcoders")) ∙ h.transcoders;
        streams = ap streams_in (seen (codes "streams")) ∙ h.streams;
        stream_transcoders = ap names_in (seen (codes "streamTranscoders")) ∙ h.stream_transcoders;
      }
