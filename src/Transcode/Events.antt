-- ===== src/Transcode/Events.antt =====
-- The event loop (`run` of transcode/transcoder.go). The decoding of JSON is a parameter; whether a
-- service has stopped by a tick is what `stopped` says.
pub mod Capacity
pub mod Failures
use stream_api.Base.{
  ℕ, Bool, true, false, Option, none, some, is_some, List, [], ◌∷◌, Str, str_Eq, str_eq,
  if◌then◌else◌, ◌>>=◌,
}
use stream_api.Base.Dict.{Dict, lookup, insert, remove}
use stream_api.Client.Path.{
  parse_transcoder_name, parse_stream_name, path_is_stream, path_is_stream_transcoder,
}
use stream_api.Client.Watch.{WatchUpdate, put, delete}
use stream_api.Transcode.Load.{TranscoderStatus}
use stream_api.Transcode.Claim.{
  Stream, Service, Transcoder, World, publish_status, should_claim, claim_stream,
}

module _ (decode_status : Str → Option TranscoderStatus) (decode_stream : Str → Option Stream) where
  put_transcoder : Option Str → Option TranscoderStatus → Transcoder → Transcoder
  unfolding insert
  put_transcoder none status t = t
  put_transcoder (some name) none t = t
  put_transcoder (some name) (some status) t = record t {
    transcoders = insert name status t.transcoders;
  }

  delete_transcoder : Option Str → Transcoder → Transcoder
  unfolding remove
  delete_transcoder none t = t
  delete_transcoder (some name) t = record t { transcoders = remove name t.transcoders }

  unfoldable pub handle_transcoder : WatchUpdate → Transcoder → Transcoder
  unfolding put_transcoder delete_transcoder parse_transcoder_name
  handle_transcoder (put key value) t =
      put_transcoder (parse_transcoder_name key) (decode_status value) t
  handle_transcoder (delete key) t = delete_transcoder (parse_transcoder_name key) t

  put_stream : World → Str → Option Stream → Transcoder → Option Transcoder
  unfolding insert claim_stream
  put_stream world name none t = some t
  put_stream world name (some s) t =
      claim_stream world s (record t { streams = insert name s t.streams })

  handle_stream_update : World → Str → WatchUpdate → Transcoder → Option Transcoder
  unfolding put_stream remove
  handle_stream_update world name (put key value) t = put_stream world name (decode_stream value) t
  handle_stream_update world name (delete key) t =
      some (record t { streams = remove name t.streams })

  reclaim : World → Option Stream → Transcoder → Option Transcoder
  unfolding claim_stream
  reclaim world none t = some t
  reclaim world (some s) t = claim_stream world s t

  handle_stream_transcoder : World → Str → WatchUpdate → Transcoder → Option Transcoder
  unfolding reclaim insert remove lookup
  handle_stream_transcoder world name (put key value) t =
      some (record t { stream_transcoders = insert name value t.stream_transcoders })
  handle_stream_transcoder world name (delete key) t =
      reclaim world (lookup name t.streams)
        (record t { stream_transcoders = remove name t.stream_transcoders })

  update_key : WatchUpdate → Str
  update_key (put key value) = key
  update_key (delete key) = key

  unfoldable pub handle_stream : World → WatchUpdate → Transcoder → Option Transcoder
  unfolding handle_stream_update handle_stream_transcoder update_key parse_stream_name
      path_is_stream path_is_stream_transcoder
  handle_stream world update t =
      let path = update_key update in
      let name = parse_stream_name path in
      if str_eq name []
      then some t
      else if path_is_stream path
      then handle_stream_update world name update t
      else if path_is_stream_transcoder path
      then handle_stream_transcoder world name update t
      else some t

module _ (world : World) where
  stop_unneeded : Str → Service → Transcoder → Transcoder
  unfolding insert lookup
  stop_unneeded key service t =
      if is_some (lookup key t.streams)
      then t
      else (if is_some (lookup key t.services)
          then record t {
            services = insert key (some (record service { stopping = true })) t.services;
          }
          else t)

  -- One service of a tick. A service that has stopped leaves the map, and the status goes out.
  tick_service : Bool → Str → Option Service → Transcoder → Option Transcoder
  unfolding stop_unneeded remove
  tick_service gone key none t = none
  tick_service gone key (some service) t =
      let left = publish_status world (record t { services = remove key t.services }) in
      some (stop_unneeded key service (if gone then left else t))

  tick_services : (Str → Bool) → Dict Str (Option Service) → Transcoder → Option Transcoder
  unfolding tick_service
  tick_services stopped [] t = some t
  tick_services stopped ((key, service) ∷ services) t =
      tick_service (stopped key) key service t >>= λ t'. tick_services stopped services t'

  claim_missing : Dict Str Stream → Transcoder → Option Transcoder
  unfolding claim_stream lookup
  claim_missing [] t = some t
  claim_missing ((key, s) ∷ streams) t =
      let claimed = claim_stream world s t in
      (if is_some (lookup key t.stream_transcoders) then some t else claimed) >>= λ t'.
      claim_missing streams t'

  tick_claims : Transcoder → Option Transcoder
  unfolding should_claim claim_missing
  tick_claims t =
      let claimed = claim_missing t.streams t in if should_claim t then claimed else some t

  unfoldable pub tick : (Str → Bool) → Transcoder → Option Transcoder
  unfolding tick_services tick_claims publish_status
  tick stopped t = tick_services stopped t.services t >>= λ t'. tick_claims t'
