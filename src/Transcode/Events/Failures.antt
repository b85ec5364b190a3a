-- ===== src/Transcode/Events/Failures.antt =====
-- What goes wrong in the event loop (transcode/transcoder.go).
use stream_api.Base.{
  Runs, ◌≡◌, refl, ap, Bool, true, false, Option, none, some, [], ◌∷◌, Str, str_Eq, codes, ◌>>=◌,
  arith,
}
use stream_api.Base.Dict.{Dict, lookup}
use stream_api.Base.FilePath.Plain.{IsPlain, is_plain_lem}
use stream_api.Client.Path.{service_path, stream_transcoder_path}
use stream_api.Client.Path.RoundTrip.{service_path_lem}
use stream_api.Client.Watch.{put}
use stream_api.Transcode.Load.{TranscoderStatus}
use stream_api.Transcode.Claim.{Stream, Service, Transcoder, World, should_claim, claim_stream}
use stream_api.Transcode.Claim.Bounds.{claim_stream_nil}
use stream_api.Transcode.Events.{
  put_transcoder, handle_transcoder, tick_service, tick_services, tick_claims, tick,
}

-- A status under the key that `publishStatus` puts it at is passed over by `handleTranscoder`, for any
-- plain name of the transcoder that published it.
pub handle_transcoder-service_path :
    (decode_status : Str → Option TranscoderStatus) (decode_stream : Str → Option Stream)
    (name value : Str) (t : Transcoder)
    → IsPlain name
    → handle_transcoder decode_status decode_stream
        (put (service_path (codes "transcode") name) value)
        t
      ≡ t
unfolding handle_transcoder put_transcoder
handle_transcoder-service_path decode_status decode_stream name value t h =
    rw (service_path_lem (codes "transcode") name (is_plain_lem (codes "transcode") refl) h).1

tick_services_nil :
    (world : World) (stopped : Str → Bool) (slug : Str) (services : Dict Str (Option Service))
    (t : Transcoder)
    → lookup slug services ≡ some none
    → tick_services world stopped services t ≡ none
unfolding tick_services tick_service lookup
tick_services_nil world stopped slug [] t h = cc
tick_services_nil world stopped slug ((key, none) ∷ services) t h = refl
tick_services_nil world stopped slug ((key, some v) ∷ services) t h =
    tick_services_nil world stopped slug services _ (ground (arith, h))

-- A transcoder that claims a stream that it does not serve, while systemd cannot be connected to, goes on
-- with a nil service, and the next tick panics, whichever services have stopped by then.
pub claim_stream-tick :
    (world : World) (s : Stream) (t : Transcoder) (stopped : Str → Bool)
    → should_claim t ≡ true
    → lookup s.slug t.services ≡ none
    → world.acquires (stream_transcoder_path s.slug) ≡ true
    → world.connects s.slug ≡ false
    → Runs (λ after. tick world stopped after ≡ none) (claim_stream world s t)
unfolding tick
claim_stream-tick world s t stopped claims new got failed =
    let r = claim_stream_nil world s t claims new got failed in
    record {
      result = r.result;
      runs = r.runs;
      holds =
          ap (λ (o : Option Transcoder). o >>= λ t'. tick_claims world t')
            (tick_services_nil world stopped s.slug r.result.services r.result r.holds);
    }
