-- ===== src/Transcode/Tests.antt =====
-- The theorems on the transcoder (transcode/) at a concrete state.
use stream_api.Base.{
  ℕ, ◌≡◌, ◌<◌, refl, true, false, Option, none, some, List, [], ◌∷◌, Str, str_Eq, codes, arith, All,
  Runs,
}
use mathlib.Core.List.{Memᴰ}
use stream_api.Base.Dict.{lookup}
use stream_api.Base.FilePath.Plain.{is_plain_lem}
use stream_api.Client.Path.{service_path, stream_path}
use stream_api.Client.Watch.{put}
use stream_api.Transcode.Load.{TranscoderStatus}
use stream_api.Transcode.Load.Order.{Below, HasCapacity}
use stream_api.Transcode.Claim.{Stream, Transcoder, World, statuses, should_claim, claim_stream}
use stream_api.Transcode.Claim.Bounds.{IsSound, should_claim_lem}
use stream_api.Transcode.Events.{handle_transcoder, tick}
use stream_api.Transcode.Events.Capacity.{
  Event, stream_update, ticked, run_events, run_events-IsSound,
}
use stream_api.Transcode.Events.Failures.{handle_transcoder-service_path, claim_stream-tick}

abbrev status_of : Str → ℕ → ℕ → TranscoderStatus
status_of name capacity n = record { name = name; capacity = capacity; num_streams = n }

abbrev a_stream : Stream
a_stream = record {
  format = codes "matroska";
  source = codes "http://in/s1";
  slug = codes "s1";
  published_at = 1;
}

abbrev a_transcoder : Transcoder
a_transcoder = record {
  name = codes "t2";
  capacity = 2;
  sink = codes "http://out";
  services = [];
  transcoders =
      (codes "t1", status_of (codes "t1") 4 3) ∷ (codes "t2", status_of (codes "t2") 2 1) ∷ [];
  streams = [];
  stream_transcoders = [];
  puts = [];
  published = [];
}

abbrev good_world : World
good_world = record { acquires = λ key. true; connects = λ slug. true }

abbrev bad_world : World
bad_world = record { acquires = λ key. true; connects = λ slug. false }

abbrev decode_status : Str → Option TranscoderStatus
decode_status value = none

abbrev decode_stream : Str → Option Stream
decode_stream value = some a_stream

a_transcoder-claims : should_claim a_transcoder ≡ true
unfolding should_claim statuses
a_transcoder-claims = refl

a_transcoder-IsSound : IsSound (codes "t2") 2 a_transcoder
unfolding lookup
a_transcoder-IsSound = record {
  same_name = refl;
  same_capacity = refl;
  bounded = omega arith;
  whole = tt;
  owned = λ slug v e. cc;
}

abbrev events : List Event
events = stream_update (put (stream_path (codes "s1")) (codes "{}")) ∷ ticked (λ slug. false) ∷ []

run_events-IsSound_example :
    Runs
      (IsSound (codes "t2") 2)
      (run_events decode_status decode_stream good_world events a_transcoder)
run_events-IsSound_example =
    run_events-IsSound decode_status decode_stream good_world (λ slug. refl) (codes "t2") 2 events
      a_transcoder a_transcoder-IsSound

known_statuses : All HasCapacity (statuses a_transcoder.transcoders)
unfolding statuses
known_statuses = (omega arith, (omega arith, tt))

should_claim_lem_example :
    (0 < 2)
    × ((own : TranscoderStatus) × (own.name ≡ codes "t2")
        × Memᴰ own (statuses a_transcoder.transcoders)
        × All (λ other. Below own other) (statuses a_transcoder.transcoders))
should_claim_lem_example = should_claim_lem a_transcoder a_transcoder-claims known_statuses

handle_transcoder-service_path_example :
    handle_transcoder decode_status decode_stream
      (put (service_path (codes "transcode") (codes "t1")) (codes "{}"))
      a_transcoder
    ≡ a_transcoder
handle_transcoder-service_path_example =
    handle_transcoder-service_path decode_status decode_stream (codes "t1") (codes "{}")
      a_transcoder (is_plain_lem (codes "t1") refl)

no_service : lookup (codes "s1") a_transcoder.services ≡ none
unfolding lookup
no_service = refl

claim_stream-tick_example :
    Runs
      (λ after. tick bad_world (λ slug. false) after ≡ none)
      (claim_stream bad_world a_stream a_transcoder)
claim_stream-tick_example =
    claim_stream-tick bad_world a_stream a_transcoder (λ slug. false) a_transcoder-claims no_service
      refl refl
