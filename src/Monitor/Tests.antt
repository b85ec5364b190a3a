-- ===== src/Monitor/Tests.antt =====
-- The theorems on the monitor (monitor/) at concrete updates, and runs of its functions.
pub mod Settings
use stream_api.Base.{
  ◌≡◌, refl, true, Option, some, is_some, List, [], ◌∷◌, Str, str_Eq, nat_Eq, codes, inr, arith,
}
use stream_api.Base.Dict.{Dict, lookup}
use stream_api.Client.Watch.{put, delete}
use stream_api.Transcode.Load.{TranscoderStatus}
use stream_api.Transcode.Claim.{Stream}
use stream_api.Monitor.{Watcher, new_watcher, handle_transcoder, all_streams, statuses}
use stream_api.Monitor.Server.{Event, add_client, remove_client, update, new_server, run}
use stream_api.Monitor.Follow.{IsName, Shows, list_steps, IsListing, InStep, list_steps-Shows}
use stream_api.Monitor.Clients.{view_of}
use stream_api.Monitor.Latest.{Holds}
use stream_api.Monitor.Mirror.{
  Batch, of_streams, of_transcoders, run_batches, updates_of, client-Holds,
}

-- A value is the source of a stream, and the name of a transcoder.
abbrev decode_stream : Str → Option Stream
decode_stream value =
    some (record { format = []; source = value; slug = codes "s1"; published_at = 0 })

abbrev decode_status : Str → Option TranscoderStatus
decode_status value = some (record { name = value; capacity = 2; num_streams = 0 })

abbrev first_listing : Dict Str Str
first_listing = (codes "stream/s1", codes "a") ∷ (codes "stream/s1/transcoder", codes "t1") ∷ []

abbrev second_listing : Dict Str Str
second_listing = (codes "stream/s1", codes "b") ∷ (codes "stream/s2", codes "c") ∷ []

first-IsListing : IsListing decode_status decode_stream first_listing
unfolding lookup
first-IsListing = record { distinct = (refl, (refl, tt)); readable = (inr refl, (inr refl, tt)) }

second-IsListing : IsListing decode_status decode_stream second_listing
unfolding lookup
second-IsListing = record { distinct = (refl, (refl, tt)); readable = (inr refl, (inr refl, tt)) }

s1-IsName : IsName (codes "s1")
s1-IsName = record { filled = refl; no_slash = omega arith }

start-InStep : InStep decode_status decode_stream (codes "s1") ([], new_watcher)
unfolding lookup
start-InStep = record { distinct = tt; shows = refl }

list_steps-Shows_example :
    Shows decode_status decode_stream
      (codes "s1")
      (list_steps decode_status decode_stream
        (first_listing ∷ second_listing ∷ [])
        ([], new_watcher)).1
      second_listing
list_steps-Shows_example =
    list_steps-Shows decode_status decode_stream (codes "s1") (first_listing ∷ []) second_listing
      ([], new_watcher) s1-IsName (first-IsListing, tt) second-IsListing start-InStep

abbrev batches : List Batch
batches =
    of_streams (put (codes "stream/s1") (codes "a") ∷ [])
    ∷ of_transcoders (put (codes "service/transcode/t1") (codes "t1") ∷ [])
    ∷ of_streams (delete (codes "stream/s1") ∷ [])
    ∷ []

abbrev watcher : Watcher
watcher = run_batches decode_status decode_stream batches new_watcher

abbrev events : List Event
events =
    add_client 1
    ∷ update (
      codes "streams",
      all_streams (
          (
            codes "s1",
            record { format = []; source = codes "a"; slug = codes "s1"; published_at = 0 },
          )
          ∷ []),
    )
    ∷ update (
      codes "transcoders",
      statuses ((codes "t1", record { name = codes "t1"; capacity = 2; num_streams = 0 }) ∷ []),
    )
    ∷ add_client 2
    ∷ remove_client 1
    ∷ update (codes "streams", all_streams [])
    ∷ []

events_sent : updates_of events ≡ watcher.sent
unfolding run_batches
events_sent = refl

connected : is_some (lookup 2 (run events new_server).clients) ≡ true
unfolding run lookup
connected = refl

client-Holds_example : Holds watcher (view_of 2 (run events new_server))
client-Holds_example =
    client-Holds decode_status decode_stream batches events 2 events_sent connected

-- A late client gets the state first, and then the updates.
late_client :
    view_of 2 (run events new_server)
    ≡ (codes "streams", all_streams [])
      ∷ (
        codes "transcoders",
        statuses ((codes "t1", record { name = codes "t1"; capacity = 2; num_streams = 0 }) ∷ []),
      )
      ∷ []
unfolding run view_of
late_client = refl

-- A key of the prefix that the watch has is not that of a service's client.
transcoder_unseen :
    handle_transcoder decode_status decode_stream (put (codes "transcoders/t1") []) new_watcher
    ≡ new_watcher
unfolding handle_transcoder
transcoder_unseen = refl
