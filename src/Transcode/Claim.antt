-- ===== src/Transcode/Claim.antt =====
-- The state of a transcoder and the claim of a stream (transcode/transcoder.go). A service that could not
-- be created is a nil pointer in the map, `none`, and a call of its methods panics, which is `none`.
pub mod Bounds
use stream_api.Base.{
  ℕ, ◌+◌, Bool, true, false, Option, none, some, List, [], ◌∷◌, ◌++◌, Str, str_Eq, str_eq, codes,
  if◌then◌else◌, leb, length,
}
use stream_api.Base.Dict.{Dict, lookup, insert}
use stream_api.Client.Path.{service_path, stream_transcoder_path}
use stream_api.Transcode.Load.{TranscoderStatus, least}

pub record Stream : Type 0 where
  pub format : Str
  pub source : Str
  pub slug : Str
  pub published_at : ℕ

-- A `systemd.Service`: its configuration, and whether its context is done.
pub record Service : Type 0 where
  pub config : Str
  pub stopping : Bool

-- `puts` are the keys that `PutWithSession` acquired, with their last values; a status stands with no value.
pub record Transcoder : Type 0 where
  pub name : Str
  pub capacity : ℕ
  pub sink : Str
  pub services : Dict Str (Option Service)
  pub transcoders : Dict Str TranscoderStatus
  pub streams : Dict Str Stream
  pub stream_transcoders : Dict Str Str
  pub puts : Dict Str Str
  pub published : List TranscoderStatus

-- Whether a key can be acquired, and whether systemd can be connected to for a slug.
pub record World : Type 0 where
  pub acquires : Str → Bool
  pub connects : Str → Bool

unfoldable pub statuses : Dict Str TranscoderStatus → List TranscoderStatus
statuses [] = []
statuses ((_, status) ∷ entries) = status ∷ statuses entries

is_named : Str → List TranscoderStatus → Bool
is_named name [] = false
is_named name (s ∷ _) = str_eq s.name name

unfoldable pub should_claim : Transcoder → Bool
unfolding is_named statuses least
should_claim t =
    if leb t.capacity (length t.services)
    then false
    else is_named t.name (least (statuses t.transcoders))

abbrev line : Str → Str → Str
line field value = field ++ (codes "=" ++ (value ++ (10 ∷ [])))

-- `templateConfig`
unfoldable pub template_config : Str → Stream → Str
template_config sink s =
    10 ∷ line (codes "stream_key") s.slug
    ++ (line (codes "format") s.format
        ++ (line (codes "output") (codes "direct")
            ++ (line (codes "type") (codes "h264-only")
                ++ (line (codes "transcoding_source") s.source
                    ++ line (codes "transcoding_sink") sink))))

-- `publishStatus`; its error is only logged by the callers here.
unfoldable pub publish_status : World → Transcoder → Transcoder
unfolding service_path
publish_status world t =
    let status : TranscoderStatus = record {
      name = t.name;
      capacity = t.capacity;
      num_streams = length t.services;
    } in
    if world.acquires (service_path (codes "transcode") t.name)
    then record t { published = t.published ++ (status ∷ []) }
    else t

-- `startService`: the map gets the service even if it could not be created.
start_service : World → Stream → Transcoder → Transcoder
unfolding insert
start_service world s t =
    let service =
      if world.connects s.slug
      then some (record { config = template_config t.sink s; stopping = false })
      else none in
    publish_status world (record t { services = insert s.slug service t.services })

-- `PutWithSession` of the claim, then a restart or a start.
claim_free : World → Stream → Option Service → Transcoder → Transcoder
unfolding start_service insert
claim_free world s service t =
    let key = stream_transcoder_path s.slug in
    let claimed = record t { puts = insert key t.name t.puts } in
    let restarted : Transcoder = elim service [
      | none ↦ start_service world s claimed
      | some v ↦ record claimed {
        services = insert s.slug (some (record v { config = template_config t.sink s })) t.services;
      }
    ] in
    if world.acquires key then restarted else t

unfoldable pub claim_stream : World → Stream → Transcoder → Option Transcoder
unfolding should_claim claim_free lookup publish_status template_config stream_transcoder_path
claim_stream world s t =
    let claimed : Option Transcoder = elim (lookup s.slug t.services) [
      | none ↦ some (claim_free world s none t)
      | some none ↦ none
      | some (some v) ↦ if v.stopping then some t else some (claim_free world s (some v) t)
    ] in
    if should_claim t then claimed else some t
