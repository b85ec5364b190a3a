-- ===== src/Transcode/Claim/Bounds.antt =====
-- What a claim keeps (transcode/transcoder.go).
use mathlib.Core.List.{Memᴰ}
use stream_api.Base.{
  Runs-if, ℕ, ◌≤◌, ◌<◌, ◌≡◌, ◌≢◌, refl, sym, ap, ◌∙◌, true, false, Option, none, some, is_some,
  List, [], ◌∷◌, Str, str_Eq, str_eq, str_eq_iff, codes, if◌then◌else◌, length, arith, All,
  Bool-cases, inl, inr, Runs, Runs-some,
}
use stream_api.Base.Dict.{Dict, lookup, insert, lookup-insert}
use stream_api.Base.Dict.Entries.{length-insert, All-insert}
use stream_api.Client.Path.{service_path, stream_transcoder_path}
use stream_api.Transcode.Load.{TranscoderStatus, least}
use stream_api.Transcode.Load.Order.{HasCapacity, Below, least_lem}
use stream_api.Transcode.Claim.{
  Stream, Service, Transcoder, World, statuses, is_named, should_claim, template_config,
  publish_status, start_service, claim_free, claim_stream,
}

-- The services are within the capacity, none is nil, and each has a claim that was acquired.
pub record IsSound (name : Str) (capacity : ℕ) (t : Transcoder) : Type 0 where
  pub same_name : t.name ≡ name
  pub same_capacity : t.capacity ≡ capacity
  pub bounded : length t.services ≤ capacity
  pub whole : All (λ x. is_some x.1 ≡ true) t.services
  pub owned :
      (slug : Str) (v : Option Service)
      → lookup slug t.services ≡ some v
      → is_some (lookup (stream_transcoder_path slug) t.puts) ≡ true

lookup_whole :
    (slug : Str) (services : Dict Str (Option Service))
    → All (λ x. is_some x.1 ≡ true) services
    → lookup slug services ≢ some none
unfolding lookup
lookup_whole slug [] h e = cc
lookup_whole slug ((k, v) ∷ services) (hv, h) e =
    ground (arith, lookup_whole slug services h, hv, e)

-- A state that differs in other fields alone.
pub IsSound-fields :
    (name : Str) (capacity : ℕ) (t u : Transcoder)
    → u.name ≡ t.name
    → u.capacity ≡ t.capacity
    → u.services ≡ t.services
    → u.puts ≡ t.puts
    → IsSound name capacity t
    → IsSound name capacity u
IsSound-fields name capacity t u hn hc hs hp h = record {
  same_name = hn ∙ h.same_name;
  same_capacity = hc ∙ h.same_capacity;
  bounded = rw hs h.bounded;
  whole = rw hs h.whole;
  owned = λ slug v e.
      ap (λ (puts : Dict Str Str). is_some (lookup (stream_transcoder_path slug) puts)) hp
      ∙ h.owned slug v (sym (ap (lookup slug) hs) ∙ e);
}

pub publish_status-IsSound :
    (world : World) (name : Str) (capacity : ℕ) (t : Transcoder)
    → IsSound name capacity t
    → IsSound name capacity (publish_status world t)
unfolding publish_status
publish_status-IsSound world name capacity t h =
    elim (Bool-cases (world.acquires (service_path (codes "transcode") t.name))) [
      | inl got ↦ rw got (IsSound-fields name capacity t _ refl refl refl refl h)
      | inr held ↦ rw held h
    ]

-- A service that is put into the map under a claim.
insert-IsSound :
    (name : Str) (capacity : ℕ) (slug value : Str) (v : Service) (t : Transcoder)
    → IsSound name capacity t
    → length (insert slug (some v) t.services) ≤ capacity
    → IsSound name capacity (record t {
      services = insert slug (some v) t.services;
      puts = insert (stream_transcoder_path slug) value t.puts;
    })
insert-IsSound name capacity slug value v t h room = record {
  same_name = h.same_name;
  same_capacity = h.same_capacity;
  bounded = room;
  whole = All-insert (λ o. is_some o ≡ true) slug (some v) t.services refl h.whole;
  owned = λ q w e. elim (Bool-cases (str_eq slug q)) [
    | inl same ↦
        let p : slug ≡ q = (str_eq_iff slug q).0 same in
        rw (← p) (
          ground (
            arith,
            lookup-insert (stream_transcoder_path slug) (stream_transcoder_path slug) value t.puts,
            str_eq_iff (stream_transcoder_path slug) (stream_transcoder_path slug),
          ))
    | inr other ↦ ground (
      arith,
      h.owned q w,
      lookup-insert slug q (some v) t.services,
      other,
      e,
      lookup-insert (stream_transcoder_path slug) (stream_transcoder_path q) value t.puts,
    )
  ];
}

room_left : (t : Transcoder) → should_claim t ≡ true → length t.services < t.capacity
unfolding should_claim
room_left t h = ground (arith, h)

module _ (world : World) (connected : (slug : Str) → world.connects slug ≡ true) (name : Str)
    (capacity : ℕ) where
  claim_free-IsSound :
      (s : Stream) (service : Option Service) (t : Transcoder)
      → IsSound name capacity t
      → length t.services < capacity
      → (is_some service ≡ true → is_some (lookup s.slug t.services) ≡ true)
      → IsSound name capacity (claim_free world s service t)
  unfolding claim_free start_service
  claim_free-IsSound s none t h room known =
      elim (Bool-cases (world.acquires (stream_transcoder_path s.slug))) [
        | inr held ↦ rw held h
        | inl got ↦
            rw (got, connected s.slug)
              (publish_status-IsSound world name capacity _ (
                insert-IsSound name capacity s.slug t.name _ t h (
                  ground (
                    arith,
                    length-insert s.slug
                        (some (record { config = template_config t.sink s; stopping = false }))
                        t.services,
                  ))))
      ]
  claim_free-IsSound s (some v) t h room known =
      elim (Bool-cases (world.acquires (stream_transcoder_path s.slug))) [
        | inr held ↦ rw held h
        | inl got ↦ rw got (
            insert-IsSound name capacity s.slug t.name _ t h (
              ground (
                arith,
                length-insert s.slug (some (record v { config = template_config t.sink s }))
                    t.services,
              )))
      ]

  pub claim_stream-IsSound :
      (s : Stream) (t : Transcoder)
      → IsSound name capacity t
      → Runs (IsSound name capacity) (claim_stream world s t)
  unfolding claim_stream
  claim_stream-IsSound s t h = elim (Bool-cases (should_claim t)) [
    | inr later ↦ rw later (Runs-some (IsSound name capacity) _ h)
    | inl now ↦
        let room : length t.services < capacity = omega (arith, room_left t now, h.same_capacity) in
        rw now (by_service (lookup s.slug t.services) refl room)
  ]
    where
      by_service :
          (o : Option (Option Service))
          → lookup s.slug t.services ≡ o
          → length t.services < capacity
          → Runs (IsSound name capacity) (elim o as (λ _. Option Transcoder) [
            | none ↦ some (claim_free world s none t)
            | some none ↦ none
            | some (some v) ↦ if v.stopping then some t else some (claim_free world s (some v) t)
          ])
      by_service none e room =
          Runs-some (IsSound name capacity) _ (claim_free-IsSound s none t h room (λ k. cc))
      by_service (some none) e room = absurd (lookup_whole s.slug t.services h.whole e)
      by_service (some (some v)) e room =
          Runs-if (IsSound name capacity) v.stopping _ _ (Runs-some (IsSound name capacity) _ h) (
            Runs-some (IsSound name capacity) _
              (claim_free-IsSound s (some v) t h room (λ k. ground arith)))

nil_started :
    (world : World) (s : Stream) (t : Transcoder)
    → world.connects s.slug ≡ false
    → lookup s.slug (start_service world s t).services ≡ some none
unfolding start_service publish_status
nil_started world s t failed =
    rw (failed, start_service)
      (ground (arith, lookup-insert s.slug s.slug none t.services, str_eq_iff s.slug s.slug))

-- The state after a claim whose service could not be created.
pub claim_stream_nil :
    (world : World) (s : Stream) (t : Transcoder)
    → should_claim t ≡ true
    → lookup s.slug t.services ≡ none
    → world.acquires (stream_transcoder_path s.slug) ≡ true
    → world.connects s.slug ≡ false
    → Runs (λ u. lookup s.slug u.services ≡ some none) (claim_stream world s t)
unfolding claim_stream
claim_stream_nil world s t claims new got failed =
    rw (claims, new)
      (Runs-some (λ (u : Transcoder). lookup s.slug u.services ≡ some none)
        (claim_free world s none t)
        (unfold claim_free in
          rw got (
            nil_started world s
              (record t { puts = insert (stream_transcoder_path s.slug) t.name t.puts }) failed)))

-- A transcoder that claims has room for another service and, if every status that it knows of has
-- capacity, one of those bears its name and none has less load than that.
pub should_claim_lem :
    (t : Transcoder)
    → should_claim t ≡ true
    → All HasCapacity (statuses t.transcoders)
    → (length t.services < t.capacity)
      × ((own : TranscoderStatus) × (own.name ≡ t.name)
          × Memᴰ own (statuses t.transcoders)
          × All (λ other. Below own other) (statuses t.transcoders))
unfolding should_claim is_named
should_claim_lem t h capable =
    (room_left t h, named (least (statuses t.transcoders)) refl (ground (arith, h)))
  where
    named :
        (l : List TranscoderStatus)
        → least (statuses t.transcoders) ≡ l
        → is_named t.name l ≡ true
        → (own : TranscoderStatus) × (own.name ≡ t.name)
          × Memᴰ own (statuses t.transcoders)
          × All (λ other. Below own other) (statuses t.transcoders)
    named [] e k = cc
    named (own ∷ rest) e k =
        let (m, below) = least_lem (statuses t.transcoders) rest own capable e in
        (own, (str_eq_iff own.name t.name).0 k, m, below)
