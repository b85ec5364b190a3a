-- ===== src/Transcode/Events/Capacity.antt =====
-- A transcoder stays within its capacity and runs nothing that it has not claimed
-- (transcode/transcoder.go).
use stream_api.Base.{
  Option-cases, ℕ, ◌≡◌, refl, Bool, true, false, Option, none, some, is_some, List, [], ◌∷◌, Str,
  str_Eq, str_eq_iff, ◌>>=◌, arith, All, Bool-cases, inl, inr, Runs, Runs-some, Runs-bind, Runs-if,
}
use stream_api.Base.Dict.{Dict, lookup, insert, remove, lookup-insert, lookup-remove}
use stream_api.Base.Dict.Entries.{length-insert, length-remove, All-insert, All-remove}
use stream_api.Client.Path.{parse_transcoder_name, parse_stream_name}
use stream_api.Client.Watch.{WatchUpdate, put, delete}
use stream_api.Transcode.Load.{TranscoderStatus}
use stream_api.Transcode.Claim.{Stream, Service, Transcoder, World}
use stream_api.Transcode.Claim.Bounds.{
  IsSound, IsSound-fields, publish_status-IsSound, claim_stream-IsSound,
}
use stream_api.Transcode.Events.{
  put_transcoder, delete_transcoder, handle_transcoder, put_stream, handle_stream_update, reclaim,
  handle_stream_transcoder, update_key, handle_stream, stop_unneeded, tick_service, tick_services,
  claim_missing, tick_claims, tick,
}

-- What reaches the loop of `run`.
pub data Event : Type 0 where
  transcoder_update : WatchUpdate → Event
  stream_update : WatchUpdate → Event
  ticked : (Str → Bool) → Event

module _ (decode_status : Str → Option TranscoderStatus) (decode_stream : Str → Option Stream)
    (world : World) where
  unfoldable pub handle_event : Event → Transcoder → Option Transcoder
  unfolding handle_transcoder handle_stream tick
  handle_event (transcoder_update update) t =
      some (handle_transcoder decode_status decode_stream update t)
  handle_event (stream_update update) t = handle_stream decode_status decode_stream world update t
  handle_event (ticked stopped) t = tick world stopped t

  unfoldable pub run_events : List Event → Transcoder → Option Transcoder
  unfolding handle_event
  run_events [] t = some t
  run_events (e ∷ es) t = handle_event e t >>= λ t'. run_events es t'

  module _ (connected : (slug : Str) → world.connects slug ≡ true) (name : Str) (capacity : ℕ) where
    abbrev Sound : Transcoder → Type 0
    Sound = IsSound name capacity

    handle_transcoder-IsSound :
        (update : WatchUpdate) (t : Transcoder)
        → Sound t
        → Sound (handle_transcoder decode_status decode_stream update t)
    unfolding handle_transcoder
    handle_transcoder-IsSound (put key value) t h =
        by_name (parse_transcoder_name key) (decode_status value)
      where
        by_name :
            (n : Option Str) (s : Option TranscoderStatus)
            → Sound (put_transcoder decode_status decode_stream n s t)
        by_name none s = unfold put_transcoder in h
        by_name (some n) none = unfold put_transcoder in h
        by_name (some n) (some s) =
            unfold put_transcoder in IsSound-fields name capacity t _ refl refl refl refl h
    handle_transcoder-IsSound (delete key) t h = by_name (parse_transcoder_name key)
      where
        by_name : (n : Option Str) → Sound (delete_transcoder decode_status decode_stream n t)
        by_name none = unfold delete_transcoder in h
        by_name (some n) =
            unfold delete_transcoder in IsSound-fields name capacity t _ refl refl refl refl h

    put_stream-IsSound :
        (key : Str) (s : Option Stream) (t : Transcoder)
        → Sound t
        → Runs Sound (put_stream decode_status decode_stream world key s t)
    unfolding put_stream
    put_stream-IsSound key none t h = Runs-some Sound t h
    put_stream-IsSound key (some s) t h =
        claim_stream-IsSound world connected name capacity s
          (record t { streams = insert key s t.streams })
          (IsSound-fields name capacity t _ refl refl refl refl h)

    handle_stream_update-IsSound :
        (key : Str) (update : WatchUpdate) (t : Transcoder)
        → Sound t
        → Runs Sound (handle_stream_update decode_status decode_stream world key update t)
    unfolding handle_stream_update
    handle_stream_update-IsSound key (put k value) t h =
        put_stream-IsSound key (decode_stream value) t h
    handle_stream_update-IsSound key (delete k) t h =
        Runs-some Sound _ (IsSound-fields name capacity t _ refl refl refl refl h)

    reclaim-IsSound :
        (s : Option Stream) (t : Transcoder)
        → Sound t
        → Runs Sound (reclaim decode_status decode_stream world s t)
    unfolding reclaim
    reclaim-IsSound none t h = Runs-some Sound t h
    reclaim-IsSound (some s) t h = claim_stream-IsSound world connected name capacity s t h

    handle_stream_transcoder-IsSound :
        (key : Str) (update : WatchUpdate) (t : Transcoder)
        → Sound t
        → Runs Sound (handle_stream_transcoder decode_status decode_stream world key update t)
    unfolding handle_stream_transcoder
    handle_stream_transcoder-IsSound key (put k value) t h =
        Runs-some Sound _ (IsSound-fields name capacity t _ refl refl refl refl h)
    handle_stream_transcoder-IsSound key (delete k) t h =
        reclaim-IsSound (lookup key t.streams) _
          (IsSound-fields name capacity t _ refl refl refl refl h)

    handle_stream-IsSound :
        (update : WatchUpdate) (t : Transcoder)
        → Sound t
        → Runs Sound (handle_stream decode_status decode_stream world update t)
    unfolding handle_stream
    handle_stream-IsSound update t h = Runs-if Sound _ _ _ (Runs-some Sound t h) (
        Runs-if Sound _ _ _
          (handle_stream_update-IsSound
            (parse_stream_name (update_key decode_status decode_stream update)) update t h)
          (Runs-if Sound _ _ _
            (handle_stream_transcoder-IsSound
              (parse_stream_name (update_key decode_status decode_stream update)) update t h)
            (Runs-some Sound t h)))

    removed-IsSound :
        (key : Str) (t : Transcoder)
        → Sound t
        → Sound (record t { services = remove key t.services })
    removed-IsSound key t h = record {
      same_name = h.same_name;
      same_capacity = h.same_capacity;
      bounded = omega (arith, h.bounded, length-remove key t.services);
      whole = All-remove (λ o. is_some o ≡ true) key t.services h.whole;
      owned = λ q v e. ground (arith, h.owned q v, lookup-remove key q t.services, e);
    }

    stop_unneeded-IsSound :
        (key : Str) (service : Service) (t : Transcoder)
        → Sound t
        → Sound (stop_unneeded world key service t)
    unfolding stop_unneeded
    stop_unneeded-IsSound key service t h = elim (Bool-cases (is_some (lookup key t.streams))) [
      | inl needed ↦ rw needed h
      | inr unneeded ↦ elim (Bool-cases (is_some (lookup key t.services))) [
        | inr gone ↦ rw (unneeded, gone) h
        | inl there ↦
            rw (unneeded, there)
              (record {
                same_name = h.same_name;
                same_capacity = h.same_capacity;
                bounded = ground (
                  arith,
                  h.bounded,
                  length-insert key (some (record service { stopping = true })) t.services,
                );
                whole =
                    All-insert (λ o. is_some o ≡ true) key
                      (some (record service { stopping = true })) t.services refl h.whole;
                owned = λ q v e. elim (Option-cases (lookup q t.services)) [
                  | inr (w, before) ↦ h.owned q w before
                  | inl missing ↦ absurd (unknown q v missing there e)
                ];
              })
      ]
    ]
      where
        unknown :
            (q : Str) (v : Option Service)
            → lookup q t.services ≡ none
            → is_some (lookup key t.services) ≡ true
            → lookup q (insert key (some (record service { stopping = true })) t.services) ≡ some v
            → ⊥
        unknown q v missing there e = ground (
          arith,
          lookup-insert key q (some (record service { stopping = true })) t.services,
          str_eq_iff key q,
        )

    tick_service-IsSound :
        (gone : Bool) (key : Str) (service : Option Service) (t : Transcoder)
        → is_some service ≡ true
        → Sound t
        → Runs Sound (tick_service world gone key service t)
    unfolding tick_service
    tick_service-IsSound gone key none t k h = cc
    tick_service-IsSound true key (some service) t k h = Runs-some Sound _ (
        stop_unneeded-IsSound key service _
          (publish_status-IsSound world name capacity _ (removed-IsSound key t h)))
    tick_service-IsSound false key (some service) t k h =
        Runs-some Sound _ (stop_unneeded-IsSound key service t h)

    tick_services-IsSound :
        (stopped : Str → Bool) (services : Dict Str (Option Service)) (t : Transcoder)
        → All (λ x. is_some x.1 ≡ true) services
        → Sound t
        → Runs Sound (tick_services world stopped services t)
    unfolding tick_services
    tick_services-IsSound stopped [] t w h = Runs-some Sound t h
    tick_services-IsSound stopped ((key, service) ∷ services) t (hw, w) h =
        Runs-bind Sound Sound _ _ (tick_service-IsSound (stopped key) key service t hw h)
          (λ t' h'. tick_services-IsSound stopped services t' w h')

    claim_missing-IsSound :
        (streams : Dict Str Stream) (t : Transcoder)
        → Sound t
        → Runs Sound (claim_missing world streams t)
    unfolding claim_missing
    claim_missing-IsSound [] t h = Runs-some Sound t h
    claim_missing-IsSound ((key, s) ∷ streams) t h =
        Runs-bind Sound Sound _ _
          (Runs-if Sound _ _ _ (Runs-some Sound t h)
            (claim_stream-IsSound world connected name capacity s t h))
          (λ t' h'. claim_missing-IsSound streams t' h')

    tick-IsSound :
        (stopped : Str → Bool) (t : Transcoder) → Sound t → Runs Sound (tick world stopped t)
    unfolding tick tick_claims
    tick-IsSound stopped t h =
        Runs-bind Sound Sound _ _ (tick_services-IsSound stopped t.services t h.whole h) (λ t' h'.
          Runs-if Sound _ _ _ (claim_missing-IsSound t'.streams t' h') (Runs-some Sound t' h'))

    handle_event-IsSound : (e : Event) (t : Transcoder) → Sound t → Runs Sound (handle_event e t)
    unfolding handle_event
    handle_event-IsSound (transcoder_update update) t h =
        Runs-some Sound _ (handle_transcoder-IsSound update t h)
    handle_event-IsSound (stream_update update) t h = handle_stream-IsSound update t h
    handle_event-IsSound (ticked stopped) t h = tick-IsSound stopped t h

    -- While systemd can be connected to, the loop handles any events without a panic, from a state that runs
    -- no more services than its capacity, each with a key that it acquired and none of them nil; and the
    -- state after the events is such a state too.
    pub run_events-IsSound :
        (es : List Event) (t : Transcoder) → Sound t → Runs Sound (run_events es t)
    unfolding run_events
    run_events-IsSound [] t h = Runs-some Sound t h
    run_events-IsSound (e ∷ es) t h =
        Runs-bind Sound Sound _ _ (handle_event-IsSound e t h)
          (λ t' h'. run_events-IsSound es t' h')
