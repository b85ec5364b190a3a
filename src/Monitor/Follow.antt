-- ===== src/Monitor/Follow.antt =====
-- The streams that the monitor shows are those that the watch lists (monitor/watcher.go, client/consul.go).
use stream_api.Base.{
  ◌≡◌, refl, sym, ap, ◌∙◌, Bool, true, false, Option, none, some, is_some, List, [], ◌∷◌, ◌++◌, Str,
  str_Eq, str_eq, str_eq_iff, if◌then◌else◌, arith, All, Bool-cases, inl, inr, ◌>>=◌, ◌⊎◌, beq_refl,
}
use stream_api.Base.Dict.{Dict, lookup, insert, lookup-insert, lookup-remove, IsDistinct}
use stream_api.Base.Text.{Lacks}
use stream_api.Base.FilePath.{slash}
use stream_api.Client.Path.{parse_stream_name, path_is_stream, path_is_stream_transcoder}
use stream_api.Client.Path.Keys.{
  stream_key, stream_key-parse_stream_name, parse_stream_name-stream_key,
}
use stream_api.Client.Watch.{WatchUpdate, put, delete, all_pairs, handle_watch}
use stream_api.Client.Watch.Sends.{Puts, handle_watch-Sends}
use stream_api.Client.Watch.Follow.{apply, apply_all}
use stream_api.Transcode.Load.{TranscoderStatus}
use stream_api.Transcode.Claim.{Stream}
use stream_api.Monitor.{
  Watcher, update_key, send_update, send_streams, put_stream, handle_stream_update,
  handle_stream_transcoder, handle_stream, handle_streams,
}

-- A name that a key can have.
pub record IsName (name : Str) : Type 0 where
  pub filled : str_eq name [] ≡ false
  pub no_slash : Lacks slash name

module _ (decode_status : Str → Option TranscoderStatus) (decode_stream : Str → Option Stream) where
  -- What an update makes of a stream: a value that cannot be decoded leaves it.
  abbrev changed : WatchUpdate → Option Stream → Option Stream
  changed (put key value) before = elim (decode_stream value) [ none ↦ before | some s ↦ some s ]
  changed (delete key) before = none

  handle_stream_update_lem :
      (name q : Str) (u : WatchUpdate) (w : Watcher)
      → lookup q (handle_stream_update decode_status decode_stream name u w).streams
        ≡ (if str_eq name q then changed u (lookup q w.streams) else lookup q w.streams)
  unfolding handle_stream_update send_streams send_update
  handle_stream_update_lem name q (delete key) w = lookup-remove name q w.streams
  handle_stream_update_lem name q (put key value) w = by_value (decode_stream value)
    where
      by_value :
          (o : Option Stream)
          → lookup q (put_stream decode_status decode_stream name o w).streams ≡ (
              if str_eq name q
              then elim o as (λ _. Option Stream) [ none ↦ lookup q w.streams | some s ↦ some s ]
              else lookup q w.streams)
      by_value none = unfold put_stream in ground arith
      by_value (some s) = unfold put_stream in lookup-insert name q s w.streams

  transcoder-streams :
      (name : Str) (u : WatchUpdate) (w : Watcher)
      → (handle_stream_transcoder name u w).streams ≡ w.streams
  unfolding handle_stream_transcoder send_update
  transcoder-streams name (put key value) w = refl
  transcoder-streams name (delete key) w = refl

  handle_stream_lem :
      (name : Str) (u : WatchUpdate) (w : Watcher)
      → IsName name
      → lookup name (handle_stream decode_status decode_stream u w).streams ≡ (
          if str_eq (update_key u) (stream_key name)
          then changed u (lookup name w.streams)
          else lookup name w.streams)
  unfolding handle_stream
  handle_stream_lem name u w h = elim (Bool-cases (str_eq (update_key u) (stream_key name))) [
    | inl own ↦
        let e = (str_eq_iff (update_key u) (stream_key name)).0 own in
        let (parsed, stream) = parse_stream_name-stream_key name h.no_slash in
        let parsed' : parse_stream_name (update_key u) ≡ name = ap parse_stream_name e ∙ parsed in
        let stream' : path_is_stream (update_key u) ≡ true = ap path_is_stream e ∙ stream in
        rw (own, parsed', h.filled, stream')
          (handle_stream_update_lem name name u w ∙ rw (beq_refl name))
    | inr other ↦ rw other (
        by_path (parse_stream_name (update_key u)) refl (path_is_stream (update_key u)) refl
          (path_is_stream_transcoder (update_key u)) other)
  ]
    where
      by_path :
          (parsed : Str)
          → parse_stream_name (update_key u) ≡ parsed
          → (stream : Bool) → path_is_stream (update_key u) ≡ stream
          → (transcoder : Bool) → str_eq (update_key u) (stream_key name) ≡ false
          → lookup name
              (if str_eq parsed []
                then w
                else if stream
                then handle_stream_update decode_status decode_stream parsed u w
                else if transcoder
                then handle_stream_transcoder parsed u w
                else w).streams
            ≡ lookup name w.streams
      by_path [] e stream f transcoder other = refl
      by_path (c ∷ parsed) e true f transcoder other =
          let key : update_key u ≡ stream_key (c ∷ parsed) =
            stream_key-parse_stream_name (update_key u) f ∙ ap stream_key e in
          let apart : str_eq (c ∷ parsed) name ≡ false =
            different (c ∷ parsed) key other (Bool-cases (str_eq (c ∷ parsed) name)) in
          handle_stream_update_lem (c ∷ parsed) name u w ∙ (rw apart)
        where
          different :
              (parsed : Str)
              → update_key u ≡ stream_key parsed
              → str_eq (update_key u) (stream_key name) ≡ false
              → (str_eq parsed name ≡ true) ⊎ (str_eq parsed name ≡ false)
              → str_eq parsed name ≡ false
          different parsed key other (inr d) = d
          different parsed key other (inl same) = absurd (
              ground (
                arith,
                str_eq_iff (update_key u) (stream_key name),
                ap stream_key ((str_eq_iff parsed name).0 same),
              ))
      by_path (c ∷ parsed) e false f true other =
          ap (lookup name) (transcoder-streams (c ∷ parsed) u w)
      by_path (c ∷ parsed) e false f false other = refl

  -- A value under the key of a stream can be decoded.
  abbrev pub IsReadable : Str → Str → Type 0
  IsReadable key value = (path_is_stream key ≡ false) ⊎ (is_some (decode_stream value) ≡ true)

  -- The watcher has the stream of a name exactly as a map of keys and values has it.
  abbrev pub Shows : Str → Watcher → Dict Str Str → Type 0
  Shows name w view = lookup name w.streams ≡ (lookup (stream_key name) view >>= decode_stream)

  handle_stream-Shows :
      (name : Str) (u : WatchUpdate) (w : Watcher) (view : Dict Str Str)
      → IsName name
      → Puts IsReadable u
      → Shows name w view
      → Shows name (handle_stream decode_status decode_stream u w) (apply u view)
  unfolding update_key
  handle_stream-Shows name (delete key) w view h readable shows = ground (
    arith,
    handle_stream_lem name (delete key) w h,
    lookup-remove key (stream_key name) view,
    shows,
  )
  handle_stream-Shows name (put key value) w view h readable shows =
      handle_stream_lem name (put key value) w h
      ∙ by_key (Bool-cases (str_eq key (stream_key name))) (decode_stream value) refl
    where
      by_key :
          (str_eq key (stream_key name) ≡ true) ⊎ (str_eq key (stream_key name) ≡ false)
          → (o : Option Stream) → decode_stream value ≡ o
          → (if str_eq key (stream_key name)
              then elim o as (λ _. Option Stream) [ none ↦ lookup name w.streams | some s ↦ some s ]
              else lookup name w.streams)
            ≡ (lookup (stream_key name) (insert key value view) >>= decode_stream)
      by_key (inr other) o e =
          rw (other, lookup-insert key (stream_key name) value view, other) shows
      by_key (inl own) (some s) e =
          rw (own, lookup-insert key (stream_key name) value view, own) (sym e)
      by_key (inl own) none e = absurd (unread readable)
        where
          unread : IsReadable key value → ⊥
          unread (inl not_stream) =
              let stream : path_is_stream key ≡ true =
                ap path_is_stream ((str_eq_iff key (stream_key name)).0 own)
                ∙ (parse_stream_name-stream_key name h.no_slash).1 in
              cc
          unread (inr read) = ground arith

  handle_streams-Shows :
      (name : Str) (us : List WatchUpdate) (w : Watcher) (view : Dict Str Str)
      → IsName name
      → All (Puts IsReadable) us
      → Shows name w view
      → Shows name (handle_streams decode_status decode_stream us w) (apply_all us view)
  unfolding handle_streams apply_all
  handle_streams-Shows name [] w view h readable shows = shows
  handle_streams-Shows name (u ∷ us) w view h (first, readable) shows =
      handle_streams-Shows name us (handle_stream decode_status decode_stream u w) (apply u view) h
        readable (handle_stream-Shows name u w view h first shows)

  -- The watch of the streams with its cache, and the watcher.
  abbrev pub Watching : Type 0
  Watching = Dict Str Str × Watcher

  abbrev receive : Option (List WatchUpdate) → Watcher → Watcher
  receive none w = w
  receive (some us) w = handle_streams decode_status decode_stream us w

  -- The handler of the watch gets a listing, and the watcher what it sends.
  pub list_step : Dict Str Str → Watching → Watching
  unfolding handle_watch handle_streams
  list_step pairs (cache, w) =
      let (sent, cache') = handle_watch (all_pairs pairs) cache in (cache', receive sent w)

  unfoldable pub list_steps : List (Dict Str Str) → Watching → Watching
  unfolding list_step
  list_steps [] s = s
  list_steps (pairs ∷ listings) s = list_steps listings (list_step pairs s)

  -- A listing without double keys whose streams can be decoded.
  pub record IsListing (pairs : Dict Str Str) : Type 0 where
    pub distinct : IsDistinct pairs
    pub readable : All (λ e. IsReadable e.0 e.1) pairs

  pub record InStep (name : Str) (s : Watching) : Type 0 where
    pub distinct : IsDistinct s.0
    pub shows : Shows name s.1 s.0

  list_step-Shows :
      (name : Str) (pairs : Dict Str Str) (s : Watching)
      → IsName name
      → IsListing pairs
      → InStep name s
      → InStep name (list_step pairs s) × Shows name (list_step pairs s).1 pairs
  unfolding list_step
  list_step-Shows name pairs (cache, w) h listing i =
      let sends =
        handle_watch-Sends IsReadable pairs cache i.distinct listing.distinct listing.readable in
      let shown = handle_streams-Shows name sends.updates w cache h sends.of_pairs i.shows in
      let now : Shows name (list_step pairs (cache, w)).1 (list_step pairs (cache, w)).0 =
        ap (λ o. lookup name (receive o w).streams) sends.sent
        ∙ shown
        ∙ ap (λ c. lookup (stream_key name) c >>= decode_stream) (sym sends.leads) in
      (
        record { distinct = sends.distinct; shows = now },
        now ∙ ap (λ o. o >>= decode_stream) (sends.agrees (stream_key name)),
      )

  -- However many listings of the key-value store the watch has handed over to a monitor that was in step, of a
  -- name that is not empty and has no slash the monitor shows exactly the stream that the last listing has
  -- under its key, and none if it has none; where no listing has a key twice, and every value under
  -- the key of a stream can be decoded.
  pub list_steps-Shows :
      (name : Str) (listings : List (Dict Str Str)) (pairs : Dict Str Str) (s : Watching)
      → IsName name
      → All IsListing listings
      → IsListing pairs
      → InStep name s
      → Shows name (list_steps (listings ++ (pairs ∷ [])) s).1 pairs
  unfolding list_steps
  list_steps-Shows name [] pairs s h _ listing i = (list_step-Shows name pairs s h listing i).1
  list_steps-Shows name (first ∷ listings) pairs s h (one, all) listing i =
      list_steps-Shows name listings pairs (list_step first s) h all listing
        (list_step-Shows name first s h one i).0
