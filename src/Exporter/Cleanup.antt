-- ===== src/Exporter/Cleanup.antt =====
-- What a request leaves behind (`ServeHTTP` of cmd/transcoding-exporter/progress.go).
use stream_api.Base.{
  ◌≡◌, ◌≢◌, refl, ap, ◌∙◌, Bool, true, false, Option, none, some, List, [], ◌∷◌, Str, str_Eq,
  str_eq, str_eq_iff, codes, if◌then◌else◌, arith, Bool-cases, inl, inr, ◌⊎◌,
}
use stream_api.Base.Dict.{Dict, lookup, lookup-insert, lookup-remove}
use stream_api.Exporter.{
  Floats, Metrics, ActiveStream, new_active, add_to, set_to, record_value, update_metrics,
  delete_stream, apply_line, read_line, read_lines, Answer, ok, bad_request, method_not_allowed,
  aborted, Request, stream_id, serve_http,
}
use stream_api.Exporter.Counters.{
  Counter, frames, dropped, duplicated, bytes, duration, key_of, counter, other_key, updated,
  recorded_other, update_metrics_ok, read_lines-climb,
}

pub data Gauge : Type 0 where
  bitrate : Gauge
  fps : Gauge
  speed : Gauge

module _ (num : Floats) where
  open num use {F, less}

  abbrev pub gauge : Gauge → Metrics num → Dict Str F
  gauge bitrate m = m.current_bitrate
  gauge fps m = m.current_fps
  gauge speed m = m.current_speed

  -- No counter and no gauge has an entry of the stream.
  pub record IsGone (q : Str) (m : Metrics num) : Type 0 where
    pub no_counter : (c : Counter) → lookup q (counter num c m) ≡ none
    pub no_gauge : (g : Gauge) → lookup q (gauge g m) ≡ none

  -- Every counter and every gauge has the entry of the stream that it had.
  pub record IsKept (q : Str) (m m' : Metrics num) : Type 0 where
    pub counters : (c : Counter) → lookup q (counter num c m') ≡ lookup q (counter num c m)
    pub gauges : (g : Gauge) → lookup q (gauge g m') ≡ lookup q (gauge g m)

  own_counter :
      (c : Counter) (id q : Str) (value : F) (s : ActiveStream num) (m : Metrics num)
      → str_eq id q ≡ false
      → lookup q (counter num c (updated num id (key_of c) value (s, m)).1)
        ≡ lookup q (counter num c m)
  own_counter frames id q value s m h = recorded_other num id q s.last_frame value m.total_frames h
  own_counter dropped id q value s m h =
      recorded_other num id q s.last_dropped value m.total_dropped_frames h
  own_counter duplicated id q value s m h =
      recorded_other num id q s.last_dup value m.total_duplicated_frames h
  own_counter bytes id q value s m h = recorded_other num id q s.last_bytes value m.total_bytes h
  own_counter duration id q value s m h =
      recorded_other num id q s.last_duration (num.millionth value) m.total_duration h

  gauge_lem :
      (g : Gauge) (id q key : Str) (value : F) (s : ActiveStream num) (m : Metrics num)
      → str_eq id q ≡ false
      → lookup q (gauge g (updated num id key value (s, m)).1) ≡ lookup q (gauge g m)
  gauge_lem bitrate id q key value s m h =
      ground (arith, lookup-insert id q value m.current_bitrate)
  gauge_lem fps id q key value s m h = ground (arith, lookup-insert id q value m.current_fps)
  gauge_lem speed id q key value s m h = ground (arith, lookup-insert id q value m.current_speed)

  updated-IsKept :
      (id q key : Str) (value : F) (state : ActiveStream num × Metrics num)
      → str_eq id q ≡ false
      → IsKept q state.1 (updated num id key value state).1
  updated-IsKept id q key value (s, m) h = record {
    counters = λ c. elim (Bool-cases (str_eq key (key_of c))) [
      | inl own ↦ rw ((str_eq_iff key (key_of c)).0 own) (own_counter c id q value s m h)
      | inr other ↦ ap (lookup q) (other_key num c id key value s m other).1
    ];
    gauges = λ g. gauge_lem g id q key value s m h;
  }

  delete_stream-IsGone : (id : Str) (m : Metrics num) → IsGone id (delete_stream num id m)
  unfolding delete_stream
  delete_stream-IsGone id m = record { no_counter = by_counter; no_gauge = by_gauge }
    where
      by_counter : (c : Counter) → lookup id (counter num c (delete_stream num id m)) ≡ none
      by_counter frames = ground (arith, lookup-remove id id m.total_frames, str_eq_iff id id)
      by_counter dropped =
          ground (arith, lookup-remove id id m.total_dropped_frames, str_eq_iff id id)
      by_counter duplicated =
          ground (arith, lookup-remove id id m.total_duplicated_frames, str_eq_iff id id)
      by_counter bytes = ground (arith, lookup-remove id id m.total_bytes, str_eq_iff id id)
      by_counter duration = ground (arith, lookup-remove id id m.total_duration, str_eq_iff id id)

      by_gauge : (g : Gauge) → lookup id (gauge g (delete_stream num id m)) ≡ none
      by_gauge bitrate = ground (arith, lookup-remove id id m.current_bitrate, str_eq_iff id id)
      by_gauge fps = ground (arith, lookup-remove id id m.current_fps, str_eq_iff id id)
      by_gauge speed = ground (arith, lookup-remove id id m.current_speed, str_eq_iff id id)

  delete_stream-IsKept :
      (id q : Str) (m m' : Metrics num)
      → str_eq id q ≡ false
      → IsKept q m m'
      → IsKept q m (delete_stream num id m')
  unfolding delete_stream
  delete_stream-IsKept id q m m' h k = record { counters = by_counter; gauges = by_gauge }
    where
      by_counter :
          (c : Counter)
          → lookup q (counter num c (delete_stream num id m')) ≡ lookup q (counter num c m)
      by_counter frames = ground (arith, lookup-remove id q m'.total_frames, k.counters frames)
      by_counter dropped =
          ground (arith, lookup-remove id q m'.total_dropped_frames, k.counters dropped)
      by_counter duplicated =
          ground (arith, lookup-remove id q m'.total_duplicated_frames, k.counters duplicated)
      by_counter bytes = ground (arith, lookup-remove id q m'.total_bytes, k.counters bytes)
      by_counter duration =
          ground (arith, lookup-remove id q m'.total_duration, k.counters duration)

      by_gauge : (g : Gauge) → lookup q (gauge g (delete_stream num id m')) ≡ lookup q (gauge g m)
      by_gauge bitrate = ground (arith, lookup-remove id q m'.current_bitrate, k.gauges bitrate)
      by_gauge fps = ground (arith, lookup-remove id q m'.current_fps, k.gauges fps)
      by_gauge speed = ground (arith, lookup-remove id q m'.current_speed, k.gauges speed)

  module _ (label_ok : Str → Bool) where
    -- A refused request changes nothing.
    pub record IsRefused (req : Request) (m : Metrics num) (r : Answer × Metrics num) : Type 0 where
      pub same : r.1 ≡ m
      pub reason :
          ((r.0 ≡ method_not_allowed) × (req.method ≢ codes "POST") × (req.method ≢ codes "PUT"))
          ⊎ ((r.0 ≡ bad_request) × (stream_id req.path ≡ []))

    -- A request that was read leaves no entry of its stream, and those of another stream `q` as they were.
    pub record IsRead (req : Request) (q : Str) (m : Metrics num) (r : Answer × Metrics num)
        : Type 0 where
      pub method : (req.method ≡ codes "POST") ⊎ (req.method ≡ codes "PUT")
      pub named : stream_id req.path ≢ []
      pub answer :
          (r.0 ≡ (if req.failed then bad_request else ok))
          ⊎ ((r.0 ≡ aborted) × (label_ok (stream_id req.path) ≡ false))
      pub own : IsGone (stream_id req.path) r.1
      pub others : (stream_id req.path ≡ q) ⊎ IsKept q m r.1

    record_value_refused :
        (id : Str) (n value : F) (entries : Dict Str F)
        → label_ok id ≡ false
        → (record_value num label_ok id n value entries ≡ none)
          ⊎ (record_value num label_ok id n value entries ≡ some (n, entries))
    unfolding record_value add_to
    record_value_refused id n value entries refused = elim (Bool-cases (less n value)) [
      | inl more ↦ inl (rw (refused, more) refl)
      | inr less_or_same ↦ inr (rw (refused, less_or_same) refl)
    ]

    -- Where prometheus does not take the label, a line panics or changes nothing.
    update_metrics_refused :
        (id key : Str) (value : F) (s : ActiveStream num) (m : Metrics num)
        → label_ok id ≡ false
        → (update_metrics num label_ok id key value (s, m) ≡ none)
          ⊎ (update_metrics num label_ok id key value (s, m) ≡ some (s, m))
    unfolding update_metrics set_to
    update_metrics_refused id key value s m refused = ground (
      arith,
      record_value_refused id s.last_frame value m.total_frames refused,
      record_value_refused id s.last_dropped value m.total_dropped_frames refused,
      record_value_refused id s.last_dup value m.total_duplicated_frames refused,
      record_value_refused id s.last_bytes value m.total_bytes refused,
      record_value_refused id s.last_duration (num.millionth value) m.total_duration refused,
    )

    record IsStep (id q : Str) (m : Metrics num) (o : Option (ActiveStream num × Metrics num))
        : Type 0 where
      outcome :
          ((o ≡ none) × (label_ok id ≡ false))
          ⊎ ((r : ActiveStream num × Metrics num) × (o ≡ some r) × IsKept q m r.1)

    update_metrics-IsStep :
        (id q key : Str) (value : F) (s : ActiveStream num) (m : Metrics num)
        → str_eq id q ≡ false
        → IsStep id q m (update_metrics num label_ok id key value (s, m))
    update_metrics-IsStep id q key value s m h = elim (Bool-cases (label_ok id)) [
      | inl taken ↦ record {
        outcome = inr (
          updated num id key value (s, m),
          update_metrics_ok num label_ok id key value s m taken,
          updated-IsKept id q key value (s, m) h,
        );
      }
      | inr refused ↦ elim (update_metrics_refused id key value s m refused) [
        | inl panics ↦ record { outcome = inl (panics, refused) }
        | inr same ↦ record {
          outcome = inr ((s, m), same, record { counters = λ c. refl; gauges = λ g. refl });
        }
      ]
    ]

    apply_line-IsStep :
        (id q : Str) (read : Option (Str × F)) (s : ActiveStream num) (m : Metrics num)
        → str_eq id q ≡ false
        → IsStep id q m (apply_line num label_ok id read (s, m))
    unfolding apply_line
    apply_line-IsStep id q none s m h = record {
      outcome = inr ((s, m), refl, record { counters = λ c. refl; gauges = λ g. refl });
    }
    apply_line-IsStep id q (some (key, value)) s m h = update_metrics-IsStep id q key value s m h

    read_lines-IsKept :
        (id q : Str) (lines : List Str) (s : ActiveStream num) (m : Metrics num)
        → str_eq id q ≡ false
        → IsKept q m (read_lines num label_ok id lines (s, m)).2
    unfolding read_lines
    read_lines-IsKept id q [] s m h = record { counters = λ c. refl; gauges = λ g. refl }
    read_lines-IsKept id q (line ∷ lines) s m h =
        elim ((apply_line-IsStep id q (read_line num line) s m h).outcome) [
          | inl (panics, refused) ↦
              rw (panics, read_lines) (record { counters = λ c. refl; gauges = λ g. refl })
          | inr (r, same, first) ↦
              let rest = read_lines-IsKept id q lines r.0 r.1 h in
              rw (same, read_lines)
                (record {
                  counters = λ c. rest.counters c ∙ first.counters c;
                  gauges = λ g. rest.gauges g ∙ first.gauges g;
                })
        ]

    -- A report of a stream whose label is taken is read without a panic.
    read_lines-panic :
        (id : Str) (lines : List Str) (s : ActiveStream num) (m : Metrics num)
        → ((read_lines num label_ok id lines (s, m)).0 ≡ false) ⊎ (label_ok id ≡ false)
    read_lines-panic id lines s m = elim (Bool-cases (label_ok id)) [
      | inl taken ↦ inl (read_lines-climb num label_ok frames id lines s m taken).0
      | inr refused ↦ inr refused
    ]

    answer_of :
        (req : Request) (panicked : Bool)
        → (panicked ≡ false) ⊎ (label_ok (stream_id req.path) ≡ false)
        → let answer = if panicked then aborted else (if req.failed then bad_request else ok) in
          (answer ≡ (if req.failed then bad_request else ok))
          ⊎ ((answer ≡ aborted) × (label_ok (stream_id req.path) ≡ false))
    answer_of req false h = inl refl
    answer_of req true (inl e) = absurd (cc)
    answer_of req true (inr refused) = inr (refl, refused)

    served-IsRead :
        (req : Request) (q : Str) (m : Metrics num)
        → (req.method ≡ codes "POST") ⊎ (req.method ≡ codes "PUT")
        → str_eq (stream_id req.path) [] ≡ false
        → let reading =
            read_lines num label_ok (stream_id req.path) req.lines (new_active num, m) in
          IsRead req q m (
            if reading.0 then aborted else (if req.failed then bad_request else ok),
            delete_stream num (stream_id req.path) reading.2,
          )
    served-IsRead req q m method named =
        let id = stream_id req.path in
        let reading = read_lines num label_ok id req.lines (new_active num, m) in
        record {
          method = method;
          named = λ e. ground (arith, str_eq_iff (stream_id req.path) []);
          answer = answer_of req reading.0 (read_lines-panic id req.lines (new_active num) m);
          own = delete_stream-IsGone id reading.2;
          others = elim (Bool-cases (str_eq id q)) [
            | inl same ↦ inl ((str_eq_iff id q).0 same)
            | inr other ↦ inr (
                delete_stream-IsKept id q m reading.2 other
                  (read_lines-IsKept id q req.lines (new_active num) m other))
          ];
        }

    -- A request is refused and changes nothing, for its method or for want of a stream in its path; or it is
    -- read, and then, also where the body failed or a label was refused, no counter and no gauge is left of its stream,
    -- and those of every other stream are as they were. It is aborted only if its stream is no label that
    -- prometheus takes.
    pub serve_http_lem :
        (req : Request) (q : Str) (m : Metrics num)
        → IsRefused req m (serve_http num label_ok req m)
          ⊎ IsRead req q m (serve_http num label_ok req m)
    unfolding serve_http
    serve_http_lem req q m = elim (Bool-cases (str_eq req.method (codes "POST"))) [
      | inl post ↦ rw post (by_path (inl ((str_eq_iff req.method (codes "POST")).0 post)))
      | inr not_post ↦ elim (Bool-cases (str_eq req.method (codes "PUT"))) [
        | inl put ↦ rw (not_post, put) (by_path (inr ((str_eq_iff req.method (codes "PUT")).0 put)))
        | inr not_put ↦
            rw (not_post, not_put)
              (inl (record {
                same = refl;
                reason = inl (
                  refl,
                  λ e. ground (arith, str_eq_iff req.method (codes "POST")),
                  λ e. ground (arith, str_eq_iff req.method (codes "PUT")),
                );
              }))
      ]
    ]
      where
        reading : Bool × ActiveStream num × Metrics num
        reading = read_lines num label_ok (stream_id req.path) req.lines (new_active num, m)

        served : Answer × Metrics num
        served = if str_eq (stream_id req.path) [] then (bad_request, m) else (
          if reading.0 then aborted else (if req.failed then bad_request else ok),
          delete_stream num (stream_id req.path) reading.2,
        )

        by_path :
            (req.method ≡ codes "POST") ⊎ (req.method ≡ codes "PUT")
            → IsRefused req m served ⊎ IsRead req q m served
        by_path method = elim (Bool-cases (str_eq (stream_id req.path) [])) [
          | inl unnamed ↦ rw unnamed (
              inl (record {
                same = refl;
                reason = inr (refl, (str_eq_iff (stream_id req.path) []).0 unnamed);
              }))
          | inr named ↦ rw named (inr (served-IsRead req q m method named))
        ]
