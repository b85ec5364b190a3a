-- ===== src/Exporter/Counters.antt =====
-- What the counters of a stream show while its report is read (cmd/transcoding-exporter/progress.go).
pub mod Whole
use stream_api.Base.{
  ◌≡◌, ◌⊎◌, refl, ap, ◌∙◌, Bool, true, false, Option, none, some, List, [], ◌∷◌, Str, str_Eq,
  str_eq, str_eq_iff, codes, if◌then◌else◌, arith, Bool-cases, Option-cases, inl, inr, ◌>>=◌,
}
use stream_api.Base.Dict.{Dict, lookup, insert, lookup-insert}
use stream_api.Exporter.{
  Floats, Metrics, ActiveStream, or_origin, add_to, set_to, record_value, update_metrics,
  apply_line, read_line, read_lines,
}

-- The five counters, with their keys in a report.
pub data Counter : Type 0 where
  frames : Counter
  dropped : Counter
  duplicated : Counter
  bytes : Counter
  duration : Counter

abbrev pub key_of : Counter → Str
key_of frames = codes "frame"
key_of dropped = codes "drop_frames"
key_of duplicated = codes "dup_frames"
key_of bytes = codes "total_size"
key_of duration = codes "out_time_us"

module _ (num : Floats) where
  open num use {F, add, sub, less, millionth}

  abbrev pub counter : Counter → Metrics num → Dict Str F
  counter frames m = m.total_frames
  counter dropped m = m.total_dropped_frames
  counter duplicated m = m.total_duplicated_frames
  counter bytes m = m.total_bytes
  counter duration m = m.total_duration

  abbrev pub last : Counter → ActiveStream num → F
  last frames s = s.last_frame
  last dropped s = s.last_dropped
  last duplicated s = s.last_dup
  last bytes s = s.last_bytes
  last duration s = s.last_duration

  -- What a counter shows of a stream; a label without a value shows nothing, like 0.
  abbrev pub shown : Counter → Str → Metrics num → F
  shown c id m = or_origin num (lookup id (counter c m))

  -- What a counter counts of a number: microseconds are counted in seconds.
  abbrev pub scaled : Counter → F → F
  scaled frames value = value
  scaled dropped value = value
  scaled duplicated value = value
  scaled bytes value = value
  scaled duration value = millionth value

  -- A number above the last one adds the difference.
  abbrev pub bump : F → F × F → F × F
  bump value (last, total) =
      if less last value then (value, add total (sub value last)) else (last, total)

  abbrev pub recorded : Str → F → F → Dict Str F → F × Dict Str F
  recorded id last value entries =
      if less last value
      then (value, insert id (add (or_origin num (lookup id entries)) (sub value last)) entries)
      else (last, entries)

  -- `updateMetrics` where prometheus takes the label
  abbrev pub updated :
      Str → Str → F → ActiveStream num × Metrics num → ActiveStream num × Metrics num
  updated id key value (s, m) =
      if str_eq key (codes "frame")
      then (let (last, after) = recorded id s.last_frame value m.total_frames in
          (record s { last_frame = last }, record m { total_frames = after }))
      else if str_eq key (codes "drop_frames")
      then (let (last, after) = recorded id s.last_dropped value m.total_dropped_frames in
          (record s { last_dropped = last }, record m { total_dropped_frames = after }))
      else if str_eq key (codes "dup_frames")
      then (let (last, after) = recorded id s.last_dup value m.total_duplicated_frames in
          (record s { last_dup = last }, record m { total_duplicated_frames = after }))
      else if str_eq key (codes "total_size")
      then (let (last, after) = recorded id s.last_bytes value m.total_bytes in
          (record s { last_bytes = last }, record m { total_bytes = after }))
      else if str_eq key (codes "out_time_us")
      then (let (last, after) = recorded id s.last_duration (millionth value) m.total_duration in
          (record s { last_duration = last }, record m { total_duration = after }))
      else if str_eq key (codes "bitrate")
      then (s, record m { current_bitrate = insert id value m.current_bitrate })
      else if str_eq key (codes "fps")
      then (s, record m { current_fps = insert id value m.current_fps })
      else if str_eq key (codes "speed")
      then (s, record m { current_speed = insert id value m.current_speed })
      else (s, m)

  recorded_lem :
      (id : Str) (n value : F) (entries : Dict Str F)
      → ((recorded id n value entries).0, or_origin num (lookup id (recorded id n value entries).1))
        ≡ bump value (n, or_origin num (lookup id entries))
  recorded_lem id n value entries = elim (Bool-cases (less n value)) [
    | inl more ↦
        rw
          (
            more,
            lookup-insert id id (add (or_origin num (lookup id entries)) (sub value n)) entries,
            (str_eq_iff id id).1 refl,
          )
          refl
    | inr less_or_same ↦ rw less_or_same refl
  ]

  pub recorded_other :
      (id q : Str) (n value : F) (entries : Dict Str F)
      → str_eq id q ≡ false
      → lookup q (recorded id n value entries).1 ≡ lookup q entries
  recorded_other id q n value entries other = elim (Bool-cases (less n value)) [
    | inl more ↦
        rw
          (
            more,
            lookup-insert id q (add (or_origin num (lookup id entries)) (sub value n)) entries,
            other,
          )
          refl
    | inr less_or_same ↦ rw less_or_same refl
  ]

  -- The last value and the total of a counter
  abbrev pub standing : Counter → Str → ActiveStream num × Metrics num → F × F
  standing c id (s, m) = (last c s, shown c id m)

  -- A line with another key leaves the counter and its last value alone.
  pub other_key :
      (c : Counter) (id key : Str) (value : F) (s : ActiveStream num) (m : Metrics num)
      → str_eq key (key_of c) ≡ false
      → (last c (updated id key value (s, m)).0 ≡ last c s)
        × (counter c (updated id key value (s, m)).1 ≡ counter c m)
  other_key frames id key value s m h = ground arith
  other_key dropped id key value s m h = ground arith
  other_key duplicated id key value s m h = ground arith
  other_key bytes id key value s m h = ground arith
  other_key duration id key value s m h = ground arith

  -- A line with the key of the counter records its value.
  own_key :
      (c : Counter) (id : Str) (value : F) (s : ActiveStream num) (m : Metrics num)
      → standing c id (updated id (key_of c) value (s, m))
        ≡ bump (scaled c value) (standing c id (s, m))
  own_key frames id value s m = recorded_lem id s.last_frame value m.total_frames
  own_key dropped id value s m = recorded_lem id s.last_dropped value m.total_dropped_frames
  own_key duplicated id value s m = recorded_lem id s.last_dup value m.total_duplicated_frames
  own_key bytes id value s m = recorded_lem id s.last_bytes value m.total_bytes
  own_key duration id value s m = recorded_lem id s.last_duration (millionth value) m.total_duration

  -- The numbers that a line gives a counter: one, or none.
  abbrev pub given : Counter → Option (Str × F) → List F → List F
  given c none rest = rest
  given c (some (key, value)) rest = if str_eq key (key_of c) then scaled c value ∷ rest else rest

  -- The numbers that the lines give a counter, in their order
  abbrev pub numbers : Counter → List Str → List F
  numbers c [] = []
  numbers c (line ∷ lines) = given c (read_line num line) (numbers c lines)

  abbrev pub climb : List F → F × F → F × F
  climb [] p = p
  climb (v ∷ vs) p = climb vs (bump v p)

  updated-climb :
      (c : Counter) (id key : Str) (value : F) (s : ActiveStream num) (m : Metrics num)
      (rest : List F)
      → climb rest (standing c id (updated id key value (s, m)))
        ≡ climb (given c (some (key, value)) rest) (standing c id (s, m))
  updated-climb c id key value s m rest = elim (Bool-cases (str_eq key (key_of c))) [
    | inl own ↦
        rw own (rw ((str_eq_iff key (key_of c)).0 own) (ap (climb rest) (own_key c id value s m)))
    | inr other ↦
        let (same_last, same_counter) = other_key c id key value s m other in
        rw (other, same_last, same_counter) refl
  ]

  module _ (label_ok : Str → Bool) where
    record_value_ok :
        (id : Str) (n value : F) (entries : Dict Str F)
        → label_ok id ≡ true
        → record_value num label_ok id n value entries ≡ some (recorded id n value entries)
    unfolding record_value add_to
    record_value_ok id n value entries ok = elim (Bool-cases (less n value)) [
      | inl more ↦ rw (ok, more) refl
      | inr less_or_same ↦ rw (ok, less_or_same) refl
    ]

    pub update_metrics_ok :
        (id key : Str) (value : F) (s : ActiveStream num) (m : Metrics num)
        → label_ok id ≡ true
        → update_metrics num label_ok id key value (s, m) ≡ some (updated id key value (s, m))
    unfolding update_metrics set_to
    update_metrics_ok id key value s m ok = ground (
      arith,
      record_value_ok id s.last_frame value m.total_frames ok,
      record_value_ok id s.last_dropped value m.total_dropped_frames ok,
      record_value_ok id s.last_dup value m.total_duplicated_frames ok,
      record_value_ok id s.last_bytes value m.total_bytes ok,
      record_value_ok id s.last_duration (millionth value) m.total_duration ok,
    )

    -- A report that is read to its end: the last value and the total of a counter have climbed through the
    -- numbers that its lines gave the counter.
    pub read_lines-climb :
        (c : Counter) (id : Str) (lines : List Str) (s : ActiveStream num) (m : Metrics num)
        → label_ok id ≡ true
        → let r = read_lines num label_ok id lines (s, m) in
          (r.0 ≡ false)
          × (standing c id (r.1, r.2) ≡ climb (numbers c lines) (standing c id (s, m)))
    unfolding read_lines apply_line
    read_lines-climb c id [] s m ok = (refl, refl)
    read_lines-climb c id (line ∷ lines) s m ok = elim (Option-cases (read_line num line)) [
      | inl nothing ↦ rw (nothing, read_lines) (read_lines-climb c id lines s m ok)
      | inr ((key, value), read) ↦
          let after = updated id key value (s, m) in
          let (fine, rest) = read_lines-climb c id lines after.0 after.1 ok in
          rw (read, update_metrics_ok id key value s m ok, read_lines)
            (fine, rest ∙ updated-climb c id key value s m (numbers c lines))
    ]
