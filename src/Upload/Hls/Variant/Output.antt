-- ===== src/Upload/Hls/Variant/Output.antt =====
-- Where the next playlist of a source begins in the output (`checkDiscontinuity` and `appendItems` of
-- upload/hls.go).
use stream_api.Base.{
  ℕ, suc, ◌+◌, ◌-◌, ◌≤◌, ◌<◌, ◌≡◌, refl, sym, ap, ◌∙◌, true, false, Option, some, List, [], ◌∷◌,
  ◌>>=◌, >>=-eq-some, arith, length, drop, All, Bool-cases, ltb, drop_nil, inl, inr, Ensures,
  Ensures-some, Ensures-bind,
}
use stream_api.Base.Int.{pos, ◌+ℤ◌, ◌-ℤ◌, sub_ℕ, ◌<ℤ◌, +ℤ_parts, -ℤ_parts, eq_of_parts}
use stream_api.Upload.M3u8.{Item, discontinuity_item, Playlist, Library, is_segment}
use stream_api.Upload.Playlist.{append}
use stream_api.Upload.Playlist.Window.{append_all}
use stream_api.Upload.Hls.{VariantPlaylist, Hls}
use stream_api.Upload.Hls.Variant.{
  expire_deleted, check_discontinuity, append_items, went_backwards, index_shift, remember,
}
use stream_api.Upload.Hls.Variant.Appends.{
  segments_from, append_all_one, append_all-append, append_items-output,
}

segments_from-drop :
    (m index : ℕ) (xs : List Item)
    → All (λ x. is_segment x ≡ true) xs
    → segments_from (pos m) index xs ≡ drop (m - index) xs
segments_from-drop m index [] h = sym (drop_nil (m - index))
segments_from-drop m index (x ∷ xs) (hx, hs) =
    let rest = segments_from-drop m (suc index) xs hs in
    elim (Bool-cases (ltb index m)) [
      | inl below ↦
          let e : m - index ≡ suc (m - suc index) = ground arith in
          rw e (ground (arith, hx, below, rest))
      | inr from ↦
          let e : m - index ≡ 0 = ground arith in
          let e' : m - suc index ≡ 0 = ground arith in
          let rest' : segments_from (pos m) (suc index) xs ≡ xs = rw e' at rest in
          rw e (ground (arith, hx, from, rest'))
    ]

module _ (lib : Library) where
  open lib use {segment_size}

  -- A window over `n` segments that has moved on by `k` and grown by `j`.
  pub record HasMoved (v : VariantPlaylist) (source : Playlist) (n k j : ℕ) : Type 0 where
    pub only_segments : All (λ x. is_segment x ≡ true) source.items
    pub counted : segment_size source ≡ length source.items
    pub longer : length source.items ≡ n + j
    pub index_at : v.last_index ≡ pos n
    pub size_at : v.last_size ≡ n
    pub sequence_at : source.sequence ≡ v.last_sequence +ℤ pos k
    pub overlaps : k ≤ n

  module _ (v : VariantPlaylist) (source : Playlist) (n k j : ℕ) (h : HasMoved v source n k j) where
    moved-not-backwards : went_backwards lib v source ≡ false
    unfolding went_backwards
    moved-not-backwards = ground (
      arith,
      h.counted,
      h.longer,
      h.size_at,
      h.sequence_at,
      +ℤ_parts v.last_sequence (pos k),
      +ℤ_parts source.sequence (pos (segment_size source)),
      +ℤ_parts v.last_sequence (pos v.last_size),
    )

    shift-eq : index_shift lib v source ≡ sub_ℕ j k
    unfolding index_shift
    shift-eq = eq_of_parts _ _ (
        ground (
          arith,
          h.counted,
          h.longer,
          h.size_at,
          h.sequence_at,
          +ℤ_parts v.last_sequence (pos k),
          -ℤ_parts v.last_sequence source.sequence,
          +ℤ_parts (v.last_sequence -ℤ source.sequence) (pos (segment_size source)),
          -ℤ_parts (v.last_sequence -ℤ source.sequence +ℤ pos (segment_size source))
              (pos v.last_size),
        ))

    index-eq : k ≤ n → j < k → v.last_index +ℤ sub_ℕ j k ≡ pos (n - (k - j))
    index-eq e lt = eq_of_parts _ _ (ground (arith, h.index_at, +ℤ_parts v.last_index (sub_ℕ j k)))

    check_moved :
        (s : Hls lib)
        → check_discontinuity lib v source s
          ≡ some (remember lib (record v { last_index = pos (n - (k - j)) }) source, s)
    unfolding check_discontinuity
    check_moved s = rw moved-not-backwards (elim (Bool-cases (ltb j k)) [
      | inl fewer ↦ ground (arith, shift-eq, index-eq h.overlaps (ground arith), fewer)
      | inr more ↦
          let e : n - (k - j) ≡ n = ground arith in
          rw e (ground (arith, shift-eq, h.index_at, more))
    ])

  -- One iteration of a variant: the check, then the appends.
  abbrev pub iterate : VariantPlaylist → Playlist → Hls lib → Option (VariantPlaylist × Hls lib)
  iterate v source s = check_discontinuity lib v source s >>= λ r. append_items lib r.0 source r.1

  -- A source of segments only, whose sequence has moved on by `k` of the `n` segments seen before and
  -- which is now `j` segments longer, gives the output its segments from index n - (k - j) on, and the
  -- bookkeeping is then that of its n + j segments. Its new segments begin at index n - k: with j = 0
  -- each of them is appended once, and with j > 0 the first min(j, k) of them are left out.
  pub iterate_moved :
      (v : VariantPlaylist) (source : Playlist) (s : Hls lib) (n k j : ℕ)
      (r : VariantPlaylist × Hls lib)
      → HasMoved v source n k j
      → iterate v source s ≡ some r
      → (append_all v.output (drop (n - (k - j)) source.items) ≡ some r.0.output)
        × (r.0.last_index ≡ pos (n + j))
        × (r.0.last_size ≡ n + j)
        × (r.0.last_sequence ≡ source.sequence)
  unfolding remember
  iterate_moved v source s n k j r h runs =
      let checked = remember lib (record v { last_index = pos (n - (k - j)) }) source in
      let runs' : append_items lib checked source s ≡ some r =
        rw (check_moved v source n k j h s) at runs in
      let done = (append_items-output lib checked source s).holds r runs' in
      let e : n - (k - j) - 0 ≡ n - (k - j) = omega arith in
      let dropped = segments_from-drop (n - (k - j)) 0 source.items h.only_segments in
      (
        ap (append_all v.output) (sym (dropped ∙ ap (λ m. drop m source.items) e)) ∙ done.0,
        rw (← h.longer) done.1,
        omega (arith, h.longer, h.counted, done.2),
        done.3,
      )

  check_backwards :
      (v : VariantPlaylist) (source : Playlist) (s : Hls lib)
      → went_backwards lib v source ≡ true
      → Ensures
          (λ (r : VariantPlaylist × Hls lib).
            (append_all v.output (discontinuity_item ∷ []) ≡ some r.0.output)
            × (r.0.last_index ≡ pos 0))
          (check_discontinuity lib v source s)
  unfolding check_discontinuity
  check_backwards v source s back = rw back (
      Ensures-bind _ (append v.output discontinuity_item) _ (λ out step.
        Ensures-bind _ (expire_deleted lib out.1 s) _ (λ after _.
          Ensures-some _ _ (append_all_one v.output discontinuity_item out.0 out.1 step, refl))))

  -- A source whose last segment number is below the one seen before restarts the output: a discontinuity
  -- and then all of its segments are appended.
  pub iterate_backwards :
      (v : VariantPlaylist) (source : Playlist) (s : Hls lib) (r : VariantPlaylist × Hls lib)
      → source.sequence +ℤ pos (segment_size source) <ℤ v.last_sequence +ℤ pos v.last_size
      → iterate v source s ≡ some r
      → append_all v.output (discontinuity_item ∷ segments_from (pos 0) 0 source.items)
        ≡ some r.0.output
  unfolding went_backwards
  iterate_backwards v source s r h runs =
      let (mid, checked, rest) =
        >>=-eq-some (check_discontinuity lib v source s) (λ r. append_items lib r.0 source r.1)
          runs in
      let first = (check_backwards v source s (ground arith)).holds mid checked in
      let done = (append_items-output lib mid.0 source mid.1).holds r rest in
      append_all-append v.output mid.0.output (discontinuity_item ∷ []) _ first.0
      ∙ (rw first.1 at done.0)
