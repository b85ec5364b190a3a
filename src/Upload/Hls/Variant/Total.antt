-- ===== src/Upload/Hls/Variant/Total.antt =====
-- A segment playlist (`processVariant` of upload/hls.go) is processed without a panic.
use stream_api.Base.{
  ℕ, suc, ◌<◌, ◌≡◌, true, refl, Option, none, some, List, [], ◌∷◌, Str, str_Eq, str_eq, ◌>>=◌, Runs,
  Runs-some, Runs-bind, Bool-cases, inl, inr, ◌⊎◌,
}
use stream_api.Base.Dict.{lookup, insert-cases}
use stream_api.Base.FilePath.{base, dir}
use stream_api.Base.Int.{ℤ, pos, ltb_ℤ}
use stream_api.Upload.M3u8.{Segment, Item, segment_item, discontinuity_item, Playlist, Library}
use stream_api.Upload.Playlist.{LivePlaylist, append}
use stream_api.Upload.Metrics.{record_target_duration-Runs}
use stream_api.Upload.Hls.{VariantPlaylist, HlsError, Hls}
use stream_api.Upload.Hls.Files.{expire_file-HasFiles}
use stream_api.Upload.Hls.Safe.{
  IsLive, append-IsLive, new_live_playlist-IsLive, set_segment_target-IsLive, IsSafe,
  SameParser-IsSafe, keep_file-IsSafe, IsSafe-fields,
}
use stream_api.Upload.Hls.Variant.Output.{iterate}
use stream_api.Upload.Hls.Variant.{
  or_new, expire_deleted, check_discontinuity, append_segment, append_item, append_loop,
  append_items, finish_variant, process_variant, went_backwards, index_shift, remember,
}

module _ (lib : Library) (held : ℕ → Type 0) where
  open lib use {label_ok}

  abbrev Safe : Hls lib → Type 0
  Safe = IsSafe lib held

  expire_deleted-IsSafe :
      (o : Option Item) (s : Hls lib) → Safe s → Runs Safe (expire_deleted lib o s)
  unfolding expire_deleted
  expire_deleted-IsSafe (some (segment_item g)) s h =
      let kept = expire_file-HasFiles lib held g.segment s h.has in
      record {
        result = kept.result;
        runs = kept.runs;
        holds = SameParser-IsSafe lib held s kept.result h kept.holds;
      }
  expire_deleted-IsSafe (some discontinuity_item) s h = Runs-some _ s h
  expire_deleted-IsSafe (some _) s h = Runs-some _ s h
  expire_deleted-IsSafe none s h = Runs-some _ s h

  abbrev pub Good : VariantPlaylist × Hls lib → Type 0
  Good r = IsLive r.0.output × Safe r.1

  -- One append to the output, with the release of what it drops.
  push-Good :
      (change : LivePlaylist → VariantPlaylist) (lp : LivePlaylist) (item : Item) (s : Hls lib)
      → ((o : LivePlaylist) → IsLive o → IsLive (change o).output)
      → IsLive lp
      → Safe s
      → Runs Good
          (append lp item >>= λ r. expire_deleted lib r.1 s >>= λ after. some (change r.0, after))
  push-Good change lp item s keep l h =
      Runs-bind (λ (r : LivePlaylist × Option Item). IsLive r.0) Good _ _ (append-IsLive lp item l)
        (λ r lo.
          Runs-bind Safe Good _ _ (expire_deleted-IsSafe r.1 s h)
            (λ after ha. Runs-some Good _ (keep r.0 lo, ha)))

  append_segment-Good :
      (g : Segment) (v : VariantPlaylist) (s : Hls lib)
      → Good (v, s)
      → Runs Good (append_segment lib g v s)
  unfolding append_segment
  append_segment-Good g v s (l, h) =
      Runs-bind Safe Good _ _
        (keep_file-IsSafe lib held g.segment _ (
          IsSafe-fields lib held s _ refl refl
            (record { same_subs = refl; same_base = refl; same_size = refl }) h))
        (λ kept hk.
          push-Good (λ o. record v { output = o }) v.output (segment_item g) kept (λ o lo. lo) l hk)

  append_item-Good :
      (index : ℕ) (item : Item) (v : VariantPlaylist) (s : Hls lib)
      → Good (v, s)
      → Runs Good (append_item lib index item v s)
  unfolding append_item
  append_item-Good index (segment_item g) v s h =
      elim (Bool-cases (ltb_ℤ (pos index) v.last_index)) [
        | inl old ↦ rw old (Runs-some Good _ h)
        | inr new ↦ rw new (append_segment-Good g v s h)
      ]
  append_item-Good index discontinuity_item v s h = Runs-some Good _ h
  append_item-Good index _ v s h = Runs-some Good _ h

  append_loop-Good :
      (index : ℕ) (items : List Item) (v : VariantPlaylist) (s : Hls lib)
      → Good (v, s)
      → Runs Good (append_loop lib index items v s)
  unfolding append_loop
  append_loop-Good index [] v s h = Runs-some Good _ h
  append_loop-Good index (item ∷ items) v s h =
      Runs-bind Good Good _ _ (append_item-Good index item v s h)
        (λ r hr. append_loop-Good (suc index) items r.0 r.1 hr)

  append_items-Good :
      (v : VariantPlaylist) (source : Playlist) (s : Hls lib)
      → Good (v, s)
      → Runs Good (append_items lib v source s)
  unfolding append_items
  append_items-Good v source s h =
      Runs-bind Good Good _ _ (append_loop-Good 0 source.items v s h) (λ r hr. Runs-some Good _ hr)

  check_discontinuity-Good :
      (v : VariantPlaylist) (source : Playlist) (s : Hls lib)
      → Good (v, s)
      → Runs Good (check_discontinuity lib v source s)
  unfolding check_discontinuity
  check_discontinuity-Good v source s (l, h) = elim (Bool-cases (went_backwards lib v source)) [
    | inl back ↦ rw back (
        push-Good (λ o. remember lib (record v { output = o; last_index = pos 0 }) source) v.output
          discontinuity_item s (λ o lo. lo) l h)
    | inr on ↦ rw on (elim (Bool-cases (ltb_ℤ (index_shift lib v source) (pos 0))) [
      | inl less ↦ rw less (Runs-some Good _ (l, h))
      | inr more ↦ rw more (Runs-some Good _ (l, h))
    ])
  ]

  pub iterate-Good :
      (v : VariantPlaylist) (source : Playlist) (s : Hls lib)
      → Good (v, s)
      → Runs Good (iterate lib v source s)
  iterate-Good v source s h =
      Runs-bind Good Good _ _ (check_discontinuity-Good v source s h)
        (λ r hr. append_items-Good r.0 source r.1 hr)

  finish_variant-IsSafe :
      (name : Str) (target : ℤ) (v : VariantPlaylist) (s : Hls lib)
      → Good (v, s)
      → Safe (finish_variant lib name target v s).1
  unfolding finish_variant
  finish_variant-IsSafe name target v s (l, h) = record {
    has = record { files = h.has.files; at = h.has.at; tracked = h.has.tracked };
    positive = h.positive;
    live = λ n w e. elim (insert-cases name n _ w s.parser.subs e) [
      | inl same ↦ rw (← same) (set_segment_target-IsLive v.output target l)
      | inr old ↦ h.live n w old
    ];
  }

  or_new-IsLive :
      (name : Str) (size : ℕ) (o : Option VariantPlaylist)
      → 0 < size
      → ((v : VariantPlaylist) → o ≡ some v → IsLive v.output)
      → IsLive (or_new name size o).output
  unfolding or_new
  or_new-IsLive name size none h live = new_live_playlist-IsLive size h
  or_new-IsLive name size (some v) h live = live v refl

  abbrev Out : (HlsError ⊎ Playlist) × Hls lib → Type 0
  Out r = Safe r.1

  update_variant-Good :
      (path : Str) (playlist : Playlist) (v : VariantPlaylist) (s : Hls lib)
      → Good (v, s)
      → Runs Out (
          check_discontinuity lib v playlist s >>= λ r. append_items lib r.0 playlist r.1 >>= λ r'.
          some (
            inr (finish_variant lib (base path) playlist.target r'.0 r'.1).0,
            (finish_variant lib (base path) playlist.target r'.0 r'.1).1,
          ))
  update_variant-Good path playlist v s h =
      Runs-bind Good Out _ _ (check_discontinuity-Good v playlist s h) (λ r hr.
        Runs-bind Good Out _ _ (append_items-Good r.0 playlist r.1 hr) (λ r' hr'.
          Runs-some Out _ (finish_variant-IsSafe (base path) playlist.target r'.0 r'.1 hr')))

  -- A playlist whose name is a label that prometheus takes is processed without a panic, with an error or a
  -- playlist for a result.
  pub process_variant-IsSafe :
      (path : Str) (playlist : Playlist) (s : Hls lib)
      → label_ok (base path) ≡ true
      → IsSafe lib held s
      → Runs {A = (HlsError ⊎ Playlist) × Hls lib}
          (λ r. IsSafe lib held r.1)
          (process_variant lib path playlist s)
  unfolding process_variant
  process_variant-IsSafe path playlist s ok h =
      elim (Bool-cases (str_eq (dir path) s.parser.base_path)) [
        | inr outside ↦ rw (outside, process_variant) (Runs-some Out _ h)
        | inl inside ↦
            let (metrics, recorded) =
              record_target_duration-Runs label_ok playlist.target (base path) s.parser.metrics
                ok in
            rw (inside, recorded, process_variant)
              (update_variant-Good path playlist _ _ (
                or_new-IsLive (base path) s.parser.playlist_size (lookup (base path) s.parser.subs)
                    h.positive (h.live (base path)),
                IsSafe-fields lib held s _ refl refl
                    (record { same_subs = refl; same_base = refl; same_size = refl }) h,
              ))
      ]
