-- ===== src/Upload/Hls/Variant.antt =====
-- A segment playlist in upload/hls.go: `getVariantPlaylist`, `checkDiscontinuity`, `appendItems` and
-- `processVariant`. A `*VariantPlaylist` is a value that is written back under its name.
pub mod Total
pub mod Appends
pub mod Output
pub mod Window
use stream_api.Base.{
  ℕ, suc, ◌+◌, Bool, true, false, Option, none, some, List, [], ◌∷◌, ◌++◌, Str, str_Eq, str_eq,
  if◌then◌else◌, ◌>>=◌, length, ◌⊎◌, inl, inr,
}
use stream_api.Base.Int.{ℤ, pos, ◌+ℤ◌, ◌-ℤ◌, ltb_ℤ}
use stream_api.Base.Dict.{Dict, lookup, insert, remove}
use stream_api.Base.FilePath.{dir, base}
use stream_api.Upload.M3u8.{
  Segment, Item, segment_item, discontinuity_item, media_item, playlist_item, other_item, Playlist,
  Library,
}
use stream_api.Upload.Playlist.{
  LivePlaylist, new_live_playlist, append, apply_discontinuity, set_segment_target,
}
use stream_api.Upload.Metrics.{HlsMetrics, record_target_duration, record_segment_duration}
use stream_api.Upload.Hls.{
  VariantPlaylist, HlsParser, HlsError, invalid_directory, Hls, keep_file, expire_file,
}

new_variant : Str → ℕ → VariantPlaylist
unfolding new_live_playlist
new_variant name size = record {
  name = name;
  last_index = pos 0;
  last_size = 0;
  last_sequence = pos 0;
  output = new_live_playlist size;
}

or_new : Str → ℕ → Option VariantPlaylist → VariantPlaylist
unfolding new_variant
or_new name size none = new_variant name size
or_new name size (some v) = v

module _ (lib : Library) where
  open lib use {segment_size, label_ok}

  -- `none` is the error for a playlist outside of the base path.
  pub get_variant_playlist : Str → Hls lib → Option VariantPlaylist
  unfolding or_new lookup
  get_variant_playlist path s =
      if str_eq (dir path) s.parser.base_path
      then some (or_new (base path) s.parser.playlist_size (lookup (base path) s.parser.subs))
      else none

  -- The file of a segment that left the window may go.
  expire_deleted : Option Item → Hls lib → Option (Hls lib)
  unfolding expire_file
  expire_deleted (some (segment_item g)) s = expire_file lib g.segment s
  expire_deleted (some discontinuity_item) s = some s
  expire_deleted (some (media_item _)) s = some s
  expire_deleted (some (playlist_item _)) s = some s
  expire_deleted (some (other_item _)) s = some s
  expire_deleted none s = some s

  -- The window's own bookkeeping, before it is brought up to date with `source`.
  index_shift : VariantPlaylist → Playlist → ℤ
  index_shift v source =
      v.last_sequence -ℤ source.sequence +ℤ pos (segment_size source) -ℤ pos v.last_size

  went_backwards : VariantPlaylist → Playlist → Bool
  went_backwards v source =
      ltb_ℤ (source.sequence +ℤ pos (segment_size source)) (v.last_sequence +ℤ pos v.last_size)

  remember : VariantPlaylist → Playlist → VariantPlaylist
  remember v source = record v { last_sequence = source.sequence; last_size = segment_size source }

  pub check_discontinuity :
      VariantPlaylist → Playlist → Hls lib → Option (VariantPlaylist × Hls lib)
  unfolding remember expire_deleted apply_discontinuity
  check_discontinuity v source s =
      if went_backwards v source
      then (do
        (output, deleted) ← apply_discontinuity v.output
        after ← expire_deleted deleted s
        some (remember (record v { output = output; last_index = pos 0 }) source, after))
      else (let diff = index_shift v source in
          if ltb_ℤ diff (pos 0)
          then some (remember (record v { last_index = v.last_index +ℤ diff }) source, s)
          else some (remember v source, s))

  record_duration : Segment → VariantPlaylist → Hls lib → Hls lib
  unfolding record_segment_duration
  record_duration g v s = record s {
    parser = record s.parser {
      metrics = record_segment_duration v.name g.duration s.parser.metrics;
    };
  }

  append_segment : Segment → VariantPlaylist → Hls lib → Option (VariantPlaylist × Hls lib)
  unfolding record_duration keep_file append expire_deleted
  append_segment g v s = do
    kept ← keep_file lib g.segment (record_duration g v s)
    (output, deleted) ← append v.output (segment_item g)
    after ← expire_deleted deleted kept
    some (record v { output = output }, after)

  -- One round of the loop, at the item's index.
  append_item : ℕ → Item → VariantPlaylist → Hls lib → Option (VariantPlaylist × Hls lib)
  unfolding append_segment
  append_item index (segment_item g) v s =
      if ltb_ℤ (pos index) v.last_index then some (v, s) else append_segment g v s
  append_item index discontinuity_item v s = some (v, s)
  append_item index (media_item _) v s = some (v, s)
  append_item index (playlist_item _) v s = some (v, s)
  append_item index (other_item _) v s = some (v, s)

  append_loop : ℕ → List Item → VariantPlaylist → Hls lib → Option (VariantPlaylist × Hls lib)
  unfolding append_item
  append_loop index [] v s = some (v, s)
  append_loop index (item ∷ items) v s = do
    (v', s') ← append_item index item v s
    append_loop (suc index) items v' s'

  pub append_items : VariantPlaylist → Playlist → Hls lib → Option (VariantPlaylist × Hls lib)
  unfolding append_loop
  append_items v source s = do
    (v', s') ← append_loop 0 source.items v s
    some (record v' { last_index = pos (length source.items) }, s')

  -- The variant goes back into the map, and its window out to the caller.
  finish_variant : Str → ℤ → VariantPlaylist → Hls lib → Playlist × Hls lib
  unfolding set_segment_target insert
  finish_variant name target v s =
      let output = set_segment_target v.output target in
      (
        output.playlist,
        record s {
          parser = record s.parser {
            subs = insert name (record v { output = output }) s.parser.subs;
          };
        },
      )

  unfoldable pub process_variant :
      Str → Playlist → Hls lib → Option ((HlsError ⊎ Playlist) × Hls lib)
  unfolding went_backwards index_shift get_variant_playlist check_discontinuity append_items
      finish_variant record_target_duration
  process_variant path playlist s = elim (get_variant_playlist path s) [
    | none ↦ some (inl (invalid_directory path), s)
    | some v ↦ do
      metrics ← record_target_duration label_ok playlist.target (base path) s.parser.metrics
      (v', s') ←
          check_discontinuity v playlist
            (record s { parser = record s.parser { metrics = metrics } })
      (v'', s'') ← append_items v' playlist s'
      let (out, after) = finish_variant (base path) playlist.target v'' s''
      some (inr out, after)
  ]
