-- ===== src/Upload/Hls/Variant/Window.antt =====
-- What a new source playlist does to the output window (upload/hls.go), without a panic.
use stream_api.Base.{ℕ, ◌+◌, ◌-◌, ◌≡◌, some, ◌∷◌, drop, Runs, Runs-and}
use stream_api.Base.Int.{pos, ◌+ℤ◌, ◌<ℤ◌}
use stream_api.Upload.M3u8.{Playlist, Library, discontinuity_item}
use stream_api.Upload.Playlist.Window.{append_all}
use stream_api.Upload.Hls.{VariantPlaylist, Hls}
use stream_api.Upload.Hls.Safe.{IsLive, IsSafe}
use stream_api.Upload.Hls.Variant.Total.{Good, iterate-Good}
use stream_api.Upload.Hls.Variant.Output.{iterate, HasMoved, iterate_moved, iterate_backwards}
use stream_api.Upload.Hls.Variant.Appends.{segments_from}

module _ (lib : Library) (v : VariantPlaylist) (source : Playlist) where
  -- The output got the source's items from `first` on, and the bookkeeping is that of `size` segments.
  abbrev pub HasTaken : ℕ → ℕ → VariantPlaylist → Type 0
  HasTaken first size after =
      (append_all v.output (drop first source.items) ≡ some after.output)
      × (after.last_index ≡ pos size)
      × (after.last_size ≡ size)
      × (after.last_sequence ≡ source.sequence)

module _ (lib : Library) (held : ℕ → Type 0) (v : VariantPlaylist) (source : Playlist)
    (s : Hls lib) where
  open lib use {segment_size}

  -- On a parser that was not cleaned up and an output with room for an item, a source of segments only, whose
  -- sequence has moved on by `k` of the `n` segments seen before and
  -- which is now `j` segments longer, is taken without a panic. The output gets its segments from index
  -- n - (k - j) on, and the bookkeeping is then that of its n + j segments. Its new segments begin at
  -- index n - k: with j = 0 each of them is appended once, and with j > 0 the first min(j, k) of them are
  -- left out.
  pub window_moved :
      (n k j : ℕ)
      → IsLive v.output
      → IsSafe lib held s
      → HasMoved lib v source n k j
      → Runs
          (λ r. Good lib held r × HasTaken lib v source (n - (k - j)) (n + j) r.0)
          (iterate lib v source s)
  window_moved n k j live safe h =
      Runs-and (iterate-Good lib held v source s (live, safe))
        (λ r e. iterate_moved lib v source s n k j r h e)

  -- On a parser that was not cleaned up and an output with room for an item, a source whose last segment
  -- number is below the one seen before restarts the output, without a panic: a discontinuity and then
  -- all of its segments are appended.
  pub window_restarted :
      IsLive v.output
      → IsSafe lib held s
      → source.sequence +ℤ pos (segment_size source) <ℤ v.last_sequence +ℤ pos v.last_size
      → Runs
          (λ r.
            Good lib held r
            × (append_all v.output (discontinuity_item ∷ segments_from (pos 0) 0 source.items)
                ≡ some r.0.output))
          (iterate lib v source s)
  window_restarted live safe h =
      Runs-and (iterate-Good lib held v source s (live, safe))
        (λ r e. iterate_backwards lib v source s r h e)
