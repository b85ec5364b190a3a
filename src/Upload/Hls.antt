-- ===== src/Upload/Hls.antt =====
-- `HLSParser` of upload/hls.go: its state, and the files that it tracks. `none` is a panic.
pub mod Variant
pub mod Master
pub mod Tracked
pub mod Files
pub mod Safe
use stream_api.Base.{
  ℕ, suc, ◌+◌, Bool, true, false, Option, none, some, List, [], ◌∷◌, ◌++◌, Str, str_Eq,
  if◌then◌else◌, ◌>>=◌,
}
use stream_api.Base.Int.{ℤ, pos}
use stream_api.Base.Dict.{Dict, lookup, insert, remove}
use stream_api.Base.FilePath.{join_path}
use stream_api.Upload.M3u8.{Playlist, Library}
use stream_api.Upload.Playlist.{LivePlaylist}
use stream_api.Upload.Channels.{Channels, make_channel, close}
use stream_api.Upload.Metrics.{HlsMetrics, new_hls_metrics}
use stream_api.Upload.Registry.{FileEntry}

-- `lastSize` is a number of segments; the other two may be negative.
pub record VariantPlaylist : Type 0 where
  pub name : Str
  pub last_index : ℤ
  pub last_size : ℕ
  pub last_sequence : ℤ
  pub output : LivePlaylist

-- `files` is `none` once `Cleanup` has set the map to nil.
pub record HlsParser : Type 0 where
  pub slug : Str
  pub base_path : Str
  pub playlist_size : ℕ
  pub metrics : HlsMetrics
  pub subs : Dict Str VariantPlaylist
  pub files : Option (Dict Str ℕ)

unfoldable pub new_hls_parser : (Str → Bool) → Str → Str → ℕ → Option HlsParser
unfolding new_hls_metrics
new_hls_parser label_ok slug base_path size = do
  metrics ← new_hls_metrics label_ok slug
  some (record {
    slug = slug;
    base_path = base_path;
    playlist_size = size;
    metrics = metrics;
    subs = [];
    files = some [];
  })

pub data HlsError : Type 0 where
  unreadable_playlist : HlsError
  unprintable_playlist : HlsError
  write_failed : Str → HlsError
  invalid_directory : Str → HlsError

close_all : Dict Str ℕ → Channels → Option Channels
close_all [] cs = some cs
close_all ((_, channel) ∷ files) cs = do after ← close channel cs; close_all files after

unfoldable pub close_tracked : Option (Dict Str ℕ) → Channels → Option Channels
unfolding close_all
close_tracked none cs = some cs
close_tracked (some files) cs = close_all files cs

module _ (lib : Library) where
  open lib use {Disk, write_file, write}

  -- The parser with what its methods act on: the channels, the entries sent to the registry in
  -- order, and the disk.
  pub record Hls : Type 0 where
    pub parser : HlsParser
    pub channels : Channels
    pub sent : List FileEntry
    pub disk : Disk

  -- A write to a nil map panics.
  track_file : Str → Option (Dict Str ℕ) → Hls → Option Hls
  unfolding make_channel insert
  track_file path none s = none
  track_file path (some files) s =
      let (keep, made) = make_channel s.channels in
      some (record s {
        parser = record s.parser { files = some (insert path keep files) };
        channels = made;
        sent = s.sent ++ (record { path = path; deadline = 0; keep = some keep } ∷ []);
      })

  unfoldable pub keep_file : Str → Hls → Option Hls
  unfolding track_file
  keep_file name s = track_file (join_path (s.parser.base_path ∷ name ∷ [])) s.parser.files s

  -- A nil map has no entry.
  release_file : Str → Option (Dict Str ℕ) → Hls → Option Hls
  unfolding lookup remove
  release_file path none s = some s
  release_file path (some files) s = elim (lookup path files) [
    | none ↦ some s
    | some channel ↦ elim (close channel s.channels) [
      | none ↦ none
      | some cs ↦ some (record s {
        parser = record s.parser { files = some (remove path files) };
        channels = cs;
      })
    ]
  ]

  unfoldable pub expire_file : Str → Hls → Option Hls
  unfolding release_file
  expire_file name s = release_file (join_path (s.parser.base_path ∷ name ∷ [])) s.parser.files s

  unfoldable pub cleanup : Hls → Option Hls
  unfolding close_tracked
  cleanup s = do
    cs ← close_tracked s.parser.files s.channels
    some (record s { parser = record s.parser { files = none }; channels = cs })

  unfoldable pub write_playlist : Str → Playlist → Hls → Option (Option HlsError × Hls)
  unfolding keep_file
  write_playlist path playlist s = elim (write playlist) [
    | none ↦ some (some unprintable_playlist, s)
    | some text ↦ write_file path text s.disk >>= λ r.
        if r.0
        then (do after ← keep_file path (record s { disk = r.1 }); some (none, after))
        else some (some (write_failed path), record s { disk = r.1 })
  ]
