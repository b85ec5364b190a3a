-- ===== src/Upload/Tests/Playlists.antt =====
-- The playlist theorems (upload/hls.go) at concrete playlists.
use stream_api.Base.Dict.{insert}
use stream_api.Base.FilePath.{base}
use stream_api.Base.{
  true, str_Eq, ℕ, false, not, ◌≡◌, refl, Option, none, some, [], ◌∷◌, codes, arith, Runs,
}
use stream_api.Base.Int.{pos, ◌+ℤ◌}
use stream_api.Upload.M3u8.{discontinuity_item}
use stream_api.Upload.Playlist.{new_live_playlist}
use stream_api.Upload.Playlist.Window.{Shows, append_all, live_window}
use stream_api.Upload.Hls.{VariantPlaylist, Hls, HlsParser, keep_file, cleanup, HlsError}
use stream_api.Upload.Hls.Files.{keep_file-cleanup}
use stream_api.Upload.Hls.Safe.{IsSafe, fresh_parser-IsSafe, new_live_playlist-IsLive}
use stream_api.Upload.Hls.Variant.Total.{Good}
use stream_api.Upload.Hls.Variant.Output.{iterate, HasMoved}
use stream_api.Upload.Hls.Variant.Appends.{segments_from}
use stream_api.Upload.Hls.Variant.Window.{HasTaken, window_moved, window_restarted}
use stream_api.Upload.Hls.Master.{parse_playlist, filter_hd_resolutions}
use stream_api.Upload.Hls.Master.Total.{parse_playlist-IsSafe}
use stream_api.Upload.Hls.Master.Items.{
  filter_hd_resolutions_lem, keep_if, some_item, is_wide, is_playlist,
}
use stream_api.Upload.Tests.{test_lib, three_segments, live_of, master}

live_window_example :
    Runs (Shows 2 three_segments) (append_all (new_live_playlist 2) three_segments)
live_window_example = live_window 2 three_segments (omega arith)

-- The first channel is the one of the stream.
abbrev HeldByStream : ℕ → Type 0
HeldByStream c = c ≡ 0

abbrev new_parser : HlsParser
new_parser = record {
  slug = codes "s1";
  base_path = codes "/srv/s1";
  playlist_size = 5;
  metrics = record {
    slug = codes "s1";
    target_duration = pos 0;
    segment_durations = [];
    invalid_durations = [];
  };
  subs = [];
  files = some [];
}

abbrev new_state : Hls test_lib
new_state = record {
  parser = new_parser;
  channels = record { next = 1; closed = λ _. false };
  sent = [];
  disk = [];
}

abbrev new_state-IsSafe : IsSafe test_lib HeldByStream new_state
new_state-IsSafe =
    fresh_parser-IsSafe test_lib HeldByStream new_parser new_state.channels [] (omega arith) refl
      refl (λ c h. refl) (λ c h. (omega arith, refl))

parse_playlist-IsSafe_example :
    Runs {A = Option HlsError × Hls test_lib}
      (λ r. IsSafe test_lib HeldByStream r.1)
      (parse_playlist test_lib (codes "/srv/s1/hd.m3u8") (some (codes "media")) new_state)
unfolding base
parse_playlist-IsSafe_example =
    parse_playlist-IsSafe test_lib HeldByStream
      (λ path text disk. ((true, insert path text disk), refl)) (codes "/srv/s1/hd.m3u8")
      (some (codes "media")) new_state refl new_state-IsSafe

-- Two segments were seen; the window has moved on by one and grown by one.
abbrev seen_two : VariantPlaylist
seen_two = record {
  name = codes "hd.m3u8";
  last_index = pos 2;
  last_size = 2;
  last_sequence = pos 6;
  output = new_live_playlist 5;
}

abbrev seen_two-HasMoved : HasMoved test_lib seen_two (live_of three_segments) 2 1 1
seen_two-HasMoved = record {
  only_segments = (refl, (refl, (refl, tt)));
  counted = refl;
  longer = refl;
  index_at = refl;
  size_at = refl;
  sequence_at = unfold ◌+ℤ◌ in refl;
  overlaps = omega arith;
}

window_moved_example :
    Runs
      (λ r.
        Good test_lib HeldByStream r × HasTaken test_lib seen_two (live_of three_segments) 2 3 r.0)
      (iterate test_lib seen_two (live_of three_segments) new_state)
window_moved_example =
    window_moved test_lib HeldByStream seen_two (live_of three_segments) new_state 2 1 1
      (new_live_playlist-IsLive 5 (omega arith)) new_state-IsSafe seen_two-HasMoved

-- A window that saw ten segments up to number 20 restarts at number 7.
abbrev far_ahead : VariantPlaylist
far_ahead = record {
  name = codes "hd.m3u8";
  last_index = pos 10;
  last_size = 10;
  last_sequence = pos 10;
  output = new_live_playlist 5;
}

window_restarted_example :
    Runs
      (λ r.
        Good test_lib HeldByStream r
        × (append_all far_ahead.output (discontinuity_item ∷ segments_from (pos 0) 0 three_segments)
            ≡ some r.0.output))
      (iterate test_lib far_ahead (live_of three_segments) new_state)
window_restarted_example =
    window_restarted test_lib HeldByStream far_ahead (live_of three_segments) new_state
      (new_live_playlist-IsLive 5 (omega arith)) new_state-IsSafe (unfold ◌+ℤ◌ in ground arith)

filter_hd_resolutions_lem_example :
    let kept = keep_if (λ x. not (is_wide x)) master.items in
    ((filter_hd_resolutions master).1 ≡ record master { items = kept })
    × ((filter_hd_resolutions master).0 ≡ some_item is_playlist kept)
filter_hd_resolutions_lem_example = filter_hd_resolutions_lem master

abbrev cleaned : Hls test_lib
cleaned = record new_state { parser = record new_state.parser { files = none } }

cleaned_lem : cleanup test_lib new_state ≡ some cleaned
unfolding cleanup
cleaned_lem = refl

keep_file-cleanup_example : keep_file test_lib (codes "a.ts") cleaned ≡ none
keep_file-cleanup_example = keep_file-cleanup test_lib new_state cleaned (codes "a.ts") cleaned_lem
