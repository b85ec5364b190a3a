-- ===== src/Upload/Tests.antt =====
-- A library, streams and requests to try the upload server on (upload/).
pub mod Playlists
pub mod Stores
pub mod Requests
use stream_api.Base.{
  ℕ, ltb, ◌&&◌, Bool, true, false, Option, none, some, List, [], ◌∷◌, Str, str_Eq, str_eq, codes,
  if◌then◌else◌,
}
use stream_api.Base.Dict.{insert}
use stream_api.Base.Int.{pos}
use stream_api.Upload.M3u8.{
  Segment, Rendition, Media, Item, segment_item, media_item, playlist_item, Playlist, Library,
  tally, is_segment,
}
use stream_api.Upload.Writer.{Files}

abbrev pub segment : Str → Item
segment name = segment_item (record { segment = name; duration = 3 })

abbrev pub live_of : List Item → Playlist
live_of items = record {
  version = some 3;
  live = true;
  discontinuity_sequence = none;
  sequence = pos 7;
  target = pos 3;
  items = items;
}

abbrev pub three_segments : List Item
three_segments = segment (codes "a.ts") ∷ segment (codes "b.ts") ∷ segment (codes "c.ts") ∷ []

abbrev pub rendition : Str → ℕ → Item
rendition uri width = playlist_item (record {
  uri = uri;
  codecs = none;
  resolution = some (record { width = width; height = 720 });
})

abbrev pub audio : Str → Item
audio language =
    media_item (record { group_id = codes "audio"; language = some language; default = some false })

abbrev pub master : Playlist
master = live_of (
    rendition (codes "hd.m3u8") 1920
    ∷ rendition (codes "sd.m3u8") 1024
    ∷ audio (codes "Native")
    ∷ audio (codes "Translated")
    ∷ [])

abbrev is_rendition : Item → Bool
is_rendition (playlist_item _) = true
is_rendition _ = false

abbrev first_is_rendition : List Item → Bool
first_is_rendition [] = false
first_is_rendition (x ∷ _) = is_rendition x

abbrev is_ascii : Str → Bool
is_ascii [] = true
is_ascii (c ∷ text) = ltb c 128 && is_ascii text

abbrev pub test_lib : Library
test_lib = record {
  Disk = Files;
  label_ok = is_ascii;
  write_file = λ path text disk. some (true, insert path text disk);
  read = λ text.
      if str_eq text (codes "master")
      then some master
      else if str_eq text (codes "media")
      then some (live_of three_segments)
      else none;
  write = λ p. some (codes "#EXTM3U");
  is_master = λ p. first_is_rendition p.items;
  segment_size = λ p. tally is_segment p.items;
}
