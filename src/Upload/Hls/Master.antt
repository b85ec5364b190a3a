-- ===== src/Upload/Hls/Master.antt =====
-- A master playlist in upload/hls.go (`fixupCodecInformation`, `getLanguages`, `filterHDResolutions`,
-- `generateLanguageMasters`), and `ParsePlaylist`. Items are pointers there, so a playlist that a
-- function changes in place is a playlist that it returns.
pub mod Total
pub mod Items
use stream_api.Base.{
  ℕ, suc, ◌+◌, Bool, true, false, Option, none, some, List, [], ◌∷◌, ◌++◌, Str, str_Eq, str_eq,
  if◌then◌else◌, ◌>>=◌, length, ◌⊎◌, inl, inr, map, codes, leb, ◌&&◌, is_some,
}
use stream_api.Base.FilePath.{dir, join_path}
use stream_api.Upload.M3u8.{
  Media, Rendition, Item, segment_item, discontinuity_item, media_item, playlist_item, other_item,
  Playlist, Library,
}
use stream_api.Upload.Hls.{HlsError, unreadable_playlist, Hls, write_playlist}
use stream_api.Upload.Hls.Variant.{process_variant}

fixup_item : Item → Item
fixup_item (playlist_item r) =
    if is_some r.codecs
    then playlist_item r
    else playlist_item (record r { codecs = some (codes "avc1.640828,mp4a.40.2") })
fixup_item (segment_item g) = segment_item g
fixup_item discontinuity_item = discontinuity_item
fixup_item (media_item m) = media_item m
fixup_item (other_item n) = other_item n

unfoldable pub fixup_codec_information : Playlist → Playlist
unfolding fixup_item
fixup_codec_information p = record p { items = map fixup_item p.items }

-- The language of a media item that has a default mark; the other items are passed over.
item_language : Item → Option Str
item_language (media_item m) = if is_some m.default then m.language else none
item_language (segment_item _) = none
item_language discontinuity_item = none
item_language (playlist_item _) = none
item_language (other_item _) = none

abbrev cons_some : Option Str → List Str → List Str
cons_some none ls = ls
cons_some (some l) ls = l ∷ ls

languages : List Item → List Str
unfolding item_language
languages [] = []
languages (item ∷ items) = cons_some (item_language item) (languages items)

pub get_languages : Playlist → List Str
unfolding languages
get_languages p = languages p.items

is_hd : Rendition → Bool
is_hd r = elim r.resolution [ none ↦ false | some resolution ↦ leb 1280 resolution.width ]

-- The items that stay, and whether one of them is a playlist.
non_hd : List Item → List Item × Bool
unfolding is_hd
non_hd [] = ([], false)
non_hd (playlist_item r ∷ items) =
    let (kept, res) = non_hd items in
    if is_hd r then (kept, res) else (playlist_item r ∷ kept, true)
non_hd (segment_item g ∷ items) = let (kept, res) = non_hd items in (segment_item g ∷ kept, res)
non_hd (discontinuity_item ∷ items) =
    let (kept, res) = non_hd items in (discontinuity_item ∷ kept, res)
non_hd (media_item m ∷ items) = let (kept, res) = non_hd items in (media_item m ∷ kept, res)
non_hd (other_item n ∷ items) = let (kept, res) = non_hd items in (other_item n ∷ kept, res)

unfoldable pub filter_hd_resolutions : Playlist → Bool × Playlist
unfolding non_hd
filter_hd_resolutions p = let (kept, res) = non_hd p.items in (res, record p { items = kept })

-- The media items with both a default mark and a language are marked for `lang`.
mark_item : Str → Item → Item
unfolding item_language
mark_item lang (media_item m) = elim (item_language (media_item m)) [
  | none ↦ media_item m
  | some language ↦ media_item (record m { default = some (str_eq language lang) })
]
mark_item lang (segment_item g) = segment_item g
mark_item lang discontinuity_item = discontinuity_item
mark_item lang (playlist_item r) = playlist_item r
mark_item lang (other_item n) = other_item n

unfoldable pub mark_language : Str → Playlist → Playlist
unfolding mark_item
mark_language lang p = record p { items = map (mark_item lang) p.items }

-- `strings.ToLower` of an ASCII text, which a language tag is.
to_lower : Str → Str
to_lower = map (λ c. if leb b'A' c && leb c b'Z' then c + 32 else c)

unfoldable pub master_name : Str → Str → Str
unfolding to_lower
master_name lang suffix = to_lower lang ++ (codes "_" ++ (suffix ++ codes ".m3u8"))

module _ (lib : Library) where
  open lib use {read, is_master}

  -- The playlist comes back as the loop left it, since the caller goes on with it.
  master_loop :
      Str → Str → List Str → Playlist → Hls lib → Option (Option HlsError × Playlist × Hls lib)
  unfolding master_name mark_language write_playlist
  master_loop folder suffix [] p s = some (none, p, s)
  master_loop folder suffix (lang ∷ langs) p s =
      let name = master_name lang suffix in
      let marked = mark_language lang p in
      let skipped = master_loop folder suffix langs p s in
      let written = (do
        (failed, s') ← write_playlist lib (join_path (folder ∷ name ∷ [])) marked s
        elim failed [
          | none ↦ master_loop folder suffix langs marked s'
          | some e ↦ some (some e, marked, s')
        ]) in
      if str_eq name (codes "native_hd.m3u8") then skipped else written

  unfoldable pub generate_language_masters :
      Str → Str → Playlist → Hls lib → Option (Option HlsError × Playlist × Hls lib)
  unfolding master_loop get_languages
  generate_language_masters path suffix p s = master_loop (dir path) suffix (get_languages p) p s

  sd_masters : Str → Playlist → Hls lib → Option (Option HlsError × Hls lib)
  unfolding generate_language_masters filter_hd_resolutions
  sd_masters path p s =
      let (res, filtered) = filter_hd_resolutions p in
      if res
      then (do
        (failed, _, s') ← generate_language_masters path (codes "sd") filtered s
        some (failed, s'))
      else some (none, s)

  process_master : Str → Playlist → Hls lib → Option (Option HlsError × Hls lib)
  unfolding fixup_codec_information write_playlist generate_language_masters sd_masters
  process_master path playlist s = do
    let fixed = fixup_codec_information playlist
    (failed, s₁) ← write_playlist lib path fixed s
    elim failed [
      | some e ↦ some (some e, s₁)
      | none ↦ do
        (failed_hd, marked, s₂) ← generate_language_masters path (codes "hd") fixed s₁
        elim failed_hd [ some e ↦ some (some e, s₂) | none ↦ sd_masters path marked s₂ ]
    ]

  process_media : Str → Playlist → Hls lib → Option (Option HlsError × Hls lib)
  unfolding process_variant write_playlist
  process_media path playlist s = do
    (result, s') ← process_variant lib path playlist s
    elim result [ inl e ↦ some (some e, s') | inr out ↦ write_playlist lib path out s' ]

  -- `content` is what the reader delivers, `none` if it fails.
  unfoldable pub parse_playlist : Str → Option Str → Hls lib → Option (Option HlsError × Hls lib)
  unfolding process_master process_media
  parse_playlist path content s = elim (content >>= read) [
    | none ↦ some (some unreadable_playlist, s)
    | some playlist ↦
        if is_master playlist then process_master path playlist s else process_media path playlist s
  ]
