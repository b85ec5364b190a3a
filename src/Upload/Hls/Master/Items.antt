-- ===== src/Upload/Hls/Master/Items.antt =====
-- What the passes over a master playlist (upload/hls.go) do to its items.
use stream_api.Base.{
  ◌≡◌, refl, Bool, true, false, not, ◌||◌, Option, none, some, List, [], ◌∷◌, Str, str_eq,
  if◌then◌else◌, arith, All, map, ltb,
}
use stream_api.Upload.M3u8.{
  Item, segment_item, discontinuity_item, media_item, playlist_item, other_item, Playlist,
}
use stream_api.Upload.Hls.Master.{
  item_language, languages, get_languages, non_hd, filter_hd_resolutions, mark_item, mark_language,
}

-- The resolution is known and its width is at least 1280.
abbrev pub is_wide : Item → Bool
is_wide (playlist_item r) = elim r.resolution [
  | none ↦ false
  | some size ↦ not (ltb size.width 1280)
]
is_wide _ = false

abbrev pub is_playlist : Item → Bool
is_playlist (playlist_item _) = true
is_playlist _ = false

abbrev pub keep_if : (Item → Bool) → List Item → List Item
keep_if p [] = []
keep_if p (x ∷ xs) = let rest = keep_if p xs in if p x then x ∷ rest else rest

abbrev pub some_item : (Item → Bool) → List Item → Bool
some_item p [] = false
some_item p (x ∷ xs) = p x || some_item p xs

non_hd_lem :
    (xs : List Item)
    → let kept = keep_if (λ x. not (is_wide x)) xs in non_hd xs ≡ (kept, some_item is_playlist kept)
unfolding non_hd
non_hd_lem [] = refl
non_hd_lem (playlist_item r ∷ xs) = ground (arith, non_hd_lem xs)
non_hd_lem (segment_item g ∷ xs) = ground (arith, non_hd_lem xs)
non_hd_lem (discontinuity_item ∷ xs) = ground (arith, non_hd_lem xs)
non_hd_lem (media_item m ∷ xs) = ground (arith, non_hd_lem xs)
non_hd_lem (other_item n ∷ xs) = ground (arith, non_hd_lem xs)

-- Filtering leaves exactly the items that are no playlist of a known width of 1280 or more, in order and
-- with everything else of the playlist as it was, and says whether a playlist is among them.
pub filter_hd_resolutions_lem :
    (p : Playlist)
    → let kept = keep_if (λ x. not (is_wide x)) p.items in
      ((filter_hd_resolutions p).1 ≡ record p { items = kept })
      × ((filter_hd_resolutions p).0 ≡ some_item is_playlist kept)
unfolding filter_hd_resolutions
filter_hd_resolutions_lem p = ground (arith, non_hd_lem p.items)

-- The language and the default mark of a media item that has both.
abbrev pub both : Option Bool → Option Str → Option (Str × Bool)
both none l = none
both (some d) none = none
both (some d) (some l) = some (l, d)

abbrev pub language_default : Item → Option (Str × Bool)
language_default (media_item m) = both m.default m.language
language_default _ = none

-- A media item with a default mark and a language is the default exactly if its language is `lang`.
abbrev pub IsMarked : Str → Option (Str × Bool) → Type 0
IsMarked lang none = Unit
IsMarked lang (some (l, d)) = d ≡ str_eq l lang

mark_media-IsMarked :
    (lang group : Str) (l : Option Str) (d : Option Bool)
    → IsMarked lang (
        language_default
          (mark_item lang (media_item (record { group_id = group; language = l; default = d }))))
unfolding mark_item
mark_media-IsMarked lang group l none = tt
mark_media-IsMarked lang group none (some d) = tt
mark_media-IsMarked lang group (some l) (some d) = refl

mark_item-IsMarked : (lang : Str) (x : Item) → IsMarked lang (language_default (mark_item lang x))
unfolding mark_item
mark_item-IsMarked lang (media_item m) = mark_media-IsMarked lang m.group_id m.language m.default
mark_item-IsMarked lang (segment_item g) = tt
mark_item-IsMarked lang _ = tt

item_language-mark_item :
    (lang : Str) (x : Item) → item_language (mark_item lang x) ≡ item_language x
unfolding mark_item
item_language-mark_item lang (media_item m) = ground arith
item_language-mark_item lang (segment_item g) = refl
item_language-mark_item lang _ = refl

mark-All-IsMarked :
    (lang : Str) (xs : List Item)
    → All (λ x. IsMarked lang (language_default x)) (map (mark_item lang) xs)
mark-All-IsMarked lang [] = tt
mark-All-IsMarked lang (x ∷ xs) = (mark_item-IsMarked lang x, mark-All-IsMarked lang xs)

languages-mark : (lang : Str) (xs : List Item) → languages (map (mark_item lang) xs) ≡ languages xs
unfolding languages
languages-mark lang [] = refl
languages-mark lang (x ∷ xs) = rw (item_language-mark_item lang x, languages-mark lang xs)

-- Marking a playlist for a language marks every item right and changes no item's language, so that the
-- languages found before the loop are those of every playlist that it writes.
pub mark_language_lem :
    (lang : Str) (p : Playlist)
    → All (λ x. IsMarked lang (language_default x)) (mark_language lang p).items
      × (get_languages (mark_language lang p) ≡ get_languages p)
unfolding mark_language get_languages
mark_language_lem lang p = (mark-All-IsMarked lang p.items, languages-mark lang p.items)
