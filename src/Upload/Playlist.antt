-- ===== src/Upload/Playlist.antt =====
-- `LivePlaylist` of upload/hls.go: a sliding window over the items that were appended. `none` is a
-- panic, of an index into an empty slice or of a nil pointer.
pub mod Window
use stream_api.Base.{
  ℕ, zero, suc, ◌+◌, Bool, true, false, Option, none, some, List, [], ◌∷◌, ◌++◌, length, ◌==◌,
  if◌then◌else◌,
}
use stream_api.Base.Int.{ℤ, pos, ◌+ℤ◌}
use stream_api.Upload.M3u8.{
  Item, segment_item, discontinuity_item, media_item, playlist_item, other_item, Playlist,
}

pub record LivePlaylist : Type 0 where
  pub playlist : Playlist
  pub size : ℕ

unfoldable pub new_live_playlist : ℕ → LivePlaylist
new_live_playlist size = record {
  playlist = record {
    version = some 3;
    live = true;
    discontinuity_sequence = some (pos 0);
    sequence = pos 0;
    target = pos 0;
    items = [];
  };
  size = size;
}

-- The `switch` on the type of the removed item.
count_deleted : Item → Playlist → Option Playlist
unfolding ◌+ℤ◌
count_deleted (segment_item _) p = some (record p { sequence = p.sequence +ℤ pos 1 })
count_deleted discontinuity_item p = elim p.discontinuity_sequence [
  | none ↦ none
  | some d ↦ some (record p { discontinuity_sequence = some (d +ℤ pos 1) })
]
count_deleted (media_item _) p = some p
count_deleted (playlist_item _) p = some p
count_deleted (other_item _) p = some p

-- `lp.Items[0]` and `lp.Items[1:]`
shift : Playlist → List Item → Option (Playlist × Option Item)
unfolding count_deleted
shift p [] = none
shift p (first ∷ rest) = elim (count_deleted first p) [
  | none ↦ none
  | some q ↦ some (record q { items = rest }, some first)
]

make_room : LivePlaylist → Option (Playlist × Option Item)
unfolding shift
make_room lp =
    if length lp.playlist.items == lp.size
    then shift lp.playlist lp.playlist.items
    else some (lp.playlist, none)

-- The new playlist and the item that it lost, if it was full.
unfoldable pub append : LivePlaylist → Item → Option (LivePlaylist × Option Item)
unfolding make_room
append lp item = elim (make_room lp) [
  | none ↦ none
  | some (p, deleted) ↦
      some (record lp { playlist = record p { items = p.items ++ (item ∷ []) } }, deleted)
]

unfoldable pub apply_discontinuity : LivePlaylist → Option (LivePlaylist × Option Item)
apply_discontinuity lp = append lp discontinuity_item

unfoldable pub set_segment_target : LivePlaylist → ℤ → LivePlaylist
set_segment_target lp target = record lp { playlist = record lp.playlist { target = target } }
