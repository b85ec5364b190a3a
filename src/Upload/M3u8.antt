-- ===== src/Upload/M3u8.antt =====
-- What upload/hls.go uses of the package go-m3u8: the fields of its items and of its playlist, as
-- data, and its functions, as the parameters of `Library`. A float64 stands as its bit pattern, since
-- the code here only stores it.
use stream_api.Base.{ℕ, Bool, true, false, Option, List, Str, suc, [], ◌∷◌}
use stream_api.Base.Int.{ℤ}

pub record Segment : Type 0 where
  pub segment : Str
  pub duration : ℕ

pub record Media : Type 0 where
  pub group_id : Str
  pub language : Option Str
  pub default : Option Bool

pub record Resolution : Type 0 where
  pub width : ℕ
  pub height : ℕ

pub record Rendition : Type 0 where
  pub uri : Str
  pub codecs : Option Str
  pub resolution : Option Resolution

-- `m3u8.Item`: a segment, a discontinuity, a media tag, a playlist of a master playlist, or a tag
-- that the program does not look at.
pub data Item : Type 0 where
  segment_item : Segment → Item
  discontinuity_item : Item
  media_item : Media → Item
  playlist_item : Rendition → Item
  other_item : ℕ → Item

pub record Playlist : Type 0 where
  pub version : Option ℕ
  pub live : Bool
  pub discontinuity_sequence : Option ℤ
  pub sequence : ℤ
  pub target : ℤ
  pub items : List Item

abbrev pub is_segment : Item → Bool
is_segment (segment_item _) = true
is_segment _ = false

abbrev pub is_discontinuity : Item → Bool
is_discontinuity discontinuity_item = true
is_discontinuity _ = false

abbrev pub count_if : Bool → ℕ → ℕ
count_if true n = suc n
count_if false n = n

-- How many items a test accepts.
abbrev pub tally : (Item → Bool) → List Item → ℕ
tally p [] = 0
tally p (x ∷ xs) = count_if (p x) (tally p xs)

-- The library's functions, which are taken not to panic, the file writer that the HLS parser is given, and
-- what prometheus takes for a label's value: text in UTF-8. `write_file` returns whether it succeeded; `none`
-- is a panic, which `AtomicWriter` has where it cannot open the file.
pub record Library : Type 1 where
  pub Disk : Type 0
  pub label_ok : Str → Bool
  pub write_file : Str → Str → Disk → Option (Bool × Disk)
  pub read : Str → Option Playlist
  pub write : Playlist → Option Str
  pub is_master : Playlist → Bool
  pub segment_size : Playlist → ℕ
