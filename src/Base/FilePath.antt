-- ===== src/Base/FilePath.antt =====
-- Go's `path` and `path/filepath` for a slash-separated system: `Clean`, `Join`, `Base`, `Dir`, `Ext`.
pub mod Plain
use mathlib.Core.List.{reverse}
use stream_api.Base.{
  ℕ, ◌≡◌, refl, Bool, true, false, List, [], ◌∷◌, ◌==◌, Str, str_eq, codes, if◌then◌else◌,
}
use stream_api.Base.Text.{split, join}

abbrev pub slash : ℕ
slash = b'/'

abbrev pub is_rooted : Str → Bool
is_rooted [] = false
is_rooted (c ∷ _) = c == slash

-- One component of a path against the components kept so far, the last one first.
abbrev push_part : Bool → Str → List Str → List Str
push_part rooted part [] =
    if str_eq part (codes "..") then (if rooted then [] else part ∷ []) else part ∷ []
push_part rooted part (top ∷ kept) =
    if str_eq part (codes "..")
    then (if str_eq top (codes "..") then part ∷ top ∷ kept else kept)
    else part ∷ top ∷ kept

clean_parts : Bool → List Str → List Str → List Str
clean_parts rooted kept [] = reverse kept
clean_parts rooted kept (part ∷ parts) =
    clean_parts rooted
      (if str_eq part []
        then kept
        else if str_eq part (codes ".")
        then kept
        else push_part rooted part kept)
      parts

abbrev or_dot : Str → Str
or_dot [] = codes "."
or_dot (c ∷ s) = c ∷ s

-- `filepath.Clean`, `path.Clean`
unfoldable pub clean : Str → Str
unfolding clean_parts split join
clean p =
    if is_rooted p
    then slash ∷ join (clean_parts true [] (split p slash)) slash
    else or_dot (join (clean_parts false [] (split p slash)) slash)

abbrev non_empty : List Str → List Str
non_empty [] = []
non_empty ([] ∷ ps) = non_empty ps
non_empty ((c ∷ p) ∷ ps) = (c ∷ p) ∷ non_empty ps

abbrev clean_join : List Str → Str
clean_join [] = []
clean_join (p ∷ ps) = clean (join (p ∷ ps) slash)

-- `path.Join`, `filepath.Join`: empty elements are ignored.
unfoldable pub join_path : List Str → Str
unfolding clean join
join_path parts = clean_join (non_empty parts)

abbrev drop_slashes : Str → Str
drop_slashes [] = []
drop_slashes (c ∷ s) = if c == slash then drop_slashes s else c ∷ s

-- Up to the first slash.
abbrev pub before_slash : Str → Str
before_slash [] = []
before_slash (c ∷ s) = if c == slash then [] else c ∷ before_slash s

-- From the first slash on, the slash included.
abbrev from_slash : Str → Str
from_slash [] = []
from_slash (c ∷ s) = if c == slash then c ∷ s else from_slash s

abbrev or_slash : Str → Str
or_slash [] = codes "/"
or_slash (c ∷ s) = c ∷ s

-- `path.Base`, `filepath.Base`
unfoldable pub base : Str → Str
base [] = codes "."
base (c ∷ p) = or_slash (reverse (before_slash (drop_slashes (reverse (c ∷ p)))))

-- `filepath.Dir`
unfoldable pub dir : Str → Str
unfolding clean
dir p = clean (reverse (from_slash (reverse p)))

-- The reversed text up to its first dot, if that comes before a slash.
abbrev ext_rev : Str → Str → Str
ext_rev acc [] = []
ext_rev acc (c ∷ s) = if c == slash then [] else if c == b'.' then c ∷ acc else ext_rev (c ∷ acc) s

-- `filepath.Ext`
unfoldable pub ext : Str → Str
ext p = ext_rev [] (reverse p)

clean_example : clean (codes "/upload/../a//./b/") ≡ codes "/a/b"
unfolding clean
clean_example = refl

clean_relative : clean (codes "../x/..") ≡ codes ".."
unfolding clean
clean_relative = refl

base_example : base (codes "/srv/a/seg.ts") ≡ codes "seg.ts"
unfolding base
base_example = refl

dir_example : dir (codes "/srv/a/seg.ts") ≡ codes "/srv/a"
unfolding dir
dir_example = refl

ext_example : ext (codes "/srv/a.b/seg.m3u8") ≡ codes ".m3u8"
unfolding ext
ext_example = refl

ext_none : ext (codes "/srv/a.b/seg") ≡ []
unfolding ext
ext_none = refl

join_path_example : join_path (codes "stream/" ∷ [] ∷ codes "a" ∷ []) ≡ codes "stream/a"
unfolding join_path
join_path_example = refl
