-- ===== src/Client/Path/Keys.antt =====
-- Which keys stand for a stream (`PathIsStream`, `ParseStreamName` of client/path.go).
use stream_api.Base.{
  ◌≡◌, refl, sym, ap, ◌∙◌, true, List, [], ◌∷◌, ◌++◌, Str, str_eq_iff, codes, arith,
}
use stream_api.Base.FilePath.{slash}
use stream_api.Base.Text.{split, join, Lacks, split-append, split_whole}
use stream_api.Base.Text.Join.{join-split}
use stream_api.Client.Path.{second_or_empty, is_pair, parse_stream_name, path_is_stream}

-- `stream/` and a name
abbrev pub stream_key : Str → Str
stream_key name = codes "stream/" ++ name

pair_lem :
    (first : Str) (parts : List Str)
    → is_pair first parts ≡ true
    → parts ≡ first ∷ second_or_empty parts ∷ []
unfolding is_pair second_or_empty
pair_lem first [] h = cc
pair_lem first (a ∷ []) h = cc
pair_lem first (a ∷ b ∷ []) h = ap (λ (r : Str). r ∷ b ∷ []) ((str_eq_iff a first).0 h)
pair_lem first (a ∷ b ∷ c ∷ rest) h = cc

-- A key that is taken for a stream is the key of the name that is read from it.
pub stream_key-parse_stream_name :
    (key : Str) → path_is_stream key ≡ true → key ≡ stream_key (parse_stream_name key)
unfolding path_is_stream parse_stream_name
stream_key-parse_stream_name key h =
    sym (join-split key slash)
    ∙ ap (λ parts. join parts slash) (pair_lem (codes "stream") (split key slash) h)
    ∙ (unfold join in refl)

pub split-stream_key :
    (name : Str) → Lacks slash name → split (stream_key name) slash ≡ codes "stream" ∷ name ∷ []
split-stream_key name h =
    split-append (codes "stream") name slash (omega arith)
    ∙ ap (λ (r : List Str). codes "stream" ∷ r) (split_whole name slash h)

-- The key of a name without a slash is taken for a stream, and the name is read from it.
pub parse_stream_name-stream_key :
    (name : Str)
    → Lacks slash name
    → (parse_stream_name (stream_key name) ≡ name) × (path_is_stream (stream_key name) ≡ true)
unfolding parse_stream_name path_is_stream second_or_empty is_pair
parse_stream_name-stream_key name h =
    let parts = split-stream_key name h in
    (ap second_or_empty parts, ap (is_pair (codes "stream")) parts)
