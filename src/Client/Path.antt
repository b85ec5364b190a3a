-- ===== src/Client/Path.antt =====
-- The paths of the key-value store (client/path.go).
pub mod RoundTrip
pub mod Keys
use stream_api.Base.{
  ℕ, Bool, true, false, Option, none, some, List, [], ◌∷◌, Str, str_eq, codes, if◌then◌else◌, ◌&&◌,
}
use stream_api.Base.FilePath.{join_path, slash}
use stream_api.Base.Text.{split}

abbrev pub transcoder_prefix : Str
transcoder_prefix = codes "transcoders/"

abbrev pub stream_prefix : Str
stream_prefix = codes "stream/"

abbrev pub stream_settings_prefix : Str
stream_settings_prefix = codes "streamSettings/"

abbrev pub service_prefix : Str
service_prefix = codes "service/"

-- `parts[2]` if there are three parts, and else the empty text
third_of_three : List Str → Str
third_of_three (_ ∷ _ ∷ part ∷ []) = part
third_of_three _ = []

second_of_two : List Str → Option Str
second_of_two (_ ∷ part ∷ []) = some part
second_of_two _ = none

second_or_empty : List Str → Str
second_or_empty (_ ∷ part ∷ _) = part
second_or_empty _ = []

unfoldable pub parse_service_name : Str → Str
unfolding split third_of_three
parse_service_name path = third_of_three (split path slash)

unfoldable pub parse_transcoder_name : Str → Option Str
unfolding split second_of_two
parse_transcoder_name path = second_of_two (split path slash)

unfoldable pub parse_stream_name : Str → Str
unfolding split second_or_empty
parse_stream_name path = second_or_empty (split path slash)

unfoldable pub parse_stream_transcoder : Str → Str
unfolding split third_of_three
parse_stream_transcoder path = third_of_three (split path slash)

is_pair : Str → List Str → Bool
is_pair first (a ∷ _ ∷ []) = str_eq a first
is_pair first _ = false

is_triple : Str → Str → List Str → Bool
is_triple first third (a ∷ _ ∷ c ∷ []) = str_eq a first && str_eq c third
is_triple first third _ = false

unfoldable pub path_is_stream : Str → Bool
unfolding split is_pair
path_is_stream path = is_pair (codes "stream") (split path slash)

unfoldable pub path_is_stream_transcoder : Str → Bool
unfolding split is_triple
path_is_stream_transcoder path = is_triple (codes "stream") (codes "transcoder") (split path slash)

unfoldable pub path_is_stream_settings : Str → Bool
unfolding split is_triple
path_is_stream_settings path = is_triple (codes "stream") (codes "settings") (split path slash)

unfoldable pub service_path : Str → Str → Str
unfolding join_path
service_path service_name client_name = join_path (service_prefix ∷ service_name ∷ client_name ∷ [])

unfoldable pub stream_path : Str → Str
unfolding join_path
stream_path name = join_path (stream_prefix ∷ name ∷ [])

unfoldable pub stream_transcoder_path : Str → Str
unfolding join_path
stream_transcoder_path name = join_path (stream_prefix ∷ name ∷ codes "transcoder" ∷ [])

unfoldable pub stream_settings_path : Str → Str
unfolding join_path
stream_settings_path name = join_path (stream_settings_prefix ∷ name ∷ [])
