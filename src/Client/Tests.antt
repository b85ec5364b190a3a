-- ===== src/Client/Tests.antt =====
-- The theorems on paths and watches (client/) at concrete values.
use stream_api.Base.{◌≡◌, refl, true, false, [], ◌∷◌, Str, str_Eq, codes}
use stream_api.Base.Dict.{Dict, lookup, IsDistinct}
use stream_api.Base.FilePath.Plain.{IsPlain, is_plain_lem}
use stream_api.Client.Path.{
  parse_stream_name, path_is_stream, path_is_stream_transcoder, path_is_stream_settings,
  stream_path, stream_transcoder_path, stream_settings_path,
}
use stream_api.Client.Path.RoundTrip.{stream_paths_lem, stream_settings_path_lem}
use stream_api.Client.Watch.Follow.{Agree, Watched, steps, InStep, steps-listing}

abbrev s1 : Str
s1 = codes "s1"

s1-IsPlain : IsPlain s1
s1-IsPlain = is_plain_lem s1 refl

stream_paths_lem_example :
    (parse_stream_name (stream_path s1) ≡ s1)
    × (path_is_stream (stream_path s1) ≡ true)
    × (path_is_stream_transcoder (stream_path s1) ≡ false)
    × (parse_stream_name (stream_transcoder_path s1) ≡ s1)
    × (path_is_stream (stream_transcoder_path s1) ≡ false)
    × (path_is_stream_transcoder (stream_transcoder_path s1) ≡ true)
stream_paths_lem_example = stream_paths_lem s1 s1-IsPlain

stream_settings_path_lem_example : path_is_stream_settings (stream_settings_path s1) ≡ false
stream_settings_path_lem_example = stream_settings_path_lem s1 s1-IsPlain

abbrev first_listing : Dict Str Str
first_listing = (codes "a", codes "1") ∷ (codes "b", codes "2") ∷ []

abbrev second_listing : Dict Str Str
second_listing = (codes "b", codes "3") ∷ (codes "c", codes "4") ∷ []

second_listing-IsDistinct : IsDistinct second_listing
unfolding lookup
second_listing-IsDistinct = (refl, (refl, tt))

abbrev at_start : Watched
at_start = ([], [])

at_start-InStep : InStep at_start
at_start-InStep = record { distinct = tt; agree = λ key. refl }

steps-listing_example :
    Agree (steps (first_listing ∷ second_listing ∷ []) at_start).1 second_listing
    × InStep (steps (first_listing ∷ second_listing ∷ []) at_start)
steps-listing_example =
    steps-listing (first_listing ∷ []) second_listing at_start at_start-InStep
      second_listing-IsDistinct
