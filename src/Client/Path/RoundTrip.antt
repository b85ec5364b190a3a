-- ===== src/Client/Path/RoundTrip.antt =====
-- The paths that client/path.go makes and the names that it reads from them.
use stream_api.Base.{◌≡◌, refl, true, false, none, [], ◌∷◌, Str, codes}
use stream_api.Base.FilePath.Plain.{IsPlain, is_plain_lem, split-join_path}
use stream_api.Client.Path.{
  third_of_three, second_of_two, second_or_empty, is_pair, is_triple, parse_service_name,
  parse_transcoder_name, parse_stream_name, path_is_stream, path_is_stream_transcoder,
  path_is_stream_settings, service_path, stream_path, stream_transcoder_path, stream_settings_path,
}

stream-IsPlain : IsPlain (codes "stream")
stream-IsPlain = is_plain_lem (codes "stream") refl

service-IsPlain : IsPlain (codes "service")
service-IsPlain = is_plain_lem (codes "service") refl

settings-IsPlain : IsPlain (codes "streamSettings")
settings-IsPlain = is_plain_lem (codes "streamSettings") refl

transcoder-IsPlain : IsPlain (codes "transcoder")
transcoder-IsPlain = is_plain_lem (codes "transcoder") refl

-- The path of a stream whose name is plain (not empty, no slash, not `.` or `..`) gives back the name, and
-- is told from the path of its transcoder, which gives back the name too.
pub stream_paths_lem :
    (name : Str)
    → IsPlain name
    → (parse_stream_name (stream_path name) ≡ name)
      × (path_is_stream (stream_path name) ≡ true)
      × (path_is_stream_transcoder (stream_path name) ≡ false)
      × (parse_stream_name (stream_transcoder_path name) ≡ name)
      × (path_is_stream (stream_transcoder_path name) ≡ false)
      × (path_is_stream_transcoder (stream_transcoder_path name) ≡ true)
unfolding stream_path stream_transcoder_path parse_stream_name path_is_stream
    path_is_stream_transcoder second_or_empty is_pair is_triple
stream_paths_lem name h =
    let one = split-join_path (codes "stream") name [] stream-IsPlain (h, tt) in
    let two =
      split-join_path (codes "stream") name (codes "transcoder" ∷ []) stream-IsPlain
        (h, (transcoder-IsPlain, tt)) in
    (rw one, rw one, rw one, rw two, rw two, rw two)

-- The path of a service's client gives back the client's name, and is not the path of a transcoder as
-- `ParseTranscoderName` reads it, whatever the service.
pub service_path_lem :
    (service name : Str)
    → IsPlain service
    → IsPlain name
    → (parse_service_name (service_path service name) ≡ name)
      × (parse_transcoder_name (service_path service name) ≡ none)
unfolding service_path parse_service_name parse_transcoder_name third_of_three second_of_two
service_path_lem service name hs hn =
    let parts =
      split-join_path (codes "service") service (name ∷ []) service-IsPlain (hs, (hn, tt)) in
    (rw parts, rw parts)

-- The path of the settings of a stream whose name is plain (not empty, no slash, not `.` or `..`) is not one that
-- `PathIsStreamSettings` takes for such.
pub stream_settings_path_lem :
    (name : Str) → IsPlain name → path_is_stream_settings (stream_settings_path name) ≡ false
unfolding stream_settings_path path_is_stream_settings is_triple
stream_settings_path_lem name h =
    let parts = split-join_path (codes "streamSettings") name [] settings-IsPlain (h, tt) in
    rw parts

-- The name of a stream is read back from the path of its settings too.
pub parse_stream_name-stream_settings_path :
    (name : Str) → IsPlain name → parse_stream_name (stream_settings_path name) ≡ name
unfolding stream_settings_path parse_stream_name second_or_empty
parse_stream_name-stream_settings_path name h =
    let parts = split-join_path (codes "streamSettings") name [] settings-IsPlain (h, tt) in
    rw parts
