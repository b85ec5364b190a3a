-- ===== src/Monitor/Rest.antt =====
-- The handlers of a stream's settings (monitor/rest.go). The routing is not part of it: `slug` is what the path
-- of the request names. JSON is a parameter: `decode_into` is `json.Unmarshal` into a value that is there,
-- which it may have changed also where it fails. A response is its first status with its body.
pub mod SetGet
use stream_api.Base.{
  ℕ, ◌*◌, Bool, true, false, Option, none, some, List, [], ◌∷◌, ◌++◌, Str, codes, if◌then◌else◌,
  take, ◌>>=◌,
}
use stream_api.Auth.{Settings}
use stream_api.Client.Path.{stream_settings_path}
use stream_api.Client.Kv.{Consul, Result, ok, failed, Error, get, get_with_prefix, put}

pub record Response : Type 0 where
  pub status : ℕ
  pub body : Str

-- What a handler that writes nothing answers
abbrev pub empty_response : Response
empty_response = record { status = 200; body = [] }

abbrev pub no_settings : Settings
no_settings = record {
  slug = [];
  ingest_type = [];
  secret = [];
  is_public = false;
  passthrough = false;
}

abbrev pub failure : ℕ → Response
failure status = record { status = status; body = [] }

-- The body up to 1 MiB, `none` if it cannot be read
abbrev Body : Type 0
Body = Option Str

module _ {S : Type 0} (consul : Consul S) (decode_into : Settings → Str → Bool × Settings)
    (encode : Settings → Option Str) (encode_all : List Settings → Str) where
  decoded : Bool × Settings → Option Settings
  decoded (true, settings) = some settings
  decoded (false, _) = none

  decode_content : Str → Option Settings
  unfolding decoded
  decode_content [] = none
  decode_content (c ∷ content) = decoded (decode_into no_settings (c ∷ content))

  -- `decodeJSON`, into fresh settings
  unfoldable pub decode_json : Body → Option Settings
  unfolding decode_content
  decode_json none = none
  decode_json (some body) = decode_content (take 1_048_576 body)

  -- The loop over the fields; `tmp` keeps its value from one round to the next.
  read_settings : Settings → List (Str × Str) → List Settings
  read_settings tmp [] = []
  read_settings tmp ((key, value) ∷ fields) =
      let (fits, tmp') = decode_into tmp value in
      let rest = read_settings tmp' fields in if fits then tmp' ∷ rest else rest

  answer_all : Result (List (Str × Str)) → Response
  unfolding read_settings
  answer_all (failed _) = empty_response
  answer_all (ok fields) = record {
    status = 200;
    body = encode_all (read_settings no_settings fields);
  }

  -- `HandleGetAllStreamSettings`
  unfoldable pub handle_get_all : Str → S → Response
  unfolding answer_all stream_settings_path get_with_prefix
  handle_get_all slug s = answer_all (get_with_prefix consul (stream_settings_path slug) s)

  answer_one : Result Str → Response
  answer_one (failed _) = empty_response
  answer_one (ok value) = record { status = 200; body = value }

  -- `HandleGetStreamSettings`; `none` is a panic.
  unfoldable pub handle_get : Str → S → Option Response
  unfolding answer_one stream_settings_path get
  handle_get slug s = do value ← get consul (stream_settings_path slug) s; some (answer_one value)

  answer_put : Option Error → Response
  answer_put none = empty_response
  answer_put (some _) = failure 500

  -- The put of what was encoded. After a failed encoding the handler goes on, with no data and a status 500.
  put_encoded : Settings → Option Str → S → Response × S
  unfolding answer_put stream_settings_path put
  put_encoded settings none s =
      let (e, after) = put consul (stream_settings_path settings.slug) [] s in (failure 500, after)
  put_encoded settings (some text) s =
      let (e, after) = put consul (stream_settings_path settings.slug) text s in
      (answer_put e, after)

  put_decoded : Option Settings → S → Response × S
  unfolding put_encoded
  put_decoded none s = (failure 422, s)
  put_decoded (some settings) s = put_encoded settings (encode settings) s

  -- `HandleSetStreamSettings`
  unfoldable pub handle_set : Body → S → Response × S
  unfolding put_decoded decode_json
  handle_set body s = put_decoded (decode_json body) s
