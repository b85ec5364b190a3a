-- ===== src/Monitor/Rest/SetGet.antt =====
-- Settings that were set are what is got (monitor/rest.go, client/consul.go).
use stream_api.Base.{◌≡◌, refl, Bool, Option, none, some, List, Str, arith}
use stream_api.Auth.{Settings}
use stream_api.Client.Path.{stream_settings_path}
use stream_api.Client.Kv.{KvPair, Consul, ok, Error, get, put}
use stream_api.Client.Kv.Errors.{put-none, get-some}
use stream_api.Monitor.Rest.{
  decode_json, handle_get, answer_one, answer_put, put_encoded, put_decoded, handle_set,
}

-- What is documented of consul: a pair that was put is found.
pub record KeepsPuts {S : Type 0} (consul : Consul S) : Type 0 where
  pub found :
      (pair : KvPair) (s : S)
      → (consul.kv_put pair s).0 ≡ none
      → consul.kv_get pair.key (consul.kv_put pair s).1 ≡ ok (some pair)

module _ {S : Type 0} (consul : Consul S) (decode_into : Settings → Str → Bool × Settings)
    (encode : Settings → Option Str) (encode_all : List Settings → Str) where
  -- The body was settings, and their encoding is what a request for their stream is answered with.
  pub record IsStored (body : Option Str) (after : S) : Type 0 where
    pub settings : Settings
    pub text : Str
    pub decodes : decode_json consul decode_into encode encode_all body ≡ some settings
    pub encodes : encode settings ≡ some text
    pub answer :
        handle_get consul decode_into encode encode_all settings.slug after
        ≡ some (record { status = 200; body = text })

  put_encoded-IsStored :
      (laws : KeepsPuts consul) (body : Option Str) (settings : Settings) (text : Option Str)
      (s : S)
      → decode_json consul decode_into encode encode_all body ≡ some settings
      → encode settings ≡ text
      → (put_encoded consul decode_into encode encode_all settings text s).0.status ≡ 200
      → IsStored body (put_encoded consul decode_into encode encode_all settings text s).1
  unfolding put_encoded
  put_encoded-IsStored laws body settings none s d e h = absurd (ground arith)
  put_encoded-IsStored laws body settings (some text) s d e h =
      let key = stream_settings_path settings.slug in
      let pair : KvPair = record { key = key; value = text } in
      let stored =
        laws.found pair s (put-none consul key text s (by_error (put consul key text s).0 h)) in
      record {
        settings = settings;
        text = text;
        decodes = d;
        encodes = e;
        answer =
            answered (put consul key text s).1
              (unfold put in get-some consul key pair (consul.kv_put pair s).1 stored);
      }
    where
      by_error :
          (o : Option Error)
          → (answer_put consul decode_into encode encode_all o).status ≡ 200
          → o ≡ none
      by_error none h = refl
      by_error (some e) h = absurd (unfold answer_put in ground arith)

      answered :
          (after : S)
          → get consul (stream_settings_path settings.slug) after ≡ some (ok text)
          → handle_get consul decode_into encode encode_all settings.slug after
            ≡ some (record { status = 200; body = text })
      answered after e = unfold handle_get answer_one in rw e

  -- With a store that keeps what is put: if the setting of a stream is answered with 200, the body was settings,
  -- and a request for the stream that they name is answered with exactly their encoding.
  pub get-set :
      (laws : KeepsPuts consul) (body : Option Str) (s : S)
      → (handle_set consul decode_into encode encode_all body s).0.status ≡ 200
      → IsStored body (handle_set consul decode_into encode encode_all body s).1
  unfolding handle_set
  get-set laws body s h = by_decoded (decode_json consul decode_into encode encode_all body) refl h
    where
      by_decoded :
          (o : Option Settings)
          → decode_json consul decode_into encode encode_all body ≡ o
          → (put_decoded consul decode_into encode encode_all o s).0.status ≡ 200
          → IsStored body (put_decoded consul decode_into encode encode_all o s).1
      by_decoded none e h = absurd (unfold put_decoded in ground arith)
      by_decoded (some settings) e h =
          unfold put_decoded in put_encoded-IsStored laws body settings (encode settings) s e refl h
