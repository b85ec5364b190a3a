-- ===== src/Client/Kv/Errors.antt =====
-- When the calls of the key-value store succeed (client/consul.go).
use stream_api.Base.{◌≡◌, refl, ap, Option, none, some, Str}
use stream_api.Client.Kv.{KvPair, Consul, ok, get, put, read_value, put_error}

module _ {S : Type 0} (consul : Consul S) where
  pub put-none :
      (key value : Str) (s : S)
      → (put consul key value s).0 ≡ none
      → (consul.kv_put (record { key = key; value = value }) s).0 ≡ none
  unfolding put
  put-none key value s h = by_error (consul.kv_put (record { key = key; value = value }) s).0 h
    where
      by_error : (o : Option Str) → put_error o ≡ none → o ≡ none
      by_error none h = refl
      by_error (some e) h = absurd (unfold put_error in cc)

  pub get-some :
      (key : Str) (pair : KvPair) (s : S)
      → consul.kv_get key s ≡ ok (some pair)
      → get consul key s ≡ some (ok pair.value)
  unfolding get read_value
  get-some key pair s h = ap read_value h
