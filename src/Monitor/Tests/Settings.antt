-- ===== src/Monitor/Tests/Settings.antt =====
-- The theorem on the settings (monitor/rest.go) at a concrete store, and runs of its functions.
use stream_api.Base.{
  ◌≡◌, refl, ap, true, Bool, Option, none, some, List, [], ◌∷◌, ◌++◌, Str, str_Eq, str_eq_iff,
  codes, arith,
}
use stream_api.Base.Dict.{Dict, lookup, insert, remove, lookup-insert}
use stream_api.Auth.{Settings}
use stream_api.Client.Kv.{KvPair, Consul, ok}
use stream_api.Monitor.Rest.{handle_get, handle_set}
use stream_api.Monitor.Rest.SetGet.{KeepsPuts, IsStored, get-set}

-- A store in memory
abbrev Store : Type 0
Store = Dict Str Str

abbrev pair_of : Str → Option Str → Option KvPair
pair_of key none = none
pair_of key (some value) = some (record { key = key; value = value })

memory : Consul Store
unfolding lookup insert remove
memory = record {
  kv_get = λ key s. ok (pair_of key (lookup key s));
  kv_list = λ prefix s. ok [];
  kv_put = λ pair s. (none, insert pair.key pair.value s);
  kv_acquire = λ session pair s. (true, none, insert pair.key pair.value s);
  kv_delete = λ key s. (none, remove key s);
}

memory-KeepsPuts : KeepsPuts memory
unfolding memory
memory-KeepsPuts = record { found = λ pair s h. ap ok (found pair s) }
  where
    found :
        (pair : KvPair) (s : Store)
        → pair_of pair.key (lookup pair.key (insert pair.key pair.value s)) ≡ some pair
    found pair s =
        ground (arith, lookup-insert pair.key pair.key pair.value s, str_eq_iff pair.key pair.key)

-- The settings are their slug.
abbrev decode_into : Settings → Str → Bool × Settings
decode_into tmp value = (true, record tmp { slug = value })

abbrev encode : Settings → Option Str
encode settings = some settings.slug

abbrev encode_all : List Settings → Str
encode_all [] = []
encode_all (s ∷ settings) = s.slug ++ encode_all settings

set_answer : (handle_set memory decode_into encode encode_all (some (codes "s1")) []).0.status ≡ 200
unfolding handle_set memory
set_answer = refl

get-set_example :
    IsStored memory decode_into encode encode_all
      (some (codes "s1"))
      (handle_set memory decode_into encode encode_all (some (codes "s1")) []).1
get-set_example =
    get-set memory decode_into encode encode_all memory-KeepsPuts (some (codes "s1")) [] set_answer

empty_body : (handle_set memory decode_into encode encode_all (some []) []).0.status ≡ 422
unfolding handle_set memory
empty_body = refl

-- A request for settings that were never set panics.
get_unset : handle_get memory decode_into encode encode_all (codes "s2") [] ≡ none
unfolding handle_get memory
get_unset = refl
