-- ===== src/Client/Kv.antt =====
-- The calls of the key-value store (client/consul.go). The client of consul is the record `Consul`, over its
-- state: `kv_get` has no pair for a key that is not there. A method that reads through a nil pointer panics,
-- which is `none`. Contexts and timeouts only make the calls of consul fail.
pub mod Errors
use stream_api.Base.{Bool, true, false, Option, none, some, List, [], ◌∷◌, Str, if◌then◌else◌}

pub record KvPair : Type 0 where
  pub key : Str
  pub value : Str

-- A value, or the text of an error
pub data Result {ℓ} (A : Type ℓ) : Type ℓ where
  ok : A → Result A
  failed : Str → Result A

pub record Consul (S : Type 0) : Type 0 where
  pub kv_get : Str → S → Result (Option KvPair)
  pub kv_list : Str → S → Result (List KvPair)
  pub kv_put : KvPair → S → Option Str × S
  pub kv_acquire : Str → KvPair → S → Bool × Option Str × S
  pub kv_delete : Str → S → Option Str × S

pub data Error : Type 0 where
  consul_error : Str → Error
  acquire_failed : Str → Error
  already_acquired : Str → Error
  delete_failed : Str → Error

read_value : Result (Option KvPair) → Option (Result Str)
read_value (failed e) = some (failed e)
read_value (ok none) = none
read_value (ok (some pair)) = some (ok pair.value)

read_fields : List KvPair → List (Str × Str)
read_fields [] = []
read_fields (pair ∷ pairs) = (pair.key, pair.value) ∷ read_fields pairs

listed : Result (List KvPair) → Result (List (Str × Str))
unfolding read_fields
listed (failed e) = failed e
listed (ok pairs) = ok (read_fields pairs)

put_error : Option Str → Option Error
put_error none = none
put_error (some e) = some (consul_error e)

delete_error : Option Str → Option Error
delete_error none = none
delete_error (some e) = some (delete_failed e)

acquire_error : Str → Bool → Option Str → Option Error
acquire_error key true none = none
acquire_error key true (some e) = some (consul_error e)
acquire_error key false none = some (already_acquired key)
acquire_error key false (some e) = some (acquire_failed e)

module _ {S : Type 0} (consul : Consul S) where
  unfoldable pub get : Str → S → Option (Result Str)
  unfolding read_value
  get key s = read_value (consul.kv_get key s)

  unfoldable pub get_with_prefix : Str → S → Result (List (Str × Str))
  unfolding listed
  get_with_prefix prefix s = listed (consul.kv_list prefix s)

  unfoldable pub put : Str → Str → S → Option Error × S
  unfolding put_error
  put key value s =
      let (e, after) = consul.kv_put (record { key = key; value = value }) s in (put_error e, after)

  unfoldable pub put_with_session : Str → Str → Str → S → Option Error × S
  unfolding acquire_error
  put_with_session session key value s =
      let (success, e, after) = consul.kv_acquire session (record { key = key; value = value }) s in
      (acquire_error key success e, after)

  unfoldable pub delete : Str → S → Option Error × S
  unfolding delete_error
  delete key s = let (e, after) = consul.kv_delete key s in (delete_error e, after)
