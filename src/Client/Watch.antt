-- ===== src/Client/Watch.antt =====
-- The handler of a watch (`makeWatchHandler` of client/consul.go), which turns a listing of keys and
-- values into updates against the listing before. A value and a key are bytes.
pub mod Expected
pub mod Follow
pub mod Sends
use stream_api.Base.{
  ℕ, Bool, true, false, Option, none, some, List, [], ◌∷◌, ◌++◌, Str, str_Eq, str_eq, if◌then◌else◌,
}
use stream_api.Base.Dict.{Dict, lookup, insert, remove}

pub data WatchUpdate : Type 0 where
  put : Str → Str → WatchUpdate
  delete : Str → WatchUpdate

-- What a consul watch hands over: nothing, one pair, or all pairs under the prefix.
pub data Listing : Type 0 where
  no_pair : Listing
  one_pair : Str → Str → Listing
  all_pairs : Dict Str Str → Listing
  invalid : Listing

pub record Difference : Type 0 where
  pub expected : List Str
  pub updates : List WatchUpdate
  pub cache : Dict Str Str

pub keys : Dict Str Str → List Str
keys [] = []
keys ((k, _) ∷ entries) = k ∷ keys entries

-- `append(expected[:i], expected[i+1:]...)` at the first place of the key
pub remove_first : Str → List Str → List Str
remove_first key [] = []
remove_first key (name ∷ names) = if str_eq key name then names else name ∷ remove_first key names

is_cached : Option Str → Str → Bool
is_cached none value = false
is_cached (some old) value = str_eq old value

-- One round of the loop over the pairs.
add_pair : Str → Str → Difference → Difference
unfolding remove_first is_cached lookup insert
add_pair key value d =
    let seen = record d { expected = remove_first key d.expected } in
    if is_cached (lookup key d.cache) value then seen else record seen {
      updates = d.updates ++ (put key value ∷ []);
      cache = insert key value d.cache;
    }

add_pairs : Dict Str Str → Difference → Difference
unfolding add_pair
add_pairs [] d = d
add_pairs ((key, value) ∷ pairs) d = add_pairs pairs (add_pair key value d)

-- The loop over what is still expected.
remove_outdated : List Str → Difference → Difference
unfolding remove
remove_outdated [] d = d
remove_outdated (missing ∷ names) d =
    remove_outdated names
      (record d { updates = d.updates ++ (delete missing ∷ []); cache = remove missing d.cache })

pub difference : Dict Str Str → Dict Str Str → Difference
unfolding add_pairs remove_outdated keys
difference pairs cache =
    let d = add_pairs pairs (record { expected = keys cache; updates = []; cache = cache }) in
    remove_outdated d.expected d

-- What is sent on the channel, if anything, and the cache.
unfoldable pub handle_watch : Listing → Dict Str Str → Option (List WatchUpdate) × Dict Str Str
unfolding difference
handle_watch no_pair cache = (none, cache)
handle_watch (one_pair key value) cache = (some (put key value ∷ []), cache)
handle_watch (all_pairs pairs) cache = let d = difference pairs cache in (some d.updates, d.cache)
handle_watch invalid cache = (none, cache)
