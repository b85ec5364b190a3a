-- ===== src/Client/Watch/Expected.antt =====
-- The keys that the handler of a watch still expects (client/consul.go).
use stream_api.Base.{
  ◌≡◌, refl, Bool, false, not, ◌&&◌, ◌||◌, is_some, List, [], ◌∷◌, Str, str_Eq, str_eq, str_eq_iff,
  arith, Bool-cases, inl, inr,
}
use stream_api.Base.Dict.{Dict, lookup, IsDistinct}
use stream_api.Client.Watch.{keys, remove_first}

abbrev pub has : Str → List Str → Bool
has key [] = false
has key (name ∷ names) = str_eq key name || has key names

abbrev pub Apart : List Str → Type 0
Apart [] = Unit
Apart (name ∷ names) = (has name names ≡ false) × Apart names

pub has-keys : (key : Str) (d : Dict Str Str) → has key (keys d) ≡ is_some (lookup key d)
unfolding keys lookup
has-keys key [] = refl
has-keys key ((k, v) ∷ d) = ground (arith, has-keys key d, str_eq_iff key k, str_eq_iff k key)

pub keys-Apart : (d : Dict Str Str) → IsDistinct d → Apart (keys d)
unfolding keys
keys-Apart [] h = tt
keys-Apart ((k, v) ∷ d) (fresh, h) = (ground (arith, has-keys k d, fresh), keys-Apart d h)

pub has-remove_first :
    (key q : Str) (names : List Str)
    → Apart names
    → has q (remove_first key names) ≡ (has q names && not (str_eq key q))
unfolding remove_first
has-remove_first key q [] h = refl
has-remove_first key q (n ∷ names) (fresh, h) = ground (
  arith,
  has-remove_first key q names h,
  str_eq_iff key n,
  str_eq_iff q n,
  str_eq_iff key q,
  fresh,
)

pub remove_first-Apart :
    (key : Str) (names : List Str) → Apart names → Apart (remove_first key names)
unfolding remove_first
remove_first-Apart key [] h = tt
remove_first-Apart key (n ∷ names) (fresh, h) = elim (Bool-cases (str_eq key n)) [
  | inl same ↦ rw same h
  | inr other ↦
      rw other
        (ground (arith, has-remove_first key n names h, fresh), remove_first-Apart key names h)
]
