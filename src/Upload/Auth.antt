-- ===== src/Upload/Auth.antt =====
-- `StaticAuth` (upload/auth.go). `wildcard.MatchSimple` is the parameter `matches`. `none` is a panic, of
-- an index out of range.
pub mod Sound
use mathlib.Core.List.{reverse}
use stream_api.Base.{
  ℕ, ◌+◌, Bool, true, false, Option, none, some, List, [], ◌∷◌, ◌++◌, Str, str_Eq, str_eq, codes,
  if◌then◌else◌, ◌==◌, ◌>>=◌, drop, length,
}
use stream_api.Base.Dict.{Dict, lookup, insert}
use stream_api.Base.Text.{has_prefix, split}
use stream_api.Base.FilePath.{clean, is_rooted, slash}

pub record AuthConfigEntry : Type 0 where
  pub match : Str
  pub user : Str
  pub pass : Str

pub record AuthConfig : Type 0 where
  pub allowed_dirs : List Str
  pub users : List AuthConfigEntry

pub record StaticAuth : Type 0 where
  pub allowed_dirs : List Str
  pub conf : Dict Str AuthConfigEntry

-- `dir[len(dir)-1]` of an empty text is out of range.
with_separator : Str → Str → Option Str
with_separator dir [] = none
with_separator dir (last ∷ _) = some (if last == slash then dir else dir ++ (slash ∷ []))

add_dirs : List Str → Option (List Str)
unfolding with_separator
add_dirs [] = some []
add_dirs (dir ∷ dirs) = do d ← with_separator dir (reverse dir); ds ← add_dirs dirs; some (d ∷ ds)

add_users : List AuthConfigEntry → Dict Str AuthConfigEntry → Dict Str AuthConfigEntry
unfolding insert
add_users [] conf = conf
add_users (entry ∷ entries) conf = add_users entries (insert entry.user entry conf)

unfoldable pub new_static_auth : AuthConfig → Option StaticAuth
unfolding add_dirs add_users
new_static_auth c = do
  dirs ← add_dirs c.allowed_dirs
  some (record { allowed_dirs = dirs; conf = add_users c.users [] })

-- What is left of a path behind the first allowed prefix.
strip_allowed : List Str → Str → Option Str
unfolding has_prefix
strip_allowed [] path = none
strip_allowed (prefix ∷ prefixes) path =
    if has_prefix path prefix then some (drop (length prefix) path) else strip_allowed prefixes path

rooted : Str → Str
rooted path = if is_rooted path then path else slash ∷ path

-- `parts[1]`
second_part : List Str → Option Str
second_part [] = none
second_part (_ ∷ []) = none
second_part (_ ∷ part ∷ _) = some part

module _ (matches : Str → Str → Bool) where
  check_slug : AuthConfigEntry → Str → Option Str
  check_slug entry slug = if matches entry.match slug then some slug else none

  check_path : StaticAuth → AuthConfigEntry → Str → Option (Option Str)
  check_path a entry path = elim (strip_allowed a.allowed_dirs (clean path)) [
    | none ↦ some none
    | some rest ↦ do slug ← second_part (split (rooted rest) slash); some (check_slug entry slug)
  ]

  -- The slug, if the user may upload to the path.
  unfoldable pub auth : StaticAuth → Str → Str → Str → Option (Option Str)
  unfolding strip_allowed rooted second_part check_slug check_path clean split lookup
  auth a user pass path = elim (lookup user a.conf) [
    | none ↦ some none
    | some entry ↦ if str_eq pass entry.pass then check_path a entry path else some none
  ]
