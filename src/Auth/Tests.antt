-- ===== src/Auth/Tests.antt =====
-- The theorem on the watched settings (auth/watcher.go) at concrete changes.
use stream_api.Base.{
  ◌≡◌, ◌↔◌, refl, true, false, Option, none, some, List, [], ◌∷◌, Str, str_Eq, codes, map,
}
use stream_api.Base.Dict.{lookup}
use stream_api.Base.FilePath.Plain.{is_plain_lem}
use stream_api.Auth.{Settings, Watcher, handle_updates, authorise, auth_handler}
use stream_api.Auth.Latest.{Change, update_of, latest, authorise-changes}

abbrev some_settings : Settings
some_settings = record {
  slug = codes "s1";
  ingest_type = codes "ingest";
  secret = codes "abc";
  is_public = true;
  passthrough = false;
}

abbrev decode : Str → Option Settings
decode value = some some_settings

abbrev changes : List Change
changes = (codes "s1", none) ∷ (codes "s1", some (codes "{}")) ∷ []

abbrev watcher : Watcher
watcher = record { settings = [] }

authorise-changes_example :
    (authorise
        (codes "ingest")
        (codes "s1")
        (codes "abc")
        (handle_updates decode (map update_of changes) watcher)
      ≡ true)
    ↔ ((s : Settings) × (latest decode (codes "s1") changes (lookup (codes "s1") watcher.settings)
          ≡ some s)
        × (codes "ingest" ≡ s.ingest_type)
        × (codes "abc" ≡ s.secret))
authorise-changes_example =
    authorise-changes decode changes (codes "ingest") (codes "s1") (codes "abc") watcher
      (is_plain_lem (codes "s1") refl, (is_plain_lem (codes "s1") refl, tt))

no_form : auth_handler none (record { settings = [] }) ≡ 401
unfolding auth_handler
no_form = refl
