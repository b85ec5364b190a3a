-- ===== src/Auth/Latest.antt =====
-- A stream is judged by its latest settings (auth/watcher.go).
use stream_api.Base.{
  ◌≡◌, refl, ap, ◌∙◌, true, Option, none, some, List, [], ◌∷◌, Str, str_Eq, str_eq, str_eq_iff,
  if◌then◌else◌, arith, All, ◌↔◌, map,
}
use stream_api.Base.Dict.{lookup, lookup-insert, lookup-remove}
use stream_api.Base.FilePath.Plain.{IsPlain}
use stream_api.Client.Path.{stream_settings_path}
use stream_api.Client.Path.RoundTrip.{parse_stream_name-stream_settings_path}
use stream_api.Client.Watch.{WatchUpdate, put, delete}
use stream_api.Auth.{
  Settings, Watcher, put_settings, update_named, update_key, handle_stream_settings, handle_updates,
  permits, authorise,
}

-- A change of the settings of a stream: a new value or none.
abbrev pub Change : Type 0
Change = Str × Option Str

abbrev pub update_of : Change → WatchUpdate
update_of (name, none) = delete (stream_settings_path name)
update_of (name, some value) = put (stream_settings_path name) value

module _ (decode : Str → Option Settings) where
  -- The settings of a stream after one change: a value that cannot be decoded changes nothing.
  abbrev pub changed : Option Str → Option Settings → Option Settings
  changed none before = none
  changed (some value) before = elim (decode value) [ none ↦ before | some s ↦ some s ]

  abbrev pub latest : Str → List Change → Option Settings → Option Settings
  latest slug [] before = before
  latest slug ((name, value) ∷ changes) before =
      latest slug changes (if str_eq name slug then changed value before else before)

  settings-change :
      (name : Str) (value : Option Str) (slug : Str) (w : Watcher)
      → IsPlain name
      → lookup slug (handle_stream_settings decode (update_of (name, value)) w).settings ≡ (
          if str_eq name slug
          then changed value (lookup slug w.settings)
          else lookup slug w.settings)
  unfolding handle_stream_settings update_key update_named
  settings-change name none slug w h =
      rw (parse_stream_name-stream_settings_path name h, h.filled)
        (lookup-remove name slug w.settings)
  settings-change name (some value) slug w h =
      rw (parse_stream_name-stream_settings_path name h, h.filled) (by_value (decode value))
    where
      by_value :
          (o : Option Settings)
          → lookup slug (put_settings decode name o w).settings ≡ (
              if str_eq name slug
              then elim o as (λ _. Option Settings) [
                | none ↦ lookup slug w.settings
                | some s ↦ some s
              ]
              else lookup slug w.settings)
      by_value none = unfold put_settings in ground (arith, str_eq_iff name slug)
      by_value (some s) = unfold put_settings in lookup-insert name slug s w.settings

  settings-changes :
      (changes : List Change) (slug : Str) (w : Watcher)
      → All (λ c. IsPlain c.0) changes
      → lookup slug (handle_updates decode (map update_of changes) w).settings
        ≡ latest slug changes (lookup slug w.settings)
  unfolding handle_updates
  settings-changes [] slug w h = refl
  settings-changes ((name, value) ∷ changes) slug w (plain, h) =
      settings-changes changes slug (handle_stream_settings decode (update_of (name, value)) w) h
      ∙ ap (latest slug changes) (settings-change name value slug w plain)

-- After any changes of the settings of streams with plain names, at the paths that the client gives them,
-- a stream may be published exactly if it has settings, and its application and secret are those of its
-- latest settings.
pub authorise-changes :
    (decode : Str → Option Settings) (changes : List Change) (app slug secret : Str) (w : Watcher)
    → All (λ c. IsPlain c.0) changes
    → (authorise app slug secret (handle_updates decode (map update_of changes) w) ≡ true) ↔ (
        (s : Settings) × (latest decode slug changes (lookup slug w.settings) ≡ some s)
        × (app ≡ s.ingest_type)
        × (secret ≡ s.secret))
unfolding authorise permits
authorise-changes decode changes app slug secret w h =
    rw (settings-changes decode changes slug w h, authorise)
      (by_settings (latest decode slug changes (lookup slug w.settings)))
  where
    by_settings :
        (o : Option Settings)
        → (permits app secret o ≡ true)
          ↔ ((s : Settings) × (o ≡ some s) × (app ≡ s.ingest_type) × (secret ≡ s.secret))
    by_settings none = (λ e. cc, λ (s, e, _, _). cc e)
    by_settings (some s) = (
      λ e. (
        s,
        refl,
        ground (arith, str_eq_iff app s.ingest_type),
        ground (arith, str_eq_iff secret s.secret),
      ),
      λ (t, e, a, b). ground (arith, str_eq_iff app s.ingest_type, str_eq_iff secret s.secret),
    )
