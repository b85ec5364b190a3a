-- ===== src/Upload/Auth/Sound.antt =====
-- Whom `StaticAuth` (upload/auth.go) lets in.
use mathlib.Core.List.{Memᴰ}
use mathlib.Core.Option.{some-injective}
use stream_api.Base.{
  ◌≡◌, refl, sym, ap, ◌∙◌, Bool, true, Option, none, some, List, [], ◌∷◌, ◌++◌, Str, str_Eq, str_eq,
  str_eq_iff, if◌then◌else◌, ◌==◌, drop, length, arith, Option-cases, Bool-cases, inl, inr,
}
use stream_api.Base.Dict.{lookup}
use stream_api.Base.Text.{has_prefix, split, Lacks}
use stream_api.Base.FilePath.{clean, slash, before_slash}
use stream_api.Upload.Auth.{
  StaticAuth, AuthConfigEntry, strip_allowed, rooted, second_part, check_path, check_slug, auth,
}

has_prefix_split : (s p : Str) → has_prefix s p ≡ true → s ≡ p ++ drop (length p) s
unfolding has_prefix
has_prefix_split s [] h = refl
has_prefix_split [] (p ∷ ps) h = cc
has_prefix_split (c ∷ s) (p ∷ ps) h = ground (arith, has_prefix_split s ps)

strip_allowed_lem :
    (dirs : List Str) (path rest : Str)
    → strip_allowed dirs path ≡ some rest
    → (dir : Str) × Memᴰ dir dirs × (path ≡ dir ++ rest)
unfolding strip_allowed
strip_allowed_lem [] path rest h = cc
strip_allowed_lem (d ∷ dirs) path rest h = elim (Bool-cases (has_prefix path d)) [
  | inl starts ↦
      let e : drop (length d) path ≡ rest = ground arith in
      (d, Memᴰ.head refl, has_prefix_split path d starts ∙ ap (λ (r : Str). d ++ r) e)
  | inr other ↦
      let (dir, m, e) = strip_allowed_lem dirs path rest (ground arith) in (dir, Memᴰ.tail m, e)
]

-- The first component of a path, which may begin with a slash.
abbrev pub first_component : Str → Str
first_component [] = []
first_component (c ∷ s) = if c == slash then before_slash s else before_slash (c ∷ s)

head_split : (s : Str) → (ps : List Str) × (split s slash ≡ before_slash s ∷ ps)
unfolding split
head_split [] = ([], refl)
head_split (c ∷ s) = elim (Bool-cases (c == slash)) [
  | inl same ↦ (split s slash, rw same)
  | inr other ↦ let (ps, e) = head_split s in (ps, ground arith)
]

-- A rooted path has a second part, its first component.
second_part-rooted :
    (rest : Str) → second_part (split (rooted rest) slash) ≡ some (first_component rest)
unfolding rooted second_part split
second_part-rooted [] = refl
second_part-rooted (c ∷ s) = elim (Bool-cases (c == slash)) [
  | inl same ↦ rw (same, same) (let (ps, e) = head_split s in ground arith)
  | inr other ↦ let (ps, e) = head_split (c ∷ s) in ground arith
]

before_slash-Lacks : (s : Str) → Lacks slash (before_slash s)
before_slash-Lacks [] = tt
before_slash-Lacks (c ∷ s) = elim (Bool-cases (c == slash)) [
  | inl same ↦ rw same tt
  | inr other ↦ rw other (ground arith, before_slash-Lacks s)
]

first_component-Lacks : (s : Str) → Lacks slash (first_component s)
first_component-Lacks [] = tt
first_component-Lacks (c ∷ s) = elim (Bool-cases (c == slash)) [
  | inl same ↦ rw same (before_slash-Lacks s)
  | inr other ↦ rw other (ground arith, before_slash-Lacks s)
]

module _ (matches : Str → Str → Bool) where
  -- The stream of a path, as the directories that are allowed and the user's pattern say.
  pub record IsAllowed (a : StaticAuth) (user pass path slug : Str) : Type 0 where
    pub entry : AuthConfigEntry
    pub known : lookup user a.conf ≡ some entry
    pub right_pass : pass ≡ entry.pass
    pub dir : Str
    pub rest : Str
    pub allowed : Memᴰ dir a.allowed_dirs
    pub inside : clean path ≡ dir ++ rest
    pub named : slug ≡ first_component rest
    pub matched : matches entry.match slug ≡ true

  check_path_lem :
      (a : StaticAuth) (entry : AuthConfigEntry) (path rest : Str)
      → strip_allowed a.allowed_dirs (clean path) ≡ some rest
      → check_path matches a entry path ≡ some (check_slug matches entry (first_component rest))
  unfolding check_path
  check_path_lem a entry path rest h = rw (h, check_path) (rw (second_part-rooted rest))

  check_slug_lem :
      (entry : AuthConfigEntry) (first slug : Str)
      → check_slug matches entry first ≡ some slug
      → (slug ≡ first) × (matches entry.match slug ≡ true)
  unfolding check_slug
  check_slug_lem entry first slug h = elim (Bool-cases (matches entry.match first)) [
    | inl fits ↦ (ground (arith, fits), ground (arith, fits))
    | inr differs ↦ absurd (ground (arith, differs))
  ]

  check_path_outside :
      (a : StaticAuth) (entry : AuthConfigEntry) (path : Str)
      → strip_allowed a.allowed_dirs (clean path) ≡ none
      → check_path matches a entry path ≡ some none
  unfolding check_path
  check_path_outside a entry path h = rw (h, check_path)

  check_path_ok :
      (a : StaticAuth) (user pass path slug : Str) (entry : AuthConfigEntry)
      → lookup user a.conf ≡ some entry
      → pass ≡ entry.pass
      → check_path matches a entry path ≡ some (some slug)
      → IsAllowed a user pass path slug
  check_path_ok a user pass path slug entry known right h =
      elim (Option-cases (strip_allowed a.allowed_dirs (clean path))) [
        | inl outside ↦ absurd (cc (check_path_outside a entry path outside))
        | inr (rest, stripped) ↦
            let (dir, m, e) = strip_allowed_lem a.allowed_dirs (clean path) rest stripped in
            let checked : check_slug matches entry (first_component rest) ≡ some slug =
              some-injective _ _ (sym (check_path_lem a entry path rest stripped) ∙ h) in
            let slug_ok = check_slug_lem entry (first_component rest) slug checked in
            record {
              entry = entry;
              known = known;
              right_pass = right;
              dir = dir;
              rest = rest;
              allowed = m;
              inside = e;
              named = slug_ok.0;
              matched = slug_ok.1;
            }
      ]

  auth_found :
      (a : StaticAuth) (user pass path : Str) (entry : AuthConfigEntry)
      → lookup user a.conf ≡ some entry
      → auth matches a user pass path
        ≡ (if str_eq pass entry.pass then check_path matches a entry path else some none)
  unfolding auth
  auth_found a user pass path entry h = rw (h, auth)

  auth_unknown :
      (a : StaticAuth) (user pass path : Str)
      → lookup user a.conf ≡ none
      → auth matches a user pass path ≡ some none
  unfolding auth
  auth_unknown a user pass path h = rw (h, auth)

  -- Who is let in for a slug is a known user with the right password, the cleaned path lies in an allowed
  -- directory, the slug is the first component behind that directory and holds no slash, and the user's
  -- pattern matches it.
  pub auth_sound :
      (a : StaticAuth) (user pass path slug : Str)
      → auth matches a user pass path ≡ some (some slug)
      → IsAllowed a user pass path slug × Lacks slash slug
  auth_sound a user pass path slug h = elim (Option-cases (lookup user a.conf)) [
    | inl unknown ↦ absurd (cc (auth_unknown a user pass path unknown))
    | inr (entry, known) ↦
        let found = auth_found a user pass path entry known in
        elim (Bool-cases (str_eq pass entry.pass)) [
          | inr wrong ↦ absurd (ground (arith, found, wrong))
          | inl right ↦
              let allowed =
                check_path_ok a user pass path slug entry known
                  ((str_eq_iff pass entry.pass).0 right) (ground (arith, found, right)) in
              (allowed, rw allowed.named (first_component-Lacks allowed.rest))
        ]
  ]

  check_path-Returns :
      (a : StaticAuth) (entry : AuthConfigEntry) (path : Str)
      → (r : Option Str) × (check_path matches a entry path ≡ some r)
  check_path-Returns a entry path =
      elim (Option-cases (strip_allowed a.allowed_dirs (clean path))) [
        | inl outside ↦ (none, check_path_outside a entry path outside)
        | inr (rest, inside) ↦ (
          check_slug matches entry (first_component rest),
          check_path_lem a entry path rest inside,
        )
      ]

  -- Every question of a user, a password and a path is answered without a panic.
  pub auth-Returns :
      (a : StaticAuth) (user pass path : Str)
      → (r : Option Str) × (auth matches a user pass path ≡ some r)
  unfolding auth
  auth-Returns a user pass path = elim (Option-cases (lookup user a.conf)) [
    | inl unknown ↦ (none, rw (unknown, auth) refl)
    | inr (entry, known) ↦ elim (Bool-cases (str_eq pass entry.pass)) [
      | inl same ↦ let (r, e) = check_path-Returns a entry path in (r, rw (known, same, auth) e)
      | inr wrong ↦ (none, rw (known, wrong, auth) refl)
    ]
  ]
