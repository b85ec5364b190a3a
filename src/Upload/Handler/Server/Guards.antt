-- ===== src/Upload/Handler/Server/Guards.antt =====
-- What a request has to pass before it changes anything (upload/server.go).
use stream_api.Base.{
  ℕ, ◌≡◌, ◌≢◌, ◌⊎◌, refl, Bool, true, Option, none, some, [], ◌∷◌, Str, str_eq, codes, Ensures,
  Ensures-bind, Ensures-some, Bool-cases, inl, inr, Option-cases,
}
use stream_api.Base.FilePath.{join_path}
use stream_api.Upload.M3u8.{Library}
use stream_api.Upload.Handler.{Handler, validate, handle_file, HandleError}
use stream_api.Upload.Handler.Server.{
  Request, Response, unauthorized, handle_upload, host_of, authenticate, serve_authorised,
  serve_valid, serve_method, respond, is_upload,
}

module _ (lib : Library) (copier : Str → Str → Bool → lib.Disk → Option (Bool × lib.Disk))
    (buffer : ℕ) (split_host : Str → Option Str) (auth : Str → Str → Str → Option (Option Str))
    (output_path : Str) (req : Request) (now : ℕ) where
  abbrev upload_path : Str
  upload_path = join_path (output_path ∷ req.path ∷ [])

  -- The request is handled as a file: it is an upload, with a slug that the credentials give, from a
  -- host that the stream of the slug accepts.
  pub record IsAdmitted (h : Handler lib copier buffer) (r : Response × Handler lib copier buffer)
      : Type 0 where
    pub slug : Str
    pub host : Str
    pub failure : Option HandleError
    pub granted : authenticate auth req ≡ some (some slug)
    pub sent_by : host_of split_host req ≡ some host
    pub accepted : (validate lib copier buffer slug host now h).0 ≡ none
    pub upload : is_upload req.method ≡ true
    pub handled :
        handle_file lib copier buffer req.body now slug upload_path
          (validate lib copier buffer slug host now h).1
        ≡ some (failure, r.1)
    pub answer : r.0 ≡ respond lib copier buffer split_host auth output_path failure

  -- The request is answered 401 and changes nothing.
  abbrev pub IsRejected : Handler lib copier buffer → Response × Handler lib copier buffer → Type 0
  IsRejected h r = (authenticate auth req ≡ some none) × (r ≡ (unauthorized, h))

  -- The request has a slug, and changes no file and no entry of the registry.
  abbrev pub IsIgnored : Handler lib copier buffer → Response × Handler lib copier buffer → Type 0
  IsIgnored h (r, h') =
      (authenticate auth req ≢ some none) × (h'.disk ≡ h.disk) × (h'.registry ≡ h.registry)

  abbrev pub IsGuarded : Handler lib copier buffer → Response × Handler lib copier buffer → Type 0
  IsGuarded h r = IsRejected h r ⊎ (IsIgnored h r ⊎ IsAdmitted h r)

  validate_keeps :
      (slug host : Str) (h : Handler lib copier buffer)
      → let r = validate lib copier buffer slug host now h in
        (r.1.disk ≡ h.disk) × (r.1.registry ≡ h.registry)
  unfolding validate
  validate_keeps slug host h = (refl, refl)

  serve_method-IsGuarded :
      (slug host : Str) (h : Handler lib copier buffer)
      → authenticate auth req ≡ some (some slug)
      → host_of split_host req ≡ some host
      → (validate lib copier buffer slug host now h).0 ≡ none
      → Ensures (IsGuarded h) (
          serve_method lib copier buffer split_host auth output_path req now slug upload_path
            (validate lib copier buffer slug host now h).1)
  unfolding serve_method
  serve_method-IsGuarded slug host h ha hh hv =
      let (disk, registry) = validate_keeps slug host h in
      elim (Bool-cases (is_upload req.method)) [
        | inl upload ↦ rw upload (
            Ensures-bind (IsGuarded h)
              (handle_file lib copier buffer req.body now slug upload_path
                (validate lib copier buffer slug host now h).1)
              _
              (λ r handled. Ensures-some (IsGuarded h) _ (
                inr (
                  inr (record {
                    slug = slug;
                    host = host;
                    failure = r.0;
                    granted = ha;
                    sent_by = hh;
                    accepted = hv;
                    upload = upload;
                    handled = handled;
                    answer = refl;
                  })))))
        | inr other ↦ elim (Bool-cases (str_eq req.method (codes "DELETE"))) [
          | inl deleted ↦
              rw (other, deleted)
                (Ensures-some (IsGuarded h) _ (inr (inl (λ e. cc, disk, registry))))
          | inr unknown ↦
              rw (other, unknown)
                (Ensures-some (IsGuarded h) _ (inr (inl (λ e. cc, disk, registry))))
        ]
      ]

  serve_valid-IsGuarded :
      (slug host : Str) (h : Handler lib copier buffer)
      → authenticate auth req ≡ some (some slug)
      → host_of split_host req ≡ some host
      → Ensures
          (IsGuarded h)
          (serve_valid lib copier buffer split_host auth output_path req now slug host h)
  unfolding serve_valid
  serve_valid-IsGuarded slug host h ha hh =
      let (disk, registry) = validate_keeps slug host h in
      elim (Option-cases (validate lib copier buffer slug host now h).0) [
        | inl accepted ↦
            rw (accepted, serve_valid) (serve_method-IsGuarded slug host h ha hh accepted)
        | inr (e, refused) ↦
            rw (refused, serve_valid)
              (Ensures-some (IsGuarded h) _ (inr (inl (λ e. cc, disk, registry))))
      ]

  serve_granted-IsGuarded :
      (slug : Str) (h : Handler lib copier buffer)
      → authenticate auth req ≡ some (some slug)
      → Ensures
          (IsGuarded h)
          (serve_authorised lib copier buffer split_host auth output_path req now (some slug) h)
  unfolding serve_authorised
  serve_granted-IsGuarded slug h ha = elim (Option-cases (host_of split_host req)) [
    | inl unknown ↦
        rw (unknown, serve_authorised)
          (Ensures-some (IsGuarded h) _ (inr (inl (λ e. cc, refl, refl))))
    | inr (host, known) ↦ rw (known, serve_authorised) (serve_valid-IsGuarded slug host h ha known)
  ]

  serve_authorised-IsGuarded :
      (slug : Option Str) (h : Handler lib copier buffer)
      → authenticate auth req ≡ some slug
      → Ensures
          (IsGuarded h)
          (serve_authorised lib copier buffer split_host auth output_path req now slug h)
  unfolding serve_authorised
  serve_authorised-IsGuarded none h ha = Ensures-some (IsGuarded h) _ (inl (ha, refl))
  serve_authorised-IsGuarded (some slug) h ha = serve_granted-IsGuarded slug h ha

  handle_upload-Ensures :
      (h : Handler lib copier buffer)
      → Ensures
          (IsGuarded h)
          (handle_upload lib copier buffer split_host auth output_path req now h)
  unfolding handle_upload
  handle_upload-Ensures h =
      Ensures-bind (IsGuarded h) (authenticate auth req) _
        (λ slug ha. serve_authorised-IsGuarded slug h ha)

  -- Every request that comes to an answer is of one of three kinds. Without authorisation it is
  -- answered 401 and changes nothing at all. Otherwise it is handled as a file, after all of the checks
  -- and with the answer that the handling gives, or it changes neither a file nor the registry.
  pub handle_upload-IsGuarded :
      (h : Handler lib copier buffer) (r : Response × Handler lib copier buffer)
      → handle_upload lib copier buffer split_host auth output_path req now h ≡ some r
      → IsGuarded h r
  handle_upload-IsGuarded h r e = (handle_upload-Ensures h).holds r e
