-- ===== src/Upload/Handler/Server/Answers.antt =====
-- Every request to the upload server is answered (upload/server.go).
use stream_api.Base.{
  ℕ, ◌<◌, ◌≡◌, true, refl, ap, ◌∙◌, Bool, Option, none, some, [], ◌∷◌, Str, str_eq, codes,
  Option-cases, inl, inr, Runs, Runs-some, Runs-bind, Runs-if,
}
use stream_api.Base.FilePath.{base, join_path}
use stream_api.Upload.M3u8.{Library}
use stream_api.Upload.Handler.{Handler, HandleError, validate}
use stream_api.Upload.Handler.Total.{IsSound, handle_file-IsSound, validate-IsSound}
use stream_api.Upload.Handler.Server.{
  Request, Response, host_of, authenticate, serve_method, serve_valid, serve_authorised,
  handle_upload, is_upload,
}

abbrev pub upload_path : Str → Request → Str
upload_path output_path req = join_path (output_path ∷ req.path ∷ [])

module _ (lib : Library) (auth : Str → Str → Str → Option (Option Str)) (output_path : Str)
    (req : Request) where
  -- Prometheus takes the slug and the name of the file as labels, if the request is authorised.
  abbrev pub HasLabels : Type 0
  HasLabels =
      (slug : Str)
      → authenticate auth req ≡ some (some slug)
      → (lib.label_ok slug ≡ true) × (lib.label_ok (base (upload_path output_path req)) ≡ true)

module _ (lib : Library) (copier : Str → Str → Bool → lib.Disk → Option (Bool × lib.Disk))
    (buffer : ℕ) (split_host : Str → Option Str) (auth : Str → Str → Str → Option (Option Str))
    (output_path : Str) (req : Request) (now : ℕ) where
  abbrev Answers : Response × Handler lib copier buffer → Type 0
  Answers r = IsSound lib copier buffer r.1

  module _ (enough : 0 < buffer)
      (copies : (path bytes : Str) (broken : Bool) (disk : lib.Disk)
        → (r : Bool × lib.Disk) × (copier path bytes broken disk ≡ some r))
      (writes : (path text : Str) (disk : lib.Disk)
        → (r : Bool × lib.Disk) × (lib.write_file path text disk ≡ some r)) where
    serve_method-Runs :
        (slug path : Str) (h : Handler lib copier buffer)
        → lib.label_ok slug ≡ true
        → lib.label_ok (base path) ≡ true
        → IsSound lib copier buffer h
        → Runs Answers
            (serve_method lib copier buffer split_host auth output_path req now slug path h)
    unfolding serve_method
    serve_method-Runs slug path h slug_ok name_ok sound =
        Runs-if Answers (is_upload req.method) _ _
          (Runs-bind
            (λ (r : Option HandleError × Handler lib copier buffer). IsSound lib copier buffer r.1)
            Answers _ _
            (handle_file-IsSound lib copier buffer enough copies writes req.body now slug path h
              slug_ok name_ok sound)
            (λ r kept. Runs-some Answers _ kept))
          (Runs-if Answers (str_eq req.method (codes "DELETE")) _ _ (Runs-some Answers _ sound)
            (Runs-some Answers _ sound))

    serve_valid-Runs :
        (slug host : Str) (h : Handler lib copier buffer)
        → lib.label_ok slug ≡ true
        → lib.label_ok (base (upload_path output_path req)) ≡ true
        → IsSound lib copier buffer h
        → Runs Answers
            (serve_valid lib copier buffer split_host auth output_path req now slug host h)
    unfolding serve_valid
    serve_valid-Runs slug host h slug_ok name_ok sound =
        let kept = validate-IsSound lib copier buffer slug host now h sound in
        elim (Option-cases (validate lib copier buffer slug host now h).0) [
          | inl accepted ↦
              rw (accepted, serve_valid)
                (serve_method-Runs slug (upload_path output_path req) _ slug_ok name_ok kept)
          | inr (e, refused) ↦ rw (refused, serve_valid) (Runs-some Answers _ kept)
        ]

    serve_authorised-Runs :
        (slug : Option Str) (h : Handler lib copier buffer)
        → ((granted : Str)
            → slug ≡ some granted
            → (lib.label_ok granted ≡ true)
              × (lib.label_ok (base (upload_path output_path req)) ≡ true))
        → IsSound lib copier buffer h
        → Runs Answers
            (serve_authorised lib copier buffer split_host auth output_path req now slug h)
    unfolding serve_authorised
    serve_authorised-Runs none h labels sound = Runs-some Answers _ sound
    serve_authorised-Runs (some slug) h labels sound =
        elim (Option-cases (host_of split_host req)) [
          | inl unknown ↦ rw (unknown, serve_authorised) (Runs-some Answers _ sound)
          | inr (host, known) ↦
              rw (known, serve_authorised)
                (serve_valid-Runs slug host h (labels slug refl).0 (labels slug refl).1 sound)
        ]

    authenticate_lem :
        ((user pass path : Str) → (slug : Option Str) × (auth user pass path ≡ some slug))
        → (slug : Option Str) × (authenticate auth req ≡ some slug)
    unfolding authenticate
    authenticate_lem authorises = elim (Option-cases req.credentials) [
      | inl anonymous ↦ (none, rw (anonymous, authenticate) refl)
      | inr ((user, pass), given) ↦
          let (slug, e) = authorises user pass req.path in (slug, rw (given, authenticate) e)
    ]

    -- If no call of the authorisation or of the file writers panics, the read buffer is not empty and prometheus takes the
    -- labels, then the request is answered without a panic of the server: from streams that own their
    -- channels, and playlists with room for an item, it leaves such streams and playlists.
    pub handle_upload-Runs :
        ((user pass path : Str) → (slug : Option Str) × (auth user pass path ≡ some slug))
        → HasLabels lib auth output_path req
        → (h : Handler lib copier buffer) → IsSound lib copier buffer h
        → Runs {A = Response × Handler lib copier buffer}
            (λ r. IsSound lib copier buffer r.1)
            (handle_upload lib copier buffer split_host auth output_path req now h)
    unfolding handle_upload
    handle_upload-Runs authorises labels h sound =
        let (slug, granted) = authenticate_lem authorises in
        rw granted (serve_authorised-Runs slug h (λ x e. labels x (granted ∙ ap some e)) sound)
