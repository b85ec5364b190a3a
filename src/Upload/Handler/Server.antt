-- ===== src/Upload/Handler/Server.antt =====
-- `Server.HandleUpload` and `authenticate` (upload/server.go). `net.SplitHostPort` is the parameter
-- `split_host`, and `auth` is the `Auth` that the server is given.
pub mod Guards
pub mod Answers
pub mod Run
pub mod Sound
use stream_api.Base.{
  ℕ, Bool, true, false, Option, none, some, List, [], ◌∷◌, Str, str_eq, codes, if◌then◌else◌, ◌>>=◌,
  ◌||◌,
}
use stream_api.Base.FilePath.{join_path}
use stream_api.Base.Text.{split}
use stream_api.Upload.M3u8.{Library}
use stream_api.Upload.Stream.{StreamError}
use stream_api.Upload.Handler.{Body, HandleError, Handler, handle_file, validate}

pub record Request : Type 0 where
  pub method : Str
  pub path : Str
  pub credentials : Option (Str × Str)
  pub forwarded_for : List Str
  pub remote_addr : Str
  pub body : Body

pub data Response : Type 0 where
  ok : Response
  unauthorized : Response
  bad_address : Response
  blocked : StreamError → Response
  failed : HandleError → Response
  method_not_allowed : Response

abbrev pub status : Response → ℕ
status ok = 200
status unauthorized = 401
status bad_address = 500
status (blocked _) = 403
status (failed _) = 500
status method_not_allowed = 405

-- `strings.Split(s, ",")[0]`; a split has a part.
first_part : List Str → Str
first_part [] = []
first_part (p ∷ _) = p

module _ (split_host : Str → Option Str) where
  -- `Header.Get` is the first value, and empty if there is none.
  pub host_of : Request → Option Str
  unfolding first_part split
  host_of req = elim req.forwarded_for [
    | [] ↦ split_host req.remote_addr
    | value ∷ _ ↦
        if str_eq value [] then split_host req.remote_addr else some (first_part (split value b','))
  ]

abbrev pub is_upload : Str → Bool
is_upload method = str_eq method (codes "PUT") || str_eq method (codes "POST")

module _ (auth : Str → Str → Str → Option (Option Str)) where
  unfoldable pub authenticate : Request → Option (Option Str)
  authenticate req = elim req.credentials [
    | none ↦ some none
    | some (user, pass) ↦ auth user pass req.path
  ]

module _ (lib : Library) (copier : Str → Str → Bool → lib.Disk → Option (Bool × lib.Disk))
    (buffer : ℕ) (split_host : Str → Option Str) (auth : Str → Str → Str → Option (Option Str))
    (output_path : Str) where
  abbrev pub respond : Option HandleError → Response
  respond none = ok
  respond (some e) = failed e

  serve_method :
      Request
      → ℕ
      → Str
      → Str
      → Handler lib copier buffer
      → Option (Response × Handler lib copier buffer)
  unfolding handle_file
  serve_method req now slug path h =
      let upload = (do
        (failure, h') ← handle_file lib copier buffer req.body now slug path h
        some (respond failure, h')) in
      if is_upload req.method
      then upload
      else if str_eq req.method (codes "DELETE")
      then some (ok, h)
      else some (method_not_allowed, h)

  serve_valid :
      Request
      → ℕ
      → Str
      → Str
      → Handler lib copier buffer
      → Option (Response × Handler lib copier buffer)
  unfolding validate join_path serve_method
  serve_valid req now slug host h =
      let (refused, h') = validate lib copier buffer slug host now h in
      elim refused [
        | some e ↦ some (blocked e, h')
        | none ↦ serve_method req now slug (join_path (output_path ∷ req.path ∷ [])) h'
      ]

  serve_authorised :
      Request
      → ℕ
      → Option Str
      → Handler lib copier buffer
      → Option (Response × Handler lib copier buffer)
  unfolding host_of serve_valid
  serve_authorised req now none h = some (unauthorized, h)
  serve_authorised req now (some slug) h = elim (host_of split_host req) [
    | none ↦ some (bad_address, h)
    | some host ↦ serve_valid req now slug host h
  ]

  unfoldable pub handle_upload :
      Request → ℕ → Handler lib copier buffer → Option (Response × Handler lib copier buffer)
  unfolding authenticate serve_authorised
  handle_upload req now h = do slug ← authenticate auth req; serve_authorised req now slug h
