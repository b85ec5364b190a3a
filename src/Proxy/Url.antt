-- ===== src/Proxy/Url.antt =====
-- `singleJoiningSlash` and `joinURLPath` (cmd/upload-proxy/proxy.go). `URL.EscapedPath` of the package
-- net/url is the parameter `escaped_path`.
pub mod Slash
use stream_api.Base.{
  ℕ, Bool, true, false, List, [], ◌∷◌, ◌++◌, Str, str_eq, codes, if◌then◌else◌, ◌&&◌, drop,
}
use stream_api.Base.FilePath.{slash}
use stream_api.Base.Text.{has_prefix, has_suffix}

pub record Url : Type 0 where
  pub scheme : Str
  pub host : Str
  pub path : Str
  pub raw_path : Str

abbrev ends_with_slash : Str → Bool
ends_with_slash s = has_suffix s (codes "/")

abbrev starts_with_slash : Str → Bool
starts_with_slash s = has_prefix s (codes "/")

unfoldable pub single_joining_slash : Str → Str → Str
unfolding has_suffix has_prefix
single_joining_slash a b =
    if ends_with_slash a
    then (if starts_with_slash b then a ++ drop 1 b else a ++ b)
    else (if starts_with_slash b then a ++ b else a ++ (slash ∷ b))

-- `b[1:]` of an empty text is out of range in Go; here the text starts with a slash.
join_by : Bool → Bool → Str → Str → Str
join_by true true a b = a ++ drop 1 b
join_by false false a b = a ++ (slash ∷ b)
join_by true false a b = a ++ b
join_by false true a b = a ++ b

module _ (escaped_path : Url → Str) where
  unfoldable pub join_url_path : Url → Url → Str × Str
  unfolding single_joining_slash join_by has_suffix has_prefix
  join_url_path a b =
      if str_eq a.raw_path [] && str_eq b.raw_path []
      then (single_joining_slash a.path b.path, [])
      else (let apath = escaped_path a in
          let bpath = escaped_path b in
          let aslash = ends_with_slash apath in
          let bslash = starts_with_slash bpath in
          (join_by aslash bslash a.path b.path, join_by aslash bslash apath bpath))
