-- ===== src/Upload/Registry.antt =====
-- `FileRegistry` (upload/file_registry.go): the body of its loop, one function for each case of the
-- `select`. Times are nanoseconds, with 0 for the zero `time.Time`. `closed` says which channels are
-- closed; `removed` are the paths given to `os.RemoveAll`, whose errors are only logged.
pub mod Lifetime
use stream_api.Base.{
  ℕ, ◌+◌, ◌*◌, Bool, true, false, Option, none, some, List, [], ◌∷◌, ◌++◌, Str, str_Eq,
  if◌then◌else◌, ltb, ◌==◌, map, ◌&&◌, is_some, not,
}
use stream_api.Base.Dict.{Dict, lookup, insert, remove}

pub record FileEntry : Type 0 where
  pub path : Str
  pub deadline : ℕ
  pub keep : Option ℕ

pub record RegistryConfig : Type 0 where
  pub expire_interval : ℕ
  pub keep_delay : ℕ

abbrev second : ℕ
second = 1000000000

pub record FileRegistry : Type 0 where
  pub config : RegistryConfig
  pub files : Dict Str FileEntry
  pub removed : List Str

abbrev or_default : ℕ → ℕ → ℕ
or_default n default = if n == 0 then default else n

unfoldable pub new_file_registry : RegistryConfig → FileRegistry
new_file_registry c = record {
  config = record {
    expire_interval = or_default c.expire_interval (5 * second);
    keep_delay = or_default c.keep_delay (10 * second);
  };
  files = [];
  removed = [];
}

-- `case new := <-r.add`: an entry without a channel does not replace one that has a channel.
drops_keep : FileEntry → Option FileEntry → Bool
drops_keep new none = false
drops_keep new (some old) = not (is_some new.keep) && is_some old.keep

unfoldable pub add : FileEntry → FileRegistry → FileRegistry
unfolding drops_keep lookup insert
add new r =
    if drops_keep new (lookup new.path r.files)
    then r
    else record r { files = insert new.path new r.files }

-- `RegisterFile` and `KeepFile`
unfoldable pub register_file : Str → ℕ → FileRegistry → FileRegistry
unfolding add
register_file path deadline r = add (record { path = path; deadline = deadline; keep = none }) r

unfoldable pub keep_file : Str → ℕ → FileRegistry → FileRegistry
unfolding add
keep_file path keep r = add (record { path = path; deadline = 0; keep = some keep }) r

-- `FileStatus`
unfoldable pub file_status : Str → FileRegistry → Option FileEntry
unfolding lookup
file_status path r = lookup path r.files

-- What `expire` does with one entry: it stays, is changed, or its file goes.
pub data Verdict : Type 0 where
  stay : Verdict
  change : FileEntry → Verdict
  expired : Verdict

module _ (closed : ℕ → Bool) (now : ℕ) (later : Str → ℕ) where
  -- `later path` is the clock when the entry's channel is found closed.
  pub judge : ℕ → FileEntry → Verdict
  judge keep_delay entry = elim entry.keep [
    | some channel ↦
        if closed channel
        then change (record entry { deadline = later entry.path + keep_delay; keep = none })
        else stay
    | none ↦ if ltb now entry.deadline then stay else expired
  ]

  carry_out : Str → Verdict → FileRegistry → FileRegistry
  unfolding insert remove
  carry_out path stay r = r
  carry_out path (change entry) r = record r { files = insert path entry r.files }
  carry_out path expired r = record r {
    files = remove path r.files;
    removed = r.removed ++ (path ∷ []);
  }

  -- The range over the map, as it was when the loop began.
  expire_loop : Dict Str FileEntry → FileRegistry → FileRegistry
  unfolding judge carry_out
  expire_loop [] r = r
  expire_loop ((path, entry) ∷ entries) r =
      expire_loop entries (carry_out path (judge r.config.keep_delay entry) r)

  unfoldable pub expire : FileRegistry → FileRegistry
  unfolding expire_loop
  expire r = expire_loop r.files r

remove_paths : Dict Str FileEntry → List Str
remove_paths [] = []
remove_paths ((path, _) ∷ entries) = path ∷ remove_paths entries

-- `case <-ctx.Done()`
unfoldable pub cleanup : FileRegistry → FileRegistry
unfolding remove_paths
cleanup r = record r { removed = r.removed ++ remove_paths r.files }
