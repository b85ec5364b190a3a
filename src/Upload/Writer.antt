-- ===== src/Upload/Writer.antt =====
-- `AtomicWriter` (upload/writer.go) on the files of a directory tree. A call of `os` fails where the
-- record `Faults` says so. `none` is the panic of a method call on a nil file.
pub mod Atomic
use stream_api.Base.{
  ℕ, Bool, true, false, Option, none, some, List, [], ◌∷◌, ◌++◌, Str, str_Eq, codes, if◌then◌else◌,
  ◌&&◌, ◌||◌,
}
use stream_api.Base.Dict.{Dict, lookup, insert, remove}

pub record Faults : Type 0 where
  pub mkdir_fails : Bool
  pub open_fails : Bool
  pub write_fails : Bool
  pub close_fails : Bool
  pub rename_fails : Bool
  pub remove_fails : Bool
  pub partial : Str

abbrev pub Files : Type 0
Files = Dict Str Str

unfoldable pub tmp_path : Str → Str
tmp_path path = path ++ codes ".tmp"

-- `open`: whether there is a file, the path to clean up, and the files, with an empty one.
open_file : Faults → Str → Files → Bool × Str × Files
unfolding tmp_path insert
open_file f path files =
    if f.mkdir_fails
    then (false, [], files)
    else (if f.open_fails
        then (false, [], files)
        else (true, tmp_path path, insert (tmp_path path) [] files))

-- `write`: the error of `Write`, else that of `Close`.
write_data : Faults → Str → Str → Files → Bool × Files
unfolding insert
write_data f tmp text files =
    (f.write_fails || f.close_fails, insert tmp (if f.write_fails then f.partial else text) files)

-- `copy`: the reader delivers `text` and may then fail.
copy_data : Faults → Str → Str → Bool → Files → Bool × Files
unfolding insert
copy_data f tmp text source_fails files = (
  (source_fails || f.write_fails) || f.close_fails,
  insert tmp (if f.write_fails then f.partial else text) files,
)

-- `os.Rename`
move : Str → Str → Option Str → Files → Files
unfolding insert remove
move tmp path none files = files
move tmp path (some text) files = insert path text (remove tmp files)

-- `os.Remove`, whose error is dropped
clean_up : Faults → Str → Files → Files
unfolding remove
clean_up f tmp files = if f.remove_fails then files else remove tmp files

-- After the data: the rename, and the deferred removal if there was an error.
finish : Faults → Str → Str → Bool × Files → Bool × Files
unfolding move lookup clean_up
finish f tmp path (failed, files) =
    if failed
    then (true, clean_up f tmp files)
    else (if f.rename_fails
        then (true, clean_up f tmp files)
        else (false, move tmp path (lookup tmp files) files))

-- Whether there was an error, and the files.
unfoldable pub write_file : Faults → Str → Str → Files → Option (Bool × Files)
unfolding open_file write_data finish
write_file f path text files =
    let (opened, tmp, files') = open_file f path files in
    if opened then some (finish f tmp path (write_data f tmp text files')) else none

unfoldable pub copy_file : Faults → Str → Str → Bool → Files → Option (Bool × Files)
unfolding open_file copy_data finish
copy_file f path text source_fails files =
    let (opened, tmp, files') = open_file f path files in
    if opened then some (finish f tmp path (copy_data f tmp text source_fails files')) else none
