-- ===== src/Upload/Writer/Atomic.antt =====
-- A reader of a path never sees a part of a file (upload/writer.go).
use stream_api.Base.{
  Runs, Runs-some, ◌≡◌, ◌≢◌, ◌⊎◌, ap, Bool, true, false, none, some, [], Str, str_Eq, str_eq,
  str_eq_iff, codes, if◌then◌else◌, ◌&&◌, ◌||◌, arith, length, length-append, Bool-cases, inl, inr,
  not, Option,
}
use stream_api.Base.Dict.{lookup, insert, remove, lookup-insert, lookup-remove}
use stream_api.Upload.Writer.{
  Faults, Files, tmp_path, open_file, write_data, copy_data, move, clean_up, finish, write_file,
  copy_file,
}

tmp_path-ne : (path : Str) → tmp_path path ≢ path
unfolding tmp_path
tmp_path-ne path e = omega (arith, ap length e, length-append path (codes ".tmp"))

-- What a write leaves at any path: at the temporary one `left`; at the path itself the whole text, or
-- what was there if the write failed; elsewhere what was there.
abbrev pub IsAtomic : Str → Str → Option Str → Files → Bool → Files → Type 0
IsAtomic path text left before failed after =
    (q : Str)
    → lookup q after ≡ (
        if str_eq (tmp_path path) q
        then left
        else if str_eq path q && not failed
        then some text
        else lookup q before)

-- A result of a write: whether it failed, and the files.
abbrev pub Leaves : Str → Str → Option Str → Files → Bool → Bool × Files → Type 0
Leaves path text left before failed r = (r.0 ≡ failed) × IsAtomic path text left before r.0 r.1

-- What is at the temporary path after a write: its data, if there was an error and the removal failed too.
abbrev pub leftover : Faults → Bool → Str → Option Str
leftover f failed data' = if failed && f.remove_fails then some data' else none

-- The data of a temporary file: the whole text, or a part of it if its write failed.
abbrev pub written : Faults → Str → Str
written f text = if f.write_fails then f.partial else text

module _ (f : Faults) (path : Str) (before : Files) where
  abbrev opened : Files
  opened = insert (tmp_path path) [] before

  -- What is at a path after the data went to the temporary file and was moved or removed.
  finish-lookup :
      (failed : Bool) (data' : Str) (q : Str)
      → let r = finish f (tmp_path path) path (failed, insert (tmp_path path) data' opened) in
        (r.0 ≡ (failed || f.rename_fails))
        × (lookup q r.1 ≡ (
            if str_eq (tmp_path path) q
            then leftover f (failed || f.rename_fails) data'
            else if str_eq path q && not r.0
            then some data'
            else lookup q before))
  unfolding finish move clean_up
  finish-lookup failed data' q = ground (
    arith,
    lookup-insert (tmp_path path) (tmp_path path) data' opened,
    lookup-insert (tmp_path path) q data' opened,
    lookup-insert (tmp_path path) q [] before,
    lookup-remove (tmp_path path) q (insert (tmp_path path) data' opened),
    lookup-insert path q data' (remove (tmp_path path) (insert (tmp_path path) data' opened)),
    str_eq_iff (tmp_path path) (tmp_path path),
    str_eq_iff (tmp_path path) q,
    str_eq_iff path q,
    tmp_path-ne path,
  )

  finish-Leaves :
      (failed : Bool) (data' text : Str)
      → (failed ≡ false → data' ≡ text)
      → Leaves path text
          (leftover f (failed || f.rename_fails) data')
          before
          (failed || f.rename_fails)
          (finish f (tmp_path path) path (failed, insert (tmp_path path) data' opened))
  finish-Leaves failed data' text same =
      ((finish-lookup failed data' path).0, λ q. ground (arith, finish-lookup failed data' q, same))

open_file_fails :
    (f : Faults) (path : Str) (files : Files)
    → (f.mkdir_fails || f.open_fails) ≡ true
    → (open_file f path files).0 ≡ false
unfolding open_file
open_file_fails f path files h = ground arith

open_file_ok :
    (f : Faults) (path : Str) (files : Files)
    → (f.mkdir_fails || f.open_fails) ≡ false
    → open_file f path files ≡ (true, tmp_path path, insert (tmp_path path) [] files)
unfolding open_file
open_file_ok f path files h = ground arith

-- The errors of a write after the file was opened.
abbrev pub write_error : Faults → Bool
write_error f = (f.write_fails || f.close_fails) || f.rename_fails

-- Writing a file either panics, exactly if the directory cannot be made or the temporary file not be
-- opened, or comes to a result: an error exactly if the write, the close or the rename fails; the whole text at the
-- path if there is none, and the path as it was if there is one; the temporary file only if there is an error and it
-- cannot be removed, with what was written of the text; all else as it was.
pub write_file-IsAtomic :
    (f : Faults) (path text : Str) (files : Files)
    → (((f.mkdir_fails || f.open_fails) ≡ true) × (write_file f path text files ≡ none))
      ⊎ (((f.mkdir_fails || f.open_fails) ≡ false)
          × Runs
              (Leaves path text (leftover f (write_error f) (written f text)) files (write_error f))
              (write_file f path text files))
unfolding write_file write_data
write_file-IsAtomic f path text files = elim (Bool-cases (f.mkdir_fails || f.open_fails)) [
  | inl h ↦ inl (h, rw (open_file_fails f path files h, write_file))
  | inr h ↦ inr (
    h,
    rw (open_file_ok f path files h, write_file)
        (Runs-some _ _ (
          finish-Leaves f path files (f.write_fails || f.close_fails) (written f text) text
            (λ h. ground arith))),
  )
]

abbrev pub copy_error : Faults → Bool → Bool
copy_error f source_fails = ((source_fails || f.write_fails) || f.close_fails) || f.rename_fails

-- The same of copying a request's body, where a body that fails is an error too: a body that did not
-- arrive whole never gets to the path.
pub copy_file-IsAtomic :
    (f : Faults) (path text : Str) (source_fails : Bool) (files : Files)
    → (((f.mkdir_fails || f.open_fails) ≡ true) × (copy_file f path text source_fails files ≡ none))
      ⊎ (((f.mkdir_fails || f.open_fails) ≡ false)
          × Runs
              (Leaves path text
                (leftover f (copy_error f source_fails) (written f text))
                files
                (copy_error f source_fails))
              (copy_file f path text source_fails files))
unfolding copy_file copy_data
copy_file-IsAtomic f path text source_fails files =
    elim (Bool-cases (f.mkdir_fails || f.open_fails)) [
      | inl h ↦ inl (h, rw (open_file_fails f path files h, copy_file))
      | inr h ↦ inr (
        h,
        rw (open_file_ok f path files h, copy_file)
            (Runs-some _ _ (
              finish-Leaves f path files ((source_fails || f.write_fails) || f.close_fails)
                (written f text) text (λ h. ground arith))),
      )
    ]
