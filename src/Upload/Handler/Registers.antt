-- ===== src/Upload/Handler/Registers.antt =====
-- What an upload leaves in the registry (upload/handler.go).
use stream_api.Base.{
  ℕ, ◌+◌, ◌*◌, ◌<◌, ◌≡◌, refl, Bool, false, Option, none, some, Str, str_eq, str_eq_iff, codes,
  arith, ◌>>=◌, Bool-cases, inl, inr, if◌then◌else◌,
}
use stream_api.Base.FilePath.{dir, ext}
use stream_api.Upload.M3u8.{Library}
use stream_api.Upload.Registry.{FileEntry, FileRegistry, add, keep_file, register_file, file_status}
use stream_api.Upload.Registry.Lifetime.{status-add, has_keep}
use stream_api.Upload.Stream.{Stream}
use stream_api.Upload.Store.{get_stream}
use stream_api.Upload.Reader.{outcome, read_all_lem}
use stream_api.Upload.Handler.{
  Handler, copy_failed, Body, delivered, delivered_as, handle_file, handle_known, copy_segment,
  is_thumbnail, second,
}

-- What arrives of a body behind the limit.
pub delivered_lem :
    (buffer limit : ℕ) (body : Body)
    → 0 < buffer
    → delivered buffer limit body ≡ some (delivered_as body (outcome body.eager limit body.text))
unfolding delivered
delivered_lem buffer limit body h = rw (read_all_lem buffer limit body.eager body.text h) refl

module _ (lib : Library) (copier : Str → Str → Bool → lib.Disk → Option (Bool × lib.Disk))
    (buffer : ℕ) (body : Body) (now : ℕ) (slug path : Str) (s : Stream)
    (h : Handler lib copier buffer) where
  abbrev thumbnail_entry : FileEntry
  thumbnail_entry = record { path = path; deadline = 0; keep = some s.alive }

  abbrev segment_entry : FileEntry
  segment_entry = record { path = path; deadline = now + 30 * second; keep = none }

  abbrev folder : FileRegistry
  folder = keep_file (dir path) s.alive h.registry

  -- The registry after a file that is no playlist.
  abbrev registered_file : FileRegistry
  registered_file =
      register_file path (now + 30 * second)
        (if is_thumbnail path then keep_file path s.alive folder else folder)

  abbrev received : Str × Bool
  received = delivered_as body (outcome body.eager h.max_segment_size body.text)

  registered_status : file_status path registered_file ≡ (
      if is_thumbnail path
      then some thumbnail_entry
      else if has_keep (file_status path folder)
      then file_status path folder
      else some segment_entry)
  unfolding register_file keep_file
  registered_status = ground (
    arith,
    status-add segment_entry path folder,
    status-add thumbnail_entry path folder,
    status-add segment_entry path (add thumbnail_entry folder),
    str_eq_iff path path,
  )

  -- A file that is no playlist, for a stream that is known, is copied to its path with the bytes that
  -- came, whether they are cut or not; the answer is an error exactly if the copy fails. In the registry a
  -- thumbnail lives as long as the stream; another file has half a minute from now on, unless its path
  -- is kept already. The stream itself is as before.
  pub handle_file_segment :
      0 < buffer
      → get_stream slug h.store ≡ some s
      → str_eq (ext path) (codes ".m3u8") ≡ false
      → str_eq (ext path) (codes ".mpd") ≡ false
      → (handle_file lib copier buffer body now slug path h ≡ (
          copier path received.0 received.1 h.disk >>= λ r. some (
            if r.0 then some copy_failed else none,
            record h { registry = registered_file; disk = r.1 },
          )))
        × (file_status path registered_file ≡ (
            if is_thumbnail path
            then some thumbnail_entry
            else if has_keep (file_status path folder)
            then file_status path folder
            else some segment_entry))
  unfolding handle_file handle_known copy_segment
  handle_file_segment hb known m3u8 mpd = (rw (known, handle_file) copied, registered_status)
    where
      copied : handle_known lib copier buffer body now slug path s h ≡ (
          copier path received.0 received.1 h.disk >>= λ r. some (
            if r.0 then some copy_failed else none,
            record h { registry = registered_file; disk = r.1 },
          ))
      copied = elim (Bool-cases (is_thumbnail path)) [
        | inl thumb ↦ rw (m3u8, mpd, thumb, delivered_lem buffer h.max_segment_size body hb) refl
        | inr other ↦ rw (m3u8, mpd, other, delivered_lem buffer h.max_segment_size body hb) refl
      ]
