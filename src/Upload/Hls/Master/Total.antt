-- ===== src/Upload/Hls/Master/Total.antt =====
-- `ParsePlaylist` of upload/hls.go is total on a parser that was not cleaned up.
use stream_api.Base.{
  ℕ, ◌≡◌, Bool, true, false, if◌then◌else◌, refl, Option, none, some, List, [], ◌∷◌, Str, str_eq,
  codes, ◌>>=◌, Runs, Runs-some, Runs-bind, Option-cases, Bool-cases, inl, inr, ◌⊎◌,
}
use stream_api.Base.FilePath.{join_path, dir, base}
use stream_api.Upload.M3u8.{Playlist, Library}
use stream_api.Upload.Hls.{HlsError, write_failed, Hls, keep_file, write_playlist}
use stream_api.Upload.Hls.Safe.{IsSafe, keep_file-IsSafe, IsSafe-fields}
use stream_api.Upload.Hls.Variant.Total.{process_variant-IsSafe}
use stream_api.Upload.Hls.Master.{
  fixup_codec_information, master_name, mark_language, filter_hd_resolutions, get_languages,
  master_loop, generate_language_masters, sd_masters, process_master, process_media, parse_playlist,
}

module _ (lib : Library) (held : ℕ → Type 0)
    (writes : (path text : Str) (disk : lib.Disk)
      → (r : Bool × lib.Disk) × (lib.write_file path text disk ≡ some r)) where
  open lib use {label_ok, write_file, write, is_master, read}

  abbrev Safe : Hls lib → Type 0
  Safe = IsSafe lib held

  abbrev Kept : Option HlsError × Hls lib → Type 0
  Kept r = Safe r.1

  abbrev KeptWith : Option HlsError × Playlist × Hls lib → Type 0
  KeptWith r = Safe r.2

  -- The end of a write: the file is kept if there was no error.
  written-IsSafe :
      (path : Str) (done : Bool) (s : Hls lib)
      → Safe s
      → Runs Kept (
          if done
          then (keep_file lib path s >>= λ after. some (none, after))
          else some (some (write_failed path), s))
  written-IsSafe path true s h =
      Runs-bind Safe Kept _ _ (keep_file-IsSafe lib held path s h) (λ after ha. Runs-some Kept _ ha)
  written-IsSafe path false s h = Runs-some Kept _ h

  write_playlist-IsSafe :
      (path : Str) (p : Playlist) (s : Hls lib) → Safe s → Runs Kept (write_playlist lib path p s)
  unfolding write_playlist
  write_playlist-IsSafe path p s h = elim (Option-cases (write p)) [
    | inl unprintable ↦ rw (unprintable, write_playlist) (Runs-some Kept _ h)
    | inr (text, printed) ↦
        let ((done, disk), written) = writes path text s.disk in
        rw (printed, written, write_playlist)
          (written-IsSafe path done (record s { disk = disk })
            (IsSafe-fields lib held s _ refl refl
              (record { same_subs = refl; same_base = refl; same_size = refl }) h))
  ]

  master_loop-IsSafe :
      (folder suffix : Str) (langs : List Str) (p : Playlist) (s : Hls lib)
      → Safe s
      → Runs KeptWith (master_loop lib folder suffix langs p s)
  unfolding master_loop
  master_loop-IsSafe folder suffix [] p s h = Runs-some KeptWith _ h
  master_loop-IsSafe folder suffix (lang ∷ langs) p s h =
      elim (Bool-cases (str_eq (master_name lang suffix) (codes "native_hd.m3u8"))) [
        | inl native ↦ rw native (master_loop-IsSafe folder suffix langs p s h)
        | inr other ↦ rw other (
            Runs-bind Kept KeptWith _ _
              (write_playlist-IsSafe (join_path (folder ∷ master_name lang suffix ∷ []))
                (mark_language lang p) s h)
              (after (mark_language lang p)
                (λ t ht. master_loop-IsSafe folder suffix langs (mark_language lang p) t ht)))
      ]
    where
      after :
          (marked : Playlist)
          → ((t : Hls lib) → Safe t → Runs KeptWith (master_loop lib folder suffix langs marked t))
          → (r : Option HlsError × Hls lib) → Kept r
          → Runs KeptWith (elim r.0 [
            | none ↦ master_loop lib folder suffix langs marked r.1
            | some e ↦ some (some e, marked, r.1)
          ])
      after marked go (none, t) ht = go t ht
      after marked go (some e, t) ht = Runs-some KeptWith _ ht

  generate_language_masters-IsSafe :
      (path suffix : Str) (p : Playlist) (s : Hls lib)
      → Safe s
      → Runs KeptWith (generate_language_masters lib path suffix p s)
  unfolding generate_language_masters
  generate_language_masters-IsSafe path suffix p s h =
      master_loop-IsSafe (dir path) suffix (get_languages p) p s h

  sd_masters-IsSafe :
      (path : Str) (p : Playlist) (s : Hls lib) → Safe s → Runs Kept (sd_masters lib path p s)
  unfolding sd_masters
  sd_masters-IsSafe path p s h = elim (Bool-cases (filter_hd_resolutions p).0) [
    | inr hd_only ↦ rw hd_only (Runs-some Kept _ h)
    | inl some_sd ↦ rw some_sd (
        Runs-bind KeptWith Kept _ _
          (generate_language_masters-IsSafe path (codes "sd") (filter_hd_resolutions p).1 s h)
          (λ r hr. Runs-some Kept _ hr))
  ]

  process_master-IsSafe :
      (path : Str) (p : Playlist) (s : Hls lib) → Safe s → Runs Kept (process_master lib path p s)
  unfolding process_master
  process_master-IsSafe path p s h =
      Runs-bind Kept Kept _ _ (write_playlist-IsSafe path (fixup_codec_information p) s h) first
    where
      second :
          (r : Option HlsError × Playlist × Hls lib)
          → KeptWith r
          → Runs Kept
              (elim r.0 [ some e ↦ some (some e, r.2) | none ↦ sd_masters lib path r.1 r.2 ])
      second (none, marked, t) ht = sd_masters-IsSafe path marked t ht
      second (some e, marked, t) ht = Runs-some Kept _ ht

      first :
          (r : Option HlsError × Hls lib)
          → Kept r
          → Runs Kept (elim r.0 [
            | some e ↦ some (some e, r.1)
            | none ↦
                generate_language_masters lib path (codes "hd") (fixup_codec_information p) r.1
                >>= λ r'. elim r'.0 [
                  | some e ↦ some (some e, r'.2)
                  | none ↦ sd_masters lib path r'.1 r'.2
                ]
          ])
      first (some e, t) ht = Runs-some Kept _ ht
      first (none, t) ht =
          Runs-bind KeptWith Kept _ _
            (generate_language_masters-IsSafe path (codes "hd") (fixup_codec_information p) t ht)
            second

  process_media-IsSafe :
      (path : Str) (p : Playlist) (s : Hls lib)
      → label_ok (base path) ≡ true
      → Safe s
      → Runs Kept (process_media lib path p s)
  unfolding process_media
  process_media-IsSafe path p s ok h =
      Runs-bind (λ (r : (HlsError ⊎ Playlist) × Hls lib). Safe r.1) Kept _ _
        (process_variant-IsSafe lib held path p s ok h) after
    where
      after :
          (r : (HlsError ⊎ Playlist) × Hls lib)
          → Safe r.1
          → Runs Kept
              (elim r.0 [ inl e ↦ some (some e, r.1) | inr out ↦ write_playlist lib path out r.1 ])
      after (inl e, t) ht = Runs-some Kept _ ht
      after (inr out, t) ht = write_playlist-IsSafe path out t ht

  -- If the file writer does not panic and the name of the playlist is a label that prometheus takes: on a parser that
  -- was not cleaned up, whose tracked channels are open and apart from those that others hold, which are open
  -- too, and whose playlists have room for an item, `ParsePlaylist` comes to a result for every content, without an
  -- index out of range, a write to a nil map, a refused label or a second close of a channel. It leaves such a
  -- parser, and the channels that others hold open and apart from its own.
  pub parse_playlist-IsSafe :
      (path : Str) (content : Option Str) (s : Hls lib)
      → label_ok (base path) ≡ true
      → IsSafe lib held s
      → Runs {A = Option HlsError × Hls lib}
          (λ r. IsSafe lib held r.1)
          (parse_playlist lib path content s)
  unfolding parse_playlist
  parse_playlist-IsSafe path content s ok h = elim (Option-cases (content >>= read)) [
    | inl unreadable ↦ rw (unreadable, parse_playlist) (Runs-some Kept _ h)
    | inr (p, parsed) ↦ elim (Bool-cases (is_master p)) [
      | inl master ↦ rw (parsed, master, parse_playlist) (process_master-IsSafe path p s h)
      | inr media ↦ rw (parsed, media, parse_playlist) (process_media-IsSafe path p s ok h)
    ]
  ]
