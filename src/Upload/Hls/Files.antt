-- ===== src/Upload/Hls/Files.antt =====
-- The keep channels of upload/hls.go: `keepFile`, `expireFile` and `Cleanup` never close a channel
-- twice.
use stream_api.Base.{
  ℕ, ◌≡◌, refl, ap, true, false, Option, none, some, [], ◌∷◌, Str, str_Eq, str_eq_iff, arith, Runs,
  Runs-some, Option-cases, inl, inr, ==_iff, ◌∙◌,
}
use stream_api.Base.Dict.{Dict, lookup, insert, remove}
use stream_api.Base.FilePath.{join_path}
use stream_api.Upload.M3u8.{Library}
use stream_api.Upload.Channels.{Channels}
use stream_api.Upload.Hls.Tracked.{
  IsTracked, insert-IsTracked, remove-IsTracked, tail-IsTracked, after_close, close_open,
}
use stream_api.Upload.Hls.{
  Hls, keep_file, release_file, expire_file, close_all, close_tracked, cleanup,
}

-- Every channel of `files` is closed, those that were closed stay so, and no other is closed.
pub record AllClosed (files : Dict Str ℕ) (before after : Channels) : Type 0 where
  pub all : (p : Str) (c : ℕ) → lookup p files ≡ some c → after.closed c ≡ true
  pub still : (c : ℕ) → before.closed c ≡ true → after.closed c ≡ true
  pub only :
      (c : ℕ)
      → before.closed c ≡ false
      → ((p : Str) → lookup p files ≡ some c → ⊥)
      → after.closed c ≡ false
  pub same_next : after.next ≡ before.next

close_all_lem :
    (held : ℕ → Type 0) (files : Dict Str ℕ) (cs : Channels)
    → IsTracked held files cs
    → Runs (AllClosed files cs) (close_all files cs)
unfolding close_all lookup
close_all_lem held [] cs t =
    Runs-some _ cs
      (record { all = λ p c h. cc; still = λ c h. h; only = λ c h k. h; same_next = refl })
close_all_lem held ((p, c) ∷ files) cs t =
    let here : lookup p ((p, c) ∷ files) ≡ some c = ground (arith, str_eq_iff p p) in
    let rest = close_all_lem held files (after_close c cs) (tail-IsTracked held p c files cs t) in
    record {
      result = rest.result;
      runs = rw (close_open c cs (t.is_open p c here)) rest.runs;
      holds = record {
        all =
            λ q d h. ground (arith, rest.holds.all q d, rest.holds.still c, ==_iff c c, ==_iff c d);
        still = λ d h. ground (arith, rest.holds.still d);
        only = λ d h k.
            rest.holds.only d (ground (arith, λ (e : c ≡ d). k p (here ∙ ap some e)))
              (λ q e. k q (ground (arith, str_eq_iff p q, t.distinct.0)));
        same_next = rest.holds.same_next;
      };
    }

module _ (lib : Library) where
  -- What the file operations leave alone.
  pub record SameParser (s t : Hls lib) : Type 0 where
    pub same_subs : t.parser.subs ≡ s.parser.subs
    pub same_base : t.parser.base_path ≡ s.parser.base_path
    pub same_size : t.parser.playlist_size ≡ s.parser.playlist_size

  pub SameParser-refl : (s : Hls lib) → SameParser s s
  SameParser-refl s = record { same_subs = refl; same_base = refl; same_size = refl }

  pub SameParser-trans : (s t u : Hls lib) → SameParser s t → SameParser t u → SameParser s u
  SameParser-trans s t u a b = record {
    same_subs = b.same_subs ∙ a.same_subs;
    same_base = b.same_base ∙ a.same_base;
    same_size = b.same_size ∙ a.same_size;
  }

  -- After `Cleanup`, keeping any file is a write to a nil map: it panics.
  pub keep_file-cleanup :
      (s t : Hls lib) (name : Str) → cleanup lib s ≡ some t → keep_file lib name t ≡ none
  unfolding cleanup keep_file
  keep_file-cleanup s t name h = ground arith

module _ (lib : Library) (held : ℕ → Type 0) where
  pub record HasFiles (s : Hls lib) : Type 0 where
    pub files : Dict Str ℕ
    pub at : s.parser.files ≡ some files
    pub tracked : IsTracked held files s.channels

  pub keep_file-HasFiles :
      (name : Str) (s : Hls lib)
      → HasFiles s
      → Runs (λ t. HasFiles t × SameParser lib s t) (keep_file lib name s)
  unfolding keep_file
  keep_file-HasFiles name s h =
      let path = join_path (s.parser.base_path ∷ name ∷ []) in
      rw h.at (
        Runs-some _ _ (
          record {
            files = insert path s.channels.next h.files;
            at = refl;
            tracked = insert-IsTracked held path h.files s.channels h.tracked;
          },
          record { same_subs = refl; same_base = refl; same_size = refl },
        ))

  release_file-HasFiles :
      (path : Str) (o : Option (Dict Str ℕ)) (s : Hls lib) (h : HasFiles s)
      → o ≡ some h.files
      → Runs (λ t. HasFiles t × SameParser lib s t) (release_file lib path o s)
  unfolding release_file
  release_file-HasFiles path o s h e = rw e (elim (Option-cases (lookup path h.files)) [
    | inl missing ↦ rw (missing, release_file) (Runs-some _ s (h, SameParser-refl lib s))
    | inr (c, found) ↦
        rw (found, close_open c s.channels (h.tracked.is_open path c found), release_file)
          (Runs-some _ _ (
            record {
              files = remove path h.files;
              at = refl;
              tracked = remove-IsTracked held path c h.files s.channels found h.tracked;
            },
            record { same_subs = refl; same_base = refl; same_size = refl },
          ))
  ])

  pub expire_file-HasFiles :
      (name : Str) (s : Hls lib)
      → HasFiles s
      → Runs (λ t. HasFiles t × SameParser lib s t) (expire_file lib name s)
  unfolding expire_file
  expire_file-HasFiles name s h =
      release_file-HasFiles (join_path (s.parser.base_path ∷ name ∷ [])) s.parser.files s h h.at

  pub close_tracked_lem :
      (s : Hls lib) (h : HasFiles s)
      → Runs (AllClosed h.files s.channels) (close_tracked s.parser.files s.channels)
  unfolding close_tracked
  close_tracked_lem s h = rw h.at (close_all_lem held h.files s.channels h.tracked)

  -- From a state with tracked files `Cleanup` does not panic. It closes the channel of every tracked
  -- file, closes none twice, and sets the map to nil.
  pub cleanup_lem :
      (s : Hls lib) (h : HasFiles s)
      → Runs
          (λ t. AllClosed h.files s.channels t.channels × (t.parser.files ≡ none))
          (cleanup lib s)
  unfolding cleanup
  cleanup_lem s h =
      let done = close_tracked_lem s h in rw done.runs (Runs-some _ _ (done.holds, refl))
