-- ===== src/Upload/Owners.antt =====
-- Which stream of upload/stream_store.go owns which channel: its own (`alive`), and those of the files
-- that its parser (upload/hls.go) tracks.
pub mod Step
pub mod Update
use stream_api.Base.{
  ℕ, ◌≤◌, ◌<◌, ◌≡◌, ◌≢◌, ◌⊎◌, refl, ap, sym, ◌∙◌, false, Option, none, some, List, [], inl, inr,
  Str, str_Eq, arith,
}
use stream_api.Base.Dict.{Dict, lookup, IsDistinct}
use stream_api.Upload.M3u8.{Library}
use stream_api.Upload.Channels.{Channels, IsFresh}
use stream_api.Upload.Registry.{FileEntry}
use stream_api.Upload.Hls.{HlsParser, Hls}
use stream_api.Upload.Hls.Tracked.{IsTracked}
use stream_api.Upload.Hls.Files.{HasFiles}
use stream_api.Upload.Hls.Safe.{IsSafe}
use stream_api.Upload.Stream.{Stream}

-- A channel of a file that the parser tracks.
unfoldable pub Tracks : Option (Dict Str ℕ) → ℕ → Type 0
Tracks none c = ⊥
Tracks (some files) c = (path : Str) × (lookup path files ≡ some c)

abbrev pub Owns : Stream → ℕ → Type 0
Owns s c = (c ≡ s.alive) ⊎ ((p : HlsParser) × (s.parser ≡ some p) × Tracks p.files c)

-- A channel of another stream than the one of the slug.
abbrev pub Held : Str → Dict Str Stream → ℕ → Type 0
Held slug streams c = (q : Str) × (t : Stream) × (lookup q streams ≡ some t) × (q ≢ slug) × Owns t c

abbrev pub IsOpen : Channels → ℕ → Type 0
IsOpen cs c = (c < cs.next) × (cs.closed c ≡ false)

module _ (lib : Library) where
  abbrev pub at_work : HlsParser → Channels → List FileEntry → lib.Disk → Hls lib
  at_work p cs sent disk = record { parser = p; channels = cs; sent = sent; disk = disk }

  -- The stream's channel and those of its files are open, are different from each other and from
  -- `held`, and its parser was not cleaned up.
  pub record IsOwner (held : ℕ → Type 0) (s : Stream) (cs : Channels) : Type 0 where
    pub alive : IsOpen cs s.alive
    pub apart : held s.alive → ⊥
    pub safe :
        (p : HlsParser)
        → s.parser ≡ some p
        → (sent : List FileEntry) (disk : lib.Disk)
        → IsSafe lib (λ c. held c ⊎ (c ≡ s.alive)) (at_work p cs sent disk)

  -- No slug stands twice, and every stream owns its channels, apart from those of the others.
  pub record IsOwned (streams : Dict Str Stream) (cs : Channels) : Type 0 where
    pub distinct : IsDistinct streams
    pub fresh : IsFresh cs
    pub owner :
        (slug : Str) (s : Stream) → lookup slug streams ≡ some s → IsOwner (Held slug streams) s cs

  module _ {held : ℕ → Type 0} {t : Hls lib} where
    Tracks-HasFiles :
        (h : HasFiles lib held t) (c : ℕ)
        → Tracks t.parser.files c
        → (path : Str) × (lookup path h.files ≡ some c)
    unfolding Tracks
    Tracks-HasFiles h c k = rw h.at at k

    pub tracked_open :
        (h : HasFiles lib held t) (c : ℕ)
        → Tracks t.parser.files c
        → IsOpen t.channels c × (held c → ⊥)
    tracked_open h c k =
        let (path, e) = Tracks-HasFiles h c k in
        (
          (h.tracked.made path c e, h.tracked.is_open path c e),
          λ o. h.tracked.held_apart path c o e,
        )

    -- The same files, where other channels are held and the channels may have changed.
    pub HasFiles-move :
        (held' : ℕ → Type 0) (cs : Channels)
        → HasFiles lib held t
        → IsFresh cs
        → ((c : ℕ) → Tracks t.parser.files c → IsOpen cs c)
        → ((c : ℕ) → held' c → IsOpen cs c × (Tracks t.parser.files c → ⊥))
        → (sent : List FileEntry) (disk : lib.Disk)
        → HasFiles lib held' (at_work t.parser cs sent disk)
    HasFiles-move held' cs h fresh kept others sent disk =
        let track : (path : Str) (c : ℕ) → lookup path h.files ≡ some c → Tracks t.parser.files c =
          λ path c e. rw h.at (unfold Tracks in (path, e)) in
        record {
          files = h.files;
          at = h.at;
          tracked = record {
            distinct = h.tracked.distinct;
            fresh = fresh;
            made = λ path c e. (kept c (track path c e)).0;
            is_open = λ path c e. (kept c (track path c e)).1;
            apart = h.tracked.apart;
            held_made = λ c o. (others c o).0.0;
            held_open = λ c o. (others c o).0.1;
            held_apart = λ path c o e. (others c o).1 (track path c e);
          };
        }

  module _ {held : ℕ → Type 0} {s : Stream} {cs : Channels} where
    pub owner_open :
        (disk : lib.Disk) → IsOwner held s cs → (c : ℕ) → Owns s c → IsOpen cs c × (held c → ⊥)
    owner_open disk o c (inl e) = (rw e o.alive, rw e o.apart)
    owner_open disk o c (inr (p, e, k)) =
        let (open_at, apart) = tracked_open (o.safe p e [] disk).has c k in
        (open_at, λ h. apart (inl h))

    pub alive_apart :
        (disk : lib.Disk) (o : IsOwner held s cs) (p : HlsParser)
        → s.parser ≡ some p
        → Tracks p.files s.alive
        → ⊥
    alive_apart disk o p e k = (tracked_open (o.safe p e [] disk).has s.alive k).1 (inr refl)

    -- A stream still owns its channels after a step that closed none of them, if those held then are
    -- open and not among them.
    pub IsOwner-move :
        (disk : lib.Disk) (held' : ℕ → Type 0) (cs' : Channels)
        → IsOwner held s cs
        → IsFresh cs'
        → ((c : ℕ) → Owns s c → IsOpen cs' c)
        → ((c : ℕ) → held' c → IsOpen cs' c × (Owns s c → ⊥))
        → IsOwner held' s cs'
    IsOwner-move disk held' cs' o fresh kept others = record {
      alive = kept s.alive (inl refl);
      apart = λ h. (others s.alive h).1 (inl refl);
      safe = λ p e sent disk'.
          let was = o.safe p e sent disk' in
          let others' : (c : ℕ) → held' c ⊎ (c ≡ s.alive) → IsOpen cs' c × (Tracks p.files c → ⊥) =
            λ c h. elim h [
              | inl h' ↦ let (open_at, apart) = others c h' in (open_at, λ k. apart (inr (p, e, k)))
              | inr same ↦ (rw same (kept s.alive (inl refl)), rw same (alive_apart disk o p e))
            ] in
          record {
            has =
                HasFiles-move (λ c. held' c ⊎ (c ≡ s.alive)) cs' was.has fresh
                  (λ c k. kept c (inr (p, e, k))) others' sent disk';
            positive = was.positive;
            live = was.live;
          };
    }
