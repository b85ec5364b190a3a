-- ===== src/Upload/Hls/Safe.antt =====
-- States of the HLS parser (upload/hls.go) that were not cleaned up, and the steps that keep them so.
use stream_api.Base.{
  ℕ, ◌<◌, ◌≡◌, true, false, refl, sym, ap, some, List, [], ◌∷◌, ◌++◌, Str, str_Eq, Runs, Runs-some,
  ◌∙◌,
}
use stream_api.Base.Dict.{Dict, lookup}
use stream_api.Base.Int.{ℤ}
use stream_api.Upload.M3u8.{Item, Library}
use stream_api.Upload.Playlist.{LivePlaylist, append, new_live_playlist, set_segment_target}
use stream_api.Upload.Playlist.Window.{IsWindow, append-IsWindow, new_live_playlist-IsWindow}
use stream_api.Upload.Channels.{Channels, IsFresh}
use stream_api.Upload.Metrics.{new_hls_metrics}
use stream_api.Upload.Hls.{new_hls_parser, HlsParser, VariantPlaylist, Hls, keep_file}
use stream_api.Upload.Hls.Files.{HasFiles, SameParser, keep_file-HasFiles}

-- The playlist is a window over some history and can take an item.
pub record IsLive (lp : LivePlaylist) : Type 0 where
  pub history : List Item
  pub window : IsWindow history lp
  pub positive : 0 < lp.size

pub append-IsLive :
    (lp : LivePlaylist) (item : Item) → IsLive lp → Runs (λ r. IsLive r.0) (append lp item)
append-IsLive lp item l =
    let step = append-IsWindow l.history item lp l.window l.positive in
    record {
      result = (step.after, step.deleted);
      runs = step.runs;
      holds = record {
        history = l.history ++ (item ∷ []);
        window = step.window;
        positive = rw step.same_size l.positive;
      };
    }

pub new_live_playlist-IsLive : (size : ℕ) → 0 < size → IsLive (new_live_playlist size)
new_live_playlist-IsLive size h = record {
  history = [];
  window = new_live_playlist-IsWindow size;
  positive = unfold new_live_playlist in h;
}

pub set_segment_target-IsLive :
    (lp : LivePlaylist) (t : ℤ) → IsLive lp → IsLive (set_segment_target lp t)
unfolding set_segment_target
set_segment_target-IsLive lp t l = record {
  history = l.history;
  window = record {
    gone = l.window.gone;
    split_at = l.window.split_at;
    bounded = l.window.bounded;
    full = l.window.full;
    sequence_counts = l.window.sequence_counts;
    discontinuities_count = l.window.discontinuities_count;
  };
  positive = l.positive;
}

module _ (lib : Library) (held : ℕ → Type 0) where
  -- A parser that was not cleaned up, whose tracked channels are open and whose playlists are live.
  pub record IsSafe (s : Hls lib) : Type 0 where
    pub has : HasFiles lib held s
    pub positive : 0 < s.parser.playlist_size
    pub live :
        (name : Str) (v : VariantPlaylist) → lookup name s.parser.subs ≡ some v → IsLive v.output

  pub SameParser-IsSafe :
      (s t : Hls lib) → IsSafe s → HasFiles lib held t × SameParser lib s t → IsSafe t
  SameParser-IsSafe s t h (f, same) = record {
    has = f;
    positive = rw same.same_size h.positive;
    live = λ name v e.
        h.live name v
          (ap (λ (m : Dict Str VariantPlaylist). lookup name m) (sym same.same_subs) ∙ e);
  }

  pub keep_file-IsSafe : (name : Str) (s : Hls lib) → IsSafe s → Runs IsSafe (keep_file lib name s)
  keep_file-IsSafe name s h =
      let kept = keep_file-HasFiles lib held name s h.has in
      record {
        result = kept.result;
        runs = kept.runs;
        holds = SameParser-IsSafe s kept.result h kept.holds;
      }

  pub IsSafe-fields :
      (s t : Hls lib)
      → t.parser.files ≡ s.parser.files
      → t.channels ≡ s.channels
      → SameParser lib s t
      → IsSafe s
      → IsSafe t
  IsSafe-fields s t f c same h =
      SameParser-IsSafe s t h
        (record { files = h.has.files; at = f ∙ h.has.at; tracked = rw c h.has.tracked }, same)

  abbrev pub start_of : HlsParser → Channels → lib.Disk → Hls lib
  start_of p cs disk = record { parser = p; channels = cs; sent = []; disk = disk }

  pub fresh_parser-IsSafe :
      (p : HlsParser) (cs : Channels) (disk : lib.Disk)
      → 0 < p.playlist_size
      → p.files ≡ some []
      → p.subs ≡ []
      → IsFresh cs
      → ((c : ℕ) → held c → (c < cs.next) × (cs.closed c ≡ false))
      → IsSafe (start_of p cs disk)
  unfolding lookup
  fresh_parser-IsSafe p cs disk h no_files no_subs fresh held_lem = record {
    has = record {
      files = [];
      at = no_files;
      tracked = record {
        distinct = tt;
        fresh = fresh;
        made = λ p c e. cc;
        is_open = λ p c e. cc;
        apart = λ p q c e e'. cc;
        held_made = λ c h. (held_lem c h).0;
        held_open = λ c h. (held_lem c h).1;
        held_apart = λ p c h e. cc;
      };
    };
    positive = h;
    live = λ name v e. let none_there = rw no_subs at e in cc;
  }

  pub new_hls_parser-IsSafe :
      (slug base_path : Str) (size : ℕ) (cs : Channels) (disk : lib.Disk)
      → lib.label_ok slug ≡ true
      → 0 < size
      → IsFresh cs
      → ((c : ℕ) → held c → (c < cs.next) × (cs.closed c ≡ false))
      → Runs (λ p. IsSafe (start_of p cs disk)) (new_hls_parser lib.label_ok slug base_path size)
  unfolding new_hls_parser new_hls_metrics
  new_hls_parser-IsSafe slug base_path size cs disk ok h fresh held_lem =
      rw ok (Runs-some _ _ (fresh_parser-IsSafe _ cs disk h refl refl fresh held_lem))
