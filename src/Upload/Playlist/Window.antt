-- ===== src/Upload/Playlist/Window.antt =====
-- A live playlist is the window of its size over all that was appended to it: its sequence numbers
-- count what has left the window.
use stream_api.Base.{
  ℕ, zero, suc, ◌+◌, ◌-◌, ◌≤◌, ◌<◌, ◌≡◌, refl, sym, ap, ◌∙◌, Bool, Option, none, some, List, [],
  ◌∷◌, ◌++◌, length, take, drop, ◌==◌, arith, length-append, append_assoc, append-nil, Bool-cases,
  inl, inr, ==_iff, Runs, Runs-some, ◌>>=◌,
}
use stream_api.Base.Int.{pos}
use stream_api.Upload.M3u8.{
  Item, segment_item, discontinuity_item, media_item, playlist_item, other_item, Playlist,
  is_segment, is_discontinuity, tally,
}
use stream_api.Upload.Playlist.{LivePlaylist, new_live_playlist, append, count_deleted}

-- The playlist shows the last items of `history`, at most its size, and numbers them by what came before.
pub record IsWindow (history : List Item) (lp : LivePlaylist) : Type 0 where
  pub gone : List Item
  pub split_at : history ≡ gone ++ lp.playlist.items
  pub bounded : length lp.playlist.items ≤ lp.size
  pub full : 0 < length gone → length lp.playlist.items ≡ lp.size
  pub sequence_counts : lp.playlist.sequence ≡ pos (tally is_segment gone)
  pub discontinuities_count :
      lp.playlist.discontinuity_sequence ≡ some (pos (tally is_discontinuity gone))

pub new_live_playlist-IsWindow : (size : ℕ) → IsWindow [] (new_live_playlist size)
unfolding new_live_playlist
new_live_playlist-IsWindow size = record {
  gone = [];
  split_at = refl;
  bounded = omega arith;
  full = λ h. omega arith;
  sequence_counts = refl;
  discontinuities_count = refl;
}

tally-append : (p : Item → Bool) (xs ys : List Item) → tally p (xs ++ ys) ≡ tally p xs + tally p ys
tally-append p [] ys = omega arith
tally-append p (x ∷ xs) ys = ground (arith, tally-append p xs ys)

count_deleted_lem :
    (x : Item) (p : Playlist) (n d : ℕ)
    → p.sequence ≡ pos n
    → p.discontinuity_sequence ≡ some (pos d)
    → count_deleted x p
      ≡ some (record p {
        sequence = pos (n + tally is_segment (x ∷ []));
        discontinuity_sequence = some (pos (d + tally is_discontinuity (x ∷ [])));
      })
unfolding count_deleted
count_deleted_lem (segment_item _) p n d hn hd = ground arith
count_deleted_lem discontinuity_item p n d hn hd = ground arith
count_deleted_lem (media_item _) p n d hn hd = ground arith
count_deleted_lem (playlist_item _) p n d hn hd = ground arith
count_deleted_lem (other_item _) p n d hn hd = ground arith

-- The state after one append to a window: the window over one item more, at the same size.
pub record Appended (history : List Item) (item : Item) (lp : LivePlaylist) : Type 0 where
  pub after : LivePlaylist
  pub deleted : Option Item
  pub runs : append lp item ≡ some (after, deleted)
  pub window : IsWindow (history ++ (item ∷ [])) after
  pub same_size : after.size ≡ lp.size

module _ (history : List Item) (item : Item) (lp : LivePlaylist) (w : IsWindow history lp) where
  append_room : length lp.playlist.items < lp.size → Appended history item lp
  unfolding append
  append_room h = record {
    after = record lp {
      playlist = record lp.playlist { items = lp.playlist.items ++ (item ∷ []) };
    };
    deleted = none;
    runs = ground arith;
    window = record {
      gone = w.gone;
      split_at =
          ap (λ (xs : List Item). xs ++ (item ∷ [])) w.split_at
          ∙ append_assoc w.gone lp.playlist.items (item ∷ []);
      bounded = omega (arith, length-append lp.playlist.items (item ∷ []));
      full = λ g. absurd (omega (arith, w.full g));
      sequence_counts = w.sequence_counts;
      discontinuities_count = w.discontinuities_count;
    };
    same_size = refl;
  }

  append_full :
      (first : Item) (rest : List Item)
      → lp.playlist.items ≡ first ∷ rest
      → length lp.playlist.items ≡ lp.size
      → Appended history item lp
  unfolding append
  append_full first rest e f = record {
    after = record lp {
      playlist = record lp.playlist {
        sequence = pos (tally is_segment w.gone + tally is_segment (first ∷ []));
        discontinuity_sequence =
            some (pos (tally is_discontinuity w.gone + tally is_discontinuity (first ∷ [])));
        items = rest ++ (item ∷ []);
      };
    };
    deleted = some first;
    runs = ground (
      arith,
      e,
      f,
      count_deleted_lem first lp.playlist (tally is_segment w.gone) (tally is_discontinuity w.gone)
          w.sequence_counts w.discontinuities_count,
    );
    window = record {
      gone = w.gone ++ (first ∷ []);
      split_at = cc (
        w.split_at,
        e,
        append_assoc w.gone (first ∷ rest) (item ∷ []),
        append_assoc w.gone (first ∷ []) (rest ++ (item ∷ [])),
      );
      bounded = omega (arith, length-append rest (item ∷ []), ap length e);
      full = λ g. omega (arith, length-append rest (item ∷ []), ap length e);
      sequence_counts = ap pos (sym (tally-append is_segment w.gone (first ∷ [])));
      discontinuities_count =
          ap (λ n. some (pos n)) (sym (tally-append is_discontinuity w.gone (first ∷ [])));
    };
    same_size = refl;
  }

  append_items : (xs : List Item) → lp.playlist.items ≡ xs → 0 < lp.size → Appended history item lp
  append_items [] e h = append_room (omega (arith, ap length e))
  append_items (first ∷ rest) e h = elim (Bool-cases (length lp.playlist.items == lp.size)) [
    | inl full ↦ append_full first rest e ((==_iff _ _).0 full)
    | inr room ↦ append_room (ground (arith, w.bounded, room))
  ]

  -- Appending to a window of a positive size never panics, keeps the size, and gives the window
  -- over the history with the item at its end.
  pub append-IsWindow : 0 < lp.size → Appended history item lp
  append-IsWindow h = append_items lp.playlist.items refl h

-- Everything appended in order, to the first panic.
unfoldable pub append_all : LivePlaylist → List Item → Option LivePlaylist
unfolding append
append_all lp [] = some lp
append_all lp (x ∷ xs) = append lp x >>= λ r. append_all r.0 xs

append_all-IsWindow :
    (history xs : List Item) (lp : LivePlaylist)
    → IsWindow history lp
    → 0 < lp.size
    → Runs (λ after. IsWindow (history ++ xs) after × (after.size ≡ lp.size)) (append_all lp xs)
unfolding append_all
append_all-IsWindow history [] lp w h = rw append-nil (Runs-some _ lp (w, refl))
append_all-IsWindow history (x ∷ xs) lp w h =
    let step = append-IsWindow history x lp w h in
    let rest =
      append_all-IsWindow (history ++ (x ∷ [])) xs step.after step.window
        (omega (arith, step.same_size)) in
    record {
      result = rest.result;
      runs = rw step.runs rest.runs;
      holds =
          (rw (append_assoc history (x ∷ []) xs) at rest.holds.0, rest.holds.1 ∙ step.same_size);
    }

drop-append_exact : (n : ℕ) (xs ys : List Item) → length xs ≡ n → drop n (xs ++ ys) ≡ ys
drop-append_exact zero [] ys h = refl
drop-append_exact zero (x ∷ xs) ys h = absurd (omega arith)
drop-append_exact (suc n) [] ys h = absurd (omega arith)
drop-append_exact (suc n) (x ∷ xs) ys h = drop-append_exact n xs ys (omega arith)

take-append_exact : (n : ℕ) (xs ys : List Item) → length xs ≡ n → take n (xs ++ ys) ≡ xs
take-append_exact zero [] ys h = refl
take-append_exact zero (x ∷ xs) ys h = absurd (omega arith)
take-append_exact (suc n) [] ys h = absurd (omega arith)
take-append_exact (suc n) (x ∷ xs) ys h =
    ap (λ (r : List Item). x ∷ r) (take-append_exact n xs ys (omega arith))

module _ {xs : List Item} (gone rest : List Item) (n : ℕ) (parts : xs ≡ gone ++ rest)
    (e : length gone ≡ n) where
  take_of_split : take n xs ≡ gone
  take_of_split = rw parts (take-append_exact n gone rest e)

  drop_of_split : rest ≡ drop n xs
  drop_of_split = rw parts (sym (drop-append_exact n gone rest e))

-- A window is determined by its history and its size.
pub record Shows (size : ℕ) (history : List Item) (lp : LivePlaylist) : Type 0 where
  pub last_items : lp.playlist.items ≡ drop (length history - size) history
  pub sequence_counts :
      lp.playlist.sequence ≡ pos (tally is_segment (take (length history - size) history))
  pub discontinuities_count :
      lp.playlist.discontinuity_sequence
      ≡ some (pos (tally is_discontinuity (take (length history - size) history)))

gone_length :
    (history : List Item) (lp : LivePlaylist) (w : IsWindow history lp)
    → length w.gone ≡ length history - lp.size
gone_length history lp w =
    grind (arith, ap length w.split_at, length-append w.gone lp.playlist.items, w.bounded, w.full)

Shows-IsWindow :
    (size : ℕ) (history : List Item) (lp : LivePlaylist)
    → IsWindow history lp
    → lp.size ≡ size
    → Shows size history lp
Shows-IsWindow size history lp w h =
    let n : length w.gone ≡ length history - size = omega (arith, gone_length history lp w) in
    let taken : take (length history - size) history ≡ w.gone =
      take_of_split w.gone lp.playlist.items _ w.split_at n in
    record {
      last_items = drop_of_split w.gone lp.playlist.items _ w.split_at n;
      sequence_counts =
          w.sequence_counts ∙ ap (λ (xs : List Item). pos (tally is_segment xs)) (sym taken);
      discontinuities_count =
          w.discontinuities_count
          ∙ ap (λ (xs : List Item). some (pos (tally is_discontinuity xs))) (sym taken);
    }

-- Whatever is appended to a new playlist of a positive size, no append panics; the playlist then
-- shows the last `size` items, its sequence is the number of segments before them, and its
-- discontinuity sequence the number of discontinuities before them.
pub live_window :
    (size : ℕ) (items : List Item)
    → 0 < size
    → Runs (Shows size items) (append_all (new_live_playlist size) items)
live_window size items h =
    let all =
      append_all-IsWindow [] items (new_live_playlist size) (new_live_playlist-IsWindow size)
        (unfold new_live_playlist in h) in
    record {
      result = all.result;
      runs = all.runs;
      holds =
          Shows-IsWindow size items all.result all.holds.0
            (all.holds.1 ∙ unfold new_live_playlist in refl);
    }
