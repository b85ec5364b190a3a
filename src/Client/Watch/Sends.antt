-- ===== src/Client/Watch/Sends.antt =====
-- What the handler of a watch sends for a listing (`makeWatchHandler` of client/consul.go).
use stream_api.Base.{◌≡◌, refl, some, List, [], ◌∷◌, ◌++◌, Str, str_Eq, All, Bool-cases, inl, inr}
use stream_api.Base.Dict.{Dict, lookup, IsDistinct}
use stream_api.Client.Watch.{
  WatchUpdate, put, delete, all_pairs, Difference, keys, is_cached, add_pair, add_pairs,
  remove_outdated, difference, handle_watch,
}
use stream_api.Client.Watch.Follow.{apply_all, Agree, difference-IsTrue, difference_lem}

-- A put that satisfies `P`, or a deletion.
abbrev pub Puts {ℓ} : (Str → Str → Type ℓ) → WatchUpdate → Type ℓ
Puts P (put key value) = P key value
Puts P (delete key) = Unit

All-append_one {ℓ} :
    (P : WatchUpdate → Type ℓ) (us : List WatchUpdate) (u : WatchUpdate)
    → All P us
    → P u
    → All P (us ++ (u ∷ []))
All-append_one P [] u h e = (e, tt)
All-append_one P (v ∷ us) u (hv, h) e = (hv, All-append_one P us u h e)

module _ {ℓ} (P : Str → Str → Type ℓ) where
  add_pair-All :
      (key value : Str) (d : Difference)
      → P key value
      → All (Puts P) d.updates
      → All (Puts P) (add_pair key value d).updates
  unfolding add_pair
  add_pair-All key value d e h = elim (Bool-cases (is_cached (lookup key d.cache) value)) [
    | inl cached ↦ rw cached h
    | inr new ↦ rw new (All-append_one (Puts P) d.updates (put key value) h e)
  ]

  add_pairs-All :
      (pairs : Dict Str Str) (d : Difference)
      → All (λ e. P e.0 e.1) pairs
      → All (Puts P) d.updates
      → All (Puts P) (add_pairs pairs d).updates
  unfolding add_pairs
  add_pairs-All [] d e h = h
  add_pairs-All ((key, value) ∷ pairs) d (first, e) h =
      add_pairs-All pairs (add_pair key value d) e (add_pair-All key value d first h)

  remove_outdated-All :
      (names : List Str) (d : Difference)
      → All (Puts P) d.updates
      → All (Puts P) (remove_outdated names d).updates
  unfolding remove_outdated
  remove_outdated-All [] d h = h
  remove_outdated-All (name ∷ names) d h =
      remove_outdated-All names _ (All-append_one (Puts P) d.updates (delete name) h tt)

  difference-All :
      (pairs cache : Dict Str Str)
      → All (λ e. P e.0 e.1) pairs
      → All (Puts P) (difference pairs cache).updates
  unfolding difference
  difference-All pairs cache e =
      let added = add_pairs pairs (record { expected = keys cache; updates = []; cache = cache }) in
      remove_outdated-All added.expected added (add_pairs-All pairs _ e tt)

  -- What is sent leads from the cache to the new one, which agrees with the listing, and a put that is sent is
  -- of a pair that satisfies what all pairs of the listing satisfy.
  pub record Sends (pairs cache : Dict Str Str) : Type ℓ where
    pub updates : List WatchUpdate
    pub sent : (handle_watch (all_pairs pairs) cache).0 ≡ some updates
    pub leads : (handle_watch (all_pairs pairs) cache).1 ≡ apply_all updates cache
    pub distinct : IsDistinct (handle_watch (all_pairs pairs) cache).1
    pub agrees : Agree (handle_watch (all_pairs pairs) cache).1 pairs
    pub of_pairs : All (Puts P) updates

  pub handle_watch-Sends :
      (pairs cache : Dict Str Str)
      → IsDistinct cache
      → IsDistinct pairs
      → All (λ e. P e.0 e.1) pairs
      → Sends pairs cache
  unfolding handle_watch
  handle_watch-Sends pairs cache d e h = record {
    updates = (difference pairs cache).updates;
    sent = refl;
    leads = (difference-IsTrue pairs cache d).sent;
    distinct = (difference-IsTrue pairs cache d).distinct;
    agrees = difference_lem pairs cache d e;
    of_pairs = difference-All pairs cache h;
  }
