-- ===== src/Upload/Store/Release.antt =====
-- The clean-ups of the streams that upload/stream_store.go drops never close a channel twice.
use stream_api.Base.{
  ℕ, ◌≡◌, refl, false, Option, none, some, List, [], ◌∷◌, ◌++◌, Str, str_Eq, str_eq, str_eq_iff,
  arith, Bool-cases, Option-cases, inl, inr, Runs, Runs-some, ◌>>=◌,
}
use stream_api.Base.Dict.{Dict, lookup, insert, lookup-insert, lookup-remove, IsDistinct}
use stream_api.Upload.M3u8.{Library}
use stream_api.Upload.Channels.{Channels}
use stream_api.Upload.Stream.{Stream, age, cleanup}
use stream_api.Upload.Store.{
  StreamStore, remove_stream, remove_found, age_stream, timeout_loop, timeout, remove_loop,
  remove_all, cleanup_all,
}
use stream_api.Upload.Owners.{IsOwned}
use stream_api.Upload.Owners.Step.{cleanup-Frees, remove-IsOwned}
use stream_api.Upload.Owners.Update.{IsAlike, revise-IsOwned}

age-IsAlike : (interval : ℕ) (s : Stream) → IsAlike s (age interval s).1
unfolding age
age-IsAlike interval s = record { same_alive = refl; same_parser = refl }

cleanup_all-snoc :
    (gone : List Stream) (s : Stream) (cs : Channels)
    → cleanup_all (gone ++ (s ∷ [])) cs
      ≡ (cleanup_all gone cs >>= λ after. cleanup s after >>= λ r. some r.1)
unfolding cleanup_all
cleanup_all-snoc [] s cs = refl
cleanup_all-snoc (t ∷ gone) s cs = elim (Option-cases (cleanup t cs)) [
  | inl panics ↦ rw panics refl
  | inr (r, done) ↦ rw done (cleanup_all-snoc gone s r.1)
]

lookup-age_stream :
    (slug q : Str) (s : Stream) (st : StreamStore)
    → str_eq slug q ≡ false
    → lookup q (age_stream slug s st).streams ≡ lookup q st.streams
unfolding age_stream remove_stream
lookup-age_stream slug q s st other = ground (
  arith,
  lookup-insert slug q (age st.config.stream_expire_interval s).1 st.streams,
  lookup-insert slug slug (age st.config.stream_expire_interval s).1 st.streams,
  lookup-remove slug q (insert slug (age st.config.stream_expire_interval s).1 st.streams),
)

module _ (lib : Library) (disk : lib.Disk) (cs : Channels) where
  -- The streams that were dropped so far are cleaned up without a panic, which leaves the others
  -- their channels.
  abbrev pub IsReleased : StreamStore → Type 0
  IsReleased st = Runs (IsOwned lib st.streams) (cleanup_all st.cleaned cs)

  remove_found-IsReleased :
      (slug : Str) (o : Option Stream) (st : StreamStore)
      → lookup slug st.streams ≡ o
      → IsReleased st
      → IsReleased (remove_found slug o st)
  unfolding remove_found
  remove_found-IsReleased slug none st found released = released
  remove_found-IsReleased slug (some s) st found released =
      let owned = released.holds in
      let freed =
        cleanup-Frees lib disk _ s released.result (owned.owner slug s found) owned.fresh in
      rw (cleanup_all-snoc st.cleaned s cs, released.runs, freed.runs)
        (Runs-some _ _ (
          remove-IsOwned lib disk slug st.streams released.result s freed.result.1 owned found
            freed.holds.fresh freed.holds.kept))

  remove_stream-IsReleased :
      (slug : Str) (st : StreamStore) → IsReleased st → IsReleased (remove_stream slug st)
  unfolding remove_stream
  remove_stream-IsReleased slug st released =
      remove_found-IsReleased slug (lookup slug st.streams) st refl released

  age_stream-IsReleased :
      (slug : Str) (s : Stream) (st : StreamStore)
      → lookup slug st.streams ≡ some s
      → IsReleased st
      → IsReleased (age_stream slug s st)
  unfolding age_stream
  age_stream-IsReleased slug s st found released =
      let older = (age st.config.stream_expire_interval s).1 in
      let aged : StreamStore = record st { streams = insert slug older st.streams } in
      let kept : IsReleased aged = record {
        result = released.result;
        runs = released.runs;
        holds =
            revise-IsOwned lib disk slug st.streams released.result released.holds s older found
              (age-IsAlike st.config.stream_expire_interval s);
      } in
      elim (Bool-cases (age st.config.stream_expire_interval s).0) [
        | inl over ↦ rw over (remove_stream-IsReleased slug aged kept)
        | inr young ↦ rw young kept
      ]

  remove_loop-IsReleased :
      (entries : Dict Str Stream) (st : StreamStore)
      → IsReleased st
      → IsReleased (remove_loop entries st)
  unfolding remove_loop
  remove_loop-IsReleased [] st released = released
  remove_loop-IsReleased ((slug, s) ∷ entries) st released =
      remove_loop-IsReleased entries (remove_stream slug st)
        (remove_stream-IsReleased slug st released)

  timeout_loop-IsReleased :
      (entries : Dict Str Stream) (st : StreamStore)
      → IsDistinct entries
      → ((p : Str) (s : Stream) → lookup p entries ≡ some s → lookup p st.streams ≡ some s)
      → IsReleased st
      → IsReleased (timeout_loop entries st)
  unfolding timeout_loop lookup
  timeout_loop-IsReleased [] st d agree released = released
  timeout_loop-IsReleased ((slug, s) ∷ entries) st (fresh, d) agree released =
      let here : lookup slug st.streams ≡ some s =
        agree slug s (ground (arith, str_eq_iff slug slug)) in
      timeout_loop-IsReleased entries (age_stream slug s st) d
        (λ p t h.
          ground (arith, lookup-age_stream slug p s st, agree p t, str_eq_iff slug p, fresh, h))
        (age_stream-IsReleased slug s st here released)

  -- One pass of `timeout` over streams that own their channels: the clean-ups of the streams that it drops close no
  -- channel twice, and the streams that are left still own their channels.
  pub timeout-IsReleased :
      (st : StreamStore)
      → IsOwned lib st.streams cs
      → st.cleaned ≡ []
      → Runs (IsOwned lib (timeout st).streams) (cleanup_all (timeout st).cleaned cs)
  unfolding timeout
  timeout-IsReleased st owned none_yet =
      timeout_loop-IsReleased st.streams st owned.distinct (λ p s h. h)
        (rw none_yet (unfold cleanup_all in Runs-some _ cs owned))

  -- The same when the server stops and drops every stream.
  pub remove_all-IsReleased :
      (st : StreamStore)
      → IsOwned lib st.streams cs
      → st.cleaned ≡ []
      → Runs (IsOwned lib (remove_all st).streams) (cleanup_all (remove_all st).cleaned cs)
  unfolding remove_all
  remove_all-IsReleased st owned none_yet =
      remove_loop-IsReleased st.streams st
        (rw none_yet (unfold cleanup_all in Runs-some _ cs owned))
