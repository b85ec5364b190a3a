-- ===== src/Upload/Owners/Step.antt =====
-- The steps of upload/stream_store.go that change a stream: every stream still owns its channels.
use stream_api.Base.{
  ℕ, ◌≡◌, ◌≢◌, refl, sym, Option, none, some, [], Str, str_Eq, str_eq, str_eq_iff, arith,
  Bool-cases, inl, inr, ◌⊎◌, ◌≤◌, Runs, Runs-some, Runs-bind, subst,
}
use mathlib.Core.Option.{some-injective}
use stream_api.Base.Dict.{
  Dict, lookup, insert, remove, lookup-insert, lookup-remove, insert-IsDistinct, remove-IsDistinct,
}
use stream_api.Upload.M3u8.{Library}
use stream_api.Upload.Channels.{Channels, IsFresh}
use stream_api.Upload.Hls.{HlsParser}
use stream_api.Upload.Hls.Tracked.{after_close, close_open}
use stream_api.Upload.Hls.Files.{close_tracked_lem}
use stream_api.Upload.Stream.{Stream, cleanup, cleanup_parser}
use stream_api.Upload.Owners.{
  Held, Tracks, alive_apart, Owns, IsOpen, IsOwner, IsOwned, owner_open, IsOwner-move,
  HasFiles-move,
}

module _ (lib : Library) (disk : lib.Disk) (slug : Str) (streams : Dict Str Stream)
    (cs : Channels) where
  Held-insert : (s : Stream) (c : ℕ) → Held slug (insert slug s streams) c → Held slug streams c
  Held-insert s c (q, t, e, other, o) =
      (q, t, ground (arith, lookup-insert slug q s streams, str_eq_iff slug q), other, o)

  Held-cases :
      (s : Stream) (q : Str) (c : ℕ)
      → Held q (insert slug s streams) c
      → Owns s c ⊎ (Held q streams c × Held slug streams c)
  Held-cases s q c (r, u, e, other, o) = elim (Bool-cases (str_eq slug r)) [
    | inl same ↦
        let is_s : some s ≡ some u = ground (arith, lookup-insert slug r s streams) in
        inl (subst (λ (o' : Option Stream). Owns' o' c) (sym is_s) o)
    | inr differs ↦
        let found : lookup r streams ≡ some u = ground (arith, lookup-insert slug r s streams) in
        let away : r ≢ slug = ground (arith, str_eq_iff slug r) in
        inr ((r, u, found, other, o), (r, u, found, away, o))
  ]
    where
      Owns' : Option Stream → ℕ → Type 0
      Owns' none c = ⊥
      Owns' (some t) c = Owns t c

  put-IsOwner :
      (s : Stream) (cs' : Channels)
      → IsFresh cs'
      → IsOwner lib (Held slug streams) s cs'
      → ((c : ℕ) → Held slug streams c → IsOpen cs' c)
      → IsOwner lib (Held slug (insert slug s streams)) s cs'
  put-IsOwner s cs' fresh o kept =
      IsOwner-move lib disk (Held slug (insert slug s streams)) cs' o fresh
        (λ c k. (owner_open lib disk o c k).0)
        (λ c h.
          let before = Held-insert s c h in
          (kept c before, λ k. (owner_open lib disk o c k).1 before))

  -- A stream is put under its slug, while no channel of another stream was closed.
  pub put-IsOwned :
      (s : Stream) (cs' : Channels)
      → IsOwned lib streams cs
      → IsFresh cs'
      → IsOwner lib (Held slug streams) s cs'
      → ((c : ℕ) → Held slug streams c → IsOpen cs' c)
      → IsOwned lib (insert slug s streams) cs'
  put-IsOwned s cs' owned fresh o kept = record {
    distinct = insert-IsDistinct slug s streams owned.distinct;
    fresh = fresh;
    owner = λ q t e. elim (Bool-cases (str_eq slug q)) [
      | inl same ↦
          let here : slug ≡ q = (str_eq_iff slug q).0 same in
          let is_s : s ≡ t = some-injective s t (ground (arith, lookup-insert slug q s streams)) in
          subst (λ q'. IsOwner lib (Held q' (insert slug s streams)) t cs') here
            (subst (λ t'. IsOwner lib (Held slug (insert slug s streams)) t' cs') is_s
              (put-IsOwner s cs' fresh o kept))
      | inr differs ↦
          let found : lookup q streams ≡ some t = ground (arith, lookup-insert slug q s streams) in
          let away : q ≢ slug = ground (arith, str_eq_iff slug q) in
          let was = owned.owner q t found in
          IsOwner-move lib disk (Held q (insert slug s streams)) cs' was fresh
            (λ c k. kept c (q, t, found, away, k))
            (λ c h. elim (Held-cases s q c h) [
              | inl mine ↦
                  let (open_at, apart) = owner_open lib disk o c mine in
                  (open_at, λ k. apart (q, t, found, away, k))
              | inr (before, held) ↦ (kept c held, λ k. (owner_open lib disk was c k).1 before)
            ])
    ];
  }

  -- A stream is removed from under its slug, and no channel of another stream is closed.
  pub remove-IsOwned :
      (s : Stream) (cs' : Channels)
      → IsOwned lib streams cs
      → lookup slug streams ≡ some s
      → IsFresh cs'
      → ((c : ℕ) → IsOpen cs c → (Owns s c → ⊥) → IsOpen cs' c)
      → IsOwned lib (remove slug streams) cs'
  remove-IsOwned s cs' owned found fresh kept = record {
    distinct = remove-IsDistinct slug streams owned.distinct;
    fresh = fresh;
    owner = λ q t e.
        let here : lookup q streams ≡ some t = ground (arith, lookup-remove slug q streams) in
        let away : q ≢ slug = ground (arith, lookup-remove slug q streams, str_eq_iff slug q) in
        let was = owned.owner q t here in
        let of_s = owned.owner slug s found in
        IsOwner-move lib disk (Held q (remove slug streams)) cs' was fresh
          (λ c k.
            kept c (owner_open lib disk was c k).0
              (λ m. (owner_open lib disk of_s c m).1 (q, t, here, away, k)))
          (λ c h.
            let (r, u, found_r, other, o) = h in
            let e' : lookup r streams ≡ some u = ground (arith, lookup-remove slug r streams) in
            let gone : r ≢ slug = ground (arith, lookup-remove slug r streams, str_eq_iff slug r) in
            (
              kept c (owner_open lib disk (owned.owner r u e') c o).0
                  (λ m. (owner_open lib disk of_s c m).1 (r, u, e', gone, o)),
              λ k. (owner_open lib disk was c k).1 (r, u, e', other, o),
            ));
  }

-- Every channel of the stream may be closed, no other is.
pub record Frees (s : Stream) (cs cs' : Channels) : Type 0 where
  pub fresh : IsFresh cs'
  pub kept : (c : ℕ) → IsOpen cs c → (Owns s c → ⊥) → IsOpen cs' c

module _ (lib : Library) (disk : lib.Disk) (held : ℕ → Type 0) (s : Stream) (cs : Channels) where
  close_alive-Frees : (o : IsOwner lib held s cs) → IsFresh cs → Frees s cs (after_close s.alive cs)
  close_alive-Frees o fresh = record {
    fresh = λ c h. ground (arith, fresh c, o.alive.0);
    kept = λ c h apart. (h.0, ground (arith, h.1, λ (e : c ≡ s.alive). apart (inl e)));
  }

  tracked_after_alive :
      (p : HlsParser)
      → s.parser ≡ some p
      → IsOwner lib held s cs
      → (c : ℕ) → Tracks p.files c
      → IsOpen (after_close s.alive cs) c
  tracked_after_alive p e o c k =
      let (made, is_open) = (owner_open lib disk o c (inr (p, e, k))).0 in
      let differs : c ≢ s.alive = λ x. alive_apart lib disk o p e (subst (Tracks p.files) x k) in
      (made, ground (arith, is_open))

  cleanup_parser-Frees :
      (p : Option HlsParser)
      → s.parser ≡ p
      → IsOwner lib held s cs
      → IsFresh cs
      → Runs (Frees s cs) (cleanup_parser p (after_close s.alive cs))
  unfolding cleanup_parser
  cleanup_parser-Frees none e o fresh = Runs-some _ _ (close_alive-Frees o fresh)
  cleanup_parser-Frees (some p) e o fresh =
      let closed = close_alive-Frees o fresh in
      let h =
        HasFiles-move lib (λ c. ⊥) (after_close s.alive cs) (o.safe p e [] disk).has closed.fresh
          (λ c k. tracked_after_alive p e o c k) (λ c x. elim x [ ]) [] disk in
      let done = close_tracked_lem lib (λ c. ⊥) _ h in
      record {
        result = done.result;
        runs = done.runs;
        holds = record {
          fresh = λ c above.
              let before : cs.next ≤ c = rw done.holds.same_next at above in
              done.holds.only c (closed.fresh c before)
                (λ path found. let made = h.tracked.made path c found in omega arith);
          kept = λ c is_open apart.
              let (made, still) = closed.kept c is_open apart in
              (
                rw done.holds.same_next made,
                done.holds.only c still
                    (λ path found. apart (inr (p, e, rw h.at (unfold Tracks in (path, found))))),
              );
        };
      }

  -- `Cleanup` of a stream that owns its channels closes none of them twice, and no other.
  pub cleanup-Frees : IsOwner lib held s cs → IsFresh cs → Runs (λ r. Frees s cs r.1) (cleanup s cs)
  unfolding cleanup
  cleanup-Frees o fresh = rw (close_open s.alive cs o.alive.1) (
      Runs-bind (Frees s cs) (λ (r : Stream × Channels). Frees s cs r.1) _ _
        (cleanup_parser-Frees s.parser refl o fresh) (λ cs' h. Runs-some _ _ h))
