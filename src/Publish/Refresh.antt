-- ===== src/Publish/Refresh.antt =====
-- What the streams of a scrape make of the publisher's map (publish/publisher.go).
use stream_api.Base.{
  subst, ℕ, ◌≡◌, refl, sym, ap, ◌∙◌, Bool, true, false, ◌&&◌, ◌||◌, Option, none, some, is_some,
  List, [], ◌∷◌, Str, str_Eq, str_eq, str_eq_iff, if◌then◌else◌, arith,
}
use stream_api.Base.Dict.{lookup, insert, lookup-insert}
use stream_api.Client.Path.{stream_path}
use stream_api.Transcode.Claim.{Stream}
use stream_api.Publish.{
  StoredStream, Publisher, World, publish_stream, renew, add_new, update_loop, store_new,
  process_update,
}

abbrev pub is_seen : Str → List Stream → Bool
is_seen slug [] = false
is_seen slug (s ∷ streams) = str_eq s.slug slug || is_seen slug streams

abbrev or_else {ℓ} : {A : Type ℓ} → Option A → Option A → Option A
or_else none o = o
or_else (some a) o = some a

abbrev pub later {ℓ} : {A : Type ℓ} → Option A → Option A → Option A
later none first = first
later (some a) first = some a

module _ (world : World) where
  -- The last stream of the slug that could be published.
  abbrev pub newest : Str → List Stream → Option Stream
  newest slug [] = none
  newest slug (s ∷ streams) =
      later (newest slug streams)
        (if str_eq s.slug slug && world.puts (stream_path s.slug) then some s else none)

  abbrev pub stored_as : ℕ → Option Stream → Option StoredStream
  stored_as ttl none = none
  stored_as ttl (some s) = some (record { st = s; ttl = ttl })

  -- A stream in the map keeps its data and is renewed if it was seen; another one comes in if it could be
  -- published.
  abbrev pub refreshed : ℕ → Str → List Stream → Option StoredStream → Option StoredStream
  refreshed ttl slug streams none = stored_as ttl (newest slug streams)
  refreshed ttl slug streams (some stored) =
      some (if is_seen slug streams then record stored { ttl = ttl } else stored)

  abbrev renewed : ℕ → Bool → Option StoredStream → Option StoredStream
  renewed ttl seen none = none
  renewed ttl seen (some stored) = some (if seen then record stored { ttl = ttl } else stored)

  step : Stream → Publisher → Publisher
  unfolding lookup
  step s p = (publish_stream world s (renew world s.slug (lookup s.slug p.streams) p)).1

  step_lem :
      (s : Stream) (p : Publisher) (q : Str)
      → (lookup q (step s p).streams ≡ renewed p.ttl (str_eq s.slug q) (lookup q p.streams))
        × ((step s p).ttl ≡ p.ttl)
  unfolding step publish_stream renew
  step_lem s p q = by_found (lookup s.slug p.streams) refl
    where
      by_found :
          (o : Option StoredStream)
          → lookup s.slug p.streams ≡ o
          → (lookup q (publish_stream world s (renew world s.slug o p)).1.streams
              ≡ renewed p.ttl (str_eq s.slug q) (lookup q p.streams))
            × ((publish_stream world s (renew world s.slug o p)).1.ttl ≡ p.ttl)
      by_found none e = ground (arith, e, str_eq_iff s.slug q)
      by_found (some stored) e = ground (
        arith,
        e,
        str_eq_iff s.slug q,
        lookup-insert s.slug q (record stored { ttl = p.ttl }) p.streams,
      )

  last_of : Str → List StoredStream → Option StoredStream
  last_of slug [] = none
  last_of slug (s ∷ new) = later (last_of slug new) (if str_eq s.st.slug slug then some s else none)

  store_new_lem :
      (new : List StoredStream) (p : Publisher) (q : Str)
      → lookup q (store_new world new p).streams ≡ later (last_of q new) (lookup q p.streams)
  unfolding store_new last_of
  store_new_lem [] p q = refl
  store_new_lem (s ∷ new) p q = ground (
    arith,
    store_new_lem new (record p { streams = insert s.st.slug s p.streams }) q,
    lookup-insert s.st.slug q s p.streams,
  )

  put_done :
      (s : Stream) (p : Publisher) → (publish_stream world s p).0 ≡ world.puts (stream_path s.slug)
  unfolding publish_stream
  put_done s p = ground arith

  renewed_twice :
      (ttl : ℕ) (a b : Bool) (o : Option StoredStream)
      → renewed ttl b (renewed ttl a o) ≡ renewed ttl (a || b) o
  renewed_twice ttl true true none = refl
  renewed_twice ttl true false none = refl
  renewed_twice ttl false b none = refl
  renewed_twice ttl true true (some stored) = refl
  renewed_twice ttl true false (some stored) = refl
  renewed_twice ttl false b (some stored) = refl

  renewed_never : (ttl : ℕ) (o : Option StoredStream) → o ≡ renewed ttl false o
  renewed_never ttl none = refl
  renewed_never ttl (some stored) = refl

  known_after :
      (ttl : ℕ) (seen : Bool) (o : Option StoredStream) → is_some (renewed ttl seen o) ≡ is_some o
  known_after ttl seen none = refl
  known_after ttl seen (some stored) = refl

  -- What the loop adds for one stream.
  added_lem :
      (s : Stream) (q : Str) (ttl : ℕ) (known : Bool) (new : List StoredStream)
      (rest : Option Stream)
      → last_of q new ≡ (if known then none else stored_as ttl rest)
      → (known_s : Bool) → (str_eq s.slug q ≡ true → known_s ≡ known)
      → last_of q (add_new world known_s (world.puts (stream_path s.slug)) s ttl new) ≡ (
          if known
          then none
          else stored_as ttl (
              later rest
                (if str_eq s.slug q && world.puts (stream_path s.slug) then some s else none)))
  unfolding last_of
  added_lem s q ttl known new none h known_s same = ground (arith, h, same)
  added_lem s q ttl known new (some r) h known_s same = ground (arith, h, same)

  update_loop_lem :
      (streams : List Stream) (p : Publisher) (q : Str)
      → (lookup q (update_loop world streams p).1.streams
          ≡ renewed p.ttl (is_seen q streams) (lookup q p.streams))
        × (last_of q (update_loop world streams p).0
            ≡ (if is_some (lookup q p.streams) then none else stored_as p.ttl (newest q streams)))
  unfolding update_loop last_of step
  update_loop_lem [] p q = (renewed_never p.ttl (lookup q p.streams), ground arith)
  update_loop_lem (s ∷ streams) p q =
      let (after, new) = update_loop_lem streams (step s p) q in
      let (one, ttl) = step_lem s p q in
      let same_ttl : renewed (step s p).ttl (is_seen q streams) (lookup q (step s p).streams)
          ≡ renewed p.ttl (is_seen q streams)
              (renewed p.ttl (str_eq s.slug q) (lookup q p.streams)) =
        ap (λ (t : ℕ). renewed t (is_seen q streams) (lookup q (step s p).streams)) ttl
        ∙ ap (renewed p.ttl (is_seen q streams)) one in
      let known : is_some (lookup q (step s p).streams) ≡ is_some (lookup q p.streams) =
        ap (λ (o : Option StoredStream). is_some o) one
        ∙ known_after p.ttl (str_eq s.slug q) (lookup q p.streams) in
      let rest : last_of q (update_loop world streams (step s p)).0
          ≡ (if is_some (lookup q p.streams) then none else stored_as p.ttl (newest q streams)) =
        new
        ∙ ap (λ (b : Bool). if b then none else stored_as (step s p).ttl (newest q streams)) known
        ∙ ap
            (λ (t : ℕ).
              if is_some (lookup q p.streams) then none else stored_as t (newest q streams))
            ttl in
      (
        after
            ∙ same_ttl
            ∙ renewed_twice p.ttl (str_eq s.slug q) (is_seen q streams) (lookup q p.streams),
        subst
            (λ (d : Bool).
              last_of q (
                add_new world (is_some (lookup s.slug p.streams)) d s p.ttl
                  (update_loop world streams (step s p)).0)
              ≡ (if is_some (lookup q p.streams)
                  then none
                  else stored_as p.ttl (newest q (s ∷ streams))))
            (sym (put_done s (renew world s.slug (lookup s.slug p.streams) p)))
            (added_lem s q p.ttl (is_some (lookup q p.streams))
              (update_loop world streams (step s p)).0 (newest q streams) rest
              (is_some (lookup s.slug p.streams))
              (λ e. ap (λ (k : Str). is_some (lookup k p.streams)) ((str_eq_iff s.slug q).0 e))),
      )

  refreshed_parts :
      (ttl : ℕ) (q : Str) (streams : List Stream) (o : Option StoredStream)
      → later
          (if is_some o then none else stored_as ttl (newest q streams))
          (renewed ttl (is_seen q streams) o)
        ≡ refreshed ttl q streams o
  refreshed_parts ttl q streams (some stored) = refl
  refreshed_parts ttl q streams none = by_new (stored_as ttl (newest q streams))
    where
      by_new : (o : Option StoredStream) → later o none ≡ o
      by_new none = refl
      by_new (some s) = refl

  -- After a scrape, a stream that was in the map is in it with its data, renewed exactly if the scrape saw
  -- it; another one is in it, with a whole time to live, exactly if the scrape saw it and it could be put.
  pub lookup-process_update :
      (streams : List Stream) (p : Publisher) (q : Str)
      → lookup q (process_update world streams p).streams
        ≡ refreshed p.ttl q streams (lookup q p.streams)
  unfolding process_update
  lookup-process_update streams p q =
      let (after, new) = update_loop_lem streams p q in
      store_new_lem (update_loop world streams p).0 (update_loop world streams p).1 q
      ∙ ap (λ (o : Option StoredStream). later o (lookup q (update_loop world streams p).1.streams))
          new
      ∙ ap
          (later
            (if is_some (lookup q p.streams) then none else stored_as p.ttl (newest q streams)))
          after
      ∙ refreshed_parts p.ttl q streams (lookup q p.streams)
