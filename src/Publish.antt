-- ===== src/Publish.antt =====
-- The publisher (publish/publisher.go): the streams that the scrapers find are kept in the key-value store
-- until they were not seen for `ttl` ticks. A time to live below 0 counts like 0. `store` is what the
-- publisher's calls have made of the key-value store; whether a call succeeds is what `World` says.
pub mod Expiry
pub mod Refresh
pub mod Sources
pub mod Tests
use stream_api.Base.{
  ℕ, ◌-◌, Bool, true, false, Option, none, some, is_some, List, [], ◌∷◌, ◌++◌, Str, str_Eq,
  if◌then◌else◌, ltb,
}
use stream_api.Base.Dict.{Dict, lookup, insert, remove}
use stream_api.Client.Path.{stream_path}
use stream_api.Transcode.Claim.{Stream}

pub record StoredStream : Type 0 where
  pub st : Stream
  pub ttl : ℕ

pub record Publisher : Type 0 where
  pub ttl : ℕ
  pub streams : Dict Str StoredStream
  pub store : Dict Str Stream

pub record World : Type 0 where
  pub puts : Str → Bool
  pub deletes : Str → Bool

module _ (world : World) where
  -- `publishStream`: whether it succeeded.
  publish_stream : Stream → Publisher → Bool × Publisher
  unfolding insert
  publish_stream s p =
      let key = stream_path s.slug in
      if world.puts key then (true, record p { store = insert key s p.store }) else (false, p)

  unpublish_stream : StoredStream → Publisher → Bool × Publisher
  unfolding remove
  unpublish_stream stored p =
      let key = stream_path stored.st.slug in
      if world.deletes key then (true, record p { store = remove key p.store }) else (false, p)

  renew : Str → Option StoredStream → Publisher → Publisher
  unfolding insert
  renew slug none p = p
  renew slug (some stored) p = record p {
    streams = insert slug (record stored { ttl = p.ttl }) p.streams;
  }

  abbrev add_new : Bool → Bool → Stream → ℕ → List StoredStream → List StoredStream
  add_new exists done s ttl new =
      if exists then new else if done then record { st = s; ttl = ttl } ∷ new else new

  -- The loop of `processUpdate`: the new streams, in order, and the publisher.
  update_loop : List Stream → Publisher → List StoredStream × Publisher
  unfolding publish_stream renew lookup
  update_loop [] p = ([], p)
  update_loop (s ∷ streams) p =
      let found = lookup s.slug p.streams in
      let (done, published) = publish_stream s (renew s.slug found p) in
      let (new, after) = update_loop streams published in
      (add_new (is_some found) done s p.ttl new, after)

  store_new : List StoredStream → Publisher → Publisher
  unfolding insert
  store_new [] p = p
  store_new (s ∷ new) p = store_new new (record p { streams = insert s.st.slug s p.streams })

  unfoldable pub process_update : List Stream → Publisher → Publisher
  unfolding update_loop store_new stream_path
  process_update streams p = let (new, after) = update_loop streams p in store_new new after

  -- One stream of a tick: a younger one stays, and one that is over goes if it can be unpublished.
  age_stream : Str → StoredStream → Publisher → Publisher
  unfolding unpublish_stream insert remove
  age_stream slug stored p =
      let older = record stored { ttl = stored.ttl - 1 } in
      let aged = record p { streams = insert slug older p.streams } in
      let (done, left) = unpublish_stream older aged in
      if ltb 0 older.ttl
      then aged
      else (if done then record left { streams = remove slug left.streams } else left)

  expire_loop : Dict Str StoredStream → Publisher → Publisher
  unfolding age_stream
  expire_loop [] p = p
  expire_loop ((slug, stored) ∷ entries) p = expire_loop entries (age_stream slug stored p)

  unfoldable pub expire : Publisher → Publisher
  unfolding expire_loop stream_path
  expire p = expire_loop p.streams p

  process_scrapes : List (Option (List Stream)) → Publisher → Publisher
  unfolding process_update
  process_scrapes [] p = p
  process_scrapes (none ∷ scrapes) p = process_scrapes scrapes p
  process_scrapes (some streams ∷ scrapes) p = process_scrapes scrapes (process_update streams p)

  -- A tick: what each scraper came to, an error being `none`, then the expiry.
  unfoldable pub tick : List (Option (List Stream)) → Publisher → Publisher
  unfolding process_scrapes expire
  tick scrapes p = expire (process_scrapes scrapes p)
