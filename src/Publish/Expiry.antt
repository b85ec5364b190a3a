-- ===== src/Publish/Expiry.antt =====
-- How long a stream stays published without being seen (publish/publisher.go).
use stream_api.Base.{
  ℕ, zero, suc, ◌-◌, ◌≡◌, refl, ap, ◌∙◌, true, false, Option, none, some, is_some, [], ◌∷◌, Str,
  str_Eq, str_eq, str_eq_iff, if◌then◌else◌, ltb, arith, Bool-cases, inl, inr,
}
use stream_api.Base.Dict.{
  Dict, lookup, insert, lookup-insert, lookup-remove, IsDistinct, insert-IsDistinct,
  remove-IsDistinct,
}
use stream_api.Client.Path.{stream_path}
use stream_api.Publish.{
  StoredStream, Publisher, World, unpublish_stream, age_stream, expire_loop, expire,
}

module _ (world : World) where
  -- What one tick without a sight makes of a stream.
  abbrev pub aged : Option StoredStream → Option StoredStream
  aged none = none
  aged (some stored) =
      if ltb 1 stored.ttl
      then some (record stored { ttl = stored.ttl - 1 })
      else if world.deletes (stream_path stored.st.slug)
      then none
      else some (record stored { ttl = 0 })

  age_stream_lem :
      (slug q : Str) (stored : StoredStream) (p : Publisher)
      → lookup q (age_stream world slug stored p).streams
        ≡ (if str_eq slug q then aged (some stored) else lookup q p.streams)
  unfolding age_stream unpublish_stream
  age_stream_lem slug q stored p =
      let older = record stored { ttl = stored.ttl - 1 } in
      ground (
        arith,
        lookup-insert slug q older p.streams,
        lookup-remove slug q (insert slug older p.streams),
        str_eq_iff slug q,
      )

  age_stream-IsDistinct :
      (slug : Str) (stored : StoredStream) (p : Publisher)
      → IsDistinct p.streams
      → IsDistinct (age_stream world slug stored p).streams
  unfolding age_stream unpublish_stream
  age_stream-IsDistinct slug stored p h =
      let older : StoredStream = record stored { ttl = stored.ttl - 1 } in
      let kept = insert-IsDistinct slug older p.streams h in
      elim (Bool-cases (ltb 0 older.ttl)) [
        | inl young ↦ rw young kept
        | inr over ↦ elim (Bool-cases (world.deletes (stream_path stored.st.slug))) [
          | inl gone ↦ rw (over, gone) (remove-IsDistinct slug (insert slug older p.streams) kept)
          | inr held ↦ rw (over, held) kept
        ]
      ]

  expire_loop_lem :
      (entries : Dict Str StoredStream) (p : Publisher) (q : Str)
      → IsDistinct entries
      → lookup q (expire_loop world entries p).streams
        ≡ (if is_some (lookup q entries) then aged (lookup q entries) else lookup q p.streams)
  unfolding expire_loop lookup
  expire_loop_lem [] p q d = refl
  expire_loop_lem ((slug, stored) ∷ entries) p q (fresh, d) = ground (
    arith,
    expire_loop_lem entries (age_stream world slug stored p) q d,
    age_stream_lem slug q stored p,
    str_eq_iff slug q,
    fresh,
  )

  expire_loop-IsDistinct :
      (entries : Dict Str StoredStream) (p : Publisher)
      → IsDistinct p.streams
      → IsDistinct (expire_loop world entries p).streams
  unfolding expire_loop
  expire_loop-IsDistinct [] p h = h
  expire_loop-IsDistinct ((slug, stored) ∷ entries) p h =
      expire_loop-IsDistinct entries (age_stream world slug stored p)
        (age_stream-IsDistinct slug stored p h)

  unfoldable pub expire_times : ℕ → Publisher → Publisher
  unfolding expire
  expire_times zero p = p
  expire_times (suc n) p = expire_times n (expire world p)

  lookup-expire :
      (p : Publisher) (q : Str)
      → IsDistinct p.streams
      → lookup q (expire world p).streams ≡ aged (lookup q p.streams)
  unfolding expire
  lookup-expire p q d = ground (arith, expire_loop_lem p.streams p q d)

  expire-IsDistinct : (p : Publisher) → IsDistinct p.streams → IsDistinct (expire world p).streams
  unfolding expire
  expire-IsDistinct p d = expire_loop-IsDistinct p.streams p d

  expire_times_gone :
      (n : ℕ) (p : Publisher) (q : Str)
      → IsDistinct p.streams
      → lookup q p.streams ≡ none
      → lookup q (expire_times n p).streams ≡ none
  unfolding expire_times
  expire_times_gone zero p q d h = h
  expire_times_gone (suc n) p q d h =
      expire_times_gone n (expire world p) q (expire-IsDistinct p d)
        (lookup-expire p q d ∙ ap aged h)

  -- In a map without double slugs, where every deletion succeeds, a stream that is not seen for `n` + 1 ticks
  -- is still in the map, with what is left of its time to live, exactly if that is more than `n` + 1.
  pub lookup-expire_times :
      (n : ℕ) (p : Publisher) (q : Str) (stored : StoredStream)
      → ((key : Str) → world.deletes key ≡ true)
      → IsDistinct p.streams
      → lookup q p.streams ≡ some stored
      → lookup q (expire_times (suc n) p).streams ≡ (
          if ltb (suc n) stored.ttl
          then some (record stored { ttl = stored.ttl - suc n })
          else none)
  unfolding expire_times
  lookup-expire_times zero p q stored deletes d found =
      ground (arith, lookup-expire p q d, found, deletes (stream_path stored.st.slug))
  lookup-expire_times (suc n) p q stored deletes d found =
      let first : lookup q (expire world p).streams ≡ aged (some stored) =
        lookup-expire p q d ∙ ap aged found in
      elim (Bool-cases (ltb 1 stored.ttl)) [
        | inl young ↦
            let left : StoredStream = record stored { ttl = stored.ttl - 1 } in
            let rest =
              lookup-expire_times n (expire world p) q left deletes (expire-IsDistinct p d)
                (ground (arith, first, young)) in
            let e : stored.ttl - 1 - suc n ≡ stored.ttl - suc (suc n) = omega arith in
            let t : ltb (suc n) (stored.ttl - 1) ≡ ltb (suc (suc n)) stored.ttl = ground arith in
            rw (← e, ← t) rest
        | inr over ↦
            let gone =
              expire_times_gone (suc n) (expire world p) q (expire-IsDistinct p d)
                (ground (arith, first, over, deletes (stream_path stored.st.slug))) in
            let t : ltb (suc (suc n)) stored.ttl ≡ false = ground arith in rw t gone
      ]
