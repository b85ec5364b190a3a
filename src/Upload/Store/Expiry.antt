-- ===== src/Upload/Store/Expiry.antt =====
-- Which streams `timeout` and `Stop` of upload/stream_store.go remove.
use stream_api.Base.{
  ◌∙◌, ℕ, ◌≡◌, refl, Option, none, some, [], ◌∷◌, Str, str_Eq, str_eq, str_eq_iff, if◌then◌else◌,
  arith, is_some,
}
use stream_api.Base.Int.{pos, ◌-ℤ◌, leb_ℤ}
use stream_api.Base.Dict.{Dict, lookup, insert, lookup-insert, lookup-remove, IsDistinct}
use stream_api.Upload.Stream.{Stream, age}
use stream_api.Upload.Store.{
  StreamStore, remove_stream, age_stream, timeout_loop, timeout, get_stream,
}

-- A stream one interval older, if its time to live is not over by then.
abbrev by_age : ℕ → Option Stream → Option Stream
by_age interval none = none
by_age interval (some s) = if (age interval s).0 then none else some (age interval s).1

-- The same by its time to live.
abbrev pub aged : ℕ → Option Stream → Option Stream
aged interval none = none
aged interval (some s) =
    let left = s.ttl -ℤ pos interval in
    if leb_ℤ left (pos 0) then none else some (record s { ttl = left })

aged_lem : (interval : ℕ) (o : Option Stream) → by_age interval o ≡ aged interval o
unfolding age
aged_lem interval none = refl
aged_lem interval (some s) = refl

age_stream_lem :
    (slug q : Str) (s : Stream) (st : StreamStore)
    → lookup slug st.streams ≡ some s
    → lookup q (age_stream slug s st).streams ≡ (
        if str_eq slug q
        then by_age st.config.stream_expire_interval (some s)
        else lookup q st.streams)
unfolding age_stream remove_stream
age_stream_lem slug q s st h = ground (
  arith,
  lookup-insert slug q (age st.config.stream_expire_interval s).1 st.streams,
  lookup-insert slug slug (age st.config.stream_expire_interval s).1 st.streams,
  lookup-remove slug q (insert slug (age st.config.stream_expire_interval s).1 st.streams),
  str_eq_iff slug q,
  str_eq_iff slug slug,
)

config-age_stream :
    (slug : Str) (s : Stream) (st : StreamStore) → (age_stream slug s st).config ≡ st.config
unfolding age_stream remove_stream
config-age_stream slug s st = ground arith

timeout_loop_lem :
    (entries : Dict Str Stream) (st : StreamStore) (q : Str)
    → IsDistinct entries
    → ((p : Str) (s : Stream) → lookup p entries ≡ some s → lookup p st.streams ≡ some s)
    → lookup q (timeout_loop entries st).streams ≡ (
        if is_some (lookup q entries)
        then by_age st.config.stream_expire_interval (lookup q entries)
        else lookup q st.streams)
unfolding timeout_loop lookup
timeout_loop_lem [] st q d agree = refl
timeout_loop_lem ((slug, s) ∷ entries) st q (fresh, d) agree =
    let here : lookup slug st.streams ≡ some s =
      agree slug s (ground (arith, str_eq_iff slug slug)) in
    let next = age_stream slug s st in
    let step : (x : Str)
        → lookup x next.streams ≡ (
            if str_eq slug x
            then by_age st.config.stream_expire_interval (some s)
            else lookup x st.streams) =
      λ x. age_stream_lem slug x s st here in
    let rest =
      timeout_loop_lem entries next q d
        (λ x s' h. ground (arith, step x, agree x s', str_eq_iff slug x, fresh, h)) in
    ground (arith, rest, step q, fresh, str_eq_iff slug q, config-age_stream slug s st)

-- One pass of `timeout` over a store without double slugs: each stream is one expire interval older, and exactly those whose time to live
-- is over by then are gone. No stream appears.
pub get_stream-timeout :
    (st : StreamStore) (slug : Str)
    → IsDistinct st.streams
    → get_stream slug (timeout st) ≡ aged st.config.stream_expire_interval (get_stream slug st)
unfolding get_stream timeout
get_stream-timeout st slug d =
    ground (arith, timeout_loop_lem st.streams st slug d (λ p s h. h))
    ∙ aged_lem st.config.stream_expire_interval (lookup slug st.streams)
