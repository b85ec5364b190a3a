-- ===== src/Proxy/Sinks/Update.antt =====
-- Which sinks the proxy has after a new configuration (cmd/upload-proxy/proxy.go).
use stream_api.Base.{
  ℕ, ◌≡◌, refl, ap, Option, none, some, is_some, List, [], ◌∷◌, ◌++◌, Str, str_eq, str_eq_iff,
  if◌then◌else◌, arith, Bool-cases, Option-cases, inl, inr,
}
use stream_api.Proxy.{SinkConfig}
use stream_api.Proxy.Url.{Url}
use stream_api.Proxy.Sink.{
  Sink, SinkError, invalid_address, new_sink, start_grace_period, update_config,
}
use stream_api.Proxy.Sinks.{
  first_err, is_configured, mark_removed, update_first, update_sinks, create_sinks, update_proxy,
}

-- The sink of an address, and the configuration of an address: the first one.
unfoldable pub find_sink : Str → List Sink → Option Sink
find_sink address [] = none
find_sink address (s ∷ sinks) =
    if str_eq s.conf.address address then some s else find_sink address sinks

unfoldable pub find_conf : Str → List SinkConfig → Option SinkConfig
find_conf address [] = none
find_conf address (c ∷ confs) = if str_eq c.address address then some c else find_conf address confs

-- No address is configured twice.
unfoldable pub IsApart : List SinkConfig → Type 0
unfolding find_conf
IsApart [] = Unit
IsApart (c ∷ confs) = (find_conf c.address confs ≡ none) × IsApart confs

abbrev pub map_sink : (Sink → Sink) → Option Sink → Option Sink
map_sink f none = none
map_sink f (some s) = some (f s)

abbrev pub by_conf : Option SinkConfig → Sink → Sink
by_conf none s = s
by_conf (some c) s = (update_config c s).1

configured-find :
    (address : Str) (confs : List SinkConfig)
    → is_configured address confs ≡ is_some (find_conf address confs)
unfolding is_configured find_conf
configured-find address [] = refl
configured-find address (c ∷ confs) = ground (
  arith,
  configured-find address confs,
  str_eq_iff address c.address,
  str_eq_iff c.address address,
)

find-mark_removed :
    (now : ℕ) (confs : List SinkConfig) (address : Str) (sinks : List Sink)
    → find_sink address (mark_removed now confs sinks)
      ≡ map_sink
          (λ s. if is_configured address confs then s else start_grace_period now s)
          (find_sink address sinks)
unfolding find_sink mark_removed start_grace_period
find-mark_removed now confs address [] = refl
find-mark_removed now confs address (s ∷ sinks) =
    ground (arith, find-mark_removed now confs address sinks, str_eq_iff s.conf.address address)

update_config-address :
    (c : SinkConfig) (s : Sink)
    → c.address ≡ s.conf.address
    → (update_config c s).1.conf.address ≡ s.conf.address
unfolding update_config
update_config-address c s h = ground (arith, h)

update_first_lem :
    (c : SinkConfig) (address : Str) (sinks : List Sink)
    → ((update_first c sinks).0 ≡ is_some (find_sink c.address sinks))
      × (find_sink address (update_first c sinks).2 ≡ (
          if str_eq c.address address
          then map_sink (λ s. (update_config c s).1) (find_sink address sinks)
          else find_sink address sinks))
unfolding find_sink update_first
update_first_lem c address [] = ground arith
update_first_lem c address (s ∷ sinks) = ground (
  arith,
  update_first_lem c address sinks,
  str_eq_iff s.conf.address address,
  str_eq_iff s.conf.address c.address,
  str_eq_iff c.address address,
  update_config-address c s,
)

update_sinks_lem :
    (confs : List SinkConfig) (err : Option SinkError) (address : Str) (sinks : List Sink)
    → IsApart confs
    → (find_sink address (update_sinks confs err sinks).2
        ≡ map_sink (by_conf (find_conf address confs)) (find_sink address sinks))
      × (find_conf address (update_sinks confs err sinks).1
          ≡ (if is_some (find_sink address sinks) then none else find_conf address confs))
unfolding find_conf update_sinks IsApart
update_sinks_lem [] err address sinks h = ground arith
update_sinks_lem (c ∷ confs) err address sinks (fresh, h) =
    let first = update_first c sinks in
    ground (
      arith,
      update_sinks_lem confs (first_err first.1 err) address first.2 h,
      update_first_lem c address sinks,
      str_eq_iff c.address address,
      fresh,
    )

new_confs-IsApart :
    (confs : List SinkConfig) (err : Option SinkError) (sinks : List Sink)
    → IsApart confs
    → IsApart (update_sinks confs err sinks).1
unfolding update_sinks IsApart
new_confs-IsApart [] err sinks h = tt
new_confs-IsApart (c ∷ confs) err sinks (fresh, h) =
    let first = update_first c sinks in
    let rest = new_confs-IsApart confs (first_err first.1 err) first.2 h in
    let alone = (update_sinks_lem confs (first_err first.1 err) c.address first.2 h).1 in
    elim (Bool-cases first.0) [
      | inl found ↦ rw found rest
      | inr new ↦ rw new (ground (arith, alone, fresh), rest)
    ]

abbrev or_else : Option Sink → Option Sink → Option Sink
or_else none o = o
or_else (some s) o = some s

find_sink-append :
    (address : Str) (sinks : List Sink) (s : Sink)
    → find_sink address (sinks ++ (s ∷ []))
      ≡ or_else (find_sink address sinks) (if str_eq s.conf.address address then some s else none)
unfolding find_sink
find_sink-append address [] s = ground arith
find_sink-append address (t ∷ sinks) s = ground (arith, find_sink-append address sinks s)

module _ (parse_url : Str → Option Url) where
  abbrev created : Option SinkConfig → Option Sink
  created none = none
  created (some c) = new_sink c (parse_url c.address)

  new_sink-conf : (c : SinkConfig) (s : Sink) (o : Option Url) → new_sink c o ≡ some s → s.conf ≡ c
  unfolding new_sink
  new_sink-conf c s none h = cc
  new_sink-conf c s (some url) h = ground (arith, h)

  create_sinks_lem :
      (confs : List SinkConfig) (err : Option SinkError) (address : Str) (sinks : List Sink)
      → IsApart confs
      → find_sink address (create_sinks parse_url confs err sinks).1
        ≡ or_else (find_sink address sinks) (created (find_conf address confs))
  unfolding find_conf create_sinks IsApart
  create_sinks_lem [] err address sinks h = ground arith
  create_sinks_lem (c ∷ confs) err address sinks (fresh, h) =
      elim (Option-cases (new_sink c (parse_url c.address))) [
        | inl failed ↦
            rw (failed, create_sinks)
              (ground (
                arith,
                create_sinks_lem confs (first_err (some (invalid_address c.address)) err) address
                    sinks h,
                failed,
                str_eq_iff c.address address,
                fresh,
              ))
        | inr (s, made) ↦
            rw (made, create_sinks)
              (ground (
                arith,
                create_sinks_lem confs err address (sinks ++ (s ∷ [])) h,
                made,
                find_sink-append address sinks s,
                ap (λ (conf : SinkConfig). conf.address)
                    (new_sink-conf c s (parse_url c.address) made),
                str_eq_iff c.address address,
                fresh,
              ))
      ]

  -- The sink of an address after an update, by its configuration and the sink before.
  abbrev pub after : ℕ → Option SinkConfig → Option Sink → Option Sink
  after now (some c) (some s) = some (update_config c s).1
  after now (some c) none = new_sink c (parse_url c.address)
  after now none (some s) = some (start_grace_period now s)
  after now none none = none

  -- After a new configuration that names no address twice, the sink of any address is: the updated one if
  -- it is configured and has a sink; a new one if it is configured and has none, unless the address is no
  -- URL; the sink before, in its grace period, if it is not configured any more; and else none.
  pub find-update_proxy :
      (now : ℕ) (confs : List SinkConfig) (address : Str) (sinks : List Sink)
      → IsApart confs
      → find_sink address (update_proxy parse_url now confs sinks).1
        ≡ after now (find_conf address confs) (find_sink address sinks)
  unfolding update_proxy
  find-update_proxy now confs address sinks h =
      let marked = mark_removed now confs sinks in
      let updated = update_sinks confs none marked in
      ground (
        arith,
        create_sinks_lem updated.1 updated.0 address updated.2
            (new_confs-IsApart confs none marked h),
        update_sinks_lem confs none address marked h,
        find-mark_removed now confs address sinks,
        configured-find address confs,
      )
