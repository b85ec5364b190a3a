-- ===== src/Systemd/Deployed.antt =====
-- The configuration of a unit is on disk while the service lives (systemd/service.go).
use stream_api.Base.{
  ℕ, zero, suc, ◌<◌, ◌≡◌, refl, sym, ap, ◌∙◌, Bool, true, false, not, ◌&&◌, Option, none, some,
  List, [], ◌∷◌, ◌++◌, Str, str_Eq, str_eq, str_eq_iff, codes, if◌then◌else◌, arith, Bool-cases,
  inl, inr, ◌⊎◌,
}
use stream_api.Base.Dict.{lookup, lookup-insert}
use stream_api.Systemd.{
  Faults, restart_unit, UnitStatus, Service, call, is_same, deploy_config, start, stop, sync_units,
  Event, tick, restart, configure, deploy, cancel, finish, configure_pending, deploy_starting,
  handle_event, run_events,
}

-- Unless the service has ended or a call of `Restart` is between its two sections, the configuration is on
-- disk.
pub record IsDeployed (s : Service) : Type 0 where
  pub on_disk :
      (s.stopped ≡ true) ⊎ ((0 < s.starting) ⊎ (lookup s.config_path s.files ≡ some s.config))

is_same_lem : (o : Option Str) (config : Str) → is_same o config ≡ true → o ≡ some config
unfolding is_same
is_same_lem none config h = cc
is_same_lem (some old) config h = ap some ((str_eq_iff old config).0 h)

pub start_lem :
    (f : Faults) (s : Service)
    → f.write_fails ≡ false
    → lookup (start f s).config_path (start f s).files ≡ some (start f s).config
unfolding start call deploy_config
start_lem f s writes =
    elim (Bool-cases (not f.read_fails && is_same (lookup s.config_path s.files) s.config)) [
      | inl same ↦ rw same (by_read f.read_fails same)
      | inr other ↦
          rw (other, writes)
            (ground (
              arith,
              lookup-insert s.config_path s.config_path s.config s.files,
              str_eq_iff s.config_path s.config_path,
            ))
    ]
  where
    by_read :
        (fails : Bool)
        → (not fails && is_same (lookup s.config_path s.files) s.config) ≡ true
        → lookup s.config_path s.files ≡ some s.config
    by_read true h = cc
    by_read false h = is_same_lem (lookup s.config_path s.files) s.config h

-- What a step leaves alone: the configuration and its file, and whether the service has ended.
abbrev SameConfig : Service → Service → Type 0
SameConfig s s' =
    (s'.config ≡ s.config)
    × (s'.config_path ≡ s.config_path)
    × (s'.files ≡ s.files)
    × (s'.starting ≡ s.starting)
    × (s'.stopped ≡ s.stopped)

sync_units-SameConfig : (units : List UnitStatus) (s : Service) → SameConfig s (sync_units units s)
unfolding sync_units call
sync_units-SameConfig [] s = (refl, refl, refl, refl, refl)
sync_units-SameConfig (u ∷ units) s =
    by_state (str_eq u.name s.unit_name && str_eq u.active_state (codes "failed"))
      (sync_units-SameConfig units
        (record s { calls = s.calls ++ (restart_unit s.unit_name ∷ []) }))
      (sync_units-SameConfig units s)
  where
    by_state :
        (failed : Bool)
        → SameConfig s (sync_units units (call (restart_unit s.unit_name) s))
        → SameConfig s (sync_units units s)
        → SameConfig s (sync_units units (if failed then call (restart_unit s.unit_name) s else s))
    by_state true h k = h
    by_state false h k = k

same-IsDeployed : (s s' : Service) → SameConfig s s' → IsDeployed s → IsDeployed s'
same-IsDeployed s s' (config, path, files, starting, stopped) d = record {
  on_disk = by_end d.on_disk;
}
  where
    by_end :
        (s.stopped ≡ true) ⊎ ((0 < s.starting) ⊎ (lookup s.config_path s.files ≡ some s.config))
        → (s'.stopped ≡ true)
          ⊎ ((0 < s'.starting) ⊎ (lookup s'.config_path s'.files ≡ some s'.config))
    by_end (inl e) = inl (stopped ∙ e)
    by_end (inr (inl between)) = inr (inl (rw starting between))
    by_end (inr (inr e)) = inr (
        inr (
          ap (λ k. lookup k s'.files) path
          ∙ ap (lookup s.config_path) files
          ∙ e
          ∙ ap some (sym config)))

handle_event-IsDeployed :
    (f : Faults) (e : Event) (s : Service)
    → f.write_fails ≡ false
    → IsDeployed s
    → IsDeployed (handle_event f e s)
unfolding handle_event
handle_event-IsDeployed f (tick units) s writes d = by_stopped s.stopped
  where
    by_stopped : (ended : Bool) → IsDeployed (if ended then s else sync_units units s)
    by_stopped true = d
    by_stopped false = same-IsDeployed s (sync_units units s) (sync_units-SameConfig units s) d
handle_event-IsDeployed f (restart config) s writes d = by_stopping s.stopping
  where
    by_stopping :
        (ending : Bool)
        → IsDeployed (if ending then s else record s { pending = s.pending ++ (config ∷ []) })
    by_stopping true = d
    by_stopping false = record { on_disk = d.on_disk }
handle_event-IsDeployed f configure s writes d = by_pending s.pending
  where
    by_pending : (pending : List Str) → IsDeployed (configure_pending pending s)
    by_pending [] = unfold configure_pending in d
    by_pending (config ∷ rest) =
        unfold configure_pending in record { on_disk = inr (inl (omega arith)) }
handle_event-IsDeployed f deploy s writes d = by_starting s.starting
  where
    by_starting : (starting : ℕ) → IsDeployed (deploy_starting f starting s)
    by_starting zero = unfold deploy_starting in d
    by_starting (suc n) =
        unfold deploy_starting in
        record { on_disk = inr (inr (start_lem f (record s { starting = n }) writes)) }
handle_event-IsDeployed f cancel s writes d = record { on_disk = d.on_disk }
handle_event-IsDeployed f finish s writes d = by_end (s.stopping && not s.stopped)
  where
    by_end : (ends : Bool) → IsDeployed (if ends then record (stop f s) { stopped = true } else s)
    by_end true = record { on_disk = inl refl }
    by_end false = d

pub run_events-IsDeployed :
    (f : Faults) (events : List Event) (s : Service)
    → f.write_fails ≡ false
    → IsDeployed s
    → IsDeployed (run_events f events s)
unfolding run_events
run_events-IsDeployed f [] s writes d = d
run_events-IsDeployed f (e ∷ events) s writes d =
    run_events-IsDeployed f events (handle_event f e s) writes
      (handle_event-IsDeployed f e s writes d)
