-- ===== src/Systemd/Lifecycle.antt =====
-- The configuration of a unit on disk, from the start of the service to its end (systemd/service.go).
use stream_api.Base.{
  ℕ, zero, suc, ◌<◌, ◌≡◌, refl, Bool, true, false, not, ◌&&◌, none, some, List, [], ◌∷◌, ◌++◌, Str,
  str_Eq, str_eq_iff, if◌then◌else◌, arith, inl, inr, ◌⊎◌, append_assoc,
}
use stream_api.Base.Dict.{lookup, lookup-remove}
use stream_api.Systemd.{
  Faults, Call, disable_unit, stop_unit, Service, call, start, remove_config, stop, sync_units,
  Event, tick, restart, configure, deploy, cancel, finish, configure_pending, deploy_starting,
  handle_event, run_events,
}
use stream_api.Systemd.Deployed.{start_lem, run_events-IsDeployed}

-- The service has ended: nothing is on disk, and its calls were `calls`.
pub record IsDown (calls : List Call) (s : Service) : Type 0 where
  pub ended : s.stopped ≡ true
  pub ending : s.stopping ≡ true
  pub none_pending : s.pending ≡ []
  pub none_starting : s.starting ≡ 0
  pub no_file : lookup s.config_path s.files ≡ none
  pub same_calls : s.calls ≡ calls

handle_event-IsDown :
    (f : Faults) (calls : List Call) (e : Event) (s : Service)
    → IsDown calls s
    → IsDown calls (handle_event f e s)
unfolding handle_event
handle_event-IsDown f calls (tick units) s d = by_stopped s.stopped d.ended
  where
    by_stopped :
        (ended : Bool) → ended ≡ true → IsDown calls (if ended then s else sync_units units s)
    by_stopped true e = d
    by_stopped false e = absurd (cc)
handle_event-IsDown f calls (restart config) s d = by_stopping s.stopping d.ending
  where
    by_stopping :
        (ending : Bool)
        → ending ≡ true
        → IsDown calls (if ending then s else record s { pending = s.pending ++ (config ∷ []) })
    by_stopping true e = d
    by_stopping false e = absurd (cc)
handle_event-IsDown f calls configure s d = by_pending s.pending d.none_pending
  where
    by_pending : (pending : List Str) → pending ≡ [] → IsDown calls (configure_pending pending s)
    by_pending [] e = unfold configure_pending in d
    by_pending (config ∷ rest) e = absurd (cc)
handle_event-IsDown f calls deploy s d = by_starting s.starting d.none_starting
  where
    by_starting : (starting : ℕ) → starting ≡ 0 → IsDown calls (deploy_starting f starting s)
    by_starting zero e = unfold deploy_starting in d
    by_starting (suc n) e = absurd (omega arith)
handle_event-IsDown f calls cancel s d = record {
  ended = d.ended;
  ending = refl;
  none_pending = d.none_pending;
  none_starting = d.none_starting;
  no_file = d.no_file;
  same_calls = d.same_calls;
}
handle_event-IsDown f calls finish s d = by_end s.stopping s.stopped d.ended
  where
    by_end :
        (ending ended : Bool)
        → ended ≡ true
        → IsDown calls (if ending && not ended then record (stop f s) { stopped = true } else s)
    by_end true true e = d
    by_end false true e = d
    by_end ending false e = absurd (cc)

run_events-IsDown :
    (f : Faults) (calls : List Call) (events : List Event) (s : Service)
    → IsDown calls s
    → IsDown calls (run_events f events s)
unfolding run_events
run_events-IsDown f calls [] s d = d
run_events-IsDown f calls (e ∷ events) s d =
    run_events-IsDown f calls events (handle_event f e s) (handle_event-IsDown f calls e s d)

finish-IsDown :
    (f : Faults) (s : Service)
    → f.remove_fails ≡ false
    → s.stopping ≡ true
    → s.stopped ≡ false
    → s.pending ≡ []
    → s.starting ≡ 0
    → IsDown
        (s.calls ++ (disable_unit s.unit_name ∷ stop_unit s.unit_name ∷ []))
        (handle_event f finish s)
unfolding handle_event stop remove_config call
finish-IsDown f s removes ending up idle settled =
    rw (ending, up, removes)
      (record {
        ended = refl;
        ending = refl;
        none_pending = idle;
        none_starting = settled;
        no_file = ground (
          arith,
          lookup-remove s.config_path s.config_path s.files,
          str_eq_iff s.config_path s.config_path,
        );
        same_calls =
            append_assoc s.calls (disable_unit s.unit_name ∷ []) (stop_unit s.unit_name ∷ []);
      })

-- Where the file can be written and removed, once a service that was started is being stopped and no call of `Restart` is
-- under way: whatever happened before, its latest configuration is on disk. When it ends then, the unit is disabled and
-- stopped as its last two calls, and whatever happens later, no call is made and no file is left.
pub lifecycle :
    (f : Faults) (before after : List Event) (new : Service)
    → f.write_fails ≡ false
    → f.remove_fails ≡ false
    → (run_events f before (start f new)).stopped ≡ false
    → (run_events f before (start f new)).stopping ≡ true
    → (run_events f before (start f new)).pending ≡ []
    → (run_events f before (start f new)).starting ≡ 0
    → let s = run_events f before (start f new) in
      (lookup s.config_path s.files ≡ some s.config)
      × IsDown
          (s.calls ++ (disable_unit s.unit_name ∷ stop_unit s.unit_name ∷ []))
          (run_events f (finish ∷ after) s)
unfolding run_events
lifecycle f before after new writes removes up ending idle settled =
    let s = run_events f before (start f new) in
    (
      on_disk s
          (run_events-IsDeployed f before (start f new) writes
            (record { on_disk = inr (inr (start_lem f new writes)) })).on_disk
          up settled,
      run_events-IsDown f _ after (handle_event f finish s)
          (finish-IsDown f s removes ending up idle settled),
    )
  where
    on_disk :
        (s : Service)
        → (s.stopped ≡ true) ⊎ ((0 < s.starting) ⊎ (lookup s.config_path s.files ≡ some s.config))
        → s.stopped ≡ false
        → s.starting ≡ 0
        → lookup s.config_path s.files ≡ some s.config
    on_disk s (inl e) up settled = absurd (cc)
    on_disk s (inr (inl between)) up settled = absurd (omega arith)
    on_disk s (inr (inr e)) up settled = e
