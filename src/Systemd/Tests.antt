-- ===== src/Systemd/Tests.antt =====
-- The theorem on the service (systemd/service.go) at concrete events, and runs of its functions.
use stream_api.Base.{◌≡◌, refl, true, false, some, List, [], ◌∷◌, ◌++◌, str_Eq, codes}
use stream_api.Base.Dict.{lookup}
use stream_api.Systemd.{
  Faults, start_unit, restart_unit, enable_unit, disable_unit, stop_unit, Service, start, Event,
  tick, restart, configure, deploy, cancel, finish, run_events,
}
use stream_api.Systemd.Lifecycle.{IsDown, lifecycle}

abbrev good_disk : Faults
good_disk = record { read_fails = false; write_fails = false; remove_fails = false }

abbrev new : Service
new = record {
  config = codes "a";
  config_path = codes "/etc/t.conf";
  unit_name = codes "t";
  has_cleanup = true;
  cleaned = false;
  stopping = false;
  stopped = false;
  pending = [];
  starting = 0;
  files = [];
  calls = [];
}

abbrev before : List Event
before =
    tick (record { name = codes "t"; active_state = codes "failed" } ∷ [])
    ∷ restart (codes "b")
    ∷ configure
    ∷ deploy
    ∷ cancel
    ∷ []

abbrev running : Service
running = run_events good_disk before (start good_disk new)

running_stopped : running.stopped ≡ false
unfolding run_events start
running_stopped = refl

running_stopping : running.stopping ≡ true
unfolding run_events start
running_stopping = refl

running_pending : running.pending ≡ []
unfolding run_events start
running_pending = refl

running_starting : running.starting ≡ 0
unfolding run_events start
running_starting = refl

lifecycle_example :
    (lookup running.config_path running.files ≡ some running.config)
    × IsDown
        (running.calls ++ (disable_unit running.unit_name ∷ stop_unit running.unit_name ∷ []))
        (run_events good_disk (finish ∷ restart (codes "c") ∷ configure ∷ deploy ∷ []) running)
lifecycle_example =
    lifecycle good_disk before (restart (codes "c") ∷ configure ∷ deploy ∷ []) new refl refl
      running_stopped running_stopping running_pending running_starting

running_calls :
    running.calls
    ≡ restart_unit (codes "t")
      ∷ enable_unit (codes "t")
      ∷ restart_unit (codes "t")
      ∷ restart_unit (codes "t")
      ∷ enable_unit (codes "t")
      ∷ []
unfolding run_events start
running_calls = refl

-- The same configuration once more only starts the unit.
unchanged_config :
    (run_events good_disk
      (restart (codes "a") ∷ configure ∷ deploy ∷ [])
      (start good_disk new)).calls
    ≡ restart_unit (codes "t")
      ∷ enable_unit (codes "t")
      ∷ start_unit (codes "t")
      ∷ enable_unit (codes "t")
      ∷ []
unfolding run_events start
unchanged_config = refl

-- A call of `Restart` that passed its check before the end leaves its file behind.
late_restart :
    (run_events good_disk
      (restart (codes "b") ∷ cancel ∷ finish ∷ configure ∷ deploy ∷ [])
      (start good_disk new)).files
    ≡ (codes "/etc/t.conf", codes "b") ∷ []
unfolding run_events start
late_restart = refl

-- Between the two sections of `Restart` the latest configuration is not on disk.
between_sections :
    (run_events good_disk (restart (codes "b") ∷ configure ∷ []) (start good_disk new)).files
    ≡ (codes "/etc/t.conf", codes "a") ∷ []
unfolding run_events start
between_sections = refl
