-- ===== src/Systemd.antt =====
-- A service that keeps a unit of systemd alive (systemd/service.go). The calls of systemd are listed in order,
-- and their errors are only logged there; which units it lists is an argument. Whether the file of the
-- configuration can be read, written and removed is what `Faults` says.
pub mod Deployed
pub mod Lifecycle
pub mod Tests
use stream_api.Base.{
  ℕ, zero, suc, Bool, true, false, Option, none, some, List, [], ◌∷◌, ◌++◌, Str, str_Eq, str_eq,
  codes, ◌&&◌, ◌||◌, not, if◌then◌else◌,
}
use stream_api.Base.Dict.{Dict, lookup, insert, remove}

pub record Faults : Type 0 where
  pub read_fails : Bool
  pub write_fails : Bool
  pub remove_fails : Bool

pub data Call : Type 0 where
  start_unit : Str → Call
  restart_unit : Str → Call
  enable_unit : Str → Call
  disable_unit : Str → Call
  stop_unit : Str → Call

pub record UnitStatus : Type 0 where
  pub name : Str
  pub active_state : Str

-- `pending` are the configurations of the calls of `Restart` that have passed their check and have not set it
-- yet, and `starting` is the number of those that have and will start the unit. A failed write leaves the file
-- as it was.
pub record Service : Type 0 where
  pub config : Str
  pub config_path : Str
  pub unit_name : Str
  pub has_cleanup : Bool
  pub cleaned : Bool
  pub stopping : Bool
  pub stopped : Bool
  pub pending : List Str
  pub starting : ℕ
  pub files : Dict Str Str
  pub calls : List Call

call : Call → Service → Service
call c s = record s { calls = s.calls ++ c ∷ [] }

is_same : Option Str → Str → Bool
is_same none config = false
is_same (some old) config = str_eq old config

-- `deployConfig`: whether the file on disk changed
deploy_config : Faults → Service → Bool × Service
unfolding is_same lookup insert
deploy_config f s =
    if not f.read_fails && is_same (lookup s.config_path s.files) s.config then (false, s) else (
      true,
      if f.write_fails then s else record s { files = insert s.config_path s.config s.files },
    )

unfoldable pub start : Faults → Service → Service
unfolding deploy_config call
start f s =
    let (changed, deployed) = deploy_config f s in
    call (enable_unit s.unit_name)
      (call (if changed then restart_unit s.unit_name else start_unit s.unit_name) deployed)

remove_config : Faults → Service → Service
unfolding remove
remove_config f s = if f.remove_fails then s else record s { files = remove s.config_path s.files }

unfoldable pub stop : Faults → Service → Service
unfolding remove_config call
stop f s =
    let down = remove_config f (call (stop_unit s.unit_name) (call (disable_unit s.unit_name) s)) in
    record down { cleaned = s.cleaned || s.has_cleanup }

-- `syncUnitState`, over the units that systemd lists
sync_units : List UnitStatus → Service → Service
unfolding call
sync_units [] s = s
sync_units (u ∷ units) s = sync_units units (
    if str_eq u.name s.unit_name && str_eq u.active_state (codes "failed")
    then call (restart_unit s.unit_name) s
    else s)

-- What happens to a service after its first start: a tick of `keepalive`, also while it is being stopped; a call of `Restart`, up to
-- its check (`restart`), as it sets the configuration (`configure`) and as it starts the unit (`deploy`); `Stop`; and the end of `Run`, which waits for that.
pub data Event : Type 0 where
  tick : List UnitStatus → Event
  restart : Str → Event
  configure : Event
  deploy : Event
  cancel : Event
  finish : Event

-- The first critical section of `Restart`
configure_pending : List Str → Service → Service
configure_pending [] s = s
configure_pending (config ∷ rest) s = record s {
  config = config;
  pending = rest;
  starting = suc s.starting;
}

-- The second one
deploy_starting : Faults → ℕ → Service → Service
unfolding start
deploy_starting f zero s = s
deploy_starting f (suc n) s = start f (record s { starting = n })

unfoldable pub handle_event : Faults → Event → Service → Service
unfolding sync_units configure_pending deploy_starting stop
handle_event f (tick units) s = if s.stopped then s else sync_units units s
handle_event f (restart config) s =
    if s.stopping then s else record s { pending = s.pending ++ config ∷ [] }
handle_event f configure s = configure_pending s.pending s
handle_event f deploy s = deploy_starting f s.starting s
handle_event f cancel s = record s { stopping = true }
handle_event f finish s =
    if s.stopping && not s.stopped
    then (let down = stop f s in record down { stopped = true })
    else s

unfoldable pub run_events : Faults → List Event → Service → Service
unfolding handle_event
run_events f [] s = s
run_events f (e ∷ events) s = run_events f events (handle_event f e s)
