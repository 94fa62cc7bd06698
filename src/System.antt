-- ===== src/System.antt =====
-- The running plugin: what happens to it after a start, one event after the other. The events are
-- the calls of the vendor module (pon_stat.c), the signals of the data model (dm_events.c), its
-- actions (dm_actions.c), the timers of restore_to_hal.c and populate_dm_startup.c, and the file
-- descriptors that are watched for the vendor module.
use tr181_xpon.Base.{ℕ, Bool, Option, List, [], ◌∷◌, Text, if◌then◌else◌}
pub mod Frame
pub mod Invariant
pub mod Started
pub mod Stopped
pub mod Saved
pub mod Served
pub mod Drained
pub mod Restart
pub mod Waiting
use tr181_xpon.World.{Env, World}
use tr181_xpon.DataModel.Change.{Var}
use tr181_xpon.DmActions.{
  Status, ActionId, read_trx_param, onu_destroyed, interface_object_destroyed,
}
use tr181_xpon.DmEvents.{
  EventData, onu_enable_changed, ani_enable_changed, password_changed, interface_object_added,
  status_changed, rth_round,
}
use tr181_xpon.PonStat.{Connections, StatFunction, call_stat, handle_fd}
use tr181_xpon.PopulateDm.Timers.{Fire, fire, is_started}
use tr181_xpon.Main.{App, Outside, vendor_of}

pub data Event (E : Env) : Type 0 where
  stat_called : StatFunction → Var E → Event E
  onu_enable_signal : EventData → Event E
  ani_enable_signal : EventData → Event E
  password_signal : EventData → Event E
  interface_added_signal : Bool → Option ℕ → Text → ℕ → Event E
  status_signal : Option ℕ → Text → Event E
  param_read : Status × Var E → Text → Text → Event E
  onu_destroy : Text → ActionId → Event E
  interface_destroy : Text → ActionId → Event E
  fd_readable : ℕ → Event E
  rth_timer : Event E
  populate_timer : Fire → Event E

-- The plugin with the connections of its parser.
pub record System (E : Env) (C : Connections) : Type 0 where
  pub app : App E
  pub parser : Option C.Parser

module _ (E : Env) (o : Outside E) (C : Connections) where
  abbrev with_world : System E C → World E → System E C
  with_world s w = record s { app = record s.app { world = w } }

  -- A timer calls its function only while it is started.
  unfoldable pub handle : Event E → System E C → System E C
  handle (stat_called f args) s =
      let (ok, parser, w) = call_stat E C f args s.parser s.app.world in
      record { app = record s.app { world = w }; parser = parser }
  handle (onu_enable_signal d) s =
      with_world s (onu_enable_changed E (vendor_of E o s.app.mgmt) d s.app.world)
  handle (ani_enable_signal d) s =
      with_world s (ani_enable_changed E (vendor_of E o s.app.mgmt) d s.app.world)
  handle (password_signal d) s =
      with_world s (password_changed E (vendor_of E o s.app.mgmt) d s.app.world)
  handle (interface_added_signal allocated sysinfo obj index) s =
      with_world s (interface_object_added E allocated sysinfo obj index s.app.world)
  handle (status_signal sysinfo obj) s = with_world s (status_changed E sysinfo obj s.app.world)
  handle (param_read standard object name) s =
      with_world s (read_trx_param E (vendor_of E o s.app.mgmt) standard object name s.app.world).1
  handle (onu_destroy object reason) s =
      with_world s (onu_destroyed E (vendor_of E o s.app.mgmt) object reason s.app.world).1
  handle (interface_destroy object reason) s =
      with_world s
        (interface_object_destroyed E (vendor_of E o s.app.mgmt) object reason s.app.world).1
  handle (fd_readable fd) s = with_world s (handle_fd E (vendor_of E o s.app.mgmt) fd s.app.world)
  handle rth_timer s =
      if is_started s.app.world.rth.timer
      then with_world s (rth_round E (vendor_of E o s.app.mgmt) s.app.world)
      else s
  handle (populate_timer f) s =
      let (p, w) =
        fire E (vendor_of E o s.app.mgmt) o.max_nr_of_onus f s.app.populate s.app.world in
      record s { app = record s.app { populate = p; world = w } }

  unfoldable pub handle_all : List (Event E) → System E C → System E C
  handle_all [] s = s
  handle_all (e ∷ es) s = handle_all es (handle e s)
