-- ===== src/System/Frame/Handle.antt =====
-- Which events leave the files alone and schedule only what is saved as enabled.
use tr181_xpon.Base.{◌≡◌, Bool, true, false}
use tr181_xpon.World.{Env}
use tr181_xpon.DataModel.Local.Calls.{call_stat-Local}
use tr181_xpon.PonStat.{Connections}
use tr181_xpon.Main.{Outside, vendor_of}
use tr181_xpon.System.{
  Event, stat_called, onu_enable_signal, ani_enable_signal, password_signal, interface_added_signal,
  status_signal, param_read, onu_destroy, interface_destroy, fd_readable, rth_timer, populate_timer,
  System, handle,
}
use tr181_xpon.System.Frame.{
  Quiet, Local-Quiet, handle_fd-Quiet, read_trx_param-Quiet, onu_destroyed-Quiet,
  interface_object_destroyed-Quiet, interface_object_added-Quiet, status_changed-Quiet,
}
use tr181_xpon.System.Frame.Queries.{fire-Quiet}

-- Not the signals on Enable and on Password, nor the timer of restore_to_hal.c.
abbrev pub is_quiet : {E : Env} → Event E → Bool
is_quiet (onu_enable_signal d) = false
is_quiet (ani_enable_signal d) = false
is_quiet (password_signal d) = false
is_quiet rth_timer = false
is_quiet _ = true

module _ (E : Env) (o : Outside E) (C : Connections) where
  pub handle-Quiet :
      (e : Event E) (s : System E C)
      → is_quiet e ≡ true
      → Quiet E s.app.world (handle E o C e s).app.world
  unfolding handle
  handle-Quiet (stat_called f args) s h =
      Local-Quiet E (call_stat-Local E C f args s.parser s.app.world)
  handle-Quiet (interface_added_signal allocated sysinfo obj index) s h =
      interface_object_added-Quiet E allocated sysinfo obj index s.app.world
  handle-Quiet (status_signal sysinfo obj) s h = status_changed-Quiet E sysinfo obj s.app.world
  handle-Quiet (param_read standard object name) s h =
      read_trx_param-Quiet E (vendor_of E o s.app.mgmt) standard object name s.app.world
  handle-Quiet (onu_destroy object reason) s h =
      onu_destroyed-Quiet E (vendor_of E o s.app.mgmt) object reason s.app.world
  handle-Quiet (interface_destroy object reason) s h =
      interface_object_destroyed-Quiet E (vendor_of E o s.app.mgmt) object reason s.app.world
  handle-Quiet (fd_readable fd) s h = handle_fd-Quiet E (vendor_of E o s.app.mgmt) fd s.app.world
  handle-Quiet (populate_timer f) s h =
      fire-Quiet E (vendor_of E o s.app.mgmt) o.max_nr_of_onus f s.app.populate s.app.world
  handle-Quiet (onu_enable_signal d) s h = absurd cc
  handle-Quiet (ani_enable_signal d) s h = absurd cc
  handle-Quiet (password_signal d) s h = absurd cc
  handle-Quiet rth_timer s h = absurd cc
