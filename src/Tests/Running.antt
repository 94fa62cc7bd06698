-- ===== src/Tests/Running.antt =====
-- A running plugin at concrete inputs.
use tr181_xpon.Base.{
  inl, ℕ, ◌≡◌, ◌≢◌, refl, true, false, none, some, List, [], ◌∷◌, map, arith, Text, codes,
}
use tr181_xpon.World.{World, set_enable}
use tr181_xpon.DataModel.Args.{ActionInfo}
use tr181_xpon.PonStat.{Connections, dm_object_changed}
use tr181_xpon.PopulateDm.Timers.{query_timer, task_timer, is_started}
use tr181_xpon.RestoreToHal.Rounds.{count_path, count_task}
use tr181_xpon.Settings.Refinement.{view, replay, AreSavable}
use tr181_xpon.Settings.Frame.{stored}
use tr181_xpon.System.{
  Event, stat_called, onu_enable_signal, password_signal, rth_timer, populate_timer, System, handle,
  handle_all,
}
use tr181_xpon.System.Invariant.{IsValid}
use tr181_xpon.System.Started.{IsFresh, begun, running-IsValid}
use tr181_xpon.System.Saved.{log, saved_by_signals}
use tr181_xpon.System.Waiting.Events.{WaitsForSaved, EnablesSaved}
use tr181_xpon.System.Waiting.Run.{only_saved_are_enabled}
use tr181_xpon.System.Served.{rth_timers, six_timers_serve}
use tr181_xpon.System.Served.Spares.{IsTold}
use tr181_xpon.System.Served.Fair.{AllKeepOn, waiting-IsTold}
use tr181_xpon.System.Served.Enabled.{enabled_onu-IsTold}
use tr181_xpon.System.Drained.{query_timers, queries_run_out}
use tr181_xpon.System.Stopped.{IsIdle, stopped-IsIdle}
use tr181_xpon.Main.{stop}
use tr181_xpon.System.Restart.{RestoresEnable, RestoresPassword, restored_as_signalled}
use tr181_xpon.Tests.Strings.{plain_strings, plain_strings-IsLawful}
use tr181_xpon.Tests.Fixtures.{
  Value, cstring_value, entry, no_entries, no_faults, no_faults-IsReliable, folder, env, onu_1,
  ani_1, world, empty_disk,
}
use tr181_xpon.Tests.Startup.{
  module_file, one_module-Scans, outside, unstarted, before_start, ready, ready-IsValid,
}
use tr181_xpon.Tests.Events.{onu_event, password_event, secret}
use tr181_xpon.UpgradePersistency.RoundTrip.{IsStorable}
use tr181_xpon.RestoreToHal.{rth_init, started}
use tr181_xpon.RestoreToHal.Reach.{run-IsValid}
use tr181_xpon.PopulateDm.{pplt_dm_init}
use tr181_xpon.Ani.{ani_strip_tc_authentication, ani_append_tc_authentication}
use tr181_xpon.DataModel.Reads.{dm_is_hex_password}
use tr181_xpon.DataModel.Transactions.{instance_path}

abbrev pub no_connections : Connections
no_connections = record {
  Parser = ℕ;
  connection_add = λ parser fd. some parser;
  connection_remove = λ parser fd. some parser;
}

abbrev onu_args : Value
onu_args = entry (codes "path") (cstring_value onu_1) no_entries

abbrev events : List (Event env)
events =
    stat_called dm_object_changed onu_args
    ∷ onu_enable_signal (onu_event true)
    ∷ populate_timer query_timer
    ∷ rth_timer
    ∷ populate_timer task_timer
    ∷ []

unstarted-IsFresh : IsFresh env outside unstarted
unstarted-IsFresh = record { reads = refl; counted = omega arith; within = λ i h. refl }

abbrev at_start : System env no_connections
at_start =
    begun env outside (module_file ∷ []) one_module-Scans (λ s t. refl) no_connections unstarted
      (some 0)

running-IsValid_example :
    IsValid env outside no_connections (handle_all env outside no_connections events at_start)
running-IsValid_example =
    running-IsValid env outside (module_file ∷ []) one_module-Scans (λ s t. refl) no_connections
      unstarted (some 0) events refl unstarted-IsFresh

-- A running plugin before anything has happened.
abbrev running : System env no_connections
running = record {
  app = record unstarted { mgmt = record before_start { s_module_so = true }; populate = ready };
  parser = some 0;
}

running_now-IsValid : IsValid env outside no_connections running
unfolding rth_init
running_now-IsValid = record {
  safe = record { waiting = run-IsValid true []; reads = refl };
  queries = ready-IsValid;
}

-- The last signal on the password is what counts.
abbrev signals : List (Event env)
signals =
    password_signal password_event
    ∷ onu_enable_signal (onu_event true)
    ∷ rth_timer
    ∷ onu_enable_signal (onu_event false)
    ∷ onu_enable_signal (onu_event true)
    ∷ []

secret-IsStorable : IsStorable secret
secret-IsStorable = record { not_empty = omega arith; fits = omega arith; plain = refl }

signals_savable :
    AreSavable no_faults folder folder (log env outside no_connections signals running)
unfolding ani_strip_tc_authentication ani_append_tc_authentication dm_is_hex_password plain_strings
signals_savable = (omega arith, stored secret secret-IsStorable, tt)

saved_by_signals_example :
    view no_faults folder folder
      (handle_all env outside no_connections signals running).app.world.disk
    ≡ replay
        (log env outside no_connections signals running)
        (view no_faults folder folder empty_disk)
saved_by_signals_example =
    saved_by_signals env folder folder refl refl outside no_connections no_faults-IsReliable signals
      running signals_savable

only_saved_are_enabled_example :
    let s' = handle_all env outside no_connections signals running in
    WaitsForSaved env s'.app.world
    × (is_started s'.app.world.rth.timer ≡ true
        → EnablesSaved env s'.app.world (handle env outside no_connections rth_timer s').app.world)
unfolding rth_init
only_saved_are_enabled_example =
    only_saved_are_enabled env folder folder refl refl no_faults-IsReliable outside no_connections
      signals running signals_savable running_now-IsValid refl

-- Two objects wait.
abbrev waiting : System env no_connections
waiting = record running {
  app = record running.app {
    world = record world {
      rth = record {
        tasks = record { path = onu_1; cntr = 0 } ∷ record { path = ani_1; cntr = 3 } ∷ [];
        timer = started 1000;
      };
    };
  };
}

waiting-IsValid : IsValid env outside no_connections waiting
waiting-IsValid = record {
  safe = record {
    waiting = record {
      counted = (omega arith, (omega arith, tt));
      distinct = ((λ e. cc e, tt), (tt, tt));
      armed = (1000, refl);
    };
    reads = refl;
  };
  queries = ready-IsValid;
}

six_timers_serve_example :
    let fires = rth_timers env outside no_connections 6 in
    let w = (handle_all env outside no_connections fires waiting).app.world in
    (w.rth.tasks ≡ [])
    × (enabled : List Text) × ((p : Text)
        → count_path p enabled ≡ count_task p waiting.app.world.rth.tasks)
    × (w.calls ≡ map (λ q. set_enable q true) enabled)
six_timers_serve_example = six_timers_serve env outside no_connections waiting refl waiting-IsValid

-- Six rounds among other events.
abbrev busy : List (Event env)
busy =
    rth_timer
    ∷ populate_timer task_timer
    ∷ rth_timer
    ∷ onu_enable_signal (onu_event true)
    ∷ rth_timer
    ∷ stat_called dm_object_changed onu_args
    ∷ rth_timer
    ∷ rth_timer
    ∷ password_signal password_event
    ∷ rth_timer
    ∷ []

busy_keeps_on : AllKeepOn env outside no_connections onu_1 busy
busy_keeps_on = ((λ path e off. absurd (cc off)), tt)

waiting-IsTold_example :
    IsTold onu_1 waiting.app.world (handle_all env outside no_connections busy waiting).app.world
waiting-IsTold_example =
    waiting-IsTold env outside no_connections onu_1 6 busy waiting refl waiting-IsValid
      (inl (refl, omega arith)) busy_keeps_on (omega arith)

enabled_onu-IsTold_example :
    let es = onu_enable_signal (onu_event true) ∷ busy in
    IsTold onu_1 running.app.world (handle_all env outside no_connections es running).app.world
unfolding rth_init
enabled_onu-IsTold_example =
    enabled_onu-IsTold env outside no_connections plain_strings-IsLawful refl (codes "XPON.ONU.")
      b'1' refl (onu_event true) running refl refl refl running_now-IsValid (λ e. cc e) refl busy
      busy_keeps_on (omega arith)

queries_run_out_example :
    let s' = handle_all env outside no_connections events running in
    let fires = query_timers env outside no_connections in
    (k : ℕ) × ((handle_all env outside no_connections (fires k) s').app.populate.s_tasks ≡ [])
unfolding pplt_dm_init
queries_run_out_example =
    queries_run_out env outside no_connections plain_strings-IsLawful events running refl
      running_now-IsValid

-- Another run, on the files that this one has left.
abbrev later : World env
later = record world {
  disk = (handle_all env outside no_connections signals running).app.world.disk;
}

restored_as_signalled_example :
    let said =
      replay
        (log env outside no_connections signals running)
        (view no_faults folder folder empty_disk) in
    ((object : Text) (info : ActionInfo Value)
      → later.privs object ≡ none
      → info.index ≢ 0
      → RestoresEnable env (said.enabled (instance_path info.path info.index)) object info later)
    × ((ani_path : Text) → RestoresPassword env (said.password ani_path) ani_path later)
restored_as_signalled_example =
    restored_as_signalled env folder folder refl refl no_faults-IsReliable outside no_connections
      signals running signals_savable later refl

stopped-IsIdle_example : IsIdle env outside no_connections (
    handle_all env outside no_connections signals
      (record { app = (stop env outside running.app).1; parser = some 1 }))
stopped-IsIdle_example = stopped-IsIdle env outside no_connections running.app (some 1) signals
