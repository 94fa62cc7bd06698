-- ===== src/RestoreToHal/Reach.antt =====
-- The events of restore_to_hal.c in any order.
use tr181_xpon.Base.{
  ℕ, ◌≡◌, refl, Bool, true, false, List, [], ◌∷◌, ◌++◌, arith, Text, strncmp_eq-append,
}
use tr181_xpon.RestoreToHal.Defs.{
  RthTask, Timer, no_timer, Rth, Found, handle_tasks, handle_rth_tasks, is_scheduled,
  rth_schedule_enable, rth_disable, rth_init,
}
use tr181_xpon.RestoreToHal.Rounds.{handle_tasks-IsCounted}
use tr181_xpon.RestoreToHal.Invariant.{
  Absent, IsValid, IsArmed-restart, handle_tasks-Distinct, rth_schedule_enable-IsValid,
  remove_first-IsCounted, remove_first-Distinct, remove_first-IsArmed, remove_first_removes,
}

-- Something is to be enabled, something is disabled, or the timer fires.
pub data Event : Type 0 where
  schedule : Bool → Text → Event
  disable : Text → Event
  fire : (Text → Found) → Event

abbrev pub step : Rth → Event → Rth
step rth (schedule allocates object) = rth_schedule_enable allocates object rth
step rth (disable object) = rth_disable object rth
step rth (fire find) = (handle_rth_tasks find rth).0

abbrev pub run : Rth → List Event → Rth
run rth [] = rth
run rth (e ∷ es) = run (step rth e) es

pub fire-IsValid :
    (find : Text → Found) (tasks : List RthTask) (timer : Timer)
    → let rth : Rth = record { tasks = tasks; timer = timer } in
      IsValid rth → IsValid (handle_rth_tasks find rth).0
unfolding handle_rth_tasks
fire-IsValid find [] timer v = record { counted = tt; distinct = tt; armed = tt }
fire-IsValid find (t ∷ ts) timer v = record {
  counted = handle_tasks-IsCounted find (t ∷ ts) v.counted;
  distinct = handle_tasks-Distinct find (t ∷ ts) v.distinct;
  armed = IsArmed-restart (handle_tasks find (t ∷ ts)).0;
}

pub disable-IsValid : (object : Text) (rth : Rth) → IsValid rth → IsValid (rth_disable object rth)
unfolding rth_disable
disable-IsValid object rth v = record {
  counted = remove_first-IsCounted object rth.tasks v.counted;
  distinct = remove_first-Distinct object rth.tasks v.distinct;
  armed = remove_first-IsArmed object rth.tasks rth.timer v.armed;
}

step-IsValid : (rth : Rth) (e : Event) → IsValid rth → IsValid (step rth e)
step-IsValid rth (schedule allocates object) v =
    rth_schedule_enable-IsValid allocates object rth.tasks rth.timer v
step-IsValid rth (disable object) v = disable-IsValid object rth v
step-IsValid rth (fire find) v = fire-IsValid find rth.tasks rth.timer v

run-IsValid_from : (rth : Rth) (es : List Event) → IsValid rth → IsValid (run rth es)
run-IsValid_from rth [] v = v
run-IsValid_from rth (e ∷ es) v = run-IsValid_from (step rth e) es (step-IsValid rth e v)

pub rth_init-IsValid : (timer_made : Bool) → IsValid (rth_init timer_made)
unfolding rth_init
rth_init-IsValid true = record { counted = tt; distinct = tt; armed = tt }
rth_init-IsValid false = record { counted = tt; distinct = tt; armed = tt }

-- After rth_init and any events in any order, no path has two tasks, no counter is over 5, and
-- the timer runs whenever there is a task.
pub run-IsValid : (timer_made : Bool) (es : List Event) → IsValid (run (rth_init timer_made) es)
run-IsValid timer_made es = run-IsValid_from (rth_init timer_made) es (rth_init-IsValid timer_made)

-- After any events, disabling an object leaves no task for it.
pub rth_disable_removes :
    (timer_made : Bool) (es : List Event) (object : Text)
    → Absent object (run (rth_init timer_made) (es ++ (disable object ∷ []))).tasks
unfolding rth_disable
rth_disable_removes timer_made es object =
    from (rth_init timer_made) es (rth_init-IsValid timer_made)
  where
    from :
        (rth : Rth) (es : List Event)
        → IsValid rth
        → Absent object (run rth (es ++ (disable object ∷ []))).tasks
    from rth [] v = remove_first_removes object rth.tasks v.distinct
    from rth (e ∷ es) v = from (step rth e) es (step-IsValid rth e v)

prefix_is_scheduled :
    (object rest : Text) (before after : List RthTask) (cntr : ℕ)
    → is_scheduled object (before ++ (record { path = object ++ rest; cntr = cntr } ∷ after)) ≡ true
prefix_is_scheduled object rest [] after cntr = ground (arith, strncmp_eq-append object rest)
prefix_is_scheduled object rest (t ∷ ts) after cntr =
    ground (arith, prefix_is_scheduled object rest ts after cntr)

-- While a task waits whose path begins with an object's path, such as the one for XPON.ONU.1.ANI.1
-- with the object XPON.ONU.1, rth_schedule_enable does not schedule the object.
pub schedule_drops_prefix :
    (allocates : Bool) (object rest : Text) (cntr : ℕ) (before after : List RthTask) (timer : Timer)
    → let rth : Rth = record {
      tasks = before ++ (record { path = object ++ rest; cntr = cntr } ∷ after);
      timer = timer;
    } in
      rth_schedule_enable allocates object rth ≡ rth
unfolding rth_schedule_enable
schedule_drops_prefix allocates object rest cntr before after no_timer = refl
schedule_drops_prefix allocates object rest cntr before after _ =
    rw (prefix_is_scheduled object rest before after cntr)
