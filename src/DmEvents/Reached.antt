-- ===== src/DmEvents/Reached.antt =====
-- dm_events.c and restore_to_hal.c: an ONU that is enabled reaches the vendor module.
use mathlib.Core.List.{append_assoc, append-nil, map-append}
use tr181_xpon.Base.{
  ◌≡◌, refl, ◌≢◌, ◌∙◌, ap, sym, subst, ℕ, zero, suc, ◌+◌, true, false, some, List, [], ◌∷◌, ◌++◌,
  map, arith, Text, text_eq, text_eq_refl, text_eq→eq, Bool-cases, inl, inr,
}
use tr181_xpon.Amxc.{IsLawful}
use tr181_xpon.RestoreToHal.{
  RthTask, no_timer, Found, Rth, handle_tasks, handle_rth_tasks, is_scheduled, rth_schedule_enable,
  rth_task_create,
}
use tr181_xpon.RestoreToHal.Rounds.{
  run_rounds, count_path, count_task, run_rounds_serve_all, IsCounted,
}
use tr181_xpon.RestoreToHal.Invariant.{
  IsValid, Absent, not_scheduled-Absent, rth_schedule_enable-IsValid,
}
use tr181_xpon.World.{Env, World, VendorCall, set_enable}
use tr181_xpon.PonCtrl.{Vendor, pon_ctrl_set_enable}
use tr181_xpon.DmEvents.{
  EventData, isdot, enable_changed, onu_or_ani_enable_changed, enable_each, rth_round, found_at,
  found_in,
}
use tr181_xpon.DmEvents.Enable.{event_lem, enable_each_calls}

abbrev pub copies : ℕ → (Text → Found) → List (Text → Found)
copies zero find = []
copies (suc n) find = find ∷ copies n find

pub round_tasks :
    (find : Text → Found) (rth : Rth)
    → ((handle_rth_tasks find rth).0.tasks ≡ (handle_tasks find rth.tasks).0)
      × ((handle_rth_tasks find rth).1 ≡ (handle_tasks find rth.tasks).1)
unfolding handle_rth_tasks handle_tasks
round_tasks find rth = from rth.tasks refl
  where
    from :
        (ts : List RthTask)
        → rth.tasks ≡ ts
        → ((handle_rth_tasks find rth).0.tasks ≡ (handle_tasks find rth.tasks).0)
          × ((handle_rth_tasks find rth).1 ≡ (handle_tasks find rth.tasks).1)
    from [] e = rw (e, handle_rth_tasks) (e, refl)
    from (t ∷ ts) e = rw (e, handle_rth_tasks) (refl, refl)

count-append_task :
    (p : Text) (ts : List RthTask) (t : RthTask)
    → count_task p (ts ++ (t ∷ [])) ≡ count_task p ts + count_task p (t ∷ [])
count-append_task p [] t = omega arith
count-append_task p (u ∷ us) t = ground (arith, count-append_task p us t)

count-Absent : (p : Text) (ts : List RthTask) → Absent p ts → count_task p ts ≡ 0
count-Absent p [] a = refl
count-Absent p (t ∷ ts) (n, a) = elim (Bool-cases (text_eq p t.path)) [
  | inl same ↦ absurd (n (sym (text_eq→eq p t.path same)))
  | inr other ↦ rw other (count-Absent p ts a)
]

unscheduled_count : (p : Text) (ts : List RthTask) → is_scheduled p ts ≡ false → count_task p ts ≡ 0
unscheduled_count p ts h = count-Absent p ts (not_scheduled-Absent p ts h)

-- What scheduling adds, if a task can be allocated and no task's path begins with the object's.
pub scheduled_tasks :
    (object : Text) (rth : Rth)
    → rth.timer ≢ no_timer
    → is_scheduled object rth.tasks ≡ false
    → (rth_schedule_enable true object rth).tasks
      ≡ rth.tasks ++ (record { path = object; cntr = 0 } ∷ [])
unfolding rth_schedule_enable rth_task_create
scheduled_tasks object rth timer new = ground arith

module _ (E : Env) (vendor : Vendor E.variants) where
  -- The timer of restore_to_hal.c fires n times, with no other event in between.
  unfoldable pub rounds : ℕ → World E → World E
  rounds zero w = w
  rounds (suc n) w = rounds n (rth_round E vendor w)

  pub enable_each_keeps :
      (paths : List Text) (w : World E)
      → ((enable_each E vendor paths w).rth ≡ w.rth)
        × ((enable_each E vendor paths w).store ≡ w.store)
  unfolding enable_each pon_ctrl_set_enable
  enable_each_keeps [] w = (refl, refl)
  enable_each_keeps (q ∷ qs) w =
      let (r, s) = enable_each_keeps qs (pon_ctrl_set_enable E vendor q true w) in
      (r ∙ ground arith, s ∙ ground arith)

  -- One round at the level of the whole state.
  pub round_lem :
      vendor.loaded ≡ true
      → (w : World E)
      → let (kept, enabled) = handle_tasks (found_in E vendor w) w.rth.tasks in
        ((rth_round E vendor w).rth.tasks ≡ kept)
        × ((rth_round E vendor w).calls ≡ w.calls ++ map (λ q. set_enable q true) enabled)
        × ((rth_round E vendor w).store ≡ w.store)
  unfolding rth_round
  round_lem loaded w =
      let find = found_in E vendor w in
      let (tasks, enabled) = round_tasks find w.rth in
      let (rth, store) =
        enable_each_keeps (handle_rth_tasks find w.rth).1
          (record w { rth = (handle_rth_tasks find w.rth).0 }) in
      (
        ap (λ r. r.tasks) rth ∙ tasks,
        enable_each_calls E vendor loaded (handle_rth_tasks find w.rth).1
              (record w { rth = (handle_rth_tasks find w.rth).0 })
            ∙ ap (λ e. w.calls ++ map (λ q. set_enable q true) e) enabled,
        store,
      )

  pub run_same :
      (n : ℕ) (s t : E.amxd.Store) (xs ys : List RthTask)
      → s ≡ t
      → xs ≡ ys
      → run_rounds (copies n (found_at E vendor s)) xs
        ≡ run_rounds (copies n (found_at E vendor t)) ys
  run_same n s t xs ys h e =
      ap (λ u. run_rounds (copies n (found_at E vendor u)) xs) h
      ∙ ap (run_rounds (copies n (found_at E vendor t))) e

  pub regroup :
      (calls calls' : List VendorCall) (now later : List Text)
      → calls' ≡ calls ++ map (λ q. set_enable q true) now
      → calls' ++ map (λ q. set_enable q true) later
        ≡ calls ++ map (λ q. set_enable q true) (now ++ later)
  regroup calls calls' now later e =
      ap (λ c. c ++ map (λ q. set_enable q true) later) e
      ∙ append_assoc calls (map (λ q. set_enable q true) now) (map (λ q. set_enable q true) later)
      ∙ ap (λ t. calls ++ t) (sym (map-append (λ q. set_enable q true) now later))

  rounds_lem :
      vendor.loaded ≡ true
      → (n : ℕ) (w : World E)
      → let (left, enabled) = run_rounds (copies n (found_in E vendor w)) w.rth.tasks in
        ((rounds n w).rth.tasks ≡ left)
        × ((rounds n w).calls ≡ w.calls ++ map (λ q. set_enable q true) enabled)
  unfolding rounds
  rounds_lem loaded zero w = (refl, sym (append-nil w.calls))
  rounds_lem loaded (suc n) w =
      let w' = rth_round E vendor w in
      let (tasks, calls, store) = round_lem loaded w in
      let (left, later) = rounds_lem loaded n w' in
      let same =
        run_same n w'.store w.store w'.rth.tasks (handle_tasks (found_in E vendor w) w.rth.tasks).0
          store tasks in
      (
        left ∙ ap (λ r. r.0) same,
        later
            ∙ ap (λ r. w'.calls ++ map (λ q. set_enable q true) r.1) same
            ∙ regroup w.calls w'.calls (handle_tasks (found_in E vendor w) w.rth.tasks).1 _ calls,
      )

  -- Six rounds serve an object that has just been scheduled, exactly once.
  abbrev pub IsReached : Text → World E → Type 0
  IsReached object w =
      ((rounds 6 w).rth.tasks ≡ [])
      × (enabled : List Text) × (count_path object enabled ≡ 1)
      × ((rounds 6 w).calls ≡ w.calls ++ map (λ q. set_enable q true) enabled)

  scheduled-IsReached :
      vendor.loaded ≡ true
      → (object : Text) (w : World E) (old : List RthTask) → IsCounted w.rth.tasks
      → is_scheduled object old ≡ false
      → w.rth.tasks ≡ old ++ (record { path = object; cntr = 0 } ∷ [])
      → IsReached object w
  scheduled-IsReached loaded object w old counted new e =
      let find = found_in E vendor w in
      let (tasks, calls) = rounds_lem loaded 6 w in
      let (done, served) = run_rounds_serve_all (copies 6 find) w.rth.tasks counted (omega arith) in
      (
        tasks ∙ done,
        (run_rounds (copies 6 find) w.rth.tasks).1,
        served object
            ∙ ap (count_task object) e
            ∙ ground (
              arith,
              count-append_task object old (record { path = object; cntr = 0 }),
              unscheduled_count object old new,
              text_eq_refl object,
            ),
        calls,
      )

  -- When an event says that an ONU is enabled, six rounds of restore_to_hal.c without another
  -- event tell the vendor module exactly once to enable it and leave no task. The condition is
  -- that the string functions are lawful, a vendor module is loaded, a task can be allocated, the
  -- path ends in one dot, the list of tasks is valid and has its timer, and no waiting task's path
  -- begins with the ONU's.
  pub enabled_onu-IsReached :
      IsLawful E.strings
      → vendor.loaded ≡ true
      → E.allocates ≡ true
      → (t : Text) (c : ℕ) → isdot c ≡ false
      → (event_data : EventData) (w : World E)
      → event_data.path ≡ some ((t ++ (c ∷ [])) ++ (b'.' ∷ []))
      → event_data.enable_to ≡ true
      → IsValid w.rth
      → w.rth.timer ≢ no_timer
      → is_scheduled (t ++ (c ∷ [])) w.rth.tasks ≡ false
      → IsReached (t ++ (c ∷ [])) (onu_or_ani_enable_changed E vendor event_data true w)
  enabled_onu-IsReached lawful loaded alloc t c nodot event_data w path on valid timer new =
      let object = t ++ (c ∷ []) in
      subst (IsReached object)
        (sym (
          event_lem E vendor lawful t c nodot event_data true w path
          ∙ ap (λ e. enable_changed E vendor object e true w) on))
        (scheduled-IsReached loaded object (enable_changed E vendor object true true w) w.rth.tasks
          (rth_schedule_enable-IsValid E.allocates object w.rth.tasks w.rth.timer valid).counted new
          (ap (λ a. (rth_schedule_enable a object w.rth).tasks) alloc
            ∙ scheduled_tasks object w.rth timer new))
