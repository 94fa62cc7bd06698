-- ===== src/System/Served.antt =====
-- Whatever has happened before, an object that waits for restore_to_hal.c is enabled in time.
pub mod Waits
pub mod Spares
pub mod Fair
pub mod Enabled
use mathlib.Core.List.{append-nil}
use tr181_xpon.Base.{
  ◌≡◌, refl, ◌∙◌, ap, sym, subst, ℕ, zero, suc, true, false, List, [], ◌∷◌, ◌++◌, map, arith, Text,
  Bool-cases, inl, inr,
}
use tr181_xpon.RestoreToHal.{RthTask, started, handle_tasks}
use tr181_xpon.RestoreToHal.Invariant.{IsArmed}
use tr181_xpon.RestoreToHal.Rounds.{run_rounds, count_path, count_task, run_rounds_serve_all}
use tr181_xpon.World.{Env, World, set_enable}
use tr181_xpon.PonCtrl.{Vendor}
use tr181_xpon.DmEvents.{found_in, rth_round}
use tr181_xpon.DmEvents.Reached.{copies, run_same, regroup, round_lem}
use tr181_xpon.PonStat.{Connections}
use tr181_xpon.PopulateDm.Timers.{is_started}
use tr181_xpon.Main.{Outside, vendor_of}
use tr181_xpon.System.{Event, rth_timer, System, handle, handle_all}
use tr181_xpon.System.Invariant.{IsValid, handle-IsValid}

module _ (E : Env) (o : Outside E) (C : Connections) where
  -- The timer of restore_to_hal.c fires so often.
  abbrev pub rth_timers : ℕ → List (Event E)
  rth_timers zero = []
  rth_timers (suc n) = rth_timer ∷ rth_timers n

  -- What one round does to the list and to the calls.
  abbrev Round : World E → World E → Vendor E.variants → Type 0
  Round w w' vendor =
      let (kept, enabled) = handle_tasks (found_in E vendor w) w.rth.tasks in
      (w'.rth.tasks ≡ kept)
      × (w'.calls ≡ w.calls ++ map (λ q. set_enable q true) enabled)
      × (w'.store ≡ w.store)

  abbrev with_world : System E C → World E → System E C
  with_world s w = record s { app = record s.app { world = w } }

  idle-Round :
      (w : World E) (vendor : Vendor E.variants) (ts : List RthTask)
      → w.rth.tasks ≡ ts
      → is_started w.rth.timer ≡ false
      → IsArmed w.rth.tasks w.rth.timer
      → Round w w vendor
  unfolding handle_tasks
  idle-Round w vendor [] e h a = rw e (refl, sym (append-nil w.calls), refl)
  idle-Round w vendor (t ∷ ts) e h a =
      let (ms, running) : (ms : ℕ) × (w.rth.timer ≡ started ms) =
        subst (λ us. IsArmed us w.rth.timer) e a in
      absurd (cc (ap is_started running, h))

  timer_lem :
      (s : System E C)
      → s.app.mgmt.s_module_so ≡ true
      → IsValid E o C s
      → (w : World E) × (handle E o C rth_timer s ≡ with_world s w)
        × Round s.app.world w (vendor_of E o s.app.mgmt)
  unfolding handle
  timer_lem s loaded v =
      let w = s.app.world in
      let vendor = vendor_of E o s.app.mgmt in
      elim (Bool-cases (is_started w.rth.timer)) [
        | inl running ↦
            (rth_round E vendor w, simp (running, handle) refl, round_lem E vendor loaded w)
        | inr still ↦ (
          w,
          simp (still, handle) refl,
          idle-Round w vendor w.rth.tasks refl still v.safe.waiting.armed,
        )
      ]

  abbrev Serves : System E C → System E C → ℕ → Type 0
  Serves s s' n =
      let w = s.app.world in
      let (left, enabled) =
        run_rounds (copies n (found_in E (vendor_of E o s.app.mgmt) w)) w.rth.tasks in
      (s'.app.world.rth.tasks ≡ left)
      × (s'.app.world.calls ≡ w.calls ++ map (λ q. set_enable q true) enabled)

  timers_lem :
      (n : ℕ) (s : System E C)
      → s.app.mgmt.s_module_so ≡ true
      → IsValid E o C s
      → Serves s (handle_all E o C (rth_timers n) s) n
  unfolding handle_all
  timers_lem zero s loaded v = (refl, sym (append-nil s.app.world.calls))
  timers_lem (suc n) s loaded v =
      let w = s.app.world in
      let vendor = vendor_of E o s.app.mgmt in
      let (w', e, (tasks, calls, store)) = timer_lem s loaded v in
      let valid = subst (IsValid E o C) e (handle-IsValid E o C rth_timer s v) in
      let (left, later) = timers_lem n (with_world s w') loaded valid in
      let same =
        run_same E vendor n w'.store w.store w'.rth.tasks
          (handle_tasks (found_in E vendor w) w.rth.tasks).0 store tasks in
      subst (λ t. Serves s (handle_all E o C (rth_timers n) t) (suc n)) (sym e)
        (
          left ∙ ap (λ r. r.0) same,
          later
              ∙ ap (λ r. w'.calls ++ map (λ q. set_enable q true) r.1) same
              ∙ regroup E vendor w.calls w'.calls (handle_tasks (found_in E vendor w) w.rth.tasks).1
                  _ calls,
        )

  -- In any valid state with a vendor module, such as events in any order leave, firing the timer
  -- of restore_to_hal.c six times without another event leaves no task, and tells the vendor
  -- module to enable each object as often as a task waited for it, and nothing else.
  pub six_timers_serve :
      (s : System E C)
      → s.app.mgmt.s_module_so ≡ true
      → IsValid E o C s
      → let w = (handle_all E o C (rth_timers 6) s).app.world in
        (w.rth.tasks ≡ [])
        × (enabled : List Text) × ((p : Text)
            → count_path p enabled ≡ count_task p s.app.world.rth.tasks)
        × (w.calls ≡ s.app.world.calls ++ map (λ q. set_enable q true) enabled)
  six_timers_serve s loaded v =
      let w = s.app.world in
      let find = found_in E (vendor_of E o s.app.mgmt) w in
      let (tasks, calls) = timers_lem 6 s loaded v in
      let (done, served) =
        run_rounds_serve_all (copies 6 find) w.rth.tasks v.safe.waiting.counted (omega arith) in
      (tasks ∙ done, (run_rounds (copies 6 find) w.rth.tasks).1, served, calls)
