-- ===== src/System/Drained.antt =====
-- Whatever has happened before, populate_dm_startup.c gets to the end of its queries.
use tr181_xpon.Base.{
  ◌≡◌, refl, ◌∙◌, ap, sym, subst, ℕ, zero, suc, List, [], ◌∷◌, Bool-cases, inl, inr,
}
use tr181_xpon.Amxc.{IsLawful}
use tr181_xpon.World.{Env}
use tr181_xpon.PonStat.{Connections}
use tr181_xpon.PopulateDm.Children.{All, none_left, Bounded}
use tr181_xpon.PopulateDm.Timers.{fire_all, task_timer, is_started}
use tr181_xpon.PopulateDm.Drains.{task_timers, largest, fire-All, drains}
use tr181_xpon.Main.{Outside, vendor_of}
use tr181_xpon.System.{Event, rth_timer, populate_timer, System, handle, handle_all}
use tr181_xpon.System.Invariant.{IsValid, handle_all-IsValid}

module _ (E : Env) (o : Outside E) (C : Connections) where
  -- The timer of the tasks fires so often.
  abbrev pub query_timers : ℕ → List (Event E)
  query_timers zero = []
  query_timers (suc n) = populate_timer task_timer ∷ query_timers n

  module _ (lawful : IsLawful E.strings) where
    abbrev IsBounded : System E C → Type 0
    IsBounded s =
        All (Bounded (largest E lawful (vendor_of E o s.app.mgmt) o.max_nr_of_onus))
          s.app.populate.s_tasks

    handle-IsBounded : (e : Event E) (s : System E C) → IsBounded s → IsBounded (handle E o C e s)
    unfolding handle
    handle-IsBounded rth_timer s h = elim (Bool-cases (is_started s.app.world.rth.timer)) [
      | inl running ↦ simp (running, handle) h
      | inr still ↦ simp (still, handle) h
    ]
    handle-IsBounded (populate_timer f) s h =
        fire-All E lawful (vendor_of E o s.app.mgmt) o.max_nr_of_onus f s.app.populate s.app.world h
    handle-IsBounded e s h = h

    handle_all-IsBounded :
        (es : List (Event E)) (s : System E C) → IsBounded s → IsBounded (handle_all E o C es s)
    unfolding handle_all
    handle_all-IsBounded [] s h = h
    handle_all-IsBounded (e ∷ es) s h =
        handle_all-IsBounded es (handle E o C e s) (handle-IsBounded e s h)

    timers_only :
        (k : ℕ) (s : System E C)
        → (handle_all E o C (query_timers k) s).app.populate
          ≡ (fire_all E
              (vendor_of E o s.app.mgmt)
              o.max_nr_of_onus
              (task_timers k)
              s.app.populate
              s.app.world).0
    unfolding handle_all fire_all handle
    timers_only zero s = refl
    timers_only (suc k) s = timers_only k (handle E o C (populate_timer task_timer) s)

    -- From a valid state without tasks, such as a start leaves, and after any events in any
    -- order: whatever the vendor module answers, the list of tasks becomes empty when the timer
    -- of the tasks fires finitely often without another event, if the string functions are lawful.
    pub queries_run_out :
        (es : List (Event E)) (s : System E C)
        → s.app.populate.s_tasks ≡ []
        → IsValid E o C s
        → let s' = handle_all E o C es s in
          (k : ℕ) × ((handle_all E o C (query_timers k) s').app.populate.s_tasks ≡ [])
    queries_run_out es s none-Waits v =
        let s' = handle_all E o C es s in
        let bounded = handle_all-IsBounded es s (
          subst (All (Bounded (largest E lawful (vendor_of E o s.app.mgmt) o.max_nr_of_onus)))
            (sym none-Waits) none_left) in
        let (k, e) =
          drains E lawful (vendor_of E o s'.app.mgmt) o.max_nr_of_onus
            (largest E lawful (vendor_of E o s'.app.mgmt) o.max_nr_of_onus) s'.app.populate
            s'.app.world bounded (handle_all-IsValid E o C es s v).queries in
        (k, ap (λ p. p.s_tasks) (timers_only k s') ∙ e)
