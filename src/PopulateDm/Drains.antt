-- ===== src/PopulateDm/Drains.antt =====
-- populate_dm_startup.c: the queue of tasks runs empty.
use tr181_xpon.Base.{
  true, ℕ, zero, suc, ◌+◌, ◌≡◌, refl, ap, sym, ◌∙◌, subst, List, [], ◌∷◌, ◌++◌, arith, codes, inl,
  inr, Bool-cases, ltb, ◌%◌, ◌^◌,
}
use mathlib.Core.List.{append_assoc, append-nil}
use tr181_xpon.Amxc.{IsLawful}
use tr181_xpon.World.{Env, World}
use tr181_xpon.PonCtrl.{Vendor}
use tr181_xpon.PopulateDm.{
  onu_template, query_onus_interval_ms, query_onu_instances, all_onus_initialised,
  query_onus_nr_times, Task, Populate, handle_task, schedule_remaining_tasks,
}
use tr181_xpon.RestoreToHal.{started}
use tr181_xpon.PopulateDm.Shape.{IsPath}
use tr181_xpon.PopulateDm.Children.{All, none_left, and_all, All-append, Bounded}
use tr181_xpon.PopulateDm.Timers.{
  Fire, query_timer, task_timer, fire, fire_all, IsValid, fire-IsValid, fire_all-IsValid, is_armed,
  is_started,
}
use tr181_xpon.PopulateDm.Below.{handle_task-Adds, query_indexes-Adds}

-- The timer of the tasks fires so often, and the other one does not.
abbrev pub task_timers : ℕ → List Fire
task_timers zero = []
task_timers (suc n) = task_timer ∷ task_timers n

module _ (E : Env) (lawful : IsLawful E.strings) (vendor : Vendor E.variants) (n : ℕ) where
  -- A task that waits is handled, since the timer of the tasks then runs.
  fire_waiting :
      (task : Task) (tasks : List Task) (p : Populate) (w : World E)
      → p.s_tasks ≡ task ∷ tasks
      → IsValid E vendor n p
      → fire E vendor n task_timer p w ≡ handle_task E vendor n p w
  unfolding fire
  fire_waiting task tasks p w e v =
      let armed : is_armed (task ∷ tasks) p.s_timer_handle_tasks ≡ true =
        subst (λ ts. is_armed ts p.s_timer_handle_tasks ≡ true) e v.armed in
      rw (armed, fire) refl

  fire_all_add :
      (k m : ℕ) (p : Populate) (w : World E)
      → fire_all E vendor n (task_timers (k + m)) p w ≡ (
          let (q, v) = fire_all E vendor n (task_timers k) p w in
          fire_all E vendor n (task_timers m) q v)
  unfolding fire_all
  fire_all_add zero m p w =
      let none_first : 0 + m ≡ m = omega arith in
      ap (λ k. fire_all E vendor n (task_timers k) p w) none_first
  fire_all_add (suc k) m p w =
      let one_first : suc k + m ≡ suc (k + m) = omega arith in
      let (q, v) = fire E vendor n task_timer p w in
      ap (λ k. fire_all E vendor n (task_timers k) p w) one_first ∙ fire_all_add k m q v

  -- Once the tasks that there are have been handled, all are below the bound.
  one_round :
      (bound : ℕ) (old new : List Task) (p : Populate) (w : World E)
      → p.s_tasks ≡ old ++ new
      → All (Bounded (suc bound)) old
      → All (Bounded bound) new
      → IsValid E vendor n p
      → (k : ℕ) × All (Bounded bound) (fire_all E vendor n (task_timers k) p w).0.s_tasks
  unfolding fire_all
  one_round bound [] new p w e none_left h v = (0, subst (All (Bounded bound)) (sym e) h)
  one_round bound (t ∷ ts) new p w e (and_all b rest) h v =
      let (more, f, good) = handle_task-Adds E lawful vendor n bound t (ts ++ new) p w e b in
      let (q, u) = fire E vendor n task_timer p w in
      let fired = ap (λ s. s.0.s_tasks) (fire_waiting t (ts ++ new) p w e v) in
      let (k, all_below) =
        one_round bound ts (new ++ more) q u (fired ∙ f ∙ append_assoc ts new more) rest
          (All-append (Bounded bound) new more h good) (fire-IsValid E vendor n task_timer p w v) in
      (suc k, all_below)

  none_below : (tasks : List Task) → All (Bounded 0) tasks → tasks ≡ []
  none_below [] h = refl
  none_below (t ∷ ts) (and_all b h) = absurd (omega (arith, b.below))

  pub drains :
      (bound : ℕ) (p : Populate) (w : World E)
      → All (Bounded bound) p.s_tasks
      → IsValid E vendor n p
      → (k : ℕ) × ((fire_all E vendor n (task_timers k) p w).0.s_tasks ≡ [])
  unfolding fire_all
  drains zero p w h v = (0, none_below p.s_tasks h)
  drains (suc bound) p w h v =
      let (k, all_below) =
        one_round bound p.s_tasks [] p w (sym (append-nil p.s_tasks)) h none_left v in
      let (q, u) = fire_all E vendor n (task_timers k) p w in
      let (m, e) = drains bound q u all_below (fire_all-IsValid E vendor n (task_timers k) p w v) in
      (k + m, ap (λ s. s.0.s_tasks) (fire_all_add k m p w) ∙ e)

  -- No task has a larger bound than the queries of XPON.
  abbrev pub largest : ℕ
  largest = 14

  largest-Bounded : (task : Task) → Bounded largest task → Bounded (suc largest) task
  largest-Bounded task b = record { depth = b.depth; path = b.path; below = omega (arith, b.below) }

  handle_task-All :
      (tasks : List Task) (s : Populate × World E)
      → s.0.s_tasks ≡ tasks
      → All (Bounded largest) tasks
      → All (Bounded largest) (handle_task E vendor n s.0 s.1).0.s_tasks
  unfolding handle_task
  handle_task-All [] s e h = rw (e, handle_task) (subst (All (Bounded largest)) (sym e) none_left)
  handle_task-All (t ∷ ts) s e (and_all b h) =
      let (more, f, good) =
        handle_task-Adds E lawful vendor n largest t ts s.0 s.1 e (largest-Bounded t b) in
      subst (All (Bounded largest)) (sym f) (All-append (Bounded largest) ts more h good)

  onu_template-IsPath : IsPath 2 onu_template
  onu_template-IsPath = record {
    parts = codes "XPON" ∷ codes "ONU" ∷ [];
    is_plain_parts = refl;
    same = refl;
    count = refl;
    positive = omega arith;
    room = omega arith;
  }

  query_onu_instances-All :
      (p : Populate) (w : World E)
      → All (Bounded largest) p.s_tasks
      → All (Bounded largest) (query_onu_instances E vendor n p w).0.s_tasks
  unfolding query_onu_instances schedule_remaining_tasks
  query_onu_instances-All p w h =
      let counted = record p { s_cntr_query_onus = (p.s_cntr_query_onus + 1) % 2 ^ 32 } in
      let (more, e, good) =
        query_indexes-Adds E lawful vendor n 2 largest onu_template counted w onu_template-IsPath
          (omega arith) in
      let queried =
        subst (All (Bounded largest)) (sym e)
          (All-append (Bounded largest) p.s_tasks more h good) in
      elim (Bool-cases (all_onus_initialised p.s_onu_initialised n)) [
        | inl done ↦ rw (done, query_onu_instances) h
        | inr missing ↦
            elim (Bool-cases (ltb query_onus_nr_times ((p.s_cntr_query_onus + 1) % 2 ^ 32))) [
              | inl often ↦ rw (missing, often, query_onu_instances) h
              | inr again ↦ rw (missing, again, query_onu_instances) queried
            ]
      ]

  pub fire-All :
      (f : Fire) (p : Populate) (w : World E)
      → All (Bounded largest) p.s_tasks
      → All (Bounded largest) (fire E vendor n f p w).0.s_tasks
  unfolding fire
  fire-All task_timer p w h = elim (Bool-cases (is_started p.s_timer_handle_tasks)) [
    | inl running ↦ rw (running, fire) (handle_task-All p.s_tasks (p, w) refl h)
    | inr still ↦ rw (still, fire) h
  ]
  fire-All query_timer p w h = elim (Bool-cases (is_started p.s_timer_query_onus)) [
    | inl running ↦
        rw (running, fire)
          (query_onu_instances-All
            (record p { s_timer_query_onus = started query_onus_interval_ms }) w h)
    | inr still ↦ rw (still, fire) h
  ]

  fire_all-All :
      (fs : List Fire) (p : Populate) (w : World E)
      → All (Bounded largest) p.s_tasks
      → All (Bounded largest) (fire_all E vendor n fs p w).0.s_tasks
  unfolding fire_all
  fire_all-All [] p w h = h
  fire_all-All (f ∷ fs) p w h = fire_all-All fs _ _ (fire-All f p w h)

  -- From a valid state without tasks, whatever the vendor module answers and in whatever order
  -- the two timers have fired, the timer of the tasks makes the list of tasks empty after finitely
  -- many further calls, if the string functions are lawful.
  tasks_run_out :
      (fs : List Fire) (p : Populate) (w : World E)
      → p.s_tasks ≡ []
      → IsValid E vendor n p
      → let (q, v) = fire_all E vendor n fs p w in
        (k : ℕ) × ((fire_all E vendor n (task_timers k) q v).0.s_tasks ≡ [])
  tasks_run_out fs p w e v =
      let (q, u) = fire_all E vendor n fs p w in
      drains largest q u (fire_all-All fs p w (subst (All (Bounded largest)) (sym e) none_left))
        (fire_all-IsValid E vendor n fs p w v)
