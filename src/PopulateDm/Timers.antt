-- ===== src/PopulateDm/Timers.antt =====
-- populate_dm_startup.c: the two timers, the counter and the array of the ONUs that are
-- initialised, whatever the vendor module answers and in whatever order the timers fire.
use tr181_xpon.Base.{
  ◌≡◌, refl, ◌⊎◌, ◌∙◌, ap, sym, subst, ℕ, Bool, true, false, List, [], ◌∷◌, arith, ◌≤◌, ◌%◌, ◌^◌,
  ◌+◌, if◌then◌else◌, Bool-cases, inl, inr, ltb,
}
use tr181_xpon.RestoreToHal.{Timer, stopped, started}
use tr181_xpon.World.{Env, World}
use tr181_xpon.PonCtrl.{Vendor}
use tr181_xpon.PopulateDm.{
  Task, Populate, schedule_remaining_tasks, handle_task, query_onu_instances, all_onus_initialised,
  query_onus_interval_ms, query_onus_nr_times, onu_template,
}
use tr181_xpon.PopulateDm.Same.{Same, Same-query_indexes, Same-perform}

abbrev pub is_started : Timer → Bool
is_started (started ms) = true
is_started _ = false

abbrev pub is_armed : List Task → Timer → Bool
is_armed [] t = true
is_armed (task ∷ tasks) t = is_started t

scheduled_armed :
    (p : Populate) (tasks : List Task) (t : Timer)
    → p.s_tasks ≡ tasks
    → is_armed
        (schedule_remaining_tasks p).s_tasks
        (schedule_remaining_tasks p).s_timer_handle_tasks
      ≡ true
unfolding schedule_remaining_tasks
scheduled_armed p [] t e = rw e refl
scheduled_armed p (task ∷ tasks) t e = rw e refl

pub tasks_cases : (ts : List Task) → (ts ≡ []) ⊎ ((t : Task) × (rest : List Task) × (ts ≡ t ∷ rest))
tasks_cases [] = inl refl
tasks_cases (t ∷ rest) = inr (t, rest, refl)

-- What fires; a timer fires only while it is started.
pub data Fire : Type 0 where
  query_timer task_timer : Fire

module _ (E : Env) (vendor : Vendor E.variants) (n : ℕ) where
  -- The timer of the queries runs only while at most 30 queries have been counted, nothing
  -- stands in the array beyond its end, and a task never waits without the timer for it.
  pub record IsValid (p : Populate) : Type 0 where
    pub room : is_started p.s_timer_query_onus ≡ true → p.s_cntr_query_onus ≤ query_onus_nr_times
    pub within : (i : ℕ) → n ≤ i → p.s_onu_initialised i ≡ false
    pub armed : is_armed p.s_tasks p.s_timer_handle_tasks ≡ true

  -- Scheduling makes a state valid that differs from a valid one by what a query changes.
  scheduled-IsValid :
      (p q : Populate)
      → (is_started p.s_timer_query_onus ≡ true → p.s_cntr_query_onus ≤ query_onus_nr_times)
      → ((i : ℕ) → n ≤ i → p.s_onu_initialised i ≡ false)
      → Same n p q
      → IsValid (schedule_remaining_tasks q)
  unfolding schedule_remaining_tasks
  scheduled-IsValid p q room within same = record {
    room = λ h.
        subst (λ c. c ≤ query_onus_nr_times) (sym same.cntr)
          (room (ap is_started (sym same.timer) ∙ h));
    within = λ i h. same.beyond i h ∙ within i h;
    armed = scheduled_armed q q.s_tasks q.s_timer_handle_tasks refl;
  }

  handle_task-IsValid :
      (p : Populate) (w : World E) → IsValid p → IsValid (handle_task E vendor n p w).0
  unfolding handle_task
  handle_task-IsValid p w v = elim (tasks_cases p.s_tasks) [
    | inl empty ↦
        rw (empty, handle_task) (record { room = v.room; within = v.within; armed = rw empty refl })
    | inr (task, tasks, e) ↦
        rw (e, handle_task)
          (scheduled-IsValid p _ v.room v.within (
            let s = Same-perform E vendor n task (record p { s_timer_handle_tasks = stopped }) w in
            record { timer = s.timer; cntr = s.cntr; beyond = s.beyond }))
  ]

  query_onu_instances-IsValid :
      (p : Populate) (w : World E)
      → IsValid p
      → p.s_cntr_query_onus ≤ query_onus_nr_times
      → IsValid (query_onu_instances E vendor n p w).0
  unfolding query_onu_instances
  query_onu_instances-IsValid p w v room =
      elim (Bool-cases (all_onus_initialised p.s_onu_initialised n)) [
        | inl all_found ↦
            rw (all_found, query_onu_instances)
              (record { room = λ h. ground arith; within = v.within; armed = v.armed })
        | inr missing ↦
            elim (Bool-cases (ltb query_onus_nr_times ((p.s_cntr_query_onus + 1) % 2 ^ 32))) [
              | inl last ↦
                  rw (missing, last, query_onu_instances)
                    (record { room = λ h. ground arith; within = v.within; armed = v.armed })
              | inr more ↦
                  rw (missing, more, query_onu_instances)
                    (scheduled-IsValid
                      (record p { s_cntr_query_onus = (p.s_cntr_query_onus + 1) % 2 ^ 32 }) _
                      (λ h. ground arith) v.within (Same-query_indexes E vendor n onu_template _ w))
            ]
      ]

  unfoldable pub fire : Fire → Populate → World E → Populate × World E
  fire query_timer p w =
      if is_started p.s_timer_query_onus
      then query_onu_instances E vendor n
          (record p { s_timer_query_onus = started query_onus_interval_ms }) w
      else (p, w)
  fire task_timer p w =
      if is_started p.s_timer_handle_tasks then handle_task E vendor n p w else (p, w)

  unfoldable pub fire_all : List Fire → Populate → World E → Populate × World E
  fire_all [] p w = (p, w)
  fire_all (f ∷ fs) p w = let (p', w') = fire f p w in fire_all fs p' w'

  pub fire-IsValid : (f : Fire) (p : Populate) (w : World E) → IsValid p → IsValid (fire f p w).0
  unfolding fire
  fire-IsValid query_timer p w v = elim (Bool-cases (is_started p.s_timer_query_onus)) [
    | inl running ↦
        rw (running, fire)
          (query_onu_instances-IsValid _ w
            (record { room = λ h. v.room running; within = v.within; armed = v.armed })
            (v.room running))
    | inr still ↦ rw (still, fire) v
  ]
  fire-IsValid task_timer p w v = elim (Bool-cases (is_started p.s_timer_handle_tasks)) [
    | inl running ↦ rw (running, fire) (handle_task-IsValid p w v)
    | inr still ↦ rw (still, fire) v
  ]

  -- Whatever the vendor module answers and however often the two timers fire, in whatever order,
  -- from a valid state on: the timer of the queries runs only while at most 30 queries have been
  -- counted, no element beyond the end of the array is set, and the timer of the tasks runs while
  -- a task waits.
  pub fire_all-IsValid :
      (fs : List Fire) (p : Populate) (w : World E) → IsValid p → IsValid (fire_all fs p w).0
  unfolding fire_all
  fire_all-IsValid [] p w v = v
  fire_all-IsValid (f ∷ fs) p w v = fire_all-IsValid fs _ _ (fire-IsValid f p w v)
