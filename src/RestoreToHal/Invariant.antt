-- ===== src/RestoreToHal/Invariant.antt =====
-- What holds of the list between two events, and what a prefix does to rth_schedule_enable.
use tr181_xpon.Base.{
  ℕ, ◌≤◌, ◌≡◌, refl, ◌≢◌, inl, inr, subst, sym, Bool, true, false, List, [], ◌∷◌, ◌++◌, arith, Text,
  length, text_eq, text_eq→eq, text_eq_iff, strncmp_eq, strncmp_eq-append, append-nil_text,
  Bool-cases,
}
use tr181_xpon.RestoreToHal.Defs.{
  RthTask, Timer, no_timer, stopped, started, Rth, Found, is_due, handle_tasks, restart,
  is_scheduled, rth_task_create, rth_schedule_enable, schedule_with_timer, remove_first,
  short_timeout_ms,
}
use tr181_xpon.RestoreToHal.Rounds.{IsCounted}

-- No task is for the path.
abbrev pub Absent : Text → List RthTask → Type 0
Absent p [] = Unit
Absent p (t ∷ ts) = (t.path ≢ p) × Absent p ts

-- No two tasks are for the same path.
abbrev pub Distinct : List RthTask → Type 0
Distinct [] = Unit
Distinct (t ∷ ts) = Absent t.path ts × Distinct ts

-- The timer runs whenever a task waits for it.
abbrev pub IsArmed : List RthTask → Timer → Type 0
IsArmed [] timer = Unit
IsArmed (t ∷ ts) timer = (ms : ℕ) × (timer ≡ started ms)

pub record IsValid (rth : Rth) : Type 0 where
  pub counted : IsCounted rth.tasks
  pub distinct : Distinct rth.tasks
  pub armed : IsArmed rth.tasks rth.timer

strncmp_self : (t : Text) → strncmp_eq t t (length t) ≡ true
strncmp_self t =
    subst (λ u. strncmp_eq u t (length t) ≡ true) (append-nil_text t) (strncmp_eq-append t [])

pub not_scheduled-Absent :
    (object : Text) (ts : List RthTask) → is_scheduled object ts ≡ false → Absent object ts
not_scheduled-Absent object [] h = tt
not_scheduled-Absent object (t ∷ ts) h = (
  λ e. ground (
    arith,
    subst (λ p. strncmp_eq p object (length object) ≡ true) (sym e) (strncmp_self object),
  ),
  not_scheduled-Absent object ts (ground arith),
)

Absent-snoc :
    (p : Text) (ts : List RthTask) (t : RthTask)
    → t.path ≢ p
    → Absent p ts
    → Absent p (ts ++ (t ∷ []))
Absent-snoc p [] t h a = (h, tt)
Absent-snoc p (u ∷ us) t h (n, a) = (n, Absent-snoc p us t h a)

Distinct-snoc :
    (ts : List RthTask) (t : RthTask) → Absent t.path ts → Distinct ts → Distinct (ts ++ (t ∷ []))
Distinct-snoc [] t a d = (tt, tt)
Distinct-snoc (u ∷ us) t (n, a) (f, d) =
    (Absent-snoc u.path us t (λ e. n (sym e)) f, Distinct-snoc us t a d)

IsCounted-snoc :
    (ts : List RthTask) (t : RthTask) → t.cntr ≤ 5 → IsCounted ts → IsCounted (ts ++ (t ∷ []))
IsCounted-snoc [] t h b = (h, tt)
IsCounted-snoc (u ∷ us) t h (c, b) = (c, IsCounted-snoc us t h b)

IsArmed-started : (ts : List RthTask) (ms : ℕ) → IsArmed ts (started ms)
IsArmed-started [] ms = tt
IsArmed-started (t ∷ ts) ms = (ms, refl)

handle_tasks-Absent :
    (find : Text → Found) (p : Text) (ts : List RthTask)
    → Absent p ts
    → Absent p (handle_tasks find ts).0
unfolding handle_tasks
handle_tasks-Absent find p [] a = tt
handle_tasks-Absent find p (t ∷ ts) (n, a) = elim (Bool-cases (is_due (find t.path) t)) [
  | inl due ↦ rw due (handle_tasks-Absent find p ts a)
  | inr wait ↦ rw wait (n, handle_tasks-Absent find p ts a)
]

pub handle_tasks-Distinct :
    (find : Text → Found) (ts : List RthTask) → Distinct ts → Distinct (handle_tasks find ts).0
unfolding handle_tasks
handle_tasks-Distinct find [] d = tt
handle_tasks-Distinct find (t ∷ ts) (a, d) = elim (Bool-cases (is_due (find t.path) t)) [
  | inl due ↦ rw due (handle_tasks-Distinct find ts d)
  | inr wait ↦ rw wait (handle_tasks-Absent find t.path ts a, handle_tasks-Distinct find ts d)
]

pub IsArmed-restart : (ts : List RthTask) → IsArmed ts (restart ts)
IsArmed-restart [] = tt
IsArmed-restart (t ∷ ts) = (1000, refl)

rth_task_create-IsValid :
    (allocates : Bool) (object : Text) (rth : Rth)
    → is_scheduled object rth.tasks ≡ false
    → IsValid rth
    → IsValid (schedule_with_timer allocates object rth)
unfolding rth_task_create
rth_task_create-IsValid true object rth new v =
    let t : RthTask = record { path = object; cntr = 0 } in
    rw new (record {
      counted = IsCounted-snoc rth.tasks t (omega arith) v.counted;
      distinct = Distinct-snoc rth.tasks t (not_scheduled-Absent object rth.tasks new) v.distinct;
      armed = IsArmed-started (rth.tasks ++ (t ∷ [])) short_timeout_ms;
    })
rth_task_create-IsValid false object rth new v = rw new v

schedule_with_timer-IsValid :
    (allocates : Bool) (object : Text) (rth : Rth)
    → IsValid rth
    → IsValid (schedule_with_timer allocates object rth)
schedule_with_timer-IsValid allocates object rth v =
    elim (Bool-cases (is_scheduled object rth.tasks)) [
      | inl old ↦ rw old v
      | inr new ↦ rth_task_create-IsValid allocates object rth new v
    ]

pub rth_schedule_enable-IsValid :
    (allocates : Bool) (object : Text) (tasks : List RthTask) (timer : Timer)
    → let rth : Rth = record { tasks = tasks; timer = timer } in
      IsValid rth → IsValid (rth_schedule_enable allocates object rth)
unfolding rth_schedule_enable
rth_schedule_enable-IsValid allocates object tasks no_timer v = v
rth_schedule_enable-IsValid allocates object tasks stopped v =
    schedule_with_timer-IsValid allocates object _ v
rth_schedule_enable-IsValid allocates object tasks (started ms) v =
    schedule_with_timer-IsValid allocates object _ v

pub remove_first-IsCounted :
    (o : Text) (ts : List RthTask) → IsCounted ts → IsCounted (remove_first o ts)
remove_first-IsCounted o [] b = tt
remove_first-IsCounted o (t ∷ ts) (c, b) = elim (Bool-cases (text_eq o t.path)) [
  | inl same ↦ rw same b
  | inr other ↦ rw other (c, remove_first-IsCounted o ts b)
]

remove_first-Absent : (o p : Text) (ts : List RthTask) → Absent p ts → Absent p (remove_first o ts)
remove_first-Absent o p [] a = tt
remove_first-Absent o p (t ∷ ts) (n, a) = elim (Bool-cases (text_eq o t.path)) [
  | inl same ↦ rw same a
  | inr other ↦ rw other (n, remove_first-Absent o p ts a)
]

pub remove_first-Distinct :
    (o : Text) (ts : List RthTask) → Distinct ts → Distinct (remove_first o ts)
remove_first-Distinct o [] d = tt
remove_first-Distinct o (t ∷ ts) (a, d) = elim (Bool-cases (text_eq o t.path)) [
  | inl same ↦ rw same d
  | inr other ↦ rw other (remove_first-Absent o t.path ts a, remove_first-Distinct o ts d)
]

pub remove_first_removes :
    (o : Text) (ts : List RthTask) → Distinct ts → Absent o (remove_first o ts)
remove_first_removes o [] d = tt
remove_first_removes o (t ∷ ts) (a, d) = elim (Bool-cases (text_eq o t.path)) [
  | inl same ↦ rw same (subst (λ p. Absent p ts) (sym (text_eq→eq o t.path same)) a)
  | inr other ↦
      rw other (λ e. cc ((text_eq_iff o t.path).1 (sym e), other), remove_first_removes o ts d)
]

pub remove_first-IsArmed :
    (o : Text) (ts : List RthTask) (timer : Timer)
    → IsArmed ts timer
    → IsArmed (remove_first o ts) timer
remove_first-IsArmed o [] timer a = tt
remove_first-IsArmed o (t ∷ ts) timer (ms, e) =
    subst (IsArmed (remove_first o (t ∷ ts))) (sym e) (IsArmed-started (remove_first o (t ∷ ts)) ms)
