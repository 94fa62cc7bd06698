-- ===== src/System/Served/Waits.antt =====
-- How long an object waits in the list of restore_to_hal.c, whatever else happens to the list.
use tr181_xpon.Base.{
  ◌≡◌, ◌≢◌, ◌⊎◌, ◌∙◌, ℕ, suc, ◌+◌, ◌≤◌, Bool, List, [], ◌∷◌, ◌++◌, arith, Text, text_eq, text_eq→eq,
  Bool-cases, inl, inr,
}
use tr181_xpon.Posix.{Disk}
use tr181_xpon.RestoreToHal.{
  RthTask, Rth, Found, is_due, bump, handle_tasks, rth_schedule_enable, rth_task_create,
  remove_first,
}
use tr181_xpon.RestoreToHal.Rounds.{IsCounted, not_due}
use tr181_xpon.World.{Env}
use tr181_xpon.DataModel.Local.{Schedules, no_more, one_more}

-- A task for the object waits, for at most n further rounds.
abbrev pub Waits : Text → ℕ → List RthTask → Type 0
Waits p n [] = ⊥
Waits p n (t ∷ ts) = ((t.path ≡ p) × (6 ≤ t.cntr + n)) ⊎ Waits p n ts

-- The object is among these.
abbrev pub IsAmong : Text → List Text → Type 0
IsAmong p [] = ⊥
IsAmong p (q ∷ qs) = (q ≡ p) ⊎ IsAmong p qs

pub Waits-snoc :
    (p : Text) (n : ℕ) (ts : List RthTask) (t : RthTask) → Waits p n ts → Waits p n (ts ++ (t ∷ []))
Waits-snoc p n [] t h = absurd h
Waits-snoc p n (u ∷ us) t (inl here) = inl here
Waits-snoc p n (u ∷ us) t (inr later) = inr (Waits-snoc p n us t later)

pub schedule-Waits :
    (p : Text) (n : ℕ) (allocates : Bool) (object : Text) (rth : Rth)
    → Waits p n rth.tasks
    → Waits p n (rth_schedule_enable allocates object rth).tasks
unfolding rth_schedule_enable rth_task_create
schedule-Waits p n allocates object rth h =
    ground (arith, Waits-snoc p n rth.tasks (record { path = object; cntr = 0 }) h)

pub Schedules-Waits :
    {E : Env} {d : Disk} {rth rth' : Rth} (p : Text) (n : ℕ)
    → Schedules E d rth rth'
    → Waits p n rth.tasks
    → Waits p n rth'.tasks
Schedules-Waits p n (no_more rth) h = h
Schedules-Waits {E} p n (one_more object rth rth' e more) h =
    Schedules-Waits p n more (schedule-Waits p n E.allocates object rth h)

-- Disabling another object leaves the task.
pub remove-Waits :
    (p object : Text) (n : ℕ) (ts : List RthTask)
    → object ≢ p
    → Waits p n ts
    → Waits p n (remove_first object ts)
remove-Waits p object n [] differ h = absurd h
remove-Waits p object n (t ∷ ts) differ h =
    let rest : Waits p n ts → Waits p n (remove_first object ts) =
      λ later. remove-Waits p object n ts differ later in
    elim (Bool-cases (text_eq object t.path)) [
      | inl found ↦ rw found (other (text_eq→eq object t.path found) h)
      | inr kept ↦ rw kept (next rest h)
    ]
  where
    other : object ≡ t.path → Waits p n (t ∷ ts) → Waits p n ts
    other e (inl (same, left)) = absurd (differ (e ∙ same))
    other e (inr later) = later

    next :
        (Waits p n ts → Waits p n (remove_first object ts))
        → Waits p n (t ∷ ts)
        → Waits p n (t ∷ remove_first object ts)
    next rest (inl here) = inl here
    next rest (inr later) = inr (rest later)

-- The tasks that a round leaves and the objects that it enables: the object is among these, or
-- its task waits for at most n further rounds.
abbrev pub Outcome : Text → ℕ → List RthTask × List Text → Type 0
Outcome p n (left, enabled) = IsAmong p enabled ⊎ Waits p n left

later_served :
    (p q : Text) (n : ℕ) (left : List RthTask) (enabled : List Text)
    → Outcome p n (left, enabled)
    → Outcome p n (left, q ∷ enabled)
later_served p q n left enabled (inl among) = inl (inr among)
later_served p q n left enabled (inr waits) = inr waits

later_counted :
    (p : Text) (t : RthTask) (n : ℕ) (left : List RthTask) (enabled : List Text)
    → Outcome p n (left, enabled)
    → Outcome p n (t ∷ left, enabled)
later_counted p t n left enabled (inl among) = inl among
later_counted p t n left enabled (inr waits) = inr (inr waits)

-- In each round the object is enabled, or its task has one round less.
pub round-Outcome :
    (find : Text → Found) (p : Text) (n : ℕ) (ts : List RthTask)
    → IsCounted ts
    → Waits p (suc n) ts
    → Outcome p n (handle_tasks find ts)
unfolding handle_tasks
round-Outcome find p n [] c h = absurd h
round-Outcome find p n (t ∷ ts) (c, cs) (inl (same, left)) =
    elim (Bool-cases (is_due (find t.path) t)) [
      | inl due ↦ rw due (inl (inl same))
      | inr wait ↦ rw wait (inr (inl (same, omega (arith, not_due (find t.path) t wait))))
    ]
round-Outcome find p n (t ∷ ts) (c, cs) (inr later) =
    let (kept, enabled) = handle_tasks find ts in
    let rest = round-Outcome find p n ts cs later in
    elim (Bool-cases (is_due (find t.path) t)) [
      | inl due ↦ rw due (later_served p t.path n kept enabled rest)
      | inr wait ↦ rw wait (later_counted p (bump t) n kept enabled rest)
    ]

pub none-Waits : (p : Text) (ts : List RthTask) → IsCounted ts → Waits p 0 ts → ⊥
none-Waits p [] c h = h
none-Waits p (t ∷ ts) (c, cs) (inl (same, left)) = omega arith
none-Waits p (t ∷ ts) (c, cs) (inr later) = none-Waits p ts cs later
