-- ===== src/System/Waiting.antt =====
-- Which objects restore_to_hal.c enables: those that are saved as enabled.
pub mod Events
pub mod Run
use tr181_xpon.Base.{
  ◌≡◌, ◌≢◌, ◌∙◌, sym, Bool, true, List, [], ◌∷◌, ◌++◌, arith, Text, text_eq, Bool-cases, inl, inr,
}
use tr181_xpon.RestoreToHal.{
  RthTask, Rth, Found, is_due, handle_tasks, rth_schedule_enable, rth_task_create, remove_first,
}
use tr181_xpon.RestoreToHal.Invariant.{Absent}

-- Each task is for an object that is saved as enabled.
abbrev pub AreSaved : (Text → Bool) → List RthTask → Type 0
AreSaved is_saved [] = Unit
AreSaved is_saved (t ∷ ts) = (is_saved t.path ≡ true) × AreSaved is_saved ts

-- Each path is that of an object that is saved as enabled.
abbrev pub AllSaved : (Text → Bool) → List Text → Type 0
AllSaved is_saved [] = Unit
AllSaved is_saved (p ∷ ps) = (is_saved p ≡ true) × AllSaved is_saved ps

pub AreSaved-same :
    (f g : Text → Bool) (ts : List RthTask)
    → ((p : Text) → f p ≡ true → g p ≡ true)
    → AreSaved f ts
    → AreSaved g ts
AreSaved-same f g [] h a = tt
AreSaved-same f g (t ∷ ts) h (e, a) = (h t.path e, AreSaved-same f g ts h a)

AreSaved-snoc :
    (f : Text → Bool) (ts : List RthTask) (t : RthTask)
    → f t.path ≡ true
    → AreSaved f ts
    → AreSaved f (ts ++ (t ∷ []))
AreSaved-snoc f [] t e a = (e, tt)
AreSaved-snoc f (u ∷ us) t e (h, a) = (h, AreSaved-snoc f us t e a)

pub schedule-AreSaved :
    (f : Text → Bool) (allocates : Bool) (object : Text) (rth : Rth)
    → f object ≡ true
    → AreSaved f rth.tasks
    → AreSaved f (rth_schedule_enable allocates object rth).tasks
unfolding rth_schedule_enable rth_task_create
schedule-AreSaved f allocates object rth e a =
    ground (arith, AreSaved-snoc f rth.tasks (record { path = object; cntr = 0 }) e a)

-- Removing the task of an object, the only one for it, whose value alone differs afterwards.
pub remove-AreSaved :
    (f g : Text → Bool) (object : Text) (ts : List RthTask)
    → ((p : Text) → object ≢ p → g p ≡ f p)
    → Absent object (remove_first object ts)
    → AreSaved f ts
    → AreSaved g (remove_first object ts)
remove-AreSaved f g object [] same absent a = tt
remove-AreSaved f g object (t ∷ ts) same absent (e, a) = elim (Bool-cases (text_eq object t.path)) [
  | inl found ↦ rw found (others ts (rw found at absent) a)
  | inr other ↦
      (let (differs, rest) : (t.path ≢ object) × Absent object (remove_first object ts) =
          rw other at absent in
        rw other
          (same t.path (λ h. differs (sym h)) ∙ e, remove-AreSaved f g object ts same rest a))
]
  where
    others : (us : List RthTask) → Absent object us → AreSaved f us → AreSaved g us
    others [] n b = tt
    others (u ∷ us) (n, ns) (h, b) = (same u.path (λ x. n (sym x)) ∙ h, others us ns b)

-- The tasks that a round leaves, and the objects that it enables.
pub round-AreSaved :
    (f : Text → Bool) (find : Text → Found) (ts : List RthTask)
    → AreSaved f ts
    → AreSaved f (handle_tasks find ts).0 × AllSaved f (handle_tasks find ts).1
unfolding handle_tasks
round-AreSaved f find [] a = (tt, tt)
round-AreSaved f find (t ∷ ts) (e, a) =
    let (left, enabled) = round-AreSaved f find ts a in
    elim (Bool-cases (is_due (find t.path) t)) [
      | inl due ↦ rw due (left, (e, enabled))
      | inr wait ↦ rw wait ((e, left), enabled)
    ]
