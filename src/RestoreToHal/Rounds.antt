-- ===== src/RestoreToHal/Rounds.antt =====
-- Every task is served: none is lost or served twice, and none waits for more than six rounds.
use tr181_xpon.Base.{
  ℕ, suc, ◌+◌, ◌≤◌, ◌≡◌, refl, ap, false, List, [], ◌∷◌, ◌++◌, arith, Text, length, text_eq,
  if◌then◌else◌, Bool-cases, inl, inr,
}
use tr181_xpon.RestoreToHal.Defs.{RthTask, Found, is_due, handle_tasks}

-- How often a path stands in a list of tasks, and in a list of paths.
abbrev pub count_path : Text → List Text → ℕ
count_path p [] = 0
count_path p (q ∷ qs) = if text_eq p q then suc (count_path p qs) else count_path p qs

abbrev pub count_task : Text → List RthTask → ℕ
count_task p [] = 0
count_task p (t ∷ ts) = if text_eq p t.path then suc (count_task p ts) else count_task p ts

count-handle_tasks :
    (find : Text → Found) (p : Text) (ts : List RthTask)
    → let (kept, enabled) = handle_tasks find ts in
      count_path p enabled + count_task p kept ≡ count_task p ts
unfolding handle_tasks
count-handle_tasks find p [] = refl
count-handle_tasks find p (t ∷ ts) = elim (Bool-cases (is_due (find t.path) t)) [
  | inl due ↦ rw due (ground (arith, count-handle_tasks find p ts))
  | inr wait ↦ rw wait (ground (arith, count-handle_tasks find p ts))
]

-- Consecutive runs of the timer's function, each with what it finds in the data model, while
-- nothing else is scheduled or disabled.
abbrev pub run_rounds : List (Text → Found) → List RthTask → List RthTask × List Text
run_rounds [] ts = (ts, [])
run_rounds (find ∷ finds) ts =
    let (kept, enabled) = handle_tasks find ts in
    let (last, later) = run_rounds finds kept in (last, enabled ++ later)

count_path-append :
    (p : Text) (xs ys : List Text) → count_path p (xs ++ ys) ≡ count_path p xs + count_path p ys
count_path-append p [] ys = omega arith
count_path-append p (x ∷ xs) ys = ground (arith, count_path-append p xs ys)

-- Over any number of rounds each object is enabled as often as it had a task, less the tasks
-- that are left for it.
run_rounds_conserves :
    (finds : List (Text → Found)) (p : Text) (ts : List RthTask)
    → let (left, enabled) = run_rounds finds ts in
      count_path p enabled + count_task p left ≡ count_task p ts
run_rounds_conserves [] p ts = omega arith
run_rounds_conserves (find ∷ finds) p ts =
    let (kept, enabled) = handle_tasks find ts in
    omega (
      arith,
      count-handle_tasks find p ts,
      run_rounds_conserves finds p kept,
      count_path-append p enabled (run_rounds finds kept).1,
    )

-- Every counter is at most 5.
abbrev pub IsCounted : List RthTask → Type 0
IsCounted [] = Unit
IsCounted (t ∷ ts) = (t.cntr ≤ 5) × IsCounted ts

-- Every counter is at most 5, and the rounds that it still allows are at most n.
abbrev pub Bounded : ℕ → List RthTask → Type 0
Bounded n [] = Unit
Bounded n (t ∷ ts) = (t.cntr ≤ 5) × (6 ≤ t.cntr + n) × Bounded n ts

Bounded-zero : (ts : List RthTask) → Bounded 0 ts → ts ≡ []
Bounded-zero [] b = refl
Bounded-zero (t ∷ ts) (c, d, b) = absurd (omega arith)

-- A task that stays has been looked at five times at most.
pub not_due : (f : Found) (t : RthTask) → is_due f t ≡ false → t.cntr ≤ 4
not_due f t h = ground arith

handle_tasks-Bounded :
    (find : Text → Found) (n : ℕ) (ts : List RthTask)
    → Bounded (suc n) ts
    → Bounded n (handle_tasks find ts).0
unfolding handle_tasks
handle_tasks-Bounded find n [] b = tt
handle_tasks-Bounded find n (t ∷ ts) (c, d, b) = elim (Bool-cases (is_due (find t.path) t)) [
  | inl due ↦ rw due (handle_tasks-Bounded find n ts b)
  | inr wait ↦ rw wait (ground (arith, not_due (find t.path) t, handle_tasks-Bounded find n ts b))
]

IsCounted-Bounded : (n : ℕ) (ts : List RthTask) → 6 ≤ n → IsCounted ts → Bounded n ts
IsCounted-Bounded n [] h b = tt
IsCounted-Bounded n (t ∷ ts) h (c, b) = (c, omega arith, IsCounted-Bounded n ts h b)

-- A counter never passes 5, so that the uint8_t does not wrap.
pub handle_tasks-IsCounted :
    (find : Text → Found) (ts : List RthTask) → IsCounted ts → IsCounted (handle_tasks find ts).0
unfolding handle_tasks
handle_tasks-IsCounted find [] b = tt
handle_tasks-IsCounted find (t ∷ ts) (c, b) = elim (Bool-cases (is_due (find t.path) t)) [
  | inl due ↦ rw due (handle_tasks-IsCounted find ts b)
  | inr wait ↦ rw wait (ground (arith, not_due (find t.path) t, handle_tasks-IsCounted find ts b))
]

run_rounds-eq-nil :
    (finds : List (Text → Found)) (ts : List RthTask)
    → Bounded (length finds) ts
    → (run_rounds finds ts).0 ≡ []
run_rounds-eq-nil [] ts b = Bounded-zero ts b
run_rounds-eq-nil (find ∷ finds) ts b =
    run_rounds-eq-nil finds (handle_tasks find ts).0 (handle_tasks-Bounded find (length finds) ts b)

-- Whatever the data model holds, after six rounds no task is left, and every object has been
-- enabled as often as it had a task.
pub run_rounds_serve_all :
    (finds : List (Text → Found)) (ts : List RthTask)
    → IsCounted ts
    → 6 ≤ length finds
    → ((run_rounds finds ts).0 ≡ [])
      × ((p : Text) → count_path p (run_rounds finds ts).1 ≡ count_task p ts)
run_rounds_serve_all finds ts b h =
    let done = run_rounds-eq-nil finds ts (IsCounted-Bounded (length finds) ts h b) in
    (done, λ p. omega (arith, run_rounds_conserves finds p ts, ap (count_task p) done))
