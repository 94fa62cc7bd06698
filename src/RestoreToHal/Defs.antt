-- ===== src/RestoreToHal/Defs.antt =====
-- The state and the functions of restore_to_hal.c.
use tr181_xpon.Base.{
  ℕ, ◌+◌, ◌%◌, ◌^◌, Bool, true, false, ◌&&◌, not, Option, none, some, List, [], ◌∷◌, ◌++◌, Text,
  length, text_eq, strncmp_eq, ltb, ◌==◌, if◌then◌else◌,
}
use tr181_xpon.DmInfo.{ObjectId, onu}

pub record RthTask : Type 0 where
  pub path : Text
  pub cntr : ℕ  -- uint8_t

-- s_timer_handle_rth_tasks: NULL, stopped, or started with a timeout in ms.
pub data Timer : Type 0 where
  no_timer stopped : Timer
  started : ℕ → Timer

pub record Rth : Type 0 where
  pub tasks : List RthTask  -- s_rth_tasks
  pub timer : Timer

abbrev pub max_checks_on_nr_of_unis_and_anis : ℕ
max_checks_on_nr_of_unis_and_anis = 4

abbrev pub short_timeout_ms : ℕ
short_timeout_ms = 100

-- What a round finds out about a path in the data model.
pub record Found : Type 0 where
  pub id : ObjectId  -- dm_get_object_id
  pub n_ethernet_unis : ℕ
  pub n_anis : ℕ

abbrev pub is_onu : ObjectId → Bool
is_onu onu = true
is_onu _ = false

-- The body of the loop of handle_rth_tasks: whether the object is enabled now and its task
-- deleted; else the task stays with its counter one higher.
abbrev pub is_due : Found → RthTask → Bool
is_due f task =
    if is_onu f.id
    then if not (f.n_ethernet_unis == 0) && not (f.n_anis == 0)
      then true
      else ltb max_checks_on_nr_of_unis_and_anis task.cntr
    else true

abbrev pub bump : RthTask → RthTask
bump task = record task { cntr = (task.cntr + 1) % 2 ^ 8 }

-- The tasks that stay, and the paths for which pon_ctrl_set_enable(path, true) is called.
unfoldable pub handle_tasks : (Text → Found) → List RthTask → List RthTask × List Text
handle_tasks find [] = ([], [])
handle_tasks find (task ∷ tasks) =
    let (kept, enabled) = handle_tasks find tasks in
    if is_due (find task.path) task
    then (kept, task.path ∷ enabled)
    else (bump task ∷ kept, enabled)

abbrev pub restart : List RthTask → Timer
restart [] = stopped
restart (task ∷ tasks) = started 1000

-- The timer has stopped when it calls the function.
unfoldable pub handle_rth_tasks : (Text → Found) → Rth → Rth × List Text
handle_rth_tasks find rth = elim (rth.tasks) [
  | [] ↦ (record rth { timer = stopped }, [])
  | t ∷ ts ↦
      let (kept, enabled) = handle_tasks find (t ∷ ts) in
      (record { tasks = kept; timer = restart kept }, enabled)
]

-- The argument says whether amxp_timer_new succeeds.
unfoldable pub rth_init : Bool → Rth
rth_init true = record { tasks = []; timer = stopped }
rth_init false = record { tasks = []; timer = no_timer }

unfoldable pub rth_cleanup : Rth → Rth
rth_cleanup rth = record { tasks = []; timer = no_timer }

-- The test of rth_schedule_enable on a task, which compares strlen(object) bytes.
abbrev pub is_scheduled : Text → List RthTask → Bool
is_scheduled object [] = false
is_scheduled object (task ∷ tasks) =
    if strncmp_eq task.path object (length object) then true else is_scheduled object tasks

-- The first argument says whether the task can be allocated and appended.
unfoldable pub rth_task_create : Bool → Text → List RthTask → Option (List RthTask)
rth_task_create true path tasks = some (tasks ++ (record { path = path; cntr = 0 } ∷ []))
rth_task_create false path tasks = none

abbrev pub schedule_with_timer : Bool → Text → Rth → Rth
schedule_with_timer allocates object rth =
    if is_scheduled object rth.tasks
    then rth
    else elim (rth_task_create allocates object rth.tasks) [
      | none ↦ rth
      | some tasks ↦ record { tasks = tasks; timer = started short_timeout_ms }
    ]

unfoldable pub rth_schedule_enable : Bool → Text → Rth → Rth
rth_schedule_enable allocates object rth = elim (rth.timer) [
  | no_timer ↦ rth
  | _ ↦ schedule_with_timer allocates object rth
]

abbrev pub remove_first : Text → List RthTask → List RthTask
remove_first object [] = []
remove_first object (task ∷ tasks) =
    if text_eq object task.path then tasks else task ∷ remove_first object tasks

unfoldable pub rth_disable : Text → Rth → Rth
rth_disable object rth = record rth { tasks = remove_first object rth.tasks }
