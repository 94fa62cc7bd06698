-- ===== src/PopulateDm/Tasks.antt =====
-- The tasks of populate_dm_startup.c, and what happens to their list and to the array of ONUs.
use tr181_xpon.Base.{
  ℕ, zero, suc, Bool, true, false, ◌&&◌, Option, none, some, List, [], ◌∷◌, ◌++◌, Text, codes,
  snprintf, percent_d, ltb, ◌==◌, if◌then◌else◌,
}
use tr181_xpon.Amxc.{Variants, id_htable, var_id_eq}
use tr181_xpon.DmInfo.{ObjectInfo}
use tr181_xpon.RestoreToHal.{Timer, started, short_timeout_ms}

pub data TaskType : Type 0 where
  task_none task_query_indexes task_query_content : TaskType

pub record Task : Type 0 where
  pub path : Text
  pub index : ℕ
  pub type : TaskType

-- The variables of the file. The array s_onu_initialised starts at index 0.
pub record Populate : Type 0 where
  pub s_timer_query_onus : Timer
  pub s_cntr_query_onus : ℕ  -- uint32_t
  pub s_tasks : List Task
  pub s_timer_handle_tasks : Timer
  pub s_onu_initialised : ℕ → Bool

abbrev pub query_onus_interval_ms : ℕ
query_onus_interval_ms = 10000

abbrev pub query_onus_nr_times : ℕ
query_onus_nr_times = 30

abbrev pub onu_template : Text
onu_template = codes "XPON.ONU"

-- The first argument says whether the task can be allocated and appended.
unfoldable pub task_create : Bool → Text → ℕ → TaskType → Populate → Populate
task_create true path index type p =
    let task : Task = record { path = path; index = index; type = type } in
    record p { s_tasks = p.s_tasks ++ (task ∷ []) }
task_create false path index type p = p

-- What *ret is if the call succeeded and it is an htable.
unfoldable pub check_return_values : (V : Variants) → Option V.Var → Option V.Var
check_return_values V none = none
check_return_values V (some ret) = if var_id_eq (V.type_of ret) id_htable then some ret else none

abbrev pub children_of : ObjectInfo → Bool → Option Text
children_of info templates = if templates then info.templates else info.singletons

-- char child_path[256]
abbrev pub child_path : Text → ℕ → Text → Text
child_path path index child =
    if index == 0
    then snprintf 256 (path ++ (b'.' ∷ child))
    else snprintf 256 (path ++ (b'.' ∷ (percent_d index ++ (b'.' ∷ child))))

abbrev pub child_type : Bool → TaskType
child_type templates = if templates then task_query_indexes else task_query_content

-- The loop of query_children.
unfoldable pub create_child_tasks : Bool → Text → ℕ → Bool → List Text → Populate → Populate
create_child_tasks allocates path index templates [] p = p
create_child_tasks allocates path index templates (child ∷ rest) p =
    create_child_tasks allocates path index templates rest
      (task_create allocates (child_path path index child) 0 (child_type templates) p)

abbrev set_initialised : (ℕ → Bool) → ℕ → ℕ → Bool
set_initialised s i j = if i == j then true else s j

-- The end of query_content. max_nr_of_onus is MAX_NR_OF_ONUS.
unfoldable pub mark_initialised : ℕ → ℕ → Populate → Populate
mark_initialised max_nr_of_onus zero p = p
mark_initialised max_nr_of_onus (suc i) p =
    if ltb max_nr_of_onus (suc i)
    then p
    else record p { s_onu_initialised = set_initialised p.s_onu_initialised i }

-- Whether the first n elements of the array are true.
unfoldable pub all_onus_initialised : (ℕ → Bool) → ℕ → Bool
all_onus_initialised s zero = true
all_onus_initialised s (suc n) = all_onus_initialised s n && s n

abbrev timer_for : List Task → Timer → Timer
timer_for [] t = t
timer_for (task ∷ tasks) t = started short_timeout_ms

unfoldable pub schedule_remaining_tasks : Populate → Populate
schedule_remaining_tasks p = record p {
  s_timer_handle_tasks = timer_for p.s_tasks p.s_timer_handle_tasks;
}

abbrev pub rest_of : List Task → List Task
rest_of [] = []
rest_of (task ∷ tasks) = tasks
