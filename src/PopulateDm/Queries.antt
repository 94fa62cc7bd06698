-- ===== src/PopulateDm/Queries.antt =====
-- populate_dm_startup.c: which tasks a query leads to.
use tr181_xpon.Base.{
  ◌≡◌, refl, ◌∙◌, sym, ℕ, Bool, true, false, Option, List, [], ◌∷◌, ◌++◌, map, arith, Text,
  atoi_u32, if◌then◌else◌, Bool-cases, Option-cases, not, ◌-◌, inl, inr, ◌||◌, ltb, leb, ◌&&◌, ◌==◌,
}
use mathlib.Core.List.{append_assoc, append-nil}
use tr181_xpon.Amxc.{all}
use tr181_xpon.World.{Env, World}
use tr181_xpon.PonCtrl.{Vendor, pon_ctrl_get_list_of_instances}
use tr181_xpon.DataModel.Reads.{dm_does_instance_exist}
use tr181_xpon.DataModel.Change.{Var}
use tr181_xpon.PopulateDm.{
  task_query_content, Task, Populate, task_create, child_path, child_type, create_child_tasks,
  is_wanted, create_content_tasks, query_indexes, handle_indexes, onu_template, indexes_of,
  check_return_values,
}

-- The state with more tasks.
abbrev pub with_tasks : Populate → List Task → Populate
with_tasks p more = record p { s_tasks = p.s_tasks ++ more }

with_tasks_nil : (p : Populate) → with_tasks p [] ≡ p
with_tasks_nil p = λ i. record p { s_tasks = append-nil p.s_tasks i }

with_tasks-with_tasks :
    (p : Populate) (more rest : List Task)
    → with_tasks (with_tasks p more) rest ≡ with_tasks p (more ++ rest)
with_tasks-with_tasks p more rest = λ i. record p { s_tasks = append_assoc p.s_tasks more rest i }

abbrev child_task : Text → ℕ → Bool → Text → Task
child_task path index templates child = record {
  path = child_path path index child;
  index = 0;
  type = child_type templates;
}

-- If tasks can be allocated, the children of an object get one task each, in order, behind the
-- tasks there were: a query of the content for a singleton, of the indexes for a template.
create_child_tasks_lem :
    (path : Text) (index : ℕ) (templates : Bool) (children : List Text) (p : Populate)
    → create_child_tasks true path index templates children p
      ≡ with_tasks p (map (child_task path index templates) children)
unfolding create_child_tasks task_create
create_child_tasks_lem path index templates [] p = sym (with_tasks_nil p)
create_child_tasks_lem path index templates (c ∷ cs) p =
    create_child_tasks_lem path index templates cs
      (with_tasks p (child_task path index templates c ∷ []))
    ∙ with_tasks-with_tasks p (child_task path index templates c ∷ [])
        (map (child_task path index templates) cs)

abbrev content_task : Text → Text → Task
content_task path piece = record { path = path; index = atoi_u32 piece; type = task_query_content }

module _ (E : Env) (vendor : Vendor E.variants) (max_nr_of_onus : ℕ) where
  abbrev wanted_tasks : Text → World E → (ℕ → Bool) → List Text → List Task
  wanted_tasks path w s [] = []
  wanted_tasks path w s (piece ∷ pieces) =
      let rest = wanted_tasks path w s pieces in
      if is_wanted E vendor max_nr_of_onus path w s piece
      then content_task path piece ∷ rest
      else rest

  -- If tasks can be allocated, the pieces of a list of indexes that are wanted get one task
  -- each, in order, behind the tasks there were.
  create_content_tasks_lem :
      E.allocates ≡ true
      → (path : Text) (w : World E) (pieces : List Text) (p : Populate)
      → create_content_tasks E vendor max_nr_of_onus path w pieces p
        ≡ with_tasks p (wanted_tasks path w p.s_onu_initialised pieces)
  unfolding create_content_tasks task_create
  create_content_tasks_lem alloc path w [] p = sym (with_tasks_nil p)
  create_content_tasks_lem alloc path w (piece ∷ pieces) p =
      elim (Bool-cases (is_wanted E vendor max_nr_of_onus path w p.s_onu_initialised piece)) [
        | inl wanted ↦
            rw (wanted, alloc, create_content_tasks)
              (create_content_tasks_lem alloc path w pieces
                  (with_tasks p (content_task path piece ∷ []))
                ∙ with_tasks-with_tasks p (content_task path piece ∷ [])
                    (wanted_tasks path w p.s_onu_initialised pieces))
        | inr unwanted ↦
            rw (unwanted, create_content_tasks) (create_content_tasks_lem alloc path w pieces p)
      ]

  abbrev in_range : Task → Bool
  in_range task = leb 1 task.index && leb task.index max_nr_of_onus

  -- The list of tasks is extended by tasks for the ONUs that there may be, and nothing else
  -- changes.
  abbrev pub AddsOnus : Populate → Populate → Type 0
  AddsOnus p p' = (more : List Task) × (p' ≡ with_tasks p more) × (all in_range more ≡ true)

  adds_nothing : (p : Populate) → AddsOnus p p
  adds_nothing p = ([], sym (with_tasks_nil p), refl)

  guarded :
      (index : ℕ) (b : Bool)
      → (if index == 0 || ltb max_nr_of_onus index then false else b) ≡ true
      → (leb 1 index && leb index max_nr_of_onus) ≡ true
  guarded index b h = ground arith

  wanted_in_range :
      (w : World E) (s : ℕ → Bool) (piece : Text)
      → is_wanted E vendor max_nr_of_onus onu_template w s piece ≡ true
      → in_range (content_task onu_template piece) ≡ true
  unfolding is_wanted
  wanted_in_range w s piece h = elim (Bool-cases (E.strings.is_numeric piece)) [
    | inl numeric ↦ ground (
      arith,
      guarded (atoi_u32 piece) (
          not (
            dm_does_instance_exist E.amxd w.store onu_template (atoi_u32 piece)
            && s (atoi_u32 piece - 1))),
    )
    | inr other ↦ ground arith
  ]

  create_in_range :
      (w : World E) (pieces : List Text) (p : Populate)
      → AddsOnus p (create_content_tasks E vendor max_nr_of_onus onu_template w pieces p)
  unfolding create_content_tasks task_create
  create_in_range w [] p = adds_nothing p
  create_in_range w (piece ∷ pieces) p =
      elim (Bool-cases
        (is_wanted E vendor max_nr_of_onus onu_template w p.s_onu_initialised piece)) [
          | inl wanted ↦ elim (Bool-cases E.allocates) [
            | inl ok ↦
                let task = content_task onu_template piece in
                let (more, e, r) = create_in_range w pieces (with_tasks p (task ∷ [])) in
                (
                  task ∷ more,
                  rw (wanted, ok, create_content_tasks)
                      (e ∙ with_tasks-with_tasks p (task ∷ []) more),
                  rw (wanted_in_range w p.s_onu_initialised piece wanted) r,
                )
            | inr failed ↦ rw (wanted, failed, create_content_tasks) (create_in_range w pieces p)
          ]
          | inr unwanted ↦ rw (unwanted, create_content_tasks) (create_in_range w pieces p)
        ]

  handle_in_range :
      (answer : Option (Var E)) (p : Populate) (w : World E)
      → AddsOnus p (handle_indexes E vendor max_nr_of_onus onu_template answer p w)
  unfolding handle_indexes
  handle_in_range answer p w = elim (Option-cases (check_return_values E.variants answer)) [
    | inl none' ↦ rw (none', handle_indexes) (adds_nothing p)
    | inr (ret, e) ↦ elim (Option-cases (indexes_of E vendor max_nr_of_onus ret)) [
      | inl none' ↦ rw (e, none', handle_indexes) (adds_nothing p)
      | inr (indexes, i) ↦ elim (Option-cases (E.strings.split_to_llist indexes b',')) [
        | inl none' ↦ rw (e, i, none', handle_indexes) (adds_nothing p)
        | inr (pieces, s) ↦ rw (e, i, s, handle_indexes) (create_in_range w pieces p)
      ]
    ]
  ]

  -- Whatever the vendor module answers, a query for the ONUs only appends tasks, and each is for
  -- an index from 1 to MAX_NR_OF_ONUS, so that the array of the ONUs that are initialised is
  -- never left.
  pub query_indexes_in_range :
      (p : Populate) (w : World E)
      → AddsOnus p (query_indexes E vendor max_nr_of_onus onu_template p w).0
  unfolding query_indexes
  query_indexes_in_range p w =
      let answered = pon_ctrl_get_list_of_instances E vendor onu_template w in
      handle_in_range answered.0 p answered.1
