-- ===== src/PopulateDm/Defs.antt =====
-- The state and the functions of populate_dm_startup.c.
use tr181_xpon.Base.{
  ℕ, ◌+◌, ◌-◌, ◌%◌, ◌^◌, Bool, true, false, ◌&&◌, ◌||◌, not, Option, none, some, List, [], ◌∷◌,
  Text, codes, atoi_u32, text_eq, ltb, ◌==◌, length, if◌then◌else◌,
}
use tr181_xpon.Amxc.{contains_key, get_char}
use tr181_xpon.DmInfo.{ObjectId, dm_get_object_info, dm_get_object_id}
use tr181_xpon.RestoreToHal.{no_timer, stopped, started, short_timeout_ms, is_onu}
use tr181_xpon.World.{Env, World}
use tr181_xpon.PonCtrl.{Vendor, pon_ctrl_get_object_content, pon_ctrl_get_list_of_instances}
use tr181_xpon.DataModel.Reads.{dm_does_instance_exist}
use tr181_xpon.DataModel.Args.{is_unknown}
use tr181_xpon.DataModel.Change.{Var, dm_change_object}
use tr181_xpon.DataModel.Add.{dm_add_or_change_instance_impl}
use tr181_xpon.PopulateDm.Tasks.{
  task_none, task_query_indexes, task_query_content, Task, Populate, query_onus_nr_times,
  onu_template, task_create, check_return_values, children_of, create_child_tasks, mark_initialised,
  all_onus_initialised, schedule_remaining_tasks, rest_of,
}

module _ (E : Env) (vendor : Vendor E.variants) (max_nr_of_onus : ℕ) where
  unfoldable pub query_children : Text → ℕ → ObjectId → Bool → Populate → Populate
  unfolding create_child_tasks
  query_children path index id templates p = elim (dm_get_object_info id) [
    | none ↦ p
    | some info ↦ elim (children_of info templates) [
      | none ↦ p
      | some text ↦ elim (E.strings.split_to_llist text b',') [
        | none ↦ p
        | some children ↦ create_child_tasks E.allocates path index templates children p
      ]
    ]
  ]

  -- query_content from the call of dm_get_object_id on.
  unfoldable pub after_content : Task → Populate → Populate
  unfolding query_children mark_initialised
  after_content task p =
      let id = dm_get_object_id E.strings task.path in
      if is_unknown id
      then p
      else (let p' =
            query_children task.path task.index id true
              (query_children task.path task.index id false p) in
          if is_onu id then mark_initialised max_nr_of_onus task.index p' else p')

  -- Update the data model with the content of an object; whether query_content goes on.
  unfoldable pub store_content : Task → Var E → World E → Bool × World E
  store_content task ret w =
      elim (E.variants.add_key ret (codes "path") (E.variants.of_cstring task.path)) [
        | none ↦ (false, w)
        | some ret' ↦
            if task.index == 0
            then (true, (dm_change_object E (some ret') w).1)
            else elim (E.variants.add_key ret' (codes "index") (E.variants.of_uint32 task.index)) [
              | none ↦ (false, w)
              | some ret'' ↦ dm_add_or_change_instance_impl E (some ret'') w
            ]
      ]

  unfoldable pub query_content : Task → Populate → World E → Populate × World E
  unfolding after_content
  query_content task p w =
      let (answer, w') = pon_ctrl_get_object_content E vendor task.path task.index w in
      elim (check_return_values E.variants answer) [
        | none ↦ (p, w')
        | some ret ↦
            let (goes_on, w'') = store_content task ret w' in
            (if goes_on then after_content task p else p, w'')
      ]

  -- Whether a piece of the list of indexes leads to a task.
  unfoldable pub is_wanted : Text → World E → (ℕ → Bool) → Text → Bool
  is_wanted path w s index_str =
      let index = atoi_u32 index_str in
      if E.strings.is_numeric index_str
      then if text_eq path onu_template
        then if index == 0 || ltb max_nr_of_onus index
          then false
          else not (dm_does_instance_exist E.amxd w.store path index && s (index - 1))
        else not (dm_does_instance_exist E.amxd w.store path index)
      else false

  -- The loop of query_indexes.
  unfoldable pub create_content_tasks : Text → World E → List Text → Populate → Populate
  unfolding is_wanted
  create_content_tasks path w [] p = p
  create_content_tasks path w (index_str ∷ rest) p = create_content_tasks path w rest (
      if is_wanted path w p.s_onu_initialised index_str
      then task_create E.allocates path (atoi_u32 index_str) task_query_content p
      else p)

  -- The text under the key indexes of *ret, if query_indexes goes on with it. The vendor module
  -- passes a string; a value of another type, which the code does not expect, counts as none.
  unfoldable pub indexes_of : Var E → Option Text
  indexes_of ret = elim (E.variants.htable_keys ret) [
    | none ↦ none
    | some keys ↦
        if contains_key keys (codes "indexes")
        then elim (get_char E.variants ret (codes "indexes")) [
          | none ↦ none
          | some indexes ↦ if length indexes == 0 then none else some indexes
        ]
        else none
  ]

  -- query_indexes after the call to the vendor module.
  unfoldable pub handle_indexes : Text → Option (Var E) → Populate → World E → Populate
  unfolding indexes_of create_content_tasks
  handle_indexes path answer p w = elim (check_return_values E.variants answer) [
    | none ↦ p
    | some ret ↦ elim (indexes_of ret) [
      | none ↦ p
      | some indexes ↦ elim (E.strings.split_to_llist indexes b',') [
        | none ↦ p
        | some pieces ↦ create_content_tasks path w pieces p
      ]
    ]
  ]

  unfoldable pub query_indexes : Text → Populate → World E → Populate × World E
  unfolding handle_indexes
  query_indexes path p w =
      let (answer, w') = pon_ctrl_get_list_of_instances E vendor path w in
      (handle_indexes path answer p w', w')

  abbrev pub perform : Task → Populate → World E → Populate × World E
  perform task p w = elim (task.type) [
    | task_none ↦ (p, w)
    | task_query_indexes ↦ query_indexes task.path p w
    | task_query_content ↦ query_content task p w
  ]

  -- The timer has stopped when it calls the function. The task stays in the list while it is
  -- handled; what is appended meanwhile stands behind it.
  unfoldable pub handle_task : Populate → World E → Populate × World E
  unfolding query_indexes query_content schedule_remaining_tasks
  handle_task p w =
      let fired = record p { s_timer_handle_tasks = stopped } in
      elim (p.s_tasks) [
        | [] ↦ (fired, w)
        | task ∷ tasks ↦
            let (p', w') = perform task fired w in
            (schedule_remaining_tasks (record p' { s_tasks = rest_of p'.s_tasks }), w')
      ]

  unfoldable pub query_onu_instances : Populate → World E → Populate × World E
  unfolding query_indexes schedule_remaining_tasks all_onus_initialised
  query_onu_instances p w =
      let counted = record p { s_cntr_query_onus = (p.s_cntr_query_onus + 1) % 2 ^ 32 } in
      if all_onus_initialised p.s_onu_initialised max_nr_of_onus
      then (record p { s_timer_query_onus = stopped }, w)
      else if ltb query_onus_nr_times counted.s_cntr_query_onus
      then (record counted { s_timer_query_onus = stopped }, w)
      else (let (p', w') = query_indexes onu_template counted w in
          (schedule_remaining_tasks p', w'))

-- The arguments say whether the timers can be created. The result says whether it is ready.
unfoldable pub pplt_dm_init : Bool → Bool → Populate → Bool × Populate
pplt_dm_init false query p = (false, record p { s_tasks = [] })
pplt_dm_init true false p = (false, record p { s_tasks = []; s_timer_handle_tasks = stopped })
pplt_dm_init true true p = (
  true,
  record p {
    s_tasks = [];
    s_timer_handle_tasks = stopped;
    s_timer_query_onus = started short_timeout_ms;
  },
)

unfoldable pub pplt_dm_cleanup : Populate → Populate
pplt_dm_cleanup p = record p {
  s_tasks = [];
  s_timer_handle_tasks = no_timer;
  s_timer_query_onus = no_timer;
}
