-- ===== src/PonStat.antt =====
-- pon_stat.c and pon_cfg.c: what the vendor module may call.
use tr181_xpon.Base.{ℕ, ltb, Bool, true, false, Option, none, some, codes, if◌then◌else◌}
use tr181_xpon.Amxc.{id_fd, var_id_eq, get_char}
use tr181_xpon.World.{Env, World}
use tr181_xpon.PonCtrl.{Vendor, pon_ctrl_handle_file_descriptor}
use tr181_xpon.DataModel.Reads.{dm_get_param}
use tr181_xpon.DataModel.Change.{Var, dm_change_object}
use tr181_xpon.DataModel.Add.{dm_add_instance, dm_add_or_change_instance_impl}
use tr181_xpon.DataModel.Remove.{dm_remove_instance, dm_set_xpon_parameter_impl}
use tr181_xpon.DataModel.Reset.{dm_omci_reset_mib}

-- The connections of the parser, with amxo_connection_add and amxo_connection_remove; none if
-- they do not return 0.
pub record Connections : Type 1 where
  pub Parser : Type 0
  pub connection_add : Parser → ℕ → Option Parser
  pub connection_remove : Parser → ℕ → Option Parser

-- The functions of PON_STAT_FUNCTIONS.
pub data StatFunction : Type 0 where
  dm_instance_added dm_instance_removed dm_object_changed dm_add_or_change_instance : StatFunction
  omci_reset_mib watch_file_descriptor_start watch_file_descriptor_stop : StatFunction
  dm_set_xpon_parameter : StatFunction

module _ (E : Env) where
  -- none of the parser and of args for NULL.
  unfoldable pub watch_file_descriptor_common :
      (C : Connections) → Option C.Parser → Option (Var E) → Bool → Bool × Option C.Parser
  watch_file_descriptor_common C none args start = (false, none)
  watch_file_descriptor_common C (some parser) args start = elim args [
    | none ↦ (false, some parser)
    | some v ↦
        if var_id_eq (E.variants.type_of v) id_fd
        then elim (E.variants.constcast_fd v) [
          | none ↦ (false, some parser)
          | some fd ↦
              elim (if start then C.connection_add parser fd else C.connection_remove parser fd) [
                | none ↦ (false, some parser)
                | some changed ↦ (true, some changed)
              ]
        ]
        else (false, some parser)
  ]

  -- The implementation of each, with whether 0 is returned; a vendor module passes args.
  unfoldable pub call_stat :
      (C : Connections)
      → StatFunction
      → Var E
      → Option C.Parser
      → World E
      → Bool × Option C.Parser × World E
  unfolding watch_file_descriptor_common
  call_stat C dm_instance_added args parser w =
      let (ok, w') = dm_add_instance E (some args) w in (ok, parser, w')
  call_stat C dm_instance_removed args parser w =
      let (ok, w') = dm_remove_instance E (some args) w in (ok, parser, w')
  call_stat C dm_object_changed args parser w =
      let (ok, w') = dm_change_object E (some args) w in (ok, parser, w')
  call_stat C dm_add_or_change_instance args parser w =
      let (ok, w') = dm_add_or_change_instance_impl E (some args) w in (ok, parser, w')
  call_stat C omci_reset_mib args parser w =
      let (ok, w') = dm_omci_reset_mib E (some args) w in (ok, parser, w')
  call_stat C watch_file_descriptor_start args parser w =
      let (ok, parser') = watch_file_descriptor_common C parser (some args) true in (ok, parser', w)
  call_stat C watch_file_descriptor_stop args parser w =
      let (ok, parser') = watch_file_descriptor_common C parser (some args) false in
      (ok, parser', w)
  call_stat C dm_set_xpon_parameter args parser w =
      let (ok, w') = dm_set_xpon_parameter_impl E args w in (ok, parser, w')

  unfoldable pub handle_fd : Vendor E.variants → ℕ → World E → World E
  handle_fd vendor fd w = if ltb 0 fd then pon_ctrl_handle_file_descriptor E vendor fd w else w

  -- What *ret is set to; none unless 0 is returned. Both arguments are strings.
  unfoldable pub pon_cfg_get_param_value : Var E → World E → Option (Var E)
  pon_cfg_get_param_value args w = elim (get_char E.variants args (codes "path")) [
    | none ↦ none
    | some path ↦ elim (get_char E.variants args (codes "name")) [
      | none ↦ none
      | some name ↦ dm_get_param E.amxd w.store path name
    ]
  ]
