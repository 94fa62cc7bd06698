-- ===== src/Tests/Model.antt =====
-- Transactions on the data model at concrete inputs.
use tr181_xpon.Base.{◌≡◌, ◌⊎◌, refl, true, some, [], Text, codes}
use tr181_xpon.Amxd.{Transaction}
use tr181_xpon.DmInfo.{ani}
use tr181_xpon.DataModel.Args.{ActionInfo}
use tr181_xpon.DataModel.Transactions.{add_params_to_transaction}
use tr181_xpon.DataModel.Change.{dm_change_object}
use tr181_xpon.DataModel.Change.Applied.{IsTarget, AppliesTyped, dm_change_object-AppliesTyped}
use tr181_xpon.DataModel.Transactions.Params.{extend, settings_of, add_params_to_transaction_lem}
use tr181_xpon.Tests.Fixtures.{
  Value, bool_value, uint32_value, cstring_value, no_entries, entry, values, objects_only, world,
  env, onu_1,
}

abbrev params : Value
params =
    entry (codes "Name") (cstring_value (codes "ani0"))
      (entry (codes "Other") (bool_value true) no_entries)

abbrev no_actions : Transaction Value
no_actions = record { object = codes "XPON.ONU.1.ANI"; actions = [] }

add_params_to_transaction_lem_example :
    add_params_to_transaction objects_only world.store no_actions (some params) ani
    ≡ extend no_actions (settings_of values (some params) ani)
add_params_to_transaction_lem_example =
    add_params_to_transaction_lem objects_only world.store (λ t a. refl) no_actions (some params)
      ani

-- The arguments for removing ANI 1.
abbrev pub remove_args : Value
remove_args =
    entry (codes "path") (cstring_value (codes "XPON.ONU.1.ANI"))
      (entry (codes "index") (uint32_value 1) no_entries)

-- One value has the declared type, the other has not.
abbrev change_args : Value
change_args = entry (codes "path") (cstring_value onu_1) (
    entry (codes "parameters")
      (entry (codes "Version") (cstring_value (codes "1.0"))
        (entry (codes "EquipmentID") (bool_value true) no_entries))
      no_entries)

dm_change_object-AppliesTyped_example :
    let w' = (dm_change_object env (some change_args) world).1 in
    (w'.store ≡ world.store)
    ⊎ ((object : Text) × (info : ActionInfo Value) × IsTarget env
          (some change_args)
          object
          info
          world
        × AppliesTyped env object info world w')
dm_change_object-AppliesTyped_example =
    dm_change_object-AppliesTyped env refl (some change_args) world
