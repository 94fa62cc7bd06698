-- ===== src/DataModel/Reset.antt =====
-- data_model.c: an OMCI reset MIB message.
pub mod Cut
pub mod Frame
use tr181_xpon.Base.{
  ℕ, Bool, true, false, Option, none, some, List, [], ◌∷◌, ◌++◌, Text, codes, snprintf, percent_d,
  strncmp_eq, ◌==◌, if◌then◌else◌,
}
use tr181_xpon.Amxc.{get_uint32}
use tr181_xpon.World.{Env, World}
use tr181_xpon.DataModel.Change.{Var}
use tr181_xpon.DataModel.Remove.{remove_all_instances}

-- char path[16]
unfoldable pub reset_path : ℕ → Text
reset_path index = snprintf 16 (codes "XPON.ONU." ++ percent_d index)

module _ (E : Env) where
  -- The body of the loop over the EthernetUNI instances. Status is a string parameter.
  unfoldable pub set_down_if_up : Text → World E → World E
  set_down_if_up eth_uni_inst w = elim (E.amxd.get_param w.store eth_uni_inst (codes "Status")) [
    | none ↦ w
    | some value ↦ elim (E.variants.constcast_cstring value) [
      | none ↦ w
      | some current_status ↦
          if strncmp_eq current_status (codes "Up") 2
          then elim (E.amxd.put_param w.store eth_uni_inst (codes "Status")
              (E.variants.of_cstring (codes "Down"))) [
                | none ↦ w
                | some store ↦ record w { store = store }
              ]
          else w
    ]
  ]

  unfoldable pub set_status_down : List Text → World E → World E
  unfolding set_down_if_up
  set_status_down [] w = w
  set_status_down (eth_uni_inst ∷ rest) w = set_status_down rest (set_down_if_up eth_uni_inst w)

  unfoldable pub set_ethernet_uni_status_to_down : Text → World E → World E
  unfolding set_status_down
  set_ethernet_uni_status_to_down onu_instance w =
      elim (E.amxd.get_child w.store onu_instance (codes "EthernetUNI")) [
        | none ↦ w
        | some ethernet_uni ↦ set_status_down (E.amxd.instances w.store ethernet_uni) w
      ]

  -- The body of the loop over the ANI instances.
  unfoldable pub remove_gem_ports_of : Text → World E → World E
  remove_gem_ports_of ani_inst w = elim (E.amxd.get_child w.store ani_inst (codes "TC.GEM.Port")) [
    | none ↦ w
    | some port_templ ↦ (remove_all_instances E port_templ w).1
  ]

  unfoldable pub remove_gem_ports : List Text → World E → World E
  unfolding remove_gem_ports_of
  remove_gem_ports [] w = w
  remove_gem_ports (ani_inst ∷ rest) w = remove_gem_ports rest (remove_gem_ports_of ani_inst w)

  unfoldable pub reset_onu : Text → World E → World E
  unfolding set_ethernet_uni_status_to_down remove_gem_ports
  reset_onu onu_instance w =
      let w' = set_ethernet_uni_status_to_down onu_instance w in
      elim (E.amxd.get_child w'.store onu_instance (codes "ANI")) [
        | none ↦ w'
        | some ani ↦ remove_gem_ports (E.amxd.instances w'.store ani) w'
      ]

  -- Whether 0 is returned, and the state afterwards.
  unfoldable pub dm_omci_reset_mib : Option (Var E) → World E → Bool × World E
  dm_omci_reset_mib args w = elim args [
    | none ↦ (false, w)
    | some v ↦
        if get_uint32 E.variants v (codes "index") == 0
        then (false, w)
        else elim (E.amxd.find w.store (reset_path (get_uint32 E.variants v (codes "index")))) [
          | none ↦ (true, w)
          | some onu_instance ↦ (true, reset_onu onu_instance w)
        ]
  ]
