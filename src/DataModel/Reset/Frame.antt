-- ===== src/DataModel/Reset/Frame.antt =====
-- data_model.c: what an OMCI reset MIB message leaves alone.
use tr181_xpon.Base.{
  ◌≡◌, refl, ◌∙◌, ap, Bool, false, not, Option, none, some, List, [], ◌∷◌, arith, Text, codes, ◌==◌,
  Bool-cases, Option-cases, inl, inr, if◌then◌else◌,
}
use tr181_xpon.Amxc.{get_uint32}
use tr181_xpon.Amxd.{Transaction}
use tr181_xpon.World.{Env, World}
use tr181_xpon.DataModel.Change.{Var, apply}
use tr181_xpon.DataModel.Remove.{remove_all_instances}
use tr181_xpon.DataModel.Reset.{
  reset_path, set_down_if_up, remove_gem_ports_of, set_status_down, set_ethernet_uni_status_to_down,
  remove_gem_ports, reset_onu, dm_omci_reset_mib,
}

module _ (E : Env) where
  -- Nothing but the store of objects differs.
  abbrev pub OnlyStore : World E → World E → Type 0
  OnlyStore w w' = w' ≡ record w { store = w'.store }

  -- There are arguments, with an index that is not 0.
  abbrev pub is_indexed : Option (Var E) → Bool
  is_indexed none = false
  is_indexed (some v) = not (get_uint32 E.variants v (codes "index") == 0)

  OnlyStore-trans : (u v w : World E) → OnlyStore u v → OnlyStore v w → OnlyStore u w
  OnlyStore-trans u v w e f = f ∙ ap {A = World E} (λ x. record x { store = w.store }) e

  apply-OnlyStore : (t : Transaction (Var E)) (w : World E) → OnlyStore w (apply E t w).1
  apply-OnlyStore t w = elim (Option-cases (E.amxd.apply w.s_ignore_param_reads w.store t)) [
    | inl failed ↦ rw (failed, apply) refl
    | inr (s', done) ↦ rw (done, apply) refl
  ]

  remove_all_instances-OnlyStore :
      (templ : Text) (w : World E) → OnlyStore w (remove_all_instances E templ w).1
  unfolding remove_all_instances
  remove_all_instances-OnlyStore templ w = ground (arith)

  set_down_if_up-OnlyStore : (object : Text) (w : World E) → OnlyStore w (set_down_if_up E object w)
  unfolding set_down_if_up
  set_down_if_up-OnlyStore object w = ground arith

  set_status_down-OnlyStore :
      (objects : List Text) (w : World E) → OnlyStore w (set_status_down E objects w)
  unfolding set_status_down
  set_status_down-OnlyStore [] w = refl
  set_status_down-OnlyStore (object ∷ rest) w =
      let v = set_down_if_up E object w in
      OnlyStore-trans w v (set_status_down E rest v) (set_down_if_up-OnlyStore object w)
        (set_status_down-OnlyStore rest v)

  set_ethernet_uni_status_to_down-OnlyStore :
      (onu : Text) (w : World E) → OnlyStore w (set_ethernet_uni_status_to_down E onu w)
  unfolding set_ethernet_uni_status_to_down
  set_ethernet_uni_status_to_down-OnlyStore onu w =
      elim (Option-cases (E.amxd.get_child w.store onu (codes "EthernetUNI"))) [
        | inl none' ↦ rw (none', set_ethernet_uni_status_to_down) refl
        | inr (ethernet_uni, e) ↦
            rw (e, set_ethernet_uni_status_to_down)
              (set_status_down-OnlyStore (E.amxd.instances w.store ethernet_uni) w)
      ]

  remove_gem_ports_of-OnlyStore :
      (object : Text) (w : World E) → OnlyStore w (remove_gem_ports_of E object w)
  unfolding remove_gem_ports_of
  remove_gem_ports_of-OnlyStore object w =
      elim (Option-cases (E.amxd.get_child w.store object (codes "TC.GEM.Port"))) [
        | inl none' ↦ rw (none', remove_gem_ports_of) refl
        | inr (templ, e) ↦ rw (e, remove_gem_ports_of) (remove_all_instances-OnlyStore templ w)
      ]

  remove_gem_ports-OnlyStore :
      (objects : List Text) (w : World E) → OnlyStore w (remove_gem_ports E objects w)
  unfolding remove_gem_ports
  remove_gem_ports-OnlyStore [] w = refl
  remove_gem_ports-OnlyStore (object ∷ rest) w =
      let v = remove_gem_ports_of E object w in
      OnlyStore-trans w v (remove_gem_ports E rest v) (remove_gem_ports_of-OnlyStore object w)
        (remove_gem_ports-OnlyStore rest v)

  reset_onu-OnlyStore : (onu : Text) (w : World E) → OnlyStore w (reset_onu E onu w)
  unfolding reset_onu
  reset_onu-OnlyStore onu w =
      let v = set_ethernet_uni_status_to_down E onu w in
      let first = set_ethernet_uni_status_to_down-OnlyStore onu w in
      elim (Option-cases (E.amxd.get_child v.store onu (codes "ANI"))) [
        | inl none' ↦ rw (none', reset_onu) first
        | inr (ani, e) ↦
            rw (e, reset_onu)
              (OnlyStore-trans w v (remove_gem_ports E (E.amxd.instances v.store ani) v) first
                (remove_gem_ports-OnlyStore (E.amxd.instances v.store ani) v))
      ]

  -- Whatever the arguments and whatever the library answers, an OMCI reset MIB message changes
  -- nothing but the store of objects: no private data, file, task of restore_to_hal.c or flag, and
  -- it makes no call to the vendor module itself. It fails exactly if there are no arguments or their
  -- index is 0, and then it changes nothing at all.
  pub dm_omci_reset_mib-OnlyStore :
      (args : Option (Var E)) (w : World E)
      → OnlyStore w (dm_omci_reset_mib E args w).1
        × ((dm_omci_reset_mib E args w).0 ≡ is_indexed args)
        × (if is_indexed args then Unit else (dm_omci_reset_mib E args w).1 ≡ w)
  unfolding dm_omci_reset_mib
  dm_omci_reset_mib-OnlyStore none w = (refl, refl, refl)
  dm_omci_reset_mib-OnlyStore (some v) w =
      elim (Bool-cases (get_uint32 E.variants v (codes "index") == 0)) [
        | inl zero' ↦ rw (zero', dm_omci_reset_mib) (refl, refl, refl)
        | inr given ↦
            elim (Option-cases
              (E.amxd.find w.store (reset_path (get_uint32 E.variants v (codes "index"))))) [
                | inl none' ↦ rw (given, none', dm_omci_reset_mib) (refl, refl, tt)
                | inr (onu, e) ↦
                    rw (given, e, dm_omci_reset_mib) (reset_onu-OnlyStore onu w, refl, tt)
              ]
      ]
