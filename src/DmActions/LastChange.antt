-- ===== src/DmActions/LastChange.antt =====
-- object_intf_priv.c and dm_actions.c: the parameter LastChange of an ANI or an EthernetUNI.
use tr181_xpon.Base.{◌≡◌, ◌∙◌, ap, ℕ, ◌-◌, ◌≤◌, ◌<◌, ◌^◌, true, Option, none, some, arith, Text}
use tr181_xpon.World.{Env, World, object_intf_priv, put_priv_self}
use tr181_xpon.ObjectIntfPriv.{
  time_get_system_uptime, oipriv_attach_private_data, oipriv_update_last_change,
}
use tr181_xpon.PonCtrl.{Vendor}
use tr181_xpon.DmActions.{
  status_ok, unknown_error, action_param_read, action_object_destroy, lastchange_on_read,
  interface_object_destroyed, object_destroyed_common,
}

module _ (E : Env) (vendor : Vendor E.variants) (inst : Text) where
  elapsed :
      (last_change uptime : ℕ) (w : World E)
      → w.privs inst ≡ some (object_intf_priv last_change)
      → uptime < 2 ^ 32
      → last_change ≤ uptime
      → lastchange_on_read E vendor action_param_read (some uptime) inst w
        ≡ (status_ok, some (uptime - last_change))
  unfolding lastchange_on_read time_get_system_uptime
  elapsed last_change uptime w e bound order = ground arith

  small : (uptime : ℕ) → uptime < 2 ^ 32 → time_get_system_uptime (some uptime) ≡ uptime
  unfolding time_get_system_uptime
  small uptime h = omega arith

  -- Reading LastChange gives the seconds since the instance was added, if its status has not
  -- changed since, as long as the uptime fits 32 bits.
  lastchange-attach :
      (obj : Text) (index added read : ℕ) (w later : World E)
      → E.amxd.get_instance w.store obj index ≡ some inst
      → read < 2 ^ 32
      → added ≤ read
      → later.privs inst ≡ (oipriv_attach_private_data E true (some added) obj index w).privs inst
      → lastchange_on_read E vendor action_param_read (some read) inst later
        ≡ (status_ok, some (read - added))
  unfolding oipriv_attach_private_data
  lastchange-attach obj index added read w later found bound order same =
      elapsed added read later
        (same
          ∙ rw (found, oipriv_attach_private_data)
              (put_priv_self w.privs inst _
                ∙ ap (λ t. some (object_intf_priv t)) (small added (omega arith))))
        bound order

  -- Reading LastChange gives the seconds since the last change of the status of an interface.
  lastchange-update :
      (before changed read : ℕ) (w later : World E)
      → w.privs inst ≡ some (object_intf_priv before)
      → read < 2 ^ 32
      → changed ≤ read
      → later.privs inst ≡ (oipriv_update_last_change E (some changed) inst w).privs inst
      → lastchange_on_read E vendor action_param_read (some read) inst later
        ≡ (status_ok, some (read - changed))
  unfolding oipriv_update_last_change
  lastchange-update before changed read w later has bound order same =
      elapsed changed read later
        (same
          ∙ rw (has, oipriv_update_last_change)
              (put_priv_self w.privs inst _
                ∙ ap (λ t. some (object_intf_priv t)) (small changed (omega arith))))
        bound order

  -- Destroying an interface frees its private data once: a second call frees nothing and fails,
  -- and LastChange is then read as 0 with an error.
  pub destroyed_once :
      (before : ℕ) (uptime : Option ℕ) (w : World E)
      → w.privs inst ≡ some (object_intf_priv before)
      → let (status, w') = interface_object_destroyed E vendor inst action_object_destroy w in
        (status ≡ status_ok)
        × (interface_object_destroyed E vendor inst action_object_destroy w' ≡ (unknown_error, w'))
        × (lastchange_on_read E vendor action_param_read uptime inst w' ≡ (unknown_error, some 0))
  unfolding interface_object_destroyed object_destroyed_common lastchange_on_read
  destroyed_once before uptime w has = ground (arith, put_priv_self w.privs inst none)
