-- ===== src/ObjectIntfPriv.antt =====
-- object_intf_priv.c and utils_time.c: the private data of an ANI or an EthernetUNI.
use tr181_xpon.Base.{ℕ, ◌%◌, ◌^◌, Bool, true, false, Option, none, some, Text}
use tr181_xpon.World.{Env, World, object_intf_priv, put_priv}

-- uint32_t uptime, which is 0 if sysinfo fails; the argument is what sysinfo gives.
unfoldable pub time_get_system_uptime : Option ℕ → ℕ
time_get_system_uptime none = 0
time_get_system_uptime (some seconds) = seconds % 2 ^ 32

module _ (E : Env) where
  -- obj is amxd_dm_signal_get_object; no priv is created if calloc fails.
  unfoldable pub oipriv_attach_private_data : Bool → Option ℕ → Text → ℕ → World E → World E
  oipriv_attach_private_data allocated sysinfo obj index w =
      elim (E.amxd.get_instance w.store obj index) [
        | none ↦ w
        | some inst ↦ elim allocated [
          | true ↦ record w {
            privs =
                put_priv w.privs inst (some (object_intf_priv (time_get_system_uptime sysinfo)));
          }
          | false ↦ w
        ]
      ]

  -- The private data of an object whose Status changes is that of an interface.
  unfoldable pub oipriv_update_last_change : Option ℕ → Text → World E → World E
  oipriv_update_last_change sysinfo obj w = elim (w.privs obj) [
    | none ↦ w
    | some p ↦ record w {
      privs = put_priv w.privs obj (some (object_intf_priv (time_get_system_uptime sysinfo)));
    }
  ]
