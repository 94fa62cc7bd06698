-- ===== src/World.antt =====
-- The state of the component, and what surrounds it.
use tr181_xpon.Base.{ℕ, Bool, Option, List, Text, text_eq, text_eq_refl, if◌then◌else◌, ◌≡◌, arith}
use tr181_xpon.Amxc.{Strings, Variants}
use tr181_xpon.Amxd.{Amxd}
use tr181_xpon.Posix.{Disk, Faults}
use tr181_xpon.RestoreToHal.{Rth}

-- The libraries, the calls that may fail, and what is fixed after startup.
pub record Env : Type 1 where
  pub strings : Strings
  pub variants : Variants
  pub amxd : Amxd variants
  pub faults : Faults
  pub s_storage_dir : Option Text
  pub s_upgr_storage_dir : Option Text
  pub allocates : Bool  -- whether a task of one of the lists can be allocated

-- onu_priv_t and object_intf_priv_t
pub data Priv : Type 0 where
  onu_priv : Priv
  object_intf_priv : ℕ → Priv  -- last_change, a uint32_t

-- What is asked of the vendor module through the namespace pon_ctrl.
pub data VendorCall : Type 0 where
  set_max_nr_of_onus : ℕ → VendorCall
  set_enable : Text → Bool → VendorCall
  get_list_of_instances : Text → VendorCall
  get_object_content : Text → ℕ → VendorCall
  get_param_values : Text → Text → VendorCall
  handle_file_descriptor : ℕ → VendorCall
  set_password : Text → Text → Bool → VendorCall

-- The field priv of each object, by its indexed path.
abbrev pub Privs : Type 0
Privs = Text → Option Priv

unfoldable pub put_priv : Privs → Text → Option Priv → Privs
put_priv privs object p q = if text_eq object q then p else privs q

pub put_priv_self :
    (privs : Privs) (object : Text) (p : Option Priv) → put_priv privs object p object ≡ p
unfolding put_priv
put_priv_self privs object p = ground (arith, text_eq_refl object)

pub record World (E : Env) : Type 0 where
  pub store : E.amxd.Store
  pub privs : Privs
  pub rth : Rth
  pub disk : Disk
  pub s_ignore_param_reads : Bool
  pub calls : List VendorCall  -- made so far, oldest first
