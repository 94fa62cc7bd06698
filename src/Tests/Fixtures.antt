-- ===== src/Tests/Fixtures.antt =====
-- Small stand-ins for the libraries, the operating system and the vendor module.
use tr181_xpon.Base.{
  refl, ℕ, Bool, true, false, not, Option, none, some, List, [], ◌∷◌, ◌++◌, Text, codes, text_eq,
  length, strncmp_eq, percent_d, if◌then◌else◌,
}
use tr181_xpon.Amxc.{
  Variants, VarId, id_bool, id_uint32, id_cstring, id_fd, id_htable, contains_key,
}
use tr181_xpon.Amxd.{Amxd, Action, add_inst, del_inst, set_param}
use tr181_xpon.Posix.{Disk, Faults, IsReliable}
use tr181_xpon.RestoreToHal.{rth_init}
use tr181_xpon.World.{Env, World}
use tr181_xpon.PonCtrl.{Vendor}
use tr181_xpon.Tests.Strings.{plain_strings}

-- A variant; an htable is its entries.
pub data Value : Type 0 where
  bool_value : Bool → Value
  uint32_value : ℕ → Value
  cstring_value : Text → Value
  fd_value : ℕ → Value
  no_entries : Value
  entry : Text → Value → Value → Value

abbrev value_type : Value → VarId
value_type (bool_value b) = id_bool
value_type (uint32_value n) = id_uint32
value_type (cstring_value t) = id_cstring
value_type (fd_value n) = id_fd
value_type no_entries = id_htable
value_type (entry key value rest) = id_htable

abbrev keys_of : Value → List Text
keys_of (entry key value rest) = key ∷ keys_of rest
keys_of _ = []

abbrev keys : Value → Option (List Text)
keys no_entries = some []
keys (entry key value rest) = some (key ∷ keys_of rest)
keys _ = none

abbrev lookup : Value → Text → Option Value
lookup (entry key value rest) k =
    let later = lookup rest k in if text_eq key k then some value else later
lookup _ k = none

abbrev text_of : Value → Option Text
text_of (cstring_value t) = some t
text_of _ = none

abbrev number_of : Value → ℕ
number_of (uint32_value n) = n
number_of _ = 0

abbrev bool_of : Value → Bool
bool_of (bool_value b) = b
bool_of _ = false

abbrev fd_of : Value → Option ℕ
fd_of (fd_value n) = if strncmp_eq (percent_d n) (codes "0") 2 then none else some n
fd_of _ = none

abbrev pub values : Variants
values = record {
  Var = Value;
  type_of = value_type;
  htable_keys = keys;
  get_key = lookup;
  constcast_cstring = text_of;
  constcast_uint32 = number_of;
  constcast_bool = bool_of;
  constcast_fd = fd_of;
  dyncast_uint32 = number_of;
  dyncast_bool = bool_of;
  of_bool = bool_value;
  of_uint32 = uint32_value;
  of_cstring = cstring_value;
  new_htable = some no_entries;
  add_key = λ table key value. some (entry key value table);
}

-- The template objects, which every store has.
abbrev pub templates : List Text
templates = codes "XPON.ONU" ∷ codes "XPON.ONU.1.ANI" ∷ codes "XPON.ONU.1.EthernetUNI" ∷ []

abbrev pub instance_of : Text → ℕ → Text
instance_of templ index = templ ++ (b'.' ∷ percent_d index)

abbrev pub filter_text : (Text → Bool) → List Text → List Text
filter_text p [] = []
filter_text p (t ∷ ts) = let rest = filter_text p ts in if p t then t ∷ rest else rest

abbrev pub apply_action : Text → Action Value → List Text → List Text
apply_action object (add_inst index) objects = objects ++ (instance_of object index ∷ [])
apply_action object (del_inst index) objects =
    filter_text (λ t. not (text_eq t (instance_of object index))) objects
apply_action object (set_param name value) objects = objects

abbrev pub apply_actions : Text → List (Action Value) → List Text → List Text
apply_actions object [] objects = objects
apply_actions object (a ∷ rest) objects = apply_actions object rest (apply_action object a objects)

abbrev pub when_present : List Text → Text → Option Text
when_present objects path = if contains_key objects path then some path else none

abbrev param_value : Text → Value
param_value name =
    if text_eq name (codes "PONMode") then cstring_value (codes "G-PON") else bool_value true

-- A store is the list of the other objects that exist.
abbrev pub objects_only : Amxd values
objects_only = record {
  Store = List Text;
  find = λ objects path. when_present (templates ++ objects) path;
  is_template = λ objects path. contains_key templates path;
  get_instance = λ objects templ index. when_present objects (instance_of templ index);
  instances = λ objects templ. filter_text (λ t. strncmp_eq t templ (length templ)) objects;
  get_index = λ path. length path;
  get_child = λ objects object name. when_present (templates ++ objects) (object ++ (b'.' ∷ name));
  get_param = λ objects object name. some (param_value name);
  put_param = λ objects object name value. some objects;
  can_select = λ objects object. true;
  can_append = λ objects t a. true;
  apply = λ ignore objects t. some (apply_actions t.object t.actions objects);
  asked = λ objects. [];
}

abbrev pub no_faults : Faults
no_faults = record {
  fopen_read = λ p. true;
  fopen_write = λ p. true;
  fputs = λ p. true;
  partial = λ t. t;
  rename = λ p q. true;
  reopen = λ p. true;
  unlink = λ p. true;
}

pub no_faults-IsReliable : IsReliable no_faults
no_faults-IsReliable = record {
  reads = λ p. refl;
  writes = λ p. refl;
  puts = λ p. refl;
  renames = λ p q. refl;
  reopens = λ p. refl;
  unlinks = λ p. refl;
}

abbrev pub folder : Text
folder = codes "/etc/config/tr181-xpon/"

abbrev pub env : Env
env = record {
  strings = plain_strings;
  variants = values;
  amxd = objects_only;
  faults = no_faults;
  s_storage_dir = some folder;
  s_upgr_storage_dir = some folder;
  allocates = true;
}

abbrev pub onu_1 : Text
onu_1 = codes "XPON.ONU.1"

abbrev pub ani_1 : Text
ani_1 = codes "XPON.ONU.1.ANI.1"

abbrev pub empty_disk : Disk
empty_disk path = none

-- ONU 1 exists, with an ANI and its TC.Authentication object.
abbrev pub world : World env
world = record {
  store = onu_1 ∷ ani_1 ∷ (ani_1 ++ codes ".TC.Authentication") ∷ [];
  privs = λ object. none;
  rth = rth_init true;
  disk = empty_disk;
  s_ignore_param_reads = false;
  calls = [];
}

-- A vendor module that lists ONU 1 and ONU 2.
abbrev pub vendor : Vendor values
vendor = record {
  loaded = true;
  execute = λ calls call. some (entry (codes "indexes") (cstring_value (codes "1,2")) no_entries);
}
