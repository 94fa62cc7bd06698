-- ===== src/Tests/Sets.antt =====
-- The calls of the vendor module on the ONUs, with a stand-in for libamxd that keeps a set of
-- indexes.
use tr181_xpon.Base.{
  ◌≡◌, refl, ◌≢◌, ◌∙◌, ap, sym, subst, ℕ, ◌==◌, Bool, true, false, Option, none, some, List, [],
  ◌∷◌, arith, Text, codes, text_eq, is_some, if◌then◌else◌, Bool-cases, inl, inr,
}
use mathlib.Core.Option.{some-injective}
use tr181_xpon.Amxc.{all}
use tr181_xpon.Amxd.{Amxd, Action, add_inst, del_inst, set_param}
use tr181_xpon.World.{Env, World}
use tr181_xpon.DataModel.Reads.{dm_does_instance_exist}
use tr181_xpon.DataModel.Existence.{AppliesActions, ActsAlone, is_set}
use tr181_xpon.DataModel.Existence.Refinement.{
  InstanceCall, add, remove, add_or_change, perform_calls, replay_calls,
}
use tr181_xpon.DataModel.Existence.Refinement.Calls.{calls_refine_set}
use tr181_xpon.Tests.Fixtures.{
  Value, uint32_value, cstring_value, no_entries, entry, values, env, world, instance_of,
}

abbrev onus : Text
onus = codes "XPON.ONU"

abbrev Set : Type 0
Set = ℕ → Bool

abbrev put_in : ℕ → Bool → Set → Set
put_in index present set j = if index == j then present else set j

abbrev change_set : List (Action Value) → Set → Set
change_set [] set = set
change_set (add_inst index ∷ rest) set = change_set rest (put_in index true set)
change_set (del_inst index ∷ rest) set = change_set rest (put_in index false set)
change_set (set_param name value ∷ rest) set = change_set rest set

abbrev instance_in : Set → Text → ℕ → Option Text
instance_in set templ index = if set index then some (instance_of templ index) else none

abbrev sets_of_onus : Amxd values
sets_of_onus = record {
  Store = Set;
  find = λ set path. if text_eq path onus then some onus else none;
  is_template = λ set path. true;
  get_instance = instance_in;
  instances = λ set templ. [];
  get_index = λ path. 0;
  get_child = λ set object name. none;
  get_param = λ set object name. none;
  put_param = λ set object name value. some set;
  can_select = λ set object. true;
  can_append = λ set t a. true;
  apply = λ ignore set t. some (change_set t.actions set);
  asked = λ objects. [];
}

only_sets :
    (actions : List (Action Value)) (set : Set)
    → all is_set actions ≡ true
    → change_set actions set ≡ set
only_sets [] set h = refl
only_sets (add_inst index ∷ rest) set h = absurd cc
only_sets (del_inst index ∷ rest) set h = absurd cc
only_sets (set_param name value ∷ rest) set h = only_sets rest set h

applied :
    (actions : List (Action Value)) (set set' : Set)
    → all is_set actions ≡ true
    → some (change_set actions set) ≡ some set'
    → set' ≡ set
applied actions set set' only done =
    sym (some-injective (change_set actions set) set' done) ∙ only_sets actions set only

put_self : (index : ℕ) (present : Bool) (set : Set) → put_in index present set index ≡ present
put_self index present set = ground arith

put_other :
    (index other : ℕ) (present : Bool) (set : Set)
    → index ≢ other
    → put_in index present set other ≡ set other
put_other index other present set differ = elim (Bool-cases (index == other)) [
  | inl same ↦ absurd (differ (ground arith))
  | inr apart ↦ rw apart refl
]

sets-AppliesActions : AppliesActions sets_of_onus
sets-AppliesActions = record {
  adds = λ ignore s s' templ index sets only done.
      subst (λ set. is_some (instance_in set templ index) ≡ true)
        (sym (applied sets (put_in index true s) s' only done)) (rw (put_self index true s) refl);
  deletes = λ ignore s s' templ index done.
      subst (λ set. instance_in set templ index ≡ none)
        (sym (applied [] (put_in index false s) s' refl done)) (rw (put_self index false s) refl);
  keeps_selected = λ ignore s s' t path done found. found;
  keeps_kind = λ ignore s s' t done. refl;
  keeps_objects = λ ignore s s' t path only done. refl;
  keeps_instances = λ ignore s s' t templ index only done.
      ap (λ set. instance_in set templ index) (applied t.actions s s' only done);
}

sets-ActsAlone : ActsAlone sets_of_onus
sets-ActsAlone = record {
  adds_one = λ ignore s s' templ index other sets only differ done.
      ap (λ set. instance_in set templ other) (applied sets (put_in index true s) s' only done)
      ∙ ap (λ b. if b then some (instance_of templ other) else none)
          (put_other index other true s differ);
  deletes_one = λ ignore s s' templ index other differ done.
      ap (λ set. instance_in set templ other) (applied [] (put_in index false s) s' refl done)
      ∙ ap (λ b. if b then some (instance_of templ other) else none)
          (put_other index other false s differ);
}

abbrev set_env : Env
set_env = record env { amxd = sets_of_onus }

abbrev no_onus : World set_env
no_onus = record {
  store = λ index. false;
  privs = world.privs;
  rth = world.rth;
  disk = world.disk;
  s_ignore_param_reads = false;
  calls = [];
}

abbrev args_at : ℕ → Value
args_at index = entry (codes "path") (cstring_value onus) (
    entry (codes "index") (uint32_value index) (
      entry (codes "keys") (entry (codes "Name") (cstring_value (codes "G_1")) no_entries)
        no_entries))

abbrev some_calls : List (InstanceCall set_env)
some_calls = add (args_at 2) ∷ add_or_change (args_at 3) ∷ remove (args_at 2) ∷ []

calls_refine_set_example :
    dm_does_instance_exist sets_of_onus (perform_calls set_env some_calls no_onus).store onus 3
    ≡ replay_calls set_env some_calls no_onus
        (λ i. dm_does_instance_exist sets_of_onus no_onus.store onus i)
        3
calls_refine_set_example =
    calls_refine_set set_env sets-AppliesActions sets-ActsAlone onus some_calls no_onus
      (refl, (refl, (refl, tt))) 3
