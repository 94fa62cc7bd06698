-- ===== src/DataModel/Existence.antt =====
-- data_model.c: which instances exist. What libamxd documents of a transaction that it applies.
use tr181_xpon.Base.{◌≡◌, ◌≢◌, ℕ, Bool, true, false, none, some, List, [], ◌∷◌, Text, is_some}
use tr181_xpon.Amxc.{Variants, all}
use tr181_xpon.Amxd.{Amxd, Action, add_inst, del_inst, set_param, Transaction}
pub mod Sets
pub mod Steps
pub mod Change
pub mod Adding
pub mod Add
pub mod Remove
pub mod Others
pub mod Refinement

abbrev pub is_set : {Var : Type 0} → Action Var → Bool
is_set (add_inst index) = false
is_set (del_inst index) = false
is_set (set_param name value) = true

-- The selected object is a template object where instances are added or deleted.
pub record AppliesActions {V : Variants} (A : Amxd V) : Type 0 where
  pub adds :
      (ignore : Bool) (s s' : A.Store) (templ : Text) (index : ℕ) (sets : List (Action V.Var))
      → all is_set sets ≡ true
      → A.apply ignore s (record { object = templ; actions = add_inst index ∷ sets }) ≡ some s'
      → is_some (A.get_instance s' templ index) ≡ true
  pub deletes :
      (ignore : Bool) (s s' : A.Store) (templ : Text) (index : ℕ)
      → A.apply ignore s (record { object = templ; actions = del_inst index ∷ [] }) ≡ some s'
      → A.get_instance s' templ index ≡ none
  -- The object that was selected is still found.
  pub keeps_selected :
      (ignore : Bool) (s s' : A.Store) (t : Transaction V.Var) (path : Text)
      → A.apply ignore s t ≡ some s'
      → A.find s path ≡ some t.object
      → A.find s' path ≡ some t.object
  pub keeps_kind :
      (ignore : Bool) (s s' : A.Store) (t : Transaction V.Var)
      → A.apply ignore s t ≡ some s'
      → A.is_template s' t.object ≡ A.is_template s t.object
  -- Setting parameters adds and deletes nothing.
  pub keeps_objects :
      (ignore : Bool) (s s' : A.Store) (t : Transaction V.Var) (path : Text)
      → all is_set t.actions ≡ true
      → A.apply ignore s t ≡ some s'
      → A.find s' path ≡ A.find s path
  pub keeps_instances :
      (ignore : Bool) (s s' : A.Store) (t : Transaction V.Var) (templ : Text) (index : ℕ)
      → all is_set t.actions ≡ true
      → A.apply ignore s t ≡ some s'
      → A.get_instance s' templ index ≡ A.get_instance s templ index

-- A transaction that adds or deletes one instance leaves the other instances of the template
-- object alone.
pub record ActsAlone {V : Variants} (A : Amxd V) : Type 0 where
  pub adds_one :
      (ignore : Bool) (s s' : A.Store) (templ : Text) (index other : ℕ) (sets : List (Action V.Var))
      → all is_set sets ≡ true
      → index ≢ other
      → A.apply ignore s (record { object = templ; actions = add_inst index ∷ sets }) ≡ some s'
      → A.get_instance s' templ other ≡ A.get_instance s templ other
  pub deletes_one :
      (ignore : Bool) (s s' : A.Store) (templ : Text) (index other : ℕ)
      → index ≢ other
      → A.apply ignore s (record { object = templ; actions = del_inst index ∷ [] }) ≡ some s'
      → A.get_instance s' templ other ≡ A.get_instance s templ other
