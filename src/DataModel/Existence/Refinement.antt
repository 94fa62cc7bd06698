-- ===== src/DataModel/Existence/Refinement.antt =====
-- data_model.c: the calls of the vendor module on a template object, as operations on a set of
-- indexes.
pub mod Calls
use tr181_xpon.Base.{
  ◌≡◌, ◌≢◌, subst, ℕ, ◌==◌, Bool, true, false, some, List, [], ◌∷◌, arith, Text, codes, Bool-cases,
  inl, inr, if◌then◌else◌,
}
use tr181_xpon.Amxc.{get_char, get_uint32}
use tr181_xpon.World.{Env, World}
use tr181_xpon.DataModel.Change.{Var, dm_change_object}
use tr181_xpon.DataModel.Add.{dm_add_instance, dm_add_or_change_instance_impl}
use tr181_xpon.DataModel.Remove.{dm_remove_instance}

-- A call with its arguments.
pub data InstanceCall (E : Env) : Type 0 where
  add remove add_or_change change : Var E → InstanceCall E

module _ (E : Env) where
  abbrev pub args_of : InstanceCall E → Var E
  args_of (add args) = args
  args_of (remove args) = args
  args_of (add_or_change args) = args
  args_of (change args) = args

  abbrev pub index_in : Var E → ℕ
  index_in args = get_uint32 E.variants args (codes "index")

  -- The code's operations.
  abbrev pub perform_call : InstanceCall E → World E → Bool × World E
  perform_call (add args) w = dm_add_instance E (some args) w
  perform_call (remove args) w = dm_remove_instance E (some args) w
  perform_call (add_or_change args) w = dm_add_or_change_instance_impl E (some args) w
  perform_call (change args) w = dm_change_object E (some args) w

  abbrev pub perform_calls : List (InstanceCall E) → World E → World E
  perform_calls [] w = w
  perform_calls (c ∷ cs) w = perform_calls cs (perform_call c w).1

  abbrev pub put : ℕ → Bool → (ℕ → Bool) → ℕ → Bool
  put index present set j = if index == j then present else set j

  -- The meaning of a call that has returned 0: adding puts the index into the set, removing takes
  -- it out, and changing leaves the set.
  abbrev pub meaning : InstanceCall E → (ℕ → Bool) → ℕ → Bool
  meaning (add args) set = put (index_in args) true set
  meaning (remove args) set = put (index_in args) false set
  meaning (add_or_change args) set = put (index_in args) true set
  meaning (change args) set = set

  -- A call that has not returned 0 leaves the set.
  abbrev pub replay_calls : List (InstanceCall E) → World E → (ℕ → Bool) → ℕ → Bool
  replay_calls [] w set = set
  replay_calls (c ∷ cs) w set =
      replay_calls cs (perform_call c w).1 (if (perform_call c w).0 then meaning c set else set)

  -- Each call names the template object by this path.
  abbrev pub AllOn : Text → List (InstanceCall E) → Type 0
  AllOn path [] = Unit
  AllOn path (c ∷ cs) = (get_char E.variants (args_of c) (codes "path") ≡ some path) × AllOn path cs

  pub put_lem :
      (index : ℕ) (present : Bool) (f g : ℕ → Bool)
      → g index ≡ present
      → ((j : ℕ) → index ≢ j → g j ≡ f j)
      → (j : ℕ) → g j ≡ put index present f j
  put_lem index present f g here others j = elim (Bool-cases (index == j)) [
    | inl same ↦ (let e : index ≡ j = ground arith in rw same (subst (λ k. g k ≡ present) e here))
    | inr differ ↦ rw differ (others j (ground arith))
  ]
