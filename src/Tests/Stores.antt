-- ===== src/Tests/Stores.antt =====
-- The stand-in for libamxd does what the library documents of transactions.
use tr181_xpon.Base.{
  ◌≡◌, refl, ◌∙◌, ap, sym, subst, ℕ, true, false, not, ◌||◌, Option, none, some, List, [], ◌∷◌,
  ◌++◌, arith, Text, Bool-cases, inl, inr, is_some, text_eq, text_eq_refl, text_eq→eq, length,
  length-append, percent_d,
}
use mathlib.Core.Option.{some-injective}
use tr181_xpon.Amxc.{all, contains_key}
use tr181_xpon.Amxd.{Action, add_inst, del_inst, set_param, Transaction}
use tr181_xpon.DataModel.Existence.{AppliesActions, is_set}
use tr181_xpon.Tests.Fixtures.{
  Value, objects_only, apply_action, apply_actions, instance_of, filter_text, when_present,
  templates,
}

sets_same :
    (object : Text) (sets : List (Action Value)) (objects : List Text)
    → all is_set sets ≡ true
    → apply_actions object sets objects ≡ objects
sets_same object [] objects h = refl
sets_same object (set_param name value ∷ sets) objects h = sets_same object sets objects h
sets_same object (add_inst index ∷ sets) objects h = absurd (cc)
sets_same object (del_inst index ∷ sets) objects h = absurd (cc)

contains-snoc : (ts : List Text) (t : Text) → contains_key (ts ++ (t ∷ [])) t ≡ true
contains-snoc [] t = ground (arith, text_eq_refl t)
contains-snoc (u ∷ us) t = ground (arith, contains-snoc us t)

contains-filter :
    (ts : List Text) (t : Text) → contains_key (filter_text (λ u. not (text_eq u t)) ts) t ≡ false
contains-filter [] t = refl
contains-filter (u ∷ us) t = elim (Bool-cases (text_eq u t)) [
  | inl same ↦ rw same (contains-filter us t)
  | inr other ↦ rw other (rw other (contains-filter us t))
]

contains-append :
    (ts us : List Text) (t : Text)
    → contains_key (ts ++ us) t ≡ (contains_key ts t || contains_key us t)
contains-append [] us t = refl
contains-append (u ∷ ts) us t = ground (arith, contains-append ts us t)

contains-filter_other :
    (ts : List Text) (t other : Text)
    → text_eq t other ≡ false
    → contains_key ts t ≡ true
    → contains_key (filter_text (λ u. not (text_eq u other)) ts) t ≡ true
contains-filter_other [] t other differ h = absurd (cc)
contains-filter_other (u ∷ us) t other differ h = elim (Bool-cases (text_eq u t)) [
  | inl same ↦
      let differs : text_eq u other ≡ false =
        subst (λ x. text_eq x other ≡ false) (sym (text_eq→eq u t same)) differ in
      rw differs (rw same refl)
  | inr next ↦ elim (Bool-cases (text_eq u other)) [
    | inl dropped ↦ rw dropped (contains-filter_other us t other differ (rw next at h))
    | inr kept ↦ rw kept (rw next (contains-filter_other us t other differ (rw next at h)))
  ]
]

instance_differs : (t : Text) (index : ℕ) → text_eq t (instance_of t index) ≡ false
instance_differs t index = elim (Bool-cases (text_eq t (instance_of t index))) [
  | inr other ↦ other
  | inl same ↦ absurd (
      omega (
        arith,
        ap length (text_eq→eq t (instance_of t index) same),
        length-append {0} t (b'.' ∷ percent_d index),
      ))
]

keeps_one :
    (t : Text) (a : Action Value) (objects : List Text)
    → contains_key objects t ≡ true
    → contains_key (apply_action t a objects) t ≡ true
keeps_one t (add_inst index) objects h =
    contains-append objects (instance_of t index ∷ []) t ∙ ground (arith)
keeps_one t (del_inst index) objects h =
    contains-filter_other objects t (instance_of t index) (instance_differs t index) h
keeps_one t (set_param name value) objects h = h

keeps_all :
    (t : Text) (actions : List (Action Value)) (objects : List Text)
    → contains_key objects t ≡ true
    → contains_key (apply_actions t actions objects) t ≡ true
keeps_all t [] objects h = h
keeps_all t (a ∷ rest) objects h =
    keeps_all t rest (apply_action t a objects) (keeps_one t a objects h)

present_lem :
    (ts : List Text) (path t : Text)
    → when_present ts path ≡ some t
    → (contains_key ts path ≡ true) × (path ≡ t)
present_lem ts path t h = elim (Bool-cases (contains_key ts path)) [
  | inl here ↦ (here, some-injective path t (sym (rw here refl) ∙ h))
  | inr missing ↦ absurd (cc (rw missing at h))
]

keeps_found :
    (t : Text) (actions : List (Action Value)) (objects : List Text)
    → contains_key (templates ++ objects) t ≡ true
    → contains_key (templates ++ apply_actions t actions objects) t ≡ true
keeps_found t actions objects h = elim (Bool-cases (contains_key templates t)) [
  | inl template ↦ contains-append templates (apply_actions t actions objects) t ∙ rw template refl
  | inr other ↦
      contains-append templates (apply_actions t actions objects) t
      ∙ rw other (
          keeps_all t actions objects (rw other at (sym (contains-append templates objects t) ∙ h)))
]

after :
    (t : Transaction Value) (s s' : List Text)
    → some (apply_actions t.object t.actions s) ≡ some s'
    → apply_actions t.object t.actions s ≡ s'
after t s s' done = some-injective (apply_actions t.object t.actions s) s' done

unchanged :
    (t : Transaction Value) (s s' : List Text)
    → all is_set t.actions ≡ true
    → some (apply_actions t.object t.actions s) ≡ some s'
    → s' ≡ s
unchanged t s s' only done = sym (after t s s' done) ∙ sets_same t.object t.actions s only

abbrev instance_in : Text → ℕ → List Text → Option Text
instance_in templ index s = when_present s (instance_of templ index)

added :
    (s s' : List Text) (templ : Text) (index : ℕ) (sets : List (Action Value))
    → all is_set sets ≡ true
    → some (apply_actions templ (add_inst index ∷ sets) s) ≡ some s'
    → is_some (instance_in templ index s') ≡ true
added s s' templ index sets only done =
    let grown = s ++ (instance_of templ index ∷ []) in
    let e : grown ≡ s' =
      sym (sets_same templ sets grown only)
      ∙ some-injective (apply_actions templ sets grown) s' done in
    subst (λ x. is_some (instance_in templ index x) ≡ true) e
      (rw (contains-snoc s (instance_of templ index)) refl)

deleted :
    (s s' : List Text) (templ : Text) (index : ℕ)
    → some (apply_actions templ (del_inst index ∷ []) s) ≡ some s'
    → instance_in templ index s' ≡ none
deleted s s' templ index done =
    subst (λ x. instance_in templ index x ≡ none)
      (some-injective (apply_actions templ (del_inst index ∷ []) s) s' done)
      (rw (contains-filter s (instance_of templ index)) refl)

selected :
    (t : Transaction Value) (s s' : List Text) (path : Text)
    → some (apply_actions t.object t.actions s) ≡ some s'
    → when_present (templates ++ s) path ≡ some t.object
    → when_present (templates ++ s') path ≡ some t.object
selected t s s' path done found =
    let (here, same) = present_lem (templates ++ s) path t.object found in
    let still =
      keeps_found t.object t.actions s
        (subst (λ x. contains_key (templates ++ s) x ≡ true) same here) in
    subst (λ x. when_present (templates ++ x) path ≡ some t.object) (after t s s' done)
      (subst (λ x. when_present (templates ++ apply_actions t.object t.actions s) x ≡ some t.object)
        (sym same) (still_present (templates ++ apply_actions t.object t.actions s) t.object still))
  where
    still_present :
        (ts : List Text) (u : Text) → contains_key ts u ≡ true → when_present ts u ≡ some u
    still_present ts u h = rw h refl

pub objects_only-AppliesActions : AppliesActions objects_only
objects_only-AppliesActions = record {
  adds = λ ignore s s' templ index sets only done. added s s' templ index sets only done;
  deletes = λ ignore s s' templ index done. deleted s s' templ index done;
  keeps_selected = λ ignore s s' t path done found. selected t s s' path done found;
  keeps_kind = λ ignore s s' t done. refl;
  keeps_objects = λ ignore s s' t path only done.
      ap (λ x. when_present (templates ++ x) path) (unchanged t s s' only done);
  keeps_instances = λ ignore s s' t templ index only done.
      ap (instance_in templ index) (unchanged t s s' only done);
}
