-- ===== src/System/Frame.antt =====
-- What the events of a running plugin leave alone but those that save or enable something.
pub mod Queries
pub mod Handle
use tr181_xpon.Base.{
  ◌≡◌, refl, ◌∙◌, ap, sym, subst, ℕ, ltb, Bool, false, Option, none, List, [], ◌∷◌, ◌++◌, arith,
  Text, Bool-cases, Option-cases, inl, inr,
}
use mathlib.Core.List.{append_assoc, append-nil}
use tr181_xpon.World.{Env, World, VendorCall}
use tr181_xpon.PonCtrl.{
  Vendor, call_pon_ctrl_function_common, pon_ctrl_get_list_of_instances,
  pon_ctrl_get_object_content, pon_ctrl_set_enable, pon_ctrl_get_param_values,
  pon_ctrl_handle_file_descriptor,
}
use tr181_xpon.DataModel.Change.{Var}
use tr181_xpon.DataModel.Local.{Schedules, no_more, Schedules-trans, Local, Local-refl, Local-same}
use tr181_xpon.DmActions.{
  Status, ActionId, action_object_destroy, is_ok, read_trx_param, object_destroyed_common,
  onu_destroyed, interface_object_destroyed,
}
use tr181_xpon.DmEvents.{interface_object_added, status_changed}
use tr181_xpon.PonStat.{handle_fd}

module _ (E : Env) where
  -- As `Local`, but the vendor module may have been called.
  pub record Quiet (w w' : World E) : Type 0 where
    pub rth : Schedules E w.disk w.rth w'.rth
    pub disk : w'.disk ≡ w.disk
    pub reads : w.s_ignore_param_reads ≡ false → w'.s_ignore_param_reads ≡ false
    pub calls : (more : List VendorCall) × (w'.calls ≡ w.calls ++ more)

  pub Local-Quiet : {w w' : World E} → Local E w w' → Quiet w w'
  Local-Quiet {w} {w'} l = record {
    rth = l.rth;
    disk = l.disk;
    reads = l.reads;
    calls = ([], l.calls ∙ sym (append-nil w.calls));
  }

  pub Quiet-refl : (w : World E) → Quiet w w
  Quiet-refl w = Local-Quiet (Local-refl E w)

  pub Quiet-trans : {u v w : World E} → Quiet u v → Quiet v w → Quiet u w
  Quiet-trans {u} {v} {w} a b = record {
    rth = Schedules-trans E a.rth (subst (λ d. Schedules E d v.rth w.rth) a.disk b.rth);
    disk = b.disk ∙ a.disk;
    reads = λ h. b.reads (a.reads h);
    calls =
        let (first, e) = a.calls in
        let (second, f) = b.calls in
        (first ++ second, f ∙ ap (λ c. c ++ second) e ∙ append_assoc u.calls first second);
  }

  module _ (vendor : Vendor E.variants) where
    pub common-Quiet :
        (call : VendorCall) (w : World E)
        → Quiet w (call_pon_ctrl_function_common E vendor call w).1
    unfolding call_pon_ctrl_function_common
    common-Quiet call w = elim (Bool-cases vendor.loaded) [
      | inl loaded ↦
          rw (loaded, call_pon_ctrl_function_common)
            (record { rth = no_more w.rth; disk = refl; reads = λ h. h; calls = (call ∷ [], refl) })
      | inr missing ↦ rw (missing, call_pon_ctrl_function_common) (Quiet-refl w)
    ]

    pub list-Quiet :
        (path : Text) (w : World E) → Quiet w (pon_ctrl_get_list_of_instances E vendor path w).1
    unfolding pon_ctrl_get_list_of_instances
    list-Quiet path w = common-Quiet _ w

    pub content-Quiet :
        (path : Text) (index : ℕ) (w : World E)
        → Quiet w (pon_ctrl_get_object_content E vendor path index w).1
    unfolding pon_ctrl_get_object_content
    content-Quiet path index w = common-Quiet _ w

    values-Quiet :
        (path names : Text) (w : World E)
        → Quiet w (pon_ctrl_get_param_values E vendor path names w).1
    unfolding pon_ctrl_get_param_values
    values-Quiet path names w = common-Quiet _ w

    pub set_enable-Quiet :
        (path : Text) (on : Bool) (w : World E) → Quiet w (pon_ctrl_set_enable E vendor path on w)
    unfolding pon_ctrl_set_enable
    set_enable-Quiet path on w = common-Quiet _ w

    descriptor-Quiet :
        (fd : ℕ) (w : World E) → Quiet w (pon_ctrl_handle_file_descriptor E vendor fd w)
    unfolding pon_ctrl_handle_file_descriptor
    descriptor-Quiet fd w = common-Quiet _ w

    pub handle_fd-Quiet : (fd : ℕ) (w : World E) → Quiet w (handle_fd E vendor fd w)
    unfolding handle_fd
    handle_fd-Quiet fd w = elim (Bool-cases (ltb 0 fd)) [
      | inl given ↦ rw (given, handle_fd) (descriptor-Quiet fd w)
      | inr zero' ↦ rw (zero', handle_fd) (Quiet-refl w)
    ]

    pub read_trx_param-Quiet :
        (standard : Status × Var E) (object name : Text) (w : World E)
        → Quiet w (read_trx_param E vendor standard object name w).1
    unfolding read_trx_param
    read_trx_param-Quiet standard object name w = elim (Bool-cases (is_ok standard.0)) [
      | inl ok ↦ elim (Bool-cases w.s_ignore_param_reads) [
        | inl ignored ↦ rw (ok, ignored, read_trx_param) (Quiet-refl _)
        | inr heard ↦ elim (Bool-cases (E.amxd.is_template w.store object)) [
          | inl template ↦ rw (ok, heard, template, read_trx_param) (Quiet-refl _)
          | inr instance' ↦ rw (ok, heard, instance', read_trx_param) (values-Quiet object name _)
        ]
      ]
      | inr failed ↦ rw (failed, read_trx_param) (Quiet-refl w)
    ]

    destroyed-Local :
        (object : Text) (reason : ActionId) (w : World E)
        → Local E w (object_destroyed_common E vendor object reason w).1
    unfolding object_destroyed_common
    destroyed-Local object action_object_destroy w = elim (Option-cases (w.privs object)) [
      | inl none' ↦ rw (none', object_destroyed_common) (Local-refl E w)
      | inr (p, e) ↦ rw (e, object_destroyed_common) (Local-same E refl refl (λ h. h) refl)
    ]
    destroyed-Local object _ w = Local-refl E w

    pub onu_destroyed-Quiet :
        (object : Text) (reason : ActionId) (w : World E)
        → Quiet w (onu_destroyed E vendor object reason w).1
    unfolding onu_destroyed
    onu_destroyed-Quiet object reason w = Local-Quiet (destroyed-Local object reason w)

    pub interface_object_destroyed-Quiet :
        (object : Text) (reason : ActionId) (w : World E)
        → Quiet w (interface_object_destroyed E vendor object reason w).1
    unfolding interface_object_destroyed
    interface_object_destroyed-Quiet object reason w = Local-Quiet (destroyed-Local object reason w)

  pub interface_object_added-Quiet :
      (allocated : Bool) (sysinfo : Option ℕ) (obj : Text) (index : ℕ) (w : World E)
      → Quiet w (interface_object_added E allocated sysinfo obj index w)
  unfolding interface_object_added
  interface_object_added-Quiet allocated sysinfo obj index w =
      Local-Quiet (Local-same E (ground arith) (ground arith) (λ h. ground arith) (ground arith))

  pub status_changed-Quiet :
      (sysinfo : Option ℕ) (obj : Text) (w : World E) → Quiet w (status_changed E sysinfo obj w)
  unfolding status_changed
  status_changed-Quiet sysinfo obj w =
      Local-Quiet (Local-same E (ground arith) (ground arith) (λ h. ground arith) (ground arith))
