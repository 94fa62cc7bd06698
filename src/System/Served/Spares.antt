-- ===== src/System/Served/Spares.antt =====
-- What the signals on Enable and on Password leave alone of the list of restore_to_hal.c and of the
-- calls made so far.
use mathlib.Core.List.{append_assoc, append-nil}
use tr181_xpon.Base.{
  ◌≡◌, refl, ◌≢◌, ◌∙◌, ap, sym, ℕ, ◌==◌, Bool, true, false, some, List, [], ◌∷◌, ◌++◌, map, Text,
  length, Bool-cases, Option-cases, inl, inr,
}
use tr181_xpon.Ani.{ani_strip_tc_authentication}
use tr181_xpon.UpgradePersistency.{upgr_persistency_set_password}
use tr181_xpon.RestoreToHal.{rth_disable}
use tr181_xpon.World.{Env, World, VendorCall, set_enable, set_password}
use tr181_xpon.PonCtrl.{Vendor, pon_ctrl_set_password}
use tr181_xpon.DataModel.Reads.{dm_is_hex_password}
use tr181_xpon.DmEvents.{
  EventData, isdot, enable_changed, onu_or_ani_enable_changed, store_and_call, passwd_set_password,
  password_changed,
}
use tr181_xpon.System.Frame.{common-Quiet, set_enable-Quiet, Quiet}
use tr181_xpon.System.Served.Waits.{Waits, IsAmong, Schedules-Waits, schedule-Waits, remove-Waits}

-- More calls have been made.
abbrev pub Grows : {E : Env} → World E → World E → Type 0
Grows w w' = (more : List VendorCall) × (w'.calls ≡ w.calls ++ more)

-- The vendor module has been told to enable the object.
abbrev pub IsTold : {E : Env} → Text → World E → World E → Type 0
IsTold p w w' =
    (before after : List VendorCall) × (w'.calls
      ≡ w.calls ++ (before ++ (set_enable p true ∷ after)))

module _ (E : Env) where
  pub Grows-refl : (w : World E) → Grows w w
  Grows-refl w = ([], sym (append-nil w.calls))

  pub Grows-trans : (u v w : World E) → Grows u v → Grows v w → Grows u w
  Grows-trans u v w (first, e) (second, f) =
      (first ++ second, f ∙ ap (λ c. c ++ second) e ∙ append_assoc u.calls first second)

  pub IsTold-Grows : (p : Text) (u v w : World E) → IsTold p u v → Grows v w → IsTold p u w
  IsTold-Grows p u v w (before, after, e) (more, f) = (
    before,
    after ++ more,
    f
        ∙ ap (λ c. c ++ more) e
        ∙ append_assoc u.calls (before ++ (set_enable p true ∷ after)) more
        ∙ ap (λ c. u.calls ++ c) (append_assoc before (set_enable p true ∷ after) more),
  )

  pub Grows-IsTold : (p : Text) (u v w : World E) → Grows u v → IsTold p v w → IsTold p u w
  Grows-IsTold p u v w (more, e) (before, after, f) = (
    more ++ before,
    after,
    f
        ∙ ap (λ c. c ++ (before ++ (set_enable p true ∷ after))) e
        ∙ append_assoc u.calls more (before ++ (set_enable p true ∷ after))
        ∙ ap (λ c. u.calls ++ c) (sym (append_assoc more before (set_enable p true ∷ after))),
  )

  pub among_calls :
      (p : Text) (qs : List Text)
      → IsAmong p qs
      → (before after : List VendorCall) × (map (λ q. set_enable q true) qs
          ≡ before ++ (set_enable p true ∷ after))
  among_calls p [] h = absurd h
  among_calls p (q ∷ qs) (inl same) = (
    [],
    map (λ q. set_enable q true) qs,
    ap (λ r. set_enable r true ∷ map (λ q. set_enable q true) qs) same,
  )
  among_calls p (q ∷ qs) (inr later) =
      let (before, after, e) = among_calls p qs later in
      (set_enable q true ∷ before, after, ap (λ c. set_enable q true ∷ c) e)

  module _ (vendor : Vendor E.variants) where
    -- What an event other than a round does: the calls are only added to, and a task stays.
    abbrev pub Spares : Text → World E → World E → Type 0
    Spares p w w' = Grows w w' × ((n : ℕ) → Waits p n w.rth.tasks → Waits p n w'.rth.tasks)

    pub Quiet-Spares : {w w' : World E} (p : Text) → Quiet E w w' → Spares p w w'
    Quiet-Spares p q = (q.calls, λ n h. Schedules-Waits p n q.rth h)

    enable_changed-Spares :
        (p object : Text) (on onu : Bool) (w : World E)
        → (on ≡ false → object ≢ p)
        → Spares p w (enable_changed E vendor object on onu w)
    unfolding rth_disable
    enable_changed-Spares p object true true w h =
        (Grows-refl w, λ n x. schedule-Waits p n E.allocates object w.rth x)
    enable_changed-Spares p object true false w h =
        Quiet-Spares p (set_enable-Quiet E vendor object true w)
    enable_changed-Spares p object false onu w h =
        let (calls, tasks) = Quiet-Spares p (set_enable-Quiet E vendor object false w) in
        (calls, λ n x. remove-Waits p object n _ (h refl) (tasks n x))

    pub onu_or_ani-Spares :
        (p : Text) (d : EventData) (onu : Bool) (w : World E)
        → ((path : Text)
            → d.path ≡ some path
            → d.enable_to ≡ false
            → E.strings.trimr path isdot ≢ p)
        → Spares p w (onu_or_ani_enable_changed E vendor d onu w)
    unfolding onu_or_ani_enable_changed
    onu_or_ani-Spares p d onu w h = elim (Option-cases d.path) [
      | inl none' ↦ rw (none', onu_or_ani_enable_changed) (Grows-refl w, λ n x. x)
      | inr (path, e) ↦
          rw (e, onu_or_ani_enable_changed)
            (enable_changed-Spares p (E.strings.trimr path isdot) d.enable_to onu w
              (λ off. h path e off))
    ]

    store_and_call-Spares :
        (p ani_path password : Text) (hex : Bool) (w : World E)
        → Spares p w (store_and_call E vendor ani_path password hex w)
    unfolding pon_ctrl_set_password
    store_and_call-Spares p ani_path password hex w =
        let disk =
          upgr_persistency_set_password E.faults E.s_upgr_storage_dir ani_path password hex
            w.disk in
        let q =
          common-Quiet E vendor (set_password ani_path password hex) (record w { disk = disk }) in
        (q.calls, λ n x. Schedules-Waits p n q.rth x)

    passwd_set_password-Spares :
        (p ani_path password : Text) (w : World E)
        → Spares p w (passwd_set_password E vendor ani_path password w)
    unfolding passwd_set_password
    passwd_set_password-Spares p ani_path password w = elim (Bool-cases (length password == 0)) [
      | inl empty ↦
          rw (empty, passwd_set_password) (store_and_call-Spares p ani_path password false w)
      | inr given ↦ elim (Option-cases (dm_is_hex_password E.amxd w.store ani_path)) [
        | inl none' ↦ rw (given, none', passwd_set_password) (Grows-refl w, λ n x. x)
        | inr (hex, e) ↦
            rw (given, e, passwd_set_password) (store_and_call-Spares p ani_path password hex w)
      ]
    ]

    pub password_changed-Spares :
        (p : Text) (d : EventData) (w : World E) → Spares p w (password_changed E vendor d w)
    unfolding password_changed
    password_changed-Spares p d w = elim (Option-cases d.path) [
      | inl none' ↦ rw (none', password_changed) (Grows-refl w, λ n x. x)
      | inr (path, e) ↦ elim (Option-cases d.password_to) [
        | inl none' ↦ rw (e, none', password_changed) (Grows-refl w, λ n x. x)
        | inr (password, f) ↦
            let stripped = ani_strip_tc_authentication E.strings (E.strings.trimr path isdot) in
            elim (Bool-cases stripped.0) [
              | inl ok ↦
                  rw (e, f, ok, password_changed)
                    (passwd_set_password-Spares p stripped.1 password w)
              | inr fails ↦ rw (e, f, fails, password_changed) (Grows-refl w, λ n x. x)
            ]
      ]
    ]

    enable_changed-Grows :
        (object : Text) (on onu : Bool) (w : World E)
        → Grows w (enable_changed E vendor object on onu w)
    enable_changed-Grows object true true w = Grows-refl w
    enable_changed-Grows object true false w = (set_enable-Quiet E vendor object true w).calls
    enable_changed-Grows object false onu w = (set_enable-Quiet E vendor object false w).calls

    pub onu_or_ani-Grows :
        (d : EventData) (onu : Bool) (w : World E)
        → Grows w (onu_or_ani_enable_changed E vendor d onu w)
    unfolding onu_or_ani_enable_changed
    onu_or_ani-Grows d onu w = elim (Option-cases d.path) [
      | inl none' ↦ rw (none', onu_or_ani_enable_changed) (Grows-refl w)
      | inr (path, e) ↦
          rw (e, onu_or_ani_enable_changed)
            (enable_changed-Grows (E.strings.trimr path isdot) d.enable_to onu w)
    ]
