-- ===== src/System/Served/Fair.antt =====
-- Whatever else happens, an object that waits is enabled within six rounds, unless a signal says
-- in between that it is disabled.
use tr181_xpon.Base.{
  ◌≡◌, refl, ◌≢◌, ◌⊎◌, ◌∙◌, ap, sym, subst, ℕ, zero, suc, ◌≤◌, true, false, some, List, [], ◌∷◌,
  ◌++◌, map, arith, Text, Bool-cases, inl, inr,
}
use tr181_xpon.RestoreToHal.{RthTask, Timer, handle_tasks}
use tr181_xpon.RestoreToHal.Invariant.{IsArmed}
use tr181_xpon.World.{Env, World, set_enable}
use tr181_xpon.DmEvents.{
  EventData, isdot, found_in, onu_enable_changed, ani_enable_changed, rth_round,
}
use tr181_xpon.DmEvents.Reached.{round_lem}
use tr181_xpon.PonStat.{Connections}
use tr181_xpon.PopulateDm.Timers.{is_started}
use tr181_xpon.Main.{Outside, vendor_of}
use tr181_xpon.System.{
  Event, onu_enable_signal, ani_enable_signal, password_signal, rth_timer, System, handle,
  handle_all,
}
use tr181_xpon.System.Frame.Handle.{handle-Quiet}
use tr181_xpon.System.Invariant.{IsValid, handle-IsValid}
use tr181_xpon.System.Served.Waits.{Waits, Outcome, round-Outcome, none-Waits}
use tr181_xpon.System.Served.Spares.{
  Grows, IsTold, Grows-refl, Grows-trans, IsTold-Grows, Grows-IsTold, among_calls, Spares,
  Quiet-Spares, onu_or_ani-Spares, password_changed-Spares, onu_or_ani-Grows,
}

module _ (E : Env) (o : Outside E) (C : Connections) where
  -- The signal does not say that the object is disabled.
  abbrev pub KeepsOn : Text → EventData → Type 0
  KeepsOn p d =
      (path : Text) → d.path ≡ some path → d.enable_to ≡ false → E.strings.trimr path isdot ≢ p

  abbrev pub AllKeepOn : Text → List (Event E) → Type 0
  AllKeepOn p [] = Unit
  AllKeepOn p (onu_enable_signal d ∷ es) = KeepsOn p d × AllKeepOn p es
  AllKeepOn p (ani_enable_signal d ∷ es) = KeepsOn p d × AllKeepOn p es
  AllKeepOn p (_ ∷ es) = AllKeepOn p es

  -- How often the timer of restore_to_hal.c fires.
  abbrev pub rounds_in : List (Event E) → ℕ
  rounds_in [] = 0
  rounds_in (rth_timer ∷ es) = suc (rounds_in es)
  rounds_in (_ ∷ es) = rounds_in es

  -- The timer is started while the object waits.
  armed :
      (p : Text) (n : ℕ) (ts : List RthTask) (timer : Timer)
      → Waits p n ts
      → IsArmed ts timer
      → is_started timer ≡ true
  armed p n [] timer h a = absurd h
  armed p n (t ∷ ts) timer h (ms, e) = ap is_started e

  round-IsTold :
      (p : Text) (n : ℕ) (s : System E C)
      → s.app.mgmt.s_module_so ≡ true
      → IsValid E o C s
      → Waits p (suc n) s.app.world.rth.tasks
      → let w' = (handle E o C rth_timer s).app.world in
        IsTold p s.app.world w' ⊎ (Grows s.app.world w' × Waits p n w'.rth.tasks)
  unfolding handle
  round-IsTold p n s loaded v h =
      let w = s.app.world in
      let vendor = vendor_of E o s.app.mgmt in
      let (tasks, calls, store) = round_lem E vendor loaded w in
      let running = armed p (suc n) w.rth.tasks w.rth.timer h v.safe.waiting.armed in
      simp (running, handle)
        (after w (rth_round E vendor w) (handle_tasks (found_in E vendor w) w.rth.tasks) tasks calls
          (round-Outcome (found_in E vendor w) p n w.rth.tasks v.safe.waiting.counted h))
    where
      after :
          (w w' : World E) (r : List RthTask × List Text)
          → w'.rth.tasks ≡ r.0
          → w'.calls ≡ w.calls ++ map (λ q. set_enable q true) r.1
          → Outcome p n r
          → IsTold p w w' ⊎ (Grows w w' × Waits p n w'.rth.tasks)
      after w w' (left, enabled) tasks calls (inl among) =
          let (before, after', e) = among_calls E p enabled among in
          inl (before, after', calls ∙ ap (λ c. w.calls ++ c) e)
      after w w' (left, enabled) tasks calls (inr waits) =
          inr ((map (λ q. set_enable q true) enabled, calls), subst (Waits p n) (sym tasks) waits)

  same_module :
      (e : Event E) (s : System E C)
      → (handle E o C e s).app.mgmt.s_module_so ≡ s.app.mgmt.s_module_so
  unfolding handle
  same_module rth_timer s = elim (Bool-cases (is_started s.app.world.rth.timer)) [
    | inl running ↦ simp (running, handle) refl
    | inr still ↦ simp (still, handle) refl
  ]
  same_module e s = refl

  handle-Grows :
      (e : Event E) (s : System E C)
      → s.app.mgmt.s_module_so ≡ true
      → Grows s.app.world (handle E o C e s).app.world
  unfolding handle onu_enable_changed ani_enable_changed
  handle-Grows (onu_enable_signal d) s loaded =
      onu_or_ani-Grows E (vendor_of E o s.app.mgmt) d true s.app.world
  handle-Grows (ani_enable_signal d) s loaded =
      onu_or_ani-Grows E (vendor_of E o s.app.mgmt) d false s.app.world
  handle-Grows (password_signal d) s loaded =
      (password_changed-Spares E (vendor_of E o s.app.mgmt) [] d s.app.world).0
  handle-Grows rth_timer s loaded = elim (Bool-cases (is_started s.app.world.rth.timer)) [
    | inl running ↦
        let (tasks, calls, store) = round_lem E (vendor_of E o s.app.mgmt) loaded s.app.world in
        simp (running, handle) (_, calls)
    | inr still ↦ simp (still, handle) (Grows-refl E s.app.world)
  ]
  handle-Grows e s loaded = (handle-Quiet E o C e s refl).calls

  handle_all-Grows :
      (es : List (Event E)) (s : System E C)
      → s.app.mgmt.s_module_so ≡ true
      → Grows s.app.world (handle_all E o C es s).app.world
  unfolding handle_all
  handle_all-Grows [] s loaded = Grows-refl E s.app.world
  handle_all-Grows (e ∷ es) s loaded =
      let s' = handle E o C e s in
      Grows-trans E s.app.world s'.app.world (handle_all E o C es s').app.world
        (handle-Grows e s loaded) (handle_all-Grows es s' (same_module e s ∙ loaded))

  -- What an event other than a round does to the calls and to a task of the object.
  abbrev SparesIn : Text → System E C → System E C → Type 0
  SparesIn p s s' = Spares E (vendor_of E o s.app.mgmt) p s.app.world s'.app.world

  -- A run of events from a state in which the object waits.
  abbrev Serves : Text → List (Event E) → System E C → Type 0
  Serves p es s =
      (n : ℕ)
      → n ≤ rounds_in es
      → s.app.mgmt.s_module_so ≡ true
      → IsValid E o C s
      → Waits p n s.app.world.rth.tasks
      → IsTold p s.app.world (handle_all E o C es s).app.world

  spared :
      (p : Text) (e : Event E) (es : List (Event E)) (s : System E C)
      → SparesIn p s (handle E o C e s)
      → rounds_in (e ∷ es) ≡ rounds_in es
      → Serves p es (handle E o C e s)
      → Serves p (e ∷ es) s
  unfolding handle_all
  spared p e es s (grows, stays) same rest n enough loaded v waits =
      let s' = handle E o C e s in
      Grows-IsTold E p s.app.world s'.app.world (handle_all E o C es s').app.world grows (
        rest n (subst (λ m. n ≤ m) same enough) (same_module e s ∙ loaded)
          (handle-IsValid E o C e s v) (stays n waits))

  round_then :
      (p : Text) (es : List (Event E)) (s : System E C)
      → Serves p es (handle E o C rth_timer s)
      → Serves p (rth_timer ∷ es) s
  unfolding handle_all
  round_then p es s rest zero enough loaded v waits =
      absurd (none-Waits p s.app.world.rth.tasks v.safe.waiting.counted waits)
  round_then p es s rest (suc n) enough loaded v waits =
      let s' = handle E o C rth_timer s in
      let still = same_module rth_timer s ∙ loaded in
      after s' still (handle-IsValid E o C rth_timer s v) rest (round-IsTold p n s loaded v waits)
    where
      after :
          (s' : System E C)
          → s'.app.mgmt.s_module_so ≡ true
          → IsValid E o C s'
          → Serves p es s'
          → IsTold p s.app.world s'.app.world
            ⊎ (Grows s.app.world s'.app.world × Waits p n s'.app.world.rth.tasks)
          → IsTold p s.app.world (handle_all E o C es s').app.world
      after s' still v' go_on (inl told) =
          IsTold-Grows E p s.app.world s'.app.world (handle_all E o C es s').app.world told
            (handle_all-Grows es s' still)
      after s' still v' go_on (inr (grows, left)) =
          Grows-IsTold E p s.app.world s'.app.world (handle_all E o C es s').app.world grows
            (go_on n (omega (arith, enough)) still v' left)

  no_round : (p : Text) (s : System E C) → Serves p [] s
  no_round p s zero enough loaded v waits =
      absurd (none-Waits p s.app.world.rth.tasks v.safe.waiting.counted waits)
  no_round p s (suc n) enough loaded v waits = absurd (omega (arith, enough))

  all-Serves : (p : Text) (es : List (Event E)) (s : System E C) → AllKeepOn p es → Serves p es s
  unfolding handle onu_enable_changed ani_enable_changed
  all-Serves p [] s on = no_round p s
  all-Serves p (rth_timer ∷ es) s on =
      round_then p es s (all-Serves p es (handle E o C rth_timer s) on)
  all-Serves p (onu_enable_signal d ∷ es) s (on, rest) =
      spared p (onu_enable_signal d) es s
        (onu_or_ani-Spares E (vendor_of E o s.app.mgmt) p d true s.app.world on) refl
        (all-Serves p es (handle E o C (onu_enable_signal d) s) rest)
  all-Serves p (ani_enable_signal d ∷ es) s (on, rest) =
      spared p (ani_enable_signal d) es s
        (onu_or_ani-Spares E (vendor_of E o s.app.mgmt) p d false s.app.world on) refl
        (all-Serves p es (handle E o C (ani_enable_signal d) s) rest)
  all-Serves p (password_signal d ∷ es) s on =
      spared p (password_signal d) es s
        (password_changed-Spares E (vendor_of E o s.app.mgmt) p d s.app.world) refl
        (all-Serves p es (handle E o C (password_signal d) s) on)
  all-Serves p (e ∷ es) s on =
      spared p e es s (Quiet-Spares E (vendor_of E o s.app.mgmt) p (handle-Quiet E o C e s refl))
        refl (all-Serves p es (handle E o C e s) on)

  -- In a valid state with a vendor module in which a task for an object waits, and then any events
  -- in any order in which the timer of restore_to_hal.c fires as often as that task may still wait,
  -- at most six times: the vendor module is told to enable the object, unless a signal among the
  -- events says that the object is disabled.
  pub waiting-IsTold :
      (p : Text) (n : ℕ) (es : List (Event E)) (s : System E C)
      → s.app.mgmt.s_module_so ≡ true
      → IsValid E o C s
      → Waits p n s.app.world.rth.tasks
      → AllKeepOn p es
      → n ≤ rounds_in es
      → IsTold p s.app.world (handle_all E o C es s).app.world
  waiting-IsTold p n es s loaded v waits on enough = all-Serves p es s on n enough loaded v waits
