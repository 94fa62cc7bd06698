-- ===== src/Settings/Refinement.antt =====
-- The two folders implement a map: what is saved last for an object or an ANI is what is read.
use tr181_xpon.Base.{
  ◌≡◌, refl, sym, ◌∙◌, ap, subst, Bool, true, false, some, List, [], ◌∷◌, arith, Text, length,
  text_eq, text_eq→eq, text_eq_iff, ◌==◌, if◌then◌else◌, Bool-cases, inl, inr,
}
use tr181_xpon.Posix.{Disk, Faults, IsReliable}
use tr181_xpon.Persistency.{persistency_enable, persistency_is_enabled}
use tr181_xpon.Persistency.Laws.{is_enabled-enable, enable_other_file}
use tr181_xpon.UpgradePersistency.{
  upgr_persistency_set_password, upgr_persistency_get_password, create_password_file_path, Saved,
}
use tr181_xpon.UpgradePersistency.RoundTrip.{IsShort, get-set, get-set_empty}
use tr181_xpon.Settings.Frame.{
  IsSavable, cleared, stored, password-ne-enabled, set-enabled, set-password, get_password_local,
}

-- What is kept, as functions of the object and of the ANI.
pub record Settings : Type 0 where
  pub enabled : Text → Bool
  pub password : Text → Saved

-- What the handlers of the events of the data model save.
pub data Op : Type 0 where
  enable : Text → Bool → Op
  save : Text → Text → Bool → Op

abbrev pub saved : Text → Bool → Saved
saved password hex =
    if length password == 0
    then record { rv = true; password = []; hex = false }
    else record { rv = true; password = password; hex = hex }

-- The meaning of an operation: the value at one object is replaced.
abbrev pub replay_one : Op → Settings → Settings
replay_one (enable object on) s = record s {
  enabled = λ q. if text_eq object q then on else s.enabled q;
}
replay_one (save ani_path password hex) s = record s {
  password = λ q. if text_eq ani_path q then saved password hex else s.password q;
}

abbrev pub replay : List Op → Settings → Settings
replay [] s = s
replay (op ∷ ops) s = replay ops (replay_one op s)

module _ (faults : Faults) (dir upgr_dir : Text) where
  -- The code's operations on the disk.
  abbrev pub perform_one : Op → Disk → Disk
  perform_one (enable object on) d = persistency_enable faults (some dir) object on d
  perform_one (save ani_path password hex) d =
      upgr_persistency_set_password faults (some upgr_dir) ani_path password hex d

  abbrev pub perform : List Op → Disk → Disk
  perform [] d = d
  perform (op ∷ ops) d = perform ops (perform_one op d)

  -- What the code reads from a disk.
  abbrev pub view : Disk → Settings
  view d = record {
    enabled = λ object. persistency_is_enabled (some dir) object d;
    password = λ ani_path. upgr_persistency_get_password faults (some upgr_dir) ani_path [] false d;
  }

  -- The names are short, and a password is empty or fits its file.
  abbrev pub AreSavable : List Op → Type 0
  AreSavable [] = Unit
  AreSavable (enable object on ∷ ops) = AreSavable ops
  AreSavable (save ani_path password hex ∷ ops) =
      IsShort upgr_dir ani_path × IsSavable password × AreSavable ops

  module _ (r : IsReliable faults) where
    enable_keeps_passwords :
        (object : Text) (on : Bool) (d : Disk) (ani_path : Text)
        → (view (perform_one (enable object on) d)).password ani_path ≡ (view d).password ani_path
    enable_keeps_passwords object on d ani_path =
        get_password_local faults upgr_dir ani_path [] d
          (persistency_enable faults (some dir) object on d)
          (λ f.
            enable_other_file faults d (some dir) object on
              (create_password_file_path (some upgr_dir) ani_path f)
              (λ e. password-ne-enabled upgr_dir dir ani_path object f (sym e)))

    enable_view :
        (object : Text) (on : Bool) (d : Disk)
        → view (perform_one (enable object on) d) ≡ replay_one (enable object on) (view d)
    enable_view object on d = λ i. record {
      enabled = λ q. is_enabled-enable faults d dir object q on (r.writes _) (r.unlinks _) i;
      password = λ q. enable_keeps_passwords object on d q i;
    }

    save_same :
        (ani_path password : Text) (hex : Bool) (d : Disk)
        → IsShort upgr_dir ani_path
        → IsSavable password
        → upgr_persistency_get_password faults
            (some upgr_dir)
            ani_path
            []
            false
            (upgr_persistency_set_password faults (some upgr_dir) ani_path password hex d)
          ≡ saved password hex
    save_same ani_path password hex d short cleared =
        get-set_empty upgr_dir ani_path faults r d [] hex
    save_same ani_path password hex d short (stored p ok) =
        (get-set upgr_dir ani_path faults r d p [] hex short ok).0 ∙ ground (arith, ok.not_empty)

    save_keeps_enabled :
        (ani_path password : Text) (hex : Bool) (d : Disk) (object : Text)
        → IsShort upgr_dir ani_path
        → IsSavable password
        → persistency_is_enabled
            (some dir)
            object
            (upgr_persistency_set_password faults (some upgr_dir) ani_path password hex d)
          ≡ persistency_is_enabled (some dir) object d
    unfolding persistency_is_enabled
    save_keeps_enabled ani_path password hex d object short ok =
        ground (arith, set-enabled faults upgr_dir ani_path short d dir object password hex ok)

    save_password :
        (ani_path password : Text) (hex : Bool) (d : Disk) (q : Text)
        → IsShort upgr_dir ani_path
        → IsSavable password
        → (view (perform_one (save ani_path password hex) d)).password q
          ≡ (if text_eq ani_path q then saved password hex else (view d).password q)
    save_password ani_path password hex d q short ok = elim (Bool-cases (text_eq ani_path q)) [
      | inl same ↦ rw same (
          subst
            (λ a.
              upgr_persistency_get_password faults (some upgr_dir) a [] false
                (upgr_persistency_set_password faults (some upgr_dir) ani_path password hex d)
              ≡ saved password hex)
            (text_eq→eq ani_path q same) (save_same ani_path password hex d short ok))
      | inr differ ↦ rw differ (
          get_password_local faults upgr_dir q [] d _ (λ f.
            set-password faults upgr_dir ani_path short d q password hex f
              (λ e. cc ((text_eq_iff ani_path q).1 e, differ)) ok))
    ]

    save_view :
        (ani_path password : Text) (hex : Bool) (d : Disk)
        → IsShort upgr_dir ani_path
        → IsSavable password
        → view (perform_one (save ani_path password hex) d)
          ≡ replay_one (save ani_path password hex) (view d)
    save_view ani_path password hex d short ok = λ i. record {
      enabled = λ q. save_keeps_enabled ani_path password hex d q short ok i;
      password = λ q. save_password ani_path password hex d q short ok i;
    }

    -- If no call fails, the paths of the ANIs are short enough for the names of their files and
    -- every password is empty or fits its file, any operations on the two folders, which may be
    -- the same, read as their replay on a map: each object and each ANI has what was saved last
    -- for it, and what it had before if nothing was.
    pub perform_refines :
        (ops : List Op) (d : Disk) → AreSavable ops → view (perform ops d) ≡ replay ops (view d)
    perform_refines [] d ok = refl
    perform_refines (enable object on ∷ ops) d ok =
        perform_refines ops (persistency_enable faults (some dir) object on d) ok
        ∙ ap (replay ops) (enable_view object on d)
    perform_refines (save ani_path password hex ∷ ops) d (short, ok, rest) =
        perform_refines ops
          (upgr_persistency_set_password faults (some upgr_dir) ani_path password hex d) rest
        ∙ ap (replay ops) (save_view ani_path password hex d short ok)
