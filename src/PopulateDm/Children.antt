-- ===== src/PopulateDm/Children.antt =====
-- populate_dm_startup.c: the tasks for the children of an object.
use tr181_xpon.Base.{
  ℕ, ◌+◌, ◌*◌, ◌-◌, ◌≤◌, ◌<◌, ◌≡◌, refl, ap, sym, ◌∙◌, subst, Bool, true, false, Option, none, some,
  List, [], ◌∷◌, ◌++◌, arith, Text, codes, inl, inr, Option-cases, length,
}
use mathlib.Core.List.{append_assoc, append-nil}
use tr181_xpon.Amxc.{IsLawful, all, is_plain, intercalate}
use tr181_xpon.World.{Env}
use tr181_xpon.PonCtrl.{Vendor}
use tr181_xpon.DmInfo.{
  onu, software_image, ethernet_uni, ani, gem_port, transceiver, ani_tc_onu_activation,
  ani_tc_authentication, ani_tc_performance_thresholds, ani_tc_alarms, unknown, ObjectId,
  ObjectInfo, dm_get_object_info, dm_get_object_id,
}
use tr181_xpon.DmInfo.Depth.{occurrences, depth_of_parent}
use tr181_xpon.PopulateDm.{
  TaskType, task_query_indexes, Task, Populate, task_create, child_path, child_type,
  create_child_tasks, query_children, children_of,
}
use tr181_xpon.PopulateDm.Shape.{IsPath, child_path-IsPath}

pub data All {ℓ} {A : Type ℓ} (P : A → Type 0) : List A → Type ℓ where
  none_left : All P []
  and_all : {x : A} {xs : List A} → P x → All P xs → All P (x ∷ xs)

pub All-append {ℓ} :
    {A : Type ℓ} (P : A → Type 0) (xs ys : List A) → All P xs → All P ys → All P (xs ++ ys)
All-append P [] ys none_left k = k
All-append P (x ∷ xs) ys (and_all p h) k = and_all p (All-append P xs ys h k)

abbrev pub weight : TaskType → ℕ
weight task_query_indexes = 1
weight _ = 0

-- A task for a path of plain parts, and a bound on the tasks that it can lead to in turn.
pub record Bounded (bound : ℕ) (task : Task) : Type 0 where
  pub depth : ℕ
  pub path : IsPath depth task.path
  pub below : 2 * (6 - depth) + weight task.type < bound

-- Tasks below the bound were appended, and no task was removed.
abbrev pub Adds : ℕ → Populate → Populate → Type 0
Adds bound p p' = (more : List Task) × (p'.s_tasks ≡ p.s_tasks ++ more) × All (Bounded bound) more

pub Adds-none : (bound : ℕ) (p p' : Populate) → p'.s_tasks ≡ p.s_tasks → Adds bound p p'
Adds-none bound p p' e = ([], e ∙ sym (append-nil p.s_tasks), none_left)

pub Adds-both : (bound : ℕ) (p q r : Populate) → Adds bound p q → Adds bound q r → Adds bound p r
Adds-both bound p q r (more, e, h) (others, f, k) = (
  more ++ others,
  f ∙ ap (λ ts. ts ++ others) e ∙ append_assoc p.s_tasks more others,
  All-append (Bounded bound) more others h k,
)

pub task_create-Adds :
    (allocates : Bool) (bound : ℕ) (path : Text) (index : ℕ) (type : TaskType) (p : Populate)
    → Bounded bound (record { path = path; index = index; type = type })
    → Adds bound p (task_create allocates path index type p)
unfolding task_create
task_create-Adds true bound path index type p b = (_, refl, and_all b none_left)
task_create-Adds false bound path index type p b = Adds-none bound p p refl

-- The name of a child in the table.
abbrev IsChild : Text → Type 0
IsChild child = (n : ℕ) × IsPath n child × (length child ≤ 27)

weight-child_type : (templates : Bool) → weight (child_type templates) ≤ 1
weight-child_type true = omega arith
weight-child_type false = omega arith

create_child_tasks-Adds :
    (allocates : Bool) (m bound : ℕ) (path : Text) (index : ℕ) (templates : Bool)
    (children : List Text) (p : Populate)
    → IsPath m path
    → m ≤ 5
    → 2 * (6 - m) ≤ bound
    → All IsChild children
    → Adds bound p (create_child_tasks allocates path index templates children p)
unfolding create_child_tasks
create_child_tasks-Adds allocates m bound path index templates [] p i s b none_left =
    Adds-none bound p p refl
create_child_tasks-Adds allocates m bound path index templates (c ∷ cs) p i s b
      (and_all (n, child, short) rest) =
    let (d, deeper, at) = child_path-IsPath m n index path c i s child short in
    let q = task_create allocates (child_path path index c) 0 (child_type templates) p in
    Adds-both bound p q (create_child_tasks allocates path index templates cs q)
      (task_create-Adds allocates bound (child_path path index c) 0 (child_type templates) p
        (record { depth = d; path = at; below = omega (arith, weight-child_type templates) }))
      (create_child_tasks-Adds allocates m bound path index templates cs q i s b rest)

module _ (E : Env) (lawful : IsLawful E.strings) where
  child :
      (t : Text) (ts : List Text)
      → all (is_plain b'.') (t ∷ ts) ≡ true
      → length (intercalate b'.' (t ∷ ts)) ≤ 27
      → IsChild (intercalate b'.' (t ∷ ts))
  child t ts h l = (
    length (t ∷ ts),
    record {
      parts = t ∷ ts;
      is_plain_parts = h;
      same = refl;
      count = refl;
      positive = omega arith;
      room = omega arith;
    },
    l,
  )

  -- What the texts of the table split into.
  abbrev AreChildren : ObjectInfo → Option Text → Type 0
  AreChildren info none = true ≡ true
  AreChildren info (some text) =
      (children : List Text) × (E.strings.split_to_llist text b',' ≡ some children)
      × All IsChild children
      × (occurrences b'.' info.generic_path ≤ 3)

  abbrev HasChildren : Bool → Option ObjectInfo → Type 0
  HasChildren templates none = true ≡ true
  HasChildren templates (some info) = AreChildren info (children_of info templates)

  table_children :
      (id : ObjectId) (templates : Bool) → HasChildren templates (dm_get_object_info id)
  unfolding dm_get_object_info
  table_children onu true = (
    codes "SoftwareImage" ∷ codes "EthernetUNI" ∷ codes "ANI" ∷ [],
    lawful.split-intercalate b',' (codes "SoftwareImage") (codes "EthernetUNI" ∷ codes "ANI" ∷ [])
        refl,
    and_all (child (codes "SoftwareImage") [] refl (omega arith)) (
        and_all (child (codes "EthernetUNI") [] refl (omega arith))
          (and_all (child (codes "ANI") [] refl (omega arith)) none_left)),
    omega arith,
  )
  table_children ani true = (
    codes "TC.GEM.Port" ∷ codes "Transceiver" ∷ [],
    lawful.split-intercalate b',' (codes "TC.GEM.Port") (codes "Transceiver" ∷ []) refl,
    and_all (child (codes "TC") (codes "GEM" ∷ codes "Port" ∷ []) refl (omega arith))
        (and_all (child (codes "Transceiver") [] refl (omega arith)) none_left),
    omega arith,
  )
  table_children ani false = (
    codes "TC.ONUActivation" ∷ codes "TC.PerformanceThresholds" ∷ codes "TC.Alarms" ∷ [],
    lawful.split-intercalate b',' (codes "TC.ONUActivation")
        (codes "TC.PerformanceThresholds" ∷ codes "TC.Alarms" ∷ []) refl,
    and_all (child (codes "TC") (codes "ONUActivation" ∷ []) refl (omega arith)) (
        and_all (child (codes "TC") (codes "PerformanceThresholds" ∷ []) refl (omega arith))
          (and_all (child (codes "TC") (codes "Alarms" ∷ []) refl (omega arith)) none_left)),
    omega arith,
  )
  table_children onu false = refl
  table_children software_image true = refl
  table_children software_image false = refl
  table_children ethernet_uni true = refl
  table_children ethernet_uni false = refl
  table_children gem_port true = refl
  table_children gem_port false = refl
  table_children transceiver true = refl
  table_children transceiver false = refl
  table_children ani_tc_onu_activation true = refl
  table_children ani_tc_onu_activation false = refl
  table_children ani_tc_authentication true = refl
  table_children ani_tc_authentication false = refl
  table_children ani_tc_performance_thresholds true = refl
  table_children ani_tc_performance_thresholds false = refl
  table_children ani_tc_alarms true = refl
  table_children ani_tc_alarms false = refl
  table_children unknown true = refl
  table_children unknown false = refl

  module _ (vendor : Vendor E.variants) (max_nr_of_onus : ℕ) where
    pub query_children-Adds :
        (m bound : ℕ) (path : Text) (index : ℕ) (id : ObjectId) (templates : Bool) (p : Populate)
        → IsPath m path
        → dm_get_object_id E.strings path ≡ id
        → 2 * (6 - m) ≤ bound
        → Adds bound p (query_children E vendor max_nr_of_onus path index id templates p)
    unfolding query_children
    query_children-Adds m bound path index id templates p at same b =
        elim (Option-cases (dm_get_object_info id)) [
          | inl missing ↦ rw (missing, query_children) (Adds-none bound p p refl)
          | inr (info, own) ↦ elim (Option-cases (children_of info templates)) [
            | inl childless ↦ rw (own, childless, query_children) (Adds-none bound p p refl)
            | inr (text, has) ↦
                let (children, split, good, few) =
                  subst (AreChildren info) has
                    (subst (HasChildren templates) own (table_children id templates)) in
                let deep =
                  depth_of_parent E.strings lawful at.parts id info
                    (λ nil. absurd (omega (arith, ap length nil, at.count, at.positive)))
                    at.is_plain_parts (ap (dm_get_object_id E.strings) (sym at.same) ∙ same) own in
                rw (own, has, split, query_children)
                  (create_child_tasks-Adds E.allocates m bound path index templates children p at
                    (omega (arith, at.count)) b good)
          ]
        ]
