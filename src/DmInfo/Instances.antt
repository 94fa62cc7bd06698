-- ===== src/DmInfo/Instances.antt =====
-- dm_info.c: the IDs of the paths that a running data model has, with numbers for indexes.
use tr181_xpon.Base.{
  ℕ, ◌≡◌, refl, ◌≢◌, ap, subst, sym, ◌∙◌, Bool, true, false, ◌&&◌, Option, none, some, List, [],
  ◌∷◌, ◌++◌, map, arith, Text, codes, inl, inr, Option-cases, is_digit, &&-true,
}
use tr181_xpon.Amxc.{
  Strings, IsLawful, is_letter, is_number, is_plain, is_plain_char, all, intercalate,
}
use tr181_xpon.DmInfo.Table.{
  ObjectId, ObjectInfo, onu, software_image, ethernet_uni, ani, gem_port, transceiver,
  ani_tc_onu_activation, ani_tc_authentication, ani_tc_performance_thresholds, ani_tc_alarms,
  unknown,
}
use tr181_xpon.DmInfo.Lookup.{
  dm_get_object_info, dm_convert_to_generic_path, dm_get_object_id, unsnoc, generic_part,
}
use tr181_xpon.DmInfo.Paths.{dm_get_object_id_iff}

-- The parts of an object's generic path in front of its name, and the name.
abbrev pub parents : ObjectId → List Text
parents onu = codes "XPON" ∷ []
parents software_image = codes "XPON" ∷ codes "ONU" ∷ codes "x" ∷ []
parents ethernet_uni = codes "XPON" ∷ codes "ONU" ∷ codes "x" ∷ []
parents ani = codes "XPON" ∷ codes "ONU" ∷ codes "x" ∷ []
parents gem_port =
    codes "XPON" ∷ codes "ONU" ∷ codes "x" ∷ codes "ANI" ∷ codes "x" ∷ codes "TC" ∷ codes "GEM" ∷ []
parents transceiver = codes "XPON" ∷ codes "ONU" ∷ codes "x" ∷ codes "ANI" ∷ codes "x" ∷ []
parents _ = codes "XPON" ∷ codes "ONU" ∷ codes "x" ∷ codes "ANI" ∷ codes "x" ∷ codes "TC" ∷ []

abbrev pub object_name : ObjectId → Text
object_name onu = codes "ONU"
object_name software_image = codes "SoftwareImage"
object_name ethernet_uni = codes "EthernetUNI"
object_name ani = codes "ANI"
object_name gem_port = codes "Port"
object_name transceiver = codes "Transceiver"
object_name ani_tc_onu_activation = codes "ONUActivation"
object_name ani_tc_authentication = codes "Authentication"
object_name ani_tc_performance_thresholds = codes "PerformanceThresholds"
object_name ani_tc_alarms = codes "Alarms"
object_name unknown = codes "x"

abbrev pub is_name : Text → Bool
is_name [] = false
is_name (c ∷ cs) = is_letter c && is_plain b'.' (c ∷ cs)

-- The second list is the first with a number for each x.
pub data Instantiates : List Text → List Text → Type 0 where
  end : Instantiates [] []
  index :
      {generic parts : List Text} (n : Text)
      → is_number n ≡ true
      → Instantiates generic parts
      → Instantiates (codes "x" ∷ generic) (n ∷ parts)
  name :
      {generic parts : List Text} (part : Text)
      → is_name part ≡ true
      → Instantiates generic parts
      → Instantiates (part ∷ generic) (part ∷ parts)

digit-plain : (c : ℕ) → is_digit c ≡ true → (is_plain_char b'.' c) ≡ true
digit-plain c h = ground arith

all_digits-plain : (n : Text) → all is_digit n ≡ true → all (λ c. is_plain_char b'.' c) n ≡ true
all_digits-plain [] h = refl
all_digits-plain (c ∷ cs) h =
    let (d, ds) = &&-true (is_digit c) _ h in rw (digit-plain c d) (all_digits-plain cs ds)

pub number-plain : (n : Text) → is_number n ≡ true → is_plain b'.' n ≡ true
number-plain [] h = cc
number-plain (c ∷ cs) h = all_digits-plain (c ∷ cs) h

pub name-plain : (t : Text) → is_name t ≡ true → is_plain b'.' t ≡ true
name-plain [] h = cc
name-plain (c ∷ cs) h = (&&-true (is_letter c) _ h).1

Instantiates-append :
    {g p h q : List Text} → Instantiates g p → Instantiates h q → Instantiates (g ++ h) (p ++ q)
Instantiates-append end j = j
Instantiates-append (index n d i) j = index n d (Instantiates-append i j)
Instantiates-append (name t l i) j = name t l (Instantiates-append i j)

Instantiates-plain :
    {generic parts : List Text} → Instantiates generic parts → all (is_plain b'.') parts ≡ true
Instantiates-plain end = refl
Instantiates-plain (index n d i) = rw (number-plain n d) (Instantiates-plain i)
Instantiates-plain (name t l i) = rw (name-plain t l) (Instantiates-plain i)

pub all-append {ℓ} :
    {A : Type ℓ} (p : A → Bool) (xs ys : List A)
    → all p xs ≡ true
    → all p ys ≡ true
    → all p (xs ++ ys) ≡ true
all-append p [] ys h k = k
all-append p (x ∷ xs) ys h k = let (a, b) = &&-true (p x) _ h in rw a (all-append p xs ys b k)

pub unsnoc-append {ℓ} : {A : Type ℓ} (xs : List A) (x : A) → unsnoc (xs ++ (x ∷ [])) ≡ some (xs, x)
unsnoc-append [] x = refl
unsnoc-append (y ∷ ys) x = rw (unsnoc-append ys x)

pub snoc-ne-nil {ℓ} : {A : Type ℓ} (xs : List A) (x : A) → xs ++ (x ∷ []) ≢ []
snoc-ne-nil [] x h = cc
snoc-ne-nil (y ∷ ys) x h = cc

-- The generic path of an object's entry is made of its parents and its name.
abbrev IsTablePath : ObjectId → Option ObjectInfo → Type 0
IsTablePath id none = id ≡ unknown
IsTablePath id (some info) =
    info.generic_path ≡ intercalate b'.' (parents id ++ (object_name id ∷ []))

table_path : (id : ObjectId) → IsTablePath id (dm_get_object_info id)
unfolding dm_get_object_info
table_path onu = refl
table_path _ = refl

object_name-is_name : (id : ObjectId) → is_name (object_name id) ≡ true
object_name-is_name onu = refl
object_name-is_name _ = refl

module _ (S : Strings) (L : IsLawful S) where
  pub name-not_numeric : (t : Text) → is_name t ≡ true → S.is_numeric t ≡ false
  name-not_numeric [] h = cc
  name-not_numeric (c ∷ cs) h = L.numeric_of_letter c cs (&&-true (is_letter c) _ h).0

  pub map-generic_part :
      {generic parts : List Text}
      → Instantiates generic parts
      → map (generic_part S) parts ≡ generic
  map-generic_part end = refl
  map-generic_part (index n d i) = rw (L.numeric_of_digits n d, map-generic_part i)
  map-generic_part (name t l i) = rw (name-not_numeric t l, map-generic_part i)

  pub split_parts :
      (parts : List Text)
      → parts ≢ []
      → all (is_plain b'.') parts ≡ true
      → S.split_to_llist (intercalate b'.' parts) b'.' ≡ some parts
  split_parts [] h p = absurd (h refl)
  split_parts (t ∷ ts) h p = L.split-intercalate b'.' t ts p

  -- Parts that end in a name.
  pub convert_object :
      (generic parts : List Text) (t : Text)
      → Instantiates generic parts
      → is_name t ≡ true
      → dm_convert_to_generic_path S (intercalate b'.' (parts ++ (t ∷ [])))
        ≡ some (intercalate b'.' (generic ++ (t ∷ [])))
  unfolding dm_convert_to_generic_path
  convert_object generic parts t i l =
      let whole : Instantiates (generic ++ (t ∷ [])) (parts ++ (t ∷ [])) =
        Instantiates-append i (name t l end) in
      rw (
        split_parts (parts ++ (t ∷ [])) (snoc-ne-nil parts t) (Instantiates-plain whole),
        unsnoc-append parts t,
        name-not_numeric t l,
        map-generic_part whole,
        L.join_lem b'.' (generic ++ (t ∷ [])),
        dm_convert_to_generic_path,
      )

  -- Parts that end in a name and an instance index.
  convert_instance :
      (generic parts : List Text) (t n : Text)
      → Instantiates generic parts
      → is_name t ≡ true
      → is_number n ≡ true
      → dm_convert_to_generic_path S (intercalate b'.' ((parts ++ (t ∷ [])) ++ (n ∷ [])))
        ≡ some (intercalate b'.' (generic ++ (t ∷ [])))
  unfolding dm_convert_to_generic_path
  convert_instance generic parts t n i l d =
      let whole : Instantiates (generic ++ (t ∷ [])) (parts ++ (t ∷ [])) =
        Instantiates-append i (name t l end) in
      rw (
        split_parts ((parts ++ (t ∷ [])) ++ (n ∷ [])) (snoc-ne-nil (parts ++ (t ∷ [])) n)
            (Instantiates-plain (Instantiates-append whole (index n d end))),
        unsnoc-append (parts ++ (t ∷ [])) n,
        L.numeric_of_digits n d,
        map-generic_part whole,
        L.join_lem b'.' (generic ++ (t ∷ [])),
        dm_convert_to_generic_path,
      )

  -- A path has an object's ID if its parts are the parents of the object with numbers for
  -- their indexes, then its name, then, if it is an instance, an index that is a number.
  pub dm_get_object_id-Instantiates :
      (id : ObjectId) (parts : List Text) (n : Text)
      → id ≢ unknown
      → Instantiates (parents id) parts
      → is_number n ≡ true
      → (dm_get_object_id S (intercalate b'.' (parts ++ (object_name id ∷ []))) ≡ id)
        × (dm_get_object_id S (intercalate b'.' ((parts ++ (object_name id ∷ [])) ++ (n ∷ [])))
            ≡ id)
  dm_get_object_id-Instantiates id parts n known i d = elim (Option-cases (dm_get_object_info id)) [
    | inl missing ↦ absurd (known (subst (IsTablePath id) missing (table_path id)))
    | inr (info, own) ↦
        let same : info.generic_path ≡ intercalate b'.' (parents id ++ (object_name id ∷ [])) =
          subst (IsTablePath id) own (table_path id) in
        (
          (dm_get_object_id_iff S id info _ own).1 (
              convert_object (parents id) parts (object_name id) i (object_name-is_name id)
              ∙ ap some (sym same)),
          (dm_get_object_id_iff S id info _ own).1 (
              convert_instance (parents id) parts (object_name id) n i (object_name-is_name id) d
              ∙ ap some (sym same)),
        )
  ]
