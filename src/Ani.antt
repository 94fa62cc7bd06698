-- ===== src/Ani.antt =====
-- ani.c: the path of an ANI instance and that of its TC.Authentication object.
use tr181_xpon.Base.{
  ℕ, ◌≡◌, refl, Bool, true, none, some, [], ◌∷◌, ◌++◌, arith, Text, codes, ◌==◌, not, &&-true,
  append-nil_text,
}
use tr181_xpon.Amxc.{Strings, IsLawful, all, strip_prefix, split_first}

abbrev pub dot_tc_authentication : Text
dot_tc_authentication = codes ".TC.Authentication"

-- The result, and the string that *ani_path holds, also on failure.
unfoldable pub ani_strip_tc_authentication : Strings → Text → Bool × Text
ani_strip_tc_authentication S ani_auth_path =
    let (ani_path, replacements) = S.replace ani_auth_path dot_tc_authentication [] 1 in
    (replacements == 1, ani_path)

unfoldable pub ani_append_tc_authentication : Text → Text
ani_append_tc_authentication ani_path = ani_path ++ dot_tc_authentication

-- A path without the letter T, such as every path of an ANI instance.
abbrev pub has_no_t : Text → Bool
has_no_t = all (λ c. not (c == b'T'))

strip_prefix_inside :
    (c : ℕ) (p : Text)
    → has_no_t p ≡ true
    → strip_prefix dot_tc_authentication (c ∷ (p ++ dot_tc_authentication)) ≡ none
strip_prefix_inside c [] h = ground arith
strip_prefix_inside c (d ∷ p) h =
    let differs : (not (d == b'T')) ≡ true = (&&-true (not (d == b'T')) _ h).0 in ground arith

split_first-append :
    (p : Text)
    → has_no_t p ≡ true
    → split_first dot_tc_authentication (p ++ dot_tc_authentication) ≡ some (p, [])
split_first-append [] h = refl
split_first-append (c ∷ p) h =
    let rest = (&&-true (not (c == b'T')) _ h).1 in
    ground (arith, strip_prefix_inside c p rest, split_first-append p rest)

-- Stripping undoes appending, for a path without the letter T.
pub strip-append :
    (S : Strings)
    → IsLawful S
    → (p : Text) → has_no_t p ≡ true
    → ani_strip_tc_authentication S (ani_append_tc_authentication p) ≡ (true, p)
unfolding ani_strip_tc_authentication ani_append_tc_authentication
strip-append S L p h = rw (
  L.replace_first (p ++ dot_tc_authentication) dot_tc_authentication [],
  split_first-append p h,
  append-nil_text p,
)
