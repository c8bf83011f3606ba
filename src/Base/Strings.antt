-- ===== src/Base/Strings.antt =====
-- C strings: the bytes before the terminating NUL. `strcmp` of <string.h> by its sign, and the
-- tests made from it.
use Prim.Native.Nat.{ℕ, ◌+◌, compare, Ordering}
use mathlib.Core.Path.{◌≡◌, refl}
use mathlib.Core.Logic.{◌↔◌}
use mathlib.Core.Bool.{Bool, true, false, ◌&&◌}
use mathlib.Core.List.{List, [], ◌∷◌}
use mathlib.Core.Option.{Option, none, some}
use native.Mathlib.Omega.{arith}
use testbus.Base.Tests.{leb, if◌then◌else◌}

abbrev pub CString : Type 0
CString = List ℕ

-- The sign of strcmp(a, b), the bytes compared as unsigned char.
abbrev pub strcmp : CString → CString → Ordering
strcmp [] [] = Ordering.eq
strcmp [] (y ∷ ys) = Ordering.lt
strcmp (x ∷ xs) [] = Ordering.gt
strcmp (x ∷ xs) (y ∷ ys) = elim (compare x y) [
  | Ordering.lt ↦ Ordering.lt
  | Ordering.eq ↦ strcmp xs ys
  | Ordering.gt ↦ Ordering.gt
]

-- !strcmp(a, b)
unfoldable pub str_eq : CString → CString → Bool
str_eq a b = elim (strcmp a b) [ Ordering.eq ↦ true | _ ↦ false ]

-- strcmp(a, b) < 0
unfoldable pub str_lt : CString → CString → Bool
str_lt a b = elim (strcmp a b) [ Ordering.lt ↦ true | _ ↦ false ]

-- tolower of <ctype.h>, in the C locale.
unfoldable pub to_lower : ℕ → ℕ
to_lower c = if leb b'A' c && leb c b'Z' then c + 32 else c

-- ni_string_eq: NULL equals only NULL.
unfoldable pub string_eq : Option CString → Option CString → Bool
string_eq none none = true
string_eq none (some b) = false
string_eq (some a) none = false
string_eq (some a) (some b) = str_eq a b

pub strcmp_refl : (a : CString) → strcmp a a ≡ Ordering.eq
strcmp_refl [] = refl
strcmp_refl (x ∷ xs) = ground (arith, strcmp_refl xs)

pub strcmp_eq : (a b : CString) → strcmp a b ≡ Ordering.eq → a ≡ b
strcmp_eq [] [] h = refl
strcmp_eq [] (y ∷ ys) h = cc
strcmp_eq (x ∷ xs) [] h = cc
strcmp_eq (x ∷ xs) (y ∷ ys) h = ground (arith, strcmp_eq xs ys)

pub strcmp_gt : (a b : CString) → strcmp a b ≡ Ordering.gt → strcmp b a ≡ Ordering.lt
strcmp_gt [] [] h = cc
strcmp_gt [] (y ∷ ys) h = cc
strcmp_gt (x ∷ xs) [] h = refl
strcmp_gt (x ∷ xs) (y ∷ ys) h = ground (arith, strcmp_gt xs ys)

pub strcmp_lt : (a b : CString) → strcmp a b ≡ Ordering.lt → strcmp b a ≡ Ordering.gt
strcmp_lt [] [] h = cc
strcmp_lt [] (y ∷ ys) h = refl
strcmp_lt (x ∷ xs) [] h = cc
strcmp_lt (x ∷ xs) (y ∷ ys) h = ground (arith, strcmp_lt xs ys)

pub strcmp_trans :
    (a b c : CString)
    → strcmp a b ≡ Ordering.lt
    → strcmp b c ≡ Ordering.lt
    → strcmp a c ≡ Ordering.lt
strcmp_trans [] [] c h k = cc
strcmp_trans (x ∷ xs) [] c h k = cc
strcmp_trans [] (y ∷ ys) [] h k = cc
strcmp_trans [] (y ∷ ys) (z ∷ zs) h k = refl
strcmp_trans (x ∷ xs) (y ∷ ys) [] h k = cc
strcmp_trans (x ∷ xs) (y ∷ ys) (z ∷ zs) h k = ground (arith, strcmp_trans xs ys zs)

pub str_eq_iff : (a b : CString) → (str_eq a b ≡ true) ↔ (a ≡ b)
unfolding str_eq
str_eq_iff a b = (λ h. strcmp_eq a b (ground arith), λ e. rw e (ground (arith, strcmp_refl b)))

pub str_eq_refl : (a : CString) → str_eq a a ≡ true
unfolding str_eq
str_eq_refl a = ground (arith, strcmp_refl a)

pub str_lt_trans : (a b c : CString) → str_lt a b ≡ true → str_lt b c ≡ true → str_lt a c ≡ true
unfolding str_lt
str_lt_trans a b c h k = ground (arith, strcmp_trans a b c)

-- What strcmp(a, b) can return, in terms of the two tests.
pub str_lt_ne : (a b : CString) → str_lt a b ≡ true → str_eq a b ≡ false
unfolding str_lt str_eq
str_lt_ne a b h = ground arith

pub str_lt_ne' : (a b : CString) → str_lt a b ≡ true → str_eq b a ≡ false
unfolding str_lt str_eq
str_lt_ne' a b h = ground (arith, strcmp_lt a b)

pub str_lt_asym : (a b : CString) → str_lt a b ≡ true → str_lt b a ≡ false
unfolding str_lt
str_lt_asym a b h = ground (arith, strcmp_lt a b)

pub str_lt_total : (a b : CString) → str_lt a b ≡ false → str_eq a b ≡ false → str_lt b a ≡ true
unfolding str_lt str_eq
str_lt_total a b h k = ground (arith, strcmp_gt a b)

pub string_eq_iff : (a b : Option CString) → (string_eq a b ≡ true) ↔ (a ≡ b)
unfolding string_eq
string_eq_iff none none = (λ h. refl, λ e. refl)
string_eq_iff none (some b) = (λ h. cc, λ e. cc)
string_eq_iff (some a) none = (λ h. cc, λ e. cc)
string_eq_iff (some a) (some b) =
    (λ h. ground (arith, str_eq_iff a b), λ e. ground (arith, str_eq_iff a b))
