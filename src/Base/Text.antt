-- ===== src/Base/Text.antt =====
-- C strings as the list of their bytes before the NUL, and the C library functions on them.
use Prim.Native.Nat.{ℕ, zero, suc, ◌+◌, ◌-◌, ◌*◌, ◌^◌, ◌%◌}
use Prim.Native.Char.{code}
use Prim.Native.String.{String}
use mathlib.Core.Path.{◌≡◌, refl, ap}
use mathlib.Core.Logic.{inl, inr}
use mathlib.Core.Bool.{Bool, true, false, ◌&&◌, ◌||◌}
use mathlib.Core.List.{List, [], ◌∷◌, ◌++◌}
use native.Mathlib.Omega.{arith}
use tr069_manager.Base.Tests.{leb, ◌==◌, if◌then◌else◌, Bool-cases}

abbrev pub CString : Type 0
CString = List ℕ

abbrev pub codes : String → CString
codes String.[] = []
codes (String.◌∷◌ c s) = code c ∷ codes s

-- strcmp(a, b) == 0
unfoldable pub streq : CString → CString → Bool
streq [] [] = true
streq [] (y ∷ ys) = false
streq (x ∷ xs) [] = false
streq (x ∷ xs) (y ∷ ys) = x == y && streq xs ys

pub streq_refl : (a : CString) → streq a a ≡ true
unfolding streq
streq_refl [] = refl
streq_refl (x ∷ xs) = ground (arith, streq_refl xs)

pub streq→eq : (a b : CString) → streq a b ≡ true → a ≡ b
unfolding streq
streq→eq [] [] h = refl
streq→eq [] (y ∷ ys) h = cc
streq→eq (x ∷ xs) [] h = cc
streq→eq (x ∷ xs) (y ∷ ys) h = ground (arith, streq→eq xs ys)

pub streq_sym : (a b : CString) → streq a b ≡ false → streq b a ≡ false
streq_sym a b f = elim (Bool-cases (streq b a)) [
  | inl s ↦ ground (arith, f, ap (λ k. streq a k) (streq→eq b a s), streq_refl a)
  | inr s ↦ s
]

-- tolower in the C locale.
unfoldable pub to_lower : ℕ → ℕ
to_lower c = if leb b'A' c && leb c b'Z' then c + 32 else c

-- strncasecmp(a, b, n) == 0; the comparison stops at the end of either text.
unfoldable pub strncaseeq : CString → CString → ℕ → Bool
unfolding to_lower
strncaseeq a b zero = true
strncaseeq [] [] (suc n) = true
strncaseeq [] (y ∷ ys) (suc n) = false
strncaseeq (x ∷ xs) [] (suc n) = false
strncaseeq (x ∷ xs) (y ∷ ys) (suc n) = to_lower x == to_lower y && strncaseeq xs ys n

-- strncmp(a, prefix, strlen(prefix)) == 0
unfoldable pub starts_with : CString → CString → Bool
starts_with a [] = true
starts_with [] (y ∷ ys) = false
starts_with (x ∷ xs) (y ∷ ys) = x == y && starts_with xs ys

-- strstr(hay, needle) != NULL
unfoldable pub strstr : CString → CString → Bool
unfolding starts_with
strstr [] needle = starts_with [] needle
strstr (x ∷ xs) needle = starts_with (x ∷ xs) needle || strstr xs needle

pub starts_with-append : (a b : CString) → starts_with (a ++ b) a ≡ true
unfolding starts_with
starts_with-append [] b = refl
starts_with-append (x ∷ a) b = ground (arith, starts_with-append a b)

-- A text is found in every text that contains it.
pub strstr-append : (a b c : CString) → strstr (a ++ (b ++ c)) b ≡ true
unfolding strstr
strstr-append [] [] [] = refl
strstr-append [] [] (z ∷ c) = refl
strstr-append [] (y ∷ b) c = ground (arith, starts_with-append (y ∷ b) c)
strstr-append (x ∷ a) b c = ground (arith, strstr-append a b c)

-- atoi: white space, a sign, digits. The result is the int32_t's bit pattern; a value that does not
-- fit, where C leaves the result open, wraps around.
is_space : ℕ → Bool
is_space c = c == 32 || (leb 9 c && leb c 13)

is_digit : ℕ → Bool
is_digit c = leb b'0' c && leb c b'9'

digits_from : ℕ → CString → ℕ
digits_from acc [] = acc
digits_from acc (c ∷ s) =
    let rest = digits_from (acc * 10 + (c - b'0')) s in if is_digit c then rest else acc

atoi_signed : CString → ℕ
atoi_signed [] = 0
atoi_signed (c ∷ s) =
    if c == b'-'
    then (2 ^ 32 - digits_from 0 s % 2 ^ 32) % 2 ^ 32
    else if c == b'+'
    then digits_from 0 s % 2 ^ 32
    else digits_from 0 (c ∷ s) % 2 ^ 32

unfoldable pub atoi : CString → ℕ
unfolding is_space is_digit digits_from atoi_signed
atoi [] = 0
atoi (c ∷ s) = let rest = atoi s in if is_space c then rest else atoi_signed (c ∷ s)

digits_are_zero : CString → Bool
digits_are_zero [] = true
digits_are_zero (c ∷ s) =
    if c == b'-' || c == b'+' then digits_from 0 s == 0 else digits_from 0 (c ∷ s) == 0

-- atol(s) == 0; atol saturates, so that it is 0 for the digits of zero alone.
unfoldable pub atol_is_zero : CString → Bool
unfolding is_space is_digit digits_from digits_are_zero
atol_is_zero [] = true
atol_is_zero (c ∷ s) =
    let rest = atol_is_zero s in if is_space c then rest else digits_are_zero (c ∷ s)
