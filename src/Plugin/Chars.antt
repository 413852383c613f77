-- ===== src/Plugin/Chars.antt =====
-- The characters of a path that the plugin makes (cwmp_plugin/cwmp_plugin_connection_request.c).
use mathlib.Core.Option
use mathlib.Core.Option.{some_inj}
use mathlib.Core.Path.{subst}
use tr069_manager.Base.{
  ℕ, zero, suc, ◌*◌, ◌%◌, ◌^◌, ◌<◌, ◌≡◌, refl, ap, ◌⊎◌, inl, inr, Bool, true, false, ◌||◌, none,
  some, [], ◌∷◌, arith, ◌==◌, Bool-cases, CString, codes, streq, starts_with, All, length,
  get_elem?, drop,
}
use tr069_manager.Plugin.Defs.{Env}
use tr069_manager.Plugin.Path.{
  random_token, mac_token, token_at, random_from, generate_random_url_path, xor_bits, sign_extend,
  next_seed, mac_from, generate_mac_based_url_path, new_path,
}

-- A character stands in a table.
abbrev pub occurs : ℕ → CString → Bool
occurs c [] = false
occurs c (x ∷ l) = x == c || occurs c l

abbrev pub AllOccur : CString → CString → Type 0
AllOccur token path = All (λ c. occurs c token ≡ true) path

get_elem-occurs :
    (token : CString) (i : ℕ)
    → i < length token
    → occurs (Option.get_or (get_elem? token i) 0) token ≡ true
get_elem-occurs [] i below = ground (arith, below)
get_elem-occurs (x ∷ l) zero below = ground arith
get_elem-occurs (x ∷ l) (suc i) below = ground (arith, get_elem-occurs l i (omega (arith, below)))

mod_below : (i n : ℕ) → i % suc n < suc n
mod_below i n = omega arith

token_at-occurs : (x : ℕ) (l : CString) (i : ℕ) → occurs (token_at (x ∷ l) i) (x ∷ l) ≡ true
unfolding token_at
token_at-occurs x l i = get_elem-occurs (x ∷ l) (i % length (x ∷ l)) (mod_below i (length l))

-- A path of a table's characters with a given length.
abbrev pub IsPathOf : CString → ℕ → CString → Type 0
IsPathOf token n path = (length path ≡ n) × AllOccur token path

random_from-IsPathOf : (rand : ℕ → ℕ) (x n : ℕ) → IsPathOf random_token n (random_from rand x n)
unfolding random_from
random_from-IsPathOf rand x zero = (refl, tt)
random_from-IsPathOf rand x (suc n) =
    let rest = random_from-IsPathOf rand (suc x) n in
    (ap suc rest.0, (token_at-occurs b'a' (drop 1 random_token) (rand x), rest.1))

mac_from-IsPathOf :
    (mac seed : CString) (idx n : ℕ) → IsPathOf mac_token n (mac_from mac seed idx n)
unfolding mac_from
mac_from-IsPathOf mac seed idx zero = (refl, tt)
mac_from-IsPathOf mac seed idx (suc n) =
    let (c, seed') = next_seed mac seed in
    let idx' = xor_bits 16 (idx * 2 % 2 ^ 16) (sign_extend c) in
    let rest = mac_from-IsPathOf mac seed' idx' n in
    (ap suc rest.0, (token_at-occurs b'A' (drop 1 mac_token) idx', rest.1))

is_path :
    (token made path : CString) (n : ℕ)
    → IsPathOf token n made
    → some made ≡ some path
    → IsPathOf token n path
is_path token made path n good same = subst (IsPathOf token n) (some_inj.0 same) good

-- Where the environment sets no path, a new path has 16 characters, each out of the 62 letters and
-- digits of the random paths, or each out of the 52 of the paths from the hardware address: no index
-- is out of the tables, whatever rand() and the address are.
pub new_path-IsPathOf :
    (e : Env) (type ip path : CString)
    → e.url_path ≡ none
    → new_path e type ip ≡ some path
    → IsPathOf random_token 16 path ⊎ IsPathOf mac_token 16 path
unfolding new_path generate_random_url_path generate_mac_based_url_path
new_path-IsPathOf e type ip path unset made =
    let random = random_from-IsPathOf e.rand 0 16 in
    let mac = mac_from-IsPathOf (e.hw_addr ip) (e.hw_addr ip) 59 16 in
    elim (Bool-cases (streq type (codes "Fixed-Default"))) [
      | inl f ↦ ground (arith, unset, made, f)
      | inr f ↦ elim (Bool-cases (starts_with type (codes "Random"))) [
        | inl r ↦ inl (
            is_path random_token (generate_random_url_path e) path 16 random
              (ground (arith, unset, made, f, r)))
        | inr r ↦ elim (Bool-cases (streq type (codes "Fixed-MacBased"))) [
          | inl m ↦ inr (
              is_path mac_token (generate_mac_based_url_path e ip) path 16 mac
                (ground (arith, unset, made, f, r, m)))
          | inr m ↦ inl (
              is_path random_token (generate_random_url_path e) path 16 random
                (ground (arith, unset, made, f, r, m)))
        ]
      ]
    ]

-- Where the hardware address is not found, the path that is made from it is the same on every device.
pub mac_path-constant :
    (e : Env) (ip : CString)
    → e.hw_addr ip ≡ []
    → generate_mac_based_url_path e ip ≡ codes "vfEGSLtbxk8bLtGA"
unfolding generate_mac_based_url_path mac_from token_at xor_bits sign_extend next_seed
mac_path-constant e ip unknown = rw unknown refl
