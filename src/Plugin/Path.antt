-- ===== src/Plugin/Path.antt =====
-- cwmp_plugin/cwmp_plugin_connection_request.c: the path of the connection request.
use mathlib.Core.Option
use tr069_manager.Base.{
  ℕ, zero, suc, ◌+◌, ◌-◌, ◌*◌, ◌/◌, ◌%◌, ◌^◌, Option, none, some, [], ◌∷◌, ◌++◌, ltb, if◌then◌else◌,
  CString, codes, streq, starts_with, length, get_elem?,
}
use tr069_manager.Plugin.Defs.{path_changed, Plugin, Env}

abbrev pub cpe_url_size : ℕ
cpe_url_size = 16

abbrev pub random_token : CString
random_token = codes "abcdefghijklmnopqrstuvwxyzABCDEFGHIJKLMNOPQRSTUVWXYZ1234567890"

abbrev pub mac_token : CString
mac_token = codes "ABCDE67FGHqrtuvwSTU48VWabcdefIJKL39MNPQRghijkmnpxyz2"

-- The character of a table at an index that the code keeps below the table's length.
unfoldable pub token_at : CString → ℕ → ℕ
token_at token i = Option.get_or (get_elem? token (i % length token)) 0

-- The loop of generate_random_url_path over the calls of rand().
unfoldable pub random_from : (ℕ → ℕ) → ℕ → ℕ → CString
random_from rand x zero = []
random_from rand x (suc n) = token_at random_token (rand x) ∷ random_from rand (suc x) n

-- generate_random_url_path
unfoldable pub generate_random_url_path : Env → CString
generate_random_url_path e = random_from e.rand 0 cpe_url_size

-- x ^ y on the 16 bits of an unsigned short, bit by bit
unfoldable pub xor_bits : ℕ → ℕ → ℕ → ℕ
xor_bits zero a b = 0
xor_bits (suc n) a b = let rest = xor_bits n (a / 2) (b / 2) in (a % 2 + b % 2) % 2 + 2 * rest

-- A char as an int, on 16 bits.
unfoldable pub sign_extend : ℕ → ℕ
sign_extend c = if ltb c 128 then c else c + (2 ^ 16 - 2 ^ 8)

-- The text where the loop reads next, and its byte: at the end it starts again, and reads the NUL of
-- an empty text.
unfoldable pub next_seed : CString → CString → ℕ × CString
next_seed mac (c ∷ seed) = (c, seed)
next_seed [] [] = (0, [])
next_seed (c ∷ mac) [] = (c, mac)

-- The loop of generate_mac_based_url_path.
unfoldable pub mac_from : CString → CString → ℕ → ℕ → CString
mac_from mac seed idx zero = []
mac_from mac seed idx (suc n) =
    let (c, seed') = next_seed mac seed in
    let idx' = xor_bits 16 (idx * 2 % 2 ^ 16) (sign_extend c) in
    token_at mac_token idx' ∷ mac_from mac seed' idx' n

-- generate_mac_based_url_path
unfoldable pub generate_mac_based_url_path : Env → CString → CString
generate_mac_based_url_path e ip = mac_from (e.hw_addr ip) (e.hw_addr ip) 59 cpe_url_size

-- The path that cwmp_plugin_create_conreq_path makes, if it makes one.
unfoldable pub new_path : Env → CString → CString → Option CString
new_path e type ip = elim e.url_path [
  | some path ↦ some path
  | none ↦
      if streq type (codes "Fixed-Default")
      then none
      else if starts_with type (codes "Random")
      then some (generate_random_url_path e)
      else if streq type (codes "Fixed-MacBased")
      then some (generate_mac_based_url_path e ip)
      else some (generate_random_url_path e)
]

-- A transaction that writes ConnRequestPath; the data model tells of a new value.
unfoldable pub set_path : CString → Plugin → Plugin
set_path path s =
    if streq s.path path
    then s
    else record s { path = path; changes = s.changes ++ path_changed ∷ [] }

-- cwmp_plugin_create_conreq_path
unfoldable pub create_conreq_path : Env → CString → Plugin → Plugin
create_conreq_path e ip s = elim (new_path e s.path_type ip) [
  | none ↦ s
  | some path ↦ set_path path s
]
