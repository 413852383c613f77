-- ===== src/Requests.antt =====
-- src/dmmain/cwmpd_connectionsecurity.c: how many connection requests are let in. Times are the
-- seconds of `time()`. The data model's answer to DM_ENG_GetParameterValues is the list of values
-- that it returned, and `default_max`, `default_freq` are the macros of the engine's headers.
-- Allocation is taken to succeed.
pub mod Window
mod Examples
use tr069_manager.Base.{
  ℕ, ◌-◌, ◌*◌, ◌%◌, ◌^◌, Bool, true, false, ◌&&◌, ◌||◌, List, [], ◌∷◌, ◌++◌, ltb, leb,
  if◌then◌else◌, CString, atoi, length,
}

-- Oldest first.
abbrev pub Timestamps : Type 0
Timestamps = List ℕ

unfoldable pub init_connection_timestamp_list : Timestamps → Timestamps
init_connection_timestamp_list l = []

unfoldable pub max_connections_add : ℕ → Timestamps → Timestamps
max_connections_add now l = l ++ now ∷ []

pub max_connections_cleanup : Timestamps → Timestamps
max_connections_cleanup l = []

-- now - t > (int) fc, where `fc` is an unsigned int: above 2 ^ 31 the int is negative.
longer_than : ℕ → ℕ → Bool
longer_than fc age = leb (2 ^ 31) fc || ltb fc age

unfoldable pub is_stale : ℕ → ℕ → ℕ → Bool
unfolding longer_than
is_stale now fc t = (ltb t now && longer_than fc (now - t)) || ltb now t

unfoldable pub drop_stale : ℕ → ℕ → Timestamps → Timestamps
drop_stale now fc [] = []
drop_stale now fc (t ∷ l) =
    let rest = drop_stale now fc l in if is_stale now fc t then rest else t ∷ rest

-- The pair of limits (mc, fc): the values of the data model if there are two, or the defaults.
unfoldable pub read_limits : ℕ → ℕ → List CString → ℕ × ℕ
read_limits default_max default_freq [] = (default_max, default_freq)
read_limits default_max default_freq (a ∷ []) = (default_max, default_freq)
read_limits default_max default_freq (a ∷ (b ∷ rest)) = (atoi a, atoi b)

-- size > 2 * mc, in unsigned int.
unfoldable pub over_limit : ℕ → Timestamps → Bool
over_limit mc l = ltb (2 * mc % 2 ^ 32) (length l)

unfoldable pub max_connections_reached : ℕ → ℕ × ℕ → Timestamps → Timestamps × Bool
max_connections_reached now (mc, fc) l =
    let kept = drop_stale now fc l in (kept, over_limit mc kept)

-- cwmp_server_check_availability: `later` is what the second call of `time()` returns. The result
-- is true for cwmp_status_ok.
unfoldable pub check_availability : ℕ → ℕ → ℕ × ℕ → Timestamps → Timestamps × Bool
check_availability now later limits l =
    let (kept, reached) = max_connections_reached now limits l in
    if reached then (kept, false) else (max_connections_add later kept, true)
