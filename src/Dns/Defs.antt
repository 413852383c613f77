-- ===== src/Dns/Defs.antt =====
-- The state of dmmain/cwmpd_dns.c and what its functions see and do.
use tr069_manager.Base.{ℕ, ◌*◌, Bool, Option, some, List, [], ◌∷◌, ◌++◌, if◌then◌else◌, CString, ℤ}

-- resolver_t, with the address `id` in place of the pointer. A timer that is not NULL is `true`.
pub record Resolver : Type 0 where
  pub id : ℕ
  pub host : CString
  pub dirty : Bool
  pub pending : Bool
  pub fd_events : List (ℕ × ℕ)  -- event_list: the socket and its flags
  pub clean_timer : Bool
  pub timeout_timer : Bool

-- A node of the answer: the addresses that inet_ntop and ares_inet_ntop write, `none` where one
-- fails, and its TTL.
pub record Node : Type 0 where
  pub ntop : Option CString
  pub ares_ntop : Option CString
  pub ttl : ℤ

-- The result of a query: `failed` is any other status, and a success with no node.
pub data Answer : Type 0 where
  failed : Answer
  found : Node → List Node → Answer

pub data Action : Type 0 where
  set_ip_list : CString → Action  -- DM_ENG_SetManagementServerValue(DM_ENG_ACSIPLIST)
  bootstrap_inform : Action  -- DM_ENG_InformMessageScheduler_bootstrapInform
  query : ℕ → CString → ℕ → Action  -- ares_getaddrinfo with the family 0, 4 or 6
  process_fd : ℕ → Option ℕ → Option ℕ → Action  -- ares_process_fd
  destroy_channel : ℕ → Action  -- ares_destroy

-- The static variables. `ttl_timer` is `none` where the timer does not run, else the time in
-- milliseconds that it was started with; `has_timer` says that it is made. `next_id` is the next
-- address that is free.
pub record Dns : Type 0 where
  pub ttl_val : ℤ
  pub ttl_timer : Option ℕ
  pub has_timer : Bool
  pub ainfo_list : List (CString × ℤ)
  pub resolvers : List Resolver
  pub send_bootstrap : Bool
  pub next_id : ℕ
  pub log : List Action

-- What the calls return in one run of a function. A value of the management server is `none` where
-- the call fails or gives NULL.
pub record Env : Type 0 where
  pub url : Option CString
  pub parse_host : Option CString → Option CString  -- lws_parse_uri, of NULL too
  pub is_ipv4 : CString → Bool  -- inet_pton
  pub is_ipv6 : CString → Bool
  pub inform_interval : Option CString
  pub address_family : Option CString
  pub init_fails : Bool  -- ares_init_options
  pub answer_at_once : Option Answer  -- the callback that ares_getaddrinfo makes itself
  pub remaining_time : ℕ  -- amxp_timer_remaining_time(dns_ttl_timer)

-- An action is done.
abbrev pub perform : Action → Dns → Dns
perform action s = record s { log = s.log ++ action ∷ [] }

-- amxp_timer_start(dns_ttl_timer, t): without a timer nothing happens.
unfoldable pub arm : ℕ → Dns → Dns
arm t s = if s.has_timer then record s { ttl_timer = some t } else s

abbrev pub retry_delay : ℕ
retry_delay = 5 * 1000
