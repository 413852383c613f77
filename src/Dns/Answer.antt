-- ===== src/Dns/Answer.antt =====
-- The answer of a query in dmmain/cwmpd_dns.c: its addresses, the data model, the next lookup.
use mathlib.Core.Option
use tr069_manager.Base.{
  ℕ, suc, ◌-◌, ◌*◌, ◌%◌, ◌^◌, Bool, true, false, ◌||◌, Option, none, some, List, [], ◌∷◌, ◌++◌, pos,
  negsuc, ltb, ◌==◌, if◌then◌else◌, CString, atoi, is_empty, ℤ,
}
use tr069_manager.Dns.Defs.{
  Node, Answer, failed, found, set_ip_list, bootstrap_inform, Dns, Env, perform, arm, retry_delay,
}

abbrev pub int_max : ℤ
int_max = pos (2 ^ 31 - 1)

-- a < b
abbrev pub int_lt : ℤ → ℤ → Bool
int_lt (pos m) (pos n) = ltb m n
int_lt (pos m) (negsuc n) = false
int_lt (negsuc m) (pos n) = true
int_lt (negsuc m) (negsuc n) = ltb n m

-- The int of its word.
abbrev pub int_of_word : ℕ → ℤ
int_of_word w = if ltb w (2 ^ 31) then pos w else negsuc (2 ^ 32 - w - 1)

-- z * 1000, as the unsigned int that amxp_timer_start takes.
abbrev pub to_milliseconds : ℤ → ℕ
to_milliseconds (pos n) = n * 1000 % 2 ^ 32
to_milliseconds (negsuc n) = (2 ^ 32 - suc n * 1000 % 2 ^ 32) % 2 ^ 32

-- The loop of cwmp_dns_update_dm.
unfoldable pub ip_list_text : List (CString × ℤ) → CString
ip_list_text [] = []
ip_list_text ((ip, ttl) ∷ []) = ip
ip_list_text ((ip, ttl) ∷ (a ∷ l)) = ip ++ b',' ∷ ip_list_text (a ∷ l)

-- cwmp_dns_update_dm
unfoldable pub update_dm : Dns → Dns
update_dm s = record (perform (set_ip_list (ip_list_text s.ainfo_list)) s) { ainfo_list = [] }

abbrev pub needs_default : ℤ → Bool
needs_default (negsuc n) = true
needs_default (pos n) = n == 0 || n == 2 ^ 31 - 1

abbrev pub default_interval : Option CString → ℤ
default_interval none = pos 300
default_interval (some text) = int_of_word (atoi text)

-- cwmp_dns_schedule
unfoldable pub schedule : Env → Dns → Dns
schedule e s =
    let ttl = (if needs_default s.ttl_val then default_interval e.inform_interval else s.ttl_val) in
    arm (to_milliseconds ttl) (record s { ttl_val = ttl })

-- What the buffer `ip` holds after a node.
abbrev pub written_ip : CString → Node → CString
written_ip old node = Option.get_or node.ares_ntop (Option.get_or node.ntop old)

-- The loop of cwmp_dns_read_ai, with the buffer `ip`.
unfoldable pub read_nodes : CString → List Node → Dns → Dns
read_nodes old [] s = s
read_nodes old (node ∷ nodes) s =
    let ip = written_ip old node in
    read_nodes ip nodes (
      if is_empty ip then s else record s {
        ainfo_list = s.ainfo_list ++ (ip, node.ttl) ∷ [];
        ttl_val = (if int_lt node.ttl s.ttl_val then node.ttl else s.ttl_val);
      })

-- cwmp_dns_read_ai
unfoldable pub read_ai : List Node → Dns → Dns
read_ai nodes s = read_nodes [] nodes (record s { ainfo_list = []; ttl_val = int_max })

-- The end of cwmp_dns_resolve_cb and of cwmp_dns_resolve with a static address.
unfoldable pub send_pending_bootstrap : Dns → Dns
send_pending_bootstrap s =
    if s.send_bootstrap then record (perform bootstrap_inform s) { send_bootstrap = false } else s

-- cwmp_dns_resolve_cb, once it has dealt with the timers of its resolver
unfoldable pub take_answer : Env → Bool → Answer → Dns → Dns
take_answer e true answer s = s
take_answer e false failed s = send_pending_bootstrap (arm retry_delay s)
take_answer e false (found node nodes) s =
    send_pending_bootstrap (schedule e (update_dm (read_ai (node ∷ nodes) s)))
