-- ===== src/Dns/Reading.antt =====
-- What an answer of c-ares becomes in dmmain/cwmpd_dns.c.
use tr069_manager.Base.{
  ◌≡◌, refl, inl, inr, false, List, [], ◌∷◌, ◌++◌, append-nil, append_assoc, if◌then◌else◌,
  Bool-cases, CString, is_empty, ℤ,
}
use tr069_manager.Dns.Defs.{Node, found, set_ip_list, Dns, Env, arm}
use tr069_manager.Dns.Answer.{
  int_max, int_lt, to_milliseconds, ip_list_text, update_dm, needs_default, default_interval,
  schedule, written_ip, read_nodes, read_ai, send_pending_bootstrap, take_answer,
}

-- The addresses of an answer, each with its TTL, from what the buffer holds before.
abbrev pub listed : CString → List Node → List (CString × ℤ)
listed old [] = []
listed old (node ∷ nodes) =
    let ip = written_ip old node in
    let rest = listed ip nodes in if is_empty ip then rest else (ip, node.ttl) ∷ rest

-- The least TTL of a list, or the one that is given.
abbrev pub least_ttl : ℤ → List (CString × ℤ) → ℤ
least_ttl t [] = t
least_ttl t ((ip, ttl) ∷ l) = least_ttl (if int_lt ttl t then ttl else t) l

read_nodes_lem :
    (old : CString) (nodes : List Node) (s : Dns)
    → read_nodes old nodes s ≡ record s {
      ainfo_list = s.ainfo_list ++ listed old nodes;
      ttl_val = least_ttl s.ttl_val (listed old nodes);
    }
unfolding read_nodes
read_nodes_lem old [] s = rw (append-nil s.ainfo_list) refl
read_nodes_lem old (node ∷ nodes) s = elim (Bool-cases (is_empty (written_ip old node))) [
  | inl e ↦ rw e (read_nodes_lem (written_ip old node) nodes s)
  | inr e ↦
      rw
        (
          e,
          read_nodes_lem (written_ip old node) nodes (record s {
            ainfo_list = s.ainfo_list ++ (written_ip old node, node.ttl) ∷ [];
            ttl_val = (if int_lt node.ttl s.ttl_val then node.ttl else s.ttl_val);
          }),
          append_assoc s.ainfo_list ((written_ip old node, node.ttl) ∷ [])
              (listed (written_ip old node) nodes),
        )
        refl
]

pub read_ai_lem :
    (nodes : List Node) (s : Dns)
    → read_ai nodes s
      ≡ record s { ainfo_list = listed [] nodes; ttl_val = least_ttl int_max (listed [] nodes) }
unfolding read_ai
read_ai_lem nodes s = read_nodes_lem [] nodes (record s { ainfo_list = []; ttl_val = int_max })

-- The TTL after which the next lookup starts: the least one of the answer, and where that is not
-- positive or the greatest int, the periodic inform interval or 300.
abbrev pub next_ttl : Env → List (CString × ℤ) → ℤ
next_ttl e l =
    if needs_default (least_ttl int_max l)
    then default_interval e.inform_interval
    else least_ttl int_max l

-- The state after an answer that is taken, up to the bootstrap.
abbrev pub after_answer : Env → List (CString × ℤ) → Dns → Dns
after_answer e l s = arm (to_milliseconds (next_ttl e l)) (record s {
  ainfo_list = [];
  ttl_val = next_ttl e l;
  log = s.log ++ set_ip_list (ip_list_text l) ∷ [];
})

-- A successful answer that is taken writes its addresses, in their order and with commas between
-- them, to the data model, and arms the timer of the next lookup with the least TTL, or with the
-- periodic inform interval or 300 seconds where that is not positive or there is none; the bootstrap
-- that was asked for is sent after that.
pub take_answer-found :
    (e : Env) (node : Node) (nodes : List Node) (s : Dns)
    → take_answer e false (found node nodes) s
      ≡ send_pending_bootstrap (after_answer e (listed [] (node ∷ nodes)) s)
unfolding take_answer schedule update_dm
take_answer-found e node nodes s = rw (read_ai_lem (node ∷ nodes) s) refl
