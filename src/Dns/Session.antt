-- ===== src/Dns/Session.antt =====
-- From the answer of the DNS (dmmain/cwmpd_dns.c) to the address of a session
-- (dmmain/cwmpd_client.c), by the list of addresses in the data model.
use mathlib.Core.Option.{some_inj}
use tr069_manager.Base.{
  ℕ, zero, suc, ◌≡◌, refl, sym, ap, ◌∙◌, ◌⊎◌, inl, inr, true, false, Option, none, some, List, [],
  ◌∷◌, ◌++◌, map, arith, ◌==◌, Bool-cases, Option-cases, CString, All, get_elem?, is_empty, ℤ,
}
use tr069_manager.Client.Defs as ClientDefs
use tr069_manager.Client.Address
use tr069_manager.Client.Source
use tr069_manager.Dns.Defs.{
  Node, found, Action, set_ip_list, bootstrap_inform, query, process_fd, destroy_channel, Dns, Env,
  arm,
}
use tr069_manager.Dns.Answer.{ip_list_text, written_ip, send_pending_bootstrap, take_answer}
use tr069_manager.Dns.Reading.{listed, take_answer-found}

-- The list of addresses of the data model after some actions.
abbrev pub ip_list_after : Option CString → List Action → Option CString
ip_list_after old [] = old
ip_list_after old (set_ip_list text ∷ l) = ip_list_after (some text) l
ip_list_after old (_ ∷ l) = ip_list_after old l

abbrev pub HasNoComma : CString → Type 0
HasNoComma text = All (λ b. (b == b',') ≡ false) text

abbrev pub IsPlainAddress : Option CString → Type 0
IsPlainAddress none = Unit
IsPlainAddress (some text) = HasNoComma text

-- inet_ntop and ares_inet_ntop write no comma.
abbrev pub IsPlainNode : Node → Type 0
IsPlainNode node = IsPlainAddress node.ntop × IsPlainAddress node.ares_ntop

-- Texts with a comma between them.
abbrev pub csv : List CString → CString
csv [] = []
csv (text ∷ []) = text
csv (text ∷ (t ∷ l)) = text ++ b',' ∷ csv (t ∷ l)

-- A text that is not empty and has no comma.
abbrev pub IsPlain : CString → Type 0
IsPlain text = (is_empty text ≡ false) × HasNoComma text

-- amxc_string_csv_to_var gives the texts between the commas.
abbrev pub SplitsCsv : (CString → List CString) → Type 0
SplitsCsv split = (l : List CString) → All IsPlain l → split (csv l) ≡ l

-- A node of the answer has the address.
abbrev pub Gives : CString → List Node → Type 0
Gives ip [] = ⊥
Gives ip (node ∷ nodes) = ((node.ntop ≡ some ip) ⊎ (node.ares_ntop ≡ some ip)) ⊎ Gives ip nodes

abbrev addresses : CString → List Node → List CString
addresses old nodes = map (λ a. a.0) (listed old nodes)

written_ip-HasNoComma :
    (old : CString) (node : Node)
    → HasNoComma old
    → IsPlainNode node
    → HasNoComma (written_ip old node)
written_ip-HasNoComma old node plain (ntop, ares) = elim (Option-cases node.ares_ntop) [
  | inl a ↦ elim (Option-cases node.ntop) [
    | inl n ↦ rw (a, n) plain
    | inr (text, n) ↦ rw (a, n) (rw n at ntop)
  ]
  | inr (text, a) ↦ rw a (rw a at ares)
]

addresses-IsPlain :
    (old : CString) (nodes : List Node)
    → HasNoComma old
    → All IsPlainNode nodes
    → All IsPlain (addresses old nodes)
addresses-IsPlain old [] plain all = tt
addresses-IsPlain old (node ∷ nodes) plain all =
    let ip = written_ip old node in
    let here = written_ip-HasNoComma old node plain all.0 in
    let rest = addresses-IsPlain ip nodes here all.1 in
    elim (Bool-cases (is_empty ip)) [ inl e ↦ rw e rest | inr e ↦ rw e ((e, here), rest) ]

written_ip-source :
    (old : CString) (node : Node)
    → (written_ip old node ≡ old)
      ⊎ ((node.ntop ≡ some (written_ip old node)) ⊎ (node.ares_ntop ≡ some (written_ip old node)))
written_ip-source old node = elim (Option-cases node.ares_ntop) [
  | inl a ↦ elim (Option-cases node.ntop) [
    | inl n ↦ inl (rw (a, n) refl)
    | inr (text, n) ↦ inr (inl (rw (a, n) refl))
  ]
  | inr (text, a) ↦ inr (inr (rw a refl))
]

from_written :
    (old ip : CString) (node : Node) (nodes : List Node)
    → ip ≡ written_ip old node
    → is_empty ip ≡ false
    → ((ip ≡ old) × (is_empty ip ≡ false)) ⊎ Gives ip (node ∷ nodes)
from_written old ip node nodes same full = elim (written_ip-source old node) [
  | inl kept ↦ inl (same ∙ kept, full)
  | inr (inl ntop) ↦ inr (inl (inl (ntop ∙ ap some (sym same))))
  | inr (inr ares) ↦ inr (inl (inr (ares ∙ ap some (sym same))))
]

from_later :
    (old ip : CString) (node : Node) (nodes : List Node)
    → ((ip ≡ written_ip old node) × (is_empty ip ≡ false)) ⊎ Gives ip nodes
    → ((ip ≡ old) × (is_empty ip ≡ false)) ⊎ Gives ip (node ∷ nodes)
from_later old ip node nodes (inl (same, full)) = from_written old ip node nodes same full
from_later old ip node nodes (inr later) = inr (inr later)

at_head :
    (old ip : CString) (node : Node) (nodes : List Node) (n : ℕ)
    → is_empty (written_ip old node) ≡ false
    → ((m : ℕ)
        → get_elem? (addresses (written_ip old node) nodes) m ≡ some ip
        → ((ip ≡ written_ip old node) × (is_empty ip ≡ false)) ⊎ Gives ip nodes)
    → get_elem? (written_ip old node ∷ addresses (written_ip old node) nodes) n ≡ some ip
    → ((ip ≡ old) × (is_empty ip ≡ false)) ⊎ Gives ip (node ∷ nodes)
at_head old ip node nodes zero full rest at =
    let same : ip ≡ written_ip old node = ground (arith, at) in
    from_written old ip node nodes same (rw same full)
at_head old ip node nodes (suc n) full rest at = from_later old ip node nodes (rest n at)

-- An address of the list is one of a node, or the one that the buffer held before.
addresses-Gives :
    (old ip : CString) (nodes : List Node) (n : ℕ)
    → get_elem? (addresses old nodes) n ≡ some ip
    → ((ip ≡ old) × (is_empty ip ≡ false)) ⊎ Gives ip nodes
addresses-Gives old ip [] n at = ground (arith, at)
addresses-Gives old ip (node ∷ nodes) n at =
    let w = written_ip old node in
    elim (Bool-cases (is_empty w)) [
      | inl e ↦ from_later old ip node nodes (addresses-Gives w ip nodes n (rw e at at))
      | inr e ↦ at_head old ip node nodes n e (λ m. addresses-Gives w ip nodes m) (rw e at at)
    ]

ip_list_text-csv : (l : List (CString × ℤ)) → ip_list_text l ≡ csv (map (λ a. a.0) l)
unfolding ip_list_text
ip_list_text-csv [] = refl
ip_list_text-csv ((ip, ttl) ∷ []) = refl
ip_list_text-csv ((ip, ttl) ∷ (a ∷ l)) = ap (λ t. ip ++ b',' ∷ t) (ip_list_text-csv (a ∷ l))

ip_list_after-append :
    (old : Option CString) (l : List Action) (a : Action)
    → ip_list_after old (l ++ a ∷ []) ≡ ip_list_after (ip_list_after old l) (a ∷ [])
ip_list_after-append old [] a = refl
ip_list_after-append old (set_ip_list text ∷ l) a = ip_list_after-append (some text) l a
ip_list_after-append old (bootstrap_inform ∷ l) a = ip_list_after-append old l a
ip_list_after-append old (query id host family ∷ l) a = ip_list_after-append old l a
ip_list_after-append old (process_fd id r w ∷ l) a = ip_list_after-append old l a
ip_list_after-append old (destroy_channel id ∷ l) a = ip_list_after-append old l a

-- What the data model has after an answer that is taken.
taken_list :
    (d : Env) (node : Node) (nodes : List Node) (s : Dns) (old : Option CString)
    → ip_list_after old (take_answer d false (found node nodes) s).log
      ≡ some (csv (addresses [] (node ∷ nodes)))
unfolding send_pending_bootstrap arm
taken_list d node nodes s old =
    let l = listed [] (node ∷ nodes) in
    let log = s.log ++ set_ip_list (ip_list_text l) ∷ [] in
    let one : ip_list_after old log ≡ some (ip_list_text l) =
      ip_list_after-append old s.log (set_ip_list (ip_list_text l)) in
    let two = ip_list_after-append old log bootstrap_inform in
    rw (take_answer-found d node nodes s) (ground (arith, one, two, ip_list_text-csv l))

-- Where the data model has the list that an answer left, whatever it had before, a session for a host
-- name that gets an address gets one of a node of that answer, or keeps the address of the last
-- session, which then stands in the text of the list. The texts of the nodes' addresses have no comma,
-- and the text of the list is split at its commas.
pub session_address :
    (d : Env) (s : Dns) (node : Node) (nodes : List Node) (old : Option CString)
    (e : ClientDefs.Env) (c : ClientDefs.Client) (ip : CString)
    → All IsPlainNode (node ∷ nodes)
    → SplitsCsv e.csv_to_list
    → e.acs_ip_list ≡ ip_list_after old (take_answer d false (found node nodes) s).log
    → Address.is_ipaddr e c.server_host ≡ false
    → (Address.get_acsip e c).1.1 ≡ true
    → (Address.get_acsip e c).0.server_ip ≡ some ip
    → Gives ip (node ∷ nodes) ⊎ Source.IsKept e c ip
session_address d s node nodes old e c ip plain splits list named ok got =
    elim (Source.get_acsip_source e c ip ok got) [
      | inl host ↦ ground (arith, named, host.0)
      | inr (inl kept) ↦ inr kept
      | inr (inr (text, (n, (text_is, at)))) ↦
          let l = addresses [] (node ∷ nodes) in
          let same : text ≡ csv l =
            some_inj.0 (sym text_is ∙ list ∙ taken_list d node nodes s old) in
          let parts : e.csv_to_list text ≡ l =
            ap e.csv_to_list same ∙ splits l (addresses-IsPlain [] (node ∷ nodes) tt plain) in
          let here : get_elem? l n ≡ some ip = ap (λ ips. get_elem? ips n) (sym parts) ∙ at in
          elim (addresses-Gives [] ip (node ∷ nodes) n here) [
            | inl (empty, full) ↦ ground (arith, empty, full)
            | inr gives ↦ inl gives
          ]
    ]
