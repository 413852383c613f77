-- ===== src/Client/Source.antt =====
-- Where the IP address of a session comes from (cwmp_client_get_acsip in dmmain/cwmpd_client.c).
use tr069_manager.Base.{
  ℕ, ◌%◌, ◌≡◌, ◌⊎◌, inl, inr, true, false, Option, none, some, ◌++◌, arith, Bool-cases,
  Option-cases, CString, strstr, strstr-append, length, get_elem?, is_empty,
}
use tr069_manager.Client.Defs.{Client, Env}
use tr069_manager.Client.Address.{
  is_ipaddr, update_qos_info, get_random_ip, last_ip, choose_ip, get_acsip,
}
use tr069_manager.Client.Session.{value_is}

-- An address that is one of the list of the data model.
abbrev pub IsListed : Env → CString → Type 0
IsListed e ip =
    (text : CString) × ((n : ℕ) × ((e.acs_ip_list ≡ some text)
        × (get_elem? (e.csv_to_list text) n ≡ some ip)))

-- The address of the last session, where it stands somewhere in the text of the list.
abbrev pub IsKept : Env → Client → CString → Type 0
IsKept e c ip = (last_ip e c ≡ some ip) × (value_is e.acs_ip_list (λ text. strstr text ip) ≡ true)

random-IsListed : (e : Env) (ip : CString) → get_random_ip e none ≡ some ip → IsListed e ip
unfolding get_random_ip
random-IsListed e ip r = elim (Option-cases e.acs_ip_list) [
  | inl v ↦ ground (arith, v, r)
  | inr (text, v) ↦ (text, (e.random % length (e.csv_to_list text), (v, ground (arith, v, r))))
]

chosen_source :
    (e : Env) (last : Option CString) (ip : CString)
    → choose_ip e last ≡ some (some ip)
    → ((last ≡ some ip) × (value_is e.acs_ip_list (λ text. strstr text ip) ≡ true))
      ⊎ (get_random_ip e none ≡ some ip)
unfolding choose_ip
chosen_source e none ip s = inr (ground (arith, s))
chosen_source e (some last) ip s = ground (arith, s)

chosen_of_ok :
    (e : Env) (c : Client) (ip : CString)
    → is_ipaddr e c.server_host ≡ false
    → (get_acsip e c).1.1 ≡ true
    → (get_acsip e c).0.server_ip ≡ some ip
    → choose_ip e (last_ip e c) ≡ some (some ip)
unfolding get_acsip update_qos_info
chosen_of_ok e c ip host ok found = elim (Option-cases (choose_ip e (last_ip e c))) [
  | inl v ↦ ground (arith, host, ok, v)
  | inr (chosen, v) ↦ ground (arith, host, ok, found, v)
]

-- The IP address of a session that gets one is the host itself where that is an IP address, the
-- address of the last session where that stands in the text of the data model's list, or one of the
-- addresses of that list.
pub get_acsip_source :
    (e : Env) (c : Client) (ip : CString)
    → (get_acsip e c).1.1 ≡ true
    → (get_acsip e c).0.server_ip ≡ some ip
    → ((is_ipaddr e c.server_host ≡ true) × (c.server_host ≡ some ip))
      ⊎ (IsKept e c ip ⊎ IsListed e ip)
unfolding get_acsip update_qos_info
get_acsip_source e c ip ok found = elim (Bool-cases (is_ipaddr e c.server_host)) [
  | inl host ↦ inl (host, ground (arith, host, found))
  | inr host ↦ elim (chosen_source e (last_ip e c) ip (chosen_of_ok e c ip host ok found)) [
    | inl kept ↦ inr (inl kept)
    | inr chosen ↦ inr (inr (random-IsListed e ip chosen))
  ]
]

-- For a host name, the address of the last session is kept wherever its characters stand in the text
-- of the list, be it as a part of another address.
pub kept_inside :
    (e : Env) (c : Client) (a ip b : CString)
    → is_ipaddr e c.server_host ≡ false
    → e.acs_ip ≡ some ip
    → is_empty ip ≡ false
    → e.acs_ip_list ≡ some (a ++ (ip ++ b))
    → ((get_acsip e c).0.server_ip ≡ some ip) × ((get_acsip e c).1.1 ≡ true)
unfolding get_acsip choose_ip update_qos_info
kept_inside e c a ip b host last full text = (
  ground (arith, host, last, full, text, strstr-append a ip b),
  ground (arith, host, last, full, text, strstr-append a ip b),
)
