-- ===== src/Client/Address.antt =====
-- The address of the ACS in dmmain/cwmpd_client.c: its URL, its IP address, and what the QoS of the
-- device is told of it; the tests of an IP address are those of dmmain/cwmpd_main.c.
use tr069_manager.Base.{
  ℕ, ◌%◌, Bool, true, false, not, ◌&&◌, ◌||◌, Option, none, some, List, [], ◌∷◌, pos, negsuc, ltb,
  ◌==◌, if◌then◌else◌, is_some, CString, streq, strstr, length, get_elem?, is_empty, ℤ, is_nonpos,
}
use tr069_manager.Client.Defs.{Client, Action, update_qos, Env}

-- is_ipaddr; `none` is NULL.
unfoldable pub is_ipaddr : Env → Option CString → Bool
is_ipaddr e none = false
is_ipaddr e (some ip) = e.is_ipv4 ip || e.is_ipv6 ip

-- ip_type, with 0 for its -1
unfoldable pub ip_type : Env → Option CString → ℕ
ip_type e none = 0
ip_type e (some ip) = if e.is_ipv4 ip then 4 else if e.is_ipv6 ip then 6 else 0

abbrev pub same_text : Option CString → Option CString → Bool
same_text none none = true
same_text none (some b) = false
same_text (some a) none = false
same_text (some a) (some b) = streq a b

abbrev pub int_eq : ℤ → ℤ → Bool
int_eq (pos m) (pos n) = m == n
int_eq (pos m) (negsuc n) = false
int_eq (negsuc m) (pos n) = false
int_eq (negsuc m) (negsuc n) = m == n

-- update_qos_info
unfoldable pub update_qos_info : Env → Option CString → ℤ → Client → Client × List Action
update_qos_info e ip port c = if same_text c.qos_ip ip && int_eq c.qos_port port then (c, []) else (
  record c { qos_ip = ip; qos_port = port },
  update_qos (is_ipaddr e ip && not (is_nonpos port)) ip port (ip_type e ip) ∷ [],
)

-- cwmp_get_random_ip: the new value of *ip.
unfoldable pub get_random_ip : Env → Option CString → Option CString
get_random_ip e ip = elim e.acs_ip_list [
  | none ↦ ip
  | some text ↦
      let found = get_elem? (e.csv_to_list text) (e.random % length (e.csv_to_list text)) in
      if ltb 1 (length text) then elim found [ none ↦ ip | some chosen ↦ some chosen ] else ip
]

-- The IP address of the last session: a call that fails leaves the variable as it is.
abbrev pub last_ip : Env → Client → Option CString
last_ip e c = elim e.acs_ip [ none ↦ c.server_ip | some ip ↦ some ip ]

-- The address for a server that is named by a host name; the outer `none` is the early return.
unfoldable pub choose_ip : Env → Option CString → Option (Option CString)
choose_ip e none = some (get_random_ip e none)
choose_ip e (some ip) = if is_empty ip then some (get_random_ip e none) else elim e.acs_ip_list [
  | none ↦ none
  | some ips ↦ some (if strstr ips ip then some ip else get_random_ip e none)
]

abbrev pub settle_ip : Env → Option CString → Client → Client × (List Action × Bool)
settle_ip e ip c =
    let told = update_qos_info e ip c.server_port (record c { server_ip = ip }) in
    (told.0, (told.1, is_some ip))

-- cwmp_client_get_acsip; true for cwmp_status_ok.
unfoldable pub get_acsip : Env → Client → Client × (List Action × Bool)
get_acsip e c =
    if is_ipaddr e c.server_host
    then settle_ip e c.server_host c
    else elim (choose_ip e (last_ip e c)) [
      | none ↦ (record c { server_ip = last_ip e c }, ([], false))
      | some ip ↦ settle_ip e ip c
    ]

-- The path with the slash that lws_parse_uri takes away.
abbrev pub with_slash : CString → CString
with_slash [] = b'/' ∷ []
with_slash (ch ∷ path) = if ch == b'/' then ch ∷ path else b'/' ∷ ch ∷ path

abbrev pub path_of : Option CString → Option CString → Option CString
path_of none old = old
path_of (some path) old = some (with_slash path)

abbrev pub default_port : ℤ
default_port = pos 7547

-- cwmp_client_parse_url; true for cwmp_status_ok.
unfoldable pub parse_url : Env → Client → Client × (List Action × Bool)
parse_url e c = elim e.url [
  | none ↦ (c, ([], false))
  | some url ↦ elim (e.parse_uri url) [
    | none ↦ (c, ([], false))
    | some uri ↦
        let port = (if is_nonpos uri.port then default_port else uri.port) in
        let told = update_qos_info e c.server_ip port (record c {
          server_host = some uri.host;
          server_path = path_of uri.path c.server_path;
          server_port = port;
          server_scheme = uri.scheme;
        }) in
        (told.0, (told.1, true))
  ]
]
