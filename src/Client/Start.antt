-- ===== src/Client/Start.antt =====
-- What the start of a session with the ACS leads to (client_startSession in dmmain/cwmpd_client.c).
use tr069_manager.Base.{
  ℕ, ◌^◌, ◌<◌, ◌≡◌, refl, sym, ap, ◌∙◌, ◌↔◌, true, false, some, List, [], ◌∷◌, ◌++◌, arith, ◌==◌,
  if◌then◌else◌, is_some, CString, atoi, is_nonpos,
}
use tr069_manager.Client.Defs.{Client, Action, session_timer, Env}
use tr069_manager.Client.Auth.{gen_auth_hdr}
use tr069_manager.Client.Address.{update_qos_info, get_acsip, parse_url}
use tr069_manager.Client.Session.{
  value_is, https_session_init, prepare_session, add_actions, is_nonpos_word, read_timeout,
  open_session, wan_is_up, start_session,
}

-- A session that is open: the address of the ACS is known and the session timer runs for a positive
-- time of the int.
pub record IsOpen (c : Client) (actions : List Action) : Type 0 where
  pub has_host : is_some c.server_host ≡ true
  pub has_ip : is_some c.server_ip ≡ true
  pub port_positive : is_nonpos c.server_port ≡ false
  pub timeout_positive : 0 < c.session_timeout
  pub timeout_fits : c.session_timeout < 2 ^ 31
  pub connects_to_port : c.connect_info.port ≡ c.server_port
  pub before : List Action
  pub timer_starts : actions ≡ before ++ session_timer c.session_timeout ∷ []

read_timeout_positive : (e : Env) (old : ℕ) → 0 < read_timeout e old
unfolding read_timeout
read_timeout_positive e old = ground arith

read_timeout_fits : (e : Env) (old : ℕ) → read_timeout e old < 2 ^ 31
unfolding read_timeout
read_timeout_fits e old = ground arith

prepare_SameAddress :
    (e : Env) (c : Client)
    → ((prepare_session e c).server_host ≡ c.server_host)
      × (((prepare_session e c).server_ip ≡ c.server_ip)
          × (((prepare_session e c).server_port ≡ c.server_port)
              × ((prepare_session e c).connect_info.port ≡ c.server_port)))
unfolding prepare_session https_session_init gen_auth_hdr
prepare_SameAddress e c = (ground arith, (ground arith, (ground arith, ground arith)))

parse_url-ok :
    (e : Env) (c : Client)
    → (parse_url e c).1.1 ≡ true
    → (is_some (parse_url e c).0.server_host ≡ true)
      × (is_nonpos (parse_url e c).0.server_port ≡ false)
unfolding parse_url update_qos_info
parse_url-ok e c ok = (ground (arith, ok), ground (arith, ok))

get_acsip-ok :
    (e : Env) (c : Client)
    → (get_acsip e c).1.1 ≡ true
    → ((get_acsip e c).0.server_host ≡ c.server_host)
      × (((get_acsip e c).0.server_port ≡ c.server_port)
          × (is_some (get_acsip e c).0.server_ip ≡ true))
unfolding get_acsip update_qos_info
get_acsip-ok e c ok = (ground (arith, ok), (ground (arith, ok), ground (arith, ok)))

open_session_lem :
    (e : Env) (c : Client) (before : List Action)
    → is_some c.server_host ≡ true
    → is_some c.server_ip ≡ true
    → is_nonpos c.server_port ≡ false
    → IsOpen (open_session e c).0 (before ++ (open_session e c).1.0)
unfolding open_session
open_session_lem e c before host ip port =
    let same = prepare_SameAddress e c in
    record {
      has_host = rw same.0 host;
      has_ip = rw same.1.0 ip;
      port_positive = rw same.1.1.0 port;
      timeout_positive = read_timeout_positive e _;
      timeout_fits = read_timeout_fits e _;
      connects_to_port = same.1.1.1 ∙ sym same.1.1.0;
      before = before;
      timer_starts = refl;
    }

-- The steps of client_startSession that can fail.
abbrev pub CanStart : Env → Client → Type 0
CanStart e c =
    let parsed = parse_url e c in
    (value_is e.connection_request_host wan_is_up ≡ true)
    × ((parsed.1.1 ≡ true) × ((get_acsip e parsed.0).1.1 ≡ true))

start_session_iff : (e : Env) (c : Client) → ((start_session e c).1.1 ≡ true) ↔ CanStart e c
unfolding start_session open_session
start_session_iff e c = ground arith

start_session_lem :
    (e : Env) (c : Client)
    → CanStart e c
    → let parsed = parse_url e c in
      let found = get_acsip e parsed.0 in
      start_session e c ≡ add_actions (parsed.1.0 ++ found.1.0) (open_session e found.0)
unfolding start_session
start_session_lem e c (up, (p, f)) = ground (arith, up, p, f)

-- A start that reports success leaves the session open: the host of the ACS and an IP address are
-- known, the port is positive and the one that is connected to, and the last thing done is to start
-- the session timer with the stored timeout, which is positive as an int.
pub start_session-IsOpen :
    (e : Env) (c : Client)
    → (start_session e c).1.1 ≡ true
    → IsOpen (start_session e c).0 (start_session e c).1.0
start_session-IsOpen e c ok =
    let can = (start_session_iff e c).0 ok in
    let p = parse_url-ok e c can.1.0 in
    let f = get_acsip-ok e (parse_url e c).0 can.1.1 in
    rw (start_session_lem e c can)
      (open_session_lem e (get_acsip e (parse_url e c).0).0 _ (rw f.0 p.0) f.1.1 (rw f.1.0 p.1))

prepare_SameTimeout :
    (e : Env) (c : Client) → (prepare_session e c).session_timeout ≡ c.session_timeout
unfolding prepare_session https_session_init gen_auth_hdr
prepare_SameTimeout e c = ground arith

found_SameTimeout :
    (e : Env) (c : Client) → (get_acsip e (parse_url e c).0).0.session_timeout ≡ c.session_timeout
unfolding parse_url get_acsip update_qos_info
found_SameTimeout e c = ground arith

started_timeout :
    (e : Env) (c : Client)
    → (start_session e c).1.1 ≡ true
    → (start_session e c).0.session_timeout ≡ read_timeout e c.session_timeout
unfolding open_session
started_timeout e c ok =
    let found = (get_acsip e (parse_url e c).0).0 in
    rw (start_session_lem e c ((start_session_iff e c).0 ok))
      (ap (read_timeout e) (prepare_SameTimeout e found ∙ found_SameTimeout e c))

-- A session that starts with a stored timeout of 0, as the first one of the daemon does, has the
-- timeout 45 whatever the data model says; one that starts with any other has the data model's where
-- that can be read and is positive as an int.
pub session_timeout_source :
    (e : Env) (c : Client) (text : CString)
    → (start_session e c).1.1 ≡ true
    → e.session_timeout_value ≡ some text
    → is_nonpos_word (atoi text) ≡ false
    → (start_session e c).0.session_timeout ≡ (if c.session_timeout == 0 then 45 else atoi text)
unfolding read_timeout
session_timeout_source e c text ok value positive =
    rw (started_timeout e c ok) (ground (arith, value, positive))
