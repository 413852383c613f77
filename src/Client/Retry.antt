-- ===== src/Client/Retry.antt =====
-- The retries of a message that the ACS refuses with 401 (dmmain/cwmpd_client.c).
use tr069_manager.Base.{
  ℕ, zero, suc, ◌≡◌, refl, ap, Bool, true, false, some, List, [], ◌∷◌, ◌++◌, arith, if◌then◌else◌,
  CString,
}
use tr069_manager.Client.Defs.{
  AuthType, Client, Action, session_timer, auth_retry_timer, kill_connection, connect, Env,
}
use tr069_manager.Client.Auth.{make_header, gen_auth_hdr, challenge_type, get_authentication_hdr}
use tr069_manager.Client.Callbacks.{connection_established, is_unsupported, connection_closed}
use tr069_manager.Client.Session.{send_pending, auth_retry}
use tr069_manager.Client.Closing.{answered}

-- Whether the retry timer is started.
abbrev pub asks_retry : List Action → Bool
asks_retry [] = false
asks_retry (act ∷ acts) = elim act [ auth_retry_timer ↦ true | _ ↦ asks_retry acts ]

-- One response and what it leads to: its headers, the end of its connection, and, where the retry
-- timer was started, the retry.
unfoldable pub refused_once : Env → Client → Client × List Action
refused_once e c =
    let c' = answered e c in
    let retried = auth_retry e c' in
    let before = (connection_established e c).actions ++ connection_closed c' in
    if asks_retry (connection_closed c') then (retried.0, before ++ retried.1.0) else (c', before)

unfoldable pub refused_times : ℕ → Env → Client → Client × List Action
refused_times zero e c = (c, [])
refused_times (suc n) e c =
    let (c', actions) = refused_once e c in
    let rest = refused_times n e c' in (rest.0, actions ++ rest.1)

-- An ACS that refuses every message with a challenge for which there is an Authorization header.
pub record KeepsRefusing (e : Env) (c : Client) : Type 0 where
  pub challenge : CString
  pub header : CString
  pub username : CString
  pub password : CString
  pub message : CString
  pub host : CString
  pub status : e.response_code ≡ 401
  pub challenge_is : e.www_authenticate ≡ some challenge
  pub supported : is_unsupported (challenge_type challenge) ≡ false
  pub username_is : e.username ≡ some username
  pub password_is : e.password ≡ some password
  pub header_is :
      make_header e (challenge_type challenge) challenge c.server_path username password
      ≡ some header
  pub pending_is : c.pending_msg ≡ some message
  pub host_is : c.server_host ≡ some host
  pub connects : e.connect_fails ≡ false

-- What one refused message makes.
abbrev pub one_retry : Client → CString → List Action
one_retry c host =
    kill_connection
    ∷ auth_retry_timer
    ∷ connect (record c.connect_info { address = some host })
    ∷ session_timer c.session_timeout
    ∷ []

-- The client after a refused message.
abbrev pub after_refusal : Client → AuthType → CString → CString → Client
after_refusal c kind header host = record c {
  auth_type = kind;
  auth_hdr = some header;
  http_status = 401;
  connect_info = record c.connect_info { address = some host };
}

refused_once_lem :
    (e : Env) (c : Client)
    → (k : KeepsRefusing e c)
    → refused_once e c
      ≡ (after_refusal c (challenge_type k.challenge) k.header k.host, one_retry c k.host)
unfolding refused_once connection_closed connection_established get_authentication_hdr gen_auth_hdr
    auth_retry send_pending
refused_once_lem e c k = ground (
  arith, k.status, k.challenge_is, k.supported, k.username_is, k.password_is, k.header_is,
  k.pending_is, k.host_is, k.connects,
)

still_KeepsRefusing :
    (e : Env) (c : Client)
    → (k : KeepsRefusing e c)
    → KeepsRefusing e (after_refusal c (challenge_type k.challenge) k.header k.host)
still_KeepsRefusing e c k = record {
  challenge = k.challenge;
  header = k.header;
  username = k.username;
  password = k.password;
  message = k.message;
  host = k.host;
  status = k.status;
  challenge_is = k.challenge_is;
  supported = k.supported;
  username_is = k.username_is;
  password_is = k.password_is;
  header_is = k.header_is;
  pending_is = k.pending_is;
  host_is = k.host_is;
  connects = k.connects;
}

abbrev pub times {ℓ} : {A : Type ℓ} → ℕ → List A → List A
times zero xs = []
times (suc n) xs = xs ++ times n xs

-- Where the ACS refuses every message, the client sends it again each time, without end: n refusals
-- make n new connections with the same message, none of them closes the session, and each one starts
-- the session timer anew.
pub retries_without_end :
    (n : ℕ) (e : Env) (c : Client)
    → (k : KeepsRefusing e c)
    → ((refused_times n e c).1 ≡ times n (one_retry c k.host))
      × ((refused_times n e c).0.pending_msg ≡ some k.message)
unfolding refused_times still_KeepsRefusing
retries_without_end zero e c k = (refl, k.pending_is)
retries_without_end (suc n) e c k =
    let c' = after_refusal c (challenge_type k.challenge) k.header k.host in
    let rest = retries_without_end n e c' (still_KeepsRefusing e c k) in
    rw (refused_once_lem e c k) (ap (λ more. one_retry c k.host ++ more) rest.0, rest.1)
