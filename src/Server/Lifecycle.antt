-- ===== src/Server/Lifecycle.antt =====
-- src/dmmain/cwmpd_server.c: cwmp_server_start and cwmp_server_stop. The data model's answers and
-- the results of lws_create_context and lws_create_vhost are arguments.
use tr069_manager.Base.{
  ℕ, ◌<◌, ◌≡◌, refl, ◌⊎◌, Bool, true, false, ◌||◌, Option, none, some, [], ◌∷◌, arith,
  if◌then◌else◌, CString, codes, streq, atoi, is_empty,
}
use tr069_manager.Requests.{Timestamps, init_connection_timestamp_list, max_connections_cleanup}
use tr069_manager.Server.{Status, return_http_status, Env, validate_uri, handle_request}

-- `cpe_url` is g_randomCpeUrl, and `context`, `vhost` are true where the pointer is not NULL.
pub record Globals : Type 0 where
  pub cpe_url : Option CString
  pub vhost_name : Option CString
  pub context : Bool
  pub vhost : Bool
  pub port : ℕ
  pub stamps : Timestamps

-- DM_ENG_GetManagementServerValue: `failed`, or the value, which may be NULL.
pub data Fetched : Type 0 where
  failed : Fetched
  fetched : Option CString → Fetched

pub record Settings : Type 0 where
  pub enable : Fetched  -- DM_ENG_ENABLECWMP
  pub local_ip : Fetched  -- DM_ENG_LOCALIPADDRESS
  pub request_port : Fetched  -- DM_ENG_CONNECTIONREQUESTPORT
  pub request_path : Fetched  -- DM_ENG_CONNECTIONREQUESTPATH
  pub context_created : Bool
  pub vhost_created : Bool

-- atoi(NULL) is undefined; it is 0 here.
abbrev pub atoi_opt : Option CString → ℕ
atoi_opt none = 0
atoi_opt (some s) = atoi s

pub init_lws : Settings → Globals → Option CString → ℕ → Globals × Status
init_lws c g none port = (g, false)
init_lws c g (some host) port =
    let g' = record g { vhost_name = some host; port = port } in
    if is_empty host
    then (g', false)
    else if c.context_created
    then (record g' { context = true }, true)
    else (record g' { context = false }, false)

create_vhost : Settings → Globals × Status → Globals × Status
create_vhost c (g, false) = (g, false)
create_vhost c (g, true) = (record g { vhost = c.vhost_created }, c.vhost_created)

-- From the fetch of the path on.
start_at : Settings → Globals → Option CString → Option CString → Fetched → Globals × Status
unfolding init_lws create_vhost
start_at c g host port failed = (record g { cpe_url = none }, false)
start_at c g host port (fetched path) = create_vhost c (
    init_lws c (record g { cpe_url = path; stamps = init_connection_timestamp_list g.stamps }) host
      (atoi_opt port))

start_port : Settings → Globals → Option CString → Fetched → Globals × Status
unfolding start_at
start_port c g host failed = (g, false)
start_port c g host (fetched port) = start_at c g host port c.request_path

-- The WAN is down: an empty address, or 0.0.0.0.
unfoldable pub is_wan_down : Option CString → Bool
is_wan_down none = false
is_wan_down (some host) = is_empty host || streq host (codes "0.0.0.0")

start_host : Settings → Globals → Fetched → Globals × Status
unfolding start_port
start_host c g failed = (g, false)
start_host c g (fetched host) =
    if is_wan_down host then (g, true) else start_port c g host c.request_port

start_enabled : Settings → Globals → Fetched → Globals × Status
unfolding start_host
start_enabled c g failed = (g, false)
start_enabled c g (fetched none) = (g, false)
start_enabled c g (fetched (some s)) =
    if streq s (codes "0") then (g, false) else start_host c g c.local_ip

unfoldable pub server_start : Settings → Globals → Globals × Status
unfolding start_enabled
server_start c g = start_enabled c g c.enable

pub server_stop : Globals → Globals
server_stop g = record {
  cpe_url = none;
  vhost_name = none;
  context = false;
  vhost = false;
  port = g.port;
  stamps = max_connections_cleanup g.stamps;
}

-- The server listens on `host`, at the port and under the path that the data model gave, with an
-- empty list.
pub record IsListening (host : CString) (port path : Fetched) (g : Globals) : Type 0 where
  pub has_context : g.context ≡ true
  pub has_vhost : g.vhost ≡ true
  pub fresh : g.stamps ≡ []
  pub name_is : g.vhost_name ≡ some host
  pub path_is : path ≡ fetched g.cpe_url
  pub port_is : (text : Option CString) × (port ≡ fetched text) × (g.port ≡ atoi_opt text)

-- The two ways in which a start reports success.
abbrev pub Started : Settings → Globals → Fetched → Globals → Type 0
Started c g ip g' =
    (host : CString) × (ip ≡ fetched (some host))
    × (((is_wan_down (some host) ≡ true) × (g' ≡ g))
        ⊎ ((is_wan_down (some host) ≡ false) × IsListening host c.request_port c.request_path g'))

-- After a stop nothing of the earlier server is left: a request for the old path is answered 404 or
-- 503, never let in.
pub stop-refuses :
    (g : Globals) (e : Env) (uri : CString) (len : ℕ)
    → 0 < len
    → let g' = server_stop g in
      let r = handle_request e g'.cpe_url g'.stamps (some uri) len in
      (g'.context ≡ false)
      × (g'.vhost ≡ false)
      × ((r.actions ≡ return_http_status 404 ∷ []) ⊎ (r.actions ≡ return_http_status 503 ∷ []))
unfolding server_stop handle_request validate_uri
stop-refuses g e uri len h = (refl, refl, ground (arith, h))
