-- ===== src/Plugin/Url.antt =====
-- cwmp_plugin/cwmp_plugin_connection_request.c: the URL that the ACS sends its connection requests
-- to.
use mathlib.Core.Option
use tr069_manager.Base.{
  ℕ, ◌%◌, ◌^◌, Bool, true, false, not, ◌&&◌, ◌||◌, Option, none, some, [], ◌∷◌, ◌++◌, ◌==◌,
  if◌then◌else◌, CString, codes, streq, is_empty,
}
use tr069_manager.Plugin.Defs.{host_changed, port_changed, Plugin, Env, default_host}
use tr069_manager.Plugin.Path.{create_conreq_path}
use tr069_manager.Plugin.Service.{open_listening_port, close_listening_port, start_cwmpd}

-- assembleConnectionRequestURL, for the path of the data model
unfoldable pub assemble_url : Env → CString → CString → ℕ → CString
assemble_url e path host port =
    codes "http://"
    ++ (if e.is_ipv6 host then codes "[" else [])
    ++ host
    ++ (if e.is_ipv6 host then codes "]" else [])
    ++ codes ":"
    ++ e.decimal (port % 2 ^ 16)
    ++ codes "/"
    ++ path

-- cwmp_plugin_update_conreq_host; the data model tells of a new value.
unfoldable pub update_conreq_host : CString → Plugin → Plugin
update_conreq_host ip s =
    let s' = record s { local_ip = ip } in
    if s.update_url && not (streq s.host ip)
    then record s' { host = ip; changes = s.changes ++ host_changed ∷ [] }
    else s'

-- cwmp_plugin_update_conreq_port
unfoldable pub update_conreq_port : ℕ → Plugin → Plugin
update_conreq_port port s =
    if s.update_url && not (s.port == port)
    then record s { port = port; changes = s.changes ++ port_changed ∷ [] }
    else s

-- update_conn_req_url
unfoldable pub update_conn_req_url : Env → Plugin → Plugin
update_conn_req_url e s =
    if s.update_url then record s { url = assemble_url e s.path s.host s.port } else s

-- updateConnectionRequestURL of ManagementServer; true for amxd_status_ok.
unfoldable pub management_update_url : Env → Bool → Option CString → ℕ → Plugin → Plugin × Bool
management_update_url e update host port s =
    let s' = record s { update_url = not update } in
    if not update then (s', true) else elim host [
      | none ↦ (s', false)
      | some h ↦
          if is_empty h || port % 2 ^ 16 == 0
          then (s', false)
          else (record s' { url = assemble_url e s.path h port }, true)
    ]

-- _updateConnectionRequestPath
unfoldable pub path_event : Env → Plugin → Plugin
path_event e s = update_conn_req_url e s

-- _updateConnectionRequestPort
unfoldable pub port_event : Env → Plugin → Plugin
port_event e s = open_listening_port e (update_conn_req_url e s)

-- The process in _updateConnectionRequestURL: started, put off, or its port opened anew.
unfoldable pub ensure_process : Env → Plugin → Plugin
ensure_process e s =
    if Option.get_or s.process false
    then open_listening_port e s
    else if s.init_done
    then start_cwmpd e s
    else record s { start_avoided = true }

-- The path is made once.
unfoldable pub ensure_path : Env → Plugin → Plugin
ensure_path e s =
    if s.path_created then s else record (create_conreq_path e s.host s) { path_created = true }

-- _updateConnectionRequestURL
unfoldable pub host_event : Env → Plugin → Plugin
host_event e s =
    let s' = update_conn_req_url e s in
    if s.update_url
    then if is_empty s.host || streq default_host s.host
      then close_listening_port s'
      else ensure_process e (ensure_path e s')
    else s

-- updateParameterKey of ManagementServer
unfoldable pub update_parameter_key : CString → Plugin → Plugin
update_parameter_key key s = record s { parameter_key = key }
