-- ===== src/Plugin/Defs.antt =====
-- The state of the plugin's address and daemon, and what its functions see and do.
use tr069_manager.Base.{ℕ, Bool, Option, List, [], ◌∷◌, ◌++◌, CString, codes}

-- wan_ip_mode_t
pub data WanIpMode : Type 0 where
  ipv4_only : WanIpMode
  ipv6_preferred : WanIpMode
  ip_any : WanIpMode

-- An event of the data model for a parameter of ManagementServer.ConnRequest that got a new value.
pub data Change : Type 0 where
  host_changed : Change
  path_changed : Change
  port_changed : Change

pub data Action : Type 0 where
  set_service : ℕ → CString → CString → ℕ → Action  -- port, interface, source, IP version
  delete_service : Action
  start_process : Action
  stop_process : Action
  send_inform : CString → CString → Action  -- the signal SendInformMessage!

-- The parameters of the data model, the static variables and the calls that were made. The process
-- is `none` where cwmpd_proc is NULL, else it says if the process runs; the timers of a restart are
-- counted.
pub record Plugin : Type 0 where
  pub update_url : Bool  -- UpdateConnRequestURL
  pub host : CString  -- ConnRequestHost
  pub port : ℕ  -- ConnRequestPort
  pub path : CString  -- ConnRequestPath
  pub path_type : CString  -- ConnRequestPathType
  pub url : CString  -- ConnectionRequestURL
  pub parameter_key : CString  -- ParameterKey
  pub local_ip : CString  -- LocalIPAddress
  pub interface : CString
  pub allowed_address : CString  -- AllowConnectionRequestFromAddress
  pub init_done : Bool
  pub path_created : Bool  -- conn_req_path_created
  pub start_avoided : Bool  -- cwmpd_start_avoided
  pub process : Option Bool
  pub restart_timers : ℕ
  pub mode : WanIpMode
  pub ipv4 : CString
  pub ipv6 : CString
  pub has_queries : Bool
  pub ipv6_timer : Option ℕ  -- the time of the timer that ipv6_timer points to
  pub lost_timers : ℕ  -- timers that run although ipv6_timer points to a newer one
  pub changes : List Change  -- events of the data model that wait
  pub log : List Action

-- What the calls return in one run of a function.
pub record Env : Type 0 where
  pub is_ipv6 : CString → Bool  -- inet_pton
  pub decimal : ℕ → CString  -- printf's %hu
  pub url_path : Option CString  -- TR069_URL_PATH
  pub is_standalone : Bool  -- CWMPD_STANDALONE
  pub hw_addr : CString → CString  -- get_hw_addr_from_ip, empty where the address is not found
  pub rand : ℕ → ℕ  -- rand(), by the number of the call
  pub start_works : Bool  -- amxp_proc_ctrl_start
  pub max_wait_time : ℕ  -- IPV4IPV6WANMaxWaitTime

abbrev pub perform : Action → Plugin → Plugin
perform action s = record s { log = s.log ++ action ∷ [] }

abbrev pub default_host : CString
default_host = codes "0.0.0.0"
