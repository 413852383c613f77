-- ===== src/Client/Defs.antt =====
-- The state of dmmain/cwmpd_client.c and what its functions see and do.
use tr069_manager.Base.{ℕ, Bool, Option, List, CString, ℤ}
use tr069_manager.Cookie.{CookieJar}

-- auth_t
pub data AuthType : Type 0 where
  auth_basic auth_digest auth_unsupported auth_none : AuthType

-- The fields of lws_connect_info that are not constants.
pub record ConnectInfo : Type 0 where
  pub address : Option CString  -- address, host and origin
  pub port : ℤ
  pub path : Option CString
  pub use_ssl : Bool  -- LCCSCF_USE_SSL in ssl_connection, as the next three
  pub skip_hostname_check : Bool
  pub allow_selfsigned : Bool
  pub allow_expired : Bool

-- The static variables. A pointer is `none` where it is NULL; `session_timeout` is the word of the
-- int.
pub record Client : Type 0 where
  pub auth_type : AuthType
  pub server_host : Option CString
  pub server_ip : Option CString
  pub server_port : ℤ
  pub server_path : Option CString
  pub server_scheme : CString
  pub http_status : ℕ
  pub rcv_buf : Option CString
  pub rcv_buf_len : ℕ
  pub session_timeout : ℕ
  pub pending_msg : Option CString
  pub jar : Option CookieJar
  pub auth_hdr : Option CString
  pub connected : Bool
  pub connect_info : ConnectInfo
  pub qos_ip : Option CString
  pub qos_port : ℤ

-- A header that the client adds to its request.
pub data Header : Type 0 where
  user_agent : Header
  content_length : ℕ → Header
  cookie_header : CString → Header
  authorization : CString → Header
  content_type : Header
  soap_action : Header

pub data Action : Type 0 where
  close_session : Bool → Action  -- _closeACSSession
  session_timer : ℕ → Action  -- timerStart("Session-timer", …, cwmp_client_sessionTimedOut)
  auth_retry_timer : Action  -- timerStart("cwmp_client_auth_retry", 0, …)
  kill_connection : Action  -- lws_wsi_close
  store_acs_ip : Option CString → Action  -- DM_ENG_SetManagementServerValue(DM_ENG_ACSIP)
  add_header : Header → Action
  body_pending : Bool → Action  -- lws_client_http_body_pending
  write_body : CString → Action  -- lws_write
  connect : ConnectInfo → Action  -- lws_client_connect_via_info
  keep_for_retry : CString → Action  -- DM_UpdateRetryBuffer
  parse_envelope : CString → Action  -- DM_ParseSoapEnveloppe
  update_qos : Bool → Option CString → ℤ → ℕ → Action  -- DM_ENG_UpdateQosInfo
  resolve_dns : Action  -- cwmp_dns_resolve
  callback_dummy : Action  -- lws_callback_http_dummy
  destroy_context : Action  -- lws_context_destroy

-- The codes of the callbacks: 1, -1 and 0.
pub data Code : Type 0 where
  code_continue code_error code_skip : Code

pub record Uri : Type 0 where
  pub scheme : CString
  pub host : CString
  pub port : ℤ
  pub path : Option CString

-- What the calls return. A value of the management server is `none` where the call fails. A NULL for
-- `acs_ip` or `acs_ip_list` is the empty text, and one for `ntp_status` is `none`, as the code treats
-- them.
pub record Env : Type 0 where
  pub username : Option CString
  pub password : Option CString
  pub url : Option CString
  pub acs_ip : Option CString
  pub acs_ip_list : Option CString
  pub connection_request_host : Option CString
  pub session_timeout_value : Option CString
  pub ssl_verify_hostname : Option CString
  pub ssl_accept_selfsigned : Option CString
  pub ssl_accept_expired : Option CString
  pub ntp_status : Option CString
  pub b64_encode : CString → ℕ → Option CString  -- the text and the size of the buffer
  pub digest_response : CString → Option CString → CString → CString → Option CString
  pub www_authenticate : Option CString  -- none: lws_hdr_copy fails
  pub set_cookie : CString
  pub set_cookie_copied : Bool
  pub response_code : ℕ
  pub ready_to_close : Bool
  pub empty_post_sent : Bool
  pub read_fails : Bool  -- lws_http_client_read
  pub strnncpy : CString → CString  -- what lws_strnncpy puts in the buffer for a chunk
  pub smm_translate : Bool → CString × ℕ → CString × ℕ  -- DM_ENG_Mapping_smm_translate
  pub env_tag : CString  -- DM_COM_ENV_TAG
  pub soap_is_valid : CString → Bool  -- DM_AnalyseSoapMessage is DM_OK
  pub header_fits : Header → Bool
  pub connect_fails : Bool
  pub parse_uri : CString → Option Uri  -- lws_parse_uri
  pub is_ipv4 : CString → Bool  -- inet_pton
  pub is_ipv6 : CString → Bool
  pub csv_to_list : CString → List CString  -- amxc_string_csv_to_var
  pub random : ℕ  -- rand()

pub record Outcome : Type 0 where
  pub client : Client
  pub actions : List Action
  pub code : Code
