-- ===== src/Server.antt =====
-- src/dmmain/cwmpd_server.c: the HTTP server that takes the connection requests of the ACS.
-- libwebsockets and the engine are not modelled: what their calls return for one request is the
-- record `Env`, and the calls that have an effect outside are the list of `Action`s, in order. HTTP
-- codes are those of libwebsockets' enum. A `Status` is true for cwmp_status_ok.
pub mod Lifecycle
pub mod Safety
pub mod Examples
use tr069_manager.Base.{
  ℕ, Bool, true, false, ◌&&◌, Option, none, some, List, [], ◌∷◌, ◌++◌, ltb, if◌then◌else◌, CString,
  codes, streq, drop,
}
use tr069_manager.Requests.{Timestamps, read_limits, check_availability}

abbrev pub Status : Type 0
Status = Bool

-- One piece of a response that is written by hand.
pub data Piece : Type 0 where
  status_line : ℕ → Piece
  www_authenticate : CString → Piece
  content_length : ℕ → Piece
  end_of_headers : Piece

pub data Action : Type 0 where
  return_http_status : ℕ → Action  -- lws_return_http_status
  write_response : List Piece → Action  -- a response that was finalized and written
  request_connection : Action  -- DM_ENG_RequestConnection
  set_timers : Action  -- lws_set_timer_usecs, lws_set_timeout
  callback_dummy : Action  -- lws_callback_http_dummy

-- What the calls return while one request is handled. A field `…_fails` is true where the call
-- returns non-zero.
pub record Env : Type 0 where
  pub now : ℕ  -- time() in cwmp_server_maxConnectionsReached
  pub later : ℕ  -- time() in cwmp_server_maxConnectionsAdd
  pub limit_values : List CString  -- DM_ENG_GetParameterValues
  pub default_max : ℕ
  pub default_freq : ℕ
  pub has_get_uri : Bool  -- lws_hdr_total_length(WSI_TOKEN_GET_URI) is not 0
  pub has_http : Bool
  pub has_authorization : Bool
  pub auth_data : CString  -- what lws_hdr_copy puts in the buffer
  pub authorization_token : CString  -- the engine's AuthorizationToken
  pub username : Option CString  -- none: the engine call fails
  pub password : Option CString
  pub nonce : CString  -- randomNonceStr
  pub opaque : CString
  pub digest_message : CString  -- DM_COM_GenerateRequestDigestMsg
  pub check_content : CString → Bool  -- DM_COM_CheckDigestAuthMessageContent
  pub perform_digest : CString → CString → CString → CString → CString → Bool
  pub connection_refused : Bool  -- DM_ENG_RequestConnection is not 0
  pub status_fails : Bool
  pub authenticate_fails : Bool
  pub length_fails : Bool
  pub finalize_fails : Bool
  pub transaction_completed : Bool

pub record Outcome : Type 0 where
  pub stamps : Timestamps
  pub actions : List Action
  pub close : Bool  -- the callback returns -1

-- The byte in front of the URI is the slash. `none` is NULL.
unfoldable pub validate_uri : Env → Option CString → Option CString → Status
validate_uri e cpe_url none = false
validate_uri e none (some uri) = false
validate_uri e (some url) (some uri) = (e.has_get_uri && e.has_http) && streq (drop 1 uri) url

pub check_server_availability : Env → Timestamps → Timestamps × Status
check_server_availability e l =
    check_availability e.now e.later (read_limits e.default_max e.default_freq e.limit_values) l

-- A reply is written only by lws_finalize_write_http_header: a call that fails leaves nothing sent.
pub reply_http_unauthorized : Env → List Action × Status
reply_http_unauthorized e =
    if e.status_fails
    then ([], false)
    else if e.authenticate_fails
    then ([], false)
    else if e.length_fails
    then ([], false)
    else if e.finalize_fails
    then ([], false)
    else (
      write_response (
            status_line 401
            ∷ www_authenticate e.digest_message
            ∷ content_length 0
            ∷ end_of_headers
            ∷ [])
          ∷ [],
      true,
    )

-- True for 0.
pub reply_http_no_content : Env → List Action × Status
reply_http_no_content e =
    if e.status_fails
    then ([], false)
    else if e.length_fails
    then ([], false)
    else if e.finalize_fails
    then ([], false)
    else (write_response (status_line 204 ∷ content_length 0 ∷ end_of_headers ∷ []) ∷ [], true)

-- "%s %s\n\r%s %s"
pub auth_message : Env → CString → CString
auth_message e uri =
    (if e.has_get_uri then codes "GET" else [])
    ++ (codes " " ++ (uri ++ (10 ∷ 13 ∷ (e.authorization_token ++ (codes " " ++ e.auth_data)))))

pub validate_authentication : Env → CString → Status
validate_authentication e uri = elim e.username [
  | none ↦ false
  | some user ↦ elim e.password [
    | none ↦ false
    | some passwd ↦
        if e.has_authorization
        then if e.check_content (auth_message e uri)
          then e.perform_digest (auth_message e uri) e.nonce e.opaque user passwd
          else false
        else false
  ]
]

-- The text that the URI's pointer leads to; it is read only where the URI is valid.
abbrev pub uri_text : Option CString → CString
uri_text none = []
uri_text (some s) = s

-- From the point where the request is known to be for the server's URI.
answer_request : Env → Timestamps → CString → Outcome
answer_request e l uri =
    if validate_authentication e uri
    then if e.connection_refused
      then record {
        stamps = l;
        actions = request_connection ∷ return_http_status 503 ∷ [];
        close = false;
      }
      else record {
        stamps = l;
        actions = request_connection ∷ (reply_http_no_content e).0;
        close = true;
      }
    else record {
      stamps = l;
      actions = (reply_http_unauthorized e).0;
      close = e.transaction_completed;
    }

abbrev refuse : Timestamps → ℕ → Outcome
refuse l code = record { stamps = l; actions = return_http_status code ∷ []; close = false }

pub handle_request : Env → Option CString → Timestamps → Option CString → ℕ → Outcome
unfolding answer_request
handle_request e cpe_url l uri len =
    if ltb len 1
    then refuse l 400
    else let (l', available) = check_server_availability e l in
      if available
      then if validate_uri e cpe_url uri then answer_request e l' (uri_text uri) else refuse l' 404
      else refuse l' 503

pub data Reason : Type 0 where
  established : Reason
  http : Option CString → ℕ → Reason
  http_body_completion : Reason
  other_reason : Reason

pub http_callback : Env → Option CString → Timestamps → Reason → Outcome
http_callback e cpe_url l established = record {
  stamps = l;
  actions = set_timers ∷ callback_dummy ∷ [];
  close = false;
}
http_callback e cpe_url l (http uri len) = handle_request e cpe_url l uri len
http_callback e cpe_url l http_body_completion = record {
  stamps = l;
  actions = return_http_status 200 ∷ callback_dummy ∷ [];
  close = false;
}
http_callback e cpe_url l other_reason = record {
  stamps = l;
  actions = callback_dummy ∷ [];
  close = false;
}
