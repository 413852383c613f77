-- ===== src/Client/Buffer.antt =====
-- The message that dmmain/cwmpd_client.c puts together from the chunks of a response.
use tr069_manager.Base.{
  ℕ, ◌+◌, ◌≡◌, refl, ap, ◌≢◌, true, false, Option, none, some, List, [], ◌∷◌, ◌++◌, append-nil,
  append_assoc, arith, if◌then◌else◌, CString, strstr, All, length, take, length-append,
}
use tr069_manager.Client.Defs.{Client, Action, close_session, parse_envelope, callback_dummy, Env}
use tr069_manager.Client.Callbacks.{
  new_wsi, handle_cookies, connection_established, receive_http, http_complete, Reason,
  new_client_instantiated, established_client, receive_client_read, completed_client, call_handler,
  http_callback,
}

-- A run of callbacks, with what their calls return.
unfoldable pub run_callbacks : Client → List (Env × Reason) → Option (Client × List Action)
run_callbacks c [] = some (c, [])
run_callbacks c ((e, reason) ∷ steps) = elim (http_callback e c reason) [
  | none ↦ none
  | some o ↦ elim (run_callbacks o.client steps) [
    | none ↦ none
    | some (c', actions) ↦ some (c', o.actions ++ actions)
  ]
]

abbrev pub IsNonNul : ℕ → Type 0
IsNonNul ch = ch ≢ 0

-- lws_strnncpy copies a chunk without a NUL as it is.
abbrev pub CopiesText : (CString → CString) → Type 0
CopiesText copy = (chunk : CString) → All IsNonNul chunk → copy chunk ≡ chunk

abbrev pub join : List CString → CString
join [] = []
join (chunk ∷ chunks) = chunk ++ join chunks

abbrev pub chunk_steps : Env → List CString → List (Env × Reason)
chunk_steps e [] = []
chunk_steps e (chunk ∷ chunks) = (e, receive_client_read chunk) ∷ chunk_steps e chunks

take_all {ℓ} : {A : Type ℓ} (xs : List A) → take (length xs) xs ≡ xs
take_all [] = refl
take_all (x ∷ xs) = ap (λ ys. x ∷ ys) (take_all xs)

-- The client with a text in its buffer.
abbrev pub holding : CString → Client → Client
holding text c = record c { rcv_buf = some text; rcv_buf_len = length text }

receive_http-holding :
    (e : Env) (c : Client) (text chunk : CString)
    → CopiesText e.strnncpy
    → All IsNonNul chunk
    → receive_http e chunk (holding text c) ≡ holding (text ++ chunk) c
unfolding receive_http
receive_http-holding e c text chunk copies nonnul =
    rw (take_all text, copies chunk nonnul, length-append text chunk) refl

run_chunks :
    (e : Env) (c : Client) (text : CString) (chunks : List CString)
    → CopiesText e.strnncpy
    → All (All IsNonNul) chunks
    → run_callbacks (holding text c) (chunk_steps e chunks)
      ≡ some (holding (text ++ join chunks) c, [])
unfolding run_callbacks http_callback call_handler
run_chunks e c text [] copies nonnul = rw (append-nil text) refl
run_chunks e c text (chunk ∷ chunks) copies nonnul =
    rw
      (
        receive_http-holding e c text chunk copies nonnul.0,
        run_chunks e c (text ++ chunk) chunks copies nonnul.1,
        append_assoc text chunk (join chunks),
      )
      refl

first_chunk :
    (e : Env) (c : Client) (chunk : CString)
    → CopiesText e.strnncpy
    → All IsNonNul chunk
    → receive_http e chunk (new_wsi c) ≡ holding chunk c
unfolding receive_http new_wsi
first_chunk e c chunk copies nonnul =
    let z : 0 + length chunk ≡ length chunk = omega arith in rw (copies chunk nonnul, z) refl

completed :
    (e : Env) (c : Client) (text : CString)
    → c.http_status ≡ 200
    → strstr text e.env_tag ≡ true
    → let received = e.smm_translate true (text, length text) in
      run_callbacks (holding text c) ((e, completed_client) ∷ [])
      ≡ some (
        record c { rcv_buf = some received.0; rcv_buf_len = received.1 },
        (if e.soap_is_valid received.0 then parse_envelope received.0 else close_session false)
            ∷ callback_dummy
            ∷ [],
      )
unfolding run_callbacks http_callback call_handler http_complete
completed e c text status tag = ground (arith, status, tag)

-- A connection that brings its response in at least one chunk, without NUL, after status 200, with
-- the tag of the envelope in the chunks put together, gives the engine exactly these in their order,
-- as DM_ENG_Mapping_smm_translate turns them, where that message is a valid SOAP one; where it has the
-- tag but is not valid, the session is closed as failed.
pub message_received :
    (e : Env) (c : Client) (chunk : CString) (chunks : List CString)
    → c.http_status ≡ 200
    → CopiesText e.strnncpy
    → All (All IsNonNul) (chunk ∷ chunks)
    → strstr (join (chunk ∷ chunks)) e.env_tag ≡ true
    → let text = join (chunk ∷ chunks) in
      let received = e.smm_translate true (text, length text) in
      let steps = chunk_steps e (chunk ∷ chunks) in
      (run_callbacks (new_wsi c) steps ≡ some (holding text c, []))
      × (run_callbacks (holding text c) ((e, completed_client) ∷ [])
          ≡ some (
            record c { rcv_buf = some received.0; rcv_buf_len = received.1 },
            (if e.soap_is_valid received.0 then parse_envelope received.0 else close_session false)
                ∷ callback_dummy
                ∷ [],
          ))
unfolding run_callbacks http_callback call_handler
message_received e c chunk chunks status copies nonnul tag = (
  rw (first_chunk e c chunk copies nonnul.0, run_chunks e c chunk chunks copies nonnul.1) refl,
  completed e c (join (chunk ∷ chunks)) status tag,
)

-- A response with status 200 and no body on a new connection makes the end of the response call
-- strstr on NULL, whatever the headers of the response.
pub empty_body-undefined :
    (e : Env) (c : Client)
    → e.response_code ≡ 200
    → run_callbacks c
        ((e, new_client_instantiated) ∷ (e, established_client) ∷ (e, completed_client) ∷ [])
      ≡ none
unfolding run_callbacks http_callback call_handler http_complete new_wsi connection_established
    handle_cookies
empty_body-undefined e c status = ground (arith, status)
