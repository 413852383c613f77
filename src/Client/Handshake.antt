-- ===== src/Client/Handshake.antt =====
-- The request that dmmain/cwmpd_client.c writes: its headers and its body.
use tr069_manager.Base.{
  ◌≡◌, refl, ap, true, false, some, List, [], ◌∷◌, ◌++◌, map, arith, if◌then◌else◌, CString, length,
  is_empty,
}
use tr069_manager.Cookie.{cookiejar_to_string}
use tr069_manager.Client.Defs.{
  Client, Header, user_agent, content_length, cookie_header, authorization, content_type,
  soap_action, add_header, body_pending, write_body, code_continue, Env,
}
use tr069_manager.Client.Callbacks.{
  write_headers, optional_header, request_headers, handshake, http_writable,
}

write_headers-ok :
    (e : Env) (hs : List Header)
    → (write_headers e hs).1 ≡ true
    → (write_headers e hs).0 ≡ map add_header hs
unfolding write_headers
write_headers-ok e [] ok = refl
write_headers-ok e (h ∷ hs) ok = ground (arith, ok, write_headers-ok e hs (ground (arith, ok)))

handshake_lem :
    (e : Env) (c : Client) (message : CString)
    → c.pending_msg ≡ some message
    → (handshake e c).code ≡ code_continue
    → ((write_headers e (request_headers c message)).1 ≡ true)
      × (handshake e c ≡ record {
        client = c;
        actions = (write_headers e (request_headers c message)).0 ++ body_pending true ∷ [];
        code = code_continue;
      })
unfolding handshake
handshake_lem e c message pending ok = (ground (arith, pending, ok), ground (arith, pending, ok))

-- A request whose headers are written without an error is the pending message: the Content-Length is
-- the length of the body that is written afterwards, the cookies are those of the jar, an
-- Authorization header stands exactly where the client has one, and Content-Type and SOAPAction
-- exactly where the message is not empty.
pub handshake-writes_message :
    (e : Env) (c : Client) (message : CString)
    → c.pending_msg ≡ some message
    → (handshake e c).code ≡ code_continue
    → ((handshake e c).actions
        ≡ map add_header (
            user_agent
            ∷ content_length (length message)
            ∷ (optional_header cookie_header (cookiejar_to_string c.jar)
                ++ (optional_header authorization c.auth_hdr
                    ++ (if is_empty message then [] else content_type ∷ soap_action ∷ []))))
          ++ body_pending true ∷ [])
      × (http_writable (handshake e c).client ≡ write_body message ∷ body_pending false ∷ [])
unfolding request_headers http_writable
handshake-writes_message e c message pending ok =
    let done = handshake_lem e c message pending ok in
    let written = write_headers-ok e (request_headers c message) done.0 in
    rw done.1 (ap (λ as_list. as_list ++ body_pending true ∷ []) written, rw pending refl)
