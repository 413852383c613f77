-- ===== src/Client/Tls.antt =====
-- The checks of the certificate of the ACS (cwmp_client_https_session_init in
-- dmmain/cwmpd_client.c).
use tr069_manager.Base.{
  ◌≡◌, refl, ap, ◌∙◌, ◌↔◌, ◌⊎◌, inl, inr, true, not, Option, none, some, arith, Bool-cases, CString,
  codes, streq, streq→eq, atol_is_zero,
}
use tr069_manager.Client.Defs.{Client, Env}
use tr069_manager.Client.Auth.{gen_auth_hdr}
use tr069_manager.Client.Session.{value_is, accepts_expired, https_session_init, prepare_session}

AcceptsExpired : Env → Type 0
AcceptsExpired e =
    (e.ssl_accept_expired ≡ some (codes "Always"))
    ⊎ ((e.ssl_accept_expired ≡ some (codes "NTP"))
        × (value_is e.ntp_status (λ s. not (streq s (codes "Synchronized"))) ≡ true))

accepts_expired-AcceptsExpired :
    (e : Env) (v : Option CString)
    → e.ssl_accept_expired ≡ v
    → accepts_expired e ≡ true
    → AcceptsExpired e
unfolding accepts_expired AcceptsExpired
accepts_expired-AcceptsExpired e none v a = ground (arith, v, a)
accepts_expired-AcceptsExpired e (some text) v a = elim (Bool-cases (streq text (codes "Always"))) [
  | inl s ↦ inl (v ∙ ap some (streq→eq text (codes "Always") s))
  | inr s ↦
      inr (
        v ∙ ap some (streq→eq text (codes "NTP") (ground (arith, v, a, s))),
        ground (arith, v, a, s),
      )
]

AcceptsExpired-accepts_expired : (e : Env) → AcceptsExpired e → accepts_expired e ≡ true
unfolding accepts_expired AcceptsExpired streq
AcceptsExpired-accepts_expired e (inl v) = rw v refl
AcceptsExpired-accepts_expired e (inr (v, n)) = rw v n

prepared_info :
    (e : Env) (c : Client)
    → streq c.server_scheme (codes "https") ≡ true
    → (prepare_session e c).connect_info ≡ record {
      address = none;
      port = c.server_port;
      path = c.server_path;
      use_ssl = true;
      skip_hostname_check = value_is e.ssl_verify_hostname atol_is_zero;
      allow_selfsigned = value_is e.ssl_accept_selfsigned (λ text. not (atol_is_zero text));
      allow_expired = accepts_expired e;
    }
unfolding prepare_session https_session_init gen_auth_hdr
prepared_info e c https = ground (arith, https)

-- A connection uses TLS exactly for the scheme https. It then takes an expired certificate exactly
-- where the data model says "Always", or "NTP" while the time is known not to be synchronized, and it
-- skips the check of the host name exactly where that flag can be read and is 0.
pub prepare_session-checks :
    (e : Env) (c : Client)
    → streq c.server_scheme (codes "https") ≡ true
    → let info = (prepare_session e c).connect_info in
      (info.use_ssl ≡ true)
      × (((info.allow_expired ≡ true) ↔ (
            (e.ssl_accept_expired ≡ some (codes "Always"))
            ⊎ ((e.ssl_accept_expired ≡ some (codes "NTP"))
                × (value_is e.ntp_status (λ s. not (streq s (codes "Synchronized"))) ≡ true))))
          × ((info.skip_hostname_check ≡ true)
              ↔ (value_is e.ssl_verify_hostname atol_is_zero ≡ true)))
unfolding AcceptsExpired
prepare_session-checks e c https = rw (prepared_info e c https) (
  refl,
  (
    (accepts_expired-AcceptsExpired e e.ssl_accept_expired refl, AcceptsExpired-accepts_expired e),
    (λ h. h, λ h. h),
  ),
)
