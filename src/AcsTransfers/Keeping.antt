-- ===== src/AcsTransfers/Keeping.antt =====
-- The functions of cwmp_plugin/cwmp_plugin_transfer.c lose no upload.
use tr069_manager.Base.{
  ℕ, ◌≡◌, refl, inl, inr, Bool, true, false, [], ◌∷◌, ◌++◌, arith, ◌==◌, Bool-cases, Option-cases,
  is_some, CString,
}
use tr069_manager.AcsTransfers.Defs.{
  Time, unknown_time, at, finished, Args, UploadContext, VendorFile, log_file, config_file,
  call_vendor_file, self_test, World, Env, fault_internal_error, perform,
}
use tr069_manager.AcsTransfers.Status.{transfer_update_status}
use tr069_manager.AcsTransfers.Upload.{
  vendor_args, call_vendor, internal_error, fail_unless, selftest_call_done,
  upload_vendor_config_file, prepare_type, upload_prepare,
}
use tr069_manager.AcsTransfers.Tracked.{
  any, any-append, is_supported, has_type, is_test_of, is_context_of, is_report_of, is_tracked,
  implies, Adds, Adds-refl, Adds-trans, perform-Adds, transfer_update_status-Adds,
  transfer_update_status_reports,
}

abbrev register : UploadContext → World → World
register u w = record w { upload_requests = w.upload_requests ++ u ∷ [] }

register-Adds : (i : ℕ) (u : UploadContext) (w : World) → Adds i w (register u w)
register-Adds i u w = (
  ground arith,
  ground arith,
  ground arith,
  ground (arith, any-append (is_context_of i) w.upload_requests (u ∷ [])),
  ground arith,
)

-- The call on a vendor file loses nothing, and where it is done its upload waits for its end.
call_vendor-Adds :
    (i : ℕ) (e : Env) (file : VendorFile) (args : Args) (w : World)
    → let r = call_vendor e file args w in
      Adds i w r.0
      × (implies r.1 (any (is_context_of args.index) r.0.upload_requests) ≡ true)
      × (r.0.transfers ≡ w.transfers)
unfolding call_vendor
call_vendor-Adds i e file args w = elim (Option-cases (vendor_args e args)) [
  | inl n ↦ rw (n, call_vendor) (Adds-refl i w, refl, refl)
  | inr ((index, (url, (username, password))), n) ↦
      let action = call_vendor_file file index url username password in
      let u : UploadContext = record { index = args.index; url = url; time = e.now } in
      elim (Bool-cases e.vendor_call_fails) [
        | inl f ↦ rw (n, f, call_vendor) (perform-Adds i action w, refl, refl)
        | inr f ↦
            rw (n, f, call_vendor)
              (
                Adds-trans i w (perform action w) (register u (perform action w))
                    (perform-Adds i action w) (register-Adds i u (perform action w)),
                ground (arith, any-append (is_context_of args.index) w.upload_requests (u ∷ [])),
                refl,
              )
      ]
]

fail_unless-Adds :
    (i j : ℕ) (time : Time) (w : World) (r : World × Bool)
    → Adds i w r.0
    → Adds i w (fail_unless time j r)
unfolding fail_unless
fail_unless-Adds i j time w (w', true) all = all
fail_unless-Adds i j time w (w', false) all =
    let w'' = transfer_update_status j finished time time fault_internal_error internal_error w' in
    Adds-trans i w w' w'' all
      (transfer_update_status-Adds i j finished time time fault_internal_error internal_error w')

-- An upload that could not start is reported.
fail_unless_tracks :
    (i : ℕ) (time : Time) (r : World × Bool)
    → is_some (r.0.transfers i) ≡ true
    → implies r.1 (any (is_context_of i) r.0.upload_requests) ≡ true
    → is_tracked i (fail_unless time i r) ≡ true
unfolding fail_unless
fail_unless_tracks i time (w, true) here context = ground (arith, context)
fail_unless_tracks i time (w, false) here context =
    ground
      (arith, transfer_update_status_reports i time time fault_internal_error internal_error w here)

pub selftest_call_done-Adds :
    (i : ℕ) (e : Env) (status : ℕ) (args : Args) (w : World)
    → Adds i w (selftest_call_done e status args w)
unfolding selftest_call_done
selftest_call_done-Adds i e status args w = elim (Bool-cases (args.index == 0)) [
  | inl z ↦ rw (z, selftest_call_done) (Adds-refl i w)
  | inr z ↦ elim (Bool-cases (status == 0)) [
    | inl s ↦
        rw (z, s, selftest_call_done)
          (fail_unless-Adds i args.index (at e.now) w (call_vendor e log_file args w)
            (call_vendor-Adds i e log_file args w).0)
    | inr s ↦
        rw (z, s, selftest_call_done)
          (fail_unless-Adds i args.index (at e.now) w (w, false) (Adds-refl i w))
  ]
]

pub selftest_call_done_tracks :
    (e : Env) (status : ℕ) (args : Args) (w : World)
    → (args.index == 0) ≡ false
    → is_some (w.transfers args.index) ≡ true
    → is_tracked args.index (selftest_call_done e status args w) ≡ true
unfolding selftest_call_done
selftest_call_done_tracks e status args w z here =
    let r = call_vendor e log_file args w in
    let c = call_vendor-Adds args.index e log_file args w in
    elim (Bool-cases (status == 0)) [
      | inl s ↦
          rw (z, s, selftest_call_done)
            (fail_unless_tracks args.index (at e.now) r (ground (arith, here, c.0.0)) c.1)
      | inr s ↦
          rw (z, s, selftest_call_done)
            (fail_unless_tracks args.index (at e.now) (w, false) here refl)
    ]

upload_vendor_config_file-Adds :
    (i : ℕ) (e : Env) (args : Args) (w : World) → Adds i w (upload_vendor_config_file e args w)
unfolding upload_vendor_config_file
upload_vendor_config_file-Adds i e args w = elim (Bool-cases (args.index == 0)) [
  | inl z ↦ rw (z, upload_vendor_config_file) (Adds-refl i w)
  | inr z ↦
      rw (z, upload_vendor_config_file)
        (fail_unless-Adds i args.index unknown_time w (call_vendor e config_file args w)
          (call_vendor-Adds i e config_file args w).0)
]

upload_vendor_config_file_tracks :
    (e : Env) (args : Args) (w : World)
    → (args.index == 0) ≡ false
    → is_some (w.transfers args.index) ≡ true
    → is_tracked args.index (upload_vendor_config_file e args w) ≡ true
unfolding upload_vendor_config_file
upload_vendor_config_file_tracks e args w z here =
    let c = call_vendor-Adds args.index e config_file args w in
    rw (z, upload_vendor_config_file)
      (fail_unless_tracks args.index unknown_time (call_vendor e config_file args w)
        (ground (arith, here, c.0.0)) c.1)

self_test-Adds :
    (i : ℕ) (args : Args) (w : World)
    → Adds i w
        (record (perform self_test w) { selftest_requests = w.selftest_requests ++ args ∷ [] })
self_test-Adds i args w = (
  ground arith,
  ground arith,
  ground (arith, any-append (is_test_of i) w.selftest_requests (args ∷ [])),
  ground arith,
  ground (arith, any-append (is_report_of i) w.log (self_test ∷ [])),
)

prepare_type-Adds :
    (i : ℕ) (e : Env) (type : CString) (args : Args) (w : World)
    → Adds i w (prepare_type e type args w)
unfolding prepare_type
prepare_type-Adds i e type args w = ground (
  arith,
  Adds-refl i w,
  perform-Adds i self_test w,
  self_test-Adds i args w,
  selftest_call_done-Adds i e 0 args w,
  upload_vendor_config_file-Adds i e args w,
)

pub upload_prepare-Adds :
    (i : ℕ) (e : Env) (args : Args) (w : World) → Adds i w (upload_prepare e args w)
unfolding upload_prepare
upload_prepare-Adds i e args w = elim (Option-cases args.file_type) [
  | inl n ↦ ground (arith, n, Adds-refl i w)
  | inr (type, n) ↦ ground (arith, n, Adds-refl i w, prepare_type-Adds i e type args w)
]

prepare_type_tracks :
    (e : Env) (type : CString) (args : Args) (w : World)
    → e.self_test_refused ≡ false
    → is_supported type ≡ true
    → (args.index == 0) ≡ false
    → is_some (w.transfers args.index) ≡ true
    → is_tracked args.index (prepare_type e type args w) ≡ true
unfolding prepare_type
prepare_type_tracks e type args w test known z here = ground (
  arith,
  test,
  known,
  any-append (is_test_of args.index) w.selftest_requests (args ∷ []),
  selftest_call_done_tracks e 0 args w z here,
  upload_vendor_config_file_tracks e args w z here,
)

-- An upload of a supported type gets on its way or is reported.
pub upload_prepare_tracks :
    (e : Env) (args : Args) (w : World)
    → e.has_device ≡ true
    → e.self_test_refused ≡ false
    → has_type args.file_type ≡ true
    → (args.index == 0) ≡ false
    → is_some (w.transfers args.index) ≡ true
    → is_tracked args.index (upload_prepare e args w) ≡ true
unfolding upload_prepare
upload_prepare_tracks e args w device test typed z here = elim (Option-cases args.file_type) [
  | inl n ↦ ground (arith, n, typed)
  | inr (type, n) ↦
      let known : is_supported type ≡ true = ground (arith, n, typed) in
      ground (arith, n, typed, device, prepare_type_tracks e type args w test known z here)
]
