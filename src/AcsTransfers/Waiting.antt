-- ===== src/AcsTransfers/Waiting.antt =====
-- What an event of an upload does with it (cwmp_plugin/cwmp_plugin_transfer.c).
use mathlib.Core.Path.{subst}
use tr069_manager.Base.{
  ℕ, zero, suc, ◌≡◌, inl, inr, Bool, true, false, ◌||◌, Option, some, List, [], ◌∷◌, arith, ◌==◌,
  Bool-cases, Option-cases, is_some, CString, streq, get_elem?, is_empty,
}
use tr069_manager.AcsTransfers.Defs.{at, finished, Args, UploadContext, Completion, World, Env}
use tr069_manager.AcsTransfers.Upload.{
  upload_find, upload_complete_notification, selftest_call_done, upload_prepare,
}
use tr069_manager.AcsTransfers.Firmware.{image_notification}
use tr069_manager.AcsTransfers.Events.{
  pick, upload_timer_expired, self_test_ended, image_changed, with_picked, handle,
}
use tr069_manager.AcsTransfers.Tracked.{
  any, has_type, is_upload_of, is_test_of, is_context_of, is_tracked, Adds,
  transfer_update_status-Adds, transfer_update_status_reports,
}
use tr069_manager.AcsTransfers.Keeping.{
  selftest_call_done-Adds, selftest_call_done_tracks, upload_prepare-Adds, upload_prepare_tracks,
}
use tr069_manager.AcsTransfers.Passing.{image_notification-Adds}

-- The instance is there, and its upload is on the way or its end was reported.
abbrev pub IsTracked : ℕ → World → Type 0
IsTracked i w = (is_some (w.transfers i) ≡ true) × (is_tracked i w ≡ true)

-- The device can be reached, and it accepts the call of a self test.
abbrev pub Reaches : Env → Type 0
Reaches e = (e.has_device ≡ true) × (e.self_test_refused ≡ false)

pub Adds-IsTracked : (i : ℕ) (w w' : World) → Adds i w w' → IsTracked i w → IsTracked i w'
Adds-IsTracked i w w' all (here, tracked) =
    (ground (arith, all.0, here), ground (arith, all, tracked))

pick-any {ℓ} :
    {A : Type ℓ} (p : A → Bool) (n : ℕ) (l : List A) (x : A) (l' : List A)
    → pick n l ≡ some (x, l')
    → any p l ≡ (p x || any p l')
unfolding pick
pick-any p n [] x l' f = ground (arith, f)
pick-any p zero (y ∷ l) x l' f = ground (arith, f)
pick-any p (suc n) (y ∷ l) x l' f = elim (Option-cases (pick n l)) [
  | inl k ↦ ground (arith, k, f)
  | inr ((z, m), k) ↦ ground (arith, k, f, pick-any p n l z m k)
]

find-any :
    (i : ℕ) (url : CString) (l : List UploadContext) (u : UploadContext) (l' : List UploadContext)
    → upload_find url l ≡ some (u, l')
    → any (is_context_of i) l ≡ (is_context_of i u || any (is_context_of i) l')
unfolding upload_find
find-any i url [] u l' f = ground (arith, f)
find-any i url (v ∷ l) u l' f = elim (Bool-cases (streq v.url url)) [
  | inl s ↦ ground (arith, s, f)
  | inr s ↦ elim (Option-cases (upload_find url l)) [
    | inl k ↦ ground (arith, s, k, f)
    | inr ((z, m), k) ↦ ground (arith, s, k, f, find-any i url l z m k)
  ]
]

-- A timer's upload goes on.
timer_goes_on :
    (i : ℕ) (e : Env) (args : Args) (delay : ℕ) (w : World)
    → (i == 0) ≡ false
    → Reaches e
    → is_upload_of i (args, delay) ≡ true
    → is_some (w.transfers i) ≡ true
    → is_tracked i (upload_prepare e args w) ≡ true
timer_goes_on i e args delay w z reach upload here =
    let q : args.index ≡ i = ground (arith, upload) in
    let typed : has_type args.file_type ≡ true = ground (arith, upload) in
    let z' : (args.index == 0) ≡ false = ground (arith, q, z) in
    let here' : is_some (w.transfers args.index) ≡ true = rw q here in
    subst (λ j. is_tracked j (upload_prepare e args w) ≡ true) q
      (upload_prepare_tracks e args w reach.0 reach.1 typed z' here')

pub timer-IsTracked :
    (i n : ℕ) (e : Env) (w : World)
    → (i == 0) ≡ false
    → Reaches e
    → IsTracked i w
    → IsTracked i (handle e (upload_timer_expired n) w)
unfolding handle with_picked
timer-IsTracked i n e w z reach (here, tracked) = elim (Option-cases (pick n w.upload_timers)) [
  | inl k ↦ rw (k, handle) (here, tracked)
  | inr (((args, delay), l), k) ↦
      let w' = record w { upload_timers = l } in
      let all = upload_prepare-Adds i e args w' in
      let one = pick-any (is_upload_of i) n w.upload_timers (args, delay) l k in
      elim (Bool-cases (is_upload_of i (args, delay))) [
        | inl u ↦
            rw (k, handle)
              (ground (arith, all.0, here), timer_goes_on i e args delay w' z reach u here)
        | inr u ↦
            rw (k, handle)
              (Adds-IsTracked i w' (upload_prepare e args w') all
                (here, ground (arith, tracked, one, u)))
      ]
]

pub self_test-IsTracked :
    (i n status : ℕ) (e : Env) (w : World)
    → (i == 0) ≡ false
    → IsTracked i w
    → IsTracked i (handle e (self_test_ended n status) w)
unfolding handle with_picked
self_test-IsTracked i n status e w z (here, tracked) =
    elim (Option-cases (pick n w.selftest_requests)) [
      | inl k ↦ rw (k, handle) (here, tracked)
      | inr ((args, l), k) ↦
          let w' = record w { selftest_requests = l } in
          let all = selftest_call_done-Adds i e status args w' in
          let one = pick-any (is_test_of i) n w.selftest_requests args l k in
          elim (Bool-cases (is_test_of i args)) [
            | inl u ↦
                let q : args.index ≡ i = ground (arith, u) in
                let z' : (args.index == 0) ≡ false = ground (arith, q, z) in
                rw (k, handle)
                  (
                    ground (arith, all.0, here),
                    subst (λ j. is_tracked j (selftest_call_done e status args w') ≡ true) q
                        (selftest_call_done_tracks e status args w' z' (rw q here)),
                  )
            | inr u ↦
                rw (k, handle)
                  (Adds-IsTracked i w' (selftest_call_done e status args w') all
                    (here, ground (arith, tracked, one, u)))
          ]
    ]

pub completion-IsTracked :
    (i : ℕ) (e : Env) (c : Completion) (w : World)
    → IsTracked i w
    → IsTracked i (upload_complete_notification e c w)
unfolding upload_complete_notification
completion-IsTracked i e c w (here, tracked) = elim (Option-cases c.transfer_url) [
  | inl n ↦ rw (n, upload_complete_notification) (here, tracked)
  | inr (url, n) ↦ elim (Bool-cases (is_empty url)) [
    | inl b ↦ rw (n, b, upload_complete_notification) (here, tracked)
    | inr b ↦ elim (Option-cases (upload_find url w.upload_requests)) [
      | inl k ↦ rw (n, b, k, upload_complete_notification) (here, tracked)
      | inr ((u, l), k) ↦
          let all =
            transfer_update_status-Adds i u.index finished (at u.time) (at e.now) c.fault_code
              c.fault_string w in
          let one = find-any i url w.upload_requests u l k in
          let report =
            transfer_update_status_reports i (at u.time) (at e.now) c.fault_code c.fault_string w
              here in
          rw (n, b, k, upload_complete_notification)
            (ground (arith, all.0, here), ground (arith, all, tracked, one, report))
    ]
  ]
]

pub image-IsTracked :
    (i n : ℕ) (e : Env) (status log : Option CString) (w : World)
    → IsTracked i w
    → IsTracked i (handle e (image_changed n status log) w)
unfolding handle
image-IsTracked i n e status log w old = elim (Option-cases (get_elem? w.subscriptions n)) [
  | inl k ↦ rw (k, handle) old
  | inr (j, k) ↦
      rw (k, handle)
        (Adds-IsTracked i w (image_notification e j status log w)
          (image_notification-Adds i j e status log w) old)
]
