-- ===== src/SoftwareModules/Invariant.antt =====
-- The results of the operations over all events (cwmp_plugin/smm.c).
use tr069_manager.Base.{
  ℕ, zero, suc, ◌≡◌, refl, ◌⊎◌, inl, inr, Bool, true, false, ◌&&◌, Option, none, some, List, [],
  ◌∷◌, arith, Bool-cases, Option-cases, CString, streq, streq_refl, All, List-cases,
}
use tr069_manager.SoftwareModules.Defs.{
  OpStatus, op_status_none, op_status_in_progress, op_status_done, Request, Call, OpResult,
  Operation, StateChange, Smm, Env, done,
}
use tr069_manager.SoftwareModules.Operation.{
  op_status_get, call_of, op_run, new_change, add_change, change_du_state, find_operation,
  put_operation, add_result, finish_operation, op_status_set, op_handle_results, finish_change,
  dscc_op_done,
}
use tr069_manager.SoftwareModules.Events.{
  Event, change_called, result_came, done_told, handle, run_events,
}
use tr069_manager.SoftwareModules.Single.{
  all, all-append, is_done, is_sound, is_sound_change, is_sound_state, busy-undone,
  put_operation-is_sound, find-is_sound, finish-is_sound, add-is_sound, count_done-all,
}
use tr069_manager.SoftwareModules.Writes.{find_operation-id, put_operation-put_operation}

op_run-changes : (e : Env) (req : Request) (s : Smm) → (op_run e req s).0.changes ≡ s.changes
unfolding op_run
op_run-changes e req s = elim (Option-cases (call_of req)) [
  | inl n ↦ ground (arith, n)
  | inr (call, n) ↦ elim (Option-cases (e.answer call)) [
    | inl a ↦ ground (arith, n, a)
    | inr (id, a) ↦ ground (arith, n, a)
  ]
]

OpStatus-cases :
    (x : OpStatus) → (x ≡ op_status_in_progress) ⊎ ((x ≡ op_status_none) ⊎ (x ≡ op_status_done))
OpStatus-cases op_status_in_progress = inl refl
OpStatus-cases op_status_none = inr (inl refl)
OpStatus-cases op_status_done = inr (inr refl)

module _ (exact : Bool) where
  new-is_sound :
      (initiator key : Option CString) (req : Request) (call : Call) (id : ℕ)
      → is_sound_change exact (new_change initiator key req call id) ≡ true
  unfolding new_change streq
  new-is_sound initiator key req call id = ground arith

  add_change-is_sound :
      (e : Env) (initiator key : Option CString) (req : Request) (r : Smm × Option (Call × ℕ))
      → is_sound_state exact r.0 ≡ true
      → is_sound_state exact (add_change e initiator key req r).0 ≡ true
  unfolding add_change
  add_change-is_sound e initiator key req (s, none) sound = sound
  add_change-is_sound e initiator key req (s, some (call, id)) sound = ground (
    arith,
    sound,
    new-is_sound initiator key req call id,
    all-append (is_sound_change exact) s.changes (new_change initiator key req call id ∷ []),
  )

  change_du_state-is_sound :
      (e : Env) (initiator key : Option CString) (reqs : List Request) (s : Smm)
      → is_sound_state exact s ≡ true
      → is_sound_state exact (change_du_state e initiator key reqs s).0 ≡ true
  unfolding change_du_state
  change_du_state-is_sound e initiator key [] s sound = sound
  change_du_state-is_sound e initiator key (req ∷ reqs) s sound =
      let same = op_run-changes e req s in
      add_change-is_sound e initiator key req (op_run e req s) (ground (arith, same, sound))

  -- The two writes of a result, whether or not the second one fails.
  status-is_sound :
      (e : Env) (id n : ℕ) (r : OpResult) (op : Operation) (s : Smm)
      → find_operation id 0 s.changes ≡ some (n, op)
      → is_done op ≡ false
      → is_sound exact op ≡ true
      → (exact && e.status_fails) ≡ false
      → is_sound_state exact s ≡ true
      → let s' = record s { changes = put_operation id (add_result r op) s.changes } in
        is_sound_state exact (op_status_set e id n (add_result r op) s') ≡ true
  unfolding op_status_set add_result
  status-is_sound e id n r op s f undone good writes sound = elim (Bool-cases e.status_fails) [
    | inl w ↦
        let any : exact ≡ false = ground (arith, w, writes) in
        let fine : is_sound exact (add_result r op) ≡ true =
          rw any (add-is_sound r op (rw any at good) undone) in
        let put =
          put_operation-is_sound exact id 0 n (add_result r op) op s.changes f undone fine sound in
        ground (arith, w, put)
    | inr w ↦
        let new = finish_operation (add_result r op) in
        let same = find_operation-id id 0 n s.changes op f in
        let fine = finish-is_sound exact r op good undone in
        let put = put_operation-is_sound exact id 0 n new op s.changes f undone fine sound in
        let twice = put_operation-put_operation id (add_result r op) new s.changes same in
        ground (arith, w, put, twice)
  ]

  result-is_sound :
      (e : Env) (id : ℕ) (result : Option OpResult) (s : Smm)
      → (exact && e.status_fails) ≡ false
      → is_sound_state exact s ≡ true
      → is_sound_state exact (op_handle_results e id result s) ≡ true
  unfolding op_handle_results
  result-is_sound e id none s writes sound = elim (Option-cases (find_operation id 0 s.changes)) [
    | inl f ↦ ground (arith, f, sound)
    | inr ((n, op), f) ↦ ground (arith, f, sound)
  ]
  result-is_sound e id (some r) s writes sound =
      elim (Option-cases (find_operation id 0 s.changes)) [
        | inl f ↦ ground (arith, f, sound)
        | inr ((n, op), f) ↦
            let good = find-is_sound exact id 0 n s.changes op f sound in
            elim (OpStatus-cases (op_status_get op)) [
              | inl busy ↦
                  let next =
                    status-is_sound e id n r op s f (busy-undone op busy) good writes sound in
                  ground (arith, f, busy, next, sound)
              | inr (inl q) ↦ ground (arith, f, q, sound)
              | inr (inr q) ↦ ground (arith, f, q, sound)
            ]
      ]

  finish_change-is_sound :
      (e : Env) (c : StateChange)
      → is_sound_change exact c ≡ true
      → is_sound_change exact (finish_change e c) ≡ true
  unfolding finish_change
  finish_change-is_sound e c sound =
      ground (arith, sound, streq_refl done, count_done-all c.operations)

  told-is_sound :
      (e : Env) (n : ℕ) (l : List StateChange)
      → all (is_sound_change exact) l ≡ true
      → all (is_sound_change exact) (dscc_op_done e n l) ≡ true
  unfolding dscc_op_done
  told-is_sound e n [] sound = refl
  told-is_sound e zero (c ∷ l) sound = ground (arith, sound, finish_change-is_sound e c)
  told-is_sound e (suc n) (c ∷ l) sound = ground (arith, sound, told-is_sound e n l)

  handle-is_sound :
      (e : Env) (event : Event) (s : Smm)
      → (exact && e.status_fails) ≡ false
      → is_sound_state exact s ≡ true
      → is_sound_state exact (handle e event s) ≡ true
  unfolding handle
  handle-is_sound e (change_called initiator key reqs) s writes sound =
      change_du_state-is_sound e initiator key reqs s sound
  handle-is_sound e (result_came id result) s writes sound =
      result-is_sound e id result s writes sound
  handle-is_sound e done_told s writes sound = elim (List-cases s.done_events) [
    | inl n ↦ ground (arith, n, sound)
    | inr (n, (l, k)) ↦ ground (arith, k, told-is_sound e n s.changes sound)
  ]

-- From a state in which every operation is in progress or Done, with a result where it is Done, and
-- no state change is Done before all of its operations are, any calls and notifications, repeated
-- results and failed transactions among them, lead to such states. Where `exact` is set, the states
-- have no result of an operation in progress and one of an operation that is Done, and no write of a
-- status after a result fails.
pub run_events-is_sound :
    (exact : Bool) (events : List (Env × Event)) (s : Smm)
    → All (λ p. (exact && p.0.status_fails) ≡ false) events
    → is_sound_state exact s ≡ true
    → is_sound_state exact (run_events events s) ≡ true
unfolding run_events
run_events-is_sound exact [] s writes sound = sound
run_events-is_sound exact ((e, event) ∷ events) s writes sound =
    run_events-is_sound exact events (handle e event s) writes.1
      (handle-is_sound exact e event s writes.0 sound)
