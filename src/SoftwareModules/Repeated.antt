-- ===== src/SoftwareModules/Repeated.antt =====
-- A result whose status is lost (cwmp_plugin/smm.c).
use tr069_manager.Base.{
  ℕ, ◌≡◌, refl, ap, ◌∙◌, true, false, some, [], ◌∷◌, ◌++◌, append_assoc, arith, ◌==◌,
}
use tr069_manager.SoftwareModules.Defs.{op_status_in_progress, OpResult, Operation, Smm, Env, done}
use tr069_manager.SoftwareModules.Operation.{
  op_status_get, find_operation, put_operation, add_result, finish_operation, op_status_set,
  op_handle_results,
}
use tr069_manager.SoftwareModules.Writes.{
  find_operation-id, put_operation-put_operation, find_operation-put_operation,
}
use tr069_manager.SoftwareModules.Events.{result_came, handle, run_events}

-- The operation that ends with two results.
abbrev pub with_both : OpResult → OpResult → Operation → Operation
with_both r r' op = record op { results = op.results ++ (r ∷ r' ∷ []); status = done }

results-twice :
    (r r' : OpResult) (op : Operation)
    → finish_operation (add_result r' (add_result r op)) ≡ with_both r r' op
unfolding finish_operation add_result
results-twice r r' op = rw (append_assoc op.results (r ∷ []) (r' ∷ [])) refl

-- The operation stays in progress with its first result.
first_lost :
    (e : Env) (id n : ℕ) (r : OpResult) (op : Operation) (s : Smm)
    → find_operation id 0 s.changes ≡ some (n, op)
    → op_status_get op ≡ op_status_in_progress
    → (id == 0) ≡ false
    → e.apply_fails ≡ false
    → e.status_fails ≡ true
    → handle e (result_came id (some r)) s
      ≡ record s { changes = put_operation id (add_result r op) s.changes }
unfolding handle op_handle_results op_status_set
first_lost e id n r op s found busy nonzero works lost =
    ground (arith, found, busy, nonzero, works, lost)

second_kept :
    (e : Env) (id n : ℕ) (r : OpResult) (op : Operation) (s : Smm)
    → find_operation id 0 s.changes ≡ some (n, op)
    → op_status_get op ≡ op_status_in_progress
    → (id == 0) ≡ false
    → e.apply_fails ≡ false
    → e.status_fails ≡ false
    → handle e (result_came id (some r)) s ≡ record s {
      changes = put_operation id (finish_operation (add_result r op)) s.changes;
      done_events = s.done_events ++ n ∷ [];
    }
unfolding handle op_handle_results op_status_set add_result
second_kept e id n r op s found busy nonzero works writes =
    let same = find_operation-id id 0 n s.changes op found in
    let new = finish_operation (add_result r op) in
    let twice = put_operation-put_operation id (add_result r op) new s.changes same in
    ground (arith, found, busy, nonzero, works, writes, twice)

-- If the write of the status fails after the result of an operation in progress was added, the next
-- result for its ID, which may be the same one, is added too, and the operation ends with both.
pub lost_status-repeats :
    (e e' : Env) (id n : ℕ) (r r' : OpResult) (op : Operation) (s : Smm)
    → find_operation id 0 s.changes ≡ some (n, op)
    → op_status_get op ≡ op_status_in_progress
    → (id == 0) ≡ false
    → (e.apply_fails ≡ false) × (e.status_fails ≡ true)
    → (e'.apply_fails ≡ false) × (e'.status_fails ≡ false)
    → run_events ((e, result_came id (some r)) ∷ (e', result_came id (some r')) ∷ []) s ≡ record s {
      changes = put_operation id (with_both r r' op) s.changes;
      done_events = s.done_events ++ n ∷ [];
    }
unfolding run_events op_status_get add_result
lost_status-repeats e e' id n r r' op s found busy nonzero lost works =
    let one = add_result r op in
    let s' = record s { changes = put_operation id one s.changes } in
    let same = find_operation-id id 0 n s.changes op found in
    let found' : find_operation id 0 s'.changes ≡ some (n, one) =
      find_operation-put_operation id 0 n one op s.changes same found in
    let both = finish_operation (add_result r' one) in
    let twice = put_operation-put_operation id one both s.changes same in
    ap (handle e' (result_came id (some r')))
      (first_lost e id n r op s found busy nonzero lost.0 lost.1)
    ∙ second_kept e' id n r' one s' found' busy nonzero works.0 works.1
    ∙ ground (arith, twice, results-twice r r' op)
