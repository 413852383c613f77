-- ===== src/SoftwareModules/Complete.antt =====
-- A state change from its call to its end (cwmp_plugin/smm.c).
use tr069_manager.Base.{
  ℕ, suc, ◌+◌, ◌≡◌, refl, inl, inr, false, Option, none, some, List, [], ◌∷◌, ◌++◌, arith, ◌==◌,
  Option-cases, CString, streq_refl, length,
}
use tr069_manager.SoftwareModules.Defs.{
  op_status_in_progress, Request, Call, OpResult, Operation, StateChange, Smm, Env, in_progress,
  done,
}
use tr069_manager.SoftwareModules.Operation.{
  op_status_get, call_of, op_run, new_change, add_change, change_du_state, find_in, find_operation,
  put_in, put_operation, add_result, finish_operation, op_status_set, op_handle_results, count_done,
  finish_change, dscc_op_done,
}
use tr069_manager.SoftwareModules.Writes.{put_operation-put_operation}
use tr069_manager.SoftwareModules.Events.{change_called, result_came, done_told, handle, run_events}

find_operation-last :
    (id n : ℕ) (l : List StateChange) (c : StateChange) (op : Operation)
    → find_in id c.operations ≡ some op
    → find_operation id n l ≡ none
    → find_operation id n (l ++ c ∷ []) ≡ some (n + length l, op)
unfolding find_operation
find_operation-last id n [] c op here absent = ground (arith, here)
find_operation-last id n (x ∷ l) c op here absent = elim (Option-cases (find_in id x.operations)) [
  | inl k ↦ ground (arith, k, absent, find_operation-last id (suc n) l c op here)
  | inr (y, k) ↦ ground (arith, k, absent)
]

put_operation-last :
    (id n : ℕ) (l : List StateChange) (c : StateChange) (op new : Operation)
    → find_in id c.operations ≡ some op
    → find_operation id n l ≡ none
    → put_operation id new (l ++ c ∷ [])
      ≡ l ++ record c { operations = put_in id new c.operations } ∷ []
unfolding find_operation put_operation
put_operation-last id n [] c op new here absent = ground (arith, here)
put_operation-last id n (x ∷ l) c op new here absent =
    elim (Option-cases (find_in id x.operations)) [
      | inl k ↦ ground (arith, k, absent, put_operation-last id (suc n) l c op new here)
      | inr (y, k) ↦ ground (arith, k, absent)
    ]

dscc_op_done-last :
    (e : Env) (l : List StateChange) (c : StateChange)
    → dscc_op_done e (length l) (l ++ c ∷ []) ≡ l ++ finish_change e c ∷ []
unfolding dscc_op_done
dscc_op_done-last e [] c = refl
dscc_op_done-last e (x ∷ l) c = ground (arith, dscc_op_done-last e l c)

abbrev pub new_operation : Request → Call → ℕ → Operation
new_operation req call id = record {
  type = req.type;
  status = in_progress;
  id = id;
  call = call;
  results = [];
}

-- The instance of a state change that has its result.
abbrev pub completed : Option CString → Option CString → Request → Call → ℕ → OpResult → StateChange
completed initiator key req call id r = record {
  status = done;
  initiator = initiator;
  command_key = key;
  operations = finish_operation (add_result r (new_operation req call id)) ∷ [];
}

called :
    (e : Env) (initiator key : Option CString) (req : Request) (reqs : List Request) (call : Call)
    (id : ℕ) (s : Smm)
    → call_of req ≡ some call
    → e.answer call ≡ some id
    → (id == 0) ≡ false
    → e.apply_fails ≡ false
    → handle e (change_called initiator key (req ∷ reqs)) s ≡ record s {
      log = s.log ++ call ∷ [];
      changes = s.changes ++ new_change initiator key req call id ∷ [];
    }
unfolding handle change_du_state op_run add_change
called e initiator key req reqs call id s known run nonzero works =
    ground (arith, known, run, nonzero, works)

-- The state change with its operation done.
abbrev ended : StateChange → Operation → StateChange
ended c new = record c { operations = new ∷ [] }

-- The result of an operation of the last state change.
result_taken :
    (e : Env) (id : ℕ) (r : OpResult) (l : List StateChange) (c : StateChange) (op : Operation)
    (s : Smm)
    → s.changes ≡ l ++ c ∷ []
    → c.operations ≡ op ∷ []
    → op.id ≡ id
    → op.status ≡ in_progress
    → (id == 0) ≡ false
    → e.apply_fails ≡ false
    → e.status_fails ≡ false
    → find_operation id 0 l ≡ none
    → s.done_events ≡ []
    → handle e (result_came id (some r)) s ≡ record s {
      changes = l ++ ended c (finish_operation (add_result r op)) ∷ [];
      done_events = length l ∷ [];
    }
unfolding handle op_handle_results op_status_set find_in put_in op_status_get add_result
result_taken e id r l c op s last one same busy nonzero works writes absent quiet =
    let here : find_in id c.operations ≡ some op = ground (arith, one, same) in
    let find = find_operation-last id 0 l c op here absent in
    let new = finish_operation (add_result r op) in
    let put = put_operation-last id 0 l c op new here absent in
    let put' : put_in id new c.operations ≡ new ∷ [] = ground (arith, one, same) in
    let twice = put_operation-put_operation id (add_result r op) new (l ++ c ∷ []) same in
    let get : op_status_get op ≡ op_status_in_progress =
      ground (arith, busy, streq_refl in_progress) in
    ground (arith, last, nonzero, works, writes, find, put, put', twice, get, quiet)

-- The event of the last state change, whose one operation is done.
done_taken :
    (e : Env) (l : List StateChange) (c : StateChange) (op : Operation) (s : Smm)
    → s.changes ≡ l ++ c ∷ []
    → c.operations ≡ op ∷ []
    → op.status ≡ done
    → e.apply_fails ≡ false
    → s.done_events ≡ length l ∷ []
    → handle e done_told s
      ≡ record s { changes = l ++ record c { status = done } ∷ []; done_events = [] }
unfolding handle finish_change count_done
done_taken e l c op s last one end works wait =
    let end' : finish_change e c ≡ record c { status = done } =
      ground (arith, one, end, works, streq_refl done) in
    ground (arith, last, wait, dscc_op_done-last e l c, end')

-- A call of changeDUState whose first operation has a type with all that it needs, is started with
-- an ID that no operation has, adds a state change; once the result for this ID came and its event
-- was told, with no other event waiting and all transactions successful, the state change is Done,
-- with the one operation Done and this result. The further operations of the call leave no trace.
pub change-completes :
    (e : Env) (initiator key : Option CString) (req : Request) (reqs : List Request) (call : Call)
    (id : ℕ) (r : OpResult) (s : Smm)
    → call_of req ≡ some call
    → e.answer call ≡ some id
    → (id == 0) ≡ false
    → e.apply_fails ≡ false
    → e.status_fails ≡ false
    → find_operation id 0 s.changes ≡ none
    → s.done_events ≡ []
    → let s' =
        run_events
          ((e, change_called initiator key (req ∷ reqs))
            ∷ (e, result_came id (some r))
            ∷ (e, done_told)
            ∷ [])
          s in
      (s'.changes ≡ s.changes ++ completed initiator key req call id r ∷ [])
      × (s'.done_events ≡ [])
      × (s'.log ≡ s.log ++ call ∷ [])
unfolding run_events new_change finish_operation add_result
change-completes e initiator key req reqs call id r s known run nonzero works writes absent quiet =
    let c = new_change initiator key req call id in
    let op = new_operation req call id in
    let new = finish_operation (add_result r op) in
    let s' = record s { log = s.log ++ call ∷ []; changes = s.changes ++ c ∷ [] } in
    let s'' = record s' {
      changes = s.changes ++ ended c new ∷ [];
      done_events = length s.changes ∷ [];
    } in
    rw (called e initiator key req reqs call id s known run nonzero works) (
      rw
        (result_taken e id r s.changes c op s' refl refl refl refl nonzero works writes absent
          quiet)
        (rw (done_taken e s.changes (ended c new) new s'' refl refl refl works refl)
          (refl, refl, refl)))
