-- ===== src/SoftwareModules/Events.antt =====
-- The calls and notifications that reach cwmp_plugin/smm.c.
use tr069_manager.Base.{ℕ, Option, List, [], ◌∷◌, CString}
use tr069_manager.SoftwareModules.Defs.{Request, OpResult, Smm, Env}
use tr069_manager.SoftwareModules.Operation.{change_du_state, op_handle_results, dscc_op_done}

pub data Event : Type 0 where
  change_called : Option CString → Option CString → List Request → Event
  result_came : ℕ → Option OpResult → Event
  done_told : Event  -- the first event of the data model that waits

unfoldable pub handle : Env → Event → Smm → Smm
handle e (change_called initiator key reqs) s = (change_du_state e initiator key reqs s).0
handle e (result_came id result) s = op_handle_results e id result s
handle e done_told s = elim s.done_events [
  | [] ↦ s
  | n ∷ l ↦ record s { changes = dscc_op_done e n s.changes; done_events = l }
]

unfoldable pub run_events : List (Env × Event) → Smm → Smm
run_events [] s = s
run_events ((e, event) ∷ events) s = run_events events (handle e event s)
