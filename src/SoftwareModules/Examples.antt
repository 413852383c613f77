-- ===== src/SoftwareModules/Examples.antt =====
-- Runs of the state changes, and their theorems at concrete states.
use tr069_manager.Base.{◌≡◌, refl, true, false, none, some, List, [], ◌∷◌, codes, streq}
use tr069_manager.SoftwareModules.Defs.{Request, Call, OpResult, Smm, Env}
use tr069_manager.SoftwareModules.Operation.{
  op_status_get, install_call, update_call, uninstall_call, call_of, op_run, new_change, add_change,
  change_du_state, find_in, find_operation, put_in, put_operation, add_result, finish_operation,
  op_status_set, op_handle_results, count_done, finish_change, dscc_op_done,
}
use tr069_manager.SoftwareModules.Events.{
  Event, change_called, result_came, done_told, handle, run_events,
}
use tr069_manager.SoftwareModules.Single.{is_sound_state}
use tr069_manager.SoftwareModules.Invariant.{run_events-is_sound}
use tr069_manager.SoftwareModules.Complete.{new_operation, completed, change-completes}
use tr069_manager.SoftwareModules.Repeated.{with_both, lost_status-repeats}

abbrev env : Env
env = record { answer = λ call. some 5; apply_fails = false; status_fails = false }

-- The write of the status after a result fails.
abbrev lossy : Env
lossy = record env { status_fails = true }

abbrev request : Request
request = record {
  type = codes "Uninstall";
  url = none;
  uuid = some (codes "u");
  username = none;
  password = none;
  execution_env_ref = some (codes "e");
  version = some (codes "1");
}

abbrev call : Call
call = record {
  rpc = codes "UninstallDU";
  url = none;
  uuid = some (codes "u");
  username = none;
  password = none;
  execution_env_ref = some (codes "e");
  version = some (codes "1");
}

abbrev result : OpResult
result = record {
  current_state = some (codes "Uninstalled");
  deployment_unit_ref = none;
  execution_unit_ref_list = none;
  fault_code = 0;
  fault_string = none;
  resolved = true;
  start_time = some 10;
  complete_time = some 20;
  uuid = some (codes "u");
  version = some (codes "1");
}

abbrev start : Smm
start = record { changes = []; done_events = []; log = [] }

-- A call, its result, the result once more and the event of the data model.
abbrev events : List (Env × Event)
events =
    (env, change_called none (some (codes "k")) (request ∷ []))
    ∷ (env, result_came 5 (some result))
    ∷ (env, result_came 5 (some result))
    ∷ (env, done_told)
    ∷ []

run_test :
    (run_events events start).changes ≡ completed none (some (codes "k")) request call 5 result ∷ []
unfolding run_events handle change_du_state op_run call_of install_call update_call uninstall_call
    add_change new_change op_handle_results find_operation find_in put_operation put_in
    op_status_get op_status_set add_result finish_operation dscc_op_done finish_change count_done
    streq
run_test = refl

run_events-is_sound_example : is_sound_state true (run_events events start) ≡ true
run_events-is_sound_example =
    run_events-is_sound true events start (refl, (refl, (refl, (refl, tt)))) refl

lossy_test :
    is_sound_state false
      (run_events ((lossy, result_came 5 (some result)) ∷ events) (run_events events start))
    ≡ true
unfolding streq
lossy_test =
    run_events-is_sound false ((lossy, result_came 5 (some result)) ∷ events)
      (run_events events start) (refl, (refl, (refl, (refl, (refl, tt)))))
      (run_events-is_sound false events start (refl, (refl, (refl, (refl, tt)))) refl)

abbrev busy : Smm
busy = record start { changes = new_change none none request call 5 ∷ [] }

lost_status-repeats_example :
    run_events ((lossy, result_came 5 (some result)) ∷ (env, result_came 5 (some result)) ∷ []) busy
    ≡ record busy {
      changes =
          put_operation 5 (with_both result result (new_operation request call 5)) busy.changes;
      done_events = 0 ∷ [];
    }
unfolding find_operation find_in new_change op_status_get streq
lost_status-repeats_example =
    lost_status-repeats lossy env 5 0 result result (new_operation request call 5) busy refl refl
      refl (refl, refl) (refl, refl)

change-completes_example :
    let s' =
      run_events
        ((env, change_called none (some (codes "k")) (request ∷ request ∷ []))
          ∷ (env, result_came 5 (some result))
          ∷ (env, done_told)
          ∷ [])
        start in
    (s'.changes ≡ completed none (some (codes "k")) request call 5 result ∷ [])
    × (s'.done_events ≡ [])
    × (s'.log ≡ call ∷ [])
unfolding call_of install_call update_call uninstall_call streq find_operation
change-completes_example =
    change-completes env none (some (codes "k")) request (request ∷ []) call 5 result start refl
      refl refl refl refl refl refl
