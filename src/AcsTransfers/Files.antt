-- ===== src/AcsTransfers/Files.antt =====
-- The downloads of files from AddTransfer to the script (cwmp_plugin/cwmp_plugin_transfer.c).
use tr069_manager.Base.{
  ◌*◌, ◌%◌, ◌^◌, ◌≡◌, refl, ◌∙◌, inl, inr, true, false, some, List, [], ◌∷◌, ◌++◌, append_assoc,
  arith, ◌==◌, if◌then◌else◌, Bool-cases, CString,
}
use tr069_manager.AcsTransfers.Defs.{
  zero_time, finished, AcsTransfer, Args, Request, Result, Action, update, run_task, send, World,
  Env, perform, put_transfer,
}
use tr069_manager.AcsTransfers.Status.{transfer_update_status}
use tr069_manager.AcsTransfers.Download.{
  script_of, download_finished, request_cb, target_file_of, new_request, set_target_file,
  start_request, is_firmware, request_prepare,
}
use tr069_manager.AcsTransfers.Events.{
  pick, add_transfer, start_timer_expired, request_ended, start_timer_cb, with_picked, handle,
  run_events,
}

-- The request that is sent for the arguments of a download.
abbrev pub sent_request : Args → Request
sent_request args = record (new_request args) { target_file = some (target_file_of args) }

-- The instance after the end of a request.
abbrev pub ended : Result → CString → AcsTransfer → AcsTransfer
ended r file t = record t {
  status = finished;
  start_time = r.request_start;
  complete_time = if r.error_code == 0 then r.request_end else zero_time;
  fault_code = r.error_code;
  fault_string = r.error_reason;
  save_file_name = file;
}

abbrev pub script_run : Result → CString → CString → List Action
script_run r script file = if r.error_code == 0 then run_task script file ∷ [] else []

-- The state after AddTransfer.
abbrev added : Args → AcsTransfer → World → World
added args t w =
    record (put_transfer args.index (record t { save_file_name = target_file_of args }) w) {
      start_timers = (sent_request args, args.delay_seconds * 1000 % 2 ^ 32) ∷ [];
    }

add_transfer-added :
    (e : Env) (args : Args) (t : AcsTransfer) (w : World)
    → args.is_download ≡ true
    → is_firmware args.file_type ≡ false
    → e.find_command_key args.command_key ≡ some args.index
    → w.transfers args.index ≡ some t
    → w.start_timers ≡ []
    → handle e (add_transfer args) w ≡ added args t w
unfolding handle request_prepare start_request set_target_file new_request put_transfer
add_transfer-added e args t w down other key here quiet =
    ground (arith, down, other, key, here, quiet)

-- The end of a request.
pub request_cb-runs :
    (r : Result) (req : Request) (t : AcsTransfer) (script : CString) (w : World)
    → w.transfers req.index ≡ some t
    → script_of t.file_type ≡ some script
    → let w' = request_cb r req w in
      (w'.log ≡ w.log ++ (script_run r script t.save_file_name ++ update req.index finished ∷ []))
      × (w'.transfers req.index ≡ some (ended r t.save_file_name t))
      × (w'.requests ≡ w.requests)
unfolding request_cb download_finished transfer_update_status put_transfer
request_cb-runs r req t script w here typed = elim (Bool-cases (r.error_code == 0)) [
  | inl z ↦ (
    ground (
      arith,
      z,
      here,
      typed,
      append_assoc w.log (run_task script t.save_file_name ∷ []) (update req.index finished ∷ []),
    ),
    ground (arith, z, here, typed),
    ground (arith, z, here, typed),
  )
  | inr z ↦ (
    ground (arith, z, here, typed),
    ground (arith, z, here, typed),
    ground (arith, z, here, typed),
  )
]

-- A download of a file, with no other request on the way, whose CommandKey finds its own instance
-- and whose type has a script: AddTransfer, the end of its delay and the end of its request send one
-- request that writes to a file, run the script on that very file exactly if the error code is 0, and
-- end with the instance Finished with the request's times, code and reason, where a failure has the
-- zero time as its end.
pub download-runs :
    (e : Env) (args : Args) (r : Result) (t : AcsTransfer) (script : CString) (w : World)
    → args.is_download ≡ true
    → is_firmware args.file_type ≡ false
    → e.find_command_key args.command_key ≡ some args.index
    → w.transfers args.index ≡ some t
    → script_of t.file_type ≡ some script
    → w.start_timers ≡ []
    → w.requests ≡ []
    → let w' =
        run_events
          ((e, add_transfer args) ∷ (e, start_timer_expired 0) ∷ (e, request_ended 0 r) ∷ [])
          w in
      (w'.log
        ≡ w.log
          ++ send (sent_request args)
            ∷ (script_run r script (target_file_of args) ++ update args.index finished ∷ []))
      × (w'.transfers args.index ≡ some (ended r (target_file_of args) t))
      × (w'.requests ≡ [])
unfolding run_events handle with_picked pick start_timer_cb put_transfer new_request
download-runs e args r t script w down other key here typed quiet idle =
    let req = sent_request args in
    let w' = record (perform (send req) (added args t w)) { start_timers = []; requests = [] } in
    let t' : AcsTransfer = record t { save_file_name = target_file_of args } in
    let last = request_cb-runs r req t' script w' (ground arith) typed in
    let run : run_events ((e, start_timer_expired 0) ∷ (e, request_ended 0 r) ∷ []) (added args t w)
        ≡ request_cb r req w' =
      rw idle refl in
    rw (add_transfer-added e args t w down other key here quiet) (
      rw run (
        last.0
            ∙ append_assoc w.log (send req ∷ [])
                (script_run r script (target_file_of args) ++ update args.index finished ∷ []),
        last.1,
        last.2,
      ))
