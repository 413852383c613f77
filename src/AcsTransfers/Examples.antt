-- ===== src/AcsTransfers/Examples.antt =====
-- Runs of the transfers of the ACS, and their theorems at concrete states.
use tr069_manager.Base.{
  ◌≤◌, ◌≡◌, refl, ◌↔◌, true, false, none, some, List, [], ◌∷◌, ◌++◌, arith, ◌==◌, if◌then◌else◌,
  codes, streq, strstr,
}
use tr069_manager.AcsTransfers.Defs.{
  zero_time, at, initial, applying, finished, AcsTransfer, Args, Request, Result, Completion,
  log_file, config_file, update, call_vendor_file, self_test, run_task, send, World, Env,
  put_transfer,
}
use tr069_manager.AcsTransfers.Status.{transfer_update_status}
use tr069_manager.AcsTransfers.Upload.{
  vendorfile_get_index, upload_find, upload_complete_notification, vendor_args, call_vendor,
  fail_unless, selftest_call_done, prepare_type, upload_prepare, upload_start,
}
use tr069_manager.AcsTransfers.Firmware.{is_failure, download_timer_cb}
use tr069_manager.AcsTransfers.Download.{
  script_of, request_cb, target_file_of, new_request, is_firmware, request_prepare,
}
use tr069_manager.AcsTransfers.Events.{
  pick, Event, add_transfer, start_timer_expired, upload_timer_expired, request_ended,
  self_test_ended, transfer_completed, image_changed, with_picked, handle, run_events,
}
use tr069_manager.AcsTransfers.Waiting.{IsTracked}
use tr069_manager.AcsTransfers.Tracking.{upload-IsTracked}
use tr069_manager.AcsTransfers.Upgrade.{
  download_timer_outcome, changes, failed_with, first_failure-decides,
}
use tr069_manager.AcsTransfers.Files.{sent_request, ended, download-runs}
use tr069_manager.AcsTransfers.Ended.{uploaded, call-completed, upload-dropped}
use tr069_manager.AcsTransfers.Prefix.{backup-first, config_2-web_content, delays, delay-kept_iff}

abbrev env : Env
env = record {
  now = 100;
  has_device = true;
  self_test_refused = false;
  vendor_call_fails = false;
  subscribe_fails = false;
  unsubscribe_fails = false;
  image_call_fails = false;
  split_word = λ text. [];
  is_numeric = λ text. false;
  find_command_key = λ key. some 3;
}

abbrev upload_args : Args
upload_args = record {
  index = 3;
  is_download = false;
  delay_seconds = 10;
  file_type = some (codes "2 Vendor Log File");
  url = some (codes "http://f/");
  username = some (codes "u");
  password = some (codes "p");
  target_file_name = none;
  command_key = codes "k";
}

abbrev download_args : Args
download_args = record upload_args {
  is_download = true;
  file_type = some (codes "3 Vendor Configuration File");
}

abbrev transfer : AcsTransfer
transfer = record {
  status = initial;
  start_time = zero_time;
  complete_time = zero_time;
  fault_code = 0;
  fault_string = none;
  file_type = codes "3 Vendor Configuration File";
  save_file_name = [];
  url = codes "http://f/";
  username = codes "u";
  password = codes "p";
}

abbrev world : World
world = record {
  transfers = λ i. if i == 3 then some transfer else none;
  download_timers = [];
  start_timers = [];
  upload_timers = [];
  requests = [];
  selftest_requests = [];
  upload_requests = [];
  subscriptions = [];
  log = [];
}

abbrev completion : Completion
completion = record {
  transfer_url = some (codes "http://f/");
  fault_code = 0;
  fault_string = some [];
}

-- The timer of an upload, its self test and its end.
abbrev upload_events : List (Env × Event)
upload_events =
    (env, upload_timer_expired 0)
    ∷ (env, self_test_ended 0 0)
    ∷ (env, transfer_completed completion)
    ∷ []

upload_test :
    (run_events upload_events (handle env (add_transfer upload_args) world)).log
    ≡ self_test
      ∷ call_vendor_file log_file 1 (codes "http://f/") (codes "u") (codes "p")
      ∷ update 3 finished
      ∷ []
unfolding run_events handle request_prepare upload_start with_picked pick upload_prepare
    prepare_type strstr selftest_call_done call_vendor vendor_args vendorfile_get_index fail_unless
    upload_complete_notification upload_find streq transfer_update_status put_transfer
upload_test = refl

upload-IsTracked_example :
    IsTracked 3 (run_events upload_events (handle env (add_transfer upload_args) world))
unfolding strstr
upload-IsTracked_example =
    upload-IsTracked env upload_args upload_events world (omega arith) refl refl refl
      ((refl, refl), ((refl, refl), ((refl, refl), tt)))

download_timer_outcome_test :
    ((download_timer_cb env 3 world).transfers 3 ≡ some (record transfer { status = applying }))
    × ((download_timer_cb env 3 world).subscriptions ≡ 3 ∷ [])
download_timer_outcome_test = download_timer_outcome env 3 transfer world refl refl refl

first_failure-decides_example :
    (run_events
        (changes env ((some (codes "Validating"), none) ∷ [])
          ++ (env, image_changed 0 (some (codes "DownloadFailed")) (some (codes "(67) Error")))
            ∷ changes env ((some (codes "ActivationFailed"), none) ∷ []))
        (download_timer_cb env 3 world)).transfers
      3
    ≡ some (failed_with (codes "(67) Error") transfer)
unfolding is_failure streq
first_failure-decides_example =
    first_failure-decides env 3 transfer (codes "DownloadFailed") (some (codes "(67) Error"))
      ((some (codes "Validating"), none) ∷ []) ((some (codes "ActivationFailed"), none) ∷ []) world
      refl refl refl refl refl (refl, tt) refl

abbrev result : Result
result = record {
  error_code = 0;
  error_reason = some [];
  request_start = at 110;
  request_end = at 120;
}

abbrev download_events : List (Env × Event)
download_events =
    (env, add_transfer download_args)
    ∷ (env, start_timer_expired 0)
    ∷ (env, request_ended 0 result)
    ∷ []

download-runs_example :
    let w' = run_events download_events world in
    (w'.log
      ≡ send (sent_request download_args)
        ∷ run_task (codes "tr069_3_conf_apply") (codes "/tmp/dl_k")
        ∷ update 3 finished
        ∷ [])
    × (w'.transfers 3 ≡ some (ended result (codes "/tmp/dl_k") transfer))
    × (w'.requests ≡ [])
unfolding target_file_of is_firmware streq script_of strstr
download-runs_example =
    download-runs env download_args result transfer (codes "tr069_3_conf_apply") world refl refl
      refl refl refl refl refl

abbrev config_args : Args
config_args = record upload_args { file_type = some (codes "3 Vendor Configuration File 12") }

call-completed_example :
    let w' =
      upload_complete_notification env completion
        (call_vendor env config_file config_args world).0 in
    (w'.transfers 3 ≡ some (uploaded 100 100 completion transfer)) × (w'.upload_requests ≡ [])
unfolding vendor_args vendorfile_get_index strstr upload_find
call-completed_example =
    call-completed env env config_file config_args completion 1 (codes "http://f/") (codes "u")
      (codes "p") transfer world refl refl refl refl refl refl

abbrev odd_args : Args
odd_args = record upload_args { file_type = some (codes "X 00D09E Trace") }

upload-dropped_test :
    ((request_prepare env odd_args world).1 ≡ true)
    × (run_events ((env, add_transfer odd_args) ∷ (env, upload_timer_expired 0) ∷ []) world ≡ world)
unfolding strstr
upload-dropped_test =
    upload-dropped env env odd_args (codes "X 00D09E Trace") world refl refl refl refl refl refl
      refl refl

backup-first_example :
    (call_vendor env config_file config_args world).0.log
    ≡ call_vendor_file config_file 1 (codes "http://f/") (codes "u") (codes "p") ∷ []
backup-first_example =
    backup-first env config_args (codes "2") (codes "http://f/") (codes "u") (codes "p") world refl
      refl refl refl refl

abbrev request : Request
request = sent_request download_args

abbrev config_2 : AcsTransfer
config_2 = record transfer { file_type = codes "3 Vendor Configuration File 2" }

abbrev config_world : World
config_world = record world { transfers = λ i. some config_2 }

config_2-web_content_test :
    (request_cb result request config_world).log
    ≡ run_task (codes "tr069_2_webcontent") [] ∷ update 3 finished ∷ []
unfolding strstr new_request
config_2-web_content_test =
    config_2-web_content result request (codes " 2") config_2 config_world refl refl refl refl

delay-kept_iff_test :
    (delays (handle env (add_transfer upload_args) world) ≡ 10000 ∷ []) ↔ (10 ≤ 4294967)
unfolding is_firmware streq
delay-kept_iff_test = delay-kept_iff env upload_args world refl refl refl
