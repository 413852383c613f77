-- ===== src/AcsTransfers/Download.antt =====
-- cwmp_plugin/cwmp_plugin_transfer.c: the downloads of files, and AddTransfer.
use tr069_manager.Base.{
  ℕ, ◌*◌, ◌%◌, ◌^◌, Bool, true, false, Option, none, some, [], ◌∷◌, ◌++◌, leb, ◌==◌, if◌then◌else◌,
  CString, codes, streq, strstr, is_empty,
}
use tr069_manager.AcsTransfers.Defs.{
  applying, finished, Args, Request, Result, run_task, save, World, Env, perform, put_transfer,
}
use tr069_manager.AcsTransfers.Status.{transfer_update_status, update_transfer_obj}
use tr069_manager.AcsTransfers.Upload.{upload_start}

-- The script for a file type.
unfoldable pub script_of : CString → Option CString
script_of type =
    if strstr type (codes "2")
    then some (codes "tr069_2_webcontent")
    else if strstr type (codes "3")
    then some (codes "tr069_3_conf_apply")
    else none

-- filetransfer_download_finished; a failure to start the process is only traced.
unfoldable pub download_finished : ℕ → World → World
download_finished i w = elim (w.transfers i) [
  | none ↦ w
  | some t ↦ elim (script_of t.file_type) [
    | none ↦ w
    | some script ↦ perform (run_task script t.save_file_name) w
  ]
]

-- filetransfer_request_cb, for a download.
unfoldable pub request_cb : Result → Request → World → World
request_cb r req w =
    transfer_update_status req.index finished r.request_start r.request_end r.error_code
      r.error_reason (if r.error_code == 0 then download_finished req.index w else w)

-- The name of the file that a download is kept in.
unfoldable pub target_file_of : Args → CString
target_file_of args = elim args.target_file_name [
  | none ↦ codes "/tmp/dl_" ++ args.command_key
  | some name ↦
      if is_empty name then codes "/tmp/dl_" ++ args.command_key else codes "/tmp/" ++ name
]

-- ftx_request_new and filetransfer_set_common_data
unfoldable pub new_request : Args → Request
new_request args = record {
  index = args.index;
  url = args.url;
  username = args.username;
  password = args.password;
  target_file = none;
  max_transfer_time = 3600;
}

-- filetransfer_download_set_target_file: the instance is the one of the CommandKey.
unfoldable pub set_target_file : Env → Args → Request → World → World × Request
set_target_file e args req w = elim (e.find_command_key args.command_key) [
  | none ↦ (w, req)
  | some i ↦ elim (w.transfers i) [
    | none ↦ (w, req)
    | some t ↦ (
      put_transfer i (record t { save_file_name = target_file_of args }) w,
      record req { target_file = some (target_file_of args) },
    )
  ]
]

-- start_filetransfer_request
unfoldable pub start_request : ℕ → World × Request → World
start_request delay (w, req) = record w {
  start_timers = w.start_timers ++ (req, delay * 1000 % 2 ^ 32) ∷ [];
}

-- The branch of filetransfer_request_prepare for a firmware image; true for 0.
unfoldable pub prepare_firmware : Args → World → World × Bool
prepare_firmware args w = elim (w.transfers args.index) [
  | none ↦ (w, false)
  | some t ↦
      let w' = record w {
        download_timers =
            w.download_timers ++ (args.index, args.delay_seconds * 1000 % 2 ^ 32) ∷ [];
      } in
      (
        perform save (
            if leb args.delay_seconds 1
            then update_transfer_obj args.index applying none none w'
            else w'),
        true,
      )
]

unfoldable pub is_firmware : Option CString → Bool
is_firmware none = false
is_firmware (some type) = streq type (codes "1 Firmware Upgrade Image")

-- filetransfer_request_prepare; true for 0. AddTransfer returns it.
unfoldable pub request_prepare : Env → Args → World → World × Bool
unfolding start_request
request_prepare e args w =
    if args.is_download
    then if is_firmware args.file_type
      then prepare_firmware args w
      else (start_request args.delay_seconds (set_target_file e args (new_request args) w), true)
    else (upload_start args w, true)
