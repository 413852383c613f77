-- ===== src/AcsTransfers/Defs.antt =====
-- The state of cwmp_plugin/cwmp_plugin_transfer.c and what its functions see and do.
use tr069_manager.Base.{ℕ, Bool, Option, some, List, [], ◌∷◌, ◌++◌, ◌==◌, if◌then◌else◌, CString}

-- An amxc_ts_t: UNKNOWN_TIME, {0, 0, 0} or a time of the clock.
pub data Time : Type 0 where
  unknown_time : Time
  zero_time : Time
  at : ℕ → Time

pub data Status : Type 0 where
  initial : Status
  applying : Status
  finished : Status

-- An instance of ManagementServer.ACSTransfers.ACSTransfer. A fault string is `none` where NULL was
-- handed to the transaction.
pub record AcsTransfer : Type 0 where
  pub status : Status
  pub start_time : Time
  pub complete_time : Time
  pub fault_code : ℕ
  pub fault_string : Option CString
  pub file_type : CString
  pub save_file_name : CString
  pub url : CString
  pub username : CString
  pub password : CString

-- The arguments of AddTransfer; a text is `none` where it is missing. `delay_seconds` is the
-- unsigned word of the int32_t that is read, and `index` is 0 where it is missing.
pub record Args : Type 0 where
  pub index : ℕ
  pub is_download : Bool
  pub delay_seconds : ℕ
  pub file_type : Option CString
  pub url : Option CString
  pub username : Option CString
  pub password : Option CString
  pub target_file_name : Option CString
  pub command_key : CString

-- upload_context_t, with the URL of its arguments
pub record UploadContext : Type 0 where
  pub index : ℕ
  pub url : CString
  pub time : ℕ

-- An ftx_request_t of a download. The index is its user data.
pub record Request : Type 0 where
  pub index : ℕ
  pub url : Option CString
  pub username : Option CString
  pub password : Option CString
  pub target_file : Option CString
  pub max_transfer_time : ℕ

-- What ends a request: its error code and reason, and its times.
pub record Result : Type 0 where
  pub error_code : ℕ
  pub error_reason : Option CString
  pub request_start : Time
  pub request_end : Time

-- The data of a TransferComplete! notification.
pub record Completion : Type 0 where
  pub transfer_url : Option CString
  pub fault_code : ℕ
  pub fault_string : Option CString

pub data VendorFile : Type 0 where
  log_file : VendorFile  -- Device.DeviceInfo.VendorLogFile, Upload
  config_file : VendorFile  -- Device.DeviceInfo.VendorConfigFile, Backup

pub data Action : Type 0 where
  update : ℕ → Status → Action  -- a transaction that writes the Status of an instance
  call_vendor_file : VendorFile → ℕ → CString → CString → CString → Action
  self_test : Action  -- the asynchronous call of Device.SelfTestDiagnostics
  image_download : CString → CString → CString → Action
  run_task : CString → CString → Action  -- a process: its script and the name of a file
  send : Request → Action  -- ftx_request_send
  save : Action  -- cwmp_plugin_dm_save

-- The instances by their index, the timers that run with their time in milliseconds, and the lists
-- of the file. A pointer to an instance is its index.
pub record World : Type 0 where
  pub transfers : ℕ → Option AcsTransfer
  pub download_timers : List (ℕ × ℕ)
  pub start_timers : List (Request × ℕ)
  pub upload_timers : List (Args × ℕ)
  pub requests : List Request  -- sent, without an answer
  pub selftest_requests : List Args
  pub upload_requests : List UploadContext
  pub subscriptions : List ℕ  -- of firmwareimage_notification
  pub log : List Action

-- What the calls return in one run of a function. A call fails where its result is not 0.
pub record Env : Type 0 where
  pub now : ℕ  -- amxc_ts_now
  pub has_device : Bool  -- get_bus_ctx("Device.")
  pub self_test_refused : Bool  -- amxb_async_call returns NULL
  pub vendor_call_fails : Bool
  pub subscribe_fails : Bool
  pub unsubscribe_fails : Bool
  pub image_call_fails : Bool
  pub split_word : CString → List CString  -- amxc_string_split_word
  pub is_numeric : CString → Bool  -- amxc_string_is_numeric
  pub find_command_key : CString → Option ℕ  -- amxd_dm_findf with a search for the CommandKey

abbrev pub fault_internal_error : ℕ
fault_internal_error = 9002

abbrev pub perform : Action → World → World
perform action w = record w { log = w.log ++ action ∷ [] }

unfoldable pub put_transfer : ℕ → AcsTransfer → World → World
put_transfer i t w = record w { transfers = λ j. if i == j then some t else w.transfers j }
