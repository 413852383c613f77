-- ===== src/SoftwareModules/Defs.antt =====
-- The state of cwmp_plugin/smm.c and what its functions see and do.
use tr069_manager.Base.{ℕ, Bool, Option, List, CString, codes}

-- op_status_t
pub data OpStatus : Type 0 where
  op_status_none : OpStatus
  op_status_in_progress : OpStatus
  op_status_done : OpStatus

-- An operation of the arguments. A text is `none` where it is missing.
pub record Request : Type 0 where
  pub type : CString
  pub url : Option CString
  pub uuid : Option CString
  pub username : Option CString
  pub password : Option CString
  pub execution_env_ref : Option CString
  pub version : Option CString

-- A call of CWMP_SoftwareModules with the arguments that it has.
pub record Call : Type 0 where
  pub rpc : CString
  pub url : Option CString
  pub uuid : Option CString
  pub username : Option CString
  pub password : Option CString
  pub execution_env_ref : Option CString
  pub version : Option CString

-- An OpResultStruct, and an instance of Results.
pub record OpResult : Type 0 where
  pub current_state : Option CString
  pub deployment_unit_ref : Option CString
  pub execution_unit_ref_list : Option CString
  pub fault_code : ℕ
  pub fault_string : Option CString
  pub resolved : Bool
  pub start_time : Option ℕ
  pub complete_time : Option ℕ
  pub uuid : Option CString
  pub version : Option CString

-- An instance of Operations, with the texts of its call.
pub record Operation : Type 0 where
  pub type : CString
  pub status : CString
  pub id : ℕ
  pub call : Call
  pub results : List OpResult

-- An instance of ManagementServer.SMM.DUStateChangeComplete. NumberOfOperations is the length of
-- its operations.
pub record StateChange : Type 0 where
  pub status : CString
  pub initiator : Option CString
  pub command_key : Option CString
  pub operations : List Operation

-- The instances, the events of the data model that wait, each with the place of an instance of which
-- an operation became Done, and the calls that were made.
pub record Smm : Type 0 where
  pub changes : List StateChange
  pub done_events : List ℕ
  pub log : List Call

-- What the calls return in one run of a function.
pub record Env : Type 0 where
  pub answer : Call → Option ℕ  -- the OperationId of the answer, `none` where the call fails
  pub apply_fails : Bool  -- amxd_trans_apply of changeDUState, _dscc_op_done or op_add_result
  pub status_fails : Bool  -- amxd_trans_apply of op_status_set

abbrev pub in_progress : CString
in_progress = codes "In Progress"

abbrev pub done : CString
done = codes "Done"
