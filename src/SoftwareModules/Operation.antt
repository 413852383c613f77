-- ===== src/SoftwareModules/Operation.antt =====
-- cwmp_plugin/smm.c: its functions.
use tr069_manager.Base.{
  ℕ, zero, suc, Bool, true, false, ◌||◌, Option, none, some, List, [], ◌∷◌, ◌++◌, ◌==◌,
  if◌then◌else◌, CString, codes, streq, length,
}
use tr069_manager.SoftwareModules.Defs.{
  OpStatus, op_status_none, op_status_in_progress, op_status_done, Request, Call, OpResult,
  Operation, StateChange, Smm, Env, in_progress, done,
}

-- op_status_get
unfoldable pub op_status_get : Operation → OpStatus
op_status_get op =
    if streq op.status in_progress
    then op_status_in_progress
    else if streq op.status done
    then op_status_done
    else op_status_none

-- The text that op_status_set writes.
abbrev pub status_text : OpStatus → CString
status_text op_status_none = []
status_text op_status_in_progress = in_progress
status_text op_status_done = done

infixl 1 ◌>>=◌
abbrev ◌>>=◌ {ℓ κ} : {A : Type ℓ} {B : Type κ} → Option A → (A → Option B) → Option B
none >>= f = none
some a >>= f = f a

-- The call of op_run: the texts that a type needs, in the order of their tests.
unfoldable pub install_call : Request → Option Call
install_call req = do
  url ← req.url
  uuid ← req.uuid
  username ← req.username
  password ← req.password
  env ← req.execution_env_ref
  some (record {
    rpc = codes "InstallDU";
    url = some url;
    uuid = some uuid;
    username = some username;
    password = some password;
    execution_env_ref = some env;
    version = none;
  })

unfoldable pub update_call : Request → Option Call
update_call req = do
  uuid ← req.uuid
  version ← req.version
  url ← req.url
  username ← req.username
  password ← req.password
  some (record {
    rpc = codes "UpdateDU";
    url = some url;
    uuid = some uuid;
    username = some username;
    password = some password;
    execution_env_ref = none;
    version = some version;
  })

unfoldable pub uninstall_call : Request → Option Call
uninstall_call req = do
  uuid ← req.uuid
  version ← req.version
  env ← req.execution_env_ref
  some (record {
    rpc = codes "UninstallDU";
    url = none;
    uuid = some uuid;
    username = none;
    password = none;
    execution_env_ref = some env;
    version = some version;
  })

unfoldable pub call_of : Request → Option Call
call_of req =
    if streq req.type (codes "Install")
    then install_call req
    else if streq req.type (codes "Update")
    then update_call req
    else if streq req.type (codes "Uninstall")
    then uninstall_call req
    else none

-- op_run, with the call that was made and the operation's ID
unfoldable pub op_run : Env → Request → Smm → Smm × Option (Call × ℕ)
op_run e req s = elim (call_of req) [
  | none ↦ (s, none)
  | some call ↦
      let s' = record s { log = s.log ++ call ∷ [] } in
      elim (e.answer call) [ none ↦ (s', none) | some id ↦ (s', some (call, id)) ]
]

-- The instance of the transaction of changeDUState.
unfoldable pub new_change : Option CString → Option CString → Request → Call → ℕ → StateChange
new_change initiator key req call id = record {
  status = [];
  initiator = initiator;
  command_key = key;
  operations =
      record { type = req.type; status = in_progress; id = id; call = call; results = [] } ∷ [];
}

-- The transaction of changeDUState once the operation runs.
unfoldable pub add_change :
    Env → Option CString → Option CString → Request → Smm × Option (Call × ℕ) → Smm × Bool
add_change e initiator key req (s, none) = (s, false)
add_change e initiator key req (s, some (call, id)) =
    if id == 0 || e.apply_fails
    then (s, false)
    else (record s { changes = s.changes ++ new_change initiator key req call id ∷ [] }, true)

-- changeDUState, with the operations of its arguments; true for amxd_status_ok.
unfoldable pub change_du_state :
    Env → Option CString → Option CString → List Request → Smm → Smm × Bool
change_du_state e initiator key [] s = (s, false)
change_du_state e initiator key (req ∷ reqs) s = add_change e initiator key req (op_run e req s)

-- The first operation with an ID among those of an instance.
unfoldable pub find_in : ℕ → List Operation → Option Operation
find_in id [] = none
find_in id (op ∷ l) = let rest = find_in id l in if op.id == id then some op else rest

-- op_obj_get_by_id for an ID that is not 0: the place of the instance, and the operation.
unfoldable pub find_operation : ℕ → ℕ → List StateChange → Option (ℕ × Operation)
find_operation id n [] = none
find_operation id n (c ∷ l) =
    let rest = find_operation id (suc n) l in
    elim (find_in id c.operations) [ none ↦ rest | some op ↦ some (n, op) ]

unfoldable pub put_in : ℕ → Operation → List Operation → List Operation
put_in id new [] = []
put_in id new (op ∷ l) = let rest = put_in id new l in if op.id == id then new ∷ l else op ∷ rest

-- A write to the operation that is found.
unfoldable pub put_operation : ℕ → Operation → List StateChange → List StateChange
put_operation id new [] = []
put_operation id new (c ∷ l) =
    let rest = put_operation id new l in
    let here = record c { operations = put_in id new c.operations } in
    elim (find_in id c.operations) [ none ↦ c ∷ rest | some op ↦ here ∷ l ]

-- The operation after op_add_result.
unfoldable pub add_result : OpResult → Operation → Operation
add_result r op = record op { results = op.results ++ r ∷ [] }

-- The operation after op_status_set(op_status_done).
unfoldable pub finish_operation : Operation → Operation
finish_operation op = record op { status = status_text op_status_done }

-- op_status_set(op_status_done) on the operation with an ID, at the place of its instance; what its
-- transaction returns is lost.
unfoldable pub op_status_set : Env → ℕ → ℕ → Operation → Smm → Smm
op_status_set e id n op s = if e.status_fails then s else record s {
  changes = put_operation id (finish_operation op) s.changes;
  done_events = s.done_events ++ n ∷ [];
}

-- op_handle_results, with the ID and the OpResultStruct of the data: two transactions
unfoldable pub op_handle_results : Env → ℕ → Option OpResult → Smm → Smm
op_handle_results e id result s = if id == 0 then s else elim (find_operation id 0 s.changes) [
  | none ↦ s
  | some (n, op) ↦ elim (op_status_get op) [
    | op_status_in_progress ↦ elim result [
      | none ↦ s
      | some r ↦
          let s' = record s { changes = put_operation id (add_result r op) s.changes } in
          if e.apply_fails then s else op_status_set e id n (add_result r op) s'
    ]
    | _ ↦ s
  ]
]

-- The operations with Status=='Done', counted by count_objects.
unfoldable pub count_done : List Operation → ℕ
count_done [] = 0
count_done (op ∷ l) = let rest = count_done l in if streq op.status done then suc rest else rest

-- _dscc_op_done on the instance of the operation, with dscc_status_done
unfoldable pub finish_change : Env → StateChange → StateChange
finish_change e c =
    if length c.operations == 0 || e.apply_fails
    then c
    else if count_done c.operations == length c.operations
    then record c { status = done }
    else c

unfoldable pub dscc_op_done : Env → ℕ → List StateChange → List StateChange
dscc_op_done e n [] = []
dscc_op_done e zero (c ∷ l) = finish_change e c ∷ l
dscc_op_done e (suc n) (c ∷ l) = c ∷ dscc_op_done e n l
