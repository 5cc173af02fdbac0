-- ===== src/Client/Tasks.antt =====
-- The tasks of a connector: it has at most one open task, claims it under a lease, and completes it
-- with the token of the lease. `hash` is hashClientToken; the ids and tokens that the code draws at
-- random are arguments. An order by created_at leaves ties open; the first row is taken here.
pub mod Machine
pub mod Moves
pub mod Changes
pub mod Histories
pub mod Lease
use tok_hub.Prelude.{
  ℕ, ◌+◌, ◌*◌, ◌<◌, String, Bool, true, false, not, ◌&&◌, ◌||◌, Option, none, some, List, [], ◌∷◌,
  ◌++◌, ◌==◌, ltb, leb, eqb, is_some, update_where, count_where, find_where, find_by, has_key,
  if◌then◌else◌,
}
use tok_hub.Prelude.Text.{trim_space, to_lower, truncate_store_text}
use tok_hub.Clock.{Time, Duration, second, minute, is_zero}
use tok_hub.Client.{
  TaskStatus, queued, claimed, completed, failed, expired, cancelled, TaskRow, ConnectorRow,
  ClientDb, is_open, is_queued, is_claimed, is_active_connector,
}

-- `x > now()` on a column that may be null
abbrev pub is_after : Option Time → Time → Bool
is_after none now = false
is_after (some t) now = ltb now t

-- `x <= now()` on a column that may be null
abbrev pub is_past : Option Time → Time → Bool
is_past none now = false
is_past (some t) now = leb t now

abbrev pub task_id : TaskRow → String
task_id t = t.id

abbrev pub is_open_of : String → TaskRow → Bool
is_open_of connector t = t.connector_id == connector && is_open t.status

-- The update that ends open tasks.
unfoldable pub end_task : TaskStatus → String → String → Time → TaskRow → TaskRow
end_task status code message now t = record t {
  status = status;
  lease_hash = "";
  lease_expires_at = none;
  error_code = code;
  error_message = message;
  completed_at = some now;
}

abbrev pub expire_task : Time → TaskRow → TaskRow
expire_task = end_task expired "task_expired" "Official client task expired"

-- status in ('queued','claimed') and expires_at<=now(), of one connector
abbrev pub is_overdue_of : String → Time → TaskRow → Bool
is_overdue_of connector now t = is_open_of connector t && leb t.expires_at now

unfoldable pub expire_tasks_of : String → Time → List TaskRow → List TaskRow
expire_tasks_of connector now = update_where (is_overdue_of connector now) (expire_task now)

pub record TaskInput : Type 0 where
  pub connector_id : String
  pub owner_user_id : String
  pub org_id : String
  pub connection_id : String
  pub provider : String
  pub action : String
  pub payload_key : String
  pub expires_at : Time

pub data TaskError : Type 0 where
  payload_key_required connector_busy constraint_violated no_rows lease_invalid : TaskError

unfoldable pub new_task : TaskInput → String → Time → Time → TaskRow
new_task input id expires_at now = record {
  id = id;
  connector_id = input.connector_id;
  owner_user_id = input.owner_user_id;
  org_id = input.org_id;
  connection_id = input.connection_id;
  provider = to_lower (trim_space input.provider);
  action = to_lower (trim_space input.action);
  payload_key = input.payload_key;
  result_key = "";
  status = queued;
  lease_hash = "";
  lease_expires_at = none;
  error_code = "";
  error_message = "";
  expires_at = expires_at;
  claimed_at = none;
  completed_at = none;
  created_at = now;
}

-- The connector that the insert selects from.
abbrev pub serves_input : TaskInput → ConnectorRow → Bool
serves_input input c =
    c.id == input.connector_id
    && c.owner_user_id == input.owner_user_id
    && c.org_id == input.org_id
    && is_active_connector c.status

-- check(provider in ('openai','grok')), of the tasks and of the sessions
unfoldable pub is_checked_provider : String → Bool
is_checked_provider provider = provider == "openai" || provider == "grok"

-- The checks of the table on a provider and on an action.
unfoldable pub is_checked : TaskRow → Bool
is_checked t =
    is_checked_provider t.provider
    && (t.action == "identify"
        || t.action == "generate"
        || t.action == "interrupt"
        || t.action == "delete_session")

-- The insert with the checks, the primary key and idx_ai_client_tasks_single_active. It inserts nothing where
-- no connector serves the input, and the read that follows finds no row.
unfoldable pub insert_task :
    ClientDb → TaskInput → TaskRow → List TaskRow → (Option TaskError) × List TaskRow
insert_task db input t tasks =
    if not (is_some (find_where (serves_input input) db.connectors))
    then (some no_rows, tasks)
    else if not (is_checked t) || is_some (find_by task_id t.id tasks)
    then (some constraint_violated, tasks)
    else if eqb (count_where (is_open_of t.connector_id) tasks) 0
    then (none, tasks ++ t ∷ [])
    else (some connector_busy, tasks)

-- CreateAIClientTask. The two statements are no transaction: what the first one expired stays
-- expired where the insert fails. `wall` is the server's clock.
unfoldable pub create_ai_client_task :
    ClientDb → TaskInput → String → Time → Time → (Option TaskError) × ClientDb
create_ai_client_task db input id wall now =
    if trim_space input.payload_key == ""
    then (some payload_key_required, db)
    else (let expires_at =
          if is_zero input.expires_at then wall + 3 * minute else input.expires_at in
        let answer =
          insert_task db input (new_task input id expires_at now)
            (expire_tasks_of input.connector_id now db.tasks) in
        (answer.0, record db { tasks = answer.1 }))

-- status='claimed' and lease_expires_at<=now() and expires_at>now(), of one connector
abbrev pub is_lapsed_of : String → Time → TaskRow → Bool
is_lapsed_of connector now t =
    t.connector_id == connector
    && is_claimed t.status
    && is_past t.lease_expires_at now
    && ltb now t.expires_at

abbrev pub requeue : TaskRow → TaskRow
requeue t = record t { status = queued; lease_hash = ""; lease_expires_at = none }

abbrev pub is_waiting_for : String → Time → TaskRow → Bool
is_waiting_for connector now t =
    t.connector_id == connector && is_queued t.status && ltb now t.expires_at

-- The oldest of the rows that a condition meets.
unfoldable pub oldest : (TaskRow → Bool) → List TaskRow → Option TaskRow
oldest p [] = none
oldest p (t ∷ ts) =
    let rest = oldest p ts in
    if p t
    then elim rest [
      | none ↦ some t
      | some u ↦ if leb t.created_at u.created_at then some t else some u
    ]
    else rest

unfoldable pub lease_length : Duration → Duration
lease_length d = if ltb d (10 * second) || ltb (5 * minute) d then 2 * minute else d

abbrev pub take_lease : String → Time → Time → TaskRow → TaskRow
take_lease lease_hash until now t = record t {
  status = claimed;
  lease_hash = lease_hash;
  lease_expires_at = some until;
  claimed_at = some now;
}

-- The two updates in front of a claim.
unfoldable pub ready_tasks : String → Time → List TaskRow → List TaskRow
ready_tasks connector now tasks =
    update_where (is_lapsed_of connector now) requeue (expire_tasks_of connector now tasks)

module _ (hash : String → String) where
  -- ClaimAIClientTask, with the id of the claimed task.
  unfoldable pub claim_ai_client_task :
      ClientDb → String → Duration → String → Time → Time → Option String × ClientDb
  claim_ai_client_task db connector lease token wall now =
      let tasks = ready_tasks connector now db.tasks in
      elim (oldest (is_waiting_for connector now) tasks) [
        | none ↦ (none, record db { tasks = tasks })
        | some t ↦ (
          some t.id,
          record db {
            tasks =
                update_where (has_key task_id t.id)
                  (take_lease (hash token) (wall + lease_length lease) now) tasks;
          },
        )
      ]

  -- The condition on a lease that is held.
  unfoldable pub holds_lease : String → String → String → Time → TaskRow → Bool
  holds_lease connector task token now t =
      t.id == task
      && t.connector_id == connector
      && is_claimed t.status
      && t.lease_hash == hash (trim_space token)
      && is_after t.lease_expires_at now
      && ltb now t.expires_at

  unfoldable pub complete_task : Bool → String → String → String → Time → TaskRow → TaskRow
  complete_task ok result_key code message now t = record t {
    status = (if ok then completed else failed);
    result_key = trim_space result_key;
    lease_hash = "";
    lease_expires_at = none;
    error_code = (if ok then "" else trim_space code);
    error_message = (if ok then "" else truncate_store_text message 512);
    completed_at = some now;
  }

  -- CompleteAIClientTask. The update is a statement of its own, which stays where it met another
  -- number of rows than one.
  unfoldable pub complete_ai_client_task :
      ClientDb
      → String
      → String
      → String
      → Bool
      → String
      → String
      → String
      → Time
      → Option TaskError × ClientDb
  complete_ai_client_task db connector task token ok result_key code message now =
      let met = holds_lease connector task token now in
      (
        if eqb (count_where met db.tasks) 1 then none else some lease_invalid,
        record db {
          tasks = update_where met (complete_task ok result_key code message now) db.tasks;
        },
      )

  -- AIClientTaskLeaseActive
  unfoldable pub ai_client_task_lease_active : ClientDb → String → String → String → Time → Bool
  ai_client_task_lease_active db connector task token now =
      is_some (find_where (holds_lease connector task token now) db.tasks)

-- AIClientTaskForOwner
unfoldable pub ai_client_task_for_owner : ClientDb → String → String → String → Option TaskRow
ai_client_task_for_owner db owner org task =
    find_where (λ t. t.id == task && t.owner_user_id == owner && t.org_id == org) db.tasks

unfoldable pub cancel_task : String → Time → TaskRow → TaskRow
cancel_task reason now t = record t {
  status = (if is_open t.status then cancelled else t.status);
  lease_hash = "";
  lease_expires_at = none;
  error_code = (if is_open t.status then "cancelled" else t.error_code);
  error_message = (if is_open t.status then truncate_store_text reason 512 else t.error_message);
  completed_at = (if is_some t.completed_at then t.completed_at else some now);
}

-- CancelAIClientTask
unfoldable pub cancel_ai_client_task :
    ClientDb → String → String → String → String → Time → ClientDb
cancel_ai_client_task db owner org task reason now = record db {
  tasks =
      update_where (λ t. t.id == task && t.owner_user_id == owner && t.org_id == org)
        (cancel_task reason now) db.tasks;
}
