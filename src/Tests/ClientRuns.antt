-- ===== src/Tests/ClientRuns.antt =====
-- Runs of the client connectors: a task that is created, claimed and completed, a connector that is
-- revoked, and a session that is used.
use tok_hub.Prelude.{
  ◌+◌, ◌*◌, ◌≤◌, ◌<◌, String, ◌≡◌, ◌≢◌, refl, ◌↔◌, Bool, true, none, some, [], ◌∷◌, arith, find_by,
  find_where, count_where, update_where, Unique,
}
use tok_hub.Prelude.Text.{trim_space, to_lower}
use tok_hub.Clock.{Time, minute, hour, day}
use tok_hub.Client.{
  ConnectorRow, active, TaskRow, queued, SessionRow, session_active, session_expired, ClientDb,
  is_active_session,
}
use tok_hub.Client.Tasks.{
  task_id, is_open_of, lease_length, TaskInput, new_task, create_ai_client_task,
  claim_ai_client_task, complete_ai_client_task, expire_tasks_of, insert_task, is_checked,
  is_checked_provider, oldest, ready_tasks,
}
use tok_hub.Client.Tasks.Machine.{Evolve, IsSingle}
use tok_hub.Client.Tasks.Moves.{Follow}
use tok_hub.Client.Tasks.Histories.{one_move_at_most, Reach-IsSingle}
use tok_hub.Client.Tasks.Lease.{claimed_task_needs_its_token}
use tok_hub.Client.Connectors.{
  connector_id, revoke_ai_client_connector, authenticate_ai_client_connector,
}
use tok_hub.Client.Connectors.Revoked.{revocation_is_final}
use tok_hub.Client.Sessions.{session_id, usable, ai_client_response_for_use, is_over, next_idle}
use tok_hub.Client.Sessions.Expiry.{use_ends_by_the_deadline}
use tok_hub.Client.Steps.{Reach, here, next, creates_task, claims_task}

abbrev start : Time
start = 63_000_000_000_000_000_000

abbrev pub hash : String → String
hash s = s

abbrev pub laptop : ConnectorRow
laptop = record {
  id = "laptop";
  owner_user_id = "u";
  org_id = "o";
  display_name = "laptop";
  status = active;
  pairing_hash = "";
  pairing_expires_at = none;
  token_hash = "0123456789012345678901234567890123456789";
  token_prefix = "01234567";
  public_key = "pk";
  connector_version = "1";
  codex_version = "1";
  grok_version = "1";
  capabilities = "chatgpt" ∷ [];
  identity = "{}";
  paired_at = some start;
  last_seen_at = some start;
  revoked_at = none;
}

abbrev request : TaskInput
request = record {
  connector_id = "laptop";
  owner_user_id = "u";
  org_id = "o";
  connection_id = "c";
  provider = "openai";
  action = "generate";
  payload_key = "p";
  expires_at = start + 3 * minute;
}

abbrev waiting : TaskRow
waiting = record {
  id = "t1";
  connector_id = "laptop";
  owner_user_id = "u";
  org_id = "o";
  connection_id = "c";
  provider = "openai";
  action = "generate";
  payload_key = "p";
  result_key = "";
  status = queued;
  lease_hash = "";
  lease_expires_at = none;
  error_code = "";
  error_message = "";
  expires_at = start + 3 * minute;
  claimed_at = none;
  completed_at = none;
  created_at = start;
}

abbrev session : SessionRow
session = record {
  id = "resp_1";
  owner_user_id = "u";
  org_id = "o";
  gateway_key_id = "g";
  connection_id = "c";
  connector_id = "laptop";
  provider = "openai";
  model = "m";
  session_ciphertext = "sealed";
  session_nonce = "nonce";
  previous_response_id = "";
  status = session_active;
  idle_expires_at = start + day;
  absolute_expires_at = start + 7 * day;
  last_used_at = start;
  created_at = start;
}

abbrev pub office : ClientDb
office = record {
  connectors = laptop ∷ [];
  tasks = waiting ∷ [];
  sessions = session ∷ [];
  connections = [];
  is_member = λ _ _. true;
}

-- The waiting task is claimed, and a second task is refused as long as the first is open.
abbrev claimed_office : ClientDb
claimed_office = (claim_ai_client_task hash office "laptop" minute "token" start start).1

busy : (create_ai_client_task office request "t2" start start).1.tasks ≡ waiting ∷ []
unfolding create_ai_client_task expire_tasks_of update_where insert_task find_where is_checked
    is_checked_provider count_where new_task trim_space to_lower
busy = refl

tasks-Unique : Unique task_id office.tasks
unfolding find_where
tasks-Unique = (refl, tt)

connectors-Unique : Unique connector_id office.connectors
unfolding find_where
connectors-Unique = (refl, tt)

sessions-Unique : Unique session_id office.sessions
unfolding find_where
sessions-Unique = (refl, tt)

one_task : IsSingle office.tasks
unfolding IsSingle count_where
one_task connector = ground arith

abbrev ClaimedReach : Type 0
ClaimedReach = Reach hash office (create_ai_client_task claimed_office request "t2" start start).1

reached : ClaimedReach
reached =
    next (next here (claims_task "laptop" minute "token" start start))
      (creates_task request "t2" start start)

one_move_at_most_example :
    Follow claimed_office.tasks
      (create_ai_client_task claimed_office request "t2" start start).1.tasks
    × Evolve office.tasks (create_ai_client_task claimed_office request "t2" start start).1.tasks
one_move_at_most_example =
    one_move_at_most hash tasks-Unique (next here (claims_task "laptop" minute "token" start start))
      (creates_task request "t2" start start)

Reach-IsSingle_example :
    IsSingle (create_ai_client_task claimed_office request "t2" start start).1.tasks
Reach-IsSingle_example = Reach-IsSingle hash tasks-Unique one_task reached

claims : (claim_ai_client_task hash office "laptop" minute "token" start start).0 ≡ some "t1"
unfolding claim_ai_client_task ready_tasks expire_tasks_of update_where oldest
claims = refl

claimed_task_needs_its_token_example :
    (row : TaskRow) × (find_by task_id "t1" claimed_office.tasks ≡ some row)
    × (lease_length minute ≤ 5 * minute)
    × ((by token' : String) (ok : Bool) (result_key code message : String) (later : Time)
        → ((complete_ai_client_task hash claimed_office by "t1" token' ok result_key code message
              later).0
            ≡ none)
          ↔ ((row.connector_id ≡ by)
              × ("token" ≡ trim_space token')
              × (later < start + lease_length minute)
              × (later < row.expires_at)))
claimed_task_needs_its_token_example =
    claimed_task_needs_its_token hash office "laptop" "t1" minute "token" start start tasks-Unique
      claims

revokes_laptop : (revoke_ai_client_connector office "u" "o" "laptop" start).0 ≡ none
unfolding revoke_ai_client_connector count_where
revokes_laptop = refl

abbrev revoked_office : ClientDb
revoked_office = (revoke_ai_client_connector office "u" "o" "laptop" start).1

revocation_is_final_example :
    (count_where
        (is_open_of "laptop")
        (create_ai_client_task revoked_office request "t3" start start).1.tasks
      ≡ 0)
    × ((device_token : String) (c : ConnectorRow)
        → authenticate_ai_client_connector hash
            (create_ai_client_task revoked_office request "t3" start start).1
            device_token
          ≡ some c
        → c.id ≢ "laptop")
revocation_is_final_example =
    revocation_is_final hash office
      (create_ai_client_task revoked_office request "t3" start start).1 "u" "o" "laptop" start
      connectors-Unique tasks-Unique revokes_laptop
      (next here (creates_task request "t3" start start))

abbrev used : SessionRow
used = record session { idle_expires_at = start + hour + day; last_used_at = start + hour }

session_found : find_by session_id "resp_1" office.sessions ≡ some session
unfolding find_where
session_found = refl

uses :
    (ai_client_response_for_use office "resp_1" "u" "o" "g" "c" "m" (start + hour)).0 ≡ usable used
unfolding ai_client_response_for_use find_where is_over next_idle
uses = refl

use_ends_by_the_deadline_example :
    (is_active_session session.status ≡ true)
    × (start + hour < session.absolute_expires_at)
    × (used.absolute_expires_at ≡ session.absolute_expires_at)
    × (used.idle_expires_at ≤ session.absolute_expires_at)
    × (used.idle_expires_at ≤ start + hour + day)
use_ends_by_the_deadline_example =
    use_ends_by_the_deadline hash office office "resp_1" session sessions-Unique session_found here
      "u" "o" "g" "c" "m" (start + hour) used uses

-- A session that a use finds over keeps its secret: maintenance wipes active ones alone.
abbrev late : Time
late = start + 8 * day

kept_secret :
    (ai_client_response_for_use office "resp_1" "u" "o" "g" "c" "m" late).1.sessions
    ≡ (record session { status = session_expired }) ∷ []
unfolding ai_client_response_for_use find_where is_over update_where
kept_secret = refl
