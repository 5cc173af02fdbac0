-- ===== src/Client.antt =====
-- The tables of the client connectors, internal/store/client_connectors.go and the migration
-- db/migrations/0052_official_client_connector.sql: the connectors that users pair, the tasks that
-- they poll, and the sessions with their clients. A transaction takes the tables to the new ones;
-- the clock of the database is an argument. The primary keys, the unique indexes
-- and the checks of a column that an insert can violate are written out, foreign keys are not. Texts that are only kept are kept.
pub mod Tasks
pub mod Connectors
pub mod Sessions
pub mod Steps
pub mod Signing
pub mod Requests
use tok_hub.Prelude.{String, Bool, true, false, Option, List}
use tok_hub.Clock.{Time}
use tok_hub.Risk.Table.{ConnectionRow}

pub data ConnectorStatus : Type 0 where
  pending active revoked : ConnectorStatus

pub record ConnectorRow : Type 0 where
  pub id : String
  pub owner_user_id : String
  pub org_id : String
  pub display_name : String
  pub status : ConnectorStatus
  pub pairing_hash : String
  pub pairing_expires_at : Option Time
  pub token_hash : String
  pub token_prefix : String
  pub public_key : String
  pub connector_version : String
  pub codex_version : String
  pub grok_version : String
  pub capabilities : List String
  pub identity : String
  pub paired_at : Option Time
  pub last_seen_at : Option Time
  pub revoked_at : Option Time

-- check(status in ('queued','claimed','completed','failed','expired','cancelled'))
pub data TaskStatus : Type 0 where
  queued claimed completed failed expired cancelled : TaskStatus

pub record TaskRow : Type 0 where
  pub id : String
  pub connector_id : String
  pub owner_user_id : String
  pub org_id : String
  pub connection_id : String
  pub provider : String
  pub action : String
  pub payload_key : String
  pub result_key : String
  pub status : TaskStatus
  pub lease_hash : String
  pub lease_expires_at : Option Time
  pub error_code : String
  pub error_message : String
  pub expires_at : Time
  pub claimed_at : Option Time
  pub completed_at : Option Time
  pub created_at : Time

pub data SessionStatus : Type 0 where
  session_active session_expired session_deleted : SessionStatus

-- A row of ai_client_responses.
pub record SessionRow : Type 0 where
  pub id : String
  pub owner_user_id : String
  pub org_id : String
  pub gateway_key_id : String
  pub connection_id : String
  pub connector_id : String
  pub provider : String
  pub model : String
  pub session_ciphertext : String
  pub session_nonce : String
  pub previous_response_id : String
  pub status : SessionStatus
  pub idle_expires_at : Time
  pub absolute_expires_at : Time
  pub last_used_at : Time
  pub created_at : Time

-- The tables, and whether a user is an active member of an active workspace, by the rows of users,
-- orgs and org_members.
pub record ClientDb : Type 0 where
  pub connectors : List ConnectorRow
  pub tasks : List TaskRow
  pub sessions : List SessionRow
  pub connections : List ConnectionRow
  pub is_member : String → String → Bool

-- status in ('queued','claimed')
abbrev pub is_open : TaskStatus → Bool
is_open queued = true
is_open claimed = true
is_open _ = false

abbrev pub is_queued : TaskStatus → Bool
is_queued queued = true
is_queued _ = false

abbrev pub is_claimed : TaskStatus → Bool
is_claimed claimed = true
is_claimed _ = false

abbrev pub is_active_connector : ConnectorStatus → Bool
is_active_connector active = true
is_active_connector _ = false

abbrev pub is_pending : ConnectorStatus → Bool
is_pending pending = true
is_pending _ = false

abbrev pub is_revoked : ConnectorStatus → Bool
is_revoked revoked = true
is_revoked _ = false

abbrev pub is_active_session : SessionStatus → Bool
is_active_session session_active = true
is_active_session _ = false

abbrev pub is_deleted_session : SessionStatus → Bool
is_deleted_session session_deleted = true
is_deleted_session _ = false
