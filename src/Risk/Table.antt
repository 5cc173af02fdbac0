-- ===== src/Risk/Table.antt =====
-- The transactions around the risk rows, internal/store/client_connectors.go: a row is selected by
-- connection, owner and workspace, changed, and written back by its connection. `none` stands for
-- pgx.ErrNoRows; other failures of the database roll back and are not modelled. A missing `now` is
-- the zero time, in whose place the clock is read.
use tok_hub.Prelude.{String, Bool, ◌&&◌, Option, none, some, List, [], ◌∷◌, ◌==◌, if◌then◌else◌}
use tok_hub.Clock.{Time, Duration, is_zero}
use tok_hub.Risk.{AiClientRisk, RiskDecision, normalize, apply_limits, reserve}
use tok_hub.Risk.Outcome.{record_result, confirm_identity}

pub record RiskRow : Type 0 where
  pub owner_user_id : String
  pub org_id : String
  pub risk : AiClientRisk

-- The columns of ai_connections that the methods for clients read and write; `connector_id` is the
-- text under connectorId of the provider's settings.
pub record ConnectionRow : Type 0 where
  pub id : String
  pub owner_user_id : String
  pub org_id : String
  pub auth_method : String
  pub connector_id : String
  pub status : String
  pub deleted : Bool
  pub auth_status : String
  pub risk_level : String
  pub last_error_code : String
  pub last_error_message : String

pub record Database : Type 0 where
  pub risks : List RiskRow
  pub connections : List ConnectionRow

abbrev pub owns : String → String → String → RiskRow → Bool
owns owner org connection row =
    row.risk.connection_id == connection && row.owner_user_id == owner && row.org_id == org

-- clientRiskSelect … where connection_id=$1 and owner_user_id=$2 and org_id=$3
unfoldable pub select_risk : String → String → String → List RiskRow → Option RiskRow
select_risk owner org connection [] = none
select_risk owner org connection (row ∷ rows) =
    if owns owner org connection row then some row else select_risk owner org connection rows

-- The columns that updateAIClientRisk writes; the others keep their values.
unfoldable pub write_columns : AiClientRisk → AiClientRisk → AiClientRisk
write_columns row s = record row {
  state = s.state;
  cooldown_until = s.cooldown_until;
  hour_window_started_at = s.hour_window_started_at;
  day_window_started_at = s.day_window_started_at;
  rate_limit_window_started_at = s.rate_limit_window_started_at;
  requests_hour = s.requests_hour;
  requests_day = s.requests_day;
  rate_limit_events = s.rate_limit_events;
  identity_changes = s.identity_changes;
  consecutive_failures = s.consecutive_failures;
  last_request_at = s.last_request_at;
  last_success_at = s.last_success_at;
  last_error_at = s.last_error_at;
  last_error_code = s.last_error_code;
  updated_at = s.updated_at;
  identity_assurance = s.identity_assurance;
}

-- updateAIClientRisk: every row of the connection.
unfoldable pub update_risk : AiClientRisk → List RiskRow → List RiskRow
update_risk s [] = []
update_risk s (row ∷ rows) =
    (if row.risk.connection_id == s.connection_id
      then record row { risk = write_columns row.risk s }
      else row)
    ∷ update_risk s rows

abbrev pub now_or_clock : Time → Time → Time
now_or_clock now wall = if is_zero now then wall else now

-- ReserveAIClientRequest
unfoldable pub reserve_ai_client_request :
    Database → String → String → String → Time → Time → Option (RiskDecision × Database)
reserve_ai_client_request db owner org connection now wall =
    elim (select_risk owner org connection db.risks) [
      | none ↦ none
      | some row ↦
          (let d = reserve row.risk (now_or_clock now wall) in
            some (
              record d { risk = apply_limits d.risk },
              record db { risks = update_risk d.risk db.risks },
            ))
    ]

-- RecordAIClientResult
unfoldable pub record_ai_client_result :
    Database
    → String
    → String
    → String
    → Bool
    → String
    → Duration
    → Time
    → Time
    → Option (AiClientRisk × Database)
record_ai_client_result db owner org connection ok error_code retry_after now wall =
    elim (select_risk owner org connection db.risks) [
      | none ↦ none
      | some row ↦
          (let s = record_result row.risk ok error_code retry_after (now_or_clock now wall) in
            some (apply_limits s, record db { risks = update_risk s db.risks }))
    ]

-- ConfirmAIClientIdentity
unfoldable pub confirm_ai_client_identity :
    Database
    → String
    → String
    → String
    → String
    → String
    → Time
    → Time
    → Option (AiClientRisk × Bool × Database)
confirm_ai_client_identity db owner org connection subject assurance now wall =
    elim (select_risk owner org connection db.risks) [
      | none ↦ none
      | some row ↦
          (let (s, matched) = confirm_identity row.risk subject assurance (now_or_clock now wall) in
            some (apply_limits s, matched, record db { risks = update_risk s db.risks }))
    ]

-- AIClientRiskForConnection reads and writes nothing back.
unfoldable pub ai_client_risk_for_connection :
    Database → String → String → String → Time → Option AiClientRisk
ai_client_risk_for_connection db owner org connection wall =
    elim (select_risk owner org connection db.risks) [
      | none ↦ none
      | some row ↦ some (apply_limits (normalize row.risk wall))
    ]
