-- ===== src/Risk/Pause.antt =====
-- The risk methods that also write the connection's own row, internal/store/client_connectors.go:
-- SetAIClientConnectionPaused and SetAIClientConnectionRiskState.
use tok_hub.Prelude.{
  ℕ, suc, String, Bool, not, ◌&&◌, Option, none, some, List, [], ◌∷◌, ◌==◌, eqb, if◌then◌else◌,
}
use tok_hub.Prelude.Text.{trim_space, truncate_store_text}
use tok_hub.Clock.{Time}
use tok_hub.Risk.{AiClientRisk, RiskState, is_normal, apply_limits}
use tok_hub.Risk.Outcome.{set_paused}
use tok_hub.Risk.Table.{ConnectionRow, Database, select_risk, update_risk}

-- The where clause on ai_connections.
abbrev pub is_live : String → String → String → ConnectionRow → Bool
is_live owner org connection row =
    row.id == connection
    && row.owner_user_id == owner
    && row.org_id == org
    && row.auth_method == "official_client"
    && not (row.status == "deleted")
    && not row.deleted

abbrev pub count_live : String → String → String → List ConnectionRow → ℕ
count_live owner org connection [] = 0
count_live owner org connection (row ∷ rows) =
    let rest = count_live owner org connection rows in
    if is_live owner org connection row then suc rest else rest

-- What a risk method writes into a connection's row.
pub record ConnectionNote : Type 0 where
  pub status : String
  pub auth_status : String
  pub risk_level : String
  pub last_error_code : String
  pub last_error_message : String

unfoldable pub update_connections :
    String → String → String → ConnectionNote → List ConnectionRow → List ConnectionRow
update_connections owner org connection note [] = []
update_connections owner org connection note (row ∷ rows) =
    (if is_live owner org connection row
      then record row {
        status = note.status;
        auth_status = note.auth_status;
        risk_level = note.risk_level;
        last_error_code = note.last_error_code;
        last_error_message = note.last_error_message;
      }
      else row)
    ∷ update_connections owner org connection note rows

-- The texts that SetAIClientConnectionPaused writes for the new state.
unfoldable pub pause_note : RiskState → ConnectionNote
pause_note state =
    if is_normal state
    then record {
      status = "active";
      auth_status = "active";
      risk_level = "elevated";
      last_error_code = "";
      last_error_message = "";
    }
    else record {
      status = "attention";
      auth_status = "active";
      risk_level = "paused";
      last_error_code = "official_client_paused";
      last_error_message = "Official client connection is paused";
    }

pub data PauseResult : Type 0 where
  no_rows transition_denied : PauseResult
  done : AiClientRisk → Database → PauseResult

-- SetAIClientConnectionPaused; where it fails, the transaction is rolled back.
unfoldable pub set_ai_client_connection_paused :
    Database → String → String → String → Bool → Time → PauseResult
set_ai_client_connection_paused db owner org connection to wall =
    elim (select_risk owner org connection db.risks) [
      | none ↦ no_rows
      | some row ↦ elim (set_paused row.risk to wall) [
        | none ↦ transition_denied
        | some s ↦
            (if eqb (count_live owner org connection db.connections) 1
              then done (apply_limits s) (record {
                risks = update_risk s db.risks;
                connections =
                    update_connections owner org connection (pause_note s.state) db.connections;
              })
              else no_rows)
      ]
    ]

-- The `switch` of SetAIClientConnectionRiskState.
unfoldable pub risk_state_note : String → String → String → ConnectionNote
unfolding trim_space truncate_store_text
risk_state_note state code message =
    if state == "normal"
    then record {
      status = "active";
      auth_status = "active";
      risk_level = "elevated";
      last_error_code = "";
      last_error_message = "";
    }
    else record {
      status = "attention";
      auth_status =
          (if state == "reauth_required"
            then "reauth_required"
            else if state == "paused"
            then "active"
            else "attention");
      risk_level = "paused";
      last_error_code = trim_space code;
      last_error_message = truncate_store_text message 512;
    }

-- SetAIClientConnectionRiskState; `none` is pgx.ErrNoRows.
unfoldable pub set_ai_client_connection_risk_state :
    Database → String → String → String → String → String → String → Option Database
set_ai_client_connection_risk_state db owner org connection state code message =
    if eqb (count_live owner org connection db.connections) 1
    then some (record db {
      connections =
          update_connections owner org connection (risk_state_note state code message)
            db.connections;
    })
    else none
