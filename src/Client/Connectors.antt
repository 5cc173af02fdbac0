-- ===== src/Client/Connectors.antt =====
-- The connectors: created, paired with a device, authenticated by its token, and revoked. `hash` is
-- hashClientToken; codes, tokens and ids that are drawn at random are arguments, and so is the test
-- of a public key, the base64 text of 32 bytes.
pub mod Revoked
use tok_hub.Prelude.{
  ℕ, ◌+◌, ◌*◌, String, Bool, true, false, not, ◌&&◌, ◌||◌, Option, none, some, List, [], ◌∷◌, ◌++◌,
  ◌==◌, ltb, leb, eqb, is_some, length, map, update_where, count_where, find_where, find_by,
  has_key, if◌then◌else◌, any,
}
use tok_hub.Prelude.Text.{
  trim_space, to_lower, truncate_runes, truncate_store_text, byte_length, rune_count,
}
use tok_hub.Clock.{Time, minute}
use tok_hub.Risk.Table.{ConnectionRow}
use tok_hub.Client.{
  ConnectorStatus, pending, active, revoked, ConnectorRow, TaskRow, cancelled, SessionRow,
  session_deleted, ClientDb, is_active_connector, is_pending, is_revoked, is_deleted_session,
  session_expired, is_active_session, is_open,
}
use tok_hub.Client.Tasks.{is_after, is_past, is_open_of, end_task, expire_task}

abbrev pub connector_id : ConnectorRow → String
connector_id c = c.id

pub data ConnectorError : Type 0 where
  name_too_long conflict not_found pairing_invalid unauthorized identity_invalid : ConnectorError

-- The row of a connector with its owner, whom revocation keeps out.
abbrev pub owns_connector : String → String → String → ConnectorRow → Bool
owns_connector owner org id c =
    c.id == id && c.owner_user_id == owner && c.org_id == org && not (is_revoked c.status)

-- AIClientConnectorForOwner
unfoldable pub ai_client_connector_for_owner :
    ClientDb → String → String → String → Option ConnectorRow
ai_client_connector_for_owner db owner org id =
    find_where (owns_connector owner org id) db.connectors

-- clientTokenPrefix
unfoldable pub client_token_prefix : String → String
client_token_prefix value = if leb (byte_length value) 8 then value else truncate_runes value 8

-- normalizedClientCapabilities, with the names that the loop has seen.
unfoldable pub capabilities_from : List String → List String → List String
capabilities_from seen [] = []
capabilities_from seen (v ∷ vs) =
    let value = to_lower (trim_space v) in
    let skipped = capabilities_from seen vs in
    let kept = capabilities_from (value ∷ seen) vs in
    if not (value == "chatgpt" || value == "grok")
    then skipped
    else if any (λ s. s == value) seen
    then skipped
    else value ∷ kept

unfoldable pub normalized_client_capabilities : List String → List String
normalized_client_capabilities values = capabilities_from [] values

unfoldable pub new_connector : String → String → String → String → String → Time → ConnectorRow
new_connector id owner org name pairing_hash until = record {
  id = id;
  owner_user_id = owner;
  org_id = org;
  display_name = name;
  status = pending;
  pairing_hash = pairing_hash;
  pairing_expires_at = some until;
  token_hash = "";
  token_prefix = "";
  public_key = "";
  connector_version = "";
  codex_version = "";
  grok_version = "";
  capabilities = [];
  identity = "{}";
  paired_at = none;
  last_seen_at = none;
  revoked_at = none;
}

unfoldable pub pair_connector : String → String → String → Time → ConnectorRow → ConnectorRow
pair_connector token_hash token_prefix public_key now c = record c {
  status = active;
  pairing_hash = "";
  pairing_expires_at = none;
  token_hash = token_hash;
  token_prefix = token_prefix;
  public_key = public_key;
  paired_at = some now;
  last_seen_at = some now;
}

unfoldable pub revoke_connector : Time → ConnectorRow → ConnectorRow
revoke_connector now c = record c {
  status = revoked;
  token_hash = "";
  pairing_hash = "";
  public_key = "";
  revoked_at = some now;
}

-- The rows in the way of a value of an index on the values that are not empty.
abbrev pub is_taken : (ConnectorRow → String) → ClientDb → String → Bool
is_taken column db value = not (value == "") && is_some (find_by column value db.connectors)

-- The primary key, idx_ai_client_connectors_pairing_hash and idx_ai_client_one_connector_per_owner.
unfoldable pub in_conflict : ClientDb → ConnectorRow → Bool
in_conflict db row =
    is_some (find_by connector_id row.id db.connectors)
    || is_taken (λ c. c.pairing_hash) db row.pairing_hash
    || is_some (
        find_where
          (λ c.
            c.owner_user_id == row.owner_user_id
            && c.org_id == row.org_id
            && not (is_revoked c.status))
          db.connectors)

module _ (hash : String → String) where
  -- CreateAIClientConnector. The code is the first random text, the id the second; `wall` is the
  -- server's clock.
  unfoldable pub create_ai_client_connector :
      ClientDb
      → String
      → String
      → String
      → String
      → String
      → Time
      → Option ConnectorError × ClientDb
  create_ai_client_connector db owner org name code id wall =
      let display = if trim_space name == "" then "我的官方客户端" else trim_space name in
      let row = new_connector id owner org display (hash code) (wall + 10 * minute) in
      if ltb 80 (rune_count display)
      then (some name_too_long, db)
      else if not (db.is_member owner org)
      then (some not_found, db)
      else if in_conflict db row
      then (some conflict, db)
      else (none, record db { connectors = db.connectors ++ row ∷ [] })

  abbrev pub can_pair : ClientDb → String → Time → ConnectorRow → Bool
  can_pair db code now c =
      c.pairing_hash == hash code
      && is_after c.pairing_expires_at now
      && is_pending c.status
      && db.is_member c.owner_user_id c.org_id

  -- PairAIClientConnector: the id of the connector, or an error. Pairing hashes are unique, and so are
  -- the hashes of tokens, by their indexes.
  unfoldable pub pair_ai_client_connector :
      (String → Bool) → ClientDb → String → String → String → Time → Option String × ClientDb
  pair_ai_client_connector is_public_key db code key token now =
      let c = trim_space code in
      let k = trim_space key in
      let paired = pair_connector (hash token) (client_token_prefix token) k now in
      if not (is_public_key k) || ltb (byte_length c) 32
      then (none, db)
      else elim (find_where (can_pair db c now) db.connectors) [
        | none ↦ (none, db)
        | some row ↦ if is_taken (λ c. c.token_hash) db (hash token) then (none, db) else (
          some row.id,
          record db { connectors = update_where (can_pair db c now) paired db.connectors },
        )
      ]

  -- AuthenticateAIClientConnector
  unfoldable pub authenticate_ai_client_connector : ClientDb → String → Option ConnectorRow
  authenticate_ai_client_connector db device_token =
      let token = trim_space device_token in
      if ltb (byte_length token) 40
      then none
      else find_where
          (λ c.
            c.token_hash == hash token
            && is_active_connector c.status
            && db.is_member c.owner_user_id c.org_id)
          db.connectors

-- HeartbeatAIClientConnector; `identity` is the JSON text.
unfoldable pub heartbeat_ai_client_connector :
    ClientDb
    → String
    → String
    → String
    → String
    → List String
    → String
    → Time
    → Option ConnectorError × ClientDb
heartbeat_ai_client_connector db id connector_version codex_version grok_version capabilities
      identity now =
    let met = λ (c : ConnectorRow). c.id == id && is_active_connector c.status in
    let beat : ConnectorRow → ConnectorRow = λ c. record c {
      connector_version = truncate_store_text connector_version 64;
      codex_version = truncate_store_text codex_version 64;
      grok_version = truncate_store_text grok_version 64;
      capabilities = normalized_client_capabilities capabilities;
      identity = identity;
      last_seen_at = some now;
    } in
    if ltb 16384 (byte_length identity) then (some identity_invalid, db) else (
      if eqb (count_where met db.connectors) 1 then none else some unauthorized,
      record db { connectors = update_where met beat db.connectors },
    )

abbrev pub revoked_task : Time → TaskRow → TaskRow
revoked_task = end_task cancelled "connector_revoked" "Official client connector revoked"

abbrev pub wipe_session : SessionRow → SessionRow
wipe_session s = record s { status = session_deleted; session_ciphertext = ""; session_nonce = "" }

abbrev pub disable_connection : ConnectionRow → ConnectionRow
disable_connection c = record c {
  status = "disabled";
  auth_status = "disabled";
  risk_level = "paused";
  last_error_code = "connector_revoked";
  last_error_message = "Official client connector revoked";
}

abbrev pub uses_connector : String → String → String → ConnectionRow → Bool
uses_connector owner org id c =
    c.owner_user_id == owner
    && c.org_id == org
    && c.auth_method == "official_client"
    && c.connector_id == id
    && not c.deleted

abbrev pub is_kept_session_of : String → String → String → SessionRow → Bool
is_kept_session_of owner org id s =
    s.connector_id == id
    && s.owner_user_id == owner
    && s.org_id == org
    && not (is_deleted_session s.status)

-- RevokeAIClientConnector: the transaction is rolled back where it does not meet one row.
unfoldable pub revoke_ai_client_connector :
    ClientDb → String → String → String → Time → Option ConnectorError × ClientDb
revoke_ai_client_connector db owner org id now =
    if eqb (count_where (owns_connector owner org id) db.connectors) 1
    then (
      none,
      record db {
        connectors =
            update_where (owns_connector owner org id) (revoke_connector now) db.connectors;
        tasks = update_where (is_open_of id) (revoked_task now) db.tasks;
        connections = update_where (uses_connector owner org id) disable_connection db.connections;
        sessions = update_where (is_kept_session_of owner org id) wipe_session db.sessions;
      },
    )
    else (some not_found, db)

abbrev pub is_stale_connector : Time → ConnectorRow → Bool
is_stale_connector now c = is_pending c.status && is_past c.pairing_expires_at now

abbrev pub is_overdue : Time → TaskRow → Bool
is_overdue now t = is_open t.status && leb t.expires_at now

abbrev pub is_over_session : Time → SessionRow → Bool
is_over_session now s =
    is_active_session s.status && (leb s.idle_expires_at now || leb s.absolute_expires_at now)

-- MaintainAIClientState, with the number of rows that it changed.
unfoldable pub maintain_ai_client_state : ClientDb → Time → ℕ × ClientDb
maintain_ai_client_state db now = (
  count_where (is_stale_connector now) db.connectors
      + count_where (is_overdue now) db.tasks
      + count_where (is_over_session now) db.sessions,
  record db {
    connectors =
        update_where (is_stale_connector now)
          (λ c. record c {
            status = revoked;
            pairing_hash = "";
            pairing_expires_at = none;
            revoked_at = some now;
          })
          db.connectors;
    tasks = update_where (is_overdue now) (expire_task now) db.tasks;
    sessions =
        update_where (is_over_session now)
          (λ s. record s { status = session_expired; session_ciphertext = ""; session_nonce = "" })
          db.sessions;
  },
)
