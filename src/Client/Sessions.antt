-- ===== src/Client/Sessions.antt =====
-- The sessions with a client, rows of ai_client_responses: a response may be continued until it has
-- been idle for a day, and for a week at most.
pub mod Expiry
use tok_hub.Prelude.{
  ◌+◌, ◌*◌, String, Bool, not, ◌&&◌, ◌||◌, Option, none, some, List, [], ◌∷◌, ◌++◌, ◌==◌, ltb,
  is_some, find_by, has_key, update_where, find_where, if◌then◌else◌,
}
use tok_hub.Clock.{Time, Duration, day, is_zero}
use tok_hub.Client.Tasks.{is_checked_provider}
use tok_hub.Client.{
  SessionRow, session_active, session_expired, session_deleted, ClientDb, is_active_session,
  is_deleted_session,
}

abbrev pub idle_time : Duration
idle_time = day

abbrev pub longest_time : Duration
longest_time = 7 * day

abbrev pub session_id : SessionRow → String
session_id s = s.id

pub record SessionInput : Type 0 where
  pub owner_user_id : String
  pub org_id : String
  pub gateway_key_id : String
  pub connection_id : String
  pub connector_id : String
  pub provider : String
  pub model : String
  pub session_ciphertext : String
  pub session_nonce : String
  pub previous_response_id : String
  pub idle_expires_at : Time
  pub absolute_expires_at : Time

-- CreateAIClientResponse; `wall` is the server's clock, `now` that of the database.
unfoldable pub create_ai_client_response :
    ClientDb → SessionInput → String → Time → Time → Option SessionRow × ClientDb
create_ai_client_response db input id wall now =
    let row : SessionRow = record {
      id = id;
      owner_user_id = input.owner_user_id;
      org_id = input.org_id;
      gateway_key_id = input.gateway_key_id;
      connection_id = input.connection_id;
      connector_id = input.connector_id;
      provider = input.provider;
      model = input.model;
      session_ciphertext = input.session_ciphertext;
      session_nonce = input.session_nonce;
      previous_response_id = input.previous_response_id;
      status = session_active;
      idle_expires_at =
          (if is_zero input.idle_expires_at then wall + idle_time else input.idle_expires_at);
      absolute_expires_at =
          (if is_zero input.absolute_expires_at
            then wall + longest_time
            else input.absolute_expires_at);
      last_used_at = now;
      created_at = now;
    } in
    if not (is_checked_provider input.provider) || is_some (find_by session_id id db.sessions)
    then (none, db)
    else (some row, record db { sessions = db.sessions ++ row ∷ [] })

pub data SessionError : Type 0 where
  no_session expired_session : SessionError

pub data SessionAnswer : Type 0 where
  usable : SessionRow → SessionAnswer
  unusable : SessionError → SessionAnswer

abbrev pub is_session_for : String → String → String → String → String → String → SessionRow → Bool
is_session_for id owner org key connection model s =
    s.id == id
    && s.owner_user_id == owner
    && s.org_id == org
    && s.gateway_key_id == key
    && s.connection_id == connection
    && s.model == model
    && not (is_deleted_session s.status)

abbrev pub is_active_row : String → SessionRow → Bool
is_active_row id s = s.id == id && is_active_session s.status

unfoldable pub is_over : SessionRow → Time → Bool
is_over s now =
    not (is_active_session s.status)
    || not (ltb now s.idle_expires_at)
    || not (ltb now s.absolute_expires_at)

unfoldable pub next_idle : SessionRow → Time → Time
next_idle s now =
    if ltb s.absolute_expires_at (now + idle_time) then s.absolute_expires_at else now + idle_time

-- AIClientResponseForUse, by the server's clock `now`.
unfoldable pub ai_client_response_for_use :
    ClientDb → String → String → String → String → String → String → Time → SessionAnswer × ClientDb
ai_client_response_for_use db id owner org key connection model now =
    elim (find_where (is_session_for id owner org key connection model) db.sessions) [
      | none ↦ (unusable no_session, db)
      | some s ↦
          if is_over s now
          then (
            unusable expired_session,
            record db {
              sessions =
                  update_where (is_active_row s.id) (λ r. record r { status = session_expired })
                    db.sessions;
            },
          )
          else (
            usable (record s { idle_expires_at = next_idle s now; last_used_at = now }),
            record db {
              sessions =
                  update_where (is_active_row s.id)
                    (λ r. record r { idle_expires_at = next_idle s now; last_used_at = now })
                    db.sessions;
            },
          )
    ]

-- DeleteAIClientResponseForOwner
unfoldable pub delete_ai_client_response_for_owner :
    ClientDb → String → String → String → Option SessionRow × ClientDb
delete_ai_client_response_for_owner db owner org id =
    elim (find_where
      (λ s.
        s.id == id
        && s.owner_user_id == owner
        && s.org_id == org
        && not (is_deleted_session s.status))
      db.sessions) [
        | none ↦ (none, db)
        | some s ↦ (
          some s,
          record db {
            sessions =
                update_where (λ r. r.id == s.id)
                  (λ r. record r {
                    status = session_deleted;
                    session_ciphertext = "";
                    session_nonce = "";
                  })
                  db.sessions;
          },
        )
      ]
