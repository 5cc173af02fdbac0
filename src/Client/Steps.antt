-- ===== src/Client/Steps.antt =====
-- The histories of the tables: any of the operations, at any time, with any arguments. The members
-- of workspaces change too, and other code writes connections.
use tok_hub.Prelude.{String, Bool, List}
use tok_hub.Clock.{Time, Duration}
use tok_hub.Risk.Table.{ConnectionRow}
use tok_hub.Client.{ClientDb}
use tok_hub.Client.Tasks.{
  TaskInput, create_ai_client_task, claim_ai_client_task, complete_ai_client_task,
  cancel_ai_client_task,
}
use tok_hub.Client.Connectors.{
  create_ai_client_connector, pair_ai_client_connector, heartbeat_ai_client_connector,
  revoke_ai_client_connector, maintain_ai_client_state,
}
use tok_hub.Client.Sessions.{
  SessionInput, create_ai_client_response, ai_client_response_for_use,
  delete_ai_client_response_for_owner,
}

module _ (hash : String → String) where
  pub data Step (db : ClientDb) : ClientDb → Type 0 where
    creates_task :
        (input : TaskInput) (id : String) (wall now : Time)
        → Step db (create_ai_client_task db input id wall now).1
    claims_task :
        (connector : String) (lease : Duration) (token : String) (wall now : Time)
        → Step db (claim_ai_client_task hash db connector lease token wall now).1
    completes_task :
        (connector task token : String) (ok : Bool) (result_key code message : String) (now : Time)
        → Step db
            (complete_ai_client_task hash db connector task token ok result_key code message now).1
    cancels_task :
        (owner org task reason : String) (now : Time)
        → Step db (cancel_ai_client_task db owner org task reason now)
    creates_connector :
        (owner org name code id : String) (wall : Time)
        → Step db (create_ai_client_connector hash db owner org name code id wall).1
    pairs :
        (is_public_key : String → Bool) (code key token : String) (now : Time)
        → Step db (pair_ai_client_connector hash is_public_key db code key token now).1
    beats :
        (id version codex grok : String) (capabilities : List String) (identity : String)
        (now : Time)
        → Step db
            (heartbeat_ai_client_connector db id version codex grok capabilities identity now).1
    revokes :
        (owner org id : String) (now : Time)
        → Step db (revoke_ai_client_connector db owner org id now).1
    maintains : (now : Time) → Step db (maintain_ai_client_state db now).1
    creates_session :
        (input : SessionInput) (id : String) (wall now : Time)
        → Step db (create_ai_client_response db input id wall now).1
    uses_session :
        (id owner org key connection model : String) (now : Time)
        → Step db (ai_client_response_for_use db id owner org key connection model now).1
    deletes_session :
        (owner org id : String) → Step db (delete_ai_client_response_for_owner db owner org id).1
    elsewhere :
        (connections : List ConnectionRow) (is_member : String → String → Bool)
        → Step db (record db { connections = connections; is_member = is_member })

  pub data Reach (db : ClientDb) : ClientDb → Type 0 where
    here : Reach db db
    next : {db' db'' : ClientDb} → Reach db db' → Step db' db'' → Reach db db''
