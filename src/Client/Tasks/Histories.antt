-- ===== src/Client/Tasks/Histories.antt =====
-- What no history of the tables can do to the tasks of the connectors.
use tok_hub.Prelude.{
  String, ◌≡◌, refl, sym, subst, inl, inr, Bool, List, arith, All-of_All, Bool-cases, eqb,
  count_where, Unique,
}
use tok_hub.Clock.{Time}
use tok_hub.Client.{expired, cancelled, TaskRow, ClientDb}
use tok_hub.Client.Tasks.{task_id, is_open_of, end_task, expire_task}
use tok_hub.Client.Tasks.Machine.{
  IsSingle, Change-IsSingle, Evolve, Change-Evolve, expires, cancels, Update, Change, one,
  unchanged, updated, chained, Change-Unique, widen,
}
use tok_hub.Client.Tasks.Moves.{Follow, Update-Follow, create-Follow, claim-Follow}
use tok_hub.Client.Connectors.{
  create_ai_client_connector, pair_ai_client_connector, heartbeat_ai_client_connector,
  revoke_ai_client_connector, maintain_ai_client_state, revoked_task, is_overdue, owns_connector,
}
use tok_hub.Client.Sessions.{
  SessionInput, create_ai_client_response, ai_client_response_for_use,
  delete_ai_client_response_for_owner,
}
use tok_hub.Client.Steps.{
  Step, Reach, here, next, creates_task, claims_task, completes_task, cancels_task,
  creates_connector, pairs, beats, revokes, maintains, creates_session, uses_session,
  deletes_session, elsewhere,
}
use tok_hub.Client.Tasks.Changes.{
  IsServed, create-Change, claim-Change, complete-Update, cancel-Update, end-Evolved,
}

-- The operations on the other tables leave the tasks alone.
create_connector_tasks :
    (hash : String → String) (db : ClientDb) (owner org name code id : String) (wall : Time)
    → (create_ai_client_connector hash db owner org name code id wall).1.tasks ≡ db.tasks
unfolding create_ai_client_connector
create_connector_tasks hash db owner org name code id wall = ground arith

pair_tasks :
    (hash : String → String) (is_public_key : String → Bool) (db : ClientDb)
    (code key token : String) (now : Time)
    → (pair_ai_client_connector hash is_public_key db code key token now).1.tasks ≡ db.tasks
unfolding pair_ai_client_connector
pair_tasks hash is_public_key db code key token now = ground arith

beat_tasks :
    (db : ClientDb) (id version codex grok : String) (capabilities : List String)
    (identity : String) (now : Time)
    → (heartbeat_ai_client_connector db id version codex grok capabilities identity now).1.tasks
      ≡ db.tasks
unfolding heartbeat_ai_client_connector
beat_tasks db id version codex grok capabilities identity now = ground arith

create_session_tasks :
    (db : ClientDb) (input : SessionInput) (id : String) (wall now : Time)
    → (create_ai_client_response db input id wall now).1.tasks ≡ db.tasks
unfolding create_ai_client_response
create_session_tasks db input id wall now = ground arith

use_session_tasks :
    (db : ClientDb) (id owner org key connection model : String) (now : Time)
    → (ai_client_response_for_use db id owner org key connection model now).1.tasks ≡ db.tasks
unfolding ai_client_response_for_use
use_session_tasks db id owner org key connection model now = ground arith

delete_session_tasks :
    (db : ClientDb) (owner org id : String)
    → (delete_ai_client_response_for_owner db owner org id).1.tasks ≡ db.tasks
unfolding delete_ai_client_response_for_owner
delete_session_tasks db owner org id = ground arith

revoke-Update :
    {S : String → Type 0} (db : ClientDb) (owner org id : String) (now : Time)
    → Update S db.tasks (revoke_ai_client_connector db owner org id now).1.tasks
unfolding revoke_ai_client_connector end_task
revoke-Update db owner org id now =
    elim (Bool-cases (eqb (count_where (owns_connector owner org id) db.connectors) 1)) [
      | inr refused ↦ rw (revoke_ai_client_connector, refused) unchanged
      | inl owned ↦
          rw (revoke_ai_client_connector, owned)
            (updated (is_open_of id) (revoked_task now) (λ t. refl)
              (All-of_All _ db.tasks (λ t met.
                end-Evolved cancelled "connector_revoked" "Official client connector revoked" now t
                  (λ s h. cancels h) (ground arith))))
    ]

maintain-Update :
    {S : String → Type 0} (db : ClientDb) (now : Time)
    → Update S db.tasks (maintain_ai_client_state db now).1.tasks
unfolding maintain_ai_client_state end_task
maintain-Update db now =
    updated (is_overdue now) (expire_task now) (λ t. refl)
      (All-of_All _ db.tasks (λ t met.
        end-Evolved expired "task_expired" "Official client task expired" now t (λ s h. expires h)
          (ground arith)))

same-Update : {S : String → Type 0} {ts us : List TaskRow} → us ≡ ts → Update S ts us
same-Update {S} {ts} e = subst (λ xs. Update S ts xs) (sym e) unchanged

plain-Follow : {ts us : List TaskRow} → Update (λ _. Unit) ts us → Follow ts us
plain-Follow u = Update-Follow u

module _ (hash : String → String) where
  pub Step-Change :
      (db db' : ClientDb)
      → Unique task_id db.tasks
      → Step hash db db'
      → Change (IsServed db) db.tasks db'.tasks
  Step-Change db _ u (creates_task input id wall now) = create-Change db input id wall now
  Step-Change db _ u (claims_task connector lease token wall now) =
      claim-Change hash db connector lease token wall now u
  Step-Change db _ u (completes_task connector task token ok result_key code message now) =
      one (complete-Update hash db connector task token ok result_key code message now)
  Step-Change db _ u (cancels_task owner org task reason now) =
      one (cancel-Update db owner org task reason now)
  Step-Change db _ u (creates_connector owner org name code id wall) =
      one (same-Update (create_connector_tasks hash db owner org name code id wall))
  Step-Change db _ u (pairs is_public_key code key token now) =
      one (same-Update (pair_tasks hash is_public_key db code key token now))
  Step-Change db _ u (beats id version codex grok capabilities identity now) =
      one (same-Update (beat_tasks db id version codex grok capabilities identity now))
  Step-Change db _ u (revokes owner org id now) = one (revoke-Update db owner org id now)
  Step-Change db _ u (maintains now) = one (maintain-Update db now)
  Step-Change db _ u (creates_session input id wall now) =
      one (same-Update (create_session_tasks db input id wall now))
  Step-Change db _ u (uses_session id owner org key connection model now) =
      one (same-Update (use_session_tasks db id owner org key connection model now))
  Step-Change db _ u (deletes_session owner org id) =
      one (same-Update (delete_session_tasks db owner org id))
  Step-Change db _ u (elsewhere connections is_member) = one unchanged

  pub Reach-Change :
      {db db' : ClientDb}
      → Unique task_id db.tasks
      → Reach hash db db'
      → Change (λ _. Unit) db.tasks db'.tasks
  Reach-Change u here = one unchanged
  Reach-Change u (next r st) =
      let c = Reach-Change u r in
      chained c (widen (λ _ _. tt) (Step-Change _ _ (Change-Unique c u) st))

  Step-Follow :
      (db db' : ClientDb) → Unique task_id db.tasks → Step hash db db' → Follow db.tasks db'.tasks
  Step-Follow db _ u (creates_task input id wall now) = create-Follow db input id wall now
  Step-Follow db _ u (claims_task connector lease token wall now) =
      claim-Follow hash db connector lease token wall now u
  Step-Follow db _ u (completes_task connector task token ok result_key code message now) =
      plain-Follow (complete-Update hash db connector task token ok result_key code message now)
  Step-Follow db _ u (cancels_task owner org task reason now) =
      plain-Follow (cancel-Update db owner org task reason now)
  Step-Follow db _ u (creates_connector owner org name code id wall) =
      plain-Follow (same-Update (create_connector_tasks hash db owner org name code id wall))
  Step-Follow db _ u (pairs is_public_key code key token now) =
      plain-Follow (same-Update (pair_tasks hash is_public_key db code key token now))
  Step-Follow db _ u (beats id version codex grok capabilities identity now) =
      plain-Follow (same-Update (beat_tasks db id version codex grok capabilities identity now))
  Step-Follow db _ u (revokes owner org id now) = plain-Follow (revoke-Update db owner org id now)
  Step-Follow db _ u (maintains now) = plain-Follow (maintain-Update db now)
  Step-Follow db _ u (creates_session input id wall now) =
      plain-Follow (same-Update (create_session_tasks db input id wall now))
  Step-Follow db _ u (uses_session id owner org key connection model now) =
      plain-Follow (same-Update (use_session_tasks db id owner org key connection model now))
  Step-Follow db _ u (deletes_session owner org id) =
      plain-Follow (same-Update (delete_session_tasks db owner org id))
  Step-Follow db _ u (elsewhere connections is_member) = plain-Follow unchanged

  -- Where the ids of the tasks are unique, after whatever operations in whatever order, one more
  -- operation leaves the status of each task as it is or changes it by one move of the state machine.
  -- The moves are: a queued task is claimed; a claimed one falls back into the queue, is completed or
  -- fails; an open one expires or is cancelled. The tasks that it adds are queued. From the first operation to the last, each task keeps
  -- its place, id and connector, and a finished one its status, its result and its error.
  pub one_move_at_most :
      {db db' db'' : ClientDb}
      → Unique task_id db.tasks
      → Reach hash db db'
      → Step hash db' db''
      → Follow db'.tasks db''.tasks × Evolve db.tasks db''.tasks
  one_move_at_most u r st =
      let c = Reach-Change u r in
      (Step-Follow _ _ (Change-Unique c u) st, Change-Evolve (Reach-Change u (next r st)))

  -- Where the ids of the tasks are unique and no connector has two open tasks, no connector ever has
  -- two open tasks, whatever operations come in whatever order.
  pub Reach-IsSingle :
      {db db' : ClientDb}
      → Unique task_id db.tasks
      → IsSingle db.tasks
      → Reach hash db db'
      → IsSingle db'.tasks
  Reach-IsSingle u s r = Change-IsSingle (Reach-Change u r) s
