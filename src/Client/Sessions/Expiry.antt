-- ===== src/Client/Sessions/Expiry.antt =====
-- How long a session with a client can be used.
use tok_hub.Prelude.{
  ◌≤◌, ◌<◌, ◌+◌, String, ◌≡◌, refl, ◌∙◌, eq_iff, inl, inr, Bool, true, not, ◌&&◌, some, List, ◌==◌,
  arith, eqb, Bool-cases, Option-cases, All-Occurs, Occurs, count_where, find_where, find_by,
  find_where-met, find_where-Occurs, Unique, Revision, unrevised, changed, inserted, same-Revision,
  Holds, Revision-Holds, found-Holds,
}
use tok_hub.Clock.{Time, day}
use tok_hub.Client.{SessionRow, ClientDb, is_active_session, is_deleted_session}
use tok_hub.Client.Tasks.{
  is_checked_provider, create_ai_client_task, claim_ai_client_task, complete_ai_client_task,
  cancel_ai_client_task,
}
use tok_hub.Client.Connectors.{
  owns_connector, is_kept_session_of, wipe_session, is_over_session, create_ai_client_connector,
  pair_ai_client_connector, heartbeat_ai_client_connector, revoke_ai_client_connector,
  maintain_ai_client_state,
}
use tok_hub.Client.Sessions.{
  SessionInput, session_id, usable, is_session_for, is_active_row, is_over, next_idle,
  create_ai_client_response, ai_client_response_for_use, delete_ai_client_response_for_owner,
}
use tok_hub.Client.Steps.{
  Step, Reach, here, next, creates_task, claims_task, completes_task, cancels_task,
  creates_connector, pairs, beats, revokes, maintains, creates_session, uses_session,
  deletes_session, elsewhere,
}

-- The deadline is kept, and a session that is not active stays so.
abbrev Lasts : Time → Bool → SessionRow → Type 0
Lasts deadline was_active s =
    (s.absolute_expires_at ≡ deadline) × (is_active_session s.status ≡ true → was_active ≡ true)

module _ (deadline : Time) (was_active : Bool) where
  abbrev Log : List SessionRow → List SessionRow → Type 0
  Log = Revision session_id (Lasts deadline was_active)

  create-Log :
      (db : ClientDb) (input : SessionInput) (id : String) (wall now : Time)
      → Log db.sessions (create_ai_client_response db input id wall now).1.sessions
  unfolding create_ai_client_response
  create-Log db input id wall now = elim (Bool-cases (is_checked_provider input.provider)) [
    | inr other ↦ rw (create_ai_client_response, other) unrevised
    | inl checked ↦ elim (Option-cases (find_by session_id id db.sessions)) [
      | inr (s, taken) ↦ rw (create_ai_client_response, checked, taken) unrevised
      | inl fresh ↦ rw (create_ai_client_response, checked, fresh) (inserted _ fresh)
    ]
  ]

  use-Log :
      (db : ClientDb) (id owner org key connection model : String) (now : Time)
      → Log db.sessions
          (ai_client_response_for_use db id owner org key connection model now).1.sessions
  unfolding ai_client_response_for_use
  use-Log db id owner org key connection model now =
      elim (Option-cases
        (find_where (is_session_for id owner org key connection model) db.sessions)) [
          | inl unknown ↦ rw (ai_client_response_for_use, unknown) unrevised
          | inr (s, found) ↦ elim (Bool-cases (is_over s now)) [
            | inl over ↦
                rw (ai_client_response_for_use, found, over)
                  (changed (is_active_row s.id) _ (λ r. refl) (λ r met h. (h.0, λ e. absurd cc)))
            | inr lives ↦
                rw (ai_client_response_for_use, found, lives)
                  (changed (is_active_row s.id) _ (λ r. refl) (λ r met h. h))
          ]
        ]

  delete-Log :
      (db : ClientDb) (owner org id : String)
      → Log db.sessions (delete_ai_client_response_for_owner db owner org id).1.sessions
  unfolding delete_ai_client_response_for_owner
  delete-Log db owner org id =
      elim (Option-cases (
        find_where
          (λ s.
            s.id == id
            && s.owner_user_id == owner
            && s.org_id == org
            && not (is_deleted_session s.status))
          db.sessions)) [
            | inl unknown ↦ rw (delete_ai_client_response_for_owner, unknown) unrevised
            | inr (s, found) ↦
                rw (delete_ai_client_response_for_owner, found)
                  (changed (λ r. r.id == s.id) _ (λ r. refl) (λ r met h. (h.0, λ e. absurd cc)))
          ]

  revoke-Log :
      (db : ClientDb) (owner org id : String) (now : Time)
      → Log db.sessions (revoke_ai_client_connector db owner org id now).1.sessions
  unfolding revoke_ai_client_connector
  revoke-Log db owner org id now =
      elim (Bool-cases (eqb (count_where (owns_connector owner org id) db.connectors) 1)) [
        | inr refused ↦ rw (revoke_ai_client_connector, refused) unrevised
        | inl owned ↦
            rw (revoke_ai_client_connector, owned)
              (changed (is_kept_session_of owner org id) wipe_session (λ s. refl)
                (λ s met h. (h.0, λ e. absurd cc)))
      ]

  maintain-Log :
      (db : ClientDb) (now : Time) → Log db.sessions (maintain_ai_client_state db now).1.sessions
  unfolding maintain_ai_client_state
  maintain-Log db now =
      changed (is_over_session now) _ (λ s. refl) (λ s met h. (h.0, λ e. absurd cc))

  Step-Log :
      (hash : String → String) (db db' : ClientDb) → Step hash db db' → Log db.sessions db'.sessions
  unfolding create_ai_client_task claim_ai_client_task complete_ai_client_task cancel_ai_client_task
      create_ai_client_connector pair_ai_client_connector heartbeat_ai_client_connector
  Step-Log hash db _ (creates_task input id wall now) = same-Revision _ _ (ground arith)
  Step-Log hash db _ (claims_task connector lease token wall now) = same-Revision _ _ (ground arith)
  Step-Log hash db _ (completes_task connector task token ok result_key code message now) =
      unrevised
  Step-Log hash db _ (cancels_task owner org task reason now) = unrevised
  Step-Log hash db _ (creates_connector owner org name code id wall) =
      same-Revision _ _ (ground arith)
  Step-Log hash db _ (pairs is_public_key code key token now) = same-Revision _ _ (ground arith)
  Step-Log hash db _ (beats id version codex grok capabilities identity now) =
      same-Revision _ _ (ground arith)
  Step-Log hash db _ (revokes owner org id now) = revoke-Log db owner org id now
  Step-Log hash db _ (maintains now) = maintain-Log db now
  Step-Log hash db _ (creates_session input id wall now) = create-Log db input id wall now
  Step-Log hash db _ (uses_session id owner org key connection model now) =
      use-Log db id owner org key connection model now
  Step-Log hash db _ (deletes_session owner org id) = delete-Log db owner org id
  Step-Log hash db _ (elsewhere connections is_member) = unrevised

  Reach-Lasts :
      (hash : String → String) (id : String) {db db' : ClientDb}
      → Holds session_id (Lasts deadline was_active) id db.sessions
      → Reach hash db db'
      → Holds session_id (Lasts deadline was_active) id db'.sessions
  Reach-Lasts hash id h here = h
  Reach-Lasts hash id h (next r st) =
      Revision-Holds session_id (Lasts deadline was_active) id (Step-Log hash _ _ st)
        (Reach-Lasts hash id h r)

-- The row that a successful use goes by.
record Used (db : ClientDb) (id : String) (now : Time) (r : SessionRow) : Type 0 where
  row : SessionRow
  is_there : Occurs row db.sessions
  has_id : row.id ≡ id
  is_active : is_active_session row.status ≡ true
  is_before : (now < row.idle_expires_at) × (now < row.absolute_expires_at)
  same_deadline : r.absolute_expires_at ≡ row.absolute_expires_at
  idle_bounds : (r.idle_expires_at ≤ row.absolute_expires_at) × (r.idle_expires_at ≤ now + day)

use-Used :
    (db : ClientDb) (id owner org key connection model : String) (now : Time) (r : SessionRow)
    → (ai_client_response_for_use db id owner org key connection model now).0 ≡ usable r
    → Used db id now r
unfolding ai_client_response_for_use
use-Used db id owner org key connection model now r e =
    let wanted = is_session_for id owner org key connection model in
    elim (Option-cases (find_where wanted db.sessions)) [
      | inl unknown ↦ absurd (ground arith)
      | inr (s, found) ↦ elim (Bool-cases (is_over s now)) [
        | inl over ↦ absurd (ground arith)
        | inr lives ↦
            (let met = find_where-met wanted db.sessions s found in
              let same : r ≡ (record s { idle_expires_at = next_idle s now; last_used_at = now }) =
                ground arith in
              record {
                row = s;
                is_there = find_where-Occurs wanted db.sessions s found;
                has_id = (eq_iff s.id id).0 (ground arith);
                is_active = unfold is_over in ground arith;
                is_before = unfold is_over in ground arith;
                same_deadline = rw same refl;
                idle_bounds = rw same (unfold next_idle in ground arith);
              })
      ]
    ]

module _ (hash : String → String) where
  -- Where the ids of the sessions are unique, whatever operations come in between, a session is usable
  -- only where it was active, and before its absolute deadline, which no operation moves; the idle
  -- deadline that a use leaves is at most a day away and at most the absolute deadline.
  pub use_ends_by_the_deadline :
      (db db' : ClientDb) (id : String) (s : SessionRow)
      → Unique session_id db.sessions
      → find_by session_id id db.sessions ≡ some s
      → Reach hash db db'
      → (owner org key connection model : String) (now : Time) (r : SessionRow)
      → (ai_client_response_for_use db' id owner org key connection model now).0 ≡ usable r
      → (is_active_session s.status ≡ true)
        × (now < s.absolute_expires_at)
        × (r.absolute_expires_at ≡ s.absolute_expires_at)
        × (r.idle_expires_at ≤ s.absolute_expires_at)
        × (r.idle_expires_at ≤ now + day)
  use_ends_by_the_deadline db db' id s u found reach owner org key connection model now r e =
      let d = s.absolute_expires_at in
      let a = is_active_session s.status in
      let h =
        Reach-Lasts d a hash id
          (found-Holds session_id (Lasts d a) id s db.sessions u found (refl, λ x. x)) reach in
      let used = use-Used db' id owner org key connection model now r e in
      let (same, was) =
        All-Occurs _ db'.sessions used.row h.holds used.is_there
          ((eq_iff used.row.id id).1 used.has_id) in
      let before = used.is_before in
      let bounds = used.idle_bounds in
      (was used.is_active, ground arith, used.same_deadline ∙ same, ground arith, bounds.1)
