-- ===== src/Client/Connectors/Revoked.antt =====
-- What becomes of a connector that its owner revokes.
use tok_hub.Prelude.{
  ◌+◌, ◌*◌, ltb, String, ◌≡◌, ◌≢◌, refl, subst, inl, inr, Bool, true, false, not, ◌&&◌, ◌||◌, none,
  some, List, ◌==◌, arith, eq_iff, eqb, Bool-cases, Option-cases, All-Occurs, Occurs, count_where,
  find_where, find_by, find_where-met, find_where-Occurs, count_where-found, count_where-cleared,
  Unique, Unique-Occurs, Revision, unrevised, changed, inserted, same-Revision, Holds,
  Revision-Holds, update-Holds, if◌then◌else◌,
}
use tok_hub.Prelude.Text.{trim_space, rune_count, byte_length}
use tok_hub.Clock.{Time, minute}
use tok_hub.Client.{
  ConnectorStatus, ConnectorRow, ClientDb, is_active_connector, is_pending, is_revoked, pending,
  active, revoked,
}
use tok_hub.Client.Tasks.{task_id, is_open_of, end_task}
use tok_hub.Client.Tasks.Machine.{Change-Unique, Change-idle}
use tok_hub.Client.Tasks.Changes.{IsServed}
use tok_hub.Client.Tasks.Histories.{Step-Change, Reach-Change}
use tok_hub.Client.Connectors.{
  connector_id, owns_connector, in_conflict, is_taken, client_token_prefix, client_token_prefix,
  new_connector, pair_connector, revoke_connector, can_pair, is_stale_connector,
  create_ai_client_connector, pair_ai_client_connector, authenticate_ai_client_connector,
  heartbeat_ai_client_connector, revoke_ai_client_connector, maintain_ai_client_state, revoked_task,
}
use tok_hub.Client.Sessions.{
  create_ai_client_response, ai_client_response_for_use, delete_ai_client_response_for_owner,
}
use tok_hub.Client.Tasks.{
  create_ai_client_task, claim_ai_client_task, complete_ai_client_task, cancel_ai_client_task,
}
use tok_hub.Client.Steps.{
  Step, Reach, here, next, creates_task, claims_task, completes_task, cancels_task,
  creates_connector, pairs, beats, revokes, maintains, creates_session, uses_session,
  deletes_session, elsewhere,
}

abbrev IsOut : ConnectorRow → Type 0
IsOut c = is_revoked c.status ≡ true

abbrev Roster : List ConnectorRow → List ConnectorRow → Type 0
Roster = Revision connector_id IsOut

conflict-fresh :
    (db : ClientDb) (row : ConnectorRow)
    → in_conflict db row ≡ false
    → find_by connector_id row.id db.connectors ≡ none
unfolding in_conflict
conflict-fresh db row h = elim (Option-cases (find_by connector_id row.id db.connectors)) [
  | inl fresh ↦ fresh
  | inr (c, found) ↦ absurd (ground arith)
]

create-Roster :
    (hash : String → String) (db : ClientDb) (owner org name code id : String) (wall : Time)
    → Roster db.connectors
        (create_ai_client_connector hash db owner org name code id wall).1.connectors
unfolding create_ai_client_connector
create-Roster hash db owner org name code id wall =
    let display = if trim_space name == "" then "我的官方客户端" else trim_space name in
    let row = new_connector id owner org display (hash code) (wall + 10 * minute) in
    elim (Bool-cases (ltb 80 (rune_count display))) [
      | inl long ↦ rw (create_ai_client_connector, long) unrevised
      | inr short ↦ elim (Bool-cases (db.is_member owner org)) [
        | inr outsider ↦ rw (create_ai_client_connector, short, outsider) unrevised
        | inl member ↦ elim (Bool-cases (in_conflict db row)) [
          | inl taken ↦ rw (create_ai_client_connector, short, member, taken) unrevised
          | inr free ↦
              rw (create_ai_client_connector, short, member, free)
                (inserted row (conflict-fresh db row free))
        ]
      ]
    ]

not_revoked : (s : ConnectorStatus) → is_pending s ≡ true → is_revoked s ≡ true → ⊥
not_revoked pending h k = absurd cc
not_revoked active h k = absurd cc
not_revoked revoked h k = absurd cc

pair-Roster :
    (hash : String → String) (is_public_key : String → Bool) (db : ClientDb)
    (code key token : String) (now : Time)
    → Roster db.connectors
        (pair_ai_client_connector hash is_public_key db code key token now).1.connectors
unfolding pair_ai_client_connector
pair-Roster hash is_public_key db code key token now =
    let c = trim_space code in
    let k = trim_space key in
    elim (Bool-cases (not (is_public_key k) || ltb (byte_length c) 32)) [
      | inl refused ↦ rw (pair_ai_client_connector, refused) unrevised
      | inr well_formed ↦ elim (Option-cases (find_where (can_pair hash db c now) db.connectors)) [
        | inl unknown ↦ rw (pair_ai_client_connector, well_formed, unknown) unrevised
        | inr (row, found) ↦ elim (Bool-cases (is_taken (λ d. d.token_hash) db (hash token))) [
          | inl taken ↦ rw (pair_ai_client_connector, well_formed, found, taken) unrevised
          | inr free ↦
              rw (pair_ai_client_connector, well_formed, found, free)
                (changed (can_pair hash db c now)
                  (pair_connector (hash token) (client_token_prefix token) k now)
                  (λ d. unfold pair_connector in refl)
                  (λ d met h. absurd (not_revoked d.status (ground arith) h)))
        ]
      ]
    ]

beat-Roster :
    (db : ClientDb) (id version codex grok : String) (capabilities : List String)
    (identity : String) (now : Time)
    → Roster db.connectors
        (heartbeat_ai_client_connector db id version codex grok capabilities identity
          now).1.connectors
unfolding heartbeat_ai_client_connector
beat-Roster db id version codex grok capabilities identity now =
    elim (Bool-cases (ltb 16384 (byte_length identity))) [
      | inl long ↦ rw (heartbeat_ai_client_connector, long) unrevised
      | inr short ↦
          rw (heartbeat_ai_client_connector, short) (changed _ _ (λ c. refl) (λ c met h. h))
    ]

revoke-Roster :
    (db : ClientDb) (owner org id : String) (now : Time)
    → Roster db.connectors (revoke_ai_client_connector db owner org id now).1.connectors
unfolding revoke_ai_client_connector
revoke-Roster db owner org id now =
    elim (Bool-cases (eqb (count_where (owns_connector owner org id) db.connectors) 1)) [
      | inr refused ↦ rw (revoke_ai_client_connector, refused) unrevised
      | inl owned ↦
          rw (revoke_ai_client_connector, owned)
            (changed (owns_connector owner org id) (revoke_connector now)
              (λ c. unfold revoke_connector in refl) (λ c met h. unfold revoke_connector in refl))
    ]

maintain-Roster :
    (db : ClientDb) (now : Time)
    → Roster db.connectors (maintain_ai_client_state db now).1.connectors
unfolding maintain_ai_client_state
maintain-Roster db now = changed (is_stale_connector now) _ (λ c. refl) (λ c met h. refl)

Step-Roster :
    (hash : String → String) (db db' : ClientDb)
    → Step hash db db'
    → Roster db.connectors db'.connectors
unfolding create_ai_client_task claim_ai_client_task complete_ai_client_task cancel_ai_client_task
    create_ai_client_response ai_client_response_for_use delete_ai_client_response_for_owner
Step-Roster hash db _ (creates_task input id wall now) = same-Revision _ _ (ground arith)
Step-Roster hash db _ (claims_task connector lease token wall now) =
    same-Revision _ _ (ground arith)
Step-Roster hash db _ (completes_task connector task token ok result_key code message now) =
    unrevised
Step-Roster hash db _ (cancels_task owner org task reason now) = unrevised
Step-Roster hash db _ (creates_connector owner org name code id wall) =
    create-Roster hash db owner org name code id wall
Step-Roster hash db _ (pairs is_public_key code key token now) =
    pair-Roster hash is_public_key db code key token now
Step-Roster hash db _ (beats id version codex grok capabilities identity now) =
    beat-Roster db id version codex grok capabilities identity now
Step-Roster hash db _ (revokes owner org id now) = revoke-Roster db owner org id now
Step-Roster hash db _ (maintains now) = maintain-Roster db now
Step-Roster hash db _ (creates_session input id wall now) = same-Revision _ _ (ground arith)
Step-Roster hash db _ (uses_session id owner org key connection model now) =
    same-Revision _ _ (ground arith)
Step-Roster hash db _ (deletes_session owner org id) = same-Revision _ _ (ground arith)
Step-Roster hash db _ (elsewhere connections is_member) = unrevised

abbrev IsGone : String → List ConnectorRow → Type 0
IsGone = Holds connector_id IsOut

-- No connector of the id is active.
IsGone-idle : (id : String) (db : ClientDb) → IsGone id db.connectors → ¬ IsServed db id
IsGone-idle id db g (c, m, same, is_active) =
    let h = All-Occurs _ db.connectors c g.holds m ((eq_iff c.id id).1 same) in
    not_both c.status is_active h
  where
    not_both : (s : ConnectorStatus) → is_active_connector s ≡ true → is_revoked s ≡ true → ⊥
    not_both pending h k = absurd cc
    not_both active h k = absurd cc
    not_both revoked h k = absurd cc

-- The owner's connector of a revocation that succeeds.
revoked-IsGone :
    (db : ClientDb) (owner org id : String) (now : Time)
    → Unique connector_id db.connectors
    → (revoke_ai_client_connector db owner org id now).0 ≡ none
    → IsGone id (revoke_ai_client_connector db owner org id now).1.connectors
      × (count_where (is_open_of id) (revoke_ai_client_connector db owner org id now).1.tasks ≡ 0)
unfolding revoke_ai_client_connector
revoked-IsGone db owner org id now u e =
    let owns = owns_connector owner org id in
    elim (Bool-cases (eqb (count_where owns db.connectors) 1)) [
      | inr refused ↦ absurd (ground arith)
      | inl owned ↦
          (let (c, found) = count_where-found owns db.connectors (ground arith) in
            let met = find_where-met owns db.connectors c found in
            let same : c.id ≡ id = (eq_iff c.id id).0 (ground arith) in
            let there : find_by connector_id id db.connectors ≡ some c =
              subst (λ k. find_by connector_id k db.connectors ≡ some c) same
                (Unique-Occurs connector_id db.connectors c u
                  (find_where-Occurs owns db.connectors c found)) in
            rw (revoke_ai_client_connector, owned)
              (
                update-Holds connector_id IsOut owns (revoke_connector now) id c db.connectors u
                    there met (unfold revoke_connector in refl)
                    (λ d. unfold revoke_connector in refl),
                count_where-cleared (is_open_of id) (revoked_task now) db.tasks
                    (λ t. unfold end_task in ground arith),
              ))
    ]

module _ (hash : String → String) where
  authenticated-active :
      (db : ClientDb) (device_token : String) (c : ConnectorRow)
      → authenticate_ai_client_connector hash db device_token ≡ some c
      → Occurs c db.connectors × (is_active_connector c.status ≡ true)
  unfolding authenticate_ai_client_connector
  authenticated-active db device_token c e =
      elim (Bool-cases (ltb (byte_length (trim_space device_token)) 40)) [
        | inl short ↦ absurd (ground arith)
        | inr long ↦
            (let found : find_where
                    (λ d.
                      d.token_hash == hash (trim_space device_token)
                      && is_active_connector d.status
                      && db.is_member d.owner_user_id d.org_id)
                    db.connectors
                  ≡ some c =
                ground arith in
              let met = find_where-met _ db.connectors c found in
              (find_where-Occurs _ db.connectors c found, ground arith))
      ]

  stays-IsGone :
      (id : String) {db db' : ClientDb}
      → Unique task_id db.tasks
      → IsGone id db.connectors
      → count_where (is_open_of id) db.tasks ≡ 0
      → Reach hash db db'
      → IsGone id db'.connectors × (count_where (is_open_of id) db'.tasks ≡ 0)
  stays-IsGone id u g idle here = (g, idle)
  stays-IsGone id u g idle (next {db' = mid} r st) =
      let (g', idle') = stays-IsGone id u g idle r in
      let u' = Change-Unique (Reach-Change hash u r) u in
      (
        Revision-Holds connector_id IsOut id (Step-Roster hash _ _ st) g',
        Change-idle id (Step-Change hash _ _ u' st) (IsGone-idle id mid g') idle',
      )

  -- Where the ids of the connectors and of the tasks are unique, once a connector has been revoked, no
  -- token authenticates it and it has no open task, whatever operations come later.
  pub revocation_is_final :
      (db db' : ClientDb) (owner org id : String) (now : Time)
      → Unique connector_id db.connectors
      → Unique task_id db.tasks
      → (revoke_ai_client_connector db owner org id now).0 ≡ none
      → Reach hash (revoke_ai_client_connector db owner org id now).1 db'
      → (count_where (is_open_of id) db'.tasks ≡ 0)
        × ((device_token : String) (c : ConnectorRow)
            → authenticate_ai_client_connector hash db' device_token ≡ some c
            → c.id ≢ id)
  revocation_is_final db db' owner org id now u v e r =
      let (g, idle) = revoked-IsGone db owner org id now u e in
      let v' = Change-Unique (Step-Change hash db _ v (revokes owner org id now)) v in
      let (g', idle') = stays-IsGone id v' g idle r in
      (
        idle',
        λ device_token c found same.
            (let (m, is_active) = authenticated-active db' device_token c found in
              IsGone-idle id db' g' (c, m, same, is_active)),
      )
