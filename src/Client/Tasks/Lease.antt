-- ===== src/Client/Tasks/Lease.antt =====
-- Who may complete a task that was claimed.
use tok_hub.Prelude.{
  ◌+◌, ◌*◌, ◌≤◌, ◌<◌, String, ◌≡◌, refl, ◌∙◌, subst, ◌↔◌, inl, inr, Bool, true, false, ◌&&◌, none,
  some, ◌==◌, arith, ltb, Bool-cases, Option-cases, count_where, find_by, find_by-update, has_key,
  update_where, count_where-ext, Unique, Unique-Occurs, count_keyed, update-Unique, if◌then◌else◌,
  eq_refl, eq_iff,
}
use tok_hub.Prelude.Text.{trim_space}
use tok_hub.Clock.{Time, Duration, minute}
use tok_hub.Client.{TaskRow, ClientDb, is_claimed}
use tok_hub.Client.Tasks.{
  task_id, lease_invalid, is_waiting_for, oldest, take_lease, lease_length, ready_tasks,
  claim_ai_client_task, holds_lease, complete_ai_client_task, is_after,
}
use tok_hub.Client.Tasks.Machine.{Change-Unique}
use tok_hub.Client.Tasks.Changes.{ready_tasks-Change, oldest-Occurs}

pub lease_length-bounds : (d : Duration) → lease_length d ≤ 5 * minute
unfolding lease_length
lease_length-bounds d = ground arith

and_first : (a b c d e f : Bool) → (a && b && c && d && e && f) ≡ (a && (b && c && d && e && f))
and_first true b c d e f = refl
and_first false b c d e f = refl

module _ (hash : String → String) where
  -- The part of the condition on a lease that is not the id.
  abbrev holds_rest : String → String → Time → TaskRow → Bool
  holds_rest connector token now t =
      t.connector_id == connector
      && is_claimed t.status
      && t.lease_hash == hash (trim_space token)
      && is_after t.lease_expires_at now
      && ltb now t.expires_at

  lease_count :
      (db : ClientDb) (connector task token : String) (now : Time) (row : TaskRow)
      → Unique task_id db.tasks
      → find_by task_id task db.tasks ≡ some row
      → count_where (holds_lease hash connector task token now) db.tasks
        ≡ (if holds_rest connector token now row then 1 else 0)
  unfolding holds_lease
  lease_count db connector task token now row u found =
      count_where-ext (holds_lease hash connector task token now)
        (λ t. has_key task_id task t && holds_rest connector token now t) db.tasks
        (λ t.
          and_first (t.id == task) (t.connector_id == connector) (is_claimed t.status)
            (t.lease_hash == hash (trim_space token)) (is_after t.lease_expires_at now)
            (ltb now t.expires_at))
      ∙ count_keyed task_id (holds_rest connector token now) db.tasks task row u found

  -- A row that is found by its id is completed where the lease is held.
  completes_found :
      (db : ClientDb) (connector task token : String) (ok : Bool) (result_key code message : String)
      (now : Time) (row : TaskRow)
      → Unique task_id db.tasks
      → find_by task_id task db.tasks ≡ some row
      → ((complete_ai_client_task hash db connector task token ok result_key code message now).0
          ≡ none)
        ↔ (holds_rest connector token now row ≡ true)
  unfolding complete_ai_client_task
  completes_found db connector task token ok result_key code message now row u found =
      let count = lease_count db connector task token now row u found in
      elim (Bool-cases (holds_rest connector token now row)) [
        | inl holds ↦ (λ _. holds, λ _. rw (count, holds) refl)
        | inr fails ↦
            (let refused : (complete_ai_client_task hash db connector task token ok result_key code
                    message now).0
                  ≡ some lease_invalid =
                rw (count, fails) refl in
              ((λ e. absurd cc), (λ h. absurd cc)))
      ]

  -- The row that a claim leaves.
  record Claimed (db : ClientDb) (id token : String) (until : Time) : Type 0 where
    row : TaskRow
    is_there : find_by task_id id db.tasks ≡ some row
    is_unique : Unique task_id db.tasks
    lease : (row.lease_hash ≡ hash token) × (row.lease_expires_at ≡ some until)
    status : is_claimed row.status ≡ true

  claim-Claimed :
      (db : ClientDb) (connector id : String) (lease : Duration) (token : String) (wall now : Time)
      → Unique task_id db.tasks
      → (claim_ai_client_task hash db connector lease token wall now).0 ≡ some id
      → Claimed
          (claim_ai_client_task hash db connector lease token wall now).1
          id
          token
          (wall + lease_length lease)
  unfolding claim_ai_client_task
  claim-Claimed db connector id lease token wall now u e =
      let ready = ready_tasks connector now db.tasks in
      elim (Option-cases (oldest (is_waiting_for connector now) ready)) [
        | inl idle ↦ absurd (ground arith)
        | inr (t, found) ↦
            (let (m, _) = oldest-Occurs (is_waiting_for connector now) ready t found in
              let u' =
                Change-Unique {S = λ _. Unit} (ready_tasks-Change connector now db.tasks) u in
              let same : t.id ≡ id = ground arith in
              let f = take_lease (hash token) (wall + lease_length lease) now in
              let r = eq_refl t.id in
              let there : find_by task_id t.id (update_where (has_key task_id t.id) f ready)
                  ≡ some (f t) =
                find_by-update task_id (has_key task_id t.id) f ready t.id t (λ b. refl)
                  (Unique-Occurs task_id ready t u' m)
                ∙ rw r refl in
              rw (claim_ai_client_task, found)
                (record {
                  row = f t;
                  is_there =
                      subst
                        (λ k.
                          find_by task_id k (update_where (has_key task_id t.id) f ready)
                          ≡ some (f t))
                        same there;
                  is_unique = update-Unique task_id (has_key task_id t.id) f ready (λ b. refl) u';
                  lease = (refl, refl);
                  status = refl;
                }))
      ]

  rest_iff :
      (by token' : String) (later until : Time) (row : TaskRow) (hashed : String)
      → row.lease_hash ≡ hashed
      → row.lease_expires_at ≡ some until
      → is_claimed row.status ≡ true
      → (holds_rest by token' later row ≡ true) ↔ (
          (row.connector_id ≡ by)
          × (hashed ≡ hash (trim_space token'))
          × (later < until)
          × (later < row.expires_at))
  rest_iff by token' later until row hashed h e s =
      let owner = eq_iff row.connector_id by in
      let token = eq_iff hashed (hash (trim_space token')) in rw (h, e, s) (ground arith)

  -- After a claim of a task, a completion of it succeeds exactly where it comes from the connector of
  -- the task, with a token of the hash of the claim's, before the lease ends, which is at most five
  -- minutes after the claim, and before the task expires.
  pub claimed_task_needs_its_token :
      (db : ClientDb) (connector id : String) (lease : Duration) (token : String) (wall now : Time)
      → Unique task_id db.tasks
      → (claim_ai_client_task hash db connector lease token wall now).0 ≡ some id
      → (row : TaskRow) × (find_by task_id id
            (claim_ai_client_task hash db connector lease token wall now).1.tasks
          ≡ some row)
        × (lease_length lease ≤ 5 * minute)
        × ((by token' : String) (ok : Bool) (result_key code message : String) (later : Time)
            → ((complete_ai_client_task hash
                  (claim_ai_client_task hash db connector lease token wall now).1
                  by
                  id
                  token'
                  ok
                  result_key
                  code
                  message
                  later).0
                ≡ none)
              ↔ ((row.connector_id ≡ by)
                  × (hash token ≡ hash (trim_space token'))
                  × (later < wall + lease_length lease)
                  × (later < row.expires_at)))
  claimed_task_needs_its_token db connector id lease token wall now u e =
      let c = claim-Claimed db connector id lease token wall now u e in
      let after = (claim_ai_client_task hash db connector lease token wall now).1 in
      (
        c.row,
        c.is_there,
        lease_length-bounds lease,
        λ by token' ok result_key code message later.
            let done =
              completes_found after by id token' ok result_key code message later c.row c.is_unique
                c.is_there in
            let holds =
              rest_iff by token' later (wall + lease_length lease) c.row (hash token) c.lease.0
                c.lease.1 c.status in
            ((λ d. holds.0 (done.0 d)), (λ h. done.1 (holds.1 h))),
      )
