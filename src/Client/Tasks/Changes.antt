-- ===== src/Client/Tasks/Changes.antt =====
-- Every operation on the tables changes the tasks along their state machine.
use tok_hub.Prelude.{
  ◌+◌, ◌*◌, String, ◌≡◌, refl, sym, ◌∙◌, eq_iff, not, ◌||◌, subst, inl, inr, Bool, true, false,
  some, List, [], ◌∷◌, ◌==◌, arith, All, All-of_All, Occurs, Unique-Occurs, Bool-cases,
  Option-cases, is_some, eqb, leb, count_where, find_where, find_where-met, find_where-Occurs,
  find_by, has_key, Unique, Unique-found, if◌then◌else◌,
}
use tok_hub.Prelude.Text.{trim_space}
use tok_hub.Clock.{Time, Duration, minute, is_zero}
use tok_hub.Client.{
  TaskStatus, queued, claimed, completed, failed, expired, cancelled, TaskRow, ConnectorRow,
  ClientDb, is_active_connector, is_open, is_queued, is_claimed,
}
use tok_hub.Client.Tasks.{
  task_id, is_open_of, end_task, expire_task, is_overdue_of, expire_tasks_of, TaskInput, new_task,
  serves_input, is_checked, insert_task, create_ai_client_task, is_lapsed_of, requeue,
  is_waiting_for, oldest, take_lease, lease_length, ready_tasks, claim_ai_client_task, holds_lease,
  complete_task, complete_ai_client_task, cancel_task, cancel_ai_client_task,
}
use tok_hub.Client.Tasks.Machine.{
  Moves, claims, lapses, completes, fails, expires, cancels, rests, Evolved, Evolved-open, Update,
  Change, one, unchanged, updated, added, chained, Change-Unique,
}

-- The status of an open task, by cases.
pub claimed_status : (s : TaskStatus) → is_claimed s ≡ true → s ≡ claimed
claimed_status claimed h = refl
claimed_status queued h = absurd cc
claimed_status completed h = absurd cc
claimed_status failed h = absurd cc
claimed_status expired h = absurd cc
claimed_status cancelled h = absurd cc

pub queued_status : (s : TaskStatus) → is_queued s ≡ true → s ≡ queued
queued_status queued h = refl
queued_status claimed h = absurd cc
queued_status completed h = absurd cc
queued_status failed h = absurd cc
queued_status expired h = absurd cc
queued_status cancelled h = absurd cc

pub end-Evolved :
    (status : TaskStatus) (code message : String) (now : Time) (t : TaskRow)
    → ((s : TaskStatus) → is_open s ≡ true → Moves s status)
    → is_open t.status ≡ true
    → Evolved t (end_task status code message now t)
unfolding end_task
end-Evolved status code message now t move opened =
    Evolved-open t _ refl refl opened (move t.status opened)

pub expire_tasks_of-Update :
    {S : String → Type 0} (connector : String) (now : Time) (ts : List TaskRow)
    → Update S ts (expire_tasks_of connector now ts)
unfolding expire_tasks_of end_task
expire_tasks_of-Update connector now ts =
    updated (is_overdue_of connector now) (expire_task now) (λ t. refl)
      (All-of_All _ ts (λ t met.
        end-Evolved expired "task_expired" "Official client task expired" now t (λ s h. expires h)
          (ground arith)))

pub requeue-Evolved : (t : TaskRow) → is_claimed t.status ≡ true → Evolved t (requeue t)
requeue-Evolved t h =
    let s = claimed_status t.status h in
    Evolved-open t (requeue t) refl refl (rw s refl) (subst (λ x. Moves x queued) (sym s) lapses)

pub ready_tasks-Change :
    {S : String → Type 0} (connector : String) (now : Time) (ts : List TaskRow)
    → Change S ts (ready_tasks connector now ts)
unfolding ready_tasks
ready_tasks-Change connector now ts = chained (one (expire_tasks_of-Update connector now ts)) (
    one (
      updated (is_lapsed_of connector now) requeue (λ t. refl)
        (All-of_All _ _ (λ t met. requeue-Evolved t (ground arith)))))

-- The connector is active.
abbrev pub IsServed : ClientDb → String → Type 0
IsServed db connector =
    (c : ConnectorRow) × Occurs c db.connectors
    × (c.id ≡ connector)
    × (is_active_connector c.status ≡ true)

insert_task-Update :
    (db : ClientDb) (input : TaskInput) (t : TaskRow) (ts : List TaskRow)
    → t.status ≡ queued
    → t.connector_id ≡ input.connector_id
    → Update (IsServed db) ts (insert_task db input t ts).1
unfolding insert_task
insert_task-Update db input t ts e same =
    elim (Option-cases (find_where (serves_input input) db.connectors)) [
      | inl no_connector ↦ rw (insert_task, no_connector) unchanged
      | inr (c, found) ↦
          elim (Bool-cases (not (is_checked t) || is_some (find_by task_id t.id ts))) [
            | inl violated ↦ rw (insert_task, found, violated) unchanged
            | inr admitted ↦
                elim (Bool-cases (eqb (count_where (is_open_of t.connector_id) ts) 0)) [
                  | inl alone ↦
                      rw (insert_task, found, admitted, alone)
                        (added t e
                          (let serves = find_where-met (serves_input input) db.connectors c found in
                            (
                              c,
                              find_where-Occurs (serves_input input) db.connectors c found,
                              (eq_iff c.id input.connector_id).0 (ground arith) ∙ sym same,
                              ground arith,
                            ))
                          (ground arith) (ground arith))
                  | inr busy ↦ rw (insert_task, found, admitted, busy) unchanged
                ]
          ]
    ]

pub new_task-queued :
    (input : TaskInput) (id : String) (expires_at now : Time)
    → (new_task input id expires_at now).status ≡ queued
unfolding new_task
new_task-queued input id expires_at now = refl

pub new_task-connector :
    (input : TaskInput) (id : String) (expires_at now : Time)
    → (new_task input id expires_at now).connector_id ≡ input.connector_id
unfolding new_task
new_task-connector input id expires_at now = refl

pub create-Change :
    (db : ClientDb) (input : TaskInput) (id : String) (wall now : Time)
    → Change (IsServed db) db.tasks (create_ai_client_task db input id wall now).1.tasks
unfolding create_ai_client_task
create-Change db input id wall now = elim (Bool-cases (trim_space input.payload_key == "")) [
  | inl blank ↦ rw (create_ai_client_task, blank) (one unchanged)
  | inr given ↦
      rw (create_ai_client_task, given)
        (chained (one (expire_tasks_of-Update input.connector_id now db.tasks)) (
          one (
            insert_task-Update db input _ _
              (new_task-queued input id
                (if is_zero input.expires_at then wall + 3 * minute else input.expires_at) now)
              (new_task-connector input id
                (if is_zero input.expires_at then wall + 3 * minute else input.expires_at) now))))
]

-- The oldest row is one of the list and meets the condition.
pub oldest-Occurs :
    (p : TaskRow → Bool) (ts : List TaskRow) (t : TaskRow)
    → oldest p ts ≡ some t
    → Occurs t ts × (p t ≡ true)
unfolding oldest
oldest-Occurs p [] t e = absurd cc
oldest-Occurs p (u ∷ ts) t e = elim (Bool-cases (p u)) [
  | inr unmet ↦ (let (m, h) = oldest-Occurs p ts t (ground arith) in (inr m, h))
  | inl met ↦ elim (Option-cases (oldest p ts)) [
    | inl last ↦ (let same : t ≡ u = ground arith in (inl same, rw same met))
    | inr (v, found) ↦ elim (Bool-cases (leb u.created_at v.created_at)) [
      | inl older ↦ (let same : t ≡ u = ground arith in (inl same, rw same met))
      | inr younger ↦
          (let same : t ≡ v = ground arith in
            let (m, h) = oldest-Occurs p ts v found in
            (inr (subst (λ x. Occurs x ts) (sym same) m), rw same h))
    ]
  ]
]

pub take_lease-Evolved :
    (lease_hash : String) (until now : Time) (t : TaskRow)
    → is_queued t.status ≡ true
    → Evolved t (take_lease lease_hash until now t)
take_lease-Evolved lease_hash until now t h =
    let s = queued_status t.status h in
    Evolved-open t (take_lease lease_hash until now t) refl refl (rw s refl)
      (subst (λ x. Moves x claimed) (sym s) claims)

-- A change of the only row with an id.
pub only-Evolved :
    (f : TaskRow → TaskRow) (t : TaskRow) (ts : List TaskRow)
    → Evolved t (f t)
    → All (λ b. has_key task_id t.id b ≡ true → b ≡ t) ts
    → All (λ b. has_key task_id t.id b ≡ true → Evolved b (f b)) ts
only-Evolved f t [] h only = tt
only-Evolved f t (b ∷ ts) h (same, only) =
    ((λ met. subst (λ c. Evolved c (f c)) (sym (same met)) h), only-Evolved f t ts h only)

pub claim-Change :
    {S : String → Type 0} (hash : String → String) (db : ClientDb) (connector : String)
    (lease : Duration) (token : String) (wall now : Time)
    → Unique task_id db.tasks
    → Change S db.tasks (claim_ai_client_task hash db connector lease token wall now).1.tasks
unfolding claim_ai_client_task
claim-Change {S} hash db connector lease token wall now u =
    let ready = ready_tasks connector now db.tasks in
    let c : Change S db.tasks ready = ready_tasks-Change connector now db.tasks in
    elim (Option-cases (oldest (is_waiting_for connector now) ready)) [
      | inl idle ↦ rw (claim_ai_client_task, idle) c
      | inr (t, found) ↦
          (let (m, waits) = oldest-Occurs (is_waiting_for connector now) ready t found in
            let u' = Change-Unique c u in
            let f = take_lease (hash token) (wall + lease_length lease) now in
            rw (claim_ai_client_task, found)
              (chained c (
                one (
                  updated (has_key task_id t.id) f (λ b. refl)
                    (only-Evolved f t ready
                      (take_lease-Evolved (hash token) (wall + lease_length lease) now t
                        (ground arith))
                      (Unique-found task_id ready t.id t u'
                        (Unique-Occurs task_id ready t u' m)))))))
    ]

pub complete_task-Evolved :
    (hash : String → String) (ok : Bool) (result_key code message : String) (now : Time)
    (t : TaskRow)
    → is_claimed t.status ≡ true
    → Evolved t (complete_task hash ok result_key code message now t)
unfolding complete_task
complete_task-Evolved hash ok result_key code message now t h =
    let s = claimed_status t.status h in Evolved-open t _ refl refl (rw s refl) (finish ok)
  where
    finish : (ok : Bool) → Moves t.status (if ok then completed else failed)
    finish true = subst (λ x. Moves x completed) (sym (claimed_status t.status h)) completes
    finish false = subst (λ x. Moves x failed) (sym (claimed_status t.status h)) fails

pub complete-Update :
    {S : String → Type 0} (hash : String → String) (db : ClientDb) (connector task token : String)
    (ok : Bool) (result_key code message : String) (now : Time)
    → Update S db.tasks
        (complete_ai_client_task hash db connector task token ok result_key code message
          now).1.tasks
unfolding complete_ai_client_task
complete-Update hash db connector task token ok result_key code message now =
    updated (holds_lease hash connector task token now)
      (complete_task hash ok result_key code message now) (λ t. unfold complete_task in refl)
      (All-of_All _ db.tasks (λ t met.
        complete_task-Evolved hash ok result_key code message now t
          (unfold holds_lease in ground arith)))

pub cancel_task-Evolved :
    (reason : String) (now : Time) (t : TaskRow) → Evolved t (cancel_task reason now t)
unfolding cancel_task
cancel_task-Evolved reason now t = elim (Bool-cases (is_open t.status)) [
  | inl opened ↦ rw (cancel_task, opened) (Evolved-open t _ refl refl opened (cancels opened))
  | inr closed ↦
      rw (cancel_task, closed)
        (record {
          same_id = refl;
          same_connector = refl;
          moved = rests;
          kept = λ _. record {
            status = refl;
            result_key = refl;
            error_code = refl;
            error_message = refl;
          };
        })
]

pub cancel-Update :
    {S : String → Type 0} (db : ClientDb) (owner org task reason : String) (now : Time)
    → Update S db.tasks (cancel_ai_client_task db owner org task reason now).tasks
unfolding cancel_ai_client_task
cancel-Update db owner org task reason now =
    updated _ (cancel_task reason now) (λ t. unfold cancel_task in refl)
      (All-of_All _ db.tasks (λ t met. cancel_task-Evolved reason now t))
