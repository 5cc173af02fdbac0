-- ===== src/Client/Tasks/Moves.antt =====
-- What a single operation does to the tasks: each status stays or makes one move of the state machine.
use tok_hub.Prelude.{
  ◌+◌, ◌*◌, String, ◌≡◌, refl, ◌∙◌, inl, inr, sym, subst, Bool, true, false, List, [], ◌∷◌, ◌++◌,
  ◌⊎◌, ◌==◌, arith, All, Bool-cases, Option-cases, update_where, has_key, Unique, Unique-Occurs,
  Unique-found, if◌then◌else◌,
}
use tok_hub.Prelude.Text.{trim_space}
use tok_hub.Clock.{Time, Duration, minute, is_zero}
use tok_hub.Client.{queued, claimed, TaskRow, ClientDb, is_queued}
use tok_hub.Client.Tasks.{
  task_id, end_task, expire_task, is_overdue_of, expire_tasks_of, TaskInput, insert_task,
  create_ai_client_task, is_lapsed_of, requeue, is_waiting_for, oldest, take_lease, lease_length,
  ready_tasks, claim_ai_client_task,
}
use tok_hub.Client.Tasks.Machine.{
  claims, lapses, expires, Moved, rests, moves, Evolved, Update, unchanged, updated, added, Change,
  Change-Unique,
}
use tok_hub.Client.Tasks.Changes.{
  claimed_status, queued_status, expire_tasks_of-Update, ready_tasks-Change, new_task-queued,
  oldest-Occurs,
}

-- A task and what one operation makes of it.
abbrev pub Follows : TaskRow → TaskRow → Type 0
Follows t u = (u.id ≡ t.id) × Moved t.status u.status

-- The tasks stay or move one by one, and those that join them are queued.
pub Follow : List TaskRow → List TaskRow → Type 0
Follow [] us = All (λ u. u.status ≡ queued) us
Follow (t ∷ ts) [] = ⊥
Follow (t ∷ ts) (u ∷ us) = Follows t u × Follow ts us

Follow-refl : (ts : List TaskRow) → Follow ts ts
unfolding Follow
Follow-refl [] = tt
Follow-refl (t ∷ ts) = ((refl, rests), Follow-refl ts)

Follow-append :
    (ts us : List TaskRow) (u : TaskRow)
    → Follow ts us
    → u.status ≡ queued
    → Follow ts (us ++ u ∷ [])
unfolding Follow
Follow-append [] [] u h e = (e, tt)
Follow-append [] (v ∷ us) u (h, hs) e = (h, Follow-append [] us u hs e)
Follow-append (t ∷ ts) [] u h e = absurd h
Follow-append (t ∷ ts) (v ∷ us) u (h, hs) e = (h, Follow-append ts us u hs e)

update-Follow :
    (p : TaskRow → Bool) (f : TaskRow → TaskRow) (ts : List TaskRow)
    → All (λ t. p t ≡ true → Evolved t (f t)) ts
    → Follow ts (update_where p f ts)
unfolding Follow update_where
update-Follow p f [] h = tt
update-Follow p f (t ∷ ts) (h, hs) = elim (Bool-cases (p t)) [
  | inl met ↦ rw met (((h met).same_id, (h met).moved), update-Follow p f ts hs)
  | inr unmet ↦ rw unmet ((refl, rests), update-Follow p f ts hs)
]

pub Update-Follow : {S : String → Type 0} {ts us : List TaskRow} → Update S ts us → Follow ts us
Update-Follow {ts} unchanged = Follow-refl ts
Update-Follow {ts} (updated p f keeps h) = update-Follow p f ts h
Update-Follow {ts} (added t e serves fresh alone) = Follow-append ts ts t (Follow-refl ts) e

-- The insert adds the task or leaves the tasks alone.
insert_cases :
    (db : ClientDb) (input : TaskInput) (t : TaskRow) (ts : List TaskRow)
    → ((insert_task db input t ts).1 ≡ ts) ⊎ ((insert_task db input t ts).1 ≡ ts ++ t ∷ [])
unfolding insert_task
insert_cases db input t ts = ground arith

insert-Follow :
    (db : ClientDb) (input : TaskInput) (t : TaskRow) (ts us : List TaskRow)
    → t.status ≡ queued
    → Follow ts us
    → Follow ts (insert_task db input t us).1
insert-Follow db input t ts us e h = elim (insert_cases db input t us) [
  | inl left ↦ subst (Follow ts) (sym left) h
  | inr joined ↦ subst (Follow ts) (sym joined) (Follow-append ts us t h e)
]

expire_tasks_of-Follow :
    (connector : String) (now : Time) (ts : List TaskRow)
    → Follow ts (expire_tasks_of connector now ts)
expire_tasks_of-Follow connector now ts =
    let u : Update (λ _. Unit) ts (expire_tasks_of connector now ts) =
      expire_tasks_of-Update connector now ts in
    Update-Follow u

pub create-Follow :
    (db : ClientDb) (input : TaskInput) (id : String) (wall now : Time)
    → Follow db.tasks (create_ai_client_task db input id wall now).1.tasks
unfolding create_ai_client_task
create-Follow db input id wall now = elim (Bool-cases (trim_space input.payload_key == "")) [
  | inl blank ↦ rw (create_ai_client_task, blank) (Follow-refl db.tasks)
  | inr given ↦
      rw (create_ai_client_task, given)
        (insert-Follow db input _ db.tasks _
          (new_task-queued input id
            (if is_zero input.expires_at then wall + 3 * minute else input.expires_at) now)
          (expire_tasks_of-Follow input.connector_id now db.tasks))
]

-- A row after an update.
abbrev row_after : (TaskRow → Bool) → (TaskRow → TaskRow) → TaskRow → TaskRow
row_after p f t = if p t then f t else t

-- What holds of the updated rows holds of each row after the update.
All-row_after :
    (P : TaskRow → Type 0) (p : TaskRow → Bool) (f : TaskRow → TaskRow) (ts : List TaskRow)
    → All P (update_where p f ts)
    → All (λ t. P (row_after p f t)) ts
unfolding update_where
All-row_after P p f [] h = tt
All-row_after P p f (t ∷ ts) (h, hs) = (h, All-row_after P p f ts hs)

-- The rows as the two updates in front of a claim leave them.
abbrev ready_row : String → Time → TaskRow → TaskRow
ready_row connector now t =
    row_after (is_lapsed_of connector now) requeue
      (row_after (is_overdue_of connector now) (expire_task now) t)

All-ready :
    (P : TaskRow → Type 0) (connector : String) (now : Time) (ts : List TaskRow)
    → All P (ready_tasks connector now ts)
    → All (λ t. P (ready_row connector now t)) ts
unfolding ready_tasks expire_tasks_of
All-ready P connector now ts h =
    All-row_after _ (is_overdue_of connector now) (expire_task now) ts
      (All-row_after P (is_lapsed_of connector now) requeue _ h)

-- Before a claim a task expires, falls back into the queue or stays.
ready-Moved :
    (connector : String) (now : Time) (t : TaskRow)
    → Moved t.status (ready_row connector now t).status
unfolding end_task
ready-Moved connector now t = elim (Bool-cases (is_overdue_of connector now t)) [
  | inl overdue ↦
      (let gone : is_lapsed_of connector now (expire_task now t) ≡ false = ground arith in
        rw (overdue, gone) (moves (expires (ground arith))))
  | inr current ↦ elim (Bool-cases (is_lapsed_of connector now t)) [
    | inl lapsed ↦
        (let s = claimed_status t.status (ground arith) in
          rw (current, lapsed) (subst (λ x. Moved x queued) (sym s) (moves lapses)))
    | inr kept ↦ rw (current, kept) rests
  ]
]

-- A claim takes a task that waits, whether it was queued before or has just lapsed.
claimed-Moved :
    (connector : String) (now : Time) (t : TaskRow)
    → is_queued (ready_row connector now t).status ≡ true
    → Moved t.status claimed
unfolding end_task
claimed-Moved connector now t waits = elim (Bool-cases (is_overdue_of connector now t)) [
  | inl overdue ↦ absurd (ground arith)
  | inr current ↦ elim (Bool-cases (is_lapsed_of connector now t)) [
    | inl lapsed ↦
        (let s = claimed_status t.status (ground arith) in
          subst (λ x. Moved x claimed) (sym s) rests)
    | inr kept ↦
        (let s = queued_status t.status (ground arith) in
          subst (λ x. Moved x claimed) (sym s) (moves claims))
  ]
]

ready_row_id :
    (connector : String) (now : Time) (t : TaskRow) → (ready_row connector now t).id ≡ t.id
unfolding end_task
ready_row_id connector now t = ground arith

ready-Follow :
    (connector : String) (now : Time) (ts : List TaskRow) → Follow ts (ready_tasks connector now ts)
unfolding Follow ready_tasks expire_tasks_of update_where
ready-Follow connector now [] = tt
ready-Follow connector now (t ∷ ts) =
    ((ready_row_id connector now t, ready-Moved connector now t), ready-Follow connector now ts)

-- A row of the claimed id is the claimed one, which is queued.
only_waits :
    (t : TaskRow) (ts : List TaskRow)
    → is_queued t.status ≡ true
    → All (λ b. has_key task_id t.id b ≡ true → b ≡ t) ts
    → All (λ b. has_key task_id t.id b ≡ true → is_queued b.status ≡ true) ts
only_waits t [] e h = tt
only_waits t (b ∷ ts) e (same, hs) =
    ((λ met. subst (λ c. is_queued c.status ≡ true) (sym (same met)) e), only_waits t ts e hs)

-- The rows of three updates, one by one.
claim-Follow_rows :
    (connector id : String) (f : TaskRow → TaskRow) (now : Time) (ts : List TaskRow)
    → ((t : TaskRow) → (f t).id ≡ t.id)
    → ((t : TaskRow) → (f t).status ≡ claimed)
    → All
        (λ t.
          has_key task_id id (ready_row connector now t) ≡ true
          → is_queued (ready_row connector now t).status ≡ true)
        ts
    → Follow ts (update_where (has_key task_id id) f (ready_tasks connector now ts))
unfolding Follow ready_tasks expire_tasks_of update_where
claim-Follow_rows connector id f now [] keeps takes h = tt
claim-Follow_rows connector id f now (t ∷ ts) keeps takes (h, hs) =
    let rest = claim-Follow_rows connector id f now ts keeps takes hs in
    let r = ready_row connector now t in
    let same : r.id ≡ t.id = ready_row_id connector now t in
    elim (Bool-cases (has_key task_id id r)) [
      | inl chosen ↦ rw chosen (
        (
          keeps r ∙ same,
          subst (λ s. Moved t.status s) (sym (takes r)) (claimed-Moved connector now t (h chosen)),
        ),
        rest,
      )
      | inr passed ↦ rw passed ((same, ready-Moved connector now t), rest)
    ]

pub claim-Follow :
    (hash : String → String) (db : ClientDb) (connector : String) (lease : Duration)
    (token : String) (wall now : Time)
    → Unique task_id db.tasks
    → Follow db.tasks (claim_ai_client_task hash db connector lease token wall now).1.tasks
unfolding claim_ai_client_task
claim-Follow hash db connector lease token wall now u =
    let ready = ready_tasks connector now db.tasks in
    let c : Change (λ _. Unit) db.tasks ready = ready_tasks-Change connector now db.tasks in
    elim (Option-cases (oldest (is_waiting_for connector now) ready)) [
      | inl idle ↦ rw (claim_ai_client_task, idle) (ready-Follow connector now db.tasks)
      | inr (t, found) ↦
          (let (m, waits) = oldest-Occurs (is_waiting_for connector now) ready t found in
            let u' = Change-Unique c u in
            let only = Unique-found task_id ready t.id t u' (Unique-Occurs task_id ready t u' m) in
            rw (claim_ai_client_task, found)
              (claim-Follow_rows connector t.id
                (take_lease (hash token) (wall + lease_length lease) now) now db.tasks (λ r. refl)
                (λ r. refl)
                (All-ready _ connector now db.tasks (only_waits t ready (ground arith) only))))
    ]
