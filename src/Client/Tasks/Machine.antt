-- ===== src/Client/Tasks/Machine.antt =====
-- The life of a task as a state machine, and what the operations do to a list of tasks in its terms.
use tok_hub.Prelude.{
  ◌≤◌, String, ◌≡◌, refl, inl, inr, eq_iff, ◌∙◌, ap, subst, Bool, true, false, none, List, [], ◌∷◌,
  ◌++◌, ◌==◌, arith, All, Bool-cases, update_where, count_where, find_by, Unique, update-Unique,
  append-Unique, count_where-update_le, count_where-append,
}
use tok_hub.Client.{
  TaskStatus, queued, claimed, completed, failed, expired, cancelled, TaskRow, is_open,
}
use tok_hub.Client.Tasks.{task_id, is_open_of}

-- A queued task is claimed, a claimed one lapses into the queue or ends with a result, and an open
-- one expires or is cancelled.
pub data Moves : TaskStatus → TaskStatus → Type 0 where
  claims : Moves queued claimed
  lapses : Moves claimed queued
  completes : Moves claimed completed
  fails : Moves claimed failed
  expires : {s : TaskStatus} → is_open s ≡ true → Moves s expired
  cancels : {s : TaskStatus} → is_open s ≡ true → Moves s cancelled

-- What one operation makes of a status: it stays, or makes one move.
pub data Moved : TaskStatus → TaskStatus → Type 0 where
  rests : {s : TaskStatus} → Moved s s
  moves : {s t : TaskStatus} → Moves s t → Moved s t

-- A finished task and what became of it.
pub record Kept (t t' : TaskRow) : Type 0 where
  pub status : t'.status ≡ t.status
  pub result_key : t'.result_key ≡ t.result_key
  pub error_code : t'.error_code ≡ t.error_code
  pub error_message : t'.error_message ≡ t.error_message

-- A task and what one update makes of it.
pub record Evolved (t t' : TaskRow) : Type 0 where
  pub same_id : t'.id ≡ t.id
  pub same_connector : t'.connector_id ≡ t.connector_id
  pub moved : Moved t.status t'.status
  pub kept : is_open t.status ≡ false → Kept t t'

-- A task and what became of it after any updates.
pub record Endured (t t' : TaskRow) : Type 0 where
  pub same_id : t'.id ≡ t.id
  pub same_connector : t'.connector_id ≡ t.connector_id
  pub kept : is_open t.status ≡ false → Kept t t'

Endured-refl : (t : TaskRow) → Endured t t
Endured-refl t = record {
  same_id = refl;
  same_connector = refl;
  kept = λ _. record { status = refl; result_key = refl; error_code = refl; error_message = refl };
}

Evolved-Endured : (t t' : TaskRow) → Evolved t t' → Endured t t'
Evolved-Endured t t' h = record {
  same_id = h.same_id;
  same_connector = h.same_connector;
  kept = h.kept;
}

Endured-trans : (t u v : TaskRow) → Endured t u → Endured u v → Endured t v
Endured-trans t u v h k = record {
  same_id = k.same_id ∙ h.same_id;
  same_connector = k.same_connector ∙ h.same_connector;
  kept = λ closed.
      (let a = h.kept closed in
        let b = k.kept (ap is_open a.status ∙ closed) in
        record {
          status = b.status ∙ a.status;
          result_key = b.result_key ∙ a.result_key;
          error_code = b.error_code ∙ a.error_code;
          error_message = b.error_message ∙ a.error_message;
        });
}

-- One move of an open task.
pub Evolved-open :
    (t t' : TaskRow)
    → t'.id ≡ t.id
    → t'.connector_id ≡ t.connector_id
    → is_open t.status ≡ true
    → Moves t.status t'.status
    → Evolved t t'
Evolved-open t t' id connector opened m = record {
  same_id = id;
  same_connector = connector;
  moved = moves m;
  kept = λ closed. absurd cc;
}

-- The tasks endure one by one, and others may join them.
pub Evolve : List TaskRow → List TaskRow → Type 0
Evolve [] ts' = Unit
Evolve (t ∷ ts) [] = ⊥
Evolve (t ∷ ts) (t' ∷ ts') = Endured t t' × Evolve ts ts'

Evolve-refl : (ts : List TaskRow) → Evolve ts ts
unfolding Evolve
Evolve-refl [] = tt
Evolve-refl (t ∷ ts) = (Endured-refl t, Evolve-refl ts)

Evolve-trans : (ts us vs : List TaskRow) → Evolve ts us → Evolve us vs → Evolve ts vs
unfolding Evolve
Evolve-trans [] us vs h k = tt
Evolve-trans (t ∷ ts) [] vs h k = absurd h
Evolve-trans (t ∷ ts) (u ∷ us) [] h k = absurd k
Evolve-trans (t ∷ ts) (u ∷ us) (v ∷ vs) (h, hs) (k, ks) =
    (Endured-trans t u v h k, Evolve-trans ts us vs hs ks)

-- What a statement does to the tasks: it adds one only to a connector that is served.
pub data Update (Serves : String → Type 0) : List TaskRow → List TaskRow → Type 0 where
  unchanged : {ts : List TaskRow} → Update Serves ts ts
  updated :
      {ts : List TaskRow} (p : TaskRow → Bool) (f : TaskRow → TaskRow)
      → ((t : TaskRow) → (f t).id ≡ t.id)
      → All (λ t. p t ≡ true → Evolved t (f t)) ts
      → Update Serves ts (update_where p f ts)
  added :
      {ts : List TaskRow} (t : TaskRow)
      → t.status ≡ queued
      → Serves t.connector_id
      → find_by task_id t.id ts ≡ none
      → count_where (is_open_of t.connector_id) ts ≡ 0
      → Update Serves ts (ts ++ t ∷ [])

-- What an operation does to them, one statement after another.
pub data Change (Serves : String → Type 0) : List TaskRow → List TaskRow → Type 0 where
  one : {ts us : List TaskRow} → Update Serves ts us → Change Serves ts us
  chained :
      {ts us vs : List TaskRow} → Change Serves ts us → Change Serves us vs → Change Serves ts vs

update-Evolve :
    (p : TaskRow → Bool) (f : TaskRow → TaskRow) (ts : List TaskRow)
    → All (λ t. p t ≡ true → Evolved t (f t)) ts
    → Evolve ts (update_where p f ts)
unfolding Evolve update_where
update-Evolve p f [] h = tt
update-Evolve p f (t ∷ ts) (h, hs) = elim (Bool-cases (p t)) [
  | inl met ↦ rw met (Evolved-Endured t (f t) (h met), update-Evolve p f ts hs)
  | inr unmet ↦ rw unmet (Endured-refl t, update-Evolve p f ts hs)
]

append-Evolve : (ts : List TaskRow) (t : TaskRow) → Evolve ts (ts ++ t ∷ [])
unfolding Evolve
append-Evolve [] t = tt
append-Evolve (u ∷ ts) t = (Endured-refl u, append-Evolve ts t)

-- A weaker condition on the connectors that are served.
pub widen :
    {S T : String → Type 0} {ts us : List TaskRow}
    → ((connector : String) → S connector → T connector)
    → Change S ts us
    → Change T ts us
widen w (one unchanged) = one unchanged
widen w (one (updated p f keeps h)) = one (updated p f keeps h)
widen w (one (added t e serves fresh alone)) = one (added t e (w t.connector_id serves) fresh alone)
widen w (chained c d) = chained (widen w c) (widen w d)

pub Change-Evolve : {S : String → Type 0} {ts us : List TaskRow} → Change S ts us → Evolve ts us
Change-Evolve {ts} (one unchanged) = Evolve-refl ts
Change-Evolve {ts} (one (updated p f keeps h)) = update-Evolve p f ts h
Change-Evolve {ts} (one (added t e serves fresh alone)) = append-Evolve ts t
Change-Evolve (chained c d) = Evolve-trans _ _ _ (Change-Evolve c) (Change-Evolve d)

pub Change-Unique :
    {S : String → Type 0} {ts us : List TaskRow}
    → Change S ts us
    → Unique task_id ts
    → Unique task_id us
Change-Unique (one unchanged) u = u
Change-Unique {ts} (one (updated p f keeps h)) u = update-Unique task_id p f ts keeps u
Change-Unique {ts} (one (added t e serves fresh alone)) u = append-Unique task_id ts t u fresh
Change-Unique (chained c d) u = Change-Unique d (Change-Unique c u)

-- No connector has two open tasks.
unfoldable pub IsSingle : List TaskRow → Type 0
IsSingle ts = (connector : String) → count_where (is_open_of connector) ts ≤ 1

-- An open task was open before.
was_open :
    (connector : String) (t t' : TaskRow)
    → Evolved t t'
    → is_open_of connector t' ≡ true
    → is_open_of connector t ≡ true
was_open connector t t' h e =
    let same = h.same_connector in
    elim (Bool-cases (is_open t.status)) [
      | inl opened ↦ ground (arith, same)
      | inr closed ↦ (let k = (h.kept closed).status in absurd (ground (arith, k)))
    ]

were_open :
    (connector : String) (p : TaskRow → Bool) (f : TaskRow → TaskRow) (ts : List TaskRow)
    → All (λ t. p t ≡ true → Evolved t (f t)) ts
    → All (λ t. p t ≡ true → is_open_of connector (f t) ≡ true → is_open_of connector t ≡ true) ts
were_open connector p f [] h = tt
were_open connector p f (t ∷ ts) (h, hs) =
    ((λ met opened. was_open connector t (f t) (h met) opened), were_open connector p f ts hs)

count_one : (connector : String) (t : TaskRow) → count_where (is_open_of connector) (t ∷ []) ≤ 1
unfolding count_where
count_one connector t = elim (Bool-cases (is_open_of connector t)) [
  | inl met ↦ rw met (omega arith)
  | inr unmet ↦ rw unmet (omega arith)
]

count_other :
    (connector : String) (t : TaskRow)
    → (t.connector_id == connector) ≡ false
    → count_where (is_open_of connector) (t ∷ []) ≡ 0
unfolding count_where
count_other connector t h = rw h refl

pub Change-IsSingle :
    {S : String → Type 0} {ts us : List TaskRow} → Change S ts us → IsSingle ts → IsSingle us
unfolding IsSingle
Change-IsSingle (one unchanged) s connector = s connector
Change-IsSingle {ts} (one (updated p f keeps h)) s connector = omega (
  arith,
  s connector,
  count_where-update_le (is_open_of connector) p f ts (were_open connector p f ts h),
)
Change-IsSingle {ts} (one (added t e serves fresh alone)) s connector =
    let sum = count_where-append (is_open_of connector) ts (t ∷ []) in
    elim (Bool-cases (t.connector_id == connector)) [
      | inl met ↦
          (let none_open : count_where (is_open_of connector) ts ≡ 0 =
              subst (λ c. count_where (is_open_of c) ts ≡ 0)
                ((eq_iff t.connector_id connector).0 met) alone in
            omega (arith, sum, none_open, count_one connector t))
      | inr unmet ↦ omega (arith, sum, s connector, count_other connector t unmet)
    ]
Change-IsSingle (chained c d) s connector = Change-IsSingle d (Change-IsSingle c s) connector

-- A connector without an open task that is not served is left without one.
pub Change-idle :
    {S : String → Type 0} {ts us : List TaskRow} (connector : String)
    → Change S ts us
    → ¬ S connector
    → count_where (is_open_of connector) ts ≡ 0
    → count_where (is_open_of connector) us ≡ 0
Change-idle connector (one unchanged) out idle = idle
Change-idle {S} {ts} connector (one (updated p f keeps h)) out idle = omega (
  arith,
  idle,
  count_where-update_le (is_open_of connector) p f ts (were_open connector p f ts h),
)
Change-idle {S} {ts} connector (one (added t e serves fresh alone)) out idle =
    let sum = count_where-append (is_open_of connector) ts (t ∷ []) in
    elim (Bool-cases (t.connector_id == connector)) [
      | inl met ↦ absurd (out (subst S ((eq_iff t.connector_id connector).0 met) serves))
      | inr unmet ↦ omega (arith, sum, idle, count_other connector t unmet)
    ]
Change-idle connector (chained c d) out idle =
    Change-idle connector d out (Change-idle connector c out idle)
