-- ===== src/Risk/Stored.antt =====
-- The transactions of Risk/Table agree with the sequences of Risk/Trace: what a method changes is
-- stored, for the connection of the call and for no other.
use tok_hub.Prelude.{String, ◌≡◌, refl, ◌≢◌, sym, ap, ◌∙◌, Bool, some, List, [], ◌∷◌, arith, eq_iff}
use tok_hub.Prelude.Text.{to_lower, trim_space}
use tok_hub.Clock.{Time, Duration}
use tok_hub.Risk.{AiClientRisk, RiskDecision, apply_limits, normalize, decide, reserve}
use tok_hub.Risk.Outcome.{
  ErrorClass, rate_limited, classify, failed, fail_with, succeed, record_result, set_paused,
  confirm_identity,
}
use tok_hub.Risk.Table.{
  RiskRow, Database, select_risk, write_columns, update_risk, now_or_clock,
  reserve_ai_client_request, record_ai_client_result,
}
use tok_hub.Risk.Trace.{Event, reserve_request, result, set_pause, confirm, step}

-- The columns that are not written are the same.
record SameIdentity (s t : AiClientRisk) : Type 0 where
  connection_id : t.connection_id ≡ s.connection_id
  provider : t.provider ≡ s.provider
  minimum_interval_seconds : t.minimum_interval_seconds ≡ s.minimum_interval_seconds
  hourly_limit : t.hourly_limit ≡ s.hourly_limit
  daily_limit : t.daily_limit ≡ s.daily_limit
  account_subject : t.account_subject ≡ s.account_subject

normalize_same : (s : AiClientRisk) (now : Time) → SameIdentity s (normalize s now)
unfolding normalize
normalize_same s now = ground arith

decide_same : (s : AiClientRisk) (now : Time) → SameIdentity s (decide s now).risk
unfolding decide
decide_same s now = ground arith

fail_with_same :
    (c : ErrorClass) (s : AiClientRisk) (retry_after : Duration) (now : Time)
    → SameIdentity s (fail_with c s retry_after now)
unfolding fail_with
fail_with_same rate_limited s retry_after now = ground arith
fail_with_same _ s retry_after now = ground arith

step_same : (s : AiClientRisk) (e : Event) → SameIdentity s (step s e)
unfolding step
step_same s (reserve_request now) =
    unfold reserve in ground (arith, normalize_same s now, decide_same (normalize s now) now)
step_same s (result ok code retry_after now) =
    unfold record_result succeed in
    ground (
      arith,
      normalize_same s now,
      fail_with_same (classify (to_lower (trim_space code)))
          (failed (normalize s now) (to_lower (trim_space code)) now) retry_after now,
    )
step_same s (set_pause to now) = unfold set_paused in ground arith
step_same s (confirm subject assurance now) =
    unfold confirm_identity in ground (arith, normalize_same s now)

-- Whatever an operation changes is in a column that is written.
write_columns-step : (s : AiClientRisk) (e : Event) → write_columns s (step s e) ≡ step s e
unfolding write_columns
write_columns-step s e = ground (arith, step_same s e)

-- The new row, of which the updated table holds the written columns.
abbrev rewritten : RiskRow → AiClientRisk → RiskRow
rewritten row t = record row { risk = write_columns row.risk t }

select-connection :
    (owner org connection : String) (rows : List RiskRow) (row : RiskRow)
    → select_risk owner org connection rows ≡ some row
    → row.risk.connection_id ≡ connection
unfolding select_risk
select-connection owner org connection [] row h = cc
select-connection owner org connection (r ∷ rows) row h =
    ground (
      arith,
      eq_iff r.risk.connection_id connection,
      select-connection owner org connection rows row,
    )

-- The selected row reads the written columns.
select-update_self :
    (owner org connection : String) (rows : List RiskRow) (row : RiskRow) (t : AiClientRisk)
    → t.connection_id ≡ connection
    → select_risk owner org connection rows ≡ some row
    → select_risk owner org connection (update_risk t rows) ≡ some (rewritten row t)
unfolding select_risk update_risk write_columns
select-update_self owner org connection [] row t e h = cc
select-update_self owner org connection (r ∷ rows) row t e h = ground (
  arith,
  eq_iff r.risk.connection_id connection,
  eq_iff r.risk.connection_id t.connection_id,
  select-update_self owner org connection rows row t e,
)

-- A row of another connection is read as before.
select-update_ne :
    (owner org connection : String) (rows : List RiskRow) (t : AiClientRisk)
    → t.connection_id ≢ connection
    → select_risk owner org connection (update_risk t rows) ≡ select_risk owner org connection rows
unfolding select_risk update_risk write_columns
select-update_ne owner org connection [] t ne = refl
select-update_ne owner org connection (r ∷ rows) t ne = ground (
  arith,
  eq_iff r.risk.connection_id connection,
  eq_iff r.risk.connection_id t.connection_id,
  select-update_ne owner org connection rows t ne,
)

-- What an event leaves behind in a database: the row of the connection is the successor, and every
-- other connection reads as before.
pub record Stores (db db' : Database) (owner org connection : String) (row : RiskRow) (e : Event)
    : Type 0 where
  pub selected : select_risk owner org connection db.risks ≡ some row
  pub stored :
      select_risk owner org connection db'.risks ≡ some (record row { risk = step row.risk e })
  pub others :
      (owner' org' connection' : String)
      → connection ≢ connection'
      → select_risk owner' org' connection' db'.risks ≡ select_risk owner' org' connection' db.risks
  pub connections : db'.connections ≡ db.connections

stores :
    (db : Database) (owner org connection : String) (row : RiskRow) (e : Event)
    → select_risk owner org connection db.risks ≡ some row
    → Stores db
        (record db { risks = update_risk (step row.risk e) db.risks })
        owner
        org
        connection
        row
        e
stores db owner org connection row e h =
    let t = step row.risk e in
    let same : t.connection_id ≡ connection =
      (step_same row.risk e).connection_id
      ∙ select-connection owner org connection db.risks row h in
    record {
      selected = h;
      stored =
          select-update_self owner org connection db.risks row t same h
          ∙ ap (λ u. some (record row { risk = u })) (write_columns-step row.risk e);
      others = λ owner' org' connection' ne.
          select-update_ne owner' org' connection' db.risks t (λ eq. ne (sym same ∙ eq));
      connections = refl;
    }

module _ (db : Database) (owner org connection : String) (row : RiskRow) (now wall : Time)
    (found : select_risk owner org connection db.risks ≡ some row) where
  -- Where the caller has a row of the connection, ReserveAIClientRequest returns: it stores the row
  -- that the reservation at the time of the call leads to, it changes no row of another connection
  -- and no row of ai_connections, and its decision is the one of the reservation, reason and retry
  -- time included, with that row under the fixed limits.
  pub reserve-Stores :
      (d : RiskDecision) × (db' : Database) × (reserve_ai_client_request db owner org connection now
          wall
        ≡ some (d, db'))
      × Stores db db' owner org connection row (reserve_request (now_or_clock now wall))
      × (d ≡ record (reserve row.risk (now_or_clock now wall)) {
        risk = apply_limits (step row.risk (reserve_request (now_or_clock now wall)));
      })
  unfolding reserve_ai_client_request
  reserve-Stores =
      let d = reserve row.risk (now_or_clock now wall) in
      (
        record d { risk = apply_limits d.risk },
        record db { risks = update_risk d.risk db.risks },
        rw (found, reserve_ai_client_request),
        unfold step in
            stores db owner org connection row (reserve_request (now_or_clock now wall)) found,
        unfold step in refl,
      )

  -- Where the caller has a row of the connection, RecordAIClientResult returns: it stores the row
  -- that the result leads to, and changes no row of another connection and no row of
  -- ai_connections.
  pub result-Stores :
      (ok : Bool) (error_code : String) (retry_after : Duration)
      → (s : AiClientRisk) × (db' : Database) × (record_ai_client_result db owner org connection ok
            error_code retry_after now wall
          ≡ some (s, db'))
        × Stores db db' owner org connection row
            (result ok error_code retry_after (now_or_clock now wall))
        × (s
            ≡ apply_limits
                (step row.risk (result ok error_code retry_after (now_or_clock now wall))))
  unfolding record_ai_client_result
  result-Stores ok error_code retry_after =
      let s = record_result row.risk ok error_code retry_after (now_or_clock now wall) in
      (
        apply_limits s,
        record db { risks = update_risk s db.risks },
        rw (found, record_ai_client_result),
        unfold step in
            stores db owner org connection row
              (result ok error_code retry_after (now_or_clock now wall)) found,
        unfold step in refl,
      )
