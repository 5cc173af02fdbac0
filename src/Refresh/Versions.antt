-- ===== src/Refresh/Versions.antt =====
-- Refreshes that read the same version of a secret.
use tok_hub.Prelude.{
  ℕ, ◌<◌, String, ◌≡◌, refl, subst, inl, inr, eq_iff, Bool, true, false, some, List, ◌==◌, arith,
  eqb, count_where, find_where, find_by, has_key, Unique, Unique-Occurs, find_where-met,
  find_where-Occurs, count_where-found, count_where-none, [], ◌∷◌, update-Holds, All, Revision,
  unrevised, changed, Holds, Revision-Holds, Bool-cases, Option-cases,
}
use tok_hub.Clock.{Time}
use tok_hub.Refresh.{
  SecretRow, RefreshDb, RefreshedSecret, RefreshError, is_version_of, is_live_connection,
  store_refreshed, update_oauth_connection_secret, count_failure, mark_oauth_refresh_failure,
  record_failure,
}

abbrev pub secret_id : SecretRow → String
secret_id s = s.connection_id

-- The operations of the refreshes, of any connections.
pub data Step (db : RefreshDb) : RefreshDb → Type 0 where
  refreshes :
      (id : String) (version : ℕ) (secret : RefreshedSecret) (now : Time)
      → Step db (update_oauth_connection_secret db id version secret now).1
  fails :
      (id : String) (version failures : ℕ) (error : RefreshError) (now : Time)
      → Step db (record_failure db id version failures error now).1

pub data Reach (db : RefreshDb) : RefreshDb → Type 0 where
  here : Reach db db
  next : {db' db'' : RefreshDb} → Reach db db' → Step db' db'' → Reach db db''

abbrev IsPast : ℕ → SecretRow → Type 0
IsPast version s = version < s.version

update-Revision :
    (v : ℕ) (db : RefreshDb) (id : String) (version : ℕ) (secret : RefreshedSecret) (now : Time)
    → Revision secret_id
        (IsPast v)
        db.secrets
        (update_oauth_connection_secret db id version secret now).1.secrets
unfolding update_oauth_connection_secret
update-Revision v db id version secret now =
    elim (Bool-cases (eqb (count_where (is_version_of id version) db.secrets) 1)) [
      | inr conflict ↦ rw (update_oauth_connection_secret, conflict) unrevised
      | inl one ↦
          rw (update_oauth_connection_secret, one)
            (changed (is_version_of id version) (store_refreshed secret now)
              (λ s. unfold store_refreshed in refl)
              (λ s met h. unfold store_refreshed in omega (arith, h)))
    ]

mark-Revision :
    (v : ℕ) (db : RefreshDb) (id : String) (version : ℕ) (reauth : Bool) (code : String)
    (later : Time)
    → Revision secret_id
        (IsPast v)
        db.secrets
        (mark_oauth_refresh_failure db id version reauth code later).1.secrets
unfolding mark_oauth_refresh_failure
mark-Revision v db id version reauth code later =
    elim (Option-cases (find_where (is_live_connection id) db.connections)) [
      | inl gone ↦ rw (mark_oauth_refresh_failure, gone) unrevised
      | inr (c, found) ↦
          elim (Bool-cases (eqb (count_where (is_version_of id version) db.secrets) 1)) [
            | inr conflict ↦ rw (mark_oauth_refresh_failure, found, conflict) unrevised
            | inl one ↦
                rw (mark_oauth_refresh_failure, found, one)
                  (changed (is_version_of id version) (count_failure reauth code later)
                    (λ s. unfold count_failure in refl) (λ s met h. unfold count_failure in h))
          ]
    ]

Step-Revision :
    (v : ℕ) (db db' : RefreshDb)
    → Step db db'
    → Revision secret_id (IsPast v) db.secrets db'.secrets
unfolding record_failure
Step-Revision v db _ (refreshes id version secret now) = update-Revision v db id version secret now
Step-Revision v db _ (fails id version failures error now) = mark-Revision v db id version _ _ _

Reach-Holds :
    (v : ℕ) (id : String) {db db' : RefreshDb}
    → Holds secret_id (IsPast v) id db.secrets
    → Reach db db'
    → Holds secret_id (IsPast v) id db'.secrets
Reach-Holds v id h here = h
Reach-Holds v id h (next r st) =
    Revision-Holds secret_id (IsPast v) id (Step-Revision v _ _ st) (Reach-Holds v id h r)

other_version :
    (id : String) (version : ℕ) (rows : List SecretRow)
    → All (λ s. has_key secret_id id s ≡ true → IsPast version s) rows
    → All (λ s. is_version_of id version s ≡ false) rows
other_version id version [] h = tt
other_version id version (s ∷ rows) (h, hs) = (
  elim (Bool-cases (s.connection_id == id)) [
    | inr other ↦ rw other refl
    | inl same ↦
        (let past = h same in
          let apart : eqb s.version version ≡ false = ground arith in rw (same, apart) refl)
  ],
  other_version id version rows hs,
)

stored-Holds :
    (db : RefreshDb) (id : String) (version : ℕ) (secret : RefreshedSecret) (now : Time)
    → Unique secret_id db.secrets
    → (update_oauth_connection_secret db id version secret now).0 ≡ true
    → Holds secret_id
        (IsPast version)
        id
        (update_oauth_connection_secret db id version secret now).1.secrets
unfolding update_oauth_connection_secret
stored-Holds db id version secret now u e =
    let p = is_version_of id version in
    elim (Bool-cases (eqb (count_where p db.secrets) 1)) [
      | inr conflict ↦ absurd (ground arith)
      | inl one ↦
          (let (s, found) = count_where-found p db.secrets (ground arith) in
            let met = find_where-met p db.secrets s found in
            let same : s.connection_id ≡ id = (eq_iff s.connection_id id).0 (ground arith) in
            let at_version : s.version ≡ version = ground arith in
            let there : find_by secret_id id db.secrets ≡ some s =
              subst (λ k. find_by secret_id k db.secrets ≡ some s) same
                (Unique-Occurs secret_id db.secrets s u (find_where-Occurs p db.secrets s found)) in
            rw (update_oauth_connection_secret, one)
              (update-Holds secret_id (IsPast version) p (store_refreshed secret now) id s
                db.secrets u there met (unfold store_refreshed in omega (arith, at_version))
                (λ b. unfold store_refreshed in refl)))
    ]

-- Where each connection has one secret, after a refresh has stored its secret, whatever refreshes and
-- failures come, a refresh that read the same version stores nothing.
pub second_refresh_conflicts :
    (db db' : RefreshDb) (id : String) (version : ℕ) (secret secret' : RefreshedSecret)
    (now now' : Time)
    → Unique secret_id db.secrets
    → (update_oauth_connection_secret db id version secret now).0 ≡ true
    → Reach (update_oauth_connection_secret db id version secret now).1 db'
    → update_oauth_connection_secret db' id version secret' now' ≡ (false, db')
unfolding update_oauth_connection_secret
second_refresh_conflicts db db' id version secret secret' now now' u e r =
    let h = Reach-Holds version id (stored-Holds db id version secret now u e) r in
    let no_row =
      count_where-none (is_version_of id version) db'.secrets
        (other_version id version db'.secrets h.holds) in
    rw (update_oauth_connection_secret, no_row) refl
