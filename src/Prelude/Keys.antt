-- ===== src/Prelude/Keys.antt =====
-- Rows with a key: look-ups by it, and the key as a primary key.
use Prim.Native.String.{String}
use mathlib.Core.Path.{◌≡◌, refl, subst}
use mathlib.Core.Logic.{inl, inr}
use mathlib.Core.Bool.{Bool, true, false, ◌&&◌}
use mathlib.Core.Option.{Option, none, some}
use mathlib.Core.List.{List, [], ◌∷◌, ◌++◌}
use native.Mathlib.Omega.{arith}
use text.Mathlib.Text.{◌==◌}
use text.Mathlib.TextEquality.{eq_iff}
use text.Mathlib.TextPositions.{eq_refl}
use tok_hub.Prelude.Tests.{if◌then◌else◌, Bool-cases}
use tok_hub.Prelude.Lists.{All, Occurs}
use tok_hub.Prelude.Tables.{update_where, count_where, find_where}

module _ {ℓ} {A : Type ℓ} (key : A → String) where
  abbrev pub has_key : String → A → Bool
  has_key id a = key a == id

  abbrev pub find_by : String → List A → Option A
  find_by id = find_where (has_key id)

  updated_key :
      (p : A → Bool) (f : A → A) (a : A) → key (f a) ≡ key a → key (if p a then f a else a) ≡ key a
  updated_key p f a keeps = elim (Bool-cases (p a)) [
    | inl met ↦ rw met keeps
    | inr unmet ↦ rw unmet refl
  ]

  pub find_by-update :
      (p : A → Bool) (f : A → A) (rows : List A) (id : String) (a : A)
      → ((b : A) → key (f b) ≡ key b)
      → find_by id rows ≡ some a
      → find_by id (update_where p f rows) ≡ some (if p a then f a else a)
  unfolding find_where update_where
  find_by-update p f [] id a keeps e = absurd cc
  find_by-update p f (b ∷ rows) id a keeps e = elim (Bool-cases (has_key id b)) [
    | inl met ↦
        (let same : b ≡ a = ground arith in rw (updated_key p f b (keeps b), met) (rw same refl))
    | inr unmet ↦
        rw (updated_key p f b (keeps b), unmet) (find_by-update p f rows id a keeps (ground arith))
  ]

  pub find_by-append :
      (rows bs : List A) (id : String) (a : A)
      → find_by id rows ≡ some a
      → find_by id (rows ++ bs) ≡ some a
  unfolding find_where
  find_by-append [] bs id a e = absurd cc
  find_by-append (x ∷ rows) bs id a e = elim (Bool-cases (has_key id x)) [
    | inl met ↦ (let same : x ≡ a = ground arith in rw (met, same) refl)
    | inr unmet ↦ rw unmet (find_by-append rows bs id a (ground arith))
  ]

  find_by-none-update :
      (p : A → Bool) (f : A → A) (rows : List A) (id : String)
      → ((b : A) → key (f b) ≡ key b)
      → find_by id rows ≡ none
      → find_by id (update_where p f rows) ≡ none
  unfolding find_where update_where
  find_by-none-update p f [] id keeps e = refl
  find_by-none-update p f (b ∷ rows) id keeps e = elim (Bool-cases (has_key id b)) [
    | inl met ↦ ground arith
    | inr unmet ↦
        rw (updated_key p f b (keeps b), unmet)
          (find_by-none-update p f rows id keeps (ground arith))
  ]

  -- The key is a primary key.
  abbrev pub Unique : List A → Type ℓ
  Unique [] = Unit
  Unique (a ∷ rows) = (find_by (key a) rows ≡ none) × Unique rows

  pub update-Unique :
      (p : A → Bool) (f : A → A) (rows : List A)
      → ((b : A) → key (f b) ≡ key b)
      → Unique rows
      → Unique (update_where p f rows)
  unfolding update_where
  update-Unique p f [] keeps u = tt
  update-Unique p f (a ∷ rows) keeps (fresh, u) = (
    rw (updated_key p f a (keeps a)) (find_by-none-update p f rows (key a) keeps fresh),
    update-Unique p f rows keeps u,
  )

  find_by-none-append :
      (rows : List A) (a : A) (id : String)
      → find_by id rows ≡ none
      → has_key id a ≡ false
      → find_by id (rows ++ a ∷ []) ≡ none
  unfolding find_where
  find_by-none-append [] a id e other = rw other refl
  find_by-none-append (b ∷ rows) a id e other = elim (Bool-cases (has_key id b)) [
    | inl met ↦ ground arith
    | inr unmet ↦ rw unmet (find_by-none-append rows a id (ground arith) other)
  ]

  not_first :
      (b a : A) (rows : List A) → find_by (key a) (b ∷ rows) ≡ none → has_key (key b) a ≡ false
  unfolding find_where
  not_first b a rows e = elim (Bool-cases (has_key (key b) a)) [
    | inr other ↦ other
    | inl same ↦
        (let keys = (eq_iff (key a) (key b)).0 same in
          let r = eq_refl (key a) in
          let met : has_key (key a) b ≡ true = cc in absurd (ground arith))
  ]

  find_by-none-tail :
      (b a : A) (rows : List A) → find_by (key a) (b ∷ rows) ≡ none → find_by (key a) rows ≡ none
  unfolding find_where
  find_by-none-tail b a rows e = ground arith

  pub append-Unique :
      (rows : List A) (a : A) → Unique rows → find_by (key a) rows ≡ none → Unique (rows ++ a ∷ [])
  append-Unique [] a u fresh = (unfold find_where in (refl, tt))
  append-Unique (b ∷ rows) a (first, u) fresh = (
    find_by-none-append rows a (key b) first (not_first b a rows fresh),
    append-Unique rows a u (find_by-none-tail b a rows fresh),
  )

  absent :
      (rows : List A) (id : String) (P : A → Type ℓ)
      → find_by id rows ≡ none
      → All (λ b. has_key id b ≡ true → P b) rows
  unfolding find_where
  absent [] id P e = tt
  absent (b ∷ rows) id P e = ((λ met. absurd (ground arith)), absent rows id P (ground arith))

  -- The row that is found by a key is the only one with it.
  pub Unique-found :
      (rows : List A) (id : String) (a : A)
      → Unique rows
      → find_by id rows ≡ some a
      → All (λ b. has_key id b ≡ true → b ≡ a) rows
  unfolding find_where
  Unique-found [] id a u e = tt
  Unique-found (b ∷ rows) id a (fresh, u) e = elim (Bool-cases (has_key id b)) [
    | inl met ↦
        (let same : b ≡ a = ground arith in
          let keys : key b ≡ id = (eq_iff (key b) id).0 met in
          (
            (λ _. same),
            absent rows id (λ c. c ≡ a) (subst (λ k. find_by k rows ≡ none) keys fresh),
          ))
    | inr unmet ↦ ((λ met. absurd cc), Unique-found rows id a u (ground arith))
  ]

  -- A row of the table is the one that its key finds.
  pub Unique-Occurs :
      (rows : List A) (a : A) → Unique rows → Occurs a rows → find_by (key a) rows ≡ some a
  unfolding find_where
  Unique-Occurs [] a u m = absurd m.lower
  Unique-Occurs (b ∷ rows) a u (inl e) = let r = eq_refl (key b) in rw e (rw r refl)
  Unique-Occurs (b ∷ rows) a (fresh, u) (inr m) =
      let found = Unique-Occurs rows a u m in
      elim (Bool-cases (has_key (key a) b)) [
        | inr other ↦ rw other found
        | inl same ↦
            (let keys : key b ≡ key a = (eq_iff (key b) (key a)).0 same in
              let gone : find_by (key a) rows ≡ none =
                subst (λ k. find_by k rows ≡ none) keys fresh in
              absurd (ground arith))
      ]

  count_absent :
      (q : A → Bool) (rows : List A) (id : String)
      → find_by id rows ≡ none
      → count_where (λ b. has_key id b && q b) rows ≡ 0
  unfolding find_where count_where
  count_absent q [] id e = refl
  count_absent q (b ∷ rows) id e = elim (Bool-cases (has_key id b)) [
    | inl met ↦ absurd (ground arith)
    | inr unmet ↦ rw unmet (count_absent q rows id (ground arith))
  ]

  -- A condition on one row by its key meets one row or none.
  pub count_keyed :
      (q : A → Bool) (rows : List A) (id : String) (a : A)
      → Unique rows
      → find_by id rows ≡ some a
      → count_where (λ b. has_key id b && q b) rows ≡ (if q a then 1 else 0)
  unfolding find_where count_where
  count_keyed q [] id a u e = absurd cc
  count_keyed q (b ∷ rows) id a (fresh, u) e = elim (Bool-cases (has_key id b)) [
    | inl met ↦
        (let same : b ≡ a = ground arith in
          let keys : key b ≡ id = (eq_iff (key b) id).0 met in
          let others = count_absent q rows id (subst (λ k. find_by k rows ≡ none) keys fresh) in
          rw (met, same, others)
            (elim (Bool-cases (q a)) [ inl holds ↦ rw holds refl | inr fails ↦ rw fails refl ]))
    | inr unmet ↦ rw unmet (count_keyed q rows id a u (ground arith))
  ]
