-- ===== src/Prelude/Tables.antt =====
-- Tables of a database rows lists of rows: updates with a condition, look-ups by a key, and counts.
use Prim.Native.Nat.{ℕ, suc, ◌+◌, ◌≤◌}
use mathlib.Core.Path.{◌≡◌, refl}
use mathlib.Core.Logic.{inl, inr}
use mathlib.Core.Bool.{Bool, true, false}
use mathlib.Core.Option.{Option, none, some}
use mathlib.Core.List.{List, [], ◌∷◌, ◌++◌}
use native.Mathlib.Omega.{arith}
use tok_hub.Prelude.Tests.{if◌then◌else◌, Bool-cases}
use tok_hub.Prelude.Lists.{All, Occurs}

module _ {ℓ} {A : Type ℓ} where
  -- update … set … where …
  unfoldable pub update_where : (A → Bool) → (A → A) → List A → List A
  update_where p f [] = []
  update_where p f (a ∷ rows) = (if p a then f a else a) ∷ update_where p f rows

  -- The rows that a condition meets, `RowsAffected`.
  unfoldable pub count_where : (A → Bool) → List A → ℕ
  count_where p [] = 0
  count_where p (a ∷ rows) = let rest = count_where p rows in if p a then suc rest else rest

  -- The first row that a condition meets.
  unfoldable pub find_where : (A → Bool) → List A → Option A
  find_where p [] = none
  find_where p (a ∷ rows) = let rest = find_where p rows in if p a then some a else rest

  -- A change that makes no row meet a condition makes no more rows meet it.
  pub count_where-update_le :
      (q p : A → Bool) (f : A → A) (rows : List A)
      → All (λ a. p a ≡ true → q (f a) ≡ true → q a ≡ true) rows
      → count_where q (update_where p f rows) ≤ count_where q rows
  unfolding count_where update_where
  count_where-update_le q p f [] h = omega arith
  count_where-update_le q p f (a ∷ rows) (h, hs) =
      let later = count_where-update_le q p f rows hs in
      elim (Bool-cases (p a)) [
        | inr skipped ↦ rw skipped (elim (Bool-cases (q a)) [
          | inl met ↦ rw met (omega (arith, later))
          | inr unmet ↦ rw unmet later
        ])
        | inl changed ↦ rw changed (elim (Bool-cases (q (f a))) [
          | inl met ↦ rw (met, h changed met) (omega (arith, later))
          | inr unmet ↦ rw unmet (elim (Bool-cases (q a)) [
            | inl was ↦ rw was (omega (arith, later))
            | inr was ↦ rw was later
          ])
        ])
      ]

  pub count_where-append :
      (q : A → Bool) (rows bs : List A)
      → count_where q (rows ++ bs) ≡ count_where q rows + count_where q bs
  unfolding count_where
  count_where-append q [] bs = omega arith
  count_where-append q (a ∷ rows) bs =
      let later = count_where-append q rows bs in
      elim (Bool-cases (q a)) [
        | inl met ↦ rw met (omega (arith, later))
        | inr unmet ↦ rw unmet later
      ]

  pub count_where-ext :
      (p q : A → Bool) (rows : List A)
      → ((a : A) → p a ≡ q a)
      → count_where p rows ≡ count_where q rows
  unfolding count_where
  count_where-ext p q [] e = refl
  count_where-ext p q (a ∷ rows) e = rw (e a, count_where-ext p q rows e) refl

  pub All-of_All {κ} : (P : A → Type κ) (rows : List A) → ((a : A) → P a) → All P rows
  All-of_All P [] h = tt
  All-of_All P (a ∷ rows) h = (h a, All-of_All P rows h)

  pub find_where-All {κ} :
      (P : A → Type κ) (p : A → Bool) (rows : List A) (a : A)
      → All P rows
      → find_where p rows ≡ some a
      → P a
  unfolding find_where
  find_where-All P p [] a ps e = absurd cc
  find_where-All P p (x ∷ rows) a (h, hs) e = elim (Bool-cases (p x)) [
    | inl met ↦ (let same : x ≡ a = ground arith in rw⁻¹ same h)
    | inr unmet ↦ find_where-All P p rows a hs (ground arith)
  ]

  pub find_where-met :
      (p : A → Bool) (rows : List A) (a : A) → find_where p rows ≡ some a → p a ≡ true
  unfolding find_where
  find_where-met p [] a e = absurd cc
  find_where-met p (x ∷ rows) a e = elim (Bool-cases (p x)) [
    | inl met ↦ (let same : x ≡ a = ground arith in rw⁻¹ same met)
    | inr unmet ↦ find_where-met p rows a (ground arith)
  ]

  pub find_where-Occurs :
      (p : A → Bool) (rows : List A) (a : A) → find_where p rows ≡ some a → Occurs a rows
  unfolding find_where
  find_where-Occurs p [] a e = absurd cc
  find_where-Occurs p (x ∷ rows) a e = elim (Bool-cases (p x)) [
    | inl met ↦ inl (ground arith)
    | inr unmet ↦ inr (find_where-Occurs p rows a (ground arith))
  ]

  pub All-update {κ} :
      (P : A → Type κ) (p : A → Bool) (f : A → A) (rows : List A)
      → ((a : A) → p a ≡ true → P a → P (f a))
      → All P rows
      → All P (update_where p f rows)
  unfolding update_where
  All-update P p f [] keeps h = tt
  All-update P p f (a ∷ rows) keeps (h, hs) = elim (Bool-cases (p a)) [
    | inl met ↦ rw met (keeps a met h, All-update P p f rows keeps hs)
    | inr unmet ↦ rw unmet (h, All-update P p f rows keeps hs)
  ]

  pub update-All {κ} :
      (P : A → Type κ) (p : A → Bool) (f : A → A) (rows : List A)
      → All (λ a. P (if p a then f a else a)) rows
      → All P (update_where p f rows)
  unfolding update_where
  update-All P p f [] h = tt
  update-All P p f (a ∷ rows) (h, hs) = (h, update-All P p f rows hs)

  -- Rows that a condition counts can be found by it.
  pub count_where-found :
      (p : A → Bool) (rows : List A)
      → 1 ≤ count_where p rows
      → (a : A) × (find_where p rows ≡ some a)
  unfolding count_where find_where
  count_where-found p [] h = absurd (omega (arith, h))
  count_where-found p (a ∷ rows) h = elim (Bool-cases (p a)) [
    | inl met ↦ (a, rw met refl)
    | inr unmet ↦ (let (b, found) = count_where-found p rows (ground arith) in (b, rw unmet found))
  ]

  -- An update that makes no row meet its condition leaves none that does.
  pub count_where-cleared :
      (q : A → Bool) (f : A → A) (rows : List A)
      → ((a : A) → q (f a) ≡ false)
      → count_where q (update_where q f rows) ≡ 0
  unfolding count_where update_where
  count_where-cleared q f [] clears = refl
  count_where-cleared q f (a ∷ rows) clears =
      let later = count_where-cleared q f rows clears in
      elim (Bool-cases (q a)) [
        | inl met ↦ rw (met, clears a) later
        | inr unmet ↦ rw (unmet, unmet) later
      ]

  pub count_where-none :
      (q : A → Bool) (rows : List A) → All (λ a. q a ≡ false) rows → count_where q rows ≡ 0
  unfolding count_where
  count_where-none q [] h = refl
  count_where-none q (a ∷ rows) (h, hs) = rw h (count_where-none q rows hs)
