-- ===== src/Prelude/Revisions.antt =====
-- A table in time: what a statement does to its rows, and what stays true of a row.
use Prim.Native.String.{String}
use mathlib.Core.Path.{◌≡◌, sym, subst}
use mathlib.Core.Bool.{Bool, true}
use mathlib.Core.Option.{none, some}
use mathlib.Core.Logic.{inl, inr}
use tok_hub.Prelude.Tests.{if◌then◌else◌, Bool-cases}
use mathlib.Core.List.{List, [], ◌∷◌, ◌++◌}
use text.Mathlib.Text.{◌==◌}
use text.Mathlib.TextEquality.{eq_iff}
use tok_hub.Prelude.Lists.{All}
use tok_hub.Prelude.Tables.{update_where, All-update, update-All}
use tok_hub.Prelude.Keys.{has_key, find_by, find_by-update, find_by-append, Unique, Unique-found}

module _ {A : Type 0} (key : A → String) (P : A → Type 0) where
  -- A statement leaves the rows, changes some of them and keeps `P` of them, or inserts a row with a
  -- key of its own.
  pub data Revision : List A → List A → Type 0 where
    unrevised : {rows : List A} → Revision rows rows
    changed :
        {rows : List A} (p : A → Bool) (f : A → A)
        → ((a : A) → key (f a) ≡ key a)
        → ((a : A) → p a ≡ true → P a → P (f a))
        → Revision rows (update_where p f rows)
    inserted :
        {rows : List A} (a : A) → find_by key (key a) rows ≡ none → Revision rows (rows ++ a ∷ [])

  pub same-Revision : {rows rows' : List A} → rows' ≡ rows → Revision rows rows'
  same-Revision {rows} e = subst (λ xs. Revision rows xs) (sym e) unrevised

  -- There is a row of the key, and `P` holds of all rows with it.
  pub record Holds (id : String) (rows : List A) : Type 0 where
    pub row : A
    pub is_known : find_by key id rows ≡ some row
    pub holds : All (λ a. has_key key id a ≡ true → P a) rows

  append-All : (Q : A → Type 0) (rows : List A) (a : A) → All Q rows → Q a → All Q (rows ++ a ∷ [])
  append-All Q [] a h q = (q, tt)
  append-All Q (b ∷ rows) a (h, hs) q = (h, append-All Q rows a hs q)

  pub Revision-Holds :
      (id : String) {rows rows' : List A} → Revision rows rows' → Holds id rows → Holds id rows'
  Revision-Holds id unrevised h = h
  Revision-Holds id {rows} (changed p f keeps stays) h = record {
    row = _;
    is_known = find_by-update key p f rows id h.row keeps h.is_known;
    holds =
        All-update _ p f rows
          (λ a met k same. stays a met (k (subst (λ x. (x == id) ≡ true) (keeps a) same))) h.holds;
  }
  Revision-Holds id {rows} (inserted a fresh) h = record {
    row = h.row;
    is_known = find_by-append key rows (a ∷ []) id h.row h.is_known;
    holds = append-All _ rows a h.holds (λ same.
        let known = h.is_known in
        let gone = subst (λ k. find_by key k rows ≡ none) ((eq_iff (key a) id).0 same) fresh in
        absurd cc);
  }

  only-Holds :
      (id : String) (a : A) (rows : List A)
      → P a
      → All (λ b. has_key key id b ≡ true → b ≡ a) rows
      → All (λ b. has_key key id b ≡ true → P b) rows
  only-Holds id a [] p h = tt
  only-Holds id a (b ∷ rows) p (h, hs) =
      ((λ has. subst P (sym (h has)) p), only-Holds id a rows p hs)

  -- What holds of the row of a primary key.
  pub found-Holds :
      (id : String) (a : A) (rows : List A)
      → Unique key rows
      → find_by key id rows ≡ some a
      → P a
      → Holds id rows
  found-Holds id a rows u found p = record {
    row = a;
    is_known = found;
    holds = only-Holds id a rows p (Unique-found key rows id a u found);
  }

  update-only :
      (p : A → Bool) (f : A → A) (id : String) (a : A) (rows : List A)
      → p a ≡ true
      → P (f a)
      → ((b : A) → key (f b) ≡ key b)
      → All (λ b. has_key key id b ≡ true → b ≡ a) rows
      → All (λ b. has_key key id (if p b then f b else b) ≡ true → P (if p b then f b else b)) rows
  update-only p f id a [] met q keeps h = tt
  update-only p f id a (b ∷ rows) met q keeps (h, hs) = (
    elim (Bool-cases (p b)) [
      | inl same ↦
          rw same
            (λ has. subst (λ x. P (f x)) (sym (h (subst (λ k. (k == id) ≡ true) (keeps b) has))) q)
      | inr other ↦
          rw other (λ has. (let m = subst (λ x. p x ≡ true) (sym (h has)) met in absurd cc))
    ],
    update-only p f id a rows met q keeps hs,
  )

  -- What holds of the row of a primary key after an update of it.
  pub update-Holds :
      (p : A → Bool) (f : A → A) (id : String) (a : A) (rows : List A)
      → Unique key rows
      → find_by key id rows ≡ some a
      → p a ≡ true
      → P (f a)
      → ((b : A) → key (f b) ≡ key b)
      → Holds id (update_where p f rows)
  update-Holds p f id a rows u found met q keeps = record {
    row = _;
    is_known = find_by-update key p f rows id a keeps found;
    holds =
        update-All _ p f rows
          (update-only p f id a rows met q keeps (Unique-found key rows id a u found));
  }
