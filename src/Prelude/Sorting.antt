-- ===== src/Prelude/Sorting.antt =====
-- sort.SliceStable of Go's `sort` package as an insertion from the back, over the Boolean test that it
-- is given.
use mathlib.Core.Path.{◌≡◌, refl, ◌∙◌, ap}
use mathlib.Core.Logic.{inl, inr}
use mathlib.Core.Bool.{Bool, true, false, not, ◌&&◌}
use mathlib.Core.List.{List, [], ◌∷◌, Perm}
use mathlib.Core.List.Perm
use native.Mathlib.Omega.{arith}
use tok_hub.Prelude.Tests.{if◌then◌else◌, Bool-cases}
use tok_hub.Prelude.Lists.{All}

module _ {A : Type 0} where
  -- The elements that a test keeps, in their order.
  unfoldable pub keep : (A → Bool) → List A → List A
  keep p [] = []
  keep p (a ∷ l) = let rest = keep p l in if p a then a ∷ rest else rest

  pub keep-keep : (p q : A → Bool) (l : List A) → keep q (keep p l) ≡ keep (λ a. p a && q a) l
  unfolding keep
  keep-keep p q [] = refl
  keep-keep p q (a ∷ l) = elim (Bool-cases (p a)) [
    | inl met ↦ rw (met, keep-keep p q l) refl
    | inr unmet ↦ rw (unmet, keep-keep p q l) refl
  ]

  pub keep-ext : (p q : A → Bool) (l : List A) → ((a : A) → p a ≡ q a) → keep p l ≡ keep q l
  unfolding keep
  keep-ext p q [] e = refl
  keep-ext p q (a ∷ l) e = rw (e a, keep-ext p q l e) refl

  pub keep-All : (p : A → Bool) (l : List A) → All (λ a. p a ≡ true) (keep p l)
  unfolding keep
  keep-All p [] = tt
  keep-All p (a ∷ l) = elim (Bool-cases (p a)) [
    | inl met ↦ rw met (met, keep-All p l)
    | inr unmet ↦ rw unmet (keep-All p l)
  ]

  pub All-keep : (P : A → Type 0) (p : A → Bool) (l : List A) → All P l → All P (keep p l)
  unfolding keep
  All-keep P p [] h = tt
  All-keep P p (a ∷ l) (h, hs) = elim (Bool-cases (p a)) [
    | inl met ↦ rw met (h, All-keep P p l hs)
    | inr unmet ↦ rw unmet (All-keep P p l hs)
  ]

  -- The conditions that SliceStable needs of a test.
  pub record IsWeakOrder (less : A → A → Bool) : Type 0 where
    pub asym : (a b : A) → less a b ≡ true → less b a ≡ false
    pub trans : (a b c : A) → less b a ≡ false → less c b ≡ false → less c a ≡ false

  module _ (less : A → A → Bool) where
    unfoldable pub insert_stable : A → List A → List A
    insert_stable x [] = x ∷ []
    insert_stable x (y ∷ l) =
        let rest = insert_stable x l in if less y x then y ∷ rest else x ∷ y ∷ l

    unfoldable pub sort_stable : List A → List A
    sort_stable [] = []
    sort_stable (x ∷ l) = insert_stable x (sort_stable l)

    -- No element is less than one before it.
    unfoldable pub IsOrdered : List A → Type 0
    IsOrdered [] = Unit
    IsOrdered (a ∷ l) = All (λ b. less b a ≡ false) l × IsOrdered l

    -- Neither comes before the other.
    abbrev pub is_tied : A → A → Bool
    is_tied a b = not (less a b) && not (less b a)

    insert-All : (P : A → Type 0) (x : A) (l : List A) → P x → All P l → All P (insert_stable x l)
    unfolding insert_stable
    insert-All P x [] p h = (p, tt)
    insert-All P x (y ∷ l) p (h, hs) = elim (Bool-cases (less y x)) [
      | inl later ↦ rw later (h, insert-All P x l p hs)
      | inr here ↦ rw here (p, (h, hs))
    ]

    pub sort-All : (P : A → Type 0) (l : List A) → All P l → All P (sort_stable l)
    unfolding sort_stable
    sort-All P [] h = tt
    sort-All P (x ∷ l) (h, hs) = insert-All P x (sort_stable l) h (sort-All P l hs)

    All-trans :
        (o : IsWeakOrder less) (x y : A) (l : List A)
        → less y x ≡ false
        → All (λ b. less b y ≡ false) l
        → All (λ b. less b x ≡ false) l
    All-trans o x y [] e h = tt
    All-trans o x y (b ∷ l) e (h, hs) = (o.trans x y b e h, All-trans o x y l e hs)

    insert-IsOrdered :
        IsWeakOrder less → (x : A) (l : List A) → IsOrdered l → IsOrdered (insert_stable x l)
    unfolding insert_stable IsOrdered
    insert-IsOrdered o x [] h = (tt, tt)
    insert-IsOrdered o x (y ∷ l) (h, hs) = elim (Bool-cases (less y x)) [
      | inl later ↦ rw later (insert-All _ x l (o.asym y x later) h, insert-IsOrdered o x l hs)
      | inr here ↦ rw here ((here, All-trans o x y l here h), (h, hs))
    ]

    pub sort-IsOrdered : IsWeakOrder less → (l : List A) → IsOrdered (sort_stable l)
    unfolding sort_stable IsOrdered
    sort-IsOrdered o [] = tt
    sort-IsOrdered o (x ∷ l) = insert-IsOrdered o x (sort_stable l) (sort-IsOrdered o l)

    insert-Perm : (x : A) (l : List A) → Perm (insert_stable x l) (x ∷ l)
    unfolding insert_stable
    insert-Perm x [] = Perm.rfl
    insert-Perm x (y ∷ l) = elim (Bool-cases (less y x)) [
      | inl later ↦ rw later (Perm.trans (Perm.cons y (insert-Perm x l)) (Perm.swap x y l))
      | inr here ↦ rw here Perm.rfl
    ]

    pub sort-Perm : (l : List A) → Perm (sort_stable l) l
    unfolding sort_stable
    sort-Perm [] = Perm.rfl
    sort-Perm (x ∷ l) = Perm.trans (insert-Perm x (sort_stable l)) (Perm.cons x (sort-Perm l))

    insert-tied :
        (o : IsWeakOrder less) (u x : A) (l : List A)
        → keep (is_tied u) (insert_stable x l) ≡ keep (is_tied u) (x ∷ l)
    unfolding insert_stable keep
    insert-tied o u x [] = refl
    insert-tied o u x (y ∷ l) = elim (Bool-cases (less y x)) [
      | inr here ↦ rw here refl
      | inl later ↦
          let back = insert-tied o u x l in
          elim (Bool-cases (is_tied u y)) [
            | inr loose ↦ rw (later, loose) back
            | inl tied ↦ elim (Bool-cases (is_tied u x)) [
              | inr loose ↦ rw (later, tied, loose) (ap (◌∷◌ y) (back ∙ rw loose refl))
              | inl other ↦ let apart = o.trans x u y (ground arith) (ground arith) in absurd cc
            ]
          ]
    ]

    -- Elements that tie keep their order.
    pub sort-tied :
        IsWeakOrder less
        → (u : A) (l : List A) → keep (is_tied u) (sort_stable l) ≡ keep (is_tied u) l
    unfolding sort_stable keep
    sort-tied o u [] = refl
    sort-tied o u (x ∷ l) =
        insert-tied o u x (sort_stable l)
        ∙ ap (λ rest. if is_tied u x then x ∷ rest else rest) (sort-tied o u l)
