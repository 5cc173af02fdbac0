-- ===== src/Prelude/Text/Trim.antt =====
-- A text that is trimmed stays as it is.
use Prim.Native.Char.{Char, code}
use Prim.Native.String.{String, [], ◌∷◌}
use mathlib.Core.Path.{◌≡◌, refl, ap, ◌∙◌}
use mathlib.Core.Logic.{inl, inr}
use mathlib.Core.Bool.{false}
use tok_hub.Prelude.Tests.{Bool-cases}
use tok_hub.Prelude.Text.{is_space, trim_left, trim_right, push_unless_blank, trim_space}

-- The text is empty or starts with a character that is not white.
Starts : String → Type 0
Starts [] = Unit
Starts (c ∷ s) = is_space (code c) ≡ false

trim_left-Starts : (s : String) → Starts (trim_left s)
unfolding trim_left Starts
trim_left-Starts [] = tt
trim_left-Starts (c ∷ s) = elim (Bool-cases (is_space (code c))) [
  | inl white ↦ rw white (trim_left-Starts s)
  | inr other ↦ rw other other
]

Starts-trim_left : (s : String) → Starts s → trim_left s ≡ s
unfolding trim_left Starts
Starts-trim_left [] h = refl
Starts-trim_left (c ∷ s) h = rw h refl

push-Starts : (c : Char) (s : String) → is_space (code c) ≡ false → Starts (push_unless_blank c s)
unfolding push_unless_blank Starts
push-Starts c [] h = rw h (unfold Starts in h)
push-Starts c (d ∷ s) h = h

trim_right-Starts : (s : String) → Starts s → Starts (trim_right s)
unfolding trim_right
trim_right-Starts [] h = unfold Starts in tt
trim_right-Starts (c ∷ s) h = push-Starts c (trim_right s) (unfold Starts in h)

trim_right-push :
    (c : Char) (s : String)
    → trim_right s ≡ s
    → trim_right (push_unless_blank c s) ≡ push_unless_blank c s
unfolding trim_right push_unless_blank
trim_right-push c [] e = elim (Bool-cases (is_space (code c))) [
  | inl white ↦ rw white refl
  | inr other ↦ rw (other, other) refl
]
trim_right-push c (d ∷ s) e = ap (push_unless_blank c) e

trim_right_again : (s : String) → trim_right (trim_right s) ≡ trim_right s
unfolding trim_right
trim_right_again [] = refl
trim_right_again (c ∷ s) = trim_right-push c (trim_right s) (trim_right_again s)

pub trim_space_again : (s : String) → trim_space (trim_space s) ≡ trim_space s
unfolding trim_space
trim_space_again s =
    ap trim_right (
      Starts-trim_left (trim_right (trim_left s))
        (trim_right-Starts (trim_left s) (trim_left-Starts s)))
    ∙ trim_right_again (trim_left s)
