-- ===== src/Prelude/Text.antt =====
-- Go's strings.TrimSpace, strings.ToLower and strings.EqualFold, over code points. The source
-- compares their results with ASCII literals only, so the letters that matter are those of ASCII
-- and the few others that lower or fold to ASCII.
pub mod Trim
use Prim.Native.Nat.{ℕ, zero, suc, ◌+◌, ◌-◌, ◌<◌}
use Prim.Native.Char.{Char, char, code, IsScalar}
use Prim.Native.String.{String, [], ◌∷◌}
use mathlib.Core.Path.{◌≡◌, refl}
use mathlib.Core.Logic.{dite}
use mathlib.Core.Bool.{Bool, true, false, ◌&&◌, ◌||◌}
use native.Mathlib.Omega.{arith}
use native.Mathlib.Decide.{dec_lt}
use text.Mathlib.Text.{◌==◌}
use tok_hub.Prelude.Tests.{leb, eqb, if◌then◌else◌}

-- unicode.IsSpace
abbrev is_space : ℕ → Bool
is_space c =
    (leb 9 c && leb c 13)
    || eqb c 32
    || eqb c 0x85
    || eqb c 0xa0
    || eqb c 0x1680
    || (leb 0x2000 c && leb c 0x200a)
    || eqb c 0x2028
    || eqb c 0x2029
    || eqb c 0x202f
    || eqb c 0x205f
    || eqb c 0x3000

trim_left : String → String
trim_left [] = []
trim_left (c ∷ s) = let rest = trim_left s in if is_space (code c) then rest else c ∷ s

-- A white character stays only in front of a kept one.
push_unless_blank : Char → String → String
push_unless_blank c [] = if is_space (code c) then [] else c ∷ []
push_unless_blank c (d ∷ s) = c ∷ d ∷ s

trim_right : String → String
unfolding push_unless_blank
trim_right [] = []
trim_right (c ∷ s) = push_unless_blank c (trim_right s)

-- strings.TrimSpace
unfoldable pub trim_space : String → String
unfolding trim_left trim_right
trim_space s = trim_right (trim_left s)

-- The ASCII codes are characters.
pub IsScalar-of_ascii : (n : ℕ) → n < 128 → IsScalar n
IsScalar-of_ascii n h = ground arith

-- unicode.ToLower on ASCII, and on the two other letters that it takes into ASCII: the Kelvin
-- sign and the dotted capital I.
lower_char : Char → Char
unfolding dec_lt
lower_char c =
    dite (dec_lt (code c) 91)
      (λ below.
        dite (dec_lt 64 (code c))
          (λ _. char (code c + 32) (IsScalar-of_ascii (code c + 32) (omega arith))) (λ _. c))
      (λ _.
        if eqb (code c) 0x212a then char 107 tt else if eqb (code c) 0x130 then char 105 tt else c)

-- strings.ToLower
unfoldable pub to_lower : String → String
unfolding lower_char
to_lower [] = []
to_lower (c ∷ s) = lower_char c ∷ to_lower s

-- unicode.ToUpper on ASCII, and on the two other letters that it takes into ASCII: the dotless i and
-- the long s.
upper_char : Char → Char
unfolding dec_lt
upper_char c =
    dite (dec_lt (code c) 123)
      (λ below.
        dite (dec_lt 96 (code c))
          (λ _. char (code c - 32) (IsScalar-of_ascii (code c - 32) (omega arith))) (λ _. c))
      (λ _. if eqb (code c) 0x131 then char 73 tt else if eqb (code c) 0x17f then char 83 tt else c)

-- strings.ToUpper
unfoldable pub to_upper : String → String
unfolding upper_char
to_upper [] = []
to_upper (c ∷ s) = upper_char c ∷ to_upper s

to_upper_runs : to_upper "Post" ≡ "POST"
unfolding to_upper
to_upper_runs = refl

-- The representative of a letter under simple folding: the Kelvin sign folds with k, the long s
-- with s.
fold_char : Char → Char
unfolding dec_lt
fold_char c =
    dite (dec_lt (code c) 91)
      (λ below.
        dite (dec_lt 64 (code c))
          (λ _. char (code c + 32) (IsScalar-of_ascii (code c + 32) (omega arith))) (λ _. c))
      (λ _.
        if eqb (code c) 0x212a then char 107 tt else if eqb (code c) 0x17f then char 115 tt else c)

fold : String → String
unfolding fold_char
fold [] = []
fold (c ∷ s) = fold_char c ∷ fold s

-- strings.EqualFold
unfoldable pub equal_fold : String → String → Bool
unfolding fold
equal_fold s t = fold s == fold t

-- The first `n` code points, `string([]rune(s)[:n])`.
unfoldable pub truncate_runes : String → ℕ → String
truncate_runes [] n = []
truncate_runes (c ∷ s) zero = []
truncate_runes (c ∷ s) (suc n) = c ∷ truncate_runes s n

-- truncateStoreText
unfoldable pub truncate_store_text : String → ℕ → String
truncate_store_text value limit = truncate_runes (trim_space value) limit

trim_space_runs : trim_space " \t OK go \n" ≡ "OK go"
unfolding trim_space
trim_space_runs = refl

to_lower_runs : to_lower "Official_Client" ≡ "official_client"
unfolding to_lower
to_lower_runs = refl

equal_fold_runs : equal_fold "OPENCLI_Browser" "opencli_browser" ≡ true
unfolding equal_fold
equal_fold_runs = refl

-- strings.HasPrefix
unfoldable pub has_prefix : String → String → Bool
has_prefix s [] = true
has_prefix [] (d ∷ p) = false
has_prefix (c ∷ s) (d ∷ p) = let rest = has_prefix s p in eqb (code c) (code d) && rest

-- The text behind its first `n` code points.
unfoldable pub drop_runes : String → ℕ → String
drop_runes s zero = s
drop_runes [] (suc n) = []
drop_runes (c ∷ s) (suc n) = drop_runes s n

has_prefix_runs : has_prefix "bearer x" "bearer " ≡ true
unfolding has_prefix
has_prefix_runs = refl

-- len([]rune(s))
unfoldable pub rune_count : String → ℕ
rune_count [] = 0
rune_count (c ∷ s) = suc (rune_count s)

-- The bytes of a code point in UTF-8.
abbrev utf8_length : ℕ → ℕ
utf8_length c = if leb c 0x7f then 1 else if leb c 0x7ff then 2 else if leb c 0xffff then 3 else 4

-- len(s)
unfoldable pub byte_length : String → ℕ
byte_length [] = 0
byte_length (c ∷ s) = utf8_length (code c) + byte_length s
