-- ===== src/Clock/Date.antt =====
-- Go's time.Parse for the layout 2006-01-02: four digits of the year, two of the month, two of the
-- day, and nothing else. The year 0 lies before the zero time, which a `Time` does not reach; it is
-- no date here, which the callers cannot tell from one that is long over.
use Prim.Native.Char.{code}
use Prim.Native.String.{[], ◌∷◌}
use tok_hub.Prelude.{
  ℕ, zero, suc, ◌+◌, ◌-◌, ◌*◌, ◌/◌, ◌%◌, ◌≡◌, refl, String, Bool, not, ◌&&◌, ◌||◌, Option, none,
  some, eqb, leb, if◌then◌else◌,
}
use tok_hub.Clock.{Time, day}

-- The value of decimal digits behind a number.
unfoldable pub digits : ℕ → String → Option ℕ
digits n [] = some n
digits n (c ∷ s) =
    let rest = digits (10 * n + (code c - 48)) s in
    if leb 48 (code c) && leb (code c) 57 then rest else none

unfoldable pub is_leap : ℕ → Bool
is_leap y = eqb (y % 4) 0 && (not (eqb (y % 100) 0) || eqb (y % 400) 0)

unfoldable pub days_in : ℕ → ℕ → ℕ
unfolding is_leap
days_in month year =
    if eqb month 2
    then if is_leap year then 29 else 28
    else if eqb month 4 || eqb month 6 || eqb month 9 || eqb month 11
    then 30
    else 31

-- The days of the months before one.
unfoldable pub days_before_month : ℕ → ℕ → ℕ
unfolding days_in
days_before_month zero year = 0
days_before_month (suc zero) year = 0
days_before_month (suc (suc m)) year = days_before_month (suc m) year + days_in (suc m) year

unfoldable pub days_before_year : ℕ → ℕ
days_before_year year = let y = year - 1 in 365 * y + y / 4 - y / 100 + y / 400

unfoldable pub date : ℕ → ℕ → ℕ → Option Time
unfolding days_in days_before_month days_before_year
date year month d =
    if leb 1 year && leb 1 month && leb month 12 && leb 1 d && leb d (days_in month year)
    then some ((days_before_year year + days_before_month month year + (d - 1)) * day)
    else none

unfoldable pub parse_fields : Option ℕ → Option ℕ → Option ℕ → Option Time
unfolding date
parse_fields (some year) (some month) (some d) = date year month d
parse_fields _ _ _ = none

unfoldable pub parse_date : String → Option Time
unfolding digits parse_fields
parse_date (a ∷ b ∷ c ∷ d ∷ e ∷ f ∷ g ∷ h ∷ i ∷ j ∷ []) =
    if eqb (code e) 45 && eqb (code h) 45
    then parse_fields (digits 0 (a ∷ b ∷ c ∷ d ∷ [])) (digits 0 (f ∷ g ∷ []))
        (digits 0 (i ∷ j ∷ []))
    else none
parse_date _ = none

parse_date_runs : parse_date "2026-11-17" ≡ some (63_930_470_400 * 1_000_000_000)
unfolding parse_date
parse_date_runs = refl
