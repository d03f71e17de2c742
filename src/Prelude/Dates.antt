-- ===== src/Prelude/Dates.antt =====
-- Python's `date` and `datetime` (in UTC): the calendar, the order, ISO texts.
use Prim.Native.Nat.{ℕ, zero, suc, ◌+◌, ◌-◌, ◌*◌, ◌/◌, ◌%◌, ◌≤◌}
use Prim.Native.Char.{Char, code}
use Prim.Native.String.{String}
use mathlib.Core.Path.{◌≡◌, refl, ap, subst, ◌∙◌}
use mathlib.Core.Logic.{inl, inr}
use mathlib.Core.Bool.{Bool, true, ◌&&◌, ◌||◌, not}
use mathlib.Core.Option.{Option, none, some, some-injective, none-ne-some}
use mathlib.Core.List.{List, [], ◌∷◌}
use native.Mathlib.Omega.{arith}
use boxmunge.Prelude.Tests.{Bool-cases, ltb, leb, ◌==◌, if◌then◌else◌}
use boxmunge.Prelude.Texts.{codes}

pub record Date : Type 0 where
  pub year : ℕ
  pub month : ℕ
  pub day_of_month : ℕ

-- a < b
abbrev pub date_lt : Date → Date → Bool
date_lt a b =
    ltb a.year b.year
    || (a.year == b.year
        && (ltb a.month b.month || (a.month == b.month && ltb a.day_of_month b.day_of_month)))

abbrev is_leap : ℕ → Bool
is_leap y = y % 4 == 0 && (not (y % 100 == 0) || y % 400 == 0)

abbrev days_before_month : ℕ → ℕ
days_before_month m =
    if m == 1
    then 0
    else if m == 2
    then 31
    else if m == 3
    then 59
    else if m == 4
    then 90
    else if m == 5
    then 120
    else if m == 6
    then 151
    else if m == 7
    then 181
    else if m == 8
    then 212
    else if m == 9
    then 243
    else if m == 10
    then 273
    else if m == 11
    then 304
    else 334

abbrev days_in_month : ℕ → ℕ → ℕ
days_in_month y m =
    if m == 2
    then (if is_leap y then 29 else 28)
    else if (m == 4 || m == 6) || (m == 9 || m == 11)
    then 30
    else 31

-- date.toordinal(): day 1 is 1 January of year 1
unfoldable pub to_ordinal : Date → ℕ
to_ordinal d =
    let y = d.year - 1 in
    y * 365
    + y / 4
    - y / 100
    + y / 400
    + (days_before_month d.month + (if is_leap d.year && ltb 2 d.month then 1 else 0))
    + d.day_of_month

-- A `datetime` in UTC: its date, and the microseconds since midnight.
pub record Instant : Type 0 where
  pub date : Date
  pub micros : ℕ

-- a <= b
abbrev pub instant_le : Instant → Instant → Bool
instant_le a b = date_lt a.date b.date || (not (date_lt b.date a.date) && leb a.micros b.micros)

abbrev pub is_date : Date → Bool
is_date d =
    leb 1 d.year
    && leb d.year 9999
    && (leb 1 d.month && leb d.month 12)
    && (leb 1 d.day_of_month && leb d.day_of_month (days_in_month d.year d.month))

abbrev digit_char : ℕ → Char
digit_char n =
    if n == 0
    then "0"
    else if n == 1
    then "1"
    else if n == 2
    then "2"
    else if n == 3
    then "3"
    else if n == 4
    then "4"
    else if n == 5
    then "5"
    else if n == 6
    then "6"
    else if n == 7
    then "7"
    else if n == 8
    then "8"
    else "9"

abbrev digit_value : ℕ → Option ℕ
digit_value c = if leb b'0' c && leb c b'9' then some (c - b'0') else none

-- d.isoformat(): YYYY-MM-DD
unfoldable pub isoformat : Date → String
isoformat d =
    let y = d.year in
    let m = d.month in
    let n = d.day_of_month in
    String.◌∷◌ (digit_char (y / 1000 % 10)) (
      String.◌∷◌ (digit_char (y / 100 % 10)) (
        String.◌∷◌ (digit_char (y / 10 % 10)) (
          String.◌∷◌ (digit_char (y % 10)) (
            String.◌∷◌ "-" (
              String.◌∷◌ (digit_char (m / 10 % 10)) (
                String.◌∷◌ (digit_char (m % 10)) (
                  String.◌∷◌ "-" (
                    String.◌∷◌ (digit_char (n / 10 % 10))
                      (String.◌∷◌ (digit_char (n % 10)) String.[])))))))))

-- The number that a row of digits stands for, behind what was read before it.
unfoldable pub read_digits : ℕ → List ℕ → Option ℕ
read_digits acc [] = some acc
read_digits acc (c ∷ cs) = elim (digit_value c) [
  | none ↦ none
  | some v ↦ read_digits (acc * 10 + v) cs
]

abbrev date_of : Option ℕ → Option ℕ → Option ℕ → Option Date
date_of (some y) (some m) (some n) =
    let d : Date = record { year = y; month = m; day_of_month = n } in
    if is_date d then some d else none
date_of _ _ _ = none

-- date.fromisoformat(s), for the one form YYYY-MM-DD; `none` is ValueError
from_codes : List ℕ → Option Date
from_codes (a ∷ b ∷ c ∷ d ∷ e ∷ f ∷ g ∷ h ∷ i ∷ j ∷ []) =
    if e == b'-' && h == b'-'
    then date_of (read_digits 0 (a ∷ b ∷ c ∷ d ∷ [])) (read_digits 0 (f ∷ g ∷ []))
        (read_digits 0 (i ∷ j ∷ []))
    else none
from_codes _ = none

unfoldable pub from_isoformat : String → Option Date
unfolding from_codes read_digits
from_isoformat s = from_codes (codes s)

digit_value-digit_char : (n : ℕ) → suc n ≤ 10 → digit_value (code (digit_char n)) ≡ some n
digit_value-digit_char zero h = refl
digit_value-digit_char (suc zero) h = refl
digit_value-digit_char (suc (suc zero)) h = refl
digit_value-digit_char (suc (suc (suc zero))) h = refl
digit_value-digit_char (suc (suc (suc (suc zero)))) h = refl
digit_value-digit_char (suc (suc (suc (suc (suc zero))))) h = refl
digit_value-digit_char (suc (suc (suc (suc (suc (suc zero)))))) h = refl
digit_value-digit_char (suc (suc (suc (suc (suc (suc (suc zero))))))) h = refl
digit_value-digit_char (suc (suc (suc (suc (suc (suc (suc (suc zero)))))))) h = refl
digit_value-digit_char (suc (suc (suc (suc (suc (suc (suc (suc (suc zero))))))))) h = refl
digit_value-digit_char (suc (suc (suc (suc (suc (suc (suc (suc (suc (suc n)))))))))) h =
    absurd (omega arith)

-- Reading one digit that was written.
read_digits-digit_char :
    (acc n : ℕ) (cs : List ℕ)
    → suc n ≤ 10
    → read_digits acc (code (digit_char n) ∷ cs) ≡ read_digits (acc * 10 + n) cs
unfolding read_digits
read_digits-digit_char acc n cs h = rw (digit_value-digit_char n h, read_digits)

two_digits :
    (n : ℕ)
    → suc n ≤ 100
    → read_digits 0 (code (digit_char (n / 10 % 10)) ∷ code (digit_char (n % 10)) ∷ []) ≡ some n
two_digits n h =
    read_digits-digit_char 0 (n / 10 % 10) _ (omega arith)
    ∙ read_digits-digit_char (0 * 10 + n / 10 % 10) (n % 10) [] (omega arith)
    ∙ unfold read_digits in ap some (omega arith)

four_digits :
    (n : ℕ)
    → suc n ≤ 10000
    → read_digits 0 (
        code (digit_char (n / 1000 % 10))
        ∷ code (digit_char (n / 100 % 10))
        ∷ code (digit_char (n / 10 % 10))
        ∷ code (digit_char (n % 10))
        ∷ [])
      ≡ some n
four_digits n h =
    read_digits-digit_char 0 (n / 1000 % 10) _ (omega arith)
    ∙ read_digits-digit_char (0 * 10 + n / 1000 % 10) (n / 100 % 10) _ (omega arith)
    ∙ read_digits-digit_char _ (n / 10 % 10) _ (omega arith)
    ∙ read_digits-digit_char _ (n % 10) [] (omega arith)
    ∙ unfold read_digits in ap some (omega arith)

days_in_month-le : (y m : ℕ) → days_in_month y m ≤ 31
days_in_month-le y m = ground arith

-- Reading back the ISO text of a day gives the day.
pub from_isoformat-isoformat : (d : Date) → is_date d ≡ true → from_isoformat (isoformat d) ≡ some d
unfolding from_isoformat isoformat
from_isoformat-isoformat d h =
    let m : days_in_month d.year d.month ≤ 31 = days_in_month-le d.year d.month in
    rw (four_digits d.year (ground arith)) (
      rw (two_digits d.month (ground arith))
        (rw (two_digits d.day_of_month (ground (arith, m))) (rw h)))

date_of-IsDate : (y m n : Option ℕ) (d : Date) → date_of y m n ≡ some d → is_date d ≡ true
date_of-IsDate (some y) (some m) (some n) d h =
    elim (Bool-cases (is_date (record { year = y; month = m; day_of_month = n }))) [
      | inl e ↦ subst (λ t. is_date t ≡ true) (some-injective _ _ (rw e at h)) e
      | inr e ↦ absurd (none-ne-some d (rw e at h))
    ]
date_of-IsDate _ _ _ d h = cc

from_codes-IsDate : (cs : List ℕ) (d : Date) → from_codes cs ≡ some d → is_date d ≡ true
unfolding from_codes
from_codes-IsDate (a ∷ b ∷ c ∷ x ∷ e ∷ f ∷ g ∷ y ∷ i ∷ j ∷ []) d k =
    elim (Bool-cases (e == b'-' && y == b'-')) [
      | inl dashes ↦
          date_of-IsDate (read_digits 0 (a ∷ b ∷ c ∷ x ∷ [])) (read_digits 0 (f ∷ g ∷ []))
            (read_digits 0 (i ∷ j ∷ [])) d (rw dashes at k)
      | inr other ↦ absurd (none-ne-some d (rw other at k))
    ]
from_codes-IsDate _ d k = cc

-- What is read is a day of the calendar.
pub from_isoformat-IsDate : (s : String) (d : Date) → from_isoformat s ≡ some d → is_date d ≡ true
unfolding from_isoformat
from_isoformat-IsDate s d h = from_codes-IsDate (codes s) d h
