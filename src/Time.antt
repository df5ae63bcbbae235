-- ===== src/Time.antt =====
-- `time.Time` in UTC: the nanoseconds since the start of the year 0, so that Go's zero time, the
-- start of the year 1, and every time that the sources read are numbers.
use ajax_bridge.Prelude.{
  ℕ, zero, suc, ◌+◌, ◌-◌, ◌*◌, ◌/◌, ◌%◌, Bool, not, ◌&&◌, ◌||◌, Option, none, some, List, [], ◌∷◌,
  Bytes, ltb, leb, ◌==◌, if◌then◌else◌,
}
use ajax_bridge.Text.{is_digit}

abbrev pub Time : Type 0
Time = ℕ

abbrev pub second : ℕ
second = 1000000000

-- The year 0 has 366 days.
abbrev pub zero_time : Time
zero_time = 366 * 86400 * second

-- t.IsZero()
abbrev pub is_zero : Time → Bool
is_zero t = t == zero_time

-- b.After(a)
abbrev pub after : Time → Time → Bool
after b a = ltb a b

-- maxTime of bridge/internal/state/state.go
unfoldable pub max_time : Time → Time → Time
max_time a b = if after b a then b else a

unfoldable pub is_leap : ℕ → Bool
is_leap y = y % 4 == 0 && (not (y % 100 == 0) || y % 400 == 0)

unfoldable pub days_in_month : ℕ → ℕ → ℕ
days_in_month y m =
    if m == 2
    then (if is_leap y then 29 else 28)
    else if m == 4 || m == 6 || m == 9 || m == 11
    then 30
    else 31

-- The days of the first `m` months of the year `y`.
unfoldable pub days_before_month : ℕ → ℕ → ℕ
days_before_month y zero = 0
days_before_month y (suc m) = days_before_month y m + days_in_month y (suc m)

-- The days from the start of the year 0 to the start of the year `y`.
unfoldable pub days_before_year : ℕ → ℕ
days_before_year y = y * 365 + (y + 3) / 4 - (y + 99) / 100 + (y + 399) / 400

-- time.Date in UTC, at a month from 1
unfoldable pub date : ℕ → ℕ → ℕ → ℕ → ℕ → ℕ → Time
date y mo d h mi s =
    let days = days_before_year y + days_before_month y (mo - 1) + (d - 1) in
    (((days * 24 + h) * 60 + mi) * 60 + s) * second

-- The elements of a layout of package time, as "15", "04", "05", "01", "02" and "2006" write them, and a
-- character that stands for itself.
pub data Element : Type 0 where
  hour minute sec month day year : Element
  literal : ℕ → Element

-- What time.Parse has read so far.
pub record Fields : Type 0 where
  pub hours : ℕ
  pub minutes : ℕ
  pub seconds : ℕ
  pub months : ℕ
  pub days : ℕ
  pub years : ℕ

abbrev pub no_fields : Fields
no_fields = record { hours = 0; minutes = 0; seconds = 0; months = 1; days = 1; years = 0 }

abbrev pub digit : ℕ → ℕ
digit c = c - b'0'

-- Two digits, and the number that they write.
unfoldable pub two_number : Bytes → Option (ℕ × Bytes)
two_number [] = none
two_number (c ∷ []) = none
two_number (c ∷ d ∷ s) = if is_digit c && is_digit d then some (digit c * 10 + digit d, s) else none

-- One digit or two, of the element "15".
unfoldable pub short_number : Bytes → Option (ℕ × Bytes)
short_number [] = none
short_number (c ∷ []) = if is_digit c then some (digit c, []) else none
short_number (c ∷ d ∷ s) =
    if not (is_digit c)
    then none
    else if is_digit d
    then some (digit c * 10 + digit d, s)
    else some (digit c, d ∷ s)

-- Four digits.
unfoldable pub four_number : Bytes → Option (ℕ × Bytes)
four_number (a ∷ b ∷ c ∷ d ∷ s) =
    if is_digit a && is_digit b && is_digit c && is_digit d
    then some (digit a * 1000 + (digit b * 100 + (digit c * 10 + digit d)), s)
    else none
four_number other = none

unfoldable pub drop_digits : Bytes → Bytes
drop_digits [] = []
drop_digits (c ∷ s) = let rest = drop_digits s in if is_digit c then rest else c ∷ s

-- "When parsing (only), the input may contain a fractional second field immediately after the seconds
-- field, even if the layout doesn't signify its presence": behind the seconds, a comma or a point with a
-- digit behind it is read with all its digits. A fraction of a second adds nothing to the fields here.
unfoldable pub drop_fraction : Bytes → Bytes
drop_fraction (c ∷ d ∷ s) =
    let rest = drop_digits s in if (c == b',' || c == b'.') && is_digit d then rest else c ∷ d ∷ s
drop_fraction other = other

-- A number within its bounds, put into the fields.
abbrev pub within : ℕ → ℕ → (ℕ → Fields) → Option (ℕ × Bytes) → Option (Fields × Bytes)
within low high set none = none
within low high set (some (n, s)) = if leb low n && leb n high then some (set n, s) else none

abbrev pub behind_fraction : Option (Fields × Bytes) → Option (Fields × Bytes)
behind_fraction none = none
behind_fraction (some (f, s)) = some (f, drop_fraction s)

-- The reading of one element.
unfoldable pub read_element : Element → Fields → Bytes → Option (Fields × Bytes)
read_element hour f s = within 0 23 (λ n. record f { hours = n }) (short_number s)
read_element minute f s = within 0 59 (λ n. record f { minutes = n }) (two_number s)
read_element sec f s = behind_fraction (within 0 59 (λ n. record f { seconds = n }) (two_number s))
read_element month f s = within 1 12 (λ n. record f { months = n }) (two_number s)
read_element day f s = within 0 99 (λ n. record f { days = n }) (two_number s)
read_element year f s = within 0 9999 (λ n. record f { years = n }) (four_number s)
read_element (literal b) f [] = none
read_element (literal b) f (c ∷ s) = if c == b then some (f, s) else none

-- The time of the fields, if the month has that day.
unfoldable pub time_of : Fields → Option Time
time_of f =
    if leb 1 f.days && leb f.days (days_in_month f.years f.months)
    then some (date f.years f.months f.days f.hours f.minutes f.seconds)
    else none

abbrev pub go_on : (Fields → Bytes → Option Time) → Option (Fields × Bytes) → Option Time
go_on next none = none
go_on next (some (f, s)) = next f s

-- time.Parse in a layout of these elements without fractions of a second.
unfoldable pub parse_elements : List Element → Fields → Bytes → Option Time
parse_elements [] f [] = time_of f
parse_elements [] f (c ∷ s) = none
parse_elements (e ∷ layout) f s = go_on (parse_elements layout) (read_element e f s)
