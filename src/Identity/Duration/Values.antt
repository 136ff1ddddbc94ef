-- ===== src/Identity/Duration/Values.antt =====
-- services/identity-service/src/modules/auth/auth.service.ts: what `parseDurationToSeconds` makes of
-- a number with a unit.
use saas_chassis.Prelude.{
  ℕ, ◌+◌, ◌-◌, ◌*◌, ◌≡◌, refl, true, false, some, List, [], ◌∷◌, ◌++◌, is_digit, digits_value,
  arith,
}
use saas_chassis.Prelude.{All}
use saas_chassis.Identity.Duration.{unit_seconds, parse_duration_to_seconds, after_digits, unit_of}

-- A code of a decimal digit.
abbrev pub IsDigit : ℕ → Type 0
IsDigit c = is_digit c ≡ true

after_digits-append :
    (acc u factor : ℕ) (cs : List ℕ)
    → All IsDigit cs
    → is_digit u ≡ false
    → unit_seconds u ≡ some factor
    → after_digits (some acc) (cs ++ u ∷ []) ≡ digits_value acc cs * factor
unfolding after_digits unit_of digits_value
after_digits-append acc u factor [] digits letter unit = ground arith
after_digits-append acc u factor (c ∷ cs) (d, digits) letter unit =
    rw d (after_digits-append (acc * 10 + (c - b'0')) u factor cs digits letter unit)

with_unit :
    (c u factor : ℕ) (cs : List ℕ)
    → All IsDigit (c ∷ cs)
    → is_digit u ≡ false
    → unit_seconds u ≡ some factor
    → parse_duration_to_seconds (c ∷ cs ++ u ∷ []) ≡ digits_value 0 (c ∷ cs) * factor
unfolding parse_duration_to_seconds digits_value
with_unit c u factor cs (d, digits) letter unit =
    rw d (after_digits-append (0 * 10 + (c - b'0')) u factor cs digits letter unit)

-- One decimal digit or more, read in base 10, is the number of seconds with an s behind it, 60 times
-- that number with an m, 3600 times with an h, and 86400 times with a d.
pub parse_duration_to_seconds-append :
    (c : ℕ) (cs : List ℕ)
    → All IsDigit (c ∷ cs)
    → (parse_duration_to_seconds (c ∷ cs ++ b's' ∷ []) ≡ digits_value 0 (c ∷ cs))
      × (parse_duration_to_seconds (c ∷ cs ++ b'm' ∷ []) ≡ digits_value 0 (c ∷ cs) * 60)
      × (parse_duration_to_seconds (c ∷ cs ++ b'h' ∷ []) ≡ digits_value 0 (c ∷ cs) * 3600)
      × (parse_duration_to_seconds (c ∷ cs ++ b'd' ∷ []) ≡ digits_value 0 (c ∷ cs) * 86400)
parse_duration_to_seconds-append c cs digits =
    let seconds = with_unit c b's' 1 cs digits refl refl in
    let minutes = with_unit c b'm' 60 cs digits refl refl in
    let hours = with_unit c b'h' 3600 cs digits refl refl in
    let days = with_unit c b'd' 86400 cs digits refl refl in
    (omega (arith, seconds), minutes, hours, days)
