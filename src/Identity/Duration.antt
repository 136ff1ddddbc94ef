-- ===== src/Identity/Duration.antt =====
-- services/identity-service/src/modules/auth/auth.service.ts: `parseDurationToSeconds`.
pub mod Values
use saas_chassis.Prelude.{
  ℕ, ◌+◌, ◌-◌, ◌*◌, Option, none, some, List, [], ◌∷◌, is_digit, nat_eq, if◌then◌else◌,
}

-- The unit's length in seconds; `none` where the pattern does not match.
abbrev pub unit_seconds : ℕ → Option ℕ
unit_seconds u =
    if nat_eq u b's'
    then some 1
    else if nat_eq u b'm'
    then some 60
    else if nat_eq u b'h'
    then some 3600
    else if nat_eq u b'd'
    then some 86400
    else none

-- The last code after the digits, which is all of the rest.
unit_of : ℕ → ℕ → List ℕ → ℕ
unit_of value u [] = elim (unit_seconds u) [ none ↦ 900 | some n ↦ value * n ]
unit_of value u (c ∷ cs) = 900

-- `/^(\d+)([smhd])$/`, with the number read so far, once a digit has been read.
after_digits : Option ℕ → List ℕ → ℕ
after_digits acc [] = 900
after_digits acc (c ∷ cs) =
    let more = after_digits (some ((elim acc [ none ↦ 0 | some n ↦ n * 10 ]) + (c - b'0'))) cs in
    let rest : ℕ = elim acc [ none ↦ 900 | some n ↦ unit_of n c cs ] in
    if is_digit c then more else rest

unfoldable pub parse_duration_to_seconds : List ℕ → ℕ
unfolding after_digits unit_of
parse_duration_to_seconds duration = after_digits none duration
