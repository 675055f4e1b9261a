-- ===== src/Policy/Ports.antt =====
-- The port rules of src/policy.ts: `parsePortRange` and `matchesPortPolicy`.
pub mod Ranges
use oaslananka_lab_mcp_ssh_t.Prelude.{
  ℕ, ◌+◌, ◌-◌, ◌*◌, ◌≤◌, ◌≡◌, ◌↔◌, inl, inr, Bool, true, false, ◌&&◌, ◌||◌, Option, none, some,
  List, [], ◌∷◌, arith, ltb, leb, eqb, if◌then◌else◌, Option-cases, length, any, AnyOf, any-AnyOf,
  AnyOf-map,
}
use oaslananka_lab_mcp_ssh_t.Text.{Text, trim}

pub record PortRange : Type 0 where
  pub start : ℕ
  pub end : ℕ

is_digit : ℕ → Bool
is_digit c = leb b'0' c && leb c b'9'

-- The digits at the front, and what follows them.
take_digits : Text → Text × Text
unfolding is_digit
take_digits [] = ([], [])
take_digits (c ∷ s) =
    let (digits, rest) = take_digits s in if is_digit c then (c ∷ digits, rest) else ([], c ∷ s)

-- `\d{1,5}`
is_port_number : Text → Bool
is_port_number digits = leb 1 (length digits) && leb (length digits) 5

-- `Number(digits)`
number_from : ℕ → Text → ℕ
number_from n [] = n
number_from n (c ∷ s) = number_from (10 * n + (c - b'0')) s

checked_range : ℕ → ℕ → Option PortRange
checked_range start end =
    if ltb 65535 end || ltb end start then none else some (record { start = start; end = end })

second_port : Text → Text × Text → Option PortRange
unfolding is_port_number number_from checked_range
second_port start (digits, []) =
    if is_port_number digits
    then checked_range (number_from 0 start) (number_from 0 digits)
    else none
second_port start (digits, c ∷ rest) = none

after_port : Text → Text → Option PortRange
unfolding second_port take_digits
after_port start [] = checked_range (number_from 0 start) (number_from 0 start)
after_port start (c ∷ rest) = if eqb c b'-' then second_port start (take_digits rest) else none

unfoldable pub parse_port_range : Text → Option PortRange
unfolding after_port take_digits is_port_number trim
parse_port_range policy =
    let (start, rest) = take_digits (trim policy) in
    if is_port_number start then after_port start rest else none

covers : ℕ → Text → Bool
covers port policy = elim (parse_port_range policy) [
  | none ↦ false
  | some range ↦ leb range.start port && leb port range.end
]

unfoldable pub matches_port_policy : ℕ → List Text → Bool
unfolding covers
matches_port_policy port = any (covers port)

checked_range_bounds :
    (start end : ℕ) (range : PortRange)
    → checked_range start end ≡ some range
    → (range.start ≤ range.end) × (range.end ≤ 65535)
unfolding checked_range
checked_range_bounds start end range h = ground arith

second_port_bounds :
    (start : Text) (next : Text × Text) (range : PortRange)
    → second_port start next ≡ some range
    → (range.start ≤ range.end) × (range.end ≤ 65535)
unfolding second_port
second_port_bounds start (digits, []) range h =
    ground (arith, checked_range_bounds (number_from 0 start) (number_from 0 digits) range)
second_port_bounds start (digits, c ∷ rest) range h = cc

after_port_bounds :
    (start rest : Text) (range : PortRange)
    → after_port start rest ≡ some range
    → (range.start ≤ range.end) × (range.end ≤ 65535)
unfolding after_port
after_port_bounds start [] range h =
    checked_range_bounds (number_from 0 start) (number_from 0 start) range h
after_port_bounds start (c ∷ rest) range h =
    ground (arith, second_port_bounds start (take_digits rest) range)

-- A range that is read from a policy is not empty and lies below 65536.
parse_port_range_bounds :
    (policy : Text) (range : PortRange)
    → parse_port_range policy ≡ some range
    → (range.start ≤ range.end) × (range.end ≤ 65535)
unfolding parse_port_range
parse_port_range_bounds policy range h =
    ground
      (arith, after_port_bounds (take_digits (trim policy)).0 (take_digits (trim policy)).1 range)
