-- ===== src/Policy/Ports/Ranges.antt =====
-- What the port rules of src/policy.ts cover, by the text of a rule.
use native.Mathlib.Numerals.{unary_clauses}
use oaslananka_lab_mcp_ssh_t.Text.{trim, Text}
use oaslananka_lab_mcp_ssh_t.Policy.Ports.{
  after_port, second_port, matches_port_policy, parse_port_range, is_digit, take_digits,
  is_port_number, number_from, checked_range, covers, PortRange,
}
use oaslananka_lab_mcp_ssh_t.Prelude.{
  ℕ, ◌+◌, ◌-◌, ◌*◌, ◌^◌, ◌≤◌, ◌≡◌, refl, sym, ap, subst, ◌∙◌, ◌↔◌, ◌⊎◌, inl, inr, Bool, true, false,
  ◌&&◌, Option, none, some, List, [], ◌∷◌, ◌++◌, append-nil, arith, leb, eqb, Bool-cases,
  Option-cases, length, All, AnyOf, any-AnyOf, AnyOf-map,
}

abbrev IsDigit : ℕ → Type 0
IsDigit c = (b'0' ≤ c) × (c ≤ b'9')

-- One to five digits.
abbrev IsNumber : Text → Type 0
IsNumber digits = All IsDigit digits × ((1 ≤ length digits) × (length digits ≤ 5))

-- The number that digits stand for.
abbrev pub value : Text → ℕ
value [] = 0
value (c ∷ digits) = (c - b'0') * 10 ^ length digits + value digits

-- The rule, without white space around it, is a number that is the port, or two numbers with a
-- dash between them, the port in their range; and no number above 65535 ends the range.
abbrev pub Covers : ℕ → Text → Type 0
Covers port policy =
    (start : Text) × (end : Text) × (((trim policy ≡ start) × (end ≡ start))
      ⊎ (trim policy ≡ start ++ (b'-' ∷ end)))
    × IsNumber start
    × IsNumber end
    × (value end ≤ 65535)
    × (value start ≤ port)
    × (port ≤ value end)

shift : (n d p v : ℕ) → (10 * n + d) * p + v ≡ n * (p * 10) + (d * p + v)
shift n d p v = omega arith

number_from-value :
    (n : ℕ) (digits : Text) → number_from n digits ≡ n * 10 ^ length digits + value digits
unfolding number_from
number_from-value n [] = omega arith
number_from-value n (c ∷ digits) = simp unary_clauses (
    number_from-value (10 * n + (c - b'0')) digits
    ∙ shift n (c - b'0') (10 ^ length digits) (value digits))

number_value : (digits : Text) → number_from 0 digits ≡ value digits
number_value digits = number_from-value 0 digits ∙ omega arith

is_digit-IsDigit : (c : ℕ) → (is_digit c ≡ true) ↔ IsDigit c
unfolding is_digit
is_digit-IsDigit c = (λ h. (ground arith, ground arith), λ p. ground arith)

take_digits-split :
    (s : Text) → (s ≡ (take_digits s).0 ++ (take_digits s).1) × All IsDigit (take_digits s).0
unfolding take_digits
take_digits-split [] = (refl, tt)
take_digits-split (c ∷ s) =
    let (split, digits) = take_digits-split s in
    elim (Bool-cases (is_digit c)) [
      | inl digit ↦ rw digit (ap (λ t. c ∷ t) split, ((is_digit-IsDigit c).0 digit, digits))
      | inr other ↦ rw other (refl, tt)
    ]

take_digits-All : (s : Text) → All IsDigit s → take_digits s ≡ (s, [])
unfolding take_digits
take_digits-All [] p = refl
take_digits-All (c ∷ s) p = rw ((is_digit-IsDigit c).1 p.0, take_digits-All s p.1) refl

take_digits-dash :
    (s rest : Text) → All IsDigit s → take_digits (s ++ (b'-' ∷ rest)) ≡ (s, b'-' ∷ rest)
unfolding take_digits is_digit
take_digits-dash [] rest p = refl
take_digits-dash (c ∷ s) rest p = rw ((is_digit-IsDigit c).1 p.0, take_digits-dash s rest p.1) refl

-- The test of a range that was read, or not.
abbrev holds : ℕ → Option PortRange → Bool
holds port none = false
holds port (some range) = leb range.start port && leb port range.end

covers-holds :
    (port : ℕ) (policy : Text) → covers port policy ≡ holds port (parse_port_range policy)
unfolding covers
covers-holds port policy = elim (Option-cases (parse_port_range policy)) [
  | inl bad ↦ rw (bad, covers) refl
  | inr (range, e) ↦ rw (e, covers) refl
]

checked_range-holds :
    (port : ℕ) (start end : Text)
    → (holds port (checked_range (number_from 0 start) (number_from 0 end)) ≡ true)
      ↔ ((value end ≤ 65535) × ((value start ≤ port) × (port ≤ value end)))
unfolding checked_range
checked_range-holds port start end =
    rw (number_value start, number_value end)
      (λ h. ground arith, λ p. ground (arith, p.0, p.1.0, p.1.1))

is_port_number_iff :
    (digits : Text) → (is_port_number digits ≡ true) ↔ ((1 ≤ length digits) × (length digits ≤ 5))
unfolding is_port_number
is_port_number_iff digits = (λ h. ground arith, λ p. ground arith)

module _ (port : ℕ) where
  second_port_sound :
      (start : Text) (next : Text × Text)
      → holds port (second_port start next) ≡ true
      → (next.1 ≡ [])
        × ((1 ≤ length next.0) × (length next.0 ≤ 5))
        × ((value next.0 ≤ 65535) × ((value start ≤ port) × (port ≤ value next.0)))
  unfolding second_port
  second_port_sound start (digits, c ∷ rest) h = absurd (cc)
  second_port_sound start (digits, []) h = elim (Bool-cases (is_port_number digits)) [
    | inr bad ↦ absurd (let g = rw (bad, second_port) at h in cc)
    | inl good ↦ (
      refl,
      (is_port_number_iff digits).0 good,
      (checked_range-holds port start digits).0 (rw (good, second_port) at h),
    )
  ]

  after_port_sound :
      (start rest : Text)
      → IsNumber start
      → holds port (after_port start rest) ≡ true
      → (end : Text) × (((rest ≡ []) × (end ≡ start)) ⊎ (rest ≡ b'-' ∷ end))
        × IsNumber end
        × (value end ≤ 65535)
        × (value start ≤ port)
        × (port ≤ value end)
  unfolding after_port
  after_port_sound start [] n h =
      let bounds = (checked_range-holds port start start).0 h in
      (start, inl (refl, refl), n, bounds.0, bounds.1.0, bounds.1.1)
  after_port_sound start (c ∷ rest) n h = elim (Bool-cases (eqb c b'-')) [
    | inr other ↦ absurd (let g = rw (other, after_port) at h in cc)
    | inl dash ↦
        let same : c ≡ b'-' = ground arith in
        let end = (take_digits rest).0 in
        let (nothing, size, bounds) =
          second_port_sound start (take_digits rest) (rw (dash, after_port) at h) in
        let split = take_digits-split rest in
        let whole : rest ≡ end = split.0 ∙ ap (λ t. end ++ t) nothing ∙ append-nil end in
        (
          end,
          inr (ap (λ d. d ∷ rest) same ∙ ap (λ t. b'-' ∷ t) whole),
          (split.1, size),
          bounds.0,
          bounds.1.0,
          bounds.1.1,
        )
  ]

  parse_sound : (policy : Text) → holds port (parse_port_range policy) ≡ true → Covers port policy
  unfolding parse_port_range
  parse_sound policy h =
      let start = (take_digits (trim policy)).0 in
      let rest = (take_digits (trim policy)).1 in
      let split = take_digits-split (trim policy) in
      elim (Bool-cases (is_port_number start)) [
        | inr bad ↦ absurd (let g = rw (bad, parse_port_range) at h in cc)
        | inl good ↦
            let number : IsNumber start = (split.1, (is_port_number_iff start).0 good) in
            let (end, shape, ended, most, above, below) =
              after_port_sound start rest number (rw (good, parse_port_range) at h) in
            (
              start,
              end,
              elim shape [
                | inl (nothing, same) ↦
                    inl (split.0 ∙ ap (λ t. start ++ t) nothing ∙ append-nil start, same)
                | inr dash ↦ inr (split.0 ∙ ap (λ t. start ++ t) dash)
              ],
              number,
              ended,
              most,
              above,
              below,
            )
      ]

  Covers-parse : (policy : Text) → Covers port policy → holds port (parse_port_range policy) ≡ true
  unfolding parse_port_range after_port second_port
  Covers-parse policy (start, end, inl (whole, same), number, ended, most, above, below) =
      let fits = (is_port_number_iff start).1 number.1 in
      let bounds : (value start ≤ 65535) × ((value start ≤ port) × (port ≤ value start)) =
        subst (λ e. (value e ≤ 65535) × ((value start ≤ port) × (port ≤ value e))) same
          (most, (above, below)) in
      rw (whole, take_digits-All start number.0, fits, parse_port_range)
        ((checked_range-holds port start start).1 bounds)
  Covers-parse policy (start, end, inr dash, number, ended, most, above, below) =
      let fits = (is_port_number_iff start).1 number.1 in
      let fits_end = (is_port_number_iff end).1 ended.1 in
      rw (dash, take_digits-dash start end number.0, fits, parse_port_range)
        (rw (take_digits-All end ended.0, fits_end)
          ((checked_range-holds port start end).1 (most, (above, below))))

  covers_iff : (policy : Text) → (covers port policy ≡ true) ↔ Covers port policy
  covers_iff policy = (
    λ h. parse_sound policy (sym (covers-holds port policy) ∙ h),
    λ c. covers-holds port policy ∙ Covers-parse policy c,
  )

-- A port matches a list of policies exactly when the text of one of them, without the white space
-- around it, is a number of one to five digits that is the port, or two such numbers with a dash
-- between them and the port in the range from the first to the second; the last number is at most
-- 65535.
pub matches_port_policy_iff :
    (port : ℕ) (policies : List Text)
    → (matches_port_policy port policies ≡ true) ↔ AnyOf (Covers port) policies
unfolding matches_port_policy
matches_port_policy_iff port policies = (
  λ h.
      AnyOf-map _ (Covers port) (λ p. (covers_iff port p).0) policies
        ((any-AnyOf (covers port) policies).0 h),
  λ h.
      (any-AnyOf (covers port) policies).1
        (AnyOf-map (Covers port) _ (λ p. (covers_iff port p).1) policies h),
)
