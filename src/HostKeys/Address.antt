-- ===== src/HostKeys/Address.antt =====
-- The addresses under which src/session.ts keeps the host keys that it has accepted.
use oaslananka_lab_mcp_ssh_t.Prelude.{
  ℕ, zero, suc, ◌+◌, ◌-◌, ◌*◌, ◌/◌, ◌%◌, ◌≤◌, ◌<◌, ◌≡◌, refl, sym, ap, ◌∙◌, inl, inr, [], ◌∷◌, ◌++◌,
  arith, ltb, Bool-cases, All, All-append,
}
use oaslananka_lab_mcp_ssh_t.Text.{Text}
use oaslananka_lab_mcp_ssh_t.HostKeys.{digits_by, decimal, address}

-- The number that digits write, behind a number.
value_from : ℕ → Text → ℕ
value_from n [] = n
value_from n (c ∷ s) = value_from (10 * n + (c - b'0')) s

value_from-append : (n : ℕ) (a b : Text) → value_from n (a ++ b) ≡ value_from (value_from n a) b
unfolding value_from
value_from-append n [] b = refl
value_from-append n (c ∷ a) b = value_from-append (10 * n + (c - b'0')) a b

IsDigits : Text → Type 0
IsDigits = All (λ c. (b'0' ≤ c) × (c ≤ b'9'))

digits_by-IsDigits : (fuel n : ℕ) → IsDigits (digits_by fuel n)
unfolding digits_by IsDigits
digits_by-IsDigits zero n = tt
digits_by-IsDigits (suc fuel) n = elim (Bool-cases (ltb n 10)) [
  | inl small ↦ rw small ((omega arith, ground arith), tt)
  | inr large ↦ rw large (
      All-append _ (digits_by fuel (n / 10)) _ (digits_by-IsDigits fuel (n / 10))
        ((omega arith, omega arith), tt))
]

-- The fuel is enough if it is larger than the number.
value_from-digits_by : (fuel n : ℕ) → n < fuel → value_from 0 (digits_by fuel n) ≡ n
unfolding digits_by value_from
value_from-digits_by zero n h = absurd (omega arith)
value_from-digits_by (suc fuel) n h = elim (Bool-cases (ltb n 10)) [
  | inl small ↦ rw small (omega arith)
  | inr large ↦
      let front = value_from-digits_by fuel (n / 10) (ground arith) in
      rw large (
        value_from-append 0 (digits_by fuel (n / 10)) ((b'0' + n % 10) ∷ [])
        ∙ rw front (omega arith))
]

decimal-injective : (m n : ℕ) → decimal m ≡ decimal n → m ≡ n
unfolding decimal
decimal-injective m n e =
    sym (value_from-digits_by (suc m) m (omega arith))
    ∙ ap (value_from 0) e
    ∙ value_from-digits_by (suc n) n (omega arith)

no_colon : (d h e : Text) → IsDigits d → d ≡ h ++ (b':' ∷ e) → ⊥
unfolding IsDigits
no_colon [] [] e p q = cc
no_colon [] (x ∷ h) e p q = cc
no_colon (c ∷ d) [] e p q = ground arith
no_colon (c ∷ d) (x ∷ h) e p q = no_colon d h e p.1 (ground arith)

-- The last colon of an address stands before the digits.
split-injective :
    (g h d e : Text)
    → IsDigits d
    → IsDigits e
    → g ++ (b':' ∷ d) ≡ h ++ (b':' ∷ e)
    → (g ≡ h) × (d ≡ e)
split-injective [] [] d e p q same = (refl, ground arith)
split-injective [] (x ∷ h) d e p q same = absurd (no_colon d h e p (ground arith))
split-injective (x ∷ g) [] d e p q same = absurd (no_colon e g d q (ground arith))
split-injective (x ∷ g) (y ∷ h) d e p q same =
    let rest = split-injective g h d e p q (ground arith) in
    let first : x ≡ y = ground arith in (rw (first, rest.0) refl, rest.1)

-- Servers that differ in their host or their port have different addresses, whatever the host's
-- text is, so an accepted key is never taken for another server's.
pub address-injective : (g h : Text) (m n : ℕ) → address g m ≡ address h n → (g ≡ h) × (m ≡ n)
unfolding address decimal
address-injective g h m n e =
    let (hosts, ports) =
      split-injective g h (digits_by (suc m) m) (digits_by (suc n) n) (digits_by-IsDigits (suc m) m)
        (digits_by-IsDigits (suc n) n) e in
    (hosts, decimal-injective m n ports)
