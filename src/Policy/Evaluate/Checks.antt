-- ===== src/Policy/Evaluate/Checks.antt =====
-- What it means that each guard of src/policy.ts lets a context pass.
use oaslananka_lab_mcp_ssh_t.Prelude.{
  ℕ, String, ◌≡◌, refl, ◌↔◌, ◌⊎◌, inl, inr, Bool, true, false, not, ◌&&◌, ◌||◌, Option, none, some,
  List, [], ◌∷◌, arith, Bool-cases, any, All, AnyOf, any-AnyOf, AnyOf-map,
}
use oaslananka_lab_mcp_ssh_t.Policy.Ports.{matches_port_policy}
use oaslananka_lab_mcp_ssh_t.Policy.Ports.Ranges.{Covers, matches_port_policy_iff}
use oaslananka_lab_mcp_ssh_t.Text.{Text, codes, text_eq, text_eq_iff}
use oaslananka_lab_mcp_ssh_t.Policy.Engine.{
  PolicyConfig, Reason, command_denied, command_not_allowed, ◌or_else◌, is_some_list, deny_if,
}
use oaslananka_lab_mcp_ssh_t.Policy.Safety.{check_command_safety}
use oaslananka_lab_mcp_ssh_t.Policy.Evaluate.{
  first_denial, when_some, matches_any, matches_policy_value, host_check, bind_host_check,
  remote_host_check, port_check, root_check, sudo_check, command_check,
}

or_else-eq-none_iff : (a b : Option Reason) → ((a or_else b) ≡ none) ↔ ((a ≡ none) × (b ≡ none))
or_else-eq-none_iff none b = (λ h. (refl, h), λ h. h.1)
or_else-eq-none_iff (some r) b = (λ h. cc, λ h. cc)

pub when_some-eq-none_iff {ℓ} :
    {A : Type ℓ} (o : Option A) (check : A → Option Reason)
    → (when_some o check ≡ none) ↔ ((a : A) → o ≡ some a → check a ≡ none)
when_some-eq-none_iff none check = (λ h a e. cc, λ h. refl)
when_some-eq-none_iff (some b) check = (λ h a e. ground arith, λ h. h b refl)

pub first_denial-eq-none_iff {ℓ} :
    {A : Type ℓ} (check : A → Option Reason) (xs : List A)
    → (first_denial check xs ≡ none) ↔ All (λ x. check x ≡ none) xs
unfolding first_denial
first_denial-eq-none_iff check [] = (λ h. tt, λ h. refl)
first_denial-eq-none_iff check (x ∷ xs) =
    let both = or_else-eq-none_iff (check x) (first_denial check xs) in
    (
      λ h. ((both.0 h).0, (first_denial-eq-none_iff check xs).0 (both.0 h).1),
      λ h. both.1 (h.0, (first_denial-eq-none_iff check xs).1 h.1),
    )

pub not_any_iff : (b : Bool) {P : Type 0} → (b ≡ true) ↔ P → (b ≡ false) ↔ (¬ P)
not_any_iff true i = (λ h. cc, λ n. absurd (n (i.0 refl)))
not_any_iff false i = (λ h p. cc (i.1 p), λ n. refl)

-- A list that denies what it matches.
deny_list_iff {ℓ} :
    {A : Type ℓ} (p : A → Bool) (xs : List A) (r : Reason) {P : Type 0}
    → (any p xs ≡ true) ↔ P
    → (deny_if (is_some_list xs && any p xs) r ≡ none) ↔ (¬ P)
deny_list_iff p [] r i = (λ h q. cc (i.1 q), λ n. refl)
deny_list_iff p (x ∷ xs) r i =
    let neg = not_any_iff (any p (x ∷ xs)) i in
    (λ h. neg.0 (ground arith), λ n. ground (arith, neg.1 n))

-- A list that, where it is not empty, denies what it does not match.
allow_list_iff {ℓ} :
    {A : Type ℓ} (p : A → Bool) (xs : List A) (r : Reason) {P : Type 0}
    → (any p xs ≡ true) ↔ P
    → (deny_if (is_some_list xs && not (any p xs)) r ≡ none) ↔ ((xs ≡ []) ⊎ P)
allow_list_iff p [] r i = (λ h. inl refl, λ n. refl)
allow_list_iff p (x ∷ xs) r i =
    (λ h. inr (i.0 (ground arith)), λ n. elim n [ inl e ↦ cc | inr q ↦ ground (arith, i.1 q) ])

pub two_lists_iff :
    (a b : Option Reason) {P Q : Type 0}
    → (a ≡ none) ↔ P
    → (b ≡ none) ↔ Q
    → ((a or_else b) ≡ none) ↔ (P × Q)
two_lists_iff a b i j =
    let both = or_else-eq-none_iff a b in
    (λ h. (i.0 (both.0 h).0, j.0 (both.0 h).1), λ h. both.1 (i.1 h.0, j.1 h.1))

unsafe_iff :
    (safe destructive : Bool) (r : Reason)
    → (deny_if (not safe && not destructive) r ≡ none) ↔ ((safe ≡ true) ⊎ (destructive ≡ true))
unsafe_iff safe destructive r = (λ h. ground arith, λ p. ground arith)

module _ (regex : Text → Text → Bool) where
  -- A policy is the value itself, or a pattern that matches it.
  abbrev pub Names : Text → Text → Type 0
  Names value policy = (policy ≡ value) ⊎ (regex policy value ≡ true)

  Names-iff :
      (value policy : Text)
      → ((text_eq policy value || matches_any regex value (policy ∷ [])) ≡ true)
        ↔ Names value policy
  unfolding matches_any
  Names-iff value policy = (
    λ h. ground (arith, (text_eq_iff policy value).0),
    λ h. ground (arith, (text_eq_iff policy value).1),
  )

  matches_policy_value_iff :
      (value : Text) (policies : List Text)
      → (matches_policy_value regex value policies ≡ true) ↔ AnyOf (Names value) policies
  unfolding matches_policy_value
  matches_policy_value_iff value policies = (
    λ h.
        AnyOf-map _ (Names value) (λ p. (Names-iff value p).0) policies
          ((any-AnyOf _ policies).0 h),
    λ h.
        (any-AnyOf _ policies).1
          (AnyOf-map (Names value) _ (λ p. (Names-iff value p).1) policies h),
  )

  matches_any_iff :
      (value : Text) (patterns : List Text)
      → (matches_any regex value patterns ≡ true)
        ↔ AnyOf (λ pattern. regex pattern value ≡ true) patterns
  unfolding matches_any
  matches_any_iff value patterns = any-AnyOf (λ pattern. regex pattern value) patterns

  -- None of the denied policies names the value, and if some are allowed then one of them does.
  abbrev pub Passes : Text → List Text → List Text → Type 0
  Passes value deny allow =
      (¬ AnyOf (Names value) deny) × ((allow ≡ []) ⊎ AnyOf (Names value) allow)

  pub host_check_iff :
      (c : PolicyConfig) (host : Text)
      → (host_check regex c host ≡ none)
        ↔ ((c.allowed_hosts ≡ []) ⊎ AnyOf (Names host) c.allowed_hosts)
  unfolding host_check matches_policy_value
  host_check_iff c host =
      allow_list_iff _ c.allowed_hosts _ (matches_policy_value_iff host c.allowed_hosts)

  pub bind_host_check_iff :
      (c : PolicyConfig) (host : Text)
      → (bind_host_check regex c host ≡ none)
        ↔ Passes host c.tunnel_deny_bind_hosts c.tunnel_allow_bind_hosts
  unfolding bind_host_check matches_policy_value
  bind_host_check_iff c host =
      two_lists_iff _ _
        (deny_list_iff _ c.tunnel_deny_bind_hosts _
          (matches_policy_value_iff host c.tunnel_deny_bind_hosts))
        (allow_list_iff _ c.tunnel_allow_bind_hosts _
          (matches_policy_value_iff host c.tunnel_allow_bind_hosts))

  pub remote_host_check_iff :
      (c : PolicyConfig) (host : Text)
      → (remote_host_check regex c host ≡ none)
        ↔ Passes host c.tunnel_deny_remote_hosts c.tunnel_allow_remote_hosts
  unfolding remote_host_check matches_policy_value
  remote_host_check_iff c host =
      two_lists_iff _ _
        (deny_list_iff _ c.tunnel_deny_remote_hosts _
          (matches_policy_value_iff host c.tunnel_deny_remote_hosts))
        (allow_list_iff _ c.tunnel_allow_remote_hosts _
          (matches_policy_value_iff host c.tunnel_allow_remote_hosts))

  -- The patterns and the safety table let the command pass.
  abbrev pub CommandPasses : (String → Text → Bool) → PolicyConfig → Text → Type 0
  CommandPasses safety_test c command =
      (¬ AnyOf (λ pattern. regex pattern command ≡ true) c.command_deny)
      × ((c.command_allow ≡ []) ⊎ AnyOf (λ pattern. regex pattern command ≡ true) c.command_allow)
      × (((check_command_safety safety_test command).safe ≡ true)
          ⊎ (c.allow_destructive_commands ≡ true))

  pub command_check_iff :
      (safety_test : String → Text → Bool) (c : PolicyConfig) (command : Text)
      → (command_check regex safety_test c command ≡ none) ↔ CommandPasses safety_test c command
  unfolding command_check matches_any
  command_check_iff safety_test c command =
      let safety = (check_command_safety safety_test command).safe in
      let lists =
        two_lists_iff _ _
          (deny_list_iff (λ pattern. regex pattern command) c.command_deny command_denied
            (matches_any_iff command c.command_deny))
          (two_lists_iff _ _
            (allow_list_iff (λ pattern. regex pattern command) c.command_allow command_not_allowed
              (matches_any_iff command c.command_allow))
            (unsafe_iff safety c.allow_destructive_commands _)) in
      (
        λ h. let parts = lists.0 h in (parts.0, parts.1.0, parts.1.1),
        λ p. lists.1 (p.0, (p.1, p.2)),
      )

-- Every range that a denied policy names leaves the port out, and if some are allowed one holds it.
abbrev pub PortPasses : PolicyConfig → ℕ → Type 0
PortPasses c port =
    (¬ AnyOf (Covers port) c.tunnel_deny_ports)
    × ((c.tunnel_allow_ports ≡ []) ⊎ AnyOf (Covers port) c.tunnel_allow_ports)

pub port_check_iff : (c : PolicyConfig) (port : ℕ) → (port_check c port ≡ none) ↔ PortPasses c port
unfolding port_check matches_port_policy
port_check_iff c port =
    two_lists_iff _ _
      (deny_list_iff _ c.tunnel_deny_ports _ (matches_port_policy_iff port c.tunnel_deny_ports))
      (allow_list_iff _ c.tunnel_allow_ports _ (matches_port_policy_iff port c.tunnel_allow_ports))

pub root_check_iff :
    (c : PolicyConfig) (username : Text)
    → (root_check c username ≡ none) ↔ (username ≡ codes "root" → c.allow_root_login ≡ true)
unfolding root_check
root_check_iff c username =
    let same = text_eq_iff username (codes "root") in
    (
      λ h e. ground (arith, same.1 e),
      λ f. elim (Bool-cases (text_eq username (codes "root"))) [
        | inl is_root ↦ ground (arith, f (same.0 is_root))
        | inr other ↦ ground arith
      ],
    )

pub sudo_check_iff :
    (c : PolicyConfig) (raw : Bool)
    → (sudo_check c raw ≡ none) ↔ (raw ≡ true → c.allow_raw_sudo ≡ true)
unfolding sudo_check
sudo_check_iff c true = (λ h e. ground arith, λ f. ground (arith, f refl))
sudo_check_iff c false = (λ h e. cc, λ f. refl)
