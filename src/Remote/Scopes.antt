-- ===== src/Remote/Scopes.antt =====
-- The scopes of a token and the capabilities that they grant: src/remote/scopes.ts and the tables
-- of src/remote/types.ts. A scope and a capability are the strings that the source's unions of
-- literals list.
use oaslananka_lab_mcp_ssh_t.Prelude.{
  ◌≡◌, refl, sym, subst, ◌∙◌, ◌↔◌, ◌⊎◌, inl, inr, Bool, true, false, ◌||◌, Option, none, some, List,
  [], ◌∷◌, ◌++◌, map, arith, if◌then◌else◌, Bool-cases, Option-cases, any, keep, All, AnyOf,
}
use oaslananka_lab_mcp_ssh_t.Text.{Text, codes, text_eq, text_eq_iff}
use oaslananka_lab_mcp_ssh_t.HostKeys.KnownHosts.{words}
use oaslananka_lab_mcp_ssh_t.Policy.Engine.{unique_from, truthy}

-- `xs.includes(x)`
abbrev pub includes : List Text → Text → Bool
includes xs x = any (λ y. text_eq y x) xs

abbrev pub remote_capabilities : List Text
remote_capabilities =
    codes "hosts.read"
    ∷ codes "agents.read"
    ∷ codes "agents.admin"
    ∷ codes "system.read"
    ∷ codes "logs.read"
    ∷ codes "service.manage"
    ∷ codes "docker.manage"
    ∷ codes "files.read"
    ∷ codes "files.write"
    ∷ codes "shell.exec"
    ∷ codes "sudo.exec"
    ∷ codes "agent.admin"
    ∷ codes "audit.read"
    ∷ []

abbrev scope_capability_map : List (Text × List Text)
scope_capability_map =
    (codes "hosts:read", codes "hosts.read" ∷ [])
    ∷ (codes "agents:read", codes "agents.read" ∷ [])
    ∷ (codes "agents:admin", codes "agents.admin" ∷ codes "agent.admin" ∷ codes "audit.read" ∷ [])
    ∷ (codes "status:read", codes "system.read" ∷ [])
    ∷ (codes "logs:read", codes "logs.read" ∷ [])
    ∷ (codes "service:manage", codes "service.manage" ∷ [])
    ∷ (codes "docker:manage", codes "docker.manage" ∷ [])
    ∷ (codes "files:read", codes "files.read" ∷ [])
    ∷ (codes "files:write", codes "files.write" ∷ [])
    ∷ (codes "shell:exec", codes "shell.exec" ∷ [])
    ∷ (codes "sudo:exec", codes "sudo.exec" ∷ [])
    ∷ []

abbrev pub remote_scopes : List Text
remote_scopes =
    codes "hosts:read"
    ∷ codes "agents:read"
    ∷ codes "agents:admin"
    ∷ codes "status:read"
    ∷ codes "logs:read"
    ∷ codes "service:manage"
    ∷ codes "docker:manage"
    ∷ codes "files:read"
    ∷ codes "files:write"
    ∷ codes "shell:exec"
    ∷ codes "sudo:exec"
    ∷ []

unfoldable pub parse_scopes : Option Text → List Text
parse_scopes scope = elim (truthy scope) [
  | none ↦ []
  | some text ↦ keep (includes remote_scopes) (words text)
]

-- An entry of the table; `none` is undefined.
unfoldable pub capabilities_of : Text → List (Text × List Text) → Option (List Text)
capabilities_of scope [] = none
capabilities_of scope ((name, capabilities) ∷ rest) =
    if text_eq name scope then some capabilities else capabilities_of scope rest

-- The set grows by the capabilities of each scope; a scope that is not in the table is an error.
unfoldable pub add_capabilities : List Text → List Text → Option (List Text)
add_capabilities seen [] = some seen
add_capabilities seen (scope ∷ scopes) = elim (capabilities_of scope scope_capability_map) [
  | none ↦ none
  | some capabilities ↦ add_capabilities (unique_from seen capabilities) scopes
]

unfoldable pub capabilities_from_scopes : List Text → Option (List Text)
capabilities_from_scopes scopes = add_capabilities [] scopes

unfoldable pub has_capability : List Text → Text → Bool
has_capability capabilities capability = includes capabilities capability

-- The scope is in the table and grants the capability.
abbrev pub Grants : Text → Text → Type 0
Grants capability scope =
    (granted : List Text) × (capabilities_of scope scope_capability_map ≡ some granted)
    × (includes granted capability ≡ true)

includes-append :
    (xs ys : List Text) (x : Text) → includes (xs ++ ys) x ≡ (includes xs x || includes ys x)
includes-append [] ys x = refl
includes-append (y ∷ xs) ys x = ground (arith, includes-append xs ys x)

swap : (x y : Text) → text_eq x y ≡ text_eq y x
swap x y = ground (arith, text_eq_iff x y, text_eq_iff y x)

includes-seen :
    (seen : List Text) (x y : Text)
    → any (text_eq y) seen ≡ true
    → text_eq y x ≡ true
    → includes seen x ≡ true
includes-seen [] x y h e = cc
includes-seen (z ∷ seen) x y h e =
    ground (arith, text_eq_iff y z, text_eq_iff y x, text_eq_iff z x, includes-seen seen x y)

includes-unique_from :
    (seen xs : List Text) (x : Text)
    → includes (unique_from seen xs) x ≡ (includes seen x || includes xs x)
unfolding unique_from
includes-unique_from seen [] x = ground arith
includes-unique_from seen (y ∷ xs) x = elim (Bool-cases (any (text_eq y) seen)) [
  | inl old ↦ rw old (
      let rest = includes-unique_from seen xs x in
      let held = includes-seen seen x y old in ground (arith, rest, held))
  | inr new ↦ rw new (
      let rest = includes-unique_from (seen ++ (y ∷ [])) xs x in
      let more = includes-append seen (y ∷ []) x in ground (arith, rest, more))
]

entry_of :
    (table : List (Text × List Text)) (scope : Text)
    → includes (map (λ entry. entry.0) table) scope ≡ true
    → (granted : List Text) × (capabilities_of scope table ≡ some granted)
unfolding capabilities_of
entry_of [] scope h = cc
entry_of ((name, capabilities) ∷ rest) scope h = elim (Bool-cases (text_eq name scope)) [
  | inl same ↦ (capabilities, rw same refl)
  | inr other ↦ rw other (entry_of rest scope (rw other at h))
]

either_of : (a b : Bool) → (a || b) ≡ true → (a ≡ true) ⊎ (b ≡ true)
either_of true b h = inl refl
either_of false b h = inr h

add_capabilities-Grants :
    (seen scopes : List Text)
    → All (λ scope. includes remote_scopes scope ≡ true) scopes
    → (capabilities : List Text) × (add_capabilities seen scopes ≡ some capabilities)
      × ((c : Text)
          → (includes capabilities c ≡ true) ↔ ((includes seen c ≡ true) ⊎ AnyOf (Grants c) scopes))
unfolding add_capabilities
add_capabilities-Grants seen [] h =
    (seen, refl, λ c. (λ i. inl i, λ i. elim i [ inl j ↦ j | inr e ↦ absurd e ]))
add_capabilities-Grants seen (scope ∷ scopes) h =
    let (granted, e) = entry_of scope_capability_map scope h.0 in
    let (capabilities, f, i) = add_capabilities-Grants (unique_from seen granted) scopes h.1 in
    (
      capabilities,
      rw (e, add_capabilities) f,
      λ c. (
        λ h. elim ((i c).0 h) [
          | inl new ↦ elim (either_of _ _ (sym (includes-unique_from seen granted c) ∙ new)) [
            | inl old ↦ inl old
            | inr g ↦ inr (inl (granted, e, g))
          ]
          | inr later ↦ inr (inr later)
        ],
        λ h. elim h [
          | inl old ↦ (i c).1 (inl (includes-unique_from seen granted c ∙ rw old refl))
          | inr (inl (other, f, g)) ↦
              let same : other ≡ granted = cc (e, f) in
              let held : includes granted c ≡ true = subst (λ l. includes l c ≡ true) same g in
              (i c).1 (inl (includes-unique_from seen granted c ∙ ground (arith, held)))
          | inr (inr later) ↦ (i c).1 (inr later)
        ],
      ),
    )

words_kept :
    (xs : List Text)
    → All (λ scope. includes remote_scopes scope ≡ true) (keep (includes remote_scopes) xs)
unfolding keep
words_kept [] = tt
words_kept (x ∷ xs) = elim (Bool-cases (includes remote_scopes x)) [
  | inl known ↦ rw known (known, words_kept xs)
  | inr unknown ↦ rw unknown (words_kept xs)
]

parse_scopes-known :
    (scope : Option Text) → All (λ s. includes remote_scopes s ≡ true) (parse_scopes scope)
unfolding parse_scopes
parse_scopes-known scope = elim (Option-cases (truthy scope)) [
  | inl missing ↦ rw (missing, parse_scopes) tt
  | inr (text, e) ↦ rw (e, parse_scopes) (words_kept (words text))
]

-- Whatever the scope string of a token, the capabilities that it gives are found without an error,
-- and a capability is among them exactly when one of the known scopes that the string lists grants
-- it.
pub capabilities_from_scopes-Grants :
    (scope : Option Text)
    → (capabilities : List Text) × (capabilities_from_scopes (parse_scopes scope)
        ≡ some capabilities)
      × ((c : Text)
          → (has_capability capabilities c ≡ true) ↔ AnyOf (Grants c) (parse_scopes scope))
unfolding capabilities_from_scopes has_capability
capabilities_from_scopes-Grants scope =
    let (capabilities, e, i) =
      add_capabilities-Grants [] (parse_scopes scope) (parse_scopes-known scope) in
    (
      capabilities,
      e,
      λ c. (λ h. elim ((i c).0 h) [ inl old ↦ cc | inr g ↦ g ], λ g. (i c).1 (inr g)),
    )
