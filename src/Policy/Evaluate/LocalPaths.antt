-- ===== src/Policy/Evaluate/LocalPaths.antt =====
-- What the guard of local paths of src/policy.ts means for the prefixes of the configuration.
use oaslananka_lab_mcp_ssh_t.Prelude.{
  ◌≡◌, refl, sym, subst, ◌∙◌, ◌↔◌, ◌⊎◌, inl, inr, Bool, true, false, not, Option, none, some, List,
  [], ◌∷◌, ◌++◌, append_assoc, arith, Bool-cases, Option-cases, any, AnyOf, any-AnyOf, AnyOf-map,
}
use oaslananka_lab_mcp_ssh_t.Text.{starts_with_iff, starts_with, text_eq_iff, text_eq, Text}
use oaslananka_lab_mcp_ssh_t.Policy.Paths.{root_of, is_segment_boundary_path_match, is_path_under}
use oaslananka_lab_mcp_ssh_t.Policy.Engine.{
  normalize_policy_paths, create, local_outside, local_no_prefixes, local_denied, is_some_list,
  PolicyConfig, PolicyEngine, Reason, ◌or_else◌, deny_if,
}
use oaslananka_lab_mcp_ssh_t.Policy.Evaluate.{local_path_check, under_any}
use oaslananka_lab_mcp_ssh_t.Policy.Evaluate.Prefixes.{
  create_parts, any-normalize_local, normal_form_test,
}
use oaslananka_lab_mcp_ssh_t.Policy.Evaluate.Checks.{not_any_iff}

-- A normalised path is a normalised prefix or continues it behind a slash; the root and the empty
-- text hold every path.
abbrev Inside : Text → Text → Type 0
Inside n prefix =
    (prefix ≡ [])
    ⊎ ((prefix ≡ b'/' ∷ []) ⊎ ((n ≡ prefix) ⊎ ((rest : Text) × (n ≡ prefix ++ (b'/' ∷ rest)))))

-- The normal form of one of the prefixes holds the normalised path.
abbrev InsideOne : (Text → Option Text) → Text → List Text → Type 0
InsideOne normalize_local n =
    AnyOf (λ prefix. (p : Text) × (normalize_local prefix ≡ some p) × Inside n p)

-- A local path can be normalised, and its normal form lies inside an allowed prefix of the
-- configuration and inside no denied one.
abbrev pub LocalPathPasses : (Text → Option Text) → PolicyConfig → Text → Type 0
LocalPathPasses normalize_local c path =
    (n : Text) × (normalize_local path ≡ some n)
    × (¬ InsideOne normalize_local n c.local_path_deny_prefixes)
    × InsideOne normalize_local n c.local_path_allow_prefixes

local_tests_iff :
    (denied given under : Bool) (r s t : Reason)
    → ((deny_if denied r or_else deny_if (not given) s or_else deny_if (not under) t) ≡ none)
      ↔ ((denied ≡ false) × (given ≡ true) × (under ≡ true))
local_tests_iff denied given under r s t = (λ h. ground arith, λ p. ground arith)

given_of_any {ℓ} :
    {A : Type ℓ} (p : A → Bool) (xs : List A) → any p xs ≡ true → is_some_list xs ≡ true
given_of_any p [] h = cc
given_of_any p (x ∷ xs) h = refl

root_of-cases : (prefix : Text) → (root_of prefix ≡ []) ⊎ (root_of prefix ≡ b'/' ∷ [])
root_of-cases prefix = elim (Bool-cases (starts_with (b'/' ∷ []) prefix)) [
  | inl rooted ↦ inr (rw rooted refl)
  | inr other ↦ inl (rw other refl)
]

is_path_under-Inside : (n prefix : Text) → is_path_under n prefix b'/' ≡ true → Inside n prefix
unfolding is_path_under is_segment_boundary_path_match
is_path_under-Inside n prefix h = elim (Bool-cases (text_eq prefix (b'/' ∷ []))) [
  | inl root ↦ inr (inl ((text_eq_iff _ _).0 root))
  | inr e1 ↦ elim (Bool-cases (text_eq prefix (root_of prefix))) [
    | inl same ↦ elim (root_of-cases prefix) [
      | inl empty ↦ inl ((text_eq_iff _ _).0 same ∙ empty)
      | inr root ↦ inr (inl ((text_eq_iff _ _).0 same ∙ root))
    ]
    | inr e2 ↦ elim (Bool-cases (text_eq n prefix)) [
      | inl equal ↦ inr (inr (inl ((text_eq_iff _ _).0 equal)))
      | inr e3 ↦
          let starts : starts_with (prefix ++ (b'/' ∷ [])) n ≡ true =
            rw (e1, e2, e3, is_path_under, is_segment_boundary_path_match) at h in
          let (rest, e) = (starts_with_iff (prefix ++ (b'/' ∷ [])) n).0 starts in
          inr (inr (inr (rest, e ∙ append_assoc prefix (b'/' ∷ []) rest)))
    ]
  ]
]

Inside-is_path_under : (n prefix : Text) → Inside n prefix → is_path_under n prefix b'/' ≡ true
unfolding is_path_under is_segment_boundary_path_match starts_with text_eq
Inside-is_path_under n prefix (inl empty) = rw empty refl
Inside-is_path_under n prefix (inr (inl root)) = rw root refl
Inside-is_path_under n prefix (inr (inr (inl same))) =
    let equal = (text_eq_iff n prefix).1 same in ground (arith, equal)
Inside-is_path_under n prefix (inr (inr (inr (rest, e)))) =
    let starts =
      (starts_with_iff (prefix ++ (b'/' ∷ [])) n).1
        (rest, e ∙ sym (append_assoc prefix (b'/' ∷ []) rest)) in
    ground (arith, starts)

module _ (normalize_local : Text → Option Text) (n : Text) where
  normal_form-Inside :
      (prefix : Text)
      → (normal_form_test normalize_local (λ p. is_path_under n p b'/') prefix ≡ true)
        ↔ ((p : Text) × (normalize_local prefix ≡ some p) × Inside n p)
  normal_form-Inside prefix = elim (Option-cases (normalize_local prefix)) [
    | inl bad ↦ (λ h. absurd (let g = rw (bad, normal_form_test) at h in cc), λ g. cc (bad, g.1))
    | inr (p, found) ↦ (
      λ h. (p, found, is_path_under-Inside n p (rw (found, normal_form_test) at h)),
      λ g.
          let same : g.0 ≡ p = cc (found, g.1) in
          rw (found, normal_form_test) (Inside-is_path_under n p (subst (Inside n) same g.2)),
    )
  ]

  under_any_iff :
      (given ours : List Text)
      → normalize_policy_paths given normalize_local ≡ some ours
      → (under_any n ours ≡ true) ↔ InsideOne normalize_local n given
  under_any_iff given ours made =
      let q = λ (p : Text). is_path_under n p b'/' in
      let same = any-normalize_local normalize_local q given ours made in
      let tests = any-AnyOf (normal_form_test normalize_local q) given in
      (
        λ h.
            AnyOf-map _ (λ prefix. (p : Text) × (normalize_local prefix ≡ some p) × Inside n p)
              (λ prefix. (normal_form-Inside prefix).0) given (tests.0 (sym same ∙ h)),
        λ u.
            same
            ∙ tests.1 (
                AnyOf-map (λ prefix. (p : Text) × (normalize_local prefix ≡ some p) × Inside n p) _
                  (λ prefix. (normal_form-Inside prefix).1) given u),
      )

module _ (normalize_local : Text → Option Text) (c : PolicyConfig) (e : PolicyEngine)
    (made : create normalize_local c ≡ some e) (path : Text) where
  at_normal_form :
      (n : Text)
      → normalize_local path ≡ some n
      → LocalPathPasses normalize_local c path
      → (¬ InsideOne normalize_local n c.local_path_deny_prefixes)
        × InsideOne normalize_local n c.local_path_allow_prefixes
  at_normal_form n found (m, e', d, a) =
      let same : m ≡ n = cc in
      subst
        (λ k.
          (¬ InsideOne normalize_local k c.local_path_deny_prefixes)
          × InsideOne normalize_local k c.local_path_allow_prefixes)
        same (d, a)

  local_path_found :
      (n : Text)
      → normalize_local path ≡ some n
      → (local_path_check normalize_local e path ≡ none) ↔ LocalPathPasses normalize_local c path
  unfolding local_path_check
  local_path_found n found =
      let parts = create_parts normalize_local c e made in
      let tests =
        local_tests_iff (under_any n e.local_path_deny_prefixes)
          (is_some_list e.local_path_allow_prefixes) (under_any n e.local_path_allow_prefixes)
          (local_denied path) local_no_prefixes (local_outside path) in
      let deny =
        under_any_iff normalize_local n c.local_path_deny_prefixes e.local_path_deny_prefixes
          parts.5 in
      let allow =
        under_any_iff normalize_local n c.local_path_allow_prefixes e.local_path_allow_prefixes
          parts.4 in
      let neg = not_any_iff (under_any n e.local_path_deny_prefixes) deny in
      (
        λ h.
            let t = tests.0 (rw (found, local_path_check) at h) in
            (n, found, neg.0 t.0, allow.0 t.2),
        λ p.
            let (d, a) = at_normal_form n found p in
            rw (found, local_path_check)
              (tests.1 (
                neg.1 d,
                given_of_any (λ prefix. is_path_under n prefix b'/') e.local_path_allow_prefixes
                    (allow.1 a),
                allow.1 a,
              )),
      )

  pub local_path_check_iff :
      (local_path_check normalize_local e path ≡ none) ↔ LocalPathPasses normalize_local c path
  unfolding local_path_check
  local_path_check_iff = elim (Option-cases (normalize_local path)) [
    | inl bad ↦ (λ h. cc (rw (bad, local_path_check) at h), λ p. cc (bad, p.1))
    | inr (n, found) ↦ local_path_found n found
  ]
