-- ===== src/Policy/Evaluate/Prefixes.antt =====
-- The prefixes that the constructor of src/policy.ts normalises, against those of the
-- configuration.
use oaslananka_lab_mcp_ssh_t.Prelude.{
  ◌≡◌, refl, sym, subst, ◌∙◌, inl, inr, Bool, true, false, ◌||◌, Option, none, some, List, [], ◌∷◌,
  ◌++◌, arith, if◌then◌else◌, Bool-cases, Option-cases, any,
}
use oaslananka_lab_mcp_ssh_t.Text.{Text, text_eq, text_eq_iff}
use oaslananka_lab_mcp_ssh_t.Text.Posix.{root_path}
use oaslananka_lab_mcp_ssh_t.Policy.Paths.{normalize_remote_posix_path}
use oaslananka_lab_mcp_ssh_t.Policy.Paths.Segments.{normalize_remote-cases, remote_segments}
use oaslananka_lab_mcp_ssh_t.Policy.Evaluate.{allow_prefixes}
use oaslananka_lab_mcp_ssh_t.Policy.Engine.{
  default_allowed_mutation_prefixes, PolicyEngine, PolicyConfig, is_some_list, create, unique_from,
  normalize_all, normalize_policy_paths,
}

any-append {ℓ} :
    {A : Type ℓ} (q : A → Bool) (xs ys : List A) → any q (xs ++ ys) ≡ (any q xs || any q ys)
any-append q [] ys = refl
any-append q (x ∷ xs) ys = ground (arith, any-append q xs ys)

any_of_eq :
    (q : Text → Bool) (x : Text) (seen : List Text)
    → any (text_eq x) seen ≡ true
    → q x ≡ true
    → any q seen ≡ true
any_of_eq q x [] h t = cc
any_of_eq q x (y ∷ seen) h t = elim (Bool-cases (text_eq x y)) [
  | inl same ↦
      let holds : q y ≡ true = subst (λ z. q z ≡ true) ((text_eq_iff x y).0 same) t in ground arith
  | inr other ↦ ground (arith, any_of_eq q x seen)
]

-- Dropping what was there already changes no test of any prefix.
any-unique_from :
    (q : Text → Bool) (seen xs : List Text) → any q (unique_from seen xs) ≡ (any q seen || any q xs)
unfolding unique_from
any-unique_from q seen [] = ground arith
any-unique_from q seen (x ∷ xs) = elim (Bool-cases (any (text_eq x) seen)) [
  | inl old ↦ rw old (ground (arith, any-unique_from q seen xs, any_of_eq q x seen old))
  | inr new ↦
      rw new (ground (arith, any-unique_from q (seen ++ (x ∷ [])) xs, any-append q seen (x ∷ [])))
]

-- The normalised form of a prefix of the configuration.
abbrev pub remote_prefix : Text → Text
remote_prefix prefix = root_path (remote_segments prefix)

any-normalize_all :
    (q : Text → Bool) (ps ns : List Text)
    → normalize_all normalize_remote_posix_path ps ≡ some ns
    → any q ns ≡ any (λ p. q (remote_prefix p)) ps
unfolding normalize_all
any-normalize_all q [] ns h = ground arith
any-normalize_all q (p ∷ ps) ns h = elim (normalize_remote-cases p) [
  | inl (nul, bad) ↦ cc (rw (bad, normalize_all) at h)
  | inr (clean, good) ↦ elim (Option-cases (normalize_all normalize_remote_posix_path ps)) [
    | inl failed ↦ cc (rw (failed, normalize_all) at (rw (good, normalize_all) at h))
    | inr (rest, found) ↦
        let e : some (remote_prefix p ∷ rest) ≡ some ns =
          rw (found, normalize_all) at (rw (good, normalize_all) at h) in
        ground (arith, any-normalize_all q ps rest found)
  ]
]

any-normalize_policy_paths :
    (q : Text → Bool) (ps ns : List Text)
    → normalize_policy_paths ps normalize_remote_posix_path ≡ some ns
    → any q ns ≡ any (λ p. q (remote_prefix p)) ps
unfolding normalize_policy_paths
any-normalize_policy_paths q ps ns h =
    elim (Option-cases (normalize_all normalize_remote_posix_path ps)) [
      | inl failed ↦ cc (rw (failed, normalize_policy_paths) at h)
      | inr (found, e) ↦
          let same : some (unique_from [] found) ≡ some ns = rw (e, normalize_policy_paths) at h in
          ground (arith, any-unique_from q [] found, any-normalize_all q ps found e)
    ]

-- A test of the normalised form of a prefix, when there is one.
abbrev form_test : (Text → Bool) → Option Text → Bool
form_test q none = false
form_test q (some n) = q n

abbrev pub normal_form_test : (Text → Option Text) → (Text → Bool) → Text → Bool
normal_form_test local q prefix = form_test q (local prefix)

any-normalize_all_local :
    (local : Text → Option Text) (q : Text → Bool) (ps ns : List Text)
    → normalize_all local ps ≡ some ns
    → any q ns ≡ any (normal_form_test local q) ps
unfolding normalize_all
any-normalize_all_local local q [] ns h = ground arith
any-normalize_all_local local q (p ∷ ps) ns h = elim (Option-cases (local p)) [
  | inl bad ↦ cc (rw (bad, normalize_all) at h)
  | inr (n, good) ↦ elim (Option-cases (normalize_all local ps)) [
    | inl failed ↦ cc (rw (failed, normalize_all) at (rw (good, normalize_all) at h))
    | inr (rest, found) ↦
        let e : some (n ∷ rest) ≡ some ns =
          rw (found, normalize_all) at (rw (good, normalize_all) at h) in
        let tail = any-normalize_all_local local q ps rest found in rw good (ground (arith, tail))
  ]
]

pub any-normalize_local :
    (local : Text → Option Text) (q : Text → Bool) (ps ns : List Text)
    → normalize_policy_paths ps local ≡ some ns
    → any q ns ≡ any (normal_form_test local q) ps
unfolding normalize_policy_paths
any-normalize_local local q ps ns h = elim (Option-cases (normalize_all local ps)) [
  | inl failed ↦ cc (rw (failed, normalize_policy_paths) at h)
  | inr (found, e) ↦
      let same : some (unique_from [] found) ≡ some ns = rw (e, normalize_policy_paths) at h in
      let all_of = any-normalize_all_local local q ps found e in
      ground (arith, any-unique_from q [] found, all_of)
]

-- What a constructed engine holds.
pub create_parts :
    (local : Text → Option Text) (c : PolicyConfig) (e : PolicyEngine)
    → create local c ≡ some e
    → (e.config ≡ c)
      × (normalize_policy_paths c.path_allow_prefixes normalize_remote_posix_path
          ≡ some e.path_allow_prefixes)
      × (normalize_policy_paths c.path_deny_prefixes normalize_remote_posix_path
          ≡ some e.path_deny_prefixes)
      × (normalize_policy_paths default_allowed_mutation_prefixes normalize_remote_posix_path
          ≡ some e.default_path_allow_prefixes)
      × (normalize_policy_paths c.local_path_allow_prefixes local
          ≡ some e.local_path_allow_prefixes)
      × (normalize_policy_paths c.local_path_deny_prefixes local ≡ some e.local_path_deny_prefixes)
unfolding create
create_parts local c e h = ground arith

is_some_list-any {ℓ} : {A : Type ℓ} (xs : List A) → is_some_list xs ≡ any (λ x. true) xs
is_some_list-any [] = refl
is_some_list-any (x ∷ xs) = refl

-- The prefixes under which a destructive operation is allowed.
abbrev pub effective_allow_prefixes : PolicyConfig → List Text
effective_allow_prefixes c =
    if is_some_list c.path_allow_prefixes
    then c.path_allow_prefixes
    else default_allowed_mutation_prefixes

-- Every test of the engine's prefixes is one of the configuration's.
pub record Created (c : PolicyConfig) (e : PolicyEngine) : Type 0 where
  pub config : e.config ≡ c
  pub deny :
      (q : Text → Bool)
      → any q e.path_deny_prefixes ≡ any (λ p. q (remote_prefix p)) c.path_deny_prefixes
  pub allow :
      (q : Text → Bool)
      → any q (allow_prefixes e) ≡ any (λ p. q (remote_prefix p)) (effective_allow_prefixes c)

pub create-Created :
    (local : Text → Option Text) (c : PolicyConfig) (e : PolicyEngine)
    → create local c ≡ some e
    → Created c e
create-Created local c e h =
    let (config, allow, deny, default, _, _) = create_parts local c e h in
    record {
      config = config;
      deny = λ q. any-normalize_policy_paths q c.path_deny_prefixes e.path_deny_prefixes deny;
      allow = λ q.
          allow_of q
            (is_some_list-any e.path_allow_prefixes
              ∙ any-normalize_policy_paths (λ x. true) c.path_allow_prefixes e.path_allow_prefixes
                  allow
              ∙ sym (is_some_list-any c.path_allow_prefixes))
            (any-normalize_policy_paths q c.path_allow_prefixes e.path_allow_prefixes allow)
            (any-normalize_policy_paths q default_allowed_mutation_prefixes
              e.default_path_allow_prefixes default);
    }
  where
    allow_of :
        (q : Text → Bool)
        → is_some_list e.path_allow_prefixes ≡ is_some_list c.path_allow_prefixes
        → any q e.path_allow_prefixes ≡ any (λ p. q (remote_prefix p)) c.path_allow_prefixes
        → any q e.default_path_allow_prefixes
          ≡ any (λ p. q (remote_prefix p)) default_allowed_mutation_prefixes
        → any q (allow_prefixes e) ≡ any (λ p. q (remote_prefix p)) (effective_allow_prefixes c)
    allow_of q s a d = elim (Bool-cases (is_some_list c.path_allow_prefixes)) [
      | inl some_given ↦ rw (s, some_given) a
      | inr none_given ↦ rw (s, none_given) d
    ]
