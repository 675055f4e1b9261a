-- ===== src/Policy/Evaluate/PathRules.antt =====
-- What the guard of remote paths of src/policy.ts means for the segments of the paths.
use oaslananka_lab_mcp_ssh_t.Prelude.{
  ◌≡◌, sym, ◌∙◌, ◌↔◌, ◌⊎◌, inl, inr, Bool, true, false, not, ◌&&◌, none, List, arith, any, AnyOf,
  any-AnyOf, AnyOf-map,
}
use oaslananka_lab_mcp_ssh_t.Text.{Text, has_code}
use oaslananka_lab_mcp_ssh_t.Text.Posix.{resolve-IsPlain}
use oaslananka_lab_mcp_ssh_t.Policy.Paths.{is_path_under, absolute, unix_separators}
use oaslananka_lab_mcp_ssh_t.Policy.Paths.Segments.{remote_segments, normalize_remote-cases}
use oaslananka_lab_mcp_ssh_t.Policy.Paths.Under.{IsUnder, is_path_under_iff}
use oaslananka_lab_mcp_ssh_t.Policy.Engine.{
  PolicyConfig, PolicyContext, PolicyEngine, Reason, ◌or_else◌, deny_if, path_denied,
  destructive_outside,
}
use oaslananka_lab_mcp_ssh_t.Policy.Evaluate.{
  under_any, allow_prefixes, is_destructive_fs, remote_path_check,
}
use oaslananka_lab_mcp_ssh_t.Policy.Evaluate.Prefixes.{
  remote_prefix, effective_allow_prefixes, Created,
}
use oaslananka_lab_mcp_ssh_t.Policy.Evaluate.Checks.{not_any_iff}

-- The path lies under one of the prefixes, segment by segment.
abbrev UnderOne : Text → List Text → Type 0
UnderOne path = AnyOf (λ prefix. IsUnder (remote_segments path) (remote_segments prefix))

UnderOne-iff :
    (path : Text) (prefixes : List Text)
    → (any (λ p. is_path_under (remote_prefix path) (remote_prefix p) b'/') prefixes ≡ true)
      ↔ UnderOne path prefixes
UnderOne-iff path prefixes =
    let each = λ (p : Text).
      is_path_under_iff (remote_segments path) (remote_segments p)
        (resolve-IsPlain (absolute (unix_separators path)))
        (resolve-IsPlain (absolute (unix_separators p))) in
    (
      λ h.
          AnyOf-map _ (λ p. IsUnder (remote_segments path) (remote_segments p)) (λ p. (each p).0)
            prefixes ((any-AnyOf _ prefixes).0 h),
      λ h. (any-AnyOf _ prefixes).1 (
          AnyOf-map (λ p. IsUnder (remote_segments path) (remote_segments p)) _ (λ p. (each p).1)
            prefixes h),
    )

-- A remote path has no NUL byte and lies under no denied prefix; a destructive operation on it is
-- allowed as such, or the path lies under a prefix for such operations.
abbrev pub RemotePathPasses : PolicyConfig → PolicyContext → Text → Type 0
RemotePathPasses c ctx path =
    (has_code 0 path ≡ false)
    × (¬ UnderOne path c.path_deny_prefixes)
    × ((is_destructive_fs ctx ≡ false)
        ⊎ ((c.allow_destructive_fs ≡ true) ⊎ UnderOne path (effective_allow_prefixes c)))

-- The two path guards over their tests.
remote_tests_iff :
    (denied destructive allowed under : Bool) (r s : Reason)
    → ((deny_if denied r or_else deny_if (destructive && not allowed && not under) s) ≡ none)
      ↔ ((denied ≡ false) × ((destructive ≡ false) ⊎ ((allowed ≡ true) ⊎ (under ≡ true))))
remote_tests_iff denied destructive allowed under r s = (λ h. ground arith, λ p. ground arith)

-- The same over what the tests mean.
remote_meaning_iff :
    (denied destructive allowed under : Bool) (r s : Reason) {D U : Type 0}
    → (denied ≡ true) ↔ D
    → (under ≡ true) ↔ U
    → ((deny_if denied r or_else deny_if (destructive && not allowed && not under) s) ≡ none)
      ↔ ((¬ D) × ((destructive ≡ false) ⊎ ((allowed ≡ true) ⊎ U)))
remote_meaning_iff denied destructive allowed under r s i j =
    let tests = remote_tests_iff denied destructive allowed under r s in
    let neg = not_any_iff denied i in
    (
      λ h. (
        neg.0 (tests.0 h).0,
        elim (tests.0 h).1 [
          | inl a ↦ inl a
          | inr (inl b) ↦ inr (inl b)
          | inr (inr u) ↦ inr (inr (j.0 u))
        ],
      ),
      λ p. tests.1 (
        neg.1 p.0,
        elim p.1 [ inl a ↦ inl a | inr (inl b) ↦ inr (inl b) | inr (inr u) ↦ inr (inr (j.1 u)) ],
      ),
    )

module _ {c : PolicyConfig} {e : PolicyEngine} (made : Created c e) (ctx : PolicyContext) where
  -- The engine's test of some prefixes, read over the configuration's.
  prefixes_iff :
      (path : Text) (ours given : List Text)
      → ((q : Text → Bool) → any q ours ≡ any (λ p. q (remote_prefix p)) given)
      → (under_any (remote_prefix path) ours ≡ true) ↔ UnderOne path given
  prefixes_iff path ours given same =
      let here = same (λ prefix. is_path_under (remote_prefix path) prefix b'/') in
      let meaning = UnderOne-iff path given in
      (λ h. meaning.0 (sym here ∙ h), λ u. here ∙ meaning.1 u)

  clean_path_iff :
      (path : Text)
      → ((deny_if (under_any (remote_prefix path) e.path_deny_prefixes) (path_denied path)
            or_else deny_if
                (is_destructive_fs ctx
                  && not e.config.allow_destructive_fs
                  && not (under_any (remote_prefix path) (allow_prefixes e)))
                (destructive_outside path))
          ≡ none)
        ↔ ((¬ UnderOne path c.path_deny_prefixes)
            × ((is_destructive_fs ctx ≡ false)
                ⊎ ((c.allow_destructive_fs ≡ true) ⊎ UnderOne path (effective_allow_prefixes c))))
  clean_path_iff path = rw made.config (
      remote_meaning_iff (under_any (remote_prefix path) e.path_deny_prefixes)
        (is_destructive_fs ctx) c.allow_destructive_fs
        (under_any (remote_prefix path) (allow_prefixes e)) (path_denied path)
        (destructive_outside path)
        (prefixes_iff path e.path_deny_prefixes c.path_deny_prefixes made.deny)
        (prefixes_iff path (allow_prefixes e) (effective_allow_prefixes c) made.allow))

  pub remote_path_check_iff :
      (path : Text) → (remote_path_check e ctx path ≡ none) ↔ RemotePathPasses c ctx path
  unfolding remote_path_check
  remote_path_check_iff path = elim (normalize_remote-cases path) [
    | inl (nul, bad) ↦ rw (bad, remote_path_check) (λ h. cc, λ p. cc (nul, p.0))
    | inr (clean, good) ↦
        let tests = clean_path_iff path in
        rw (good, remote_path_check)
          (λ h. (clean, (tests.0 h).0, (tests.0 h).1), λ p. tests.1 (p.1, p.2))
  ]
