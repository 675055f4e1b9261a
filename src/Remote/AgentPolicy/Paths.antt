-- ===== src/Remote/AgentPolicy/Paths.antt =====
-- What the path rules of src/remote/policy.ts mean for the segments of absolute paths.
use oaslananka_lab_mcp_ssh_t.Prelude.{
  ℕ, ◌≡◌, refl, sym, ap, ◌∙◌, ◌↔◌, ◌⊎◌, inl, inr, Bool, true, false, ◌||◌, List, [], ◌∷◌, ◌++◌,
  append-nil, if◌then◌else◌, any, All, AnyOf,
}
use oaslananka_lab_mcp_ssh_t.Text.{Text, text_eq}
use oaslananka_lab_mcp_ssh_t.Text.Split.{join_slash, NoSlash, slash-join}
use oaslananka_lab_mcp_ssh_t.Text.Posix.{
  posix_normalize, with_ends, ends_with_slash, resolve, resolve-IsPlain, IsPlain, is_empty,
  root_path,
}
use oaslananka_lab_mcp_ssh_t.Policy.Paths.{unix_separators}
use oaslananka_lab_mcp_ssh_t.Policy.Paths.Under.{
  under-boundary, not_root, IsUnder, is_path_under_iff,
}
use oaslananka_lab_mcp_ssh_t.Remote.AgentPolicy.{
  AgentPolicy, without_last_slash, or_root, normalize_policy_path, matches_prefix, is_path_allowed,
}

without-append :
    (a b : Text) (c : ℕ) → without_last_slash (a ++ (c ∷ b)) ≡ a ++ without_last_slash (c ∷ b)
unfolding without_last_slash
without-append [] b c = refl
without-append (x ∷ []) b c = refl
without-append (x ∷ y ∷ a) b c = ap (λ (l : Text). x ∷ l) (without-append (y ∷ a) b c)

without-cons :
    (c : ℕ) (s : Text)
    → without_last_slash s ≡ s
    → is_empty s ≡ false
    → without_last_slash (c ∷ s) ≡ c ∷ s
unfolding without_last_slash
without-cons c [] e n = cc
without-cons c (d ∷ s) e n = ap (λ (l : Text). c ∷ l) e

without_plain : (part : Text) → NoSlash part → without_last_slash part ≡ part
unfolding without_last_slash
without_plain [] h = refl
without_plain (c ∷ []) h = rw h.0 refl
without_plain (c ∷ d ∷ s) h = ap (λ (l : Text). c ∷ l) (without_plain (d ∷ s) h.1)

not_empty_right : (a b : Text) (c : ℕ) → is_empty (a ++ (c ∷ b)) ≡ false
not_empty_right [] b c = refl
not_empty_right (x ∷ a) b c = refl

without-join :
    (part : Text) (parts : List Text)
    → All IsPlain (part ∷ parts)
    → (without_last_slash (join_slash (part ∷ parts)) ≡ join_slash (part ∷ parts))
      × (is_empty (join_slash (part ∷ parts)) ≡ false)
unfolding join_slash
without-join part [] h = (without_plain part h.0.no_slash, h.0.not_empty)
without-join part (next ∷ parts) h =
    let (e, n) = without-join next parts h.1 in
    let tail = join_slash (next ∷ parts) in
    (
      without-append part tail b'/' ∙ ap (λ (l : Text). part ++ l) (without-cons b'/' tail e n),
      not_empty_right part tail b'/',
    )

without-with_ends :
    (body : Text) (trailing : Bool)
    → without_last_slash body ≡ body
    → or_root (without_last_slash (with_ends true trailing body)) ≡ b'/' ∷ body
unfolding without_last_slash or_root with_ends
without-with_ends [] trailing e = refl
without-with_ends (c ∷ body) true e =
    ap (λ (l : Text). b'/' ∷ l) (without-append (c ∷ body) [] b'/' ∙ append-nil (c ∷ body))
without-with_ends (c ∷ body) false e = ap (λ (l : Text). b'/' ∷ l) e

without_normalized :
    (parts : List Text) (trailing : Bool)
    → All IsPlain parts
    → or_root (without_last_slash (with_ends true trailing (join_slash parts))) ≡ root_path parts
unfolding without_last_slash join_slash
without_normalized [] trailing h = without-with_ends [] trailing refl
without_normalized (part ∷ parts) trailing h =
    without-with_ends (join_slash (part ∷ parts)) trailing (without-join part parts h).0
    ∙ slash-join part parts

-- An absolute path of the agent's file system, and its segments.
abbrev IsAbsolute : Text → Type 0
IsAbsolute path = (t : Text) × (unix_separators path ≡ b'/' ∷ t)

abbrev pub segments : Text → List Text
segments path = resolve false (unix_separators path)

normalize_policy_path-root_path :
    (path : Text) → IsAbsolute path → normalize_policy_path path ≡ root_path (segments path)
unfolding normalize_policy_path posix_normalize
normalize_policy_path-root_path path (t, e) = rw e (
    without_normalized (resolve false (b'/' ∷ t)) (ends_with_slash (b'/' ∷ t))
      (resolve-IsPlain (b'/' ∷ t)))

-- The prefix `/` names the root alone; any other names its directory and all below it.
abbrev pub Names : List Text → List Text → Type 0
Names path [] = path ≡ []
Names path (part ∷ parts) = IsUnder path (part ∷ parts)

root_only :
    (path : List Text)
    → All IsPlain path
    → (text_eq (root_path path) (b'/' ∷ []) ≡ true) ↔ (path ≡ [])
unfolding text_eq
root_only [] h = (λ e. refl, λ e. refl)
root_only (part ∷ parts) h = (λ e. cc (not_root part parts h.0.not_empty, e), λ e. cc)

matches_prefix-Names :
    (path prefix : List Text)
    → All IsPlain path
    → All IsPlain prefix
    → (matches_prefix (root_path path) (root_path prefix) ≡ true) ↔ Names path prefix
unfolding matches_prefix text_eq
matches_prefix-Names path [] p q = root_only path p
matches_prefix-Names path (part ∷ parts) p q =
    let under = is_path_under_iff path (part ∷ parts) p q in
    let boundary = under-boundary (root_path path) part parts q.0.not_empty in
    rw (not_root part parts q.0.not_empty)
      (λ h. under.0 (boundary ∙ h), λ u. sym boundary ∙ under.1 u)

or_iff : (a b : Bool) {P Q : Type 0} → (a ≡ true) ↔ P → (b ≡ true) ↔ Q → ((a || b) ≡ true) ↔ (P ⊎ Q)
or_iff true b i j = (λ h. inl (i.0 refl), λ h. refl)
or_iff false b i j = (λ h. inr (j.0 h), λ x. elim x [ inl p ↦ cc (i.1 p) | inr q ↦ j.1 q ])

any-Names :
    (path : Text) (prefixes : List Text)
    → IsAbsolute path
    → All IsAbsolute prefixes
    → (any (λ raw. matches_prefix (normalize_policy_path path) (normalize_policy_path raw)) prefixes
        ≡ true)
      ↔ AnyOf (λ raw. Names (segments path) (segments raw)) prefixes
any-Names path [] p q = (λ h. cc, λ h. absurd h)
any-Names path (raw ∷ prefixes) p q =
    let rest = any-Names path prefixes p q.1 in
    let here =
      matches_prefix-Names (segments path) (segments raw) (resolve-IsPlain (unix_separators path))
        (resolve-IsPlain (unix_separators raw)) in
    let same : matches_prefix (normalize_policy_path path) (normalize_policy_path raw)
        ≡ matches_prefix (root_path (segments path)) (root_path (segments raw)) =
      rw (normalize_policy_path-root_path path p, normalize_policy_path-root_path raw q.0) refl in
    or_iff _ _ (λ h. here.0 (sym same ∙ h), λ n. same ∙ here.1 n) rest

allowed_iff :
    (denied allowed : Bool) {D A : Type 0}
    → (denied ≡ true) ↔ D
    → (allowed ≡ true) ↔ A
    → ((if denied then false else allowed) ≡ true) ↔ ((¬ D) × A)
allowed_iff true allowed i j = (λ h. cc, λ p. absurd (p.0 (i.0 refl)))
allowed_iff false allowed i j = (λ h. (λ d. cc (i.1 d), j.0 h), λ p. j.1 p.1)

-- On absolute paths, the agent's policy allows a file exactly when none of its denied paths names
-- it and an allowed one does. A path names a file if it is the file's directory, directly or above,
-- by whole segments once `.` and `..` are resolved; the path `/` names only the root itself.
pub is_path_allowed-Names :
    (policy : AgentPolicy) (file_path : Text)
    → IsAbsolute file_path
    → All IsAbsolute policy.deny_paths
    → All IsAbsolute policy.allow_paths
    → (is_path_allowed policy file_path ≡ true) ↔ (
        (¬ AnyOf (λ raw. Names (segments file_path) (segments raw)) policy.deny_paths)
        × AnyOf (λ raw. Names (segments file_path) (segments raw)) policy.allow_paths)
unfolding is_path_allowed
is_path_allowed-Names policy file_path f d a =
    allowed_iff _ _ (any-Names file_path policy.deny_paths f d)
      (any-Names file_path policy.allow_paths f a)
