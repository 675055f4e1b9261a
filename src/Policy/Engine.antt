-- ===== src/Policy/Engine.antt =====
-- `PolicyEngine` of src/policy.ts. `new RegExp(pattern)` and `test` are one parameter, a function
-- of the pattern and the text that is false where the pattern does not compile; so are the test of
-- the safety patterns and the normaliser of local paths, which reads the server's file system. The
-- reason and the hint of a denial are one value of `Reason`.
mod Types
use oaslananka_lab_mcp_ssh_t.Prelude.{
  ℕ, ◌*◌, Bool, true, false, Option, none, some, List, [], ◌∷◌, ◌++◌, if◌then◌else◌, any,
}
use oaslananka_lab_mcp_ssh_t.Text.{Text, codes, text_eq}
use oaslananka_lab_mcp_ssh_t.Policy.Paths.{normalize_remote_posix_path}
use Types.*
pub use Types.*

-- `[...new Set(xs)]`
unfoldable pub unique_from : List Text → List Text → List Text
unique_from seen [] = seen
unique_from seen (x ∷ xs) = unique_from (if any (text_eq x) seen then seen else seen ++ (x ∷ [])) xs

unfoldable pub normalize_all : (Text → Option Text) → List Text → Option (List Text)
normalize_all normalizer [] = some []
normalize_all normalizer (p ∷ ps) = elim (normalizer p) [
  | none ↦ none
  | some n ↦ elim (normalize_all normalizer ps) [ none ↦ none | some ns ↦ some (n ∷ ns) ]
]

-- `none` where a prefix holds a NUL byte and the normaliser throws
unfoldable pub normalize_policy_paths : List Text → (Text → Option Text) → Option (List Text)
unfolding normalize_all unique_from
normalize_policy_paths paths normalizer = elim (normalize_all normalizer paths) [
  | none ↦ none
  | some ns ↦ some (unique_from [] ns)
]

abbrev pub default_allowed_mutation_prefixes : List Text
default_allowed_mutation_prefixes =
    codes "/tmp" ∷ codes "/var/tmp" ∷ codes "/home" ∷ codes "/Users" ∷ []

infixl 5 ◌>>=◌
abbrev ◌>>=◌ {ℓ κ} : {A : Type ℓ} {B : Type κ} → Option A → (A → Option B) → Option B
none >>= f = none
some a >>= f = f a

-- the constructor
unfoldable pub create : (Text → Option Text) → PolicyConfig → Option PolicyEngine
create normalize_local config = do
  allow ← normalize_policy_paths config.path_allow_prefixes normalize_remote_posix_path
  deny ← normalize_policy_paths config.path_deny_prefixes normalize_remote_posix_path
  default ← normalize_policy_paths default_allowed_mutation_prefixes normalize_remote_posix_path
  local_allow ← normalize_policy_paths config.local_path_allow_prefixes normalize_local
  local_deny ← normalize_policy_paths config.local_path_deny_prefixes normalize_local
  some (record {
    config = config;
    path_allow_prefixes = allow;
    path_deny_prefixes = deny;
    default_path_allow_prefixes = default;
    local_path_allow_prefixes = local_allow;
    local_path_deny_prefixes = local_deny;
  })

-- An optional string that is missing or empty is false in a condition.
abbrev pub truthy : Option Text → Option Text
truthy none = none
truthy (some []) = none
truthy (some (c ∷ s)) = some (c ∷ s)

-- The first of the two denials.
infixr 6 ◌or_else◌
abbrev pub ◌or_else◌ : Option Reason → Option Reason → Option Reason
none or_else next = next
some r or_else next = some r

abbrev pub is_some_list {ℓ} : {A : Type ℓ} → List A → Bool
is_some_list [] = false
is_some_list (x ∷ xs) = true

-- A denial if the test passes.
abbrev pub deny_if : Bool → Reason → Option Reason
deny_if true r = some r
deny_if false r = none

-- The non-empty paths of a context, in order.
abbrev pub paths_of : PolicyContext → List Text
paths_of ctx = elim (truthy ctx.path) [
  | none ↦ elim (truthy ctx.secondary_path) [ none ↦ [] | some q ↦ q ∷ [] ]
  | some p ↦ elim (truthy ctx.secondary_path) [ none ↦ p ∷ [] | some q ↦ p ∷ q ∷ [] ]
]

abbrev pub ports_of : PolicyContext → List ℕ
ports_of ctx = elim ctx.local_port [
  | none ↦ elim ctx.remote_port [ none ↦ [] | some q ↦ q ∷ [] ]
  | some p ↦ elim ctx.remote_port [ none ↦ p ∷ [] | some q ↦ p ∷ q ∷ [] ]
]
