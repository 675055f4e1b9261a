-- ===== src/Remote/AgentPolicy/Profiles.antt =====
-- What the profiles and the custom policies of src/remote/policy.ts permit.
use oaslananka_lab_mcp_ssh_t.Prelude.{
  ◌≡◌, refl, ap, subst, ◌↔◌, inl, inr, Bool, true, false, Option, none, some, List, [], ◌∷◌, arith,
  Bool-cases, get_or, all,
}
use oaslananka_lab_mcp_ssh_t.Text.{Text, text_eq, text_eq_iff}
use oaslananka_lab_mcp_ssh_t.Remote.Scopes.{includes}
use oaslananka_lab_mcp_ssh_t.Remote.AgentPolicy.{
  PolicyPatch, merge_custom_policy, read_only, operations, full_admin, custom, profile_capabilities,
  create_agent_policy,
}

-- Every text of the first list is in the second.
includes-subset :
    (xs ys : List Text)
    → all (includes ys) xs ≡ true
    → (x : Text) → includes xs x ≡ true
    → includes ys x ≡ true
includes-subset [] ys h x e = cc
includes-subset (y ∷ xs) ys h x e = elim (Bool-cases (text_eq y x)) [
  | inl same ↦ subst (λ z. includes ys z ≡ true) ((text_eq_iff y x).0 same) (ground arith)
  | inr other ↦ includes-subset xs ys (ground arith) x (rw other at e)
]

-- The profiles are ordered by their capabilities: what `custom` permits `read-only` permits, what
-- that permits `operations` permits, and what that permits `full-admin` permits.
create_agent_policy-order :
    (c : Text)
    → ((create_agent_policy custom).capabilities c ≡ true
        → (create_agent_policy read_only).capabilities c ≡ true)
      × ((create_agent_policy read_only).capabilities c ≡ true
          → (create_agent_policy operations).capabilities c ≡ true)
      × ((create_agent_policy operations).capabilities c ≡ true
          → (create_agent_policy full_admin).capabilities c ≡ true)
unfolding create_agent_policy profile_capabilities text_eq
create_agent_policy-order c = (
  λ h. cc,
  includes-subset (profile_capabilities read_only) (profile_capabilities operations) refl c,
  includes-subset (profile_capabilities operations) (profile_capabilities full_admin) refl c,
)

-- A custom policy that names no profile permits exactly the capabilities that it sets to true
-- itself.
pub merge_custom_policy-capabilities :
    (patch : PolicyPatch) (c : Text)
    → patch.profile ≡ none
    → ((merge_custom_policy patch).capabilities c ≡ true) ↔ (patch.capabilities c ≡ some true)
unfolding merge_custom_policy create_agent_policy profile_capabilities
merge_custom_policy-capabilities patch c h = rw h (set_or_false (patch.capabilities c))
  where
    set_or_false : (o : Option Bool) → (get_or o false ≡ true) ↔ (o ≡ some true)
    set_or_false none = (λ e. cc, λ e. cc)
    set_or_false (some b) = (λ e. ap some e, λ e. cc)
