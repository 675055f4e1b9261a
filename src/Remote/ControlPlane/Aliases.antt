-- ===== src/Remote/ControlPlane/Aliases.antt =====
-- The alias of an agent that was revoked, src/remote/control-plane.ts.
use oaslananka_lab_mcp_ssh_t.Remote.Store.Rows.{find}
use oaslananka_lab_mcp_ssh_t.Remote.ControlPlane.Enroll.{is_taken, insert_pending, create_token}
use oaslananka_lab_mcp_ssh_t.Remote.Store.Records.{get_agent_by_alias, insert_agent}
use oaslananka_lab_mcp_ssh_t.Remote.ControlPlane.State.{ControlPlane, RemoteConfig, External}
use oaslananka_lab_mcp_ssh_t.Remote.Store.Types.{
  raised, thrown, RemoteAgentRecord, Args, RemotePrincipal,
}
use oaslananka_lab_mcp_ssh_t.Remote.Scopes.{has_capability}
use oaslananka_lab_mcp_ssh_t.Text.{codes}
use oaslananka_lab_mcp_ssh_t.Remote.ControlPlane.Install.{trim_string}
use oaslananka_lab_mcp_ssh_t.Remote.ControlPlane.Sockets.{is_revoked_agent}
use oaslananka_lab_mcp_ssh_t.Prelude.{
  ℕ, String, ◌≡◌, refl, ◌≢◌, inl, inr, Bool, true, false, ◌&&◌, ◌||◌, some, List, [], ◌∷◌, arith,
  ◌==◌, eq_iff, Bool-cases, Option-cases, get_or, any,
}

any-find {ℓ} :
    {A : Type ℓ} (p q : A → Bool) (rows : List A) (a : A)
    → ((r : A) → p r ≡ true → q r ≡ true)
    → find p rows ≡ some a
    → any q rows ≡ true
unfolding find
any-find p q [] a h e = absurd (cc)
any-find p q (r ∷ rows) a h e = elim (Bool-cases (p r)) [
  | inl here ↦ rw (h r here) refl
  | inr off ↦
      let later = any-find p q rows a h (rw off at e) in
      elim (Bool-cases (q r)) [ inl x ↦ rw x refl | inr x ↦ rw (x, later) refl ]
]

-- The alias of a revoked agent cannot be used again: the code checks that no agent that is not revoked
-- has the alias, but the insertion then fails on the unique pair of user and alias, with an error that
-- has no code, and nothing is changed. The caller has the capability, the alias is not empty, and the
-- agent that has it is revoked.
pub create_token-revoked :
    (ext : External) (config : RemoteConfig) (principal : RemotePrincipal) (args : Args)
    (agent_id token token_id : String) (now : ℕ) (s : ControlPlane) (existing : RemoteAgentRecord)
    → has_capability principal.capabilities (codes "agents.admin") ≡ true
    → trim_string (get_or args.alias "") ≢ ""
    → get_agent_by_alias principal.user_id (trim_string (get_or args.alias "")) s.store
      ≡ some existing
    → is_revoked_agent existing ≡ true
    → create_token ext config principal args agent_id token token_id now s ≡ (thrown raised, s)
unfolding create_token insert_pending insert_agent get_agent_by_alias
create_token-revoked ext config principal args agent_id token token_id now s existing granted full
      held gone =
    let alias = trim_string (get_or args.alias "") in
    let given : (alias == "") ≡ false = ground (arith, eq_iff alias "", full) in
    let taken : is_taken (get_agent_by_alias principal.user_id alias s.store) ≡ false =
      rw held (rw gone refl) in
    elim (Option-cases
      (find (λ r. r.user_id == principal.user_id && r.alias == alias) s.store.agents)) [
        | inl missing ↦ absurd (let g = rw (missing, get_agent_by_alias) at held in cc)
        | inr (row, found) ↦
            let clash : any
                  (λ a. a.id == agent_id || (a.user_id == principal.user_id && a.alias == alias))
                  s.store.agents
                ≡ true =
              any-find _ _ s.store.agents row (λ r h. ground (arith, h)) found in
            rw (granted, given, taken, create_token) (rw (clash, insert_agent, insert_pending) refl)
      ]
