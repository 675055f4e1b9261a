-- ===== src/Remote/ControlPlane/ReadOnly.antt =====
-- What a token without the capability agents.admin can change through the API of
-- src/remote/control-plane.ts.
use oaslananka_lab_mcp_ssh_t.Remote.ControlPlane.State.{audit, ControlPlane, RemoteConfig, External}
use oaslananka_lab_mcp_ssh_t.Remote.ControlPlane.Api.{
  get_method, patch_method, post_method, options_method, other_method, split_string, agent_match,
  one_agent, with_body, is_get, verify_access_token, HttpMethod, HttpBody, is_post,
  handle_agent_route, handle_user_api, HttpRequest, authenticate, JwtPayload, handle_api,
}
use oaslananka_lab_mcp_ssh_t.Remote.Store.Types.{
  unauthorized, failed, warn, thrown, Reply-cases, returned, Args, RemoteAgentRecord, Reply,
  RemotePrincipal,
}
use oaslananka_lab_mcp_ssh_t.Remote.Scopes.{has_capability}
use oaslananka_lab_mcp_ssh_t.Remote.ControlPlane.Tools.{
  resolve_agent, sanitize_agent, map_reply, Draws,
}
use oaslananka_lab_mcp_ssh_t.Text.{codes}
use oaslananka_lab_mcp_ssh_t.Remote.ControlPlane.Enroll.{create_token}
use oaslananka_lab_mcp_ssh_t.Remote.ControlPlane.Policies.{revoke, change_policy}
use oaslananka_lab_mcp_ssh_t.Remote.AgentPolicy.{PolicyPatch}
use oaslananka_lab_mcp_ssh_t.Prelude.{
  ℕ, String, ◌≡◌, refl, ◌∙◌, ◌⊎◌, inl, inr, false, ◌&&◌, Option, none, some, ◌==◌, Bool-cases,
  Option-cases,
}

module _ (ext : External) (jwt_verify : String → Option JwtPayload) (config : RemoteConfig)
    (principal : RemotePrincipal)
    (not_admin : has_capability principal.capabilities (codes "agents.admin") ≡ false) where
  create_token-denied :
      (args : Args) (agent_id token token_id : String) (now : ℕ) (s : ControlPlane)
      → (create_token ext config principal args agent_id token token_id now s).1 ≡ s
  unfolding create_token
  create_token-denied args agent_id token token_id now s = rw not_admin refl

  change_policy-denied :
      (found : RemoteAgentRecord) (patch : PolicyPatch) (nonce : String) (now : ℕ)
      (s : ControlPlane)
      → (change_policy ext config principal found patch nonce now s).1 ≡ s
  unfolding change_policy
  change_policy-denied found patch nonce now s = rw not_admin refl

  revoke-denied :
      (found : RemoteAgentRecord) (now : ℕ) (s : ControlPlane)
      → (revoke principal found now s).1 ≡ s
  unfolding revoke
  revoke-denied found now s = rw not_admin refl

  map_reply-state :
      {A B : Type 0} (f : A → B) (r : Reply A × ControlPlane) → (map_reply f r).1 ≡ r.1
  map_reply-state f (returned a, s) = refl
  map_reply-state f (thrown failure, s) = refl

  with_body-state :
      {A : Type 0} (request : HttpRequest) (s : ControlPlane)
      (act : HttpBody → Reply A × ControlPlane)
      → ((body : HttpBody) → (act body).1 ≡ s)
      → (with_body request s act).1 ≡ s
  with_body-state request s act same = elim (Reply-cases request.body) [
    | inl (failure, e) ↦ rw e refl
    | inr (body, e) ↦ rw e (same body)
  ]

  patched-denied :
      (found : RemoteAgentRecord) (request : HttpRequest) (draws : Draws) (now : ℕ)
      (s : ControlPlane)
      → (with_body request s (λ body.
          map_reply
            (λ a. one_agent (sanitize_agent a))
            (change_policy ext config principal found body.args.policy draws.nonce now s))).1
        ≡ s
  patched-denied found request draws now s =
      with_body-state request s _ (λ body.
        map_reply-state _ _ ∙ change_policy-denied found body.args.policy draws.nonce now s)

  handle_agent_route-denied :
      (method : HttpMethod) (route : Option String) (found : RemoteAgentRecord)
      (request : HttpRequest) (draws : Draws) (now : ℕ) (s : ControlPlane)
      → (handle_agent_route ext jwt_verify config principal method route found request draws now
          s).1
        ≡ s
  unfolding handle_agent_route
  handle_agent_route-denied get_method none found request draws now s = refl
  handle_agent_route-denied get_method (some route) found request draws now s = refl
  handle_agent_route-denied patch_method none found request draws now s =
      patched-denied found request draws now s
  handle_agent_route-denied patch_method (some route) found request draws now s =
      elim (Bool-cases (route == "policy")) [
        | inl policy ↦ rw policy (patched-denied found request draws now s)
        | inr other ↦ rw other refl
      ]
  handle_agent_route-denied post_method none found request draws now s = refl
  handle_agent_route-denied post_method (some route) found request draws now s =
      elim (Bool-cases (route == "revoke")) [
        | inl revoked ↦ rw revoked (map_reply-state _ _ ∙ revoke-denied found now s)
        | inr other ↦ rw other refl
      ]
  handle_agent_route-denied options_method none found request draws now s = refl
  handle_agent_route-denied options_method (some route) found request draws now s = refl
  handle_agent_route-denied other_method none found request draws now s = refl
  handle_agent_route-denied other_method (some route) found request draws now s = refl

  handle_user_api-denied :
      (request : HttpRequest) (draws : Draws) (now : ℕ) (s : ControlPlane)
      → (handle_user_api ext jwt_verify config principal request draws now s).1 ≡ s
  unfolding handle_user_api
  handle_user_api-denied request draws now s =
      elim (Bool-cases
        (request.pathname == "/api/agents/enrollment-tokens" && is_post request.method)) [
          | inl tokens ↦ rw tokens (
              with_body-state request s _ (λ body.
                map_reply-state _ _
                ∙ create_token-denied body.args draws.agent_id draws.token draws.token_id now s))
          | inr e1 ↦
              elim (Bool-cases (request.pathname == "/api/agents" && is_get request.method)) [
                | inl listed ↦ rw (e1, listed) refl
                | inr e2 ↦ elim (Option-cases (agent_match (split_string 47 request.pathname))) [
                  | inl no_match ↦
                      elim (Bool-cases
                        (request.pathname == "/api/audit" && is_get request.method)) [
                          | inl audited ↦ rw (e1, e2, no_match, audited) refl
                          | inr e3 ↦ rw (e1, e2, no_match, e3) refl
                        ]
                  | inr ((name, route), matched) ↦
                      elim (Option-cases (resolve_agent principal.user_id name s.store)) [
                        | inl missing ↦ rw (e1, e2, matched, missing) refl
                        | inr (found, resolved) ↦
                            rw (e1, e2, matched, resolved)
                              (handle_agent_route-denied request.method route found request draws
                                now s)
                      ]
                ]
              ]
        ]

module _ (ext : External) (jwt_verify : String → Option JwtPayload) (config : RemoteConfig)
    (request : HttpRequest) (now : ℕ) (s : ControlPlane) where
  pub authenticate-none :
      verify_access_token ext jwt_verify config request.authorization s ≡ none
      → authenticate ext jwt_verify config request now s ≡ (
        thrown (failed unauthorized 401),
        audit none none none "token_validation_failure" warn now s,
      )
  unfolding authenticate
  authenticate-none refused = rw (refused, authenticate) refl

  pub authenticate-some :
      (p : RemotePrincipal)
      → verify_access_token ext jwt_verify config request.authorization s ≡ some p
      → authenticate ext jwt_verify config request now s ≡ (returned p, s)
  unfolding authenticate
  authenticate-some p valid = rw (valid, authenticate) refl

-- A request to the API that is not an enrolment changes nothing when its token does not grant the
-- capability agents.admin, on every route and with every method and body: the state is the one
-- before, or, when the request has no valid token, the one before with one event more in the audit
-- log.
pub handle_api-read_only :
    (ext : External) (jwt_verify : String → Option JwtPayload) (config : RemoteConfig)
    (request : HttpRequest) (draws : Draws) (now : ℕ) (s : ControlPlane)
    → (request.pathname == "/api/agents/enroll" && is_post request.method) ≡ false
    → ((p : RemotePrincipal)
        → verify_access_token ext jwt_verify config request.authorization s ≡ some p
        → has_capability p.capabilities (codes "agents.admin") ≡ false)
    → ((handle_api ext jwt_verify config request draws now s).1 ≡ s)
      ⊎ ((verify_access_token ext jwt_verify config request.authorization s ≡ none)
          × ((handle_api ext jwt_verify config request draws now s).1
              ≡ audit none none none "token_validation_failure" warn now s))
unfolding handle_api
handle_api-read_only ext jwt_verify config request draws now s other not_admin =
    elim (Option-cases (verify_access_token ext jwt_verify config request.authorization s)) [
      | inl refused ↦
          let e = authenticate-none ext jwt_verify config request now s refused in
          inr (refused, rw (other, e) (rw e refl))
      | inr (p, valid) ↦
          let e = authenticate-some ext jwt_verify config request now s p valid in
          let same =
            handle_user_api-denied ext jwt_verify config p (not_admin p valid) request draws now
              s in
          inl (rw (other, e) (rw e same))
    ]
