-- ===== src/Remote/ControlPlane/Served.antt =====
-- The tools that the MCP endpoint of src/remote/control-plane.ts calls.
use oaslananka_lab_mcp_ssh_t.Remote.ControlPlane.State.{RemoteConfig, ControlPlane, External}
use oaslananka_lab_mcp_ssh_t.Remote.Store.Types.{
  Reply-cases, RemoteToolName, RemotePrincipal, thrown, returned, Reply,
}
use oaslananka_lab_mcp_ssh_t.Remote.ControlPlane.Api.{
  unknown_name, inherited_name, known_tool, NamedTool, get_method, post_method, patch_method,
  options_method, other_method, verify_access_token, HttpRequest, post_method, HttpMethod, HttpBody,
  JwtPayload,
}
use oaslananka_lab_mcp_ssh_t.Remote.ControlPlane.Tools.{
  tool_capability, call_remote_tool, awaited, Draws, map_reply,
}
use oaslananka_lab_mcp_ssh_t.Remote.ControlPlane.Mcp.{
  handle_method, handle_mcp, handle_post, called, handle_rpc,
}
use oaslananka_lab_mcp_ssh_t.Remote.Scopes.{has_capability}
use oaslananka_lab_mcp_ssh_t.Remote.ControlPlane.ReadOnly.{authenticate-some, authenticate-none}
use oaslananka_lab_mcp_ssh_t.Remote.ControlPlane.Permitted.{call_remote_tool-awaited, IsPermitted}
use oaslananka_lab_mcp_ssh_t.Prelude.{
  ℕ, String, ◌≡◌, refl, ap, ◌⊎◌, inl, inr, true, Option, some, ◌==◌, Bool-cases, Option-cases,
  get_or,
}

map_reply-returned :
    {A B : Type 0} (f : A → B) (r : Reply A × ControlPlane) (b : B) (t : ControlPlane)
    → map_reply f r ≡ (returned b, t)
    → (a : A) × (r ≡ (returned a, t)) × (f a ≡ b)
map_reply-returned f (returned a, s) b t e =
    let state : s ≡ t = ap (λ r. r.1) e in
    let reply : Reply.returned (f a) ≡ returned b = ap (λ r. r.0) e in (a, cc, cc)
map_reply-returned f (thrown failure, s) b t e = absurd (cc)

-- What stands behind an action that the endpoint sends to an agent: the token is valid, the body
-- names a tool whose capability the token grants, and the action is one that the user may have.
abbrev pub IsServed :
    External
    → (String → Option JwtPayload)
    → RemoteConfig
    → HttpRequest
    → ℕ
    → ControlPlane
    → String
    → ControlPlane
    → Type 0
IsServed ext jwt_verify config request now s id t =
    (p : RemotePrincipal) × (body : HttpBody) × (tool : RemoteToolName) × (verify_access_token ext
        jwt_verify config request.authorization s
      ≡ some p)
    × (request.body ≡ returned body)
    × (body.tool ≡ known_tool tool)
    × (has_capability p.capabilities (tool_capability tool) ≡ true)
    × IsPermitted config p tool body.args now s id t

NamedTool-cases :
    (n : NamedTool)
    → (n ≡ unknown_name)
      ⊎ ((n ≡ inherited_name) ⊎ ((tool : RemoteToolName) × (n ≡ known_tool tool)))
NamedTool-cases unknown_name = inl refl
NamedTool-cases inherited_name = inr (inl refl)
NamedTool-cases (known_tool tool) = inr (inr (tool, refl))

module _ (ext : External) (jwt_verify : String → Option JwtPayload) (config : RemoteConfig)
    (draws : Draws) (now : ℕ) (s : ControlPlane) (id : String) (t : ControlPlane) where
  handle_rpc-awaited :
      (principal : RemotePrincipal) (body : HttpBody)
      → handle_rpc ext jwt_verify config principal body draws now s
        ≡ (returned (called (awaited id)), t)
      → (tool : RemoteToolName) × (body.tool ≡ known_tool tool)
        × (call_remote_tool ext config principal tool body.args draws now s
            ≡ (returned (awaited id), t))
  unfolding handle_rpc
  handle_rpc-awaited principal body e =
      elim (Bool-cases (get_or body.rpc_method "" == "initialize")) [
        | inl initialize ↦ absurd (let g = rw (initialize, handle_rpc) at e in cc)
        | inr e1 ↦ elim (Bool-cases (get_or body.rpc_method "" == "tools/list")) [
          | inl listing ↦ absurd (let g = rw (e1, listing, handle_rpc) at e in cc)
          | inr e2 ↦ elim (Bool-cases (get_or body.rpc_method "" == "tools/call")) [
            | inr other ↦ absurd (let g = rw (e1, e2, other, handle_rpc) at e in cc)
            | inl calling ↦ elim (NamedTool-cases body.tool) [
              | inr (inl inherited) ↦
                  absurd (let g = rw (e1, e2, calling, inherited, handle_rpc) at e in cc)
              | inl missing ↦ absurd (let g = rw (e1, e2, calling, missing, handle_rpc) at e in cc)
              | inr (inr (tool, named)) ↦
                  let (result, ran, same) =
                    map_reply-returned called _ _ t
                      (rw (e1, e2, calling, named, handle_rpc) at e) in
                  let shown : result ≡ awaited id = cc in (tool, named, rw shown at ran)
            ]
          ]
        ]
      ]

  handle_post-awaited :
      (request : HttpRequest)
      → handle_post ext jwt_verify config request draws now s ≡ (returned (called (awaited id)), t)
      → (p : RemotePrincipal) × (body : HttpBody) × (verify_access_token ext jwt_verify config
            request.authorization s
          ≡ some p)
        × (request.body ≡ returned body)
        × (handle_rpc ext jwt_verify config p body draws now s
            ≡ (returned (called (awaited id)), t))
  unfolding handle_post
  handle_post-awaited request e =
      elim (Option-cases (verify_access_token ext jwt_verify config request.authorization s)) [
        | inl refused ↦ absurd (
            let a = authenticate-none ext jwt_verify config request now s refused in
            let g = rw (a, handle_post) at e in let h = rw a at g in cc)
        | inr (p, valid) ↦
            let a = authenticate-some ext jwt_verify config request now s p valid in
            let held = rw (a, handle_post) at e in
            let g = rw a at held in
            elim (Reply-cases request.body) [
              | inl (failure, b) ↦ absurd (let h = rw b at g in cc)
              | inr (body, b) ↦ (p, body, valid, b, rw b at g)
            ]
      ]

  handle_method-awaited :
      (method : HttpMethod) (request : HttpRequest)
      → handle_method ext jwt_verify config method request draws now s
        ≡ (returned (called (awaited id)), t)
      → handle_post ext jwt_verify config request draws now s ≡ (returned (called (awaited id)), t)
  unfolding handle_method
  handle_method-awaited post_method request e = e
  handle_method-awaited get_method request e = absurd (cc)
  handle_method-awaited patch_method request e = absurd (cc)
  handle_method-awaited options_method request e = absurd (cc)
  handle_method-awaited other_method request e = absurd (cc)

  -- When a request to the MCP endpoint is answered by the result of an action on an agent, its
  -- token is valid, its body names a tool whose capability the token grants, and the action goes to
  -- an agent that the user of the token names and owns, whose policy has the capability, that is
  -- connected and not revoked, with a deadline within the bounds of the policy and of the server.
  pub handle_mcp-IsServed :
      (request : HttpRequest)
      → handle_mcp ext jwt_verify config request draws now s ≡ (returned (called (awaited id)), t)
      → IsServed ext jwt_verify config request now s id t
  unfolding handle_mcp
  handle_mcp-IsServed request e =
      let (p, body, valid, read, ran) =
        handle_post-awaited request (handle_method-awaited request.method request e) in
      let (tool, named, asked) = handle_rpc-awaited p body ran in
      let (granted, permitted) =
        call_remote_tool-awaited ext config p body.args draws now s t id tool asked in
      (p, body, tool, valid, read, named, granted, permitted)
