-- ===== src/Remote/ControlPlane/Enroll.antt =====
-- The enrolment of an agent, src/remote/control-plane.ts: the one-use token and the request that
-- redeems it.
use oaslananka_lab_mcp_ssh_t.Remote.Store.Types.{
  offline, info, invalid_scope, invalid_token, agent_not_found, forbidden, failed, Args, raised,
  thrown, RemotePrincipal, returned, Reply, AgentStatus, RemoteAgentRecord,
  AgentEnrollmentTokenRecord, AgentHostMetadata,
}
use oaslananka_lab_mcp_ssh_t.Remote.ControlPlane.State.{
  audit, hash_secret, RemoteConfig, ControlPlane, External,
}
use oaslananka_lab_mcp_ssh_t.Text.{codes}
use oaslananka_lab_mcp_ssh_t.Remote.AgentPolicy.{create_agent_policy, AgentPolicy}
use oaslananka_lab_mcp_ssh_t.Remote.ControlPlane.Sockets.{is_revoked_agent}
use oaslananka_lab_mcp_ssh_t.Remote.ControlPlane.Install.{
  granted_profile, install_command, is_given, trim_string, InstallCommand,
}
use oaslananka_lab_mcp_ssh_t.Remote.Store.Records.{
  update_agent, get_agent_by_alias, insert_agent, get_agent,
}
use oaslananka_lab_mcp_ssh_t.Remote.Store.Tables.{
  get_enrollment_token_by_hash, mark_enrollment_token_used, insert_enrollment_token,
}
use oaslananka_lab_mcp_ssh_t.Remote.Scopes.{has_capability}
use oaslananka_lab_mcp_ssh_t.Prelude.{
  ℕ, ◌+◌, ◌*◌, String, Bool, false, not, ◌&&◌, ◌||◌, Option, none, some, ◌==◌, ltb, leb,
  if◌then◌else◌, get_or, is_some, length,
}

-- The agent that waits for its enrolment.
abbrev pub pending_agent : String → String → String → AgentPolicy → ℕ → RemoteAgentRecord
pending_agent agent_id user_id alias policy now = record {
  id = agent_id;
  user_id = user_id;
  alias = alias;
  status = AgentStatus.pending;
  public_key = none;
  profile = policy.profile;
  policy = policy;
  policy_version = policy.version;
  host_metadata = none;
  last_seen_at = none;
  created_at = now;
  updated_at = now;
}

-- Both inserts; what the first one stored stays when the second one throws.
unfoldable pub insert_pending :
    External
    → RemoteConfig
    → RemoteAgentRecord
    → String
    → String
    → ℕ
    → ControlPlane
    → Reply (InstallCommand × String) × ControlPlane
insert_pending ext config agent token token_id now s = elim (insert_agent agent s.store) [
  | thrown failure ↦ (thrown failure, s)
  | returned store ↦
      let issued : AgentEnrollmentTokenRecord = record {
        id = token_id;
        agent_id = agent.id;
        user_id = agent.user_id;
        token_hash = hash_secret ext token;
        expires_at = now + config.enrollment_token_ttl_seconds * 1000;
        used_at = none;
        created_at = now;
      } in
      elim (insert_enrollment_token issued store) [
        | thrown failure ↦ (thrown failure, record s { store = store })
        | returned full ↦ (
          returned (install_command config agent (some token), token),
          audit (some agent.user_id) (some agent.id) none "enrollment_token_created" info now
              (record s { store = full }),
        )
      ]
]

abbrev pub is_taken : Option RemoteAgentRecord → Bool
is_taken none = false
is_taken (some existing) = not (is_revoked_agent existing)

-- The agent of the request, with the profile that is granted.
abbrev pub requested_agent : RemotePrincipal → Args → String → ℕ → RemoteAgentRecord
requested_agent principal args agent_id now =
    pending_agent agent_id principal.user_id (trim_string (get_or args.alias ""))
      (create_agent_policy (granted_profile (get_or args.requested_profile "read-only"))) now

unfoldable pub create_token :
    External
    → RemoteConfig
    → RemotePrincipal
    → Args
    → String
    → String
    → String
    → ℕ
    → ControlPlane
    → Reply (InstallCommand × String) × ControlPlane
create_token ext config principal args agent_id token token_id now s =
    let alias = trim_string (get_or args.alias "") in
    if not (has_capability principal.capabilities (codes "agents.admin"))
    then (thrown (failed invalid_scope 403), s)
    else if alias == ""
    then (thrown (failed forbidden 400), s)
    else if is_taken (get_agent_by_alias principal.user_id alias s.store)
    then (thrown (failed forbidden 400), s)
    else insert_pending ext config (requested_agent principal args agent_id now) token token_id now
        s

abbrev fits : ℕ → String → Bool
fits most text = leb 1 (length (codes text)) && leb (length (codes text)) most

-- `parseAgentHostMetadata`
unfoldable pub parse_agent_host_metadata : AgentHostMetadata → Reply AgentHostMetadata
parse_agent_host_metadata host =
    if fits 255 host.hostname && fits 128 host.os && fits 64 host.arch && fits 128 host.platform
    then returned host
    else thrown raised

-- What the agent is told when it is enrolled, without the constants of the server.
pub record Enrolled : Type 0 where
  pub agent_id : String
  pub alias : String
  pub policy : AgentPolicy

unfoldable pub enroll_agent :
    AgentEnrollmentTokenRecord
    → String
    → AgentHostMetadata
    → ℕ
    → ControlPlane
    → Reply Enrolled × ControlPlane
enroll_agent enrollment public_key host now s = elim (get_agent enrollment.agent_id s.store) [
  | none ↦ (thrown (failed agent_not_found 404), s)
  | some agent ↦
      if is_revoked_agent agent
      then (thrown (failed agent_not_found 404), s)
      else elim (mark_enrollment_token_used enrollment.token_hash now s.store) [
        | thrown failure ↦ (thrown (failed invalid_token 401), s)
        | returned store ↦ (
          returned (record { agent_id = agent.id; alias = agent.alias; policy = agent.policy }),
          audit (some agent.user_id) (some agent.id) none "agent_enrolled" info now (record s {
            store =
                update_agent
                  (record agent {
                    status = offline;
                    public_key = some public_key;
                    host_metadata = some host;
                    updated_at = now;
                  })
                  store;
          }),
        )
      ]
]

-- The token, the key and the host of the body; none is a property that is missing or has another
-- type.
unfoldable pub handle_agent_enroll :
    External
    → Option String
    → Option String
    → Option AgentHostMetadata
    → ℕ
    → ControlPlane
    → Reply Enrolled × ControlPlane
handle_agent_enroll ext token public_key none now s = (thrown (failed forbidden 400), s)
handle_agent_enroll ext token public_key (some body_host) now s =
    elim (parse_agent_host_metadata body_host) [
      | thrown failure ↦ (thrown failure, s)
      | returned host ↦
          if not (is_given token) || not (is_given public_key)
          then (thrown (failed forbidden 400), s)
          else if not (ext.is_ed25519_public_key (get_or public_key ""))
          then (thrown (failed forbidden 400), s)
          else elim (get_enrollment_token_by_hash (hash_secret ext (get_or token "")) s.store) [
            | none ↦ (thrown (failed invalid_token 401), s)
            | some enrollment ↦
                if is_some enrollment.used_at || ltb enrollment.expires_at now
                then (thrown (failed invalid_token 401), s)
                else enroll_agent enrollment (get_or public_key "") host now s
          ]
    ]
