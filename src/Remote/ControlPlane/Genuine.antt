-- ===== src/Remote/ControlPlane/Genuine.antt =====
-- Which results of agents src/remote/control-plane.ts passes on to the caller of an action.
use oaslananka_lab_mcp_ssh_t.Remote.ControlPlane.Actions.{
  with_nonces, receive_result, handle_action_result, Settlement, verify_result, reject_result,
  is_signed, finish_action, resolved, rejected,
}
use oaslananka_lab_mcp_ssh_t.Remote.ControlPlane.State.{
  AgentConnection, ControlPlane, PendingAction, audit, External,
}
use oaslananka_lab_mcp_ssh_t.Remote.Store.Types.{
  internal_error, failed, thrown, returned, RemoteErrorCode, RemoteAgentRecord, ActionRecord,
  ActionResultEnvelope,
}
use oaslananka_lab_mcp_ssh_t.Remote.Store.Tables.{RemoteStore}
use oaslananka_lab_mcp_ssh_t.Remote.Store.Records.{get_agent}
use oaslananka_lab_mcp_ssh_t.StringMap.{get, StringMap}
use oaslananka_lab_mcp_ssh_t.Remote.ControlPlane.Nonces.{prune_nonce_window, has_seen_nonce}
use oaslananka_lab_mcp_ssh_t.Prelude.{
  leb, keep, ◌≤◌, All, eqb, ◌||◌, not, ◌↔◌, ℕ, String, ◌≡◌, refl, sym, ◌∙◌, ◌≢◌, inl, inr, true,
  false, Option, some, List, [], ◌∷◌, ◌++◌, arith, ◌==◌, eq_iff, Bool-cases, Option-cases, get_or,
}

snoc_injective {ℓ} : {A : Type ℓ} (xs : List A) (a b : A) → xs ++ (a ∷ []) ≡ xs ++ (b ∷ []) → a ≡ b
snoc_injective [] a b e = ground (arith, e)
snoc_injective (x ∷ xs) a b e =
    let rest : xs ++ (a ∷ []) ≡ xs ++ (b ∷ []) = ground (arith, e) in snoc_injective xs a b rest

-- Each entry of the nonce, a nonce with the time at which it is forgotten, is over.
abbrev IsFresh : ℕ → String → StringMap ℕ → Type 0
IsFresh now nonce = All (λ entry. entry.0 ≡ nonce → entry.1 ≤ now)

has_seen_nonce-IsFresh :
    (nonces : StringMap ℕ) (nonce : String) (now : ℕ)
    → ((has_seen_nonce nonces nonce now).0 ≡ false) ↔ IsFresh now nonce nonces
unfolding has_seen_nonce prune_nonce_window keep get
has_seen_nonce-IsFresh [] nonce now = (λ h. tt, λ h. refl)
has_seen_nonce-IsFresh ((j, until) ∷ rest) nonce now =
    let tail = has_seen_nonce-IsFresh rest nonce now in
    elim (Bool-cases (leb until now)) [
      | inl over ↦
          let past : until ≤ now = ground arith in
          rw over (λ h. ((λ e. past), tail.0 h), λ p. tail.1 p.1)
      | inr live ↦ elim (Bool-cases (j == nonce)) [
        | inl same ↦
            let key : j ≡ nonce = (eq_iff j nonce).0 same in
            rw (live, same)
              (λ h. absurd (cc), λ p. absurd (let past = p.0 key in ground (arith, past, live)))
        | inr other ↦
            rw (live, other)
              (
                λ h. ((λ e. absurd (let same = (eq_iff j nonce).1 e in cc)), tail.0 h),
                λ p. tail.1 p.1,
              )
      ]
    ]

-- The result is signed with the key of the agent that it names, which is the agent of the action, comes
-- on the connection of that agent, and the memory of
-- that connection holds its nonce at no time that is still to come.
abbrev pub IsGenuine :
    External → ℕ → ActionResultEnvelope → ActionRecord → ℕ → ControlPlane → Type 0
IsGenuine ext connection result action now s =
    (agent : RemoteAgentRecord) × (public_key : String) × (live : AgentConnection) × (get_agent
        action.agent_id s.store
      ≡ some agent)
    × (agent.public_key ≡ some public_key)
    × (result.signature ≢ "")
    × (ext.node_verify_result result public_key ≡ true)
    × (result.agent_id ≡ action.agent_id)
    × (get action.agent_id s.agent_connections ≡ some live)
    × (live.connection ≡ connection)
    × IsFresh now result.nonce live.seen_nonces

is_signed-key :
    (ext : External) (result : ActionResultEnvelope) (store : RemoteStore)
    → is_signed ext result store ≡ true
    → (agent : RemoteAgentRecord) × (public_key : String) × (get_agent result.agent_id store
        ≡ some agent)
      × (agent.public_key ≡ some public_key)
      × (result.signature ≢ "")
      × (ext.node_verify_result result public_key ≡ true)
unfolding is_signed verify_result
is_signed-key ext result store h = elim (Option-cases (get_agent result.agent_id store)) [
  | inl bad ↦ absurd (let g = rw (bad, is_signed) at h in cc)
  | inr (agent, found) ↦ elim (Option-cases agent.public_key) [
    | inl bad ↦ absurd (let g = rw (found, bad, is_signed) at h in cc)
    | inr (public_key, key) ↦ elim (Bool-cases (result.signature == "")) [
      | inl bad ↦ absurd (let g = rw (found, key, bad, is_signed, verify_result) at h in cc)
      | inr there ↦
          let g = rw (found, key, there, is_signed, verify_result) at h in
          (agent, public_key, found, key, ground (arith, there, eq_iff result.signature ""), g)
    ]
  ]
]

key-is_signed :
    (ext : External) (result : ActionResultEnvelope) (store : RemoteStore)
    (agent : RemoteAgentRecord) (public_key : String)
    → get_agent result.agent_id store ≡ some agent
    → agent.public_key ≡ some public_key
    → result.signature ≢ ""
    → ext.node_verify_result result public_key ≡ true
    → is_signed ext result store ≡ true
unfolding is_signed verify_result
key-is_signed ext result store agent public_key found key there g =
    let full : (result.signature == "") ≡ false = ground (arith, eq_iff result.signature "") in
    rw (found, is_signed) (rw (key, full) g)

finish_action-replies :
    (action : ActionRecord) (settlement : Settlement) (now : ℕ) (s : ControlPlane)
    → (finish_action action settlement now s).replies
      ≡ s.replies
        ++ ((
          action.id,
          elim settlement [
            | resolved result ↦ returned result
            | rejected code ↦ thrown (failed (get_or code internal_error) 504)
          ],
        )
            ∷ [])
unfolding finish_action audit
finish_action-replies action (resolved result) now s = refl
finish_action-replies action (rejected code) now s = refl

-- A refusal is no result.
refused :
    (entry : PendingAction) (id event_type : String) (code : Option RemoteErrorCode) (now : ℕ)
    (s : ControlPlane) (result : ActionResultEnvelope)
    → (reject_result entry id event_type code now s).replies
      ≡ s.replies ++ ((entry.action.id, returned result) ∷ [])
    → ⊥
unfolding reject_result audit
refused entry id event_type code now s result e =
    let same =
      snoc_injective s.replies _ _
        (sym (finish_action-replies entry.action (rejected code) now _) ∙ e) in
    cc

receive_result-replies :
    (entry : PendingAction) (live : AgentConnection) (result : ActionResultEnvelope) (now : ℕ)
    (s : ControlPlane)
    → ((receive_result entry live result now s).replies
        ≡ s.replies ++ ((entry.action.id, returned result) ∷ []))
      ↔ ((has_seen_nonce live.seen_nonces result.nonce now).0 ≡ false)
unfolding receive_result
receive_result-replies entry live result now s =
    elim (Bool-cases (has_seen_nonce live.seen_nonces result.nonce now).0) [
      | inl seen ↦
          rw (seen, receive_result)
            (
              λ e. absurd (refused entry _ _ _ now (with_nonces result.agent_id live _ s) result e),
              λ f. absurd (cc),
            )
      | inr fresh ↦
          rw (fresh, receive_result)
            (λ e. refl, λ f. finish_action-replies entry.action (resolved result) now _)
    ]

-- A waiting action is answered with a result exactly when the result is signed with the key of the
-- agent of the action, names that agent, arrives on the connection that is live for it, and brings a
-- nonce that the memory of that connection does not hold any more, or never held: each entry of the
-- nonce has a time that is over.
pub handle_action_result-IsGenuine_iff :
    (ext : External) (connection : ℕ) (result : ActionResultEnvelope) (now : ℕ) (s : ControlPlane)
    (entry : PendingAction)
    → get result.action_id s.pending_actions ≡ some entry
    → ((handle_action_result ext connection result now s).replies
        ≡ s.replies ++ ((entry.action.id, returned result) ∷ []))
      ↔ IsGenuine ext connection result entry.action now s
unfolding handle_action_result
handle_action_result-IsGenuine_iff ext connection result now s entry h = (
  λ e. elim (Bool-cases (is_signed ext result s.store)) [
    | inr bad ↦ absurd (refused entry _ _ _ now s result (rw (h, bad, handle_action_result) at e))
    | inl ok ↦ elim (Option-cases (get result.agent_id s.agent_connections)) [
      | inl off ↦
          absurd (refused entry _ _ _ now s result (rw (h, ok, off, handle_action_result) at e))
      | inr (live, on) ↦
          elim (Bool-cases (
            not (entry.action.agent_id == result.agent_id)
            || not (eqb live.connection connection))) [
              | inl bad ↦ absurd (
                  refused entry _ _ _ now s result (rw (h, ok, on, bad, handle_action_result) at e))
              | inr own ↦
                  let fresh =
                    (receive_result-replies entry live result now s).0
                      (rw (h, ok, on, own, handle_action_result) at e) in
                  let unseen = (has_seen_nonce-IsFresh live.seen_nonces result.nonce now).0 fresh in
                  let (agent, public_key, found, key, there, verified) =
                    is_signed-key ext result s.store ok in
                  let same : result.agent_id ≡ entry.action.agent_id =
                    ground (arith, own, eq_iff entry.action.agent_id result.agent_id) in
                  (
                    agent,
                    public_key,
                    live,
                    rw same at found,
                    key,
                    there,
                    verified,
                    same,
                    rw same at on,
                    ground (arith, own),
                    unseen,
                  )
            ]
    ]
  ],
  λ g.
      let (agent, public_key, live, found, key, there, verified, same, on, here, fresh) = g in
      let ok =
        key-is_signed ext result s.store agent public_key (rw same found) key there verified in
      let own : (not (entry.action.agent_id == result.agent_id)
            || not (eqb live.connection connection))
          ≡ false =
        ground (arith, same, here, eq_iff entry.action.agent_id result.agent_id) in
      let on_result : get result.agent_id s.agent_connections ≡ some live = rw same on in
      rw (h, ok, on_result, own, handle_action_result)
        ((receive_result-replies entry live result now s).1
          ((has_seen_nonce-IsFresh live.seen_nonces result.nonce now).1 fresh)),
)
