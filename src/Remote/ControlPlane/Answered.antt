-- ===== src/Remote/ControlPlane/Answered.antt =====
-- Each action of src/remote/control-plane.ts is answered at most once, and its timer answers it.
use oaslananka_lab_mcp_ssh_t.Remote.ControlPlane.Steps.{Steps, times_out, done, next}
use oaslananka_lab_mcp_ssh_t.Remote.ControlPlane.Actions.{
  drop_pending, on_action_timeout, finish_action, rejected,
}
use oaslananka_lab_mcp_ssh_t.Remote.ControlPlane.State.{
  PendingAction, new_control_plane, RemoteConfig, audit, ControlPlane, External,
}
use oaslananka_lab_mcp_ssh_t.Remote.ControlPlane.Settled.{
  Move-outstanding, is_stored, Move-Settling, weight, outstanding, count_replies, Settling,
}
use oaslananka_lab_mcp_ssh_t.Remote.ControlPlane.Quiet.{acts}
use oaslananka_lab_mcp_ssh_t.StringMap.{get-delete, get, has}
use oaslananka_lab_mcp_ssh_t.Remote.Store.Types.{agent_timeout}
use oaslananka_lab_mcp_ssh_t.Remote.ControlPlane.Moves.{Step-Move}
use oaslananka_lab_mcp_ssh_t.Prelude.{
  ℕ, ◌+◌, ◌≤◌, String, ◌≡◌, refl, inl, inr, Bool, true, false, some, arith, eq_refl, Option-cases,
}

-- The invariant, and what a step cannot take back.
Steps-Settling :
    (ext : External) (config : RemoteConfig) (s t : ControlPlane)
    → Steps ext config s t
    → Settling (acts s)
    → Settling (acts t) × ((k : String) → outstanding k (acts s) ≤ outstanding k (acts t))
Steps-Settling ext config s t done w = (w, λ k. omega arith)
Steps-Settling ext config s t (next {u} steps step) w =
    let (v, before) = Steps-Settling ext config s _ steps w in
    let move = Step-Move ext config _ _ step in
    (Move-Settling _ _ move v, λ k. omega (arith, before k, Move-outstanding _ _ k move v))

new-Settling : Settling (acts new_control_plane)
unfolding get
new-Settling = (λ k. omega arith, λ k e h. absurd (cc))

-- In every state that the steps reach from a new control plane, whatever the agents and the callers
-- send and in whatever order, the caller of an action was answered at most once, and never while the
-- action still waits; nothing waits or was answered that is not stored.
pub Steps-answered :
    (ext : External) (config : RemoteConfig) (s : ControlPlane)
    → Steps ext config new_control_plane s
    → (id : String)
    → count_replies id s.replies + weight (has id s.pending_actions)
      ≤ weight (is_stored id s.store.actions)
Steps-answered ext config s steps id =
    (Steps-Settling ext config new_control_plane s steps new-Settling).0.0 id

finished :
    (id : String) (entry : PendingAction) (now : ℕ) (s : ControlPlane)
    → has id
        (finish_action entry.action
          (rejected (some agent_timeout))
          now
          (drop_pending id s)).pending_actions
      ≡ false
unfolding finish_action audit
finished id entry now s = rw (get-delete id id s.pending_actions, eq_refl id) refl

timer-answers :
    (id : String) (now : ℕ) (s : ControlPlane)
    → has id (on_action_timeout id now s).pending_actions ≡ false
unfolding on_action_timeout
timer-answers id now s = elim (Option-cases (get id s.pending_actions)) [
  | inl gone ↦ rw (gone, on_action_timeout) (rw gone refl)
  | inr (entry, g) ↦ rw (g, on_action_timeout) (finished id entry now s)
]

weight-le : (b : Bool) → weight b ≤ 1
weight-le true = omega arith
weight-le false = omega arith

-- An action that waits is answered at the latest by its timer, and then exactly once: whatever steps
-- come before the timer fires, after it the action waits no more and its caller was answered once. The
-- action waits in a state that the steps reach from a new control plane.
pub on_action_timeout-answered :
    (ext : External) (config : RemoteConfig) (id : String) (now : ℕ) (s t : ControlPlane)
    → Steps ext config new_control_plane s
    → has id s.pending_actions ≡ true
    → Steps ext config s t
    → (count_replies id (on_action_timeout id now t).replies ≡ 1)
      × (has id (on_action_timeout id now t).pending_actions ≡ false)
on_action_timeout-answered ext config id now s t reached waits steps =
    let (w, before) = Steps-Settling ext config new_control_plane s reached new-Settling in
    let (v, after) = Steps-Settling ext config s t steps w in
    let move = Step-Move ext config t (on_action_timeout id now t) (times_out id now) in
    let u = Move-Settling _ _ move v in
    let over = timer-answers id now t in
    let low : 1 ≤ outstanding id (acts s) = rw waits (omega arith) in
    let up : 1 ≤ outstanding id (acts (on_action_timeout id now t)) =
      omega (arith, low, after id, Move-outstanding _ _ id move v) in
    let most : outstanding id (acts (on_action_timeout id now t)) ≤ 1 =
      omega (arith, u.0 id, weight-le (is_stored id (on_action_timeout id now t).store.actions)) in
    (omega (arith, rw over at up, rw over at most), over)
