-- ===== src/Session/Lifecycle.antt =====
-- The session manager of src/session.ts under every interleaving of its methods: a world is the
-- manager, the time and the opens that wait for a connection, and a step is a part of a method that
-- runs without interruption.
use oaslananka_lab_mcp_ssh_t.Prelude.{
  ℕ, ◌≤◌, String, ◌≡◌, subst, inl, inr, Bool, Option, some, List, [], ◌∷◌, ◌++◌, ◌==◌, eq_iff,
  Bool-cases, All,
}
use oaslananka_lab_mcp_ssh_t.StringMap
use oaslananka_lab_mcp_ssh_t.StringMap.{StringMap}
use oaslananka_lab_mcp_ssh_t.Policy.Engine.{PolicyContext}
use oaslananka_lab_mcp_ssh_t.Policy.Evaluate.{Verdict}
use oaslananka_lab_mcp_ssh_t.Session.{
  SessionManager, SshSession, Security, ConnectionParams, Opening, OpenStart, connecting, explained,
  root_denied, denied_by_policy, close_begin, close_finish, open_begin, open_finish, get_session,
  cleanup_expired_sessions,
}

pub record World : Type 0 where
  pub manager : SessionManager
  pub now : ℕ
  pub opening : List Opening

-- The opens that wait after one more has begun.
abbrev pub waiting : OpenStart → List Opening → List Opening
waiting (connecting o) os = o ∷ os
waiting (explained r) os = os
waiting denied_by_policy os = os
waiting root_denied os = os

module _ (security : Security) (policy : Option (PolicyContext → Verdict)) where
  pub data Step : World → World → Type 0 where
    time_passes : (w : World) (t : ℕ) → w.now ≤ t → Step w (record w { now = t })
    begins :
        (w : World) (params : ConnectionParams) (id : String)
        → Step w (record w {
          manager = (open_begin security policy w.manager params id w.now).0;
          opening = waiting (open_begin security policy w.manager params id w.now).1 w.opening;
        })
    connects :
        (w : World) (before after : List Opening) (o : Opening) (sftp : Bool)
        → w.opening ≡ before ++ (o ∷ after)
        → Step w
            (record w { manager = (open_finish w.manager o sftp).0; opening = before ++ after })
    fails :
        (w : World) (before after : List Opening) (o : Opening)
        → w.opening ≡ before ++ (o ∷ after)
        → Step w (record w { opening = before ++ after })
    gets :
        (w : World) (id : String)
        → Step w (record w { manager = (get_session w.manager id w.now).0 })
    closes :
        (w : World) (id : String) → Step w (record w { manager = (close_begin w.manager id).0 })
    finishes : (w : World) (id : String) → Step w (record w { manager = close_finish w.manager id })
    cleans : (w : World) → Step w (record w { manager = cleanup_expired_sessions w.manager w.now })

  pub data Steps : World → World → Type 0 where
    done : (w : World) → Steps w w
    next : {u v w : World} → Step u v → Steps v w → Steps u w

-- What holds of a session in the map at a time.
abbrev pub IsEntry : ℕ → String × SshSession → Type 0
IsEntry now (id, s) =
    (s.info.session_id ≡ id) × (s.info.created_at ≤ s.info.last_used) × (s.info.last_used ≤ now)

pub record WellFormed (w : World) : Type 0 where
  pub distinct : StringMap.Distinct w.manager.sessions
  pub entries : All (IsEntry w.now) w.manager.sessions
  pub begun : All (λ o. o.now ≤ w.now) w.opening

pub All-set :
    (P : String × SshSession → Type 0) (k : String) (s : SshSession)
    (sessions : StringMap SshSession)
    → P (k, s)
    → All P sessions
    → All P (StringMap.set k s sessions)
unfolding StringMap.set
All-set P k s [] p h = (p, tt)
All-set P k s ((j, t) ∷ rest) p h = elim (Bool-cases (j == k)) [
  | inl same ↦ rw same (p, h.1)
  | inr other ↦ rw other (h.0, All-set P k s rest p h.1)
]

pub All-delete :
    (P : String × SshSession → Type 0) (k : String) (sessions : StringMap SshSession)
    → All P sessions
    → All P (StringMap.delete k sessions)
unfolding StringMap.delete
All-delete P k [] h = tt
All-delete P k ((j, t) ∷ rest) h = elim (Bool-cases (j == k)) [
  | inl same ↦ rw same (All-delete P k rest h.1)
  | inr other ↦ rw other (h.0, All-delete P k rest h.1)
]

pub All-get :
    (P : String × SshSession → Type 0) (k : String) (s : SshSession)
    (sessions : StringMap SshSession)
    → All P sessions
    → StringMap.get k sessions ≡ some s
    → P (k, s)
unfolding StringMap.get
All-get P k s [] h e = cc
All-get P k s ((j, t) ∷ rest) h e = elim (Bool-cases (j == k)) [
  | inl same ↦
      let found : some t ≡ some s = rw same at e in subst P (cc ((eq_iff j k).0 same, found)) h.0
  | inr other ↦ All-get P k s rest h.1 (rw other at e)
]

pub All-remove :
    (P : Opening → Type 0) (before after : List Opening) (o : Opening)
    → All P (before ++ (o ∷ after))
    → P o × All P (before ++ after)
All-remove P [] after o h = h
All-remove P (x ∷ before) after o h =
    let rest = All-remove P before after o h.1 in (rest.0, (h.0, rest.1))
