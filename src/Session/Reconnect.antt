-- ===== src/Session/Reconnect.antt =====
-- `getSessionWithReconnect` of src/session.ts.
use oaslananka_lab_mcp_ssh_t.Prelude.{
  ℕ, String, ◌≡◌, refl, ap, ◌∙◌, inl, inr, Bool, false, Option, none, some, ◌==◌, eq_refl,
  Option-cases,
}
use oaslananka_lab_mcp_ssh_t.StringMap
use oaslananka_lab_mcp_ssh_t.StringMap.{StringMap}
use oaslananka_lab_mcp_ssh_t.Policy.Engine.{PolicyContext}
use oaslananka_lab_mcp_ssh_t.Policy.Evaluate.{Verdict}
use oaslananka_lab_mcp_ssh_t.Session.{
  SessionManager, SshSession, Security, Opening, OpenStart, connecting, explained, root_denied,
  denied_by_policy, close_begin, close_finish, open_begin, open_finish, open_complete,
  reconnect_session, get_session, get_session_with_reconnect,
}
use oaslananka_lab_mcp_ssh_t.Session.Reachable.{open_begin-sessions, open_begin-session_id}

closed_gone :
    (m : SessionManager) (id : String) → StringMap.get id (close_finish m id).sessions ≡ none
unfolding close_finish
closed_gone m id = StringMap.get-delete id id m.sessions ∙ rw (eq_refl id) refl

module _ (security : Security) (policy : Option (PolicyContext → Verdict)) where
  -- An open under another identifier leaves the session of this one as it is.
  get-open_complete :
      (r : SessionManager × OpenStart) (connection : Option Bool) (id : String)
      → ((o : Opening) → r.1 ≡ connecting o → (o.session_id == id) ≡ false)
      → StringMap.get id (open_complete security policy r connection).0.sessions
        ≡ StringMap.get id r.0.sessions
  unfolding open_complete open_finish
  get-open_complete (m, explained result) connection id apart = refl
  get-open_complete (m, denied_by_policy) connection id apart = refl
  get-open_complete (m, root_denied) connection id apart = refl
  get-open_complete (m, connecting o) none id apart = refl
  get-open_complete (m, connecting o) (some sftp) id apart =
      StringMap.get-set o.session_id id _ m.sessions ∙ rw (apart o refl) refl

  get-reconnect_session :
      (m : SessionManager) (id new_id : String) (now : ℕ) (connection : Option Bool)
      → (new_id == id) ≡ false
      → StringMap.get id (reconnect_session security policy m id new_id now connection).0.sessions
        ≡ none
  unfolding reconnect_session
  get-reconnect_session m id new_id now connection apart =
      elim (Option-cases (StringMap.get id m.sessions)) [
        | inl missing ↦ rw (missing, reconnect_session) missing
        | inr (s, e) ↦
            let closed = close_finish (close_begin m id).0 id in
            let begun = open_begin security policy closed s.connection_params new_id now in
            rw (e, reconnect_session)
              (get-open_complete begun connection id (λ o h.
                  rw
                    (open_begin-session_id security policy closed s.connection_params new_id now o
                      h)
                    apart)
                ∙ ap (StringMap.get id)
                    (open_begin-sessions security policy closed s.connection_params new_id now)
                ∙ closed_gone (close_begin m id).0 id)
      ]

  -- A session that is found and fails its health check is not given, and it is gone from the
  -- manager, whether or not a new session, which has another identifier, takes its place.
  get_session_with_reconnect-dead :
      (m : SessionManager) (id new_id : String) (now : ℕ) (connection : Option Bool)
      (s : SshSession)
      → (new_id == id) ≡ false
      → (get_session m id now).1 ≡ some s
      → let r = get_session_with_reconnect security policy m id new_id now false connection in
        (r.1 ≡ none) × (StringMap.get id r.0.sessions ≡ none)
  unfolding get_session_with_reconnect
  get_session_with_reconnect-dead m id new_id now connection s apart found =
      rw found (refl, get-reconnect_session (get_session m id now).0 id new_id now connection apart)
