-- ===== src/Session/Lookup.antt =====
-- What `getSession` of src/session.ts gives, and what it leaves.
use oaslananka_lab_mcp_ssh_t.Prelude.{
  ℕ, ◌≤◌, ◌<◌, String, ◌≡◌, refl, subst, ◌⊎◌, inl, inr, true, false, none, some, arith, ◌==◌,
  if◌then◌else◌, Bool-cases, Option-cases,
}
use oaslananka_lab_mcp_ssh_t.StringMap
use oaslananka_lab_mcp_ssh_t.StringMap.{StringMap}
use oaslananka_lab_mcp_ssh_t.Session.{
  SessionManager, SshSession, close_begin, get_session, has_expired, touch,
}

pub close_begin-sessions :
    (m : SessionManager) (id : String) → (close_begin m id).0.sessions ≡ m.sessions
unfolding close_begin
close_begin-sessions m id = ground arith

expired_of :
    (m : SessionManager) (id : String) (now : ℕ) (s t : SshSession)
    → StringMap.get id m.sessions ≡ some s
    → StringMap.get id m.sessions ≡ some t
    → has_expired now s ≡ true
    → t.info.expires_at < now
unfolding has_expired
expired_of m id now s t e f old =
    let same : s ≡ t = cc (e, f) in subst (λ x. x.info.expires_at < now) same (ground arith)

not_expired : (now : ℕ) (s : SshSession) → has_expired now s ≡ false → now ≤ s.info.expires_at
unfolding has_expired
not_expired now s young = ground arith

get_session_missing :
    (m : SessionManager) (id : String) (now : ℕ)
    → StringMap.get id m.sessions ≡ none
    → get_session m id now ≡ (m, none)
unfolding get_session
get_session_missing m id now e = rw (e, get_session) refl

get_session_found :
    (m : SessionManager) (id : String) (now : ℕ) (s : SshSession)
    → StringMap.get id m.sessions ≡ some s
    → get_session m id now ≡ (
        if has_expired now s then ((close_begin m id).0, none) else (
          record m { sessions = StringMap.set id (touch now s) m.sessions },
          some (touch now s),
        ))
unfolding get_session
get_session_found m id now s e = rw (e, get_session) refl

-- The sessions that a call leaves.
pub get_session-sessions :
    (m : SessionManager) (id : String) (now : ℕ)
    → ((get_session m id now).0.sessions ≡ m.sessions)
      ⊎ ((s : SshSession) × (StringMap.get id m.sessions ≡ some s)
          × ((get_session m id now).0.sessions ≡ StringMap.set id (touch now s) m.sessions))
get_session-sessions m id now = elim (Option-cases (StringMap.get id m.sessions)) [
  | inl missing ↦ inl (rw (get_session_missing m id now missing) refl)
  | inr (s, e) ↦ elim (Bool-cases (has_expired now s)) [
    | inl old ↦ inl (rw (get_session_found m id now s e, old) (close_begin-sessions m id))
    | inr young ↦ inr (s, e, rw (get_session_found m id now s e, young) refl)
  ]
]

-- A call that finds nothing leaves every session as it is, and the session is missing or past its
-- time; a call that finds the session gives it with the time of the call, before the end of its
-- life, and changes no other.
pub get_session-cases :
    (m : SessionManager) (id : String) (now : ℕ)
    → (((get_session m id now).1 ≡ none)
        × ((get_session m id now).0.sessions ≡ m.sessions)
        × ((s : SshSession) → StringMap.get id m.sessions ≡ some s → s.info.expires_at < now))
      ⊎ ((s : SshSession) × (StringMap.get id m.sessions ≡ some s)
          × (now ≤ s.info.expires_at)
          × ((get_session m id now).1 ≡ some (touch now s))
          × ((j : String)
              → StringMap.get j (get_session m id now).0.sessions
                ≡ (if id == j then some (touch now s) else StringMap.get j m.sessions)))
get_session-cases m id now = elim (Option-cases (StringMap.get id m.sessions)) [
  | inl missing ↦ rw (get_session_missing m id now missing) (inl (refl, refl, λ s e. cc))
  | inr (s, e) ↦ elim (Bool-cases (has_expired now s)) [
    | inl old ↦
        rw (get_session_found m id now s e, old)
          (inl (refl, close_begin-sessions m id, λ t f. expired_of m id now s t e f old))
    | inr young ↦
        rw (get_session_found m id now s e, young)
          (inr (
            s,
            e,
            not_expired now s young,
            refl,
            λ j. StringMap.get-set id j (touch now s) m.sessions,
          ))
  ]
]
