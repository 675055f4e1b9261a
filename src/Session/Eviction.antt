-- ===== src/Session/Eviction.antt =====
-- Which session `evictOldestSession` of src/session.ts chooses.
use oaslananka_lab_mcp_ssh_t.Prelude.{
  ℕ, ◌≤◌, ◌<◌, String, ◌≡◌, refl, ap, ◌⊎◌, inl, inr, Option, none, some, [], ◌∷◌, arith, ltb,
  Bool-cases, All, AnyOf,
}
use oaslananka_lab_mcp_ssh_t.StringMap.{StringMap}
use oaslananka_lab_mcp_ssh_t.Session.{
  SessionManager, SshSession, older, oldest_from, oldest_session,
}

-- The session stands in the map under the identifier.
abbrev pub Holds : StringMap SshSession → String → SshSession → Type 0
Holds sessions id s = AnyOf (λ entry. entry ≡ (id, s)) sessions

-- No session was used before the time.
abbrev pub NoneBefore : ℕ → StringMap SshSession → Type 0
NoneBefore time = All (λ entry. time ≤ entry.1.info.last_used)

-- The choice among some sessions, given the best before them.
abbrev Chosen : ℕ → Option String → StringMap SshSession → ℕ × Option String → Type 0
Chosen time found sessions result =
    ((result ≡ (time, found)) × NoneBefore time sessions)
    ⊎ ((id : String) × (s : SshSession) × (result ≡ (s.info.last_used, some id))
        × Holds sessions id s
        × (s.info.last_used < time)
        × NoneBefore s.info.last_used sessions)

NoneBefore-le :
    (a b : ℕ) (sessions : StringMap SshSession)
    → a ≤ b
    → NoneBefore b sessions
    → NoneBefore a sessions
NoneBefore-le a b [] h n = tt
NoneBefore-le a b (entry ∷ rest) h n = (omega arith, NoneBefore-le a b rest h n.1)

oldest_from-Chosen :
    (time : ℕ) (found : Option String) (sessions : StringMap SshSession)
    → Chosen time found sessions (oldest_from (time, found) sessions)
unfolding oldest_from older
oldest_from-Chosen time found [] = inl (refl, tt)
oldest_from-Chosen time found ((id, s) ∷ rest) = elim (Bool-cases (ltb s.info.last_used time)) [
  | inl sooner ↦ rw sooner (elim (oldest_from-Chosen s.info.last_used (some id) rest) [
    | inl (e, n) ↦ inr (id, s, e, inl refl, ground arith, (ground arith, n))
    | inr (other, t, e, h, l, n) ↦ inr (other, t, e, inr h, ground arith, (ground arith, n))
  ])
  | inr later ↦ rw later (elim (oldest_from-Chosen time found rest) [
    | inl (e, n) ↦ inl (e, (ground arith, n))
    | inr (other, t, e, h, l, n) ↦ inr (other, t, e, inr h, l, (ground arith, n))
  ])
]

-- Either no session was used before now, and none is chosen for eviction; or the one that is chosen
-- was used before now, and no session before it.
pub oldest_session-NoneBefore :
    (m : SessionManager) (now : ℕ)
    → ((oldest_session m now ≡ none) × NoneBefore now m.sessions)
      ⊎ ((id : String) × (s : SshSession) × (oldest_session m now ≡ some id)
          × Holds m.sessions id s
          × (s.info.last_used < now)
          × NoneBefore s.info.last_used m.sessions)
unfolding oldest_session
oldest_session-NoneBefore m now = elim (oldest_from-Chosen now none m.sessions) [
  | inl (e, n) ↦ inl (ap (λ r. r.1) e, n)
  | inr (id, s, e, h, l, n) ↦ inr (id, s, ap (λ r. r.1) e, h, l, n)
]
