-- ===== src/Session/Capacity.antt =====
-- The limit on the number of sessions of src/session.ts, for opens that do not overlap.
use oaslananka_lab_mcp_ssh_t.Prelude.{
  ℕ, ◌≤◌, ◌<◌, String, ◌≡◌, refl, sym, ap, inl, inr, Bool, true, Option, some, [], ◌∷◌, arith,
  eq_iff, leb, Bool-cases, get_or, length, All,
}
use oaslananka_lab_mcp_ssh_t.StringMap
use oaslananka_lab_mcp_ssh_t.StringMap.{StringMap}
use oaslananka_lab_mcp_ssh_t.Policy.Engine.{PolicyMode, PolicyContext, enforce, explain}
use oaslananka_lab_mcp_ssh_t.Policy.Evaluate.{Verdict}
use oaslananka_lab_mcp_ssh_t.Session.{
  policy_verdict, new_session, new_opening, is_root_denied, SessionManager, SshSession, Security,
  ConnectionParams, Opening, connecting, close_begin, close_finish, finish_each, open_begin,
  open_finish, evict_oldest_session, oldest_session, make_room, begin_in,
}
use oaslananka_lab_mcp_ssh_t.Session.Eviction.{Holds, NoneBefore, oldest_session-NoneBefore}

has-Holds :
    (sessions : StringMap SshSession) (id : String) (s : SshSession)
    → Holds sessions id s
    → StringMap.has id sessions ≡ true
unfolding StringMap.get
has-Holds [] id s h = absurd h
has-Holds ((k, t) ∷ rest) id s (inl e) = ground (arith, eq_iff k id)
has-Holds ((k, t) ∷ rest) id s (inr h) = ground (arith, has-Holds rest id s h)

length-delete-lt :
    (sessions : StringMap SshSession) (id : String)
    → StringMap.has id sessions ≡ true
    → length (StringMap.delete id sessions) < length sessions
unfolding StringMap.get StringMap.delete
length-delete-lt [] id h = cc
length-delete-lt ((k, t) ∷ rest) id h =
    ground (arith, length-delete-lt rest id, StringMap.length-delete-le id rest)

-- No session was used at the time or after it.
abbrev AllBefore : ℕ → StringMap SshSession → Type 0
AllBefore time = All (λ entry. entry.1.info.last_used < time)

-- An eviction and the end of its `closeSession`.
evicted-sessions :
    (m : SessionManager) (now : ℕ) (id : String)
    → m.closing ≡ []
    → oldest_session m now ≡ some id
    → StringMap.has id m.sessions ≡ true
    → (finish_each (evict_oldest_session m now) (evict_oldest_session m now).closing).sessions
      ≡ StringMap.delete id m.sessions
unfolding finish_each evict_oldest_session close_begin close_finish
evicted-sessions m now id c o h = rw (o, evict_oldest_session) (rw (h, c, close_begin) refl)

NoneBefore-nil :
    (now : ℕ) (sessions : StringMap SshSession)
    → NoneBefore now sessions
    → AllBefore now sessions
    → length sessions ≡ 0
NoneBefore-nil now [] n b = refl
NoneBefore-nil now (entry ∷ rest) n b = absurd (omega arith)

evicted-length :
    (m : SessionManager) (now : ℕ)
    → m.closing ≡ []
    → 1 ≤ length m.sessions
    → AllBefore now m.sessions
    → length
        (finish_each (evict_oldest_session m now) (evict_oldest_session m now).closing).sessions
      < length m.sessions
evicted-length m now c l b = elim (oldest_session-NoneBefore m now) [
  | inl (o, n) ↦ let e = NoneBefore-nil now m.sessions n b in absurd (omega arith)
  | inr (id, s, o, h, before, n) ↦
      let held = has-Holds m.sessions id s h in
      rw (evicted-sessions m now id c o held) (length-delete-lt m.sessions id held)
]

room_made :
    (m : SessionManager) (now : ℕ)
    → m.closing ≡ []
    → 1 ≤ m.max_sessions
    → length m.sessions ≤ m.max_sessions
    → AllBefore now m.sessions
    → length (finish_each (make_room m now) (make_room m now).closing).sessions < m.max_sessions
unfolding make_room finish_each
room_made m now c l h b = elim (Bool-cases (leb m.max_sessions (length m.sessions))) [
  | inl full ↦
      let less = evicted-length m now c (ground arith) b in rw (full, make_room) (omega arith)
  | inr free ↦ rw (free, c, make_room, finish_each) (ground arith)
]

module _ (security : Security) (policy : Option (PolicyContext → Verdict)) where
  begin_in-connecting :
      (mode : PolicyMode) (m : SessionManager) (o p : Opening) (allowed : Bool)
      → (begin_in security policy mode m o allowed).1 ≡ connecting p
      → ((begin_in security policy mode m o allowed).0 ≡ make_room m o.now) × (o ≡ p)
  unfolding begin_in
  begin_in-connecting explain m o p allowed h = cc
  begin_in-connecting enforce m o p allowed h =
      elim (Bool-cases (is_root_denied security policy o.params)) [
        | inl root ↦ cc (rw (root, begin_in) at h)
        | inr user ↦ rw user (refl, cc (rw (user, begin_in) at h))
      ]

  pub open_begin-connecting :
      (m : SessionManager) (params : ConnectionParams) (id : String) (now : ℕ) (o : Opening)
      → (open_begin security policy m params id now).1 ≡ connecting o
      → ((open_begin security policy m params id now).0 ≡ make_room m now)
        × (o.now ≡ now)
        × (o.session_id ≡ id)
  unfolding open_begin new_opening
  open_begin-connecting m params id now o h =
      let mode = get_or params.policy_mode enforce in
      let opening = new_opening security policy m params id now mode in
      elim (Bool-cases (policy_verdict security policy params mode).0) [
        | inl thrown ↦ cc (rw (thrown, open_begin) at h)
        | inr passed ↦
            let begun =
              begin_in-connecting mode m opening o (policy_verdict security policy params mode).1
                (rw (passed, open_begin) at h) in
            rw (passed, open_begin)
              (begun.0, ap (λ p. p.now) (sym begun.1), ap (λ p. p.session_id) (sym begun.1))
      ]

  -- An open that overlaps no other, while no session is being closed, where the `closeSession` of
  -- the evicted session ends before the connection is made: with a limit of at least one that the
  -- number of sessions keeps to, that number stays within the limit, if each session was last used
  -- before now.
  pub open-within_limit :
      (m : SessionManager) (params : ConnectionParams) (id : String) (now : ℕ) (o : Opening)
      (sftp : Bool)
      → m.closing ≡ []
      → 1 ≤ m.max_sessions
      → length m.sessions ≤ m.max_sessions
      → AllBefore now m.sessions
      → (open_begin security policy m params id now).1 ≡ connecting o
      → let begun = (open_begin security policy m params id now).0 in
        length (open_finish (finish_each begun begun.closing) o sftp).0.sessions ≤ m.max_sessions
  unfolding open_finish
  open-within_limit m params id now o sftp c l h b e =
      let begun = open_begin-connecting m params id now o e in
      let room = room_made m now c l h b in
      let added =
        StringMap.length-set o.session_id (new_session o sftp)
          (finish_each (make_room m now) (make_room m now).closing).sessions in
      rw (begun.0, added) (ground arith)
