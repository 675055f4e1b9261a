-- ===== src/Session/Reachable.antt =====
-- What holds of the session manager of src/session.ts in every world that its steps reach.
use oaslananka_lab_mcp_ssh_t.Prelude.{
  ℕ, ◌≤◌, String, ◌≡◌, refl, subst, inl, inr, Bool, Option, some, List, [], ◌∷◌, ◌++◌, arith, leb,
  Bool-cases, Option-cases, get_or, length, All,
}
use oaslananka_lab_mcp_ssh_t.StringMap
use oaslananka_lab_mcp_ssh_t.StringMap.{StringMap}
use oaslananka_lab_mcp_ssh_t.Policy.Engine.{PolicyMode, PolicyContext, enforce, explain}
use oaslananka_lab_mcp_ssh_t.Policy.Evaluate.{Verdict}
use oaslananka_lab_mcp_ssh_t.Session.{
  SessionManager, SshSession, Security, ConnectionParams, Opening, OpenStart, close_begin,
  close_finish, open_begin, open_finish, new_session, evict_oldest_session, oldest_session,
  make_room, begin_in, get_session, cleanup_expired_sessions, touch, policy_verdict, new_opening,
  is_root_denied, create,
}
use oaslananka_lab_mcp_ssh_t.Session.Lookup.{
  close_begin-sessions, get_session-cases, get_session-sessions,
}
use oaslananka_lab_mcp_ssh_t.Session.Cleanup.{close_each-sessions}
use oaslananka_lab_mcp_ssh_t.Session.Types.{connecting}
use oaslananka_lab_mcp_ssh_t.Session.Capacity.{open_begin-connecting}
use oaslananka_lab_mcp_ssh_t.Session.Lifecycle.{
  World, waiting, Step, time_passes, begins, connects, fails, gets, closes, finishes, cleans, Steps,
  done, next, IsEntry, WellFormed, All-set, All-delete, All-get, All-remove,
}

make_room-sessions : (m : SessionManager) (now : ℕ) → (make_room m now).sessions ≡ m.sessions
unfolding make_room evict_oldest_session
make_room-sessions m now = elim (Bool-cases (leb m.max_sessions (length m.sessions))) [
  | inl full ↦ elim (Option-cases (oldest_session m now)) [
    | inl o ↦ rw (full, make_room) (rw (o, evict_oldest_session) refl)
    | inr (id, o) ↦ rw (full, make_room) (rw (o, evict_oldest_session) (close_begin-sessions m id))
  ]
  | inr free ↦ rw (free, make_room) refl
]

cleanup-sessions :
    (m : SessionManager) (now : ℕ) → (cleanup_expired_sessions m now).sessions ≡ m.sessions
unfolding cleanup_expired_sessions
cleanup-sessions m now = close_each-sessions m _

IsEntry-later :
    (now later : ℕ) (sessions : StringMap SshSession)
    → now ≤ later
    → All (IsEntry now) sessions
    → All (IsEntry later) sessions
IsEntry-later now later [] h a = tt
IsEntry-later now later ((id, s) ∷ rest) h a =
    ((a.0.0, a.0.1, omega arith), IsEntry-later now later rest h a.1)

begun_later :
    (now later : ℕ) (os : List Opening)
    → now ≤ later
    → All (λ o. o.now ≤ now) os
    → All (λ o. o.now ≤ later) os
begun_later now later [] h a = tt
begun_later now later (o ∷ os) h a = (omega arith, begun_later now later os h a.1)

module _ (security : Security) (policy : Option (PolicyContext → Verdict)) where
  -- What an open that begins leaves of the sessions and of the opens that wait.
  Begun : ℕ → SessionManager → List Opening → SessionManager × OpenStart → Type 0
  Begun now m os r =
      (r.0.sessions ≡ m.sessions)
      × (All (λ o. o.now ≤ now) os → All (λ o. o.now ≤ now) (waiting r.1 os))

  begin_in-Begun :
      (mode : PolicyMode) (m : SessionManager) (o : Opening) (allowed : Bool) (os : List Opening)
      → Begun o.now m os (begin_in security policy mode m o allowed)
  unfolding begin_in Begun
  begin_in-Begun explain m o allowed os = (refl, λ h. h)
  begin_in-Begun enforce m o allowed os =
      elim (Bool-cases (is_root_denied security policy o.params)) [
        | inl root ↦ rw root (refl, λ h. h)
        | inr user ↦ rw user (make_room-sessions m o.now, λ h. (omega arith, h))
      ]

  open_begin-Begun :
      (m : SessionManager) (params : ConnectionParams) (id : String) (now : ℕ) (os : List Opening)
      → Begun now m os (open_begin security policy m params id now)
  unfolding open_begin new_opening Begun
  open_begin-Begun m params id now os =
      let mode = get_or params.policy_mode enforce in
      let opening = new_opening security policy m params id now mode in
      let allowed = (policy_verdict security policy params mode).1 in
      elim (Bool-cases (policy_verdict security policy params mode).0) [
        | inl thrown ↦ rw (thrown, open_begin) (refl, λ h. h)
        | inr passed ↦ rw (passed, open_begin) (begin_in-Begun mode m opening allowed os)
      ]

  pub open_begin-sessions :
      (m : SessionManager) (params : ConnectionParams) (id : String) (now : ℕ)
      → (open_begin security policy m params id now).0.sessions ≡ m.sessions
  unfolding Begun
  open_begin-sessions m params id now = (open_begin-Begun m params id now []).0

  pub open_begin-session_id :
      (m : SessionManager) (params : ConnectionParams) (id : String) (now : ℕ) (o : Opening)
      → (open_begin security policy m params id now).1 ≡ connecting o
      → o.session_id ≡ id
  open_begin-session_id m params id now o h =
      (open_begin-connecting security policy m params id now o h).2

  gets-WellFormed :
      (w : World) (id : String)
      → WellFormed w
      → WellFormed (record w { manager = (get_session w.manager id w.now).0 })
  unfolding touch
  gets-WellFormed w id f = elim (get_session-sessions w.manager id w.now) [
    | inl same ↦ record {
      distinct = rw same f.distinct;
      entries = rw same f.entries;
      begun = f.begun;
    }
    | inr (s, e, set) ↦
        let p = All-get (IsEntry w.now) id s w.manager.sessions f.entries e in
        record {
          distinct =
              rw set (StringMap.set-Distinct id (touch w.now s) w.manager.sessions f.distinct);
          entries = rw set (
              All-set (IsEntry w.now) id (touch w.now s) w.manager.sessions
                (p.0, (omega arith), (omega arith)) f.entries);
          begun = f.begun;
        }
  ]

  same-WellFormed :
      (w : World) (m : SessionManager)
      → m.sessions ≡ w.manager.sessions
      → WellFormed w
      → WellFormed (record w { manager = m })
  same-WellFormed w m e f = record {
    distinct = rw e f.distinct;
    entries = rw e f.entries;
    begun = f.begun;
  }

  begins-WellFormed :
      (w : World) (params : ConnectionParams) (id : String)
      → WellFormed w
      → WellFormed (record w {
        manager = (open_begin security policy w.manager params id w.now).0;
        opening = waiting (open_begin security policy w.manager params id w.now).1 w.opening;
      })
  unfolding Begun
  begins-WellFormed w params id f =
      let b = open_begin-Begun w.manager params id w.now w.opening in
      record { distinct = rw b.0 f.distinct; entries = rw b.0 f.entries; begun = b.1 f.begun }

  connects-WellFormed :
      (w : World) (before after : List Opening) (o : Opening) (sftp : Bool)
      → w.opening ≡ before ++ (o ∷ after)
      → WellFormed w
      → WellFormed
          (record w { manager = (open_finish w.manager o sftp).0; opening = before ++ after })
  unfolding open_finish new_session
  connects-WellFormed w before after o sftp e f =
      let waited : All (λ o. o.now ≤ w.now) (before ++ (o ∷ after)) = rw e at f.begun in
      let (p, rest) = All-remove (λ o. o.now ≤ w.now) before after o waited in
      record {
        distinct =
            StringMap.set-Distinct o.session_id (new_session o sftp) w.manager.sessions f.distinct;
        entries =
            All-set (IsEntry w.now) o.session_id (new_session o sftp) w.manager.sessions
              (refl, (omega arith), p) f.entries;
        begun = rest;
      }

  Step-WellFormed : (v w : World) → Step security policy v w → WellFormed v → WellFormed w
  unfolding close_finish
  Step-WellFormed _ _ (time_passes w t h) f = record {
    distinct = f.distinct;
    entries = IsEntry-later w.now t w.manager.sessions h f.entries;
    begun = begun_later w.now t w.opening h f.begun;
  }
  Step-WellFormed _ _ (begins w params id) f = begins-WellFormed w params id f
  Step-WellFormed _ _ (connects w before after o sftp e) f =
      connects-WellFormed w before after o sftp e f
  Step-WellFormed _ _ (fails w before after o e) f =
      let waited : All (λ o. o.now ≤ w.now) (before ++ (o ∷ after)) = rw e at f.begun in
      record {
        distinct = f.distinct;
        entries = f.entries;
        begun = (All-remove (λ o. o.now ≤ w.now) before after o waited).1;
      }
  Step-WellFormed _ _ (gets w id) f = gets-WellFormed w id f
  Step-WellFormed _ _ (closes w id) f =
      same-WellFormed w (close_begin w.manager id).0 (close_begin-sessions w.manager id) f
  Step-WellFormed _ _ (finishes w id) f = record {
    distinct = StringMap.delete-Distinct id w.manager.sessions f.distinct;
    entries = All-delete (IsEntry w.now) id w.manager.sessions f.entries;
    begun = f.begun;
  }
  Step-WellFormed _ _ (cleans w) f =
      same-WellFormed w (cleanup_expired_sessions w.manager w.now)
        (cleanup-sessions w.manager w.now) f

  Steps-WellFormed : (v w : World) → Steps security policy v w → WellFormed v → WellFormed w
  Steps-WellFormed _ _ (done w) f = f
  Steps-WellFormed _ _ (next {u} {v} {w} s rest) f =
      Steps-WellFormed v w rest (Step-WellFormed u v s f)

-- The world of a manager that has just been made.
abbrev pub start : Option ℕ → Option ℕ → ℕ → World
start max_sessions default_ttl_ms now = record {
  manager = create max_sessions default_ttl_ms;
  now = now;
  opening = [];
}

start-WellFormed :
    (max_sessions default_ttl_ms : Option ℕ) (now : ℕ)
    → WellFormed (start max_sessions default_ttl_ms now)
unfolding create
start-WellFormed max_sessions default_ttl_ms now = record {
  distinct = tt;
  entries = tt;
  begun = tt;
}

-- Whatever steps the manager has taken since it was made, and in whatever order its calls
-- overlapped: a session that `getSession` gives is the one of that identifier, was made before, is
-- used now and not past its end.
pub reachable-get_session :
    (security : Security) (policy : Option (PolicyContext → Verdict))
    (max_sessions default_ttl_ms : Option ℕ) (time : ℕ) (w : World) (id : String) (s : SshSession)
    → Steps security policy (start max_sessions default_ttl_ms time) w
    → (get_session w.manager id w.now).1 ≡ some s
    → (s.info.session_id ≡ id)
      × (s.info.created_at ≤ w.now)
      × (s.info.last_used ≡ w.now)
      × (w.now ≤ s.info.expires_at)
unfolding touch
reachable-get_session security policy max_sessions default_ttl_ms time w id s steps given =
    let f =
      Steps-WellFormed security policy _ w steps
        (start-WellFormed max_sessions default_ttl_ms time) in
    elim (get_session-cases w.manager id w.now) [
      | inl (e, x, y) ↦ cc (e, given)
      | inr (t, e, young, r, others) ↦
          let p = All-get (IsEntry w.now) id t w.manager.sessions f.entries e in
          let same : touch w.now t ≡ s = cc (r, given) in
          subst
            (λ s.
              (s.info.session_id ≡ id)
              × (s.info.created_at ≤ w.now)
              × (s.info.last_used ≡ w.now)
              × (w.now ≤ s.info.expires_at))
            same (p.0, (omega arith), refl, young)
    ]
