-- ===== src/Session/Cleanup.antt =====
-- What the timer of src/session.ts removes: `cleanupExpiredSessions`, once its calls of
-- `closeSession` have ended.
use oaslananka_lab_mcp_ssh_t.Prelude.{
  not, leb, ℕ, String, ◌≡◌, refl, sym, ap, subst, ◌∙◌, inl, inr, true, false, Option, none, some,
  List, [], ◌∷◌, ◌++◌, append_assoc, append-nil, arith, ◌==◌, eq_iff, eq_refl, if◌then◌else◌,
  Bool-cases, is_some, any, keep, All,
}
use oaslananka_lab_mcp_ssh_t.StringMap
use oaslananka_lab_mcp_ssh_t.StringMap.{StringMap}
use oaslananka_lab_mcp_ssh_t.Session.{
  SessionManager, SshSession, close_begin, close_finish, close_each, finish_each, has_expired,
  expired_ids, cleanup_expired_sessions,
}

-- The identifiers of sessions.
abbrev AllHeld : StringMap SshSession → List String → Type 0
AllHeld sessions = All (λ id. StringMap.has id sessions ≡ true)

pub close_each-sessions :
    (m : SessionManager) (ids : List String) → (close_each m ids).sessions ≡ m.sessions
unfolding close_each close_begin
close_each-sessions m [] = refl
close_each-sessions m (id ∷ ids) = close_each-sessions (close_begin m id).0 ids ∙ ground arith

close_begin_held :
    (m : SessionManager) (id : String)
    → StringMap.has id m.sessions ≡ true
    → (close_begin m id).0 ≡ (record m { closing = m.closing ++ (id ∷ []) })
unfolding close_begin
close_begin_held m id h = rw h refl

close_each-closing :
    (m : SessionManager) (ids : List String)
    → AllHeld m.sessions ids
    → (close_each m ids).closing ≡ m.closing ++ ids
unfolding close_each
close_each-closing m [] h = sym (append-nil m.closing)
close_each-closing m (id ∷ ids) h =
    rw (close_begin_held m id h.0, close_each)
      (close_each-closing (record m { closing = m.closing ++ (id ∷ []) }) ids h.1
        ∙ append_assoc m.closing (id ∷ []) ids)

get-finish_each :
    (m : SessionManager) (ids : List String) (j : String)
    → StringMap.get j (finish_each m ids).sessions
      ≡ (if any (λ id. id == j) ids then none else StringMap.get j m.sessions)
unfolding finish_each close_finish
get-finish_each m [] j = refl
get-finish_each m (id ∷ ids) j =
    let rest = get-finish_each (close_finish m id) ids j in
    let here = StringMap.get-delete id j m.sessions in ground (arith, rest, here)

AllHeld-cons :
    (id : String) (s : SshSession) (rest : StringMap SshSession) (ids : List String)
    → AllHeld rest ids
    → AllHeld ((id, s) ∷ rest) ids
unfolding StringMap.get
AllHeld-cons id s rest [] h = tt
AllHeld-cons id s rest (j ∷ ids) h = (ground (arith, h.0), AllHeld-cons id s rest ids h.1)

expired_ids-cons :
    (now : ℕ) (id : String) (s : SshSession) (rest : StringMap SshSession)
    → expired_ids now ((id, s) ∷ rest)
      ≡ (if has_expired now s then id ∷ expired_ids now rest else expired_ids now rest)
unfolding expired_ids keep
expired_ids-cons now id s rest = elim (Bool-cases (has_expired now s)) [
  | inl old ↦ rw old refl
  | inr young ↦ rw young refl
]

expired_ids-AllHeld :
    (now : ℕ) (sessions : StringMap SshSession) → AllHeld sessions (expired_ids now sessions)
unfolding expired_ids keep StringMap.get
expired_ids-AllHeld now [] = tt
expired_ids-AllHeld now ((id, s) ∷ rest) =
    let tail = AllHeld-cons id s rest (expired_ids now rest) (expired_ids-AllHeld now rest) in
    elim (Bool-cases (has_expired now s)) [
      | inl old ↦ rw (expired_ids-cons now id s rest, old) (rw (eq_refl id) refl, tail)
      | inr young ↦ rw (expired_ids-cons now id s rest, young) tail
    ]

any-held :
    (sessions : StringMap SshSession) (ids : List String) (j : String)
    → AllHeld sessions ids
    → StringMap.get j sessions ≡ none
    → any (λ id. id == j) ids ≡ false
any-held sessions [] j h e = refl
any-held sessions (id ∷ ids) j h e = elim (Bool-cases (id == j)) [
  | inl same ↦ cc (h.0, e, ap is_some (ap (λ x. StringMap.get x sessions) ((eq_iff id j).0 same)))
  | inr other ↦ rw other (any-held sessions ids j h.1 e)
]

-- The session if its end, the field `expires_at`, is now or later.
abbrev pub unexpired : ℕ → Option SshSession → Option SshSession
unexpired now none = none
unexpired now (some s) = if leb now s.info.expires_at then some s else none

has_expired-not : (now : ℕ) (s : SshSession) → has_expired now s ≡ not (leb now s.info.expires_at)
unfolding has_expired
has_expired-not now s = ground arith

any-expired_ids :
    (now : ℕ) (sessions : StringMap SshSession) (j : String)
    → StringMap.Distinct sessions
    → (if any (λ id. id == j) (expired_ids now sessions) then none else StringMap.get j sessions)
      ≡ unexpired now (StringMap.get j sessions)
unfolding expired_ids keep StringMap.get
any-expired_ids now [] j d = refl
any-expired_ids now ((id, s) ∷ rest) j d =
    let tail = any-expired_ids now rest j d.1 in
    let held = expired_ids-AllHeld now rest in
    let cons = expired_ids-cons now id s rest in
    let ended : has_expired now s ≡ true → leb now s.info.expires_at ≡ false =
      λ h. ground (arith, has_expired-not now s, h) in
    let lasts : has_expired now s ≡ false → leb now s.info.expires_at ≡ true =
      λ h. ground (arith, has_expired-not now s, h) in
    elim (Bool-cases (id == j)) [
      | inl same ↦
          let gone = subst (λ x. StringMap.get x rest ≡ none) ((eq_iff id j).0 same) d.0 in
          let fresh = any-held rest (expired_ids now rest) j held gone in
          elim (Bool-cases (has_expired now s)) [
            | inl old ↦
                let past : leb now s.info.expires_at ≡ false = ended old in
                rw (cons, same, old, same, past) refl
            | inr young ↦
                let lasting : leb now s.info.expires_at ≡ true = lasts young in
                rw (cons, same, young, fresh, lasting) refl
          ]
      | inr other ↦ elim (Bool-cases (has_expired now s)) [
        | inl old ↦ rw (cons, other, old, other) tail
        | inr young ↦ rw (cons, other, young) tail
      ]
    ]

-- After a cleanup, once the sessions that it closes are closed, every session whose `expires_at` is
-- now or later is there as it was, and no other, if no session was being closed before and the
-- identifiers of the sessions are distinct.
pub cleanup-unexpired :
    (m : SessionManager) (now : ℕ) (id : String)
    → m.closing ≡ []
    → StringMap.Distinct m.sessions
    → let cleaned = cleanup_expired_sessions m now in
      StringMap.get id (finish_each cleaned cleaned.closing).sessions
      ≡ unexpired now (StringMap.get id m.sessions)
unfolding cleanup_expired_sessions
cleanup-unexpired m now id c d =
    let ids = expired_ids now m.sessions in
    let cleaned = close_each m ids in
    let closing : cleaned.closing ≡ ids =
      close_each-closing m ids (expired_ids-AllHeld now m.sessions) ∙ ap (λ l. l ++ ids) c in
    get-finish_each cleaned cleaned.closing id
    ∙ rw (closing, close_each-sessions m ids) (any-expired_ids now m.sessions id d)
