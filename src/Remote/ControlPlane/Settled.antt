-- ===== src/Remote/ControlPlane/Settled.antt =====
-- Each action of src/remote/control-plane.ts is answered at most once.
use oaslananka_lab_mcp_ssh_t.Remote.Store.Types.{ActionResultEnvelope, ActionRecord, Reply}
use oaslananka_lab_mcp_ssh_t.Remote.ControlPlane.Quiet.{Acts}
use oaslananka_lab_mcp_ssh_t.Remote.Store.Rows.{update_where}
use oaslananka_lab_mcp_ssh_t.Remote.ControlPlane.State.{PendingAction}
use oaslananka_lab_mcp_ssh_t.StringMap.{set, get-set, StringMap, get-delete, delete, get, has}
use oaslananka_lab_mcp_ssh_t.Prelude.{
  ◌⊎◌, false, ℕ, suc, ◌+◌, ◌≤◌, String, ◌≡◌, refl, sym, subst, inl, inr, Bool, ◌||◌, some, List, [],
  ◌∷◌, ◌++◌, arith, ◌==◌, eq_iff, if◌then◌else◌, Bool-cases, any,
}

-- How often the caller of an action was answered.
abbrev pub count_replies : String → List (String × Reply ActionResultEnvelope) → ℕ
count_replies id [] = 0
count_replies id ((key, reply) ∷ replies) =
    if key == id then suc (count_replies id replies) else count_replies id replies

abbrev pub is_stored : String → List ActionRecord → Bool
is_stored id actions = any (λ a. a.id == id) actions

abbrev pub weight : Bool → ℕ
weight b = if b then 1 else 0

-- An action that is stored is waiting or answered once, or neither; one that is not is neither. A
-- waiting action stands under its id.
abbrev pub Settling : Acts → Type 0
Settling a =
    ((id : String) → count_replies id a.1 + weight (has id a.0) ≤ weight (is_stored id a.2))
    × ((id : String) (entry : PendingAction) → get id a.0 ≡ some entry → entry.action.id ≡ id)

count_replies-append :
    (id key : String) (reply : Reply ActionResultEnvelope)
    (replies : List (String × Reply ActionResultEnvelope))
    → count_replies id (replies ++ ((key, reply) ∷ []))
      ≡ count_replies id replies + weight (key == id)
count_replies-append id key reply [] = ground arith
count_replies-append id key reply ((k, r) ∷ replies) =
    ground (arith, count_replies-append id key reply replies)

is_stored-append :
    (id : String) (a : ActionRecord) (actions : List ActionRecord)
    → is_stored id (actions ++ (a ∷ [])) ≡ (is_stored id actions || (a.id == id))
is_stored-append id a [] = ground arith
is_stored-append id a (b ∷ actions) = ground (arith, is_stored-append id a actions)

pub is_stored-update :
    (id : String) (p : ActionRecord → Bool) (f : ActionRecord → ActionRecord)
    → ((a : ActionRecord) → (f a).id ≡ a.id)
    → (actions : List ActionRecord) → is_stored id (update_where p f actions) ≡ is_stored id actions
unfolding update_where
is_stored-update id p f k [] = refl
is_stored-update id p f k (a ∷ actions) = ground (arith, is_stored-update id p f k actions, k a)

answered-Settling :
    (waits : StringMap PendingAction) (replies : List (String × Reply ActionResultEnvelope))
    (actions later : List ActionRecord) (id : String) (entry : PendingAction)
    (reply : Reply ActionResultEnvelope)
    → Settling (waits, replies, actions)
    → get id waits ≡ some entry
    → ((k : String) → is_stored k later ≡ is_stored k actions)
    → Settling (delete id waits, replies ++ ((entry.action.id, reply) ∷ []), later)
answered-Settling waits replies actions later id entry reply w g stored =
    let key = w.1 id entry g in
    (
      λ k.
          let before = w.0 k in
          rw
            (
              count_replies-append k entry.action.id reply replies,
              stored k,
              key,
              get-delete id k waits,
            )
            (elim (Bool-cases (id == k)) [
              | inl same ↦
                  let same_key : id ≡ k = (eq_iff id k).0 same in
                  let waiting : get k waits ≡ some entry = rw same_key at g in
                  rw same (omega (arith, rw waiting at before))
              | inr other ↦ rw other (omega (arith, before))
            ]),
      λ k other h. elim (Bool-cases (id == k)) [
        | inl same ↦ absurd (let x = rw (get-delete id k waits, same) at h in cc)
        | inr apart ↦ w.1 k other (rw (get-delete id k waits, apart) at h)
      ],
    )

-- What a step may do to the actions: nothing, or a new action is stored and waits, or a waiting action
-- is answered.
abbrev pub Move : Acts → Acts → Type 0
Move a b =
    (b ≡ a)
    ⊎ (((entry : PendingAction) × (is_stored entry.action.id a.2 ≡ false)
          × (b ≡ (set entry.action.id entry a.0, a.1, a.2 ++ (entry.action ∷ []))))
        ⊎ ((id : String) × (entry : PendingAction) × (reply : Reply ActionResultEnvelope)
            × (later : List ActionRecord) × (get id a.0 ≡ some entry)
            × ((k : String) → is_stored k later ≡ is_stored k a.2)
            × (b ≡ (delete id a.0, a.1 ++ ((entry.action.id, reply) ∷ []), later))))

sent-Settling :
    (waits : StringMap PendingAction) (replies : List (String × Reply ActionResultEnvelope))
    (actions : List ActionRecord) (entry : PendingAction)
    → Settling (waits, replies, actions)
    → is_stored entry.action.id actions ≡ false
    → Settling (set entry.action.id entry waits, replies, actions ++ (entry.action ∷ []))
sent-Settling waits replies actions entry w fresh =
    let id = entry.action.id in
    (
      λ k.
          let before = w.0 k in
          rw (is_stored-append k entry.action actions, get-set id k entry waits)
            (elim (Bool-cases (id == k)) [
              | inl same ↦
                  let same_key : id ≡ k = (eq_iff id k).0 same in
                  let new : is_stored k actions ≡ false = rw same_key at fresh in
                  rw (same, new) (omega (arith, rw new at before))
              | inr other ↦ rw other (ground (arith, before))
            ]),
      λ k e h. elim (Bool-cases (id == k)) [
        | inl same ↦
            let x : some entry ≡ some e = rw (get-set id k entry waits, same) at h in
            ground (arith, x, eq_iff id k)
        | inr apart ↦ w.1 k e (rw (get-set id k entry waits, apart) at h)
      ],
    )

pub Move-Settling : (a b : Acts) → Move a b → Settling a → Settling b
Move-Settling a b (inl same) w = subst Settling (sym same) w
Move-Settling a b (inr (inl (entry, fresh, shape))) w =
    subst Settling (sym shape) (sent-Settling a.0 a.1 a.2 entry w fresh)
Move-Settling a b (inr (inr (id, entry, reply, later, g, stored, shape))) w =
    subst Settling (sym shape) (answered-Settling a.0 a.1 a.2 later id entry reply w g stored)

-- How often an action was answered, and once more while it waits.
abbrev pub outstanding : String → Acts → ℕ
outstanding id a = count_replies id a.1 + weight (has id a.0)

pub Move-outstanding :
    (a b : Acts) (k : String) → Move a b → Settling a → outstanding k a ≤ outstanding k b
Move-outstanding a b k (inl same) w = rw same (omega arith)
Move-outstanding a b k (inr (inl (entry, fresh, shape))) w =
    rw (shape, get-set entry.action.id k entry a.0) (ground arith)
Move-outstanding a b k (inr (inr (id, entry, reply, later, g, stored, shape))) w =
    let key = w.1 id entry g in
    rw (shape, count_replies-append k entry.action.id reply a.1, key, get-delete id k a.0)
      (elim (Bool-cases (id == k)) [
        | inl same ↦
            let same_key : id ≡ k = (eq_iff id k).0 same in
            let waiting : get k a.0 ≡ some entry = rw same_key at g in
            rw (same, waiting) (omega arith)
        | inr other ↦ rw other (omega arith)
      ])
