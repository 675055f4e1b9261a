-- ===== src/Remote/ControlPlane/NonceWindow.antt =====
-- How long the memory of nonces of src/remote/control-plane.ts keeps a nonce, and how large it gets.
use oaslananka_lab_mcp_ssh_t.Prelude.{
  Option-cases, not, ltb, false, ℕ, zero, suc, ◌+◌, ◌≤◌, String, ◌≡◌, refl, inl, inr, Bool, none,
  some, List, [], ◌∷◌, arith, ◌==◌, eq_iff, eq_refl, leb, if◌then◌else◌, Bool-cases, length, keep,
}
use oaslananka_lab_mcp_ssh_t.Remote.ControlPlane.Nonces.{
  has_seen_nonce, agent_nonce_ttl_ms, max_agent_connection_nonces, remember_nonce, drop_oldest,
  prune_nonce_window,
}
use oaslananka_lab_mcp_ssh_t.StringMap.{
  get-set, length-set, set-Distinct, set, StringMap, get, delete, Distinct,
}

delete-fresh : (k : String) (m : StringMap ℕ) → get k m ≡ none → delete k m ≡ m
unfolding get delete
delete-fresh k [] e = refl
delete-fresh k ((j, v) ∷ m) e = elim (Bool-cases (j == k)) [
  | inl same ↦ absurd (cc)
  | inr other ↦ rw (other, delete-fresh k m (rw other at e)) refl
]

delete_first : (k : String) (v : ℕ) (m : StringMap ℕ) → get k m ≡ none → delete k ((k, v) ∷ m) ≡ m
unfolding delete
delete_first k v m e = rw (eq_refl k, delete-fresh k m e) refl

drop_oldest-le :
    (most fuel : ℕ) (m : StringMap ℕ)
    → Distinct m
    → length m ≤ fuel + most
    → length (drop_oldest most fuel m) ≤ most
unfolding drop_oldest
drop_oldest-le most zero m d h = omega (arith, h)
drop_oldest-le most (suc fuel) [] d h = omega arith
drop_oldest-le most (suc fuel) ((k, v) ∷ m) d h =
    let rest = drop_oldest-le most fuel m d.1 in rw (delete_first k v m d.0) (ground (arith, rest))

drop_oldest-small :
    (most fuel : ℕ) (m : StringMap ℕ) → length m ≤ most → drop_oldest most fuel m ≡ m
unfolding drop_oldest
drop_oldest-small most zero m h = refl
drop_oldest-small most (suc fuel) [] h = refl
drop_oldest-small most (suc fuel) ((k, v) ∷ m) h = ground arith

length-keep {ℓ} : {A : Type ℓ} (p : A → Bool) (xs : List A) → length (keep p xs) ≤ length xs
unfolding keep
length-keep p [] = omega arith
length-keep p (x ∷ xs) = ground (arith, length-keep p xs)

get-prune :
    (m : StringMap ℕ) (k : String) (now : ℕ)
    → Distinct m
    → get k (prune_nonce_window m now)
      ≡ elim (get k m) [ none ↦ none | some t ↦ if leb t now then none else some t ]
unfolding get prune_nonce_window keep
get-prune [] k now d = refl
get-prune ((j, t) ∷ m) k now d =
    let rest = get-prune m k now d.1 in
    elim (Bool-cases (j == k)) [
      | inl same ↦ elim (Bool-cases (leb t now)) [
        | inl old ↦
            let key : j ≡ k = (eq_iff j k).0 same in
            let gone : get k m ≡ none = rw key at d.0 in rw (same, old, rest, gone) refl
        | inr fresh ↦ rw (same, fresh, same) refl
      ]
      | inr other ↦ elim (Bool-cases (leb t now)) [
        | inl old ↦ rw (other, old) rest
        | inr fresh ↦ rw (other, fresh, other) rest
      ]
    ]

prune-Distinct : (m : StringMap ℕ) (now : ℕ) → Distinct m → Distinct (prune_nonce_window m now)
unfolding prune_nonce_window keep
prune-Distinct [] now d = tt
prune-Distinct ((j, t) ∷ m) now d = elim (Bool-cases (leb t now)) [
  | inl old ↦ rw old (prune-Distinct m now d.1)
  | inr fresh ↦ rw fresh (rw (get-prune m j now d.1, d.0) refl, prune-Distinct m now d.1)
]

known-Distinct :
    (m : StringMap ℕ) (nonce : String) (now until : ℕ)
    → Distinct m
    → Distinct (set nonce until (prune_nonce_window m now))
known-Distinct m nonce now until d =
    set-Distinct nonce until (prune_nonce_window m now) (prune-Distinct m now d)

-- The loop of `rememberNonce` ends with at most 4096 nonces, whatever map of distinct nonces it
-- starts from: as much fuel as there are nonces is enough.
pub remember_nonce-le :
    (m : StringMap ℕ) (nonce : String) (now : ℕ)
    → Distinct m
    → length (remember_nonce m nonce now) ≤ max_agent_connection_nonces
unfolding remember_nonce
remember_nonce-le m nonce now d =
    let known = set nonce (now + agent_nonce_ttl_ms) (prune_nonce_window m now) in
    drop_oldest-le max_agent_connection_nonces (length known) known
      (known-Distinct m nonce now (now + agent_nonce_ttl_ms) d) (omega arith)

-- With one nonce too many, the loop drops the oldest, which is not the newest.
drop_oldest-one :
    (most : ℕ) (nonce : String) (until : ℕ) (m : StringMap ℕ)
    → Distinct m
    → length m ≤ most
    → 1 ≤ most
    → get nonce m ≡ none
    → let known = set nonce until m in
      Distinct (drop_oldest most (length known) known)
      × (get nonce (drop_oldest most (length known) known) ≡ some until)
unfolding get set drop_oldest
drop_oldest-one most nonce until [] d h p e =
    rw (drop_oldest-small most 1 ((nonce, until) ∷ []) (omega arith), eq_refl nonce)
      ((refl, tt), refl)
drop_oldest-one most nonce until ((k, v) ∷ m) d h p e = elim (Bool-cases (k == nonce)) [
  | inl same ↦ absurd (cc)
  | inr other ↦
      let fresh : get nonce m ≡ none = rw other at e in
      let long : length (set nonce until m) ≡ suc (length m) =
        rw (length-set nonce until m, fresh) refl in
      let back : (nonce == k) ≡ false = ground (arith, eq_iff k nonce, eq_iff nonce k) in
      let gone : get k (set nonce until m) ≡ none = rw (get-set nonce k until m, back) d.0 in
      let same : get nonce (set nonce until m) ≡ some until =
        rw (get-set nonce nonce until m, eq_refl nonce) refl in
      let unique = set-Distinct nonce until m d.1 in
      rw other (elim (Bool-cases (ltb most (suc (length (set nonce until m))))) [
        | inl full ↦
            rw
              (
                full,
                delete_first k v (set nonce until m) gone,
                drop_oldest-small most (length (set nonce until m)) (set nonce until m)
                    (omega (arith, long)),
              )
              (unique, same)
        | inr room ↦ rw (room, other) ((gone, unique), same)
      ])
]

pruned_short :
    (m : StringMap ℕ) (now : ℕ)
    → length m ≤ max_agent_connection_nonces
    → length (prune_nonce_window m now) ≤ max_agent_connection_nonces
unfolding prune_nonce_window
pruned_short m now h = omega (arith, h, length-keep (λ e. not (leb e.1 now)) m)

-- The map that `rememberNonce` leaves at the time `now`, from a map of at most 4096 distinct nonces
-- on which `hasSeenNonce` does not report the nonce then: on the new map `hasSeenNonce` reports the
-- nonce at each time before `now + 300000` and at no later one, so that it is forgotten after five
-- minutes and can be used again. Nonces that are remembered afterwards are not in the statement;
-- each can drop the oldest. The new map has distinct nonces again.
pub remember_nonce-seen :
    (m : StringMap ℕ) (nonce : String) (now : ℕ)
    → Distinct m
    → length m ≤ max_agent_connection_nonces
    → (has_seen_nonce m nonce now).0 ≡ false
    → Distinct (remember_nonce m nonce now)
      × ((later : ℕ)
          → (has_seen_nonce (remember_nonce m nonce now) nonce later).0
            ≡ ltb later (now + agent_nonce_ttl_ms))
unfolding has_seen_nonce remember_nonce
remember_nonce-seen m nonce now d h e =
    let pruned = prune_nonce_window m now in
    let fresh : get nonce pruned ≡ none = elim (Option-cases (get nonce pruned)) [
      | inl n ↦ n
      | inr (t, n) ↦ absurd (cc)
    ] in
    let short : length pruned ≤ max_agent_connection_nonces = pruned_short m now h in
    let (unique, kept) =
      drop_oldest-one max_agent_connection_nonces nonce (now + agent_nonce_ttl_ms) pruned
        (prune-Distinct m now d) short (omega arith) fresh in
    (
      unique,
      λ later. rw (get-prune (remember_nonce m nonce now) nonce later unique, kept) (ground arith),
    )
