-- ===== src/HostKeys/Pinning.antt =====
-- What the policy `accept-new` remembers, over a sequence of connections.
use oaslananka_lab_mcp_ssh_t.Prelude.{
  ℕ, ◌≡◌, refl, sym, ap, ◌∙◌, ◌≢◌, ◌↔◌, inl, inr, true, Option, none, some, List, [], ◌∷◌, arith,
  if◌then◌else◌, Bool-cases,
}
use oaslananka_lab_mcp_ssh_t.Text.{Text, text_eq, text_eq_iff}
use oaslananka_lab_mcp_ssh_t.HostKeys.{
  address, normalize_sha256_fingerprint, AcceptedKeys, accepted_key, accept_key, verify_accepted,
  verify_accept_new_host_key,
}

accepted-accept :
    (key other v : Text) (m : AcceptedKeys)
    → accepted_key other (accept_key key v m)
      ≡ (if text_eq key other then some v else accepted_key other m)
unfolding accepted_key accept_key
accepted-accept key other v [] = refl
accepted-accept key other v ((k, w) ∷ m) = ground (
  arith,
  text_eq_iff k key,
  text_eq_iff k other,
  text_eq_iff key other,
  accepted-accept key other v m,
)

-- A connection whose host key is checked.
pub record Offer : Type 0 where
  pub host : Text
  pub port : ℕ
  pub hashed_key : Text

-- The keys that are accepted after the offers.
pub after_offers : AcceptedKeys → List Offer → AcceptedKeys
after_offers m [] = m
after_offers m (o ∷ os) =
    after_offers (verify_accept_new_host_key m o.host o.port o.hashed_key).0 os

-- A key that is kept, not empty.
Keeps : Text → Text → AcceptedKeys → Type 0
Keeps key v m = (accepted_key key m ≡ some v) × (v ≢ [])

Keeps-accept :
    (m : AcceptedKeys) (key v other normalized : Text)
    → Keeps key v m
    → accepted_key other m ≢ some v
    → Keeps key v (accept_key other normalized m)
unfolding Keeps
Keeps-accept m key v other normalized (k, n) fresh = (
  elim (Bool-cases (text_eq other key)) [
    | inl same ↦ absurd (fresh (rw ((text_eq_iff other key).0 same) k))
    | inr apart ↦ accepted-accept other key normalized m ∙ rw apart k
  ],
  n,
)

Keeps-verify_accepted :
    (m : AcceptedKeys) (key v other normalized : Text) (seen : Option Text)
    → accepted_key other m ≡ seen
    → Keeps key v m
    → Keeps key v (verify_accepted m other normalized seen).0
unfolding Keeps verify_accepted
Keeps-verify_accepted m key v other normalized none e (k, n) =
    Keeps-accept m key v other normalized (k, n) (λ h. cc)
Keeps-verify_accepted m key v other normalized (some []) e (k, n) =
    Keeps-accept m key v other normalized (k, n) (λ h. n (cc (e, h)))
Keeps-verify_accepted m key v other normalized (some (c ∷ a)) e (k, n) = (k, n)

Keeps-verify :
    (m : AcceptedKeys) (key v : Text) (o : Offer)
    → Keeps key v m
    → Keeps key v (verify_accept_new_host_key m o.host o.port o.hashed_key).0
unfolding verify_accept_new_host_key
Keeps-verify m key v o k =
    Keeps-verify_accepted m key v (address o.host o.port)
      (normalize_sha256_fingerprint o.hashed_key) (accepted_key (address o.host o.port) m) refl k

Keeps-after_offers :
    (m : AcceptedKeys) (key v : Text) (os : List Offer)
    → Keeps key v m
    → Keeps key v (after_offers m os)
unfolding after_offers
Keeps-after_offers m key v [] k = k
Keeps-after_offers m key v (o ∷ os) k =
    Keeps-after_offers (verify_accept_new_host_key m o.host o.port o.hashed_key).0 key v os
      (Keeps-verify m key v o k)

-- What an accepted offer leaves behind.
accepted-Keeps :
    (m : AcceptedKeys) (key normalized : Text) (seen : Option Text)
    → accepted_key key m ≡ seen
    → (verify_accepted m key normalized seen).1 ≡ true
    → normalized ≢ []
    → Keeps key normalized (verify_accepted m key normalized seen).0
unfolding Keeps verify_accepted
accepted-Keeps m key normalized none e h n =
    (accepted-accept key key normalized m ∙ rw ((text_eq_iff key key).1 refl) refl, n)
accepted-Keeps m key normalized (some []) e h n =
    (accepted-accept key key normalized m ∙ rw ((text_eq_iff key key).1 refl) refl, n)
accepted-Keeps m key normalized (some (c ∷ a)) e h n =
    (e ∙ ap some ((text_eq_iff (c ∷ a) normalized).0 h), n)

verify-Keeps :
    (m : AcceptedKeys) (key v normalized : Text)
    → Keeps key v m
    → ((verify_accepted m key normalized (accepted_key key m)).1 ≡ true) ↔ (normalized ≡ v)
unfolding Keeps verify_accepted
verify-Keeps m key [] normalized (k, n) = absurd (n refl)
verify-Keeps m key (c ∷ v) normalized (k, n) = rw k (
  λ h. sym ((text_eq_iff (c ∷ v) normalized).0 h),
  λ h. (text_eq_iff (c ∷ v) normalized).1 (sym h),
)

-- Once `accept-new` has accepted a key with a fingerprint that is not empty, then after any further
-- connections it accepts for that host and port the keys with the same fingerprint, and no other.
pub verify_accept_new-first_key :
    (m : AcceptedKeys) (host : Text) (port : ℕ) (hashed_key later_key : Text) (os : List Offer)
    → (verify_accept_new_host_key m host port hashed_key).1 ≡ true
    → normalize_sha256_fingerprint hashed_key ≢ []
    → ((verify_accept_new_host_key
          (after_offers (verify_accept_new_host_key m host port hashed_key).0 os)
          host
          port
          later_key).1
        ≡ true)
      ↔ (normalize_sha256_fingerprint later_key ≡ normalize_sha256_fingerprint hashed_key)
unfolding verify_accept_new_host_key
verify_accept_new-first_key m host port hashed_key later_key os h n =
    let key = address host port in
    let normalized = normalize_sha256_fingerprint hashed_key in
    let kept = accepted-Keeps m key normalized (accepted_key key m) refl h n in
    verify-Keeps _ key normalized (normalize_sha256_fingerprint later_key)
      (Keeps-after_offers _ key normalized os kept)
