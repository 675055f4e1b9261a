-- ===== src/HostKeys.antt =====
-- The verification of a server's host key in src/session.ts: the fingerprint, and the keys that the
-- policy `accept-new` has accepted.
pub mod Address
pub mod Pinning
pub mod KnownHosts
mod Tests
use oaslananka_lab_mcp_ssh_t.Prelude.{
  ℕ, zero, suc, ◌+◌, ◌/◌, ◌%◌, Bool, true, ◌&&◌, Option, none, some, List, [], ◌∷◌, ◌++◌, map, ltb,
  leb, if◌then◌else◌,
}
use oaslananka_lab_mcp_ssh_t.Text.{Text, codes, text_eq, starts_with, trim}

-- an ASCII letter in lower case
lower : ℕ → ℕ
lower c = if leb b'A' c && leb c b'Z' then c + 32 else c

-- `fingerprint.replace(/^SHA256:/i, "")`
without_tag : Text → Text
unfolding lower starts_with
without_tag s = if starts_with (codes "sha256:") (map lower s) then drop 7 s else s
  where
    drop : ℕ → Text → Text
    drop zero t = t
    drop (suc n) [] = []
    drop (suc n) (c ∷ t) = drop n t

pub normalize_sha256_fingerprint : Text → Text
unfolding without_tag trim
normalize_sha256_fingerprint fingerprint = trim (without_tag fingerprint)

-- The decimal digits of a number, by as many divisions as its successor allows.
digits_by : ℕ → ℕ → Text
digits_by zero n = []
digits_by (suc fuel) n =
    let front = digits_by fuel (n / 10) in
    if ltb n 10 then (b'0' + n) ∷ [] else front ++ ((b'0' + n % 10) ∷ [])

pub decimal : ℕ → Text
unfolding digits_by
decimal n = digits_by (suc n) n

-- `${host}:${port}`
pub address : Text → ℕ → Text
unfolding decimal
address host port = host ++ (b':' ∷ decimal port)

-- `acceptedHostKeys`, by address
abbrev pub AcceptedKeys : Type 0
AcceptedKeys = List (Text × Text)

pub accepted_key : Text → AcceptedKeys → Option Text
accepted_key key [] = none
accepted_key key ((k, v) ∷ m) = if text_eq k key then some v else accepted_key key m

pub accept_key : Text → Text → AcceptedKeys → AcceptedKeys
accept_key key v [] = (key, v) ∷ []
accept_key key v ((k, w) ∷ m) =
    let rest = accept_key key v m in if text_eq k key then (key, v) ∷ m else (k, w) ∷ rest

-- A key that is missing or empty counts as not seen.
unfoldable pub verify_accepted : AcceptedKeys → Text → Text → Option Text → AcceptedKeys × Bool
unfolding accept_key
verify_accepted m key normalized none = (accept_key key normalized m, true)
verify_accepted m key normalized (some []) = (accept_key key normalized m, true)
verify_accepted m key normalized (some (c ∷ accepted)) = (m, text_eq (c ∷ accepted) normalized)

unfoldable pub verify_accept_new_host_key : AcceptedKeys → Text → ℕ → Text → AcceptedKeys × Bool
unfolding verify_accepted accepted_key address normalize_sha256_fingerprint
verify_accept_new_host_key m host port hashed_key =
    let key = address host port in
    verify_accepted m key (normalize_sha256_fingerprint hashed_key) (accepted_key key m)
