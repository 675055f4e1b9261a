-- ===== src/Policy/Paths/Segments.antt =====
-- What the path rules of src/policy.ts mean for the segments of a remote path.
use oaslananka_lab_mcp_ssh_t.Prelude.{
  ℕ, ◌≡◌, refl, ap, ◌∙◌, ◌⊎◌, inl, inr, Bool, true, false, none, some, List, [], ◌∷◌, ◌++◌, arith,
  Bool-cases, All,
}
use oaslananka_lab_mcp_ssh_t.Text.{Text, starts_with, starts_with_iff, has_code}
use oaslananka_lab_mcp_ssh_t.Text.Split.{join_slash, NoSlash, slash-join}
use oaslananka_lab_mcp_ssh_t.Text.Posix.{
  posix_normalize, with_ends, ends_with_slash, resolve, resolve-IsPlain, IsPlain, is_empty,
  root_path,
}
use oaslananka_lab_mcp_ssh_t.Policy.Paths.{
  strip_end, strip_trailing_separators, unix_separators, absolute, normalize_remote_posix_path,
}

strip_end-cons :
    (c : ℕ) (s : Text) → strip_end b'/' s ≡ s → is_empty s ≡ false → strip_end b'/' (c ∷ s) ≡ c ∷ s
unfolding strip_end
strip_end-cons c [] e n = cc
strip_end-cons c (d ∷ s) e n = ground arith

is_empty-append_right : (a b : Text) → is_empty b ≡ false → is_empty (a ++ b) ≡ false
is_empty-append_right [] b n = n
is_empty-append_right (c ∷ a) b n = refl

strip_end-append :
    (a b : Text) → strip_end b'/' b ≡ b → is_empty b ≡ false → strip_end b'/' (a ++ b) ≡ a ++ b
strip_end-append [] b e n = e
strip_end-append (c ∷ a) b e n =
    strip_end-cons c (a ++ b) (strip_end-append a b e n) (is_empty-append_right a b n)

strip_end_plain : (part : Text) → NoSlash part → strip_end b'/' part ≡ part
unfolding strip_end
strip_end_plain [] h = refl
strip_end_plain (c ∷ part) h = ground (arith, strip_end_plain part h.1)

strip_end_trailing : (s : Text) → strip_end b'/' (s ++ (b'/' ∷ [])) ≡ strip_end b'/' s
unfolding strip_end
strip_end_trailing [] = refl
strip_end_trailing (c ∷ s) = rw (strip_end_trailing s)

strip_end-join :
    (part : Text) (parts : List Text)
    → All IsPlain (part ∷ parts)
    → (strip_end b'/' (join_slash (part ∷ parts)) ≡ join_slash (part ∷ parts))
      × (is_empty (join_slash (part ∷ parts)) ≡ false)
unfolding join_slash
strip_end-join part [] h = (strip_end_plain part h.0.no_slash, h.0.not_empty)
strip_end-join part (next ∷ parts) h =
    let (e, n) = strip_end-join next parts h.1 in
    let tail = join_slash (next ∷ parts) in
    (
      strip_end-append part (b'/' ∷ tail) (strip_end-cons b'/' tail e n) refl,
      is_empty-append_right part (b'/' ∷ tail) refl,
    )

-- Whatever stands at the end of the body, stripping leaves the body.
strip-with_ends :
    (body : Text) (trailing : Bool)
    → strip_end b'/' body ≡ body
    → strip_trailing_separators (with_ends true trailing body) b'/' 1 ≡ b'/' ∷ body
unfolding strip_trailing_separators strip_end with_ends
strip-with_ends [] trailing e = refl
strip-with_ends (c ∷ body) true e = ap (λ (l : Text). b'/' ∷ l) (strip_end_trailing (c ∷ body) ∙ e)
strip-with_ends (c ∷ body) false e = ap (λ (l : Text). b'/' ∷ l) e

strip_normalized :
    (parts : List Text) (trailing : Bool)
    → All IsPlain parts
    → strip_trailing_separators (with_ends true trailing (join_slash parts)) b'/' 1
      ≡ root_path parts
unfolding strip_end join_slash
strip_normalized [] trailing h = strip-with_ends [] trailing refl
strip_normalized (part ∷ parts) trailing h =
    strip-with_ends (join_slash (part ∷ parts)) trailing (strip_end-join part parts h).0
    ∙ slash-join part parts

slash_of_starts_with : (s : Text) → starts_with (b'/' ∷ []) s ≡ true → (t : Text) × (s ≡ b'/' ∷ t)
slash_of_starts_with s h = (starts_with_iff (b'/' ∷ []) s).0 h

absolute_slash : (s : Text) → (t : Text) × (absolute s ≡ b'/' ∷ t)
absolute_slash s = elim (Bool-cases (starts_with (b'/' ∷ []) s)) [
  | inl yes_slash ↦ let (t, e) = slash_of_starts_with s yes_slash in (t, rw yes_slash e)
  | inr no_slash ↦ (s, rw no_slash)
]

-- The segments of a remote path: those that are left of it, read from the root.
abbrev pub remote_segments : Text → List Text
remote_segments path = resolve false (absolute (unix_separators path))

normalized_slash :
    (s t : Text)
    → s ≡ b'/' ∷ t
    → strip_trailing_separators (posix_normalize s) b'/' 1 ≡ root_path (resolve false s)
unfolding posix_normalize
normalized_slash s t e = rw e (
    strip_normalized (resolve false (b'/' ∷ t)) (ends_with_slash (b'/' ∷ t))
      (resolve-IsPlain (b'/' ∷ t)))

normalize_remote-eq_root_path :
    (path : Text)
    → has_code 0 path ≡ false
    → normalize_remote_posix_path path ≡ some (root_path (remote_segments path))
unfolding normalize_remote_posix_path
normalize_remote-eq_root_path path h =
    let (t, e) = absolute_slash (unix_separators path) in
    rw h (ap some (normalized_slash (absolute (unix_separators path)) t e))

normalize_remote_nul :
    (path : Text) → has_code 0 path ≡ true → normalize_remote_posix_path path ≡ none
unfolding normalize_remote_posix_path
normalize_remote_nul path h = rw h

-- A path with a NUL byte is refused, and any other is normalised to the path through its segments.
pub normalize_remote-cases :
    (path : Text)
    → ((has_code 0 path ≡ true) × (normalize_remote_posix_path path ≡ none))
      ⊎ ((has_code 0 path ≡ false)
          × (normalize_remote_posix_path path ≡ some (root_path (remote_segments path))))
normalize_remote-cases path = elim (Bool-cases (has_code 0 path)) [
  | inl nul ↦ inl (nul, normalize_remote_nul path nul)
  | inr clean ↦ inr (clean, normalize_remote-eq_root_path path clean)
]
