-- ===== src/Text/Posix.antt =====
-- Node's `path.posix.normalize`, and what is true of the segments that it leaves of an absolute
-- path.
use oaslananka_lab_mcp_ssh_t.Prelude.{
  ◌≡◌, sym, Bool, true, false, not, ◌&&◌, ◌||◌, List, [], ◌∷◌, ◌++◌, append_assoc, append-nil,
  arith, eqb, if◌then◌else◌, All,
}
use mathlib.Core.List.{reverse, reverse_aux, reverse-cons}
use oaslananka_lab_mcp_ssh_t.Text.{Text}
use oaslananka_lab_mcp_ssh_t.Text.Split.{split_slash, join_slash, NoSlash, slashes, split-NoSlash}

abbrev is_dot : Text → Bool
is_dot (c ∷ []) = eqb c b'.'
is_dot _ = false

abbrev is_dot_dot : Text → Bool
is_dot_dot (c ∷ d ∷ []) = eqb c b'.' && eqb d b'.'
is_dot_dot _ = false

abbrev pub is_empty : Text → Bool
is_empty [] = true
is_empty (c ∷ s) = false

abbrev dot_dot : Text
dot_dot = b'.' ∷ b'.' ∷ []

-- A `..` drops the last segment; where there is none to drop it is kept if the path is relative.
go_up : Bool → List Text → List Text
go_up above [] = if above then dot_dot ∷ [] else []
go_up above (top ∷ stack) =
    if is_dot_dot top then (if above then dot_dot ∷ top ∷ stack else top ∷ stack) else stack

-- one segment; the last of those that stand is the head of the stack
resolve_part : Bool → List Text → Text → List Text
unfolding go_up
resolve_part above stack part =
    if is_empty part || is_dot part
    then stack
    else if is_dot_dot part
    then go_up above stack
    else part ∷ stack

resolve_from : Bool → List Text → List Text → List Text
unfolding resolve_part
resolve_from above stack [] = reverse stack
resolve_from above stack (part ∷ parts) = resolve_from above (resolve_part above stack part) parts

-- The segments that are left of a path.
pub resolve : Bool → Text → List Text
unfolding resolve_from
resolve above s = resolve_from above [] (split_slash s)

pub ends_with_slash : Text → Bool
ends_with_slash [] = false
ends_with_slash (c ∷ []) = eqb c b'/'
ends_with_slash (c ∷ d ∷ s) = ends_with_slash (d ∷ s)

unfoldable pub with_ends : Bool → Bool → Text → Text
with_ends absolute trailing [] =
    if absolute then b'/' ∷ [] else if trailing then b'.' ∷ b'/' ∷ [] else b'.' ∷ []
with_ends absolute trailing (c ∷ body) =
    let ended = if trailing then (c ∷ body) ++ (b'/' ∷ []) else c ∷ body in
    if absolute then b'/' ∷ ended else ended

unfoldable pub posix_normalize : Text → Text
unfolding with_ends ends_with_slash resolve split_slash join_slash
posix_normalize [] = b'.' ∷ []
posix_normalize (c ∷ s) =
    with_ends (eqb c b'/') (ends_with_slash (c ∷ s))
      (join_slash (resolve (not (eqb c b'/')) (c ∷ s)))

-- A segment that names an entry of its directory: not empty, `.` or `..`, and without a slash.
pub record IsPlain (part : Text) : Type 0 where
  pub not_empty : is_empty part ≡ false
  pub not_dot : is_dot part ≡ false
  pub not_dot_dot : is_dot_dot part ≡ false
  pub no_slash : NoSlash part

pub IsPlain-NoSlash : (parts : List Text) → All IsPlain parts → All NoSlash parts
IsPlain-NoSlash [] h = tt
IsPlain-NoSlash (part ∷ parts) h = (h.0.no_slash, IsPlain-NoSlash parts h.1)

All-reverse_aux {ℓ κ} :
    {A : Type ℓ} (P : A → Type κ) (xs ys : List A) → All P xs → All P ys → All P (reverse_aux xs ys)
All-reverse_aux P [] ys h k = k
All-reverse_aux P (x ∷ xs) ys h k = All-reverse_aux P xs (x ∷ ys) h.1 (h.0, k)

resolve_part-IsPlain :
    (stack : List Text) (part : Text)
    → All IsPlain stack
    → NoSlash part
    → All IsPlain (resolve_part false stack part)
unfolding resolve_part
resolve_part-IsPlain [] part h k = ground arith
resolve_part-IsPlain (top ∷ stack) part h k = ground arith

resolve_from-IsPlain :
    (stack parts : List Text)
    → All IsPlain stack
    → All NoSlash parts
    → All IsPlain (resolve_from false stack parts)
unfolding resolve_from
resolve_from-IsPlain stack [] h k = All-reverse_aux IsPlain stack [] h tt
resolve_from-IsPlain stack (part ∷ parts) h k =
    resolve_from-IsPlain (resolve_part false stack part) parts
      (resolve_part-IsPlain stack part h k.0) k.1

-- Of an absolute path only segments are left that name an entry of their directory.
pub resolve-IsPlain : (s : Text) → All IsPlain (resolve false s)
unfolding resolve
resolve-IsPlain s = resolve_from-IsPlain [] (split_slash s) tt (split-NoSlash s)

resolve_part_of_IsPlain :
    (stack : List Text) (part : Text) → IsPlain part → resolve_part false stack part ≡ part ∷ stack
unfolding resolve_part
resolve_part_of_IsPlain stack part h = ground arith

resolve_from_of_IsPlain :
    (stack parts : List Text)
    → All IsPlain parts
    → resolve_from false stack parts ≡ reverse stack ++ parts
unfolding resolve_from
resolve_from_of_IsPlain stack [] h = sym (append-nil (reverse stack))
resolve_from_of_IsPlain stack (part ∷ parts) h =
    rw (resolve_part_of_IsPlain stack part h.0, resolve_from_of_IsPlain (part ∷ stack) parts h.1)
      (simp (reverse-cons, append_assoc))

-- The path from the root through the segments.
abbrev pub root_path : List Text → Text
root_path [] = b'/' ∷ []
root_path (part ∷ parts) = slashes (part ∷ parts)
