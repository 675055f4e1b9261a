-- ===== src/Policy/Paths.antt =====
-- The path rules of src/policy.ts. The separator is one character, and the platform is POSIX: the
-- root that `path.parse` finds is `/` or nothing.
pub mod Segments
pub mod Under
use oaslananka_lab_mcp_ssh_t.Prelude.{
  ℕ, zero, suc, Bool, true, ◌||◌, Option, none, some, [], ◌∷◌, ◌++◌, map, eqb, if◌then◌else◌,
  get_or,
}
use oaslananka_lab_mcp_ssh_t.Text.{Text, text_eq, starts_with, has_code}
use oaslananka_lab_mcp_ssh_t.Text.Posix.{posix_normalize}

unfoldable pub is_segment_boundary_path_match : Text → Text → ℕ → Bool
is_segment_boundary_path_match candidate prefix separator =
    text_eq candidate prefix || starts_with (prefix ++ (separator ∷ [])) candidate

drop_separator : ℕ → ℕ → Text → Text
drop_separator separator c [] = if eqb c separator then [] else c ∷ []
drop_separator separator c (d ∷ s) = c ∷ d ∷ s

strip_end : ℕ → Text → Text
unfolding drop_separator
strip_end separator [] = []
strip_end separator (c ∷ s) = drop_separator separator c (strip_end separator s)

-- The root, of which only the length is used, stays.
pub strip_trailing_separators : Text → ℕ → ℕ → Text
unfolding strip_end
strip_trailing_separators value separator zero = strip_end separator value
strip_trailing_separators [] separator (suc root) = []
strip_trailing_separators (c ∷ value) separator (suc root) =
    c ∷ strip_trailing_separators value separator root

-- `pathValue.replace(/\\/g, "/")`
unfoldable pub unix_separators : Text → Text
unix_separators = map (λ c. if eqb c b'\\' then b'/' else c)

abbrev pub absolute : Text → Text
absolute s = if starts_with (b'/' ∷ []) s then s else b'/' ∷ s

-- `none` is the error that is thrown for a NUL byte.
unfoldable pub normalize_remote_posix_path : Text → Option Text
unfolding has_code unix_separators starts_with posix_normalize strip_trailing_separators
normalize_remote_posix_path path =
    if has_code 0 path
    then none
    else some (strip_trailing_separators (posix_normalize (absolute (unix_separators path))) b'/' 1)

-- `path.resolve` from the working directory, and the file system's `realpathSync`, which fails on a
-- path that does not exist, are parameters.
pub normalize_local_policy_path : (Text → Text) → (Text → Option Text) → Text → Option Text
unfolding has_code strip_trailing_separators posix_normalize
normalize_local_policy_path resolve_path realpath path =
    let normalized = posix_normalize (resolve_path path) in
    let real = get_or (realpath normalized) normalized in
    if has_code 0 path
    then none
    else some (strip_trailing_separators real b'/' (if starts_with (b'/' ∷ []) real then 1 else 0))

-- `path.parse(prefix).root`
abbrev pub root_of : Text → Text
root_of prefix = if starts_with (b'/' ∷ []) prefix then b'/' ∷ [] else []

unfoldable pub is_path_under : Text → Text → ℕ → Bool
unfolding is_segment_boundary_path_match
is_path_under path prefix separator =
    if text_eq prefix (b'/' ∷ []) || text_eq prefix (root_of prefix)
    then true
    else is_segment_boundary_path_match path prefix separator
