-- ===== src/Policy/Paths/Under.antt =====
-- The prefix test of src/policy.ts against the segments of the two paths.
use oaslananka_lab_mcp_ssh_t.Prelude.{
  ◌≡◌, refl, sym, ◌∙◌, ◌↔◌, ◌⊎◌, inl, inr, true, false, ◌||◌, List, [], ◌∷◌, ◌++◌, append_assoc,
  append-nil, arith, Bool-cases, All,
}
use oaslananka_lab_mcp_ssh_t.Text.{Text, text_eq, text_eq_iff, starts_with, starts_with_iff}
use oaslananka_lab_mcp_ssh_t.Text.Split.{
  split_slash, slashes, slashes-append, slashes-prefix, slashes-injective,
}
use oaslananka_lab_mcp_ssh_t.Text.Posix.{IsPlain, IsPlain-NoSlash, is_empty, root_path}
use oaslananka_lab_mcp_ssh_t.Policy.Paths.{is_path_under}

-- The directory of the segments `b` holds the path of the segments `a`, or is it.
abbrev pub IsUnder : List Text → List Text → Type 0
IsUnder a b = (c : List Text) × (a ≡ b ++ c)

root-ne :
    (part : Text) (parts : List Text) (rest : Text)
    → is_empty part ≡ false
    → ◌≡◌ {A = Text} (b'/' ∷ []) (slashes (part ∷ parts) ++ rest)
    → ⊥
root-ne [] parts rest n e = cc
root-ne (c ∷ part) parts rest n e = cc

equal-IsUnder :
    (a : List Text) (part : Text) (parts : List Text)
    → All IsPlain a
    → All IsPlain (part ∷ parts)
    → root_path a ≡ slashes (part ∷ parts)
    → IsUnder a (part ∷ parts)
equal-IsUnder [] part parts pa pb e =
    absurd (root-ne part parts [] pb.0.not_empty (e ∙ sym (append-nil _)))
equal-IsUnder (x ∷ a) part parts pa pb e = (
  [],
  slashes-injective (x ∷ a) (part ∷ parts) (IsPlain-NoSlash (x ∷ a) pa)
        (IsPlain-NoSlash (part ∷ parts) pb) e
      ∙ sym (append-nil _),
)

below-IsUnder :
    (a : List Text) (part : Text) (parts : List Text) (rest : Text)
    → All IsPlain a
    → All IsPlain (part ∷ parts)
    → root_path a ≡ slashes (part ∷ parts) ++ (b'/' ∷ rest)
    → IsUnder a (part ∷ parts)
below-IsUnder [] part parts rest pa pb e =
    absurd (root-ne part parts (b'/' ∷ rest) pb.0.not_empty e)
below-IsUnder (x ∷ a) part parts rest pa pb e = (
  split_slash rest,
  slashes-prefix (x ∷ a) (part ∷ parts) rest (IsPlain-NoSlash (x ∷ a) pa)
      (IsPlain-NoSlash (part ∷ parts) pb) e,
)

pub not_root :
    (part : Text) (parts : List Text)
    → is_empty part ≡ false
    → text_eq (slashes (part ∷ parts)) (b'/' ∷ []) ≡ false
not_root part parts n = elim (Bool-cases (text_eq (slashes (part ∷ parts)) (b'/' ∷ []))) [
  | inl same ↦
      absurd (root-ne part parts [] n (sym ((text_eq_iff _ _).0 same) ∙ sym (append-nil _)))
  | inr other ↦ other
]

starts-with_slash : (s : Text) → starts_with (b'/' ∷ []) (b'/' ∷ s) ≡ true
unfolding starts_with
starts-with_slash s = refl

-- A prefix below the root is tested at the boundary of a segment.
pub under-boundary :
    (path part : Text) (parts : List Text)
    → is_empty part ≡ false
    → is_path_under path (slashes (part ∷ parts)) b'/' ≡ (
        text_eq path (slashes (part ∷ parts))
        || starts_with (slashes (part ∷ parts) ++ (b'/' ∷ [])) path)
unfolding is_path_under
under-boundary path part parts n =
    rw (starts-with_slash (part ++ slashes parts), not_root part parts n) refl

boundary_sound :
    (a : List Text) (part : Text) (parts : List Text)
    → All IsPlain a
    → All IsPlain (part ∷ parts)
    → (text_eq (root_path a) (slashes (part ∷ parts))
        || starts_with (slashes (part ∷ parts) ++ (b'/' ∷ [])) (root_path a))
      ≡ true
    → IsUnder a (part ∷ parts)
boundary_sound a part parts pa pb h =
    elim (Bool-cases (text_eq (root_path a) (slashes (part ∷ parts)))) [
      | inl same ↦ equal-IsUnder a part parts pa pb ((text_eq_iff _ _).0 same)
      | inr other ↦
          let (rest, e) =
            (starts_with_iff (slashes (part ∷ parts) ++ (b'/' ∷ [])) (root_path a)).0
              (rw other at h) in
          below-IsUnder a part parts rest pa pb
            (e ∙ append_assoc (slashes (part ∷ parts)) (b'/' ∷ []) rest)
    ]

boundary_complete :
    (t p rest : Text)
    → (t ≡ p) ⊎ (t ≡ p ++ (b'/' ∷ rest))
    → (text_eq t p || starts_with (p ++ (b'/' ∷ [])) t) ≡ true
boundary_complete t p rest (inl e) = rw ((text_eq_iff t p).1 e) refl
boundary_complete t p rest (inr e) =
    let below =
      (starts_with_iff (p ++ (b'/' ∷ [])) t).1 (rest, e ∙ sym (append_assoc p (b'/' ∷ []) rest)) in
    ground (arith, below)

root_path-append :
    (part : Text) (parts c : List Text)
    → (root_path ((part ∷ parts) ++ c) ≡ slashes (part ∷ parts))
      ⊎ ((rest : Text) × (root_path ((part ∷ parts) ++ c)
            ≡ slashes (part ∷ parts) ++ (b'/' ∷ rest)))
root_path-append part parts [] =
    inl (slashes-append (part ∷ parts) [] ∙ append-nil (slashes (part ∷ parts)))
root_path-append part parts (x ∷ c) = inr (x ++ slashes c, slashes-append (part ∷ parts) (x ∷ c))

IsUnder-boundary :
    (a : List Text) (part : Text) (parts : List Text)
    → IsUnder a (part ∷ parts)
    → (text_eq (root_path a) (slashes (part ∷ parts))
        || starts_with (slashes (part ∷ parts) ++ (b'/' ∷ [])) (root_path a))
      ≡ true
IsUnder-boundary a part parts (c, e) = rw e (elim (root_path-append part parts c) [
  | inl same ↦
      boundary_complete (root_path ((part ∷ parts) ++ c)) (slashes (part ∷ parts)) [] (inl same)
  | inr (rest, below) ↦
      boundary_complete (root_path ((part ∷ parts) ++ c)) (slashes (part ∷ parts)) rest (inr below)
])

under_root : (path : Text) → is_path_under path (b'/' ∷ []) b'/' ≡ true
unfolding is_path_under text_eq
under_root path = refl

-- A normalised path is under a normalised prefix exactly when the segments of the prefix are the
-- first segments of the path: `/home` holds `/home/x`, and does not hold `/homework`.
pub is_path_under_iff :
    (a b : List Text)
    → All IsPlain a
    → All IsPlain b
    → (is_path_under (root_path a) (root_path b) b'/' ≡ true) ↔ IsUnder a b
is_path_under_iff a [] pa pb = (λ h. (a, refl), λ h. under_root (root_path a))
is_path_under_iff a (part ∷ parts) pa pb =
    let test = under-boundary (root_path a) part parts pb.0.not_empty in
    (
      λ h. boundary_sound a part parts pa pb (sym test ∙ h),
      λ u. test ∙ IsUnder-boundary a part parts u,
    )
