-- ===== src/Text.antt =====
-- JavaScript strings as lists of code units, with the string operations that the program uses, and
-- Node's `path.posix.normalize`.
pub mod Split
pub mod Posix
use oaslananka_lab_mcp_ssh_t.Prelude.{
  ℕ, String, ◌≡◌, refl, ◌↔◌, Bool, true, false, ◌&&◌, ◌||◌, List, [], ◌∷◌, ◌++◌, arith, leb, eqb,
  if◌then◌else◌,
}
use Prim.Native.Char.{code}

abbrev pub Text : Type 0
Text = List ℕ

-- A literal of the program.
abbrev pub codes : String → Text
codes String.[] = []
codes (String.◌∷◌ c s) = code c ∷ codes s

-- `s === t`
unfoldable pub text_eq : Text → Text → Bool
text_eq [] [] = true
text_eq (a ∷ s) (b ∷ t) = eqb a b && text_eq s t
text_eq _ _ = false

pub text_eq_iff : (s t : Text) → (text_eq s t ≡ true) ↔ (s ≡ t)
unfolding text_eq
text_eq_iff [] [] = (λ h. refl, λ h. refl)
text_eq_iff [] (b ∷ t) = (λ h. cc, λ h. cc)
text_eq_iff (a ∷ s) [] = (λ h. cc, λ h. cc)
text_eq_iff (a ∷ s) (b ∷ t) =
    (λ h. ground (arith, (text_eq_iff s t).0), λ h. ground (arith, (text_eq_iff s t).1))

-- `t.startsWith(p)`
unfoldable pub starts_with : Text → Text → Bool
starts_with [] t = true
starts_with (a ∷ p) [] = false
starts_with (a ∷ p) (b ∷ t) = eqb a b && starts_with p t

starts_with_sound : (p t : Text) → starts_with p t ≡ true → (rest : Text) × (t ≡ p ++ rest)
unfolding starts_with
starts_with_sound [] t h = (t, refl)
starts_with_sound (a ∷ p) [] h = cc
starts_with_sound (a ∷ p) (b ∷ t) h =
    let (rest, e) = starts_with_sound p t (ground arith) in (rest, ground arith)

starts_with-append : (p rest : Text) → starts_with p (p ++ rest) ≡ true
unfolding starts_with
starts_with-append [] rest = refl
starts_with-append (a ∷ p) rest = ground (arith, starts_with-append p rest)

pub starts_with_iff : (p t : Text) → (starts_with p t ≡ true) ↔ ((rest : Text) × (t ≡ p ++ rest))
starts_with_iff p t = (starts_with_sound p t, λ h. rw h.1 (starts_with-append p h.0))

-- `s.includes(c)` for one character
unfoldable pub has_code : ℕ → Text → Bool
has_code c [] = false
has_code c (d ∷ s) = eqb d c || has_code c s

-- the white space that `trim()` removes and `\s` matches
unfoldable pub is_space : ℕ → Bool
is_space c =
    (leb 9 c && leb c 13)
    || eqb c 32
    || eqb c 160
    || eqb c 0x1680
    || (leb 0x2000 c && leb c 0x200a)
    || eqb c 0x2028
    || eqb c 0x2029
    || eqb c 0x202f
    || eqb c 0x205f
    || eqb c 0x3000
    || eqb c 0xfeff

trim_start : Text → Text
trim_start [] = []
trim_start (c ∷ s) = if is_space c then trim_start s else c ∷ s

drop_space : ℕ → Text → Text
drop_space c [] = if is_space c then [] else c ∷ []
drop_space c (d ∷ s) = c ∷ d ∷ s

trim_end : Text → Text
unfolding drop_space
trim_end [] = []
trim_end (c ∷ s) = drop_space c (trim_end s)

-- `s.trim()`
unfoldable pub trim : Text → Text
unfolding trim_start trim_end is_space
trim s = trim_end (trim_start s)
