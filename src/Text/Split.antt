-- ===== src/Text/Split.antt =====
-- `s.split("/")` and `parts.join("/")`.
use oaslananka_lab_mcp_ssh_t.Prelude.{
  ℕ, ◌≡◌, refl, sym, ap, ◌∙◌, false, List, [], ◌∷◌, ◌++◌, append_assoc, append-nil, arith, eqb,
  if◌then◌else◌, All,
}
use oaslananka_lab_mcp_ssh_t.Text.{Text}

extend : ℕ → List Text → List Text
extend c [] = (c ∷ []) ∷ []
extend c (part ∷ parts) = (c ∷ part) ∷ parts

unfoldable pub split_slash : Text → List Text
unfolding extend
split_slash [] = [] ∷ []
split_slash (c ∷ s) = let parts = split_slash s in if eqb c b'/' then [] ∷ parts else extend c parts

unfoldable pub join_slash : List Text → Text
join_slash [] = []
join_slash (part ∷ []) = part
join_slash (part ∷ next ∷ parts) = part ++ (b'/' ∷ join_slash (next ∷ parts))

abbrev pub NoSlash : Text → Type 0
NoSlash = All (λ c. eqb c b'/' ≡ false)

-- Each segment behind a slash.
abbrev pub slashes : List Text → Text
slashes [] = []
slashes (part ∷ parts) = b'/' ∷ (part ++ slashes parts)

pub split-NoSlash : (s : Text) → All NoSlash (split_slash s)
unfolding split_slash
split-NoSlash [] = (tt, tt)
split-NoSlash (c ∷ s) = ground (arith, split-NoSlash s, extend-NoSlash c (split_slash s))
  where
    extend-NoSlash :
        (c : ℕ) (parts : List Text)
        → eqb c b'/' ≡ false
        → All NoSlash parts
        → All NoSlash (extend c parts)
    extend-NoSlash c [] e h = ((e, tt), tt)
    extend-NoSlash c (part ∷ parts) e h = ((e, h.0), h.1)

-- Splitting undoes a slash behind a part that has none.
split-append :
    (part rest : Text)
    → NoSlash part
    → split_slash (part ++ (b'/' ∷ rest)) ≡ part ∷ split_slash rest
unfolding split_slash
split-append [] rest h = refl
split-append (c ∷ part) rest h = ground (arith, split-append part rest h.1)

split_single : (part : Text) → NoSlash part → split_slash part ≡ part ∷ []
unfolding split_slash
split_single [] h = refl
split_single (c ∷ part) h = ground (arith, split_single part h.1)

-- The first of the parts of `part ++ slashes parts` is `part`.
split-slashes_from :
    (part : Text) (parts : List Text)
    → NoSlash part
    → All NoSlash parts
    → split_slash (part ++ slashes parts) ≡ part ∷ parts
split-slashes_from part [] h k = rw append-nil (split_single part h)
split-slashes_from part (next ∷ parts) h k =
    split-append part (next ++ slashes parts) h
    ∙ ap (λ l. part ∷ l) (split-slashes_from next parts k.0 k.1)

split-slashes : (parts : List Text) → All NoSlash parts → split_slash (slashes parts) ≡ [] ∷ parts
split-slashes parts k = split-slashes_from [] parts tt k

pub slashes-append : (a b : List Text) → slashes (a ++ b) ≡ slashes a ++ slashes b
slashes-append [] b = refl
slashes-append (part ∷ a) b =
    ap (λ (l : Text). b'/' ∷ l)
      (rw (slashes-append a b) (sym (append_assoc part (slashes a) (slashes b))))

pub slash-join :
    (part : Text) (parts : List Text) → b'/' ∷ join_slash (part ∷ parts) ≡ slashes (part ∷ parts)
unfolding join_slash
slash-join part [] = ap (λ (l : Text). b'/' ∷ l) (sym (append-nil part))
slash-join part (next ∷ parts) = ap (λ (l : Text). b'/' ∷ (part ++ l)) (slash-join next parts)

split-slashes_rest :
    (part : Text) (b : List Text) (rest : Text)
    → NoSlash part
    → All NoSlash b
    → split_slash (part ++ (slashes b ++ (b'/' ∷ rest))) ≡ part ∷ (b ++ split_slash rest)
split-slashes_rest part [] rest h k = split-append part rest h
split-slashes_rest part (next ∷ b) rest h k = rw (append_assoc next (slashes b) (b'/' ∷ rest)) (
    split-append part (next ++ (slashes b ++ (b'/' ∷ rest))) h
    ∙ ap (λ l. part ∷ l) (split-slashes_rest next b rest k.0 k.1))

-- A text of segments that begins with other segments and a slash begins with those segments.
pub slashes-prefix :
    (a b : List Text) (rest : Text)
    → All NoSlash a
    → All NoSlash b
    → slashes a ≡ slashes b ++ (b'/' ∷ rest)
    → a ≡ b ++ split_slash rest
slashes-prefix a b rest h k e =
    let same : [] ∷ a ≡ [] ∷ (b ++ split_slash rest) =
      sym (split-slashes a h) ∙ ap split_slash e ∙ split-slashes_rest [] b rest tt k in
    cc

pub slashes-injective :
    (a b : List Text) → All NoSlash a → All NoSlash b → slashes a ≡ slashes b → a ≡ b
slashes-injective a b h k e =
    let same : [] ∷ a ≡ [] ∷ b = sym (split-slashes a h) ∙ ap split_slash e ∙ split-slashes b k in
    cc
