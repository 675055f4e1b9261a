-- ===== src/RateLimiter/Logs.antt =====
-- The log of one key in src/rate-limiter.ts: what eviction leaves of it, and the times in a window.
use oaslananka_lab_mcp_ssh_t.Prelude.{
  ℕ, ◌+◌, ◌≤◌, ◌<◌, ◌≡◌, refl, ◌&&◌, List, [], ◌∷◌, ◌++◌, arith, ltb, leb, if◌then◌else◌, length,
  keep, All, All-append,
}
use oaslananka_lab_mcp_ssh_t.RateLimiter.{evict, active}

-- The number of times `s` in a history with `t - w < s ≤ t`.
abbrev pub count_within : ℕ → ℕ → List ℕ → ℕ
count_within w t [] = 0
count_within w t (s ∷ acc) = (if ltb t (s + w) && leb s t then 1 else 0) + count_within w t acc

abbrev pub Ascending : List ℕ → Type 0
Ascending [] = Unit
Ascending (x ∷ xs) = All (λ y. x ≤ y) xs × Ascending xs

pub Ascending-snoc :
    (xs : List ℕ) (y : ℕ) → Ascending xs → All (λ x. x ≤ y) xs → Ascending (xs ++ y ∷ [])
Ascending-snoc [] y h k = (tt, tt)
Ascending-snoc (x ∷ xs) y h k =
    (All-append (λ z. x ≤ z) xs (y ∷ []) h.0 (k.0, tt), Ascending-snoc xs y h.1 k.1)

pub All-le_mono : (a b : ℕ) (xs : List ℕ) → a ≤ b → All (λ x. x ≤ a) xs → All (λ x. x ≤ b) xs
All-le_mono a b [] h k = tt
All-le_mono a b (x ∷ xs) h k = (omega arith, All-le_mono a b xs h k.1)

pub All-evict : (P : ℕ → Type 0) (w now : ℕ) (xs : List ℕ) → All P xs → All P (evict w now xs)
unfolding evict
All-evict P w now [] h = tt
All-evict P w now (x ∷ xs) h = ground (arith, All-evict P w now xs h.1)

pub evict-Ascending : (w now : ℕ) (xs : List ℕ) → Ascending xs → Ascending (evict w now xs)
unfolding evict
evict-Ascending w now [] h = tt
evict-Ascending w now (x ∷ xs) h = ground (arith, evict-Ascending w now xs h.1)

-- To drop at two times is to drop at the later one.
pub evict-evict : (w a b : ℕ) (xs : List ℕ) → a ≤ b → evict w b (evict w a xs) ≡ evict w b xs
unfolding evict
evict-evict w a b [] h = refl
evict-evict w a b (x ∷ xs) h = ground (arith, evict-evict w a b xs h)

-- No entry of an ascending log is dropped if its first is not.
keep-All : (w now x : ℕ) (xs : List ℕ) → now < x + w → All (λ y. x ≤ y) xs → active w now xs ≡ xs
unfolding active keep
keep-All w now x [] h k = refl
keep-All w now x (y ∷ ys) h k = ground (arith, keep-All w now x ys h k.1)

-- On an ascending log the filter and the loop agree.
pub active-eq-evict : (w now : ℕ) (xs : List ℕ) → Ascending xs → active w now xs ≡ evict w now xs
unfolding active keep evict
active-eq-evict w now [] h = refl
active-eq-evict w now (x ∷ xs) h = ground (arith, active-eq-evict w now xs h.1, keep-All w now x xs)

-- What is left after the loop are the entries within the window.
count-le-evict :
    (w now t : ℕ) (xs : List ℕ)
    → All (λ x. x ≤ now) xs
    → Ascending xs
    → now ≤ t
    → count_within w t xs ≤ length (evict w now xs)
unfolding evict
count-le-evict w now t [] h a k = omega arith
count-le-evict w now t (x ∷ xs) h a k =
    ground (arith, count-le-evict w now t xs h.1 a.1 k, count-le-length xs)
  where
    count-le-length : (ys : List ℕ) → count_within w t ys ≤ length ys
    count-le-length [] = omega arith
    count-le-length (y ∷ ys) = ground (arith, count-le-length ys)

pub evict-snoc :
    (w b t : ℕ) (xs : List ℕ)
    → All (λ x. x ≤ t) xs
    → evict w b (xs ++ t ∷ []) ≡ evict w b xs ++ evict w b (t ∷ [])
unfolding evict
evict-snoc w b t [] h = refl
evict-snoc w b t (x ∷ xs) h = ground (arith, evict-snoc w b t xs h.1)

count-append :
    (w t : ℕ) (xs ys : List ℕ)
    → count_within w t (xs ++ ys) ≡ count_within w t xs + count_within w t ys
count-append w t [] ys = omega arith
count-append w t (x ∷ xs) ys = ground (arith, count-append w t xs ys)

-- One more request fits if fewer than the limit are left after the loop.
pub snoc_bounded :
    (w limit now : ℕ) (acc : List ℕ)
    → All (λ s. s ≤ now) acc
    → Ascending acc
    → length (evict w now acc) < limit
    → ((t : ℕ) → count_within w t acc ≤ limit)
    → (t : ℕ) → count_within w t (acc ++ now ∷ []) ≤ limit
snoc_bounded w limit now acc past up room old t =
    ground (arith, count-append w t acc (now ∷ []), old t, count-le-evict w now t acc past up)
