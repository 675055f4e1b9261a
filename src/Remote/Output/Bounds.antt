-- ===== src/Remote/Output/Bounds.antt =====
-- How long the output of src/remote/agent-executor.ts is, and which part of the stream it holds.
use oaslananka_lab_mcp_ssh_t.Prelude.{
  ℕ, zero, suc, ◌+◌, ◌-◌, ◌≤◌, ◌<◌, min, ◌≡◌, refl, sym, ap, subst, ◌∙◌, ◌⊎◌, inl, inr, true, false,
  not, ◌||◌, List, [], ◌∷◌, ◌++◌, append_assoc, append-nil, arith, ltb, leb, eqb, Bool-cases,
  length, length-append, All,
}
use oaslananka_lab_mcp_ssh_t.Remote.Output.{
  truncation_marker, append_each, append_truncation_marker, empty_output, finalize_bounded_output,
  Buffer, take, zeros, joined, concat, OutputAccumulator, append_bounded_output,
}

length-take : (n : ℕ) (b : Buffer) → length (take n b) ≡ min n (length b)
unfolding take
length-take zero b = omega arith
length-take (suc n) [] = omega arith
length-take (suc n) (x ∷ b) = let rest = length-take n b in omega arith

take_all : (n : ℕ) (b : Buffer) → length b ≤ n → take n b ≡ b
unfolding take
take_all zero [] h = refl
take_all zero (x ∷ b) h = absurd (omega arith)
take_all (suc n) [] h = refl
take_all (suc n) (x ∷ b) h = ap (λ r. x ∷ r) (take_all n b (omega arith))

take-append : (n : ℕ) (a b : Buffer) → take n (a ++ b) ≡ take n a ++ take (n - length a) b
unfolding take
take-append zero a b = let none_left : 0 - length a ≡ 0 = omega arith in rw none_left refl
take-append (suc n) [] b =
    let all_left : suc n - length {A = ℕ} [] ≡ suc n = omega arith in rw all_left refl
take-append (suc n) (x ∷ a) b =
    let left : suc n - length (x ∷ a) ≡ n - length a = omega arith in
    rw left (ap (λ r. x ∷ r) (take-append n a b))

length-zeros : (n : ℕ) → length (zeros n) ≡ n
unfolding zeros
length-zeros zero = refl
length-zeros (suc n) = ap suc (length-zeros n)

length-concat : (buffers : List Buffer) (n : ℕ) → length (concat buffers n) ≡ n
unfolding concat
length-concat buffers n =
    let fill = n - length (joined buffers) in
    let sum = length-append (joined buffers) (zeros fill) in
    let filled = length-zeros fill in
    let taken = length-take n (joined buffers ++ zeros fill) in omega arith

concat_exact :
    (buffers : List Buffer) (n : ℕ)
    → length (joined buffers) ≡ n
    → concat buffers n ≡ joined buffers
unfolding concat zeros
concat_exact buffers n h =
    take-append n (joined buffers) (zeros (n - length (joined buffers)))
    ∙ (let none_left : n - length (joined buffers) ≡ 0 = omega arith in
        rw (none_left, take_all n (joined buffers) (omega arith)) (append-nil (joined buffers)))

joined-append : (a b : List Buffer) → joined (a ++ b) ≡ joined a ++ joined b
joined-append [] b = refl
joined-append (x ∷ a) b =
    ap (λ r. x ++ r) (joined-append a b) ∙ sym (append_assoc x (joined a) (joined b))

-- What an accumulator holds of the stream so far.
record Accumulates (max_bytes : ℕ) (stream : Buffer) (a : OutputAccumulator) : Type 0 where
  pub held : joined a.chunks ≡ take max_bytes stream
  pub counted : a.bytes ≡ min max_bytes (length stream)
  pub marked : a.truncated ≡ ltb max_bytes (length stream)

-- Beyond the limit nothing more is held.
take_full : (n : ℕ) (a b : Buffer) → n ≤ length a → take n (a ++ b) ≡ take n a
unfolding take
take_full n a b h =
    let none_left : n - length a ≡ 0 = omega arith in
    take-append n a b ∙ rw none_left (append-nil (take n a))

full-Accumulates :
    (max_bytes : ℕ) (stream chunk : Buffer) (a : OutputAccumulator)
    → 1 ≤ length chunk
    → max_bytes ≤ a.bytes
    → Accumulates max_bytes stream a
    → Accumulates max_bytes (stream ++ chunk) (record a { truncated = true })
full-Accumulates max_bytes stream chunk a n full f =
    let sum = length-append stream chunk in
    let counted = f.counted in
    record {
      held = f.held ∙ sym (take_full max_bytes stream chunk (omega arith));
      counted = omega arith;
      marked = ground arith;
    }

room-Accumulates :
    (max_bytes : ℕ) (stream chunk : Buffer) (a : OutputAccumulator)
    → a.bytes < max_bytes
    → Accumulates max_bytes stream a
    → let slice = take (max_bytes - a.bytes) chunk in
      Accumulates max_bytes (stream ++ chunk) (record {
        bytes = a.bytes + length slice;
        chunks = a.chunks ++ (slice ∷ []);
        truncated = a.truncated || not (eqb (length slice) (length chunk));
      })
room-Accumulates max_bytes stream chunk a room f =
    let sum = length-append stream chunk in
    let counted = f.counted in
    let marked = f.marked in
    let taken = length-take (max_bytes - a.bytes) chunk in
    let left : max_bytes - length stream ≡ max_bytes - a.bytes = omega arith in
    let both = take-append max_bytes stream chunk in
    record {
      held =
          joined-append a.chunks (take (max_bytes - a.bytes) chunk ∷ [])
          ∙ rw (f.held, append-nil (take (max_bytes - a.bytes) chunk)) (sym (rw left at both));
      counted = omega arith;
      marked = ground arith;
    }

append-Accumulates :
    (max_bytes : ℕ) (stream chunk : Buffer) (a : OutputAccumulator)
    → 1 ≤ length chunk
    → Accumulates max_bytes stream a
    → Accumulates max_bytes (stream ++ chunk) (append_bounded_output a chunk max_bytes)
unfolding append_bounded_output
append-Accumulates max_bytes stream chunk a n f = elim (Bool-cases (leb max_bytes 0)) [
  | inl none_wanted ↦
      let some_bytes : (a.truncated || ltb 0 (length chunk)) ≡ true = ground arith in
      rw (none_wanted, some_bytes) (full-Accumulates max_bytes stream chunk a n (ground arith) f)
  | inr wanted ↦ elim (Bool-cases (leb max_bytes a.bytes)) [
    | inl full ↦ rw (wanted, full) (full-Accumulates max_bytes stream chunk a n (ground arith) f)
    | inr room ↦ rw (wanted, room) (room-Accumulates max_bytes stream chunk a (ground arith) f)
  ]
]

append_each-Accumulates :
    (max_bytes : ℕ) (stream : Buffer) (chunks : List Buffer) (a : OutputAccumulator)
    → All (λ chunk. 1 ≤ length chunk) chunks
    → Accumulates max_bytes stream a
    → Accumulates max_bytes (stream ++ joined chunks) (append_each a chunks max_bytes)
unfolding append_each
append_each-Accumulates max_bytes stream [] a n f = rw (append-nil stream) f
append_each-Accumulates max_bytes stream (chunk ∷ chunks) a n f =
    subst
      (λ whole.
        Accumulates max_bytes whole
          (append_each (append_bounded_output a chunk max_bytes) chunks max_bytes))
      (append_assoc stream chunk (joined chunks))
      (append_each-Accumulates max_bytes (stream ++ chunk) chunks
        (append_bounded_output a chunk max_bytes) n.1
        (append-Accumulates max_bytes stream chunk a n.0 f))

empty-Accumulates : (max_bytes : ℕ) → Accumulates max_bytes [] empty_output
unfolding take
empty-Accumulates zero = record { held = refl; counted = omega arith; marked = ground arith }
empty-Accumulates (suc n) = record { held = refl; counted = omega arith; marked = ground arith }

-- A marked output fills the limit.
marker-length :
    (buffer : Buffer) (max_bytes : ℕ)
    → length (append_truncation_marker buffer max_bytes).value ≡ max_bytes
unfolding append_truncation_marker
marker-length buffer zero = refl
marker-length buffer (suc n) =
    elim (Bool-cases (leb (suc n) (length (truncation_marker (suc n))))) [
      | inl long ↦
          let taken = length-take (suc n) (truncation_marker (suc n)) in
          rw (long, append_truncation_marker) (ground arith)
      | inr short ↦ rw (short, append_truncation_marker) (length-concat _ (suc n))
    ]

marker-truncated :
    (buffer : Buffer) (max_bytes : ℕ) → (append_truncation_marker buffer max_bytes).truncated ≡ true
unfolding append_truncation_marker
marker-truncated buffer zero = refl
marker-truncated buffer (suc n) =
    elim (Bool-cases (leb (suc n) (length (truncation_marker (suc n))))) [
      | inl long ↦ rw (long, append_truncation_marker) refl
      | inr short ↦ rw (short, append_truncation_marker) refl
    ]

finalize-kept :
    (max_bytes : ℕ) (a : OutputAccumulator)
    → a.truncated ≡ false
    → finalize_bounded_output a max_bytes
      ≡ (record { value = concat a.chunks a.bytes; truncated = false })
unfolding finalize_bounded_output
finalize-kept max_bytes a h = rw h refl

finalize-marked :
    (max_bytes : ℕ) (a : OutputAccumulator)
    → a.truncated ≡ true
    → finalize_bounded_output a max_bytes
      ≡ append_truncation_marker (concat a.chunks a.bytes) max_bytes
unfolding finalize_bounded_output
finalize-marked max_bytes a h = rw h refl

-- A command's output, collected chunk by chunk from chunks that are not empty: if the whole stream
-- is within the limit, it is returned whole and not marked; otherwise the result is marked as
-- truncated and exactly as long as the limit.
pub finalize-append_each :
    (max_bytes : ℕ) (chunks : List Buffer)
    → All (λ chunk. 1 ≤ length chunk) chunks
    → let r = finalize_bounded_output (append_each empty_output chunks max_bytes) max_bytes in
      ((length (joined chunks) ≤ max_bytes) × (r.truncated ≡ false) × (r.value ≡ joined chunks))
      ⊎ ((max_bytes < length (joined chunks)) × (r.truncated ≡ true) × (length r.value ≡ max_bytes))
finalize-append_each max_bytes chunks n =
    let a = append_each empty_output chunks max_bytes in
    let f =
      append_each-Accumulates max_bytes [] chunks empty_output n (empty-Accumulates max_bytes) in
    let held = f.held in
    let counted = f.counted in
    let marked = f.marked in
    elim (Bool-cases (ltb max_bytes (length (joined chunks)))) [
      | inl over ↦
          rw (finalize-marked max_bytes a (marked ∙ over))
            (inr (ground arith, marker-truncated _ max_bytes, marker-length _ max_bytes))
      | inr within ↦
          let small : length (joined chunks) ≤ max_bytes = ground arith in
          let whole = held ∙ take_all max_bytes (joined chunks) small in
          let exact : length (joined a.chunks) ≡ a.bytes = ap length whole ∙ (omega arith) in
          rw (finalize-kept max_bytes a (marked ∙ within))
            (inl (small, refl, concat_exact a.chunks a.bytes exact ∙ whole))
    ]
