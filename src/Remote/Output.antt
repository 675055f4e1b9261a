-- ===== src/Remote/Output.antt =====
-- The bounds on the output of a command in src/remote/agent-executor.ts. A buffer is a list of
-- bytes.
pub mod Bounds
use oaslananka_lab_mcp_ssh_t.Prelude.{
  ℕ, zero, suc, ◌+◌, ◌-◌, Bool, true, false, not, ◌||◌, List, [], ◌∷◌, ◌++◌, ltb, leb, eqb,
  if◌then◌else◌, length,
}
use oaslananka_lab_mcp_ssh_t.Text.{codes}
use oaslananka_lab_mcp_ssh_t.HostKeys.{decimal}

abbrev pub Buffer : Type 0
Buffer = List ℕ

-- `buffer.subarray(0, n)`
pub take : ℕ → Buffer → Buffer
take zero b = []
take (suc n) [] = []
take (suc n) (x ∷ b) = x ∷ take n b

-- `Buffer.alloc(n)`
pub zeros : ℕ → Buffer
zeros zero = []
zeros (suc n) = 0 ∷ zeros n

abbrev pub joined : List Buffer → Buffer
joined [] = []
joined (b ∷ bs) = b ++ joined bs

-- `Buffer.concat(buffers, n)`, which cuts and fills to the length n
pub concat : List Buffer → ℕ → Buffer
unfolding take zeros
concat buffers n = take n (joined buffers ++ zeros (n - length (joined buffers)))

pub record OutputAccumulator : Type 0 where
  pub bytes : ℕ
  pub chunks : List Buffer
  pub truncated : Bool

pub record Bounded : Type 0 where
  pub value : Buffer
  pub truncated : Bool

abbrev pub empty_output : OutputAccumulator
empty_output = record { bytes = 0; chunks = []; truncated = false }

pub truncation_marker : ℕ → Buffer
truncation_marker max_bytes = codes "\n[truncated after " ++ decimal max_bytes ++ codes " bytes]\n"

pub append_truncation_marker : Buffer → ℕ → Bounded
append_truncation_marker buffer zero = record { value = []; truncated = true }
append_truncation_marker buffer (suc n) =
    let marker = truncation_marker (suc n) in
    if leb (suc n) (length marker)
    then record { value = take (suc n) marker; truncated = true }
    else record {
      value = concat (take (suc n - length marker) buffer ∷ marker ∷ []) (suc n);
      truncated = true;
    }

pub truncate_buffer : Buffer → ℕ → Bounded
truncate_buffer buffer max_bytes =
    if leb (length buffer) max_bytes
    then record { value = buffer; truncated = false }
    else append_truncation_marker buffer max_bytes

pub append_bounded_output : OutputAccumulator → Buffer → ℕ → OutputAccumulator
append_bounded_output a chunk max_bytes =
    if leb max_bytes 0
    then record a { truncated = a.truncated || ltb 0 (length chunk) }
    else if leb max_bytes a.bytes
    then record a { truncated = true }
    else let slice = take (max_bytes - a.bytes) chunk in
      record {
        bytes = a.bytes + length slice;
        chunks = a.chunks ++ (slice ∷ []);
        truncated = a.truncated || not (eqb (length slice) (length chunk));
      }

pub finalize_bounded_output : OutputAccumulator → ℕ → Bounded
finalize_bounded_output a max_bytes =
    let value = concat a.chunks a.bytes in
    if not a.truncated
    then record { value = value; truncated = false }
    else append_truncation_marker value max_bytes

-- The events of a stream, in order.
pub append_each : OutputAccumulator → List Buffer → ℕ → OutputAccumulator
append_each a [] max_bytes = a
append_each a (chunk ∷ chunks) max_bytes =
    append_each (append_bounded_output a chunk max_bytes) chunks max_bytes
