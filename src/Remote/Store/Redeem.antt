-- ===== src/Remote/Store/Redeem.antt =====
-- A table of secrets that are good for one use: the authorization codes and the enrollment tokens
-- of src/remote/store.ts are two. A row is found by the hash of its secret, which is a unique
-- column, and a use is an update of the rows with that hash that have no `used_at`.
use oaslananka_lab_mcp_ssh_t.Prelude.{
  ◌⊎◌, inl, inr, refl, ℕ, suc, String, ◌≡◌, Bool, not, ◌&&◌, ◌||◌, Option, none, some, List, [],
  ◌∷◌, ◌++◌, ◌==◌, eqb, if◌then◌else◌, is_some, any,
}

-- What the two tables give.
pub record Redeemable {ℓ} (A : Type ℓ) : Type ℓ where
  pub row_id : A → String
  pub hash : A → String
  pub used : A → Option ℕ
  pub use_at : ℕ → A → A
  pub row_id-use_at : (now : ℕ) (a : A) → row_id (use_at now a) ≡ row_id a
  pub hash-use_at : (now : ℕ) (a : A) → hash (use_at now a) ≡ hash a
  pub used-use_at : (now : ℕ) (a : A) → used (use_at now a) ≡ some now

-- What can be done with a secret: nothing, since it was never issued, one use, or no more use.
pub data Voucher : Type 0 where
  absent unspent spent : Voucher

pub Voucher-cases : (v : Voucher) → (v ≡ absent) ⊎ ((v ≡ unspent) ⊎ (v ≡ spent))
Voucher-cases absent = inl refl
Voucher-cases unspent = inr (inl refl)
Voucher-cases spent = inr (inr refl)

abbrev pub voucher_of : Option ℕ → Voucher
voucher_of none = unspent
voucher_of (some now) = spent

-- The abstract table: what each secret is good for.
abbrev pub Ledger : Type 0
Ledger = String → Voucher

abbrev pub assign : String → Voucher → Ledger → Ledger
assign h v l k = if h == k then v else l k

abbrev pub spec_issue : String → Voucher → Ledger → Option Ledger
spec_issue h v l = elim (l h) [ absent ↦ some (assign h v l) | unspent ↦ none | spent ↦ none ]

abbrev pub spec_redeem : String → Ledger → Option Ledger
spec_redeem h l = elim (l h) [ absent ↦ none | unspent ↦ some (assign h spent l) | spent ↦ none ]

module _ {ℓ} {A : Type ℓ} (table : Redeemable A) where
  -- `SELECT * FROM … WHERE hash = ?`
  unfoldable pub find_hash : String → List A → Option A
  find_hash h [] = none
  find_hash h (a ∷ rows) = if table.hash a == h then some a else find_hash h rows

  unfoldable pub has_row_id : String → List A → Bool
  has_row_id i rows = any (λ a. table.row_id a == i) rows

  -- `INSERT INTO …`; none when a unique column has the value already.
  unfoldable pub insert_row : A → List A → Option (List A)
  insert_row a rows =
      if has_row_id (table.row_id a) rows || is_some (find_hash (table.hash a) rows)
      then none
      else some (rows ++ (a ∷ []))

  -- `UPDATE … SET used_at = ? WHERE hash = ? AND used_at IS NULL`, with the number of changes.
  unfoldable pub update_unused : String → ℕ → List A → List A × ℕ
  update_unused h now [] = ([], 0)
  update_unused h now (a ∷ rows) =
      let (rest, changes) = update_unused h now rows in
      if table.hash a == h && not (is_some (table.used a))
      then (table.use_at now a ∷ rest, suc changes)
      else (a ∷ rest, changes)

  -- none when the changes are not one.
  unfoldable pub mark_used : String → ℕ → List A → Option (List A)
  mark_used h now rows =
      let (rest, changes) = update_unused h now rows in if eqb changes 1 then some rest else none

  abbrev pub ledger : List A → Ledger
  ledger [] k = absent
  ledger (a ∷ rows) k = if table.hash a == k then voucher_of (table.used a) else ledger rows k

  -- The hash is a unique column.
  abbrev pub UniqueHash : List A → Type 0
  UniqueHash [] = Unit
  UniqueHash (a ∷ rows) = (ledger rows (table.hash a) ≡ absent) × UniqueHash rows
