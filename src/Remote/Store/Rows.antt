-- ===== src/Remote/Store/Rows.antt =====
-- The queries of src/remote/store.ts on the rows of a table.
use oaslananka_lab_mcp_ssh_t.Prelude.{
  ℕ, zero, suc, Bool, Option, none, some, List, [], ◌∷◌, if◌then◌else◌,
}

module _ {ℓ} {A : Type ℓ} where
  -- `SELECT … WHERE …`, the first row
  unfoldable pub find : (A → Bool) → List A → Option A
  find p [] = none
  find p (a ∷ rows) = if p a then some a else find p rows

  -- `UPDATE … WHERE …`
  unfoldable pub update_where : (A → Bool) → (A → A) → List A → List A
  update_where p f [] = []
  update_where p f (a ∷ rows) = (if p a then f a else a) ∷ update_where p f rows

  place : (A → A → Bool) → A → List A → List A
  place before a [] = a ∷ []
  place before a (b ∷ rows) = if before b a then b ∷ place before a rows else a ∷ b ∷ rows

  -- `ORDER BY …`, where rows that the order does not tell apart keep their places
  pub order_by : (A → A → Bool) → List A → List A
  order_by before [] = []
  order_by before (a ∷ rows) = place before a (order_by before rows)

  -- `LIMIT …`
  pub limit_rows : ℕ → List A → List A
  limit_rows zero rows = []
  limit_rows (suc n) [] = []
  limit_rows (suc n) (a ∷ rows) = a ∷ limit_rows n rows
