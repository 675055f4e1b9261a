-- ===== src/Remote/Store/Spent.antt =====
-- A secret that has been redeemed stays so, whatever is done with its table.
use oaslananka_lab_mcp_ssh_t.Remote.Store.Redeem.{
  has_row_id, find_hash, insert_row, spec_redeem, Voucher-cases, assign, unspent, spent, mark_used,
  ledger, UniqueHash, Redeemable,
}
use oaslananka_lab_mcp_ssh_t.Remote.Store.Redeemed.{
  redeem-credit, issue-credit, insert_row-some, issue, redeem, Agrees, mark_used-Agrees, exec,
  TableCall,
}
use oaslananka_lab_mcp_ssh_t.Remote.Store.Vouchers.{
  update_unused-unspent, find_hash-ledger, ledger-append, append-UniqueHash,
}
use oaslananka_lab_mcp_ssh_t.Prelude.{
  ◌==◌, ◌∙◌, eq_refl, ◌++◌, Bool-cases, ℕ, String, ◌≡◌, refl, inl, inr, none, some, List, [], ◌∷◌,
  arith, Option-cases,
}

module _ {ℓ} {A : Type ℓ} (table : Redeemable A) where
  pub mark_used-some :
      (h : String) (now : ℕ) (rows rest : List A)
      → UniqueHash table rows
      → mark_used table h now rows ≡ some rest
      → (ledger table rows h ≡ unspent)
        × UniqueHash table rest
        × ((k : String) → ledger table rest k ≡ assign h spent (ledger table rows) k)
  mark_used-some h now rows rest u e =
      let agreed = mark_used-Agrees table h now rows u in
      elim (Voucher-cases (ledger table rows h)) [
        | inl v ↦ absurd (rw (e, spec_redeem, v) at agreed)
        | inr (inl v) ↦
            let now_spent : Agrees table (some rest) (some (assign h spent (ledger table rows))) =
              rw (e, spec_redeem, v) at agreed in
            (v, now_spent.0, now_spent.1)
        | inr (inr v) ↦ absurd (rw (e, spec_redeem, v) at agreed)
      ]

  mark_used-spent :
      (h : String) (now : ℕ) (rows : List A)
      → UniqueHash table rows
      → ledger table rows h ≡ spent
      → mark_used table h now rows ≡ none
  mark_used-spent h now rows u v = elim (Option-cases (mark_used table h now rows)) [
    | inl e ↦ e
    | inr (rest, e) ↦ absurd (let w = (mark_used-some h now rows rest u e).0 in cc)
  ]

  call-spent :
      (call : TableCall table) (h : String) (rows : List A)
      → UniqueHash table rows
      → ledger table rows h ≡ spent
      → UniqueHash table (exec table call rows) × (ledger table (exec table call rows) h ≡ spent)
  unfolding exec
  call-spent (issue a) h rows u v = elim (Option-cases (insert_row table a rows)) [
    | inl e ↦ rw e (u, v)
    | inr (rest, e) ↦
        let (shape, gone) = insert_row-some table a rows rest e in
        rw (e, shape)
          (append-UniqueHash table rows a u gone, rw (ledger-append table rows a h, v) refl)
  ]
  call-spent (redeem k now) h rows u v = elim (Option-cases (mark_used table k now rows)) [
    | inl e ↦ rw e (u, v)
    | inr (rest, e) ↦
        let (w, unique, l) = mark_used-some k now rows rest u e in
        rw (e, l h) (unique, ground (arith, v))
  ]

  unfoldable pub exec_all : List (TableCall table) → List A → List A
  exec_all [] rows = rows
  exec_all (call ∷ calls) rows = exec_all calls (exec table call rows)

  pub exec_all-UniqueHash :
      (calls : List (TableCall table)) (rows : List A)
      → UniqueHash table rows
      → UniqueHash table (exec_all calls rows)
  unfolding exec_all
  exec_all-UniqueHash [] rows u = u
  exec_all-UniqueHash (issue a ∷ calls) rows u =
      exec_all-UniqueHash calls _ (issue-credit table "" a rows u).0
  exec_all-UniqueHash (redeem k now ∷ calls) rows u =
      exec_all-UniqueHash calls _ (redeem-credit table "" k now rows u).0

  pub exec_all-spent :
      (calls : List (TableCall table)) (h : String) (rows : List A)
      → UniqueHash table rows
      → ledger table rows h ≡ spent
      → UniqueHash table (exec_all calls rows) × (ledger table (exec_all calls rows) h ≡ spent)
  unfolding exec_all
  exec_all-spent [] h rows u v = (u, v)
  exec_all-spent (call ∷ calls) h rows u v =
      let (unique, still) = call-spent call h rows u v in
      exec_all-spent calls h (exec table call rows) unique still

  find_hash-append :
      (rows : List A) (a : A)
      → find_hash table (table.hash a) rows ≡ none
      → find_hash table (table.hash a) (rows ++ (a ∷ [])) ≡ some a
  unfolding find_hash
  find_hash-append [] a e = rw (eq_refl (table.hash a)) refl
  find_hash-append (b ∷ rows) a e = elim (Bool-cases (table.hash b == table.hash a)) [
    | inl same ↦ absurd (cc)
    | inr other ↦ rw other (find_hash-append rows a (rw other at e))
  ]

  -- A row that is inserted is found by its hash.
  pub insert_row-found :
      (a : A) (rows rest : List A)
      → insert_row table a rows ≡ some rest
      → find_hash table (table.hash a) rest ≡ some a
  unfolding insert_row
  insert_row-found a rows rest e =
      let (shape, gone) = insert_row-some table a rows rest e in
      elim (Option-cases (find_hash table (table.hash a) rows)) [
        | inl n ↦ rw shape (find_hash-append rows a n)
        | inr (b, n) ↦ absurd (elim (Bool-cases (has_row_id table (table.row_id a) rows)) [
          | inl i ↦ let g : none ≡ some rest = rw i at e in cc
          | inr i ↦ let g : none ≡ some rest = rw (i, n) at e in cc
        ])
      ]

  pub insert_row-UniqueHash :
      (a : A) (rows rest : List A)
      → UniqueHash table rows
      → insert_row table a rows ≡ some rest
      → UniqueHash table rest
  insert_row-UniqueHash a rows rest u e =
      let (shape, gone) = insert_row-some table a rows rest e in
      rw shape (append-UniqueHash table rows a u gone)

  -- An unused row that is found by a hash is redeemed by it.
  pub mark_used-found :
      (h : String) (now : ℕ) (rows : List A) (a : A)
      → UniqueHash table rows
      → find_hash table h rows ≡ some a
      → table.used a ≡ none
      → (rest : List A) × (mark_used table h now rows ≡ some rest)
  unfolding mark_used
  mark_used-found h now rows a u e n =
      let v : ledger table rows h ≡ unspent = find_hash-ledger table h rows a e ∙ rw n refl in
      let (rest, f, l) = update_unused-unspent table h now rows u v in (rest, rw f refl)
