-- ===== src/Remote/Store/Redeemed.antt =====
-- The tables of one-use secrets refine the abstract table of vouchers, and no secret is redeemed
-- twice.
use oaslananka_lab_mcp_ssh_t.Remote.Store.Redeem.{
  absent, unspent, spent, absent, assign, Voucher, find_hash, voucher_of, spec_issue, Voucher-cases,
  ledger, spec_redeem, has_row_id, UniqueHash, mark_used, Ledger, insert_row, Redeemable,
}
use oaslananka_lab_mcp_ssh_t.Remote.Store.Vouchers.{
  find_hash-ledger, ledger-append, update_unused-spent, append-UniqueHash, update_unused-UniqueHash,
  find_hash-none, update_unused-unspent, update_unused-none,
}
use oaslananka_lab_mcp_ssh_t.Prelude.{
  ℕ, suc, ◌+◌, ◌≤◌, String, ◌≡◌, refl, inl, inr, false, ◌&&◌, Option, none, some, List, [], ◌∷◌,
  ◌++◌, arith, ◌==◌, eq_iff, if◌then◌else◌, Bool-cases, Option-cases, get_or, is_some,
}

module _ {ℓ} {A : Type ℓ} (table : Redeemable A) where
  -- The result of a call, beside what the abstract table does: both fail, or the new rows read as
  -- the new abstract table and still have a unique hash.
  abbrev pub Agrees : Option (List A) → Option Ledger → Type 0
  Agrees none none = Unit
  Agrees (some rows) (some l) = UniqueHash table rows × ((k : String) → ledger table rows k ≡ l k)
  Agrees none (some l) = ⊥
  Agrees (some rows) none = ⊥

  -- For rows with unique hashes, marking a hash as used does what redeeming it in the abstract
  -- table does, which maps a hash to an unspent or a spent voucher: it fails exactly when the
  -- table holds no unspent voucher for the hash, and otherwise the new rows have unique hashes
  -- again and read, under every hash, as the new abstract table.
  pub mark_used-Agrees :
      (h : String) (now : ℕ) (rows : List A)
      → UniqueHash table rows
      → Agrees (mark_used table h now rows) (spec_redeem h (ledger table rows))
  unfolding mark_used
  mark_used-Agrees h now rows u = elim (Voucher-cases (ledger table rows h)) [
    | inl e ↦ rw (e, spec_redeem, update_unused-none table h now rows e) tt
    | inr (inl e) ↦
        let (rest, f, l) = update_unused-unspent table h now rows u e in
        let kept : UniqueHash table rest = rw f at (update_unused-UniqueHash table h now rows u) in
        rw (e, spec_redeem, f) (kept, l)
    | inr (inr e) ↦ rw (e, spec_redeem, update_unused-spent table h now rows u e) tt
  ]

  insert_row-Agrees :
      (a : A) (rows : List A)
      → UniqueHash table rows
      → has_row_id table (table.row_id a) rows ≡ false
      → Agrees
          (insert_row table a rows)
          (spec_issue (table.hash a) (voucher_of (table.used a)) (ledger table rows))
  unfolding insert_row
  insert_row-Agrees a rows u i = elim (Option-cases (find_hash table (table.hash a) rows)) [
    | inl e ↦
        let gone = find_hash-none table (table.hash a) rows e in
        rw (i, e, gone, spec_issue)
          (
            append-UniqueHash table rows a u gone,
            λ k. elim (Bool-cases (table.hash a == k)) [
              | inl same ↦
                  let key : table.hash a ≡ k = (eq_iff (table.hash a) k).0 same in
                  rw (ledger-append table rows a k, rw key at gone) (rw same refl)
              | inr other ↦
                  rw (ledger-append table rows a k) (elim (Voucher-cases (ledger table rows k)) [
                    | inl v ↦ rw v (rw other refl)
                    | inr (inl v) ↦ rw v (rw other refl)
                    | inr (inr v) ↦ rw v (rw other refl)
                  ])
            ],
          )
    | inr (b, e) ↦ elim (Option-cases (table.used b)) [
      | inl n ↦ rw (i, e, find_hash-ledger table (table.hash a) rows b e, spec_issue, n) tt
      | inr (t, n) ↦ rw (i, e, find_hash-ledger table (table.hash a) rows b e, spec_issue, n) tt
    ]
  ]

  -- What a program does with the table; a call that fails leaves it.
  pub data TableCall : Type ℓ where
    issue : A → TableCall
    redeem : String → ℕ → TableCall

  unfoldable pub exec : TableCall → List A → List A
  exec (issue a) rows = get_or (insert_row table a rows) rows
  exec (redeem h now) rows = get_or (mark_used table h now rows) rows

  -- How often the calls redeem the hash.
  pub redemptions : String → List TableCall → List A → ℕ
  redemptions h [] rows = 0
  redemptions h (issue a ∷ calls) rows = redemptions h calls (exec (issue a) rows)
  redemptions h (redeem k now ∷ calls) rows =
      let rest = redemptions h calls (exec (redeem k now) rows) in
      if k == h && is_some (mark_used table k now rows) then suc rest else rest

  -- What a voucher still allows.
  pub credit : Voucher → ℕ
  credit absent = 1
  credit unspent = 1
  credit spent = 0

  credit-le : (v : Voucher) → credit v ≤ 1
  unfolding credit
  credit-le absent = omega arith
  credit-le unspent = omega arith
  credit-le spent = omega arith

  -- What a call takes of a voucher.
  pub taken : String → TableCall → List A → ℕ
  taken h (issue a) rows = 0
  taken h (redeem k now) rows = if k == h && is_some (mark_used table k now rows) then 1 else 0

  -- A row that is inserted stands at the end, and its hash was not there.
  pub insert_row-some :
      (a : A) (rows rest : List A)
      → insert_row table a rows ≡ some rest
      → (rest ≡ rows ++ (a ∷ [])) × (ledger table rows (table.hash a) ≡ absent)
  unfolding insert_row
  insert_row-some a rows rest e = elim (Bool-cases (has_row_id table (table.row_id a) rows)) [
    | inl i ↦ absurd (cc)
    | inr i ↦ elim (Option-cases (find_hash table (table.hash a) rows)) [
      | inl n ↦
          let made : some (rows ++ (a ∷ [])) ≡ some rest = rw (i, n) at e in
          (ground (arith, made), find_hash-none table (table.hash a) rows n)
      | inr (b, n) ↦ absurd (let made : none ≡ some rest = rw (i, n) at e in cc)
    ]
  ]

  credit-append :
      (h : String) (a : A) (rows : List A)
      → credit (ledger table (rows ++ (a ∷ [])) h) ≤ credit (ledger table rows h)
  unfolding credit
  credit-append h a rows =
      rw (ledger-append table rows a h) (elim (Voucher-cases (ledger table rows h)) [
        | inl v ↦ rw v (credit-le (if table.hash a == h then voucher_of (table.used a) else absent))
        | inr (inl v) ↦ rw v (omega arith)
        | inr (inr v) ↦ rw v (omega arith)
      ])

  pub issue-credit :
      (h : String) (a : A) (rows : List A)
      → UniqueHash table rows
      → UniqueHash table (exec (issue a) rows)
        × (credit (ledger table (exec (issue a) rows) h) ≤ credit (ledger table rows h))
  unfolding exec
  issue-credit h a rows u = elim (Option-cases (insert_row table a rows)) [
    | inl e ↦ rw e (u, omega arith)
    | inr (rest, e) ↦
        let (shape, gone) = insert_row-some a rows rest e in
        rw (e, shape) (append-UniqueHash table rows a u gone, credit-append h a rows)
  ]

  pub redeem-credit :
      (h k : String) (now : ℕ) (rows : List A)
      → UniqueHash table rows
      → UniqueHash table (exec (redeem k now) rows)
        × (credit (ledger table (exec (redeem k now) rows) h) + taken h (redeem k now) rows
            ≤ credit (ledger table rows h))
  unfolding exec taken credit
  redeem-credit h k now rows u =
      let agreed = mark_used-Agrees k now rows u in
      elim (Option-cases (mark_used table k now rows)) [
        | inl e ↦ rw e (u, ground arith)
        | inr (rest, e) ↦ elim (Voucher-cases (ledger table rows k)) [
          | inl v ↦ absurd (rw (e, spec_redeem, v) at agreed)
          | inr (inl v) ↦
              let (unique, l) : UniqueHash table rest
                  × ((j : String) → ledger table rest j ≡ assign k spent (ledger table rows) j) =
                rw (e, spec_redeem, v) at agreed in
              rw (e, l h)
                (
                  unique,
                  elim (Bool-cases (k == h)) [
                    | inl same ↦
                        let key : k ≡ h = (eq_iff k h).0 same in
                        rw (same, rw key at v) (omega arith)
                    | inr other ↦ rw other (omega arith)
                  ],
                )
          | inr (inr v) ↦ absurd (rw (e, spec_redeem, v) at agreed)
        ]
      ]

  redemptions-credit :
      (h : String) (calls : List TableCall) (rows : List A)
      → UniqueHash table rows
      → redemptions h calls rows ≤ credit (ledger table rows h)
  unfolding redemptions taken
  redemptions-credit h [] rows u = omega arith
  redemptions-credit h (issue a ∷ calls) rows u =
      let (unique, less) = issue-credit h a rows u in
      omega (arith, redemptions-credit h calls (exec (issue a) rows) unique, less)
  redemptions-credit h (redeem k now ∷ calls) rows u =
      let (unique, less) = redeem-credit h k now rows u in
      let later = redemptions-credit h calls (exec (redeem k now) rows) unique in
      elim (Bool-cases (k == h && is_some (mark_used table k now rows))) [
        | inl t ↦ rw t (omega (arith, later, rw t at less))
        | inr t ↦ rw t (omega (arith, later, rw t at less))
      ]

  redemptions-le :
      (h : String) (calls : List TableCall) (rows : List A)
      → UniqueHash table rows
      → redemptions h calls rows ≤ 1
  redemptions-le h calls rows u =
      omega (arith, redemptions-credit h calls rows u, credit-le (ledger table rows h))
