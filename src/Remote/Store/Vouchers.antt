-- ===== src/Remote/Store/Vouchers.antt =====
-- A table of secrets, read as what each secret is good for.
use oaslananka_lab_mcp_ssh_t.Remote.Store.Redeem.{
  find_hash, assign, unspent, UniqueHash, absent, ledger, spent, voucher_of, update_unused,
  Redeemable,
}
use oaslananka_lab_mcp_ssh_t.Prelude.{
  is_some, false, if◌then◌else◌, not, ◌&&◌, ◌++◌, some, none, arith, eq_iff, ℕ, String, ◌≡◌, refl,
  inl, inr, List, [], ◌∷◌, ◌==◌, Bool-cases, Option-cases,
}

module _ {ℓ} {A : Type ℓ} (table : Redeemable A) where
  voucher-use_at : (now : ℕ) (a : A) → voucher_of (table.used (table.use_at now a)) ≡ spent
  voucher-use_at now a = rw (table.used-use_at now a) refl

  pub update_unused-none :
      (h : String) (now : ℕ) (rows : List A)
      → ledger table rows h ≡ absent
      → update_unused table h now rows ≡ (rows, 0)
  unfolding update_unused
  update_unused-none h now [] e = refl
  update_unused-none h now (a ∷ rows) e = elim (Bool-cases (table.hash a == h)) [
    | inl same ↦ elim (Option-cases (table.used a)) [ inl u ↦ absurd (cc) | inr (t, u) ↦ cc ]
    | inr other ↦ let rest = update_unused-none h now rows (rw other at e) in rw (other, rest) refl
  ]

  pub update_unused-spent :
      (h : String) (now : ℕ) (rows : List A)
      → UniqueHash table rows
      → ledger table rows h ≡ spent
      → update_unused table h now rows ≡ (rows, 0)
  unfolding update_unused
  update_unused-spent h now [] u e = refl
  update_unused-spent h now (a ∷ rows) u e = elim (Bool-cases (table.hash a == h)) [
    | inl same ↦ elim (Option-cases (table.used a)) [
      | inl n ↦ absurd (cc)
      | inr (t, n) ↦
          let key : table.hash a ≡ h = (eq_iff (table.hash a) h).0 same in
          let gone : ledger table rows h ≡ absent = rw key at u.0 in
          rw (same, n, update_unused-none h now rows gone) refl
    ]
    | inr other ↦
        let rest = update_unused-spent h now rows u.1 (rw other at e) in rw (other, rest) refl
  ]

  pub update_unused-unspent :
      (h : String) (now : ℕ) (rows : List A)
      → UniqueHash table rows
      → ledger table rows h ≡ unspent
      → (rest : List A) × (update_unused table h now rows ≡ (rest, 1))
        × ((k : String) → ledger table rest k ≡ assign h spent (ledger table rows) k)
  unfolding update_unused
  update_unused-unspent h now [] u e = absurd (cc)
  update_unused-unspent h now (a ∷ rows) u e = elim (Bool-cases (table.hash a == h)) [
    | inl same ↦ elim (Option-cases (table.used a)) [
      | inl n ↦
          let key : table.hash a ≡ h = (eq_iff (table.hash a) h).0 same in
          let gone : ledger table rows h ≡ absent = rw key at u.0 in
          (
            table.use_at now a ∷ rows,
            rw (same, n, update_unused-none h now rows gone) refl,
            λ k. rw (table.hash-use_at now a, voucher-use_at now a, key) (ground (arith)),
          )
      | inr (t, n) ↦ absurd (cc)
    ]
    | inr other ↦
        let (rest, f, l) = update_unused-unspent h now rows u.1 (rw other at e) in
        (
          a ∷ rest,
          rw (other, f) refl,
          λ k.
              rw (l k)
                (ground (arith, eq_iff (table.hash a) h, eq_iff (table.hash a) k, eq_iff h k)),
        )
  ]

  update_unused-absent :
      (h k : String) (now : ℕ) (rows : List A)
      → ledger table rows k ≡ absent
      → ledger table (update_unused table h now rows).0 k ≡ absent
  unfolding update_unused
  update_unused-absent h k now [] e = refl
  update_unused-absent h k now (a ∷ rows) e = elim (Bool-cases (table.hash a == k)) [
    | inl same ↦ elim (Option-cases (table.used a)) [
      | inl n ↦ absurd (cc)
      | inr (t, n) ↦ absurd (cc)
    ]
    | inr other ↦
        let rest = update_unused-absent h k now rows (rw other at e) in
        elim (Bool-cases (table.hash a == h && not (is_some (table.used a)))) [
          | inl now_used ↦ rw (now_used, table.hash-use_at now a, other) rest
          | inr kept ↦ rw (kept, other) rest
        ]
  ]

  pub update_unused-UniqueHash :
      (h : String) (now : ℕ) (rows : List A)
      → UniqueHash table rows
      → UniqueHash table (update_unused table h now rows).0
  unfolding update_unused
  update_unused-UniqueHash h now [] u = tt
  update_unused-UniqueHash h now (a ∷ rows) u =
      let rest = update_unused-UniqueHash h now rows u.1 in
      let gone = update_unused-absent h (table.hash a) now rows u.0 in
      elim (Bool-cases (table.hash a == h && not (is_some (table.used a)))) [
        | inl now_used ↦ rw (now_used, table.hash-use_at now a) (gone, rest)
        | inr kept ↦ rw kept (gone, rest)
      ]

  pub find_hash-ledger :
      (h : String) (rows : List A) (a : A)
      → find_hash table h rows ≡ some a
      → ledger table rows h ≡ voucher_of (table.used a)
  unfolding find_hash
  find_hash-ledger h [] a e = absurd (cc)
  find_hash-ledger h (b ∷ rows) a e = elim (Bool-cases (table.hash b == h)) [
    | inl same ↦ let found : some b ≡ some a = rw same at e in rw same (ground (arith, found))
    | inr other ↦ rw other (find_hash-ledger h rows a (rw other at e))
  ]

  pub find_hash-none :
      (h : String) (rows : List A) → find_hash table h rows ≡ none → ledger table rows h ≡ absent
  unfolding find_hash
  find_hash-none h [] e = refl
  find_hash-none h (b ∷ rows) e = elim (Bool-cases (table.hash b == h)) [
    | inl same ↦ absurd (cc)
    | inr other ↦ rw other (find_hash-none h rows (rw other at e))
  ]

  -- A row that is found has the hash.
  pub find_hash-hash :
      (h : String) (rows : List A) (a : A) → find_hash table h rows ≡ some a → table.hash a ≡ h
  unfolding find_hash
  find_hash-hash h [] a e = absurd (cc)
  find_hash-hash h (b ∷ rows) a e = elim (Bool-cases (table.hash b == h)) [
    | inl same ↦
        let found : some b ≡ some a = rw same at e in ground (arith, found, eq_iff (table.hash b) h)
    | inr other ↦ find_hash-hash h rows a (rw other at e)
  ]

  pub ledger-append :
      (rows : List A) (a : A) (k : String)
      → ledger table (rows ++ (a ∷ [])) k ≡ elim (ledger table rows k) [
        | absent ↦ if table.hash a == k then voucher_of (table.used a) else absent
        | unspent ↦ unspent
        | spent ↦ spent
      ]
  ledger-append [] a k = refl
  ledger-append (b ∷ rows) a k = elim (Bool-cases (table.hash b == k)) [
    | inl same ↦ elim (Option-cases (table.used b)) [
      | inl n ↦ rw (same, n) refl
      | inr (t, n) ↦ rw (same, n) refl
    ]
    | inr other ↦ rw (other, ledger-append rows a k) refl
  ]

  pub append-UniqueHash :
      (rows : List A) (a : A)
      → UniqueHash table rows
      → ledger table rows (table.hash a) ≡ absent
      → UniqueHash table (rows ++ (a ∷ []))
  append-UniqueHash [] a u e = (refl, tt)
  append-UniqueHash (b ∷ rows) a u e = elim (Bool-cases (table.hash b == table.hash a)) [
    | inl same ↦ elim (Option-cases (table.used b)) [
      | inl n ↦ absurd (cc)
      | inr (t, n) ↦ absurd (cc)
    ]
    | inr other ↦
        let later : ledger table rows (table.hash a) ≡ absent = rw other at e in
        let apart : (table.hash a == table.hash b) ≡ false =
          ground
            (arith, eq_iff (table.hash a) (table.hash b), eq_iff (table.hash b) (table.hash a)) in
        (
          rw (ledger-append rows a (table.hash b), u.0, apart) refl,
          append-UniqueHash rows a u.1 later,
        )
  ]
