-- ===== src/Remote/ControlPlane/Secrets.antt =====
-- What each step of src/remote/control-plane.ts does to the tables of one-use secrets: it issues and
-- redeems, and never takes a row away.
use oaslananka_lab_mcp_ssh_t.Remote.Store.Redeem.{Redeemable}
use oaslananka_lab_mcp_ssh_t.Remote.Store.Spent.{exec_all}
use oaslananka_lab_mcp_ssh_t.Remote.ControlPlane.Token.{TokenForm, handle_token, redeem_code}
use oaslananka_lab_mcp_ssh_t.Remote.ControlPlane.Quiet.{secrets, Secrets}
use oaslananka_lab_mcp_ssh_t.Remote.Store.Redeemed.{issue, redeem, TableCall, exec}
use oaslananka_lab_mcp_ssh_t.Remote.Store.Tables.{
  get_enrollment_token_by_hash, mark_enrollment_token_used, get_authorization_code_by_hash,
  get_client, upsert_user, insert_authorization_code, token_table, code_table,
  mark_authorization_code_used,
}
use oaslananka_lab_mcp_ssh_t.Remote.ControlPlane.State.{
  hash_secret, PendingAuthorize, audit, ControlPlane, RemoteConfig, External,
}
use oaslananka_lab_mcp_ssh_t.Remote.Store.Types.{
  returned, thrown, Reply, Reply-cases, AgentHostMetadata, AgentEnrollmentTokenRecord, GitHubUser,
  OAuthAuthorizationCode,
}
use oaslananka_lab_mcp_ssh_t.Remote.ControlPlane.OAuth.{
  callback_finish, begin_login, wanted_of, AuthorizeQuery, handle_authorize, finish_login,
  issue_authorization_code, upsert_github_user,
}
use oaslananka_lab_mcp_ssh_t.Remote.Store.Records.{update_agent, insert_audit}
use oaslananka_lab_mcp_ssh_t.Remote.ControlPlane.Enroll.{
  parse_agent_host_metadata, handle_agent_enroll, enroll_agent,
}
use oaslananka_lab_mcp_ssh_t.Remote.ControlPlane.Token.Exchange.{new_row}
use oaslananka_lab_mcp_ssh_t.Remote.ControlPlane.Install.{is_given}
use oaslananka_lab_mcp_ssh_t.Prelude.{
  ℕ, String, ◌≡◌, refl, sym, ap, subst, ◌∙◌, ◌⊎◌, inl, inr, not, ◌||◌, Option, none, some, List, [],
  ◌∷◌, arith, ◌==◌, ltb, Bool-cases, Option-cases, get_or, is_some, all,
}

-- The second table comes from the first by calls of the two kinds.
abbrev pub Follows : {A : Type 0} → Redeemable A → List A → List A → Type 0
Follows table rows later = (called : List (TableCall table)) × (later ≡ exec_all table called rows)

abbrev pub Evolves : Secrets → Secrets → Type 0
Evolves a b = Follows code_table a.0 b.0 × Follows token_table a.1 b.1

pub Follows-same : {A : Type 0} (table : Redeemable A) (rows : List A) → Follows table rows rows
unfolding exec_all
Follows-same table rows = ([], refl)

pub Follows-one :
    {A : Type 0} (table : Redeemable A) (call : TableCall table) (rows : List A)
    → Follows table rows (exec table call rows)
unfolding exec_all
Follows-one table call rows = (call ∷ [], refl)

Follows-trans :
    {A : Type 0} (table : Redeemable A) (a b c : List A)
    → Follows table a b
    → Follows table b c
    → Follows table a c
unfolding exec_all
Follows-trans table a b c ([], e) (more, f) = (more, f ∙ ap (exec_all table more) e)
Follows-trans table a b c (call ∷ called, e) f =
    let (all, g) = Follows-trans table (exec table call a) b c (called, e) f in (call ∷ all, g)

pub Evolves-same : (a b : Secrets) → b ≡ a → Evolves a b
Evolves-same a b e =
    subst (Evolves a) (sym e) (Follows-same code_table a.0, Follows-same token_table a.1)

pub Evolves-trans : (a b c : Secrets) → Evolves a b → Evolves b c → Evolves a c
Evolves-trans a b c f g =
    (Follows-trans code_table a.0 b.0 c.0 f.0 g.0, Follows-trans token_table a.1 b.1 c.1 f.1 g.1)

redeem_code-secrets :
    (ext : External) (config : RemoteConfig) (row : OAuthAuthorizationCode) (verifier : String)
    (now : ℕ) (s : ControlPlane)
    → let t = (redeem_code ext config row verifier now s).1 in
      (secrets t ≡ secrets s)
      ⊎ (secrets t ≡ (
        exec code_table (redeem row.code_hash now) s.store.oauth_authorization_codes,
        s.store.agent_enrollment_tokens,
      ))
unfolding redeem_code mark_authorization_code_used exec
redeem_code-secrets ext config row verifier now s = ground arith

redeem_code-Evolves :
    (ext : External) (config : RemoteConfig) (row : OAuthAuthorizationCode) (verifier : String)
    (now : ℕ) (s : ControlPlane)
    → Evolves (secrets s) (secrets (redeem_code ext config row verifier now s).1)
redeem_code-Evolves ext config row verifier now s =
    elim (redeem_code-secrets ext config row verifier now s) [
      | inl same ↦ Evolves-same _ _ same
      | inr one ↦
          subst (Evolves (secrets s)) (sym one)
            (Follows-one code_table (redeem row.code_hash now) _, Follows-same token_table _)
    ]

pub handle_token-Evolves :
    (ext : External) (config : RemoteConfig) (form : TokenForm) (now : ℕ) (s : ControlPlane)
    → Evolves (secrets s) (secrets (handle_token ext config form now s).1)
unfolding handle_token
handle_token-Evolves ext config form now s =
    elim (Bool-cases (get_or form.grant_type "" == "authorization_code")) [
      | inr bad ↦ rw (bad, handle_token) (Evolves-same _ _ refl)
      | inl kind ↦ elim (Option-cases (get_client (get_or form.client_id "") s.store)) [
        | inl bad ↦ rw (kind, bad, handle_token) (Evolves-same _ _ refl)
        | inr (client, known) ↦
            elim (Option-cases
              (get_authorization_code_by_hash (hash_secret ext (get_or form.code "")) s.store)) [
                | inl bad ↦ rw (kind, known, bad, handle_token) (Evolves-same _ _ refl)
                | inr (row, found) ↦
                    elim (Bool-cases (
                      not (row.client_id == get_or form.client_id "")
                      || not (row.redirect_uri == get_or form.redirect_uri ""))) [
                        | inl bad ↦
                            rw (kind, known, found, bad, handle_token) (Evolves-same _ _ refl)
                        | inr own ↦
                            rw (kind, known, found, own, handle_token)
                              (redeem_code-Evolves ext config row (get_or form.code_verifier "") now
                                s)
                      ]
              ]
      ]
    ]

issue_authorization_code-Evolves :
    (ext : External) (config : RemoteConfig) (wanted : PendingAuthorize)
    (user_id code row_id : String) (now : ℕ) (s : ControlPlane)
    → Evolves
        (secrets s)
        (secrets (issue_authorization_code ext config wanted user_id code row_id now s).1)
unfolding issue_authorization_code insert_authorization_code exec hash_secret
issue_authorization_code-Evolves ext config wanted user_id code row_id now s =
    let row = new_row ext config wanted user_id code row_id now in
    let one : secrets (issue_authorization_code ext config wanted user_id code row_id now s).1 ≡ (
      exec code_table (issue row) s.store.oauth_authorization_codes,
      s.store.agent_enrollment_tokens,
    ) =
      ground arith in
    subst (Evolves (secrets s)) (sym one)
      (Follows-one code_table (issue row) _, Follows-same token_table _)

upsert_github_user-secrets :
    (config : RemoteConfig) (user : GitHubUser) (now : ℕ) (s : ControlPlane)
    → secrets (upsert_github_user config user now s).1 ≡ secrets s
unfolding upsert_github_user upsert_user audit insert_audit
upsert_github_user-secrets config user now s = ground arith

finish_login-Evolves :
    (ext : External) (config : RemoteConfig) (wanted : PendingAuthorize) (user : GitHubUser)
    (code row_id : String) (now : ℕ) (s : ControlPlane)
    → Evolves (secrets s) (secrets (finish_login ext config wanted user code row_id now s).1)
unfolding finish_login
finish_login-Evolves ext config wanted user code row_id now s =
    let same = upsert_github_user-secrets config user now s in
    elim (Reply-cases (upsert_github_user config user now s).0) [
      | inl (failure, e) ↦ rw (e, finish_login) (Evolves-same _ _ same)
      | inr (user_id, e) ↦
          let t = (upsert_github_user config user now s).1 in
          let issued =
            issue_authorization_code-Evolves ext config wanted user_id code row_id now t in
          let whole = Evolves-trans _ _ _ (Evolves-same _ _ same) issued in
          elim (Reply-cases
            (issue_authorization_code ext config wanted user_id code row_id now t).0) [
              | inl (failure, f) ↦ rw (e, f, finish_login) whole
              | inr (fresh, f) ↦ rw (e, f, finish_login) whole
            ]
    ]

begin_login-Evolves :
    (ext : External) (config : RemoteConfig) (user : Option GitHubUser) (wanted : PendingAuthorize)
    (transaction_id code row_id : String) (now : ℕ) (s : ControlPlane)
    → Evolves
        (secrets s)
        (secrets (begin_login ext config user wanted transaction_id code row_id now s).1)
unfolding begin_login
begin_login-Evolves ext config none wanted transaction_id code row_id now s =
    Evolves-same _ _ (ground arith)
begin_login-Evolves ext config (some user) wanted transaction_id code row_id now s =
    finish_login-Evolves ext config wanted user code row_id now s

handle_authorize-state :
    (ext : External) (config : RemoteConfig) (user : Option GitHubUser) (query : AuthorizeQuery)
    (transaction_id code row_id : String) (now : ℕ) (s : ControlPlane)
    → let t = (handle_authorize ext config user query transaction_id code row_id now s).1 in
      (t ≡ s)
      ⊎ (t
          ≡ (begin_login ext config user
              (wanted_of config query now)
              transaction_id
              code
              row_id
              now
              s).1)
unfolding handle_authorize
handle_authorize-state ext config user query transaction_id code row_id now s = ground arith

pub handle_authorize-Evolves :
    (ext : External) (config : RemoteConfig) (user : Option GitHubUser) (query : AuthorizeQuery)
    (transaction_id code row_id : String) (now : ℕ) (s : ControlPlane)
    → Evolves
        (secrets s)
        (secrets (handle_authorize ext config user query transaction_id code row_id now s).1)
handle_authorize-Evolves ext config user query transaction_id code row_id now s =
    elim (handle_authorize-state ext config user query transaction_id code row_id now s) [
      | inl same ↦ Evolves-same _ _ (ap secrets same)
      | inr valid ↦
          subst (λ t. Evolves (secrets s) (secrets t)) (sym valid)
            (begin_login-Evolves ext config user (wanted_of config query now) transaction_id code
              row_id now s)
    ]

pub callback_finish-Evolves :
    (ext : External) (config : RemoteConfig) (wanted : PendingAuthorize) (user : Reply GitHubUser)
    (code row_id : String) (now : ℕ) (s : ControlPlane)
    → Evolves (secrets s) (secrets (callback_finish ext config wanted user code row_id now s).1)
unfolding callback_finish
callback_finish-Evolves ext config wanted (thrown failure) code row_id now s = Evolves-same _ _ refl
callback_finish-Evolves ext config wanted (returned user) code row_id now s =
    finish_login-Evolves ext config wanted user code row_id now s

enroll_agent-secrets :
    (row : AgentEnrollmentTokenRecord) (public_key : String) (host : AgentHostMetadata) (now : ℕ)
    (s : ControlPlane)
    → let t = (enroll_agent row public_key host now s).1 in
      (secrets t ≡ secrets s)
      ⊎ (secrets t ≡ (
        s.store.oauth_authorization_codes,
        exec token_table (redeem row.token_hash now) s.store.agent_enrollment_tokens,
      ))
unfolding enroll_agent mark_enrollment_token_used update_agent audit insert_audit exec
enroll_agent-secrets row public_key host now s = ground arith

enroll_agent-Evolves :
    (row : AgentEnrollmentTokenRecord) (public_key : String) (host : AgentHostMetadata) (now : ℕ)
    (s : ControlPlane)
    → Evolves (secrets s) (secrets (enroll_agent row public_key host now s).1)
enroll_agent-Evolves row public_key host now s =
    elim (enroll_agent-secrets row public_key host now s) [
      | inl same ↦ Evolves-same _ _ same
      | inr one ↦
          subst (Evolves (secrets s)) (sym one)
            (Follows-same code_table _, Follows-one token_table (redeem row.token_hash now) _)
    ]

handle_agent_enroll-state :
    (ext : External) (token public_key : Option String) (host : Option AgentHostMetadata) (now : ℕ)
    (s : ControlPlane)
    → let t = (handle_agent_enroll ext token public_key host now s).1 in
      (t ≡ s)
      ⊎ ((row : AgentEnrollmentTokenRecord) × (found : AgentHostMetadata) × (t
            ≡ (enroll_agent row (get_or public_key "") found now s).1))
unfolding handle_agent_enroll
handle_agent_enroll-state ext token public_key none now s = inl refl
handle_agent_enroll-state ext token public_key (some body_host) now s =
    elim (Reply-cases (parse_agent_host_metadata body_host)) [
      | inl (failure, e) ↦ rw (e, handle_agent_enroll) (inl refl)
      | inr (host, e) ↦ elim (Bool-cases (not (is_given token) || not (is_given public_key))) [
        | inl bad ↦ rw (e, bad, handle_agent_enroll) (inl refl)
        | inr given ↦ elim (Bool-cases (ext.is_ed25519_public_key (get_or public_key ""))) [
          | inr bad ↦ rw (e, given, bad, handle_agent_enroll) (inl refl)
          | inl key ↦
              elim (Option-cases
                (get_enrollment_token_by_hash (hash_secret ext (get_or token "")) s.store)) [
                  | inl bad ↦ rw (e, given, key, bad, handle_agent_enroll) (inl refl)
                  | inr (row, found) ↦
                      elim (Bool-cases (is_some row.used_at || ltb row.expires_at now)) [
                        | inl bad ↦ rw (e, given, key, found, bad, handle_agent_enroll) (inl refl)
                        | inr live ↦
                            rw (e, given, key, found, live, handle_agent_enroll)
                              (inr (row, host, refl))
                      ]
                ]
        ]
      ]
    ]

pub handle_agent_enroll-Evolves :
    (ext : External) (token public_key : Option String) (host : Option AgentHostMetadata) (now : ℕ)
    (s : ControlPlane)
    → Evolves (secrets s) (secrets (handle_agent_enroll ext token public_key host now s).1)
handle_agent_enroll-Evolves ext token public_key host now s =
    elim (handle_agent_enroll-state ext token public_key host now s) [
      | inl same ↦ Evolves-same _ _ (ap secrets same)
      | inr (row, found, e) ↦
          subst (λ t. Evolves (secrets s) (secrets t)) (sym e)
            (enroll_agent-Evolves row (get_or public_key "") found now s)
    ]
