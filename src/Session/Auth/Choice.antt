-- ===== src/Session/Auth/Choice.antt =====
-- Which credentials src/session.ts chooses.
use oaslananka_lab_mcp_ssh_t.Prelude.{
  ◌≡◌, refl, ◌∙◌, ◌⊎◌, inl, inr, true, Option, none, some, List, [], ◌∷◌, if◌then◌else◌, Bool-cases,
  Option-cases, All,
}
use oaslananka_lab_mcp_ssh_t.Text.{Text}
use oaslananka_lab_mcp_ssh_t.Policy.Engine.{truthy}
use oaslananka_lab_mcp_ssh_t.Session.{ConnectionParams}
use oaslananka_lab_mcp_ssh_t.Session.Auth.{
  agent_unavailable, unreadable_key, password_required, Environment, AuthOutcome, config, failed,
  SshAuthConfig, with_password, with_key, with_agent, AuthError, no_keys, no_method, discover_from,
  load_private_key_from_path, build_key_auth, build_agent_auth, build_auto_auth,
  build_password_auth, ◌or_try◌,
}

-- The file can be read and has the contents.
abbrev Loads : Environment → Text → Text → Type 0
Loads env file contents =
    (env.can_read (env.join env.key_dir file) ≡ true)
    × (env.read_file (env.join env.key_dir file) ≡ some contents)

-- The first of the files that can be loaded.
data FirstKey (env : Environment) (contents : Text) : List Text → Type 0 where
  here :
      {file : Text} {files : List Text}
      → Loads env file contents
      → FirstKey env contents (file ∷ files)
  later :
      {file : Text} {files : List Text}
      → ((other : Text) → ¬ Loads env file other)
      → FirstKey env contents files
      → FirstKey env contents (file ∷ files)

module _ (env : Environment) (passphrase : Option Text) where
  -- The outcome for the first file.
  file_outcome : Text → AuthOutcome
  file_outcome file =
      if env.can_read (env.join env.key_dir file)
      then load_private_key_from_path env passphrase (env.join env.key_dir file)
      else failed no_keys

  file-cases :
      (file : Text)
      → ((contents : Text) × Loads env file contents
          × (file_outcome file ≡ config (with_key contents passphrase)))
        ⊎ (((other : Text) → ¬ Loads env file other)
            × ((e : AuthError) × (file_outcome file ≡ failed e)))
  unfolding file_outcome load_private_key_from_path
  file-cases file = elim (Bool-cases (env.can_read (env.join env.key_dir file))) [
    | inl can ↦ elim (Option-cases (env.read_file (env.join env.key_dir file))) [
      | inl unread ↦ inr (
        λ other l. cc (unread, l.1),
        (
          unreadable_key (env.join env.key_dir file),
          rw (can, file_outcome) (rw (unread, load_private_key_from_path) refl),
        ),
      )
      | inr (contents, read) ↦ inl (
        contents,
        (can, read),
        rw (can, file_outcome) (rw (read, load_private_key_from_path) refl),
      )
    ]
    | inr cannot ↦ inr (λ other l. cc (cannot, l.0), (no_keys, rw (cannot, file_outcome) refl))
  ]

  discover_from-nil : discover_from env passphrase [] ≡ failed no_keys
  unfolding discover_from
  discover_from-nil = refl

  discover_from-eq :
      (file : Text) (files : List Text)
      → discover_from env passphrase (file ∷ files)
        ≡ (file_outcome file or_try discover_from env passphrase files)
  unfolding discover_from file_outcome
  discover_from-eq file files = refl

  -- The keys are searched in order: the first file that can be read and loaded is used, with the
  -- passphrase, and the search fails exactly when no file can be.
  discover_from-FirstKey :
      (files : List Text)
      → ((discover_from env passphrase files ≡ failed no_keys)
          × All (λ file. (other : Text) → ¬ Loads env file other) files)
        ⊎ ((contents : Text) × FirstKey env contents files
            × (discover_from env passphrase files ≡ config (with_key contents passphrase)))
  discover_from-FirstKey [] = inl (discover_from-nil, tt)
  discover_from-FirstKey (file ∷ files) = elim (file-cases file) [
    | inl (contents, l, e) ↦ inr (contents, here l, discover_from-eq file files ∙ rw e refl)
    | inr (nothing, (error, e)) ↦ elim (discover_from-FirstKey files) [
      | inl (f, none_of) ↦ inl (discover_from-eq file files ∙ rw e f, (nothing, none_of))
      | inr (contents, k, f) ↦ inr (contents, later nothing k, discover_from-eq file files ∙ rw e f)
    ]
  ]

AuthOutcome-cases :
    (o : AuthOutcome) → ((c : SshAuthConfig) × (o ≡ config c)) ⊎ ((e : AuthError) × (o ≡ failed e))
AuthOutcome-cases (config c) = inl (c, refl)
AuthOutcome-cases (failed e) = inr (e, refl)

password-outcome :
    (params : ConnectionParams) (error : AuthError) (secret : Text)
    → truthy params.password ≡ some secret
    → build_password_auth params error ≡ config (with_password secret)
unfolding build_password_auth
password-outcome params error secret h = rw (h, build_password_auth) refl

no_password-outcome :
    (params : ConnectionParams) (error : AuthError)
    → truthy params.password ≡ none
    → build_password_auth params error ≡ failed error
unfolding build_password_auth
no_password-outcome params error h = rw (h, build_password_auth) refl

agent-outcome :
    (env : Environment) (sock : Text)
    → truthy env.auth_sock ≡ some sock
    → build_agent_auth env ≡ config (with_agent sock)
unfolding build_agent_auth
agent-outcome env sock h = rw (h, build_agent_auth) refl

no_agent-outcome :
    (env : Environment)
    → truthy env.auth_sock ≡ none
    → (e : AuthError) × (build_agent_auth env ≡ failed e)
unfolding build_agent_auth
no_agent-outcome env h = (agent_unavailable, rw (h, build_agent_auth) refl)

-- The automatic strategy prefers a password, then a key, then the agent, and fails exactly when
-- there is none of them.
build_auto_auth-cases :
    (env : Environment) (params : ConnectionParams)
    → ((secret : Text) × (truthy params.password ≡ some secret)
        × (build_auto_auth env params ≡ config (with_password secret)))
      ⊎ ((truthy params.password ≡ none)
          × (((c : SshAuthConfig) × (build_key_auth env params ≡ config c)
                × (build_auto_auth env params ≡ config c))
              ⊎ (((e : AuthError) × (build_key_auth env params ≡ failed e))
                  × (((sock : Text) × (truthy env.auth_sock ≡ some sock)
                        × (build_auto_auth env params ≡ config (with_agent sock)))
                      ⊎ ((truthy env.auth_sock ≡ none)
                          × (build_auto_auth env params ≡ failed no_method))))))
unfolding build_auto_auth
build_auto_auth-cases env params = elim (Option-cases (truthy params.password)) [
  | inr (secret, p) ↦ inl (secret, p, rw (password-outcome params password_required secret p) refl)
  | inl p ↦
      let none_given = no_password-outcome params password_required p in
      elim (AuthOutcome-cases (build_key_auth env params)) [
        | inl (c, k) ↦ inr (p, inl (c, k, rw (none_given, k) refl))
        | inr (e, k) ↦ elim (Option-cases (truthy env.auth_sock)) [
          | inr (sock, a) ↦
              inr
                (p, inr ((e, k), inl (sock, a, rw (none_given, k, agent-outcome env sock a) refl)))
          | inl a ↦
              let (f, g) = no_agent-outcome env a in
              inr (p, inr ((e, k), inr (a, rw (none_given, k, g) refl)))
        ]
      ]
]
