-- ===== src/Session/Auth.antt =====
-- The choice of credentials in src/session.ts: `buildAuthConfig` and the functions that it calls.
-- The environment, the file system and `path.join` are parameters.
pub mod Choice
use oaslananka_lab_mcp_ssh_t.Prelude.{
  Bool, Option, none, some, List, [], ◌∷◌, if◌then◌else◌, get_or,
}
use oaslananka_lab_mcp_ssh_t.Text.{Text, codes}
use oaslananka_lab_mcp_ssh_t.Policy.Engine.{truthy}
use oaslananka_lab_mcp_ssh_t.Session.{ConnectionParams, AuthStrategy, auto, password, key, agent}

pub data SshAuthConfig : Type 0 where
  with_password : Text → SshAuthConfig
  with_key : Text → Option Text → SshAuthConfig
  with_agent : Text → SshAuthConfig

pub data AuthError : Type 0 where
  password_required agent_unavailable no_method no_keys : AuthError
  unreadable_key : Text → AuthError

pub data AuthOutcome : Type 0 where
  config : SshAuthConfig → AuthOutcome
  failed : AuthError → AuthOutcome

-- The first outcome, or what follows its failure.
infixr 6 ◌or_try◌
abbrev pub ◌or_try◌ : AuthOutcome → AuthOutcome → AuthOutcome
config c or_try next = config c
failed e or_try next = next

pub record Environment : Type 0 where
  pub auth_sock : Option Text
  pub key_dir : Text
  pub can_read : Text → Bool
  pub read_file : Text → Option Text
  pub join : Text → Text → Text

abbrev key_files : List Text
key_files =
    codes "id_ed25519"
    ∷ codes "id_ecdsa"
    ∷ codes "id_ed25519_sk"
    ∷ codes "id_ecdsa_sk"
    ∷ codes "id_rsa"
    ∷ []

module _ (env : Environment) (passphrase : Option Text) where
  pub load_private_key_from_path : Text → AuthOutcome
  load_private_key_from_path path = elim (env.read_file path) [
    | none ↦ failed (unreadable_key path)
    | some private_key ↦ config (with_key private_key passphrase)
  ]

  -- The loop over the files; a file that cannot be loaded is passed over.
  pub discover_from : List Text → AuthOutcome
  unfolding load_private_key_from_path
  discover_from [] = failed no_keys
  discover_from (file ∷ files) =
      let path = env.join env.key_dir file in
      (if env.can_read path then load_private_key_from_path path else failed no_keys)
      or_try discover_from files

  pub discover_private_keys : AuthOutcome
  discover_private_keys = discover_from key_files

pub build_key_auth : Environment → ConnectionParams → AuthOutcome
unfolding load_private_key_from_path
build_key_auth env params = elim (truthy params.private_key) [
  | some private_key ↦ config (with_key private_key params.passphrase)
  | none ↦ elim (truthy params.private_key_path) [
    | some path ↦ load_private_key_from_path env params.passphrase path
    | none ↦ discover_private_keys env params.passphrase
  ]
]

pub build_agent_auth : Environment → AuthOutcome
build_agent_auth env = elim (truthy env.auth_sock) [
  | none ↦ failed agent_unavailable
  | some sock ↦ config (with_agent sock)
]

pub build_password_auth : ConnectionParams → AuthError → AuthOutcome
build_password_auth params error = elim (truthy params.password) [
  | none ↦ failed error
  | some secret ↦ config (with_password secret)
]

pub build_auto_auth : Environment → ConnectionParams → AuthOutcome
build_auto_auth env params =
    build_password_auth params password_required
    or_try build_key_auth env params
    or_try build_agent_auth env
    or_try failed no_method

pub build_auth_config : Environment → ConnectionParams → AuthOutcome
build_auth_config env params = by_strategy (get_or params.auth auto)
  where
    by_strategy : AuthStrategy → AuthOutcome
    by_strategy password = build_password_auth params password_required
    by_strategy key = build_key_auth env params
    by_strategy agent = build_agent_auth env
    by_strategy auto = build_auto_auth env params
