-- ===== src/Policy/Evaluate/Allowed.antt =====
-- What src/policy.ts allows, stated over the configuration, and that `evaluate` allows just that.
use oaslananka_lab_mcp_ssh_t.Prelude.{
  String, ◌≡◌, refl, sym, subst, ◌↔◌, ◌⊎◌, inl, inr, Bool, true, false, not, ◌&&◌, Option, none,
  some, List, [], if◌then◌else◌, Bool-cases, get_or, is_some, All, All-map, AnyOf,
}
use oaslananka_lab_mcp_ssh_t.Text.{Text, codes}
use oaslananka_lab_mcp_ssh_t.Policy.Engine.{
  PolicyConfig, PolicyContext, PolicyEngine, Reason, truthy, ◌or_else◌, is_local_transfer,
  is_tunnel, paths_of, ports_of, create, explain, enforce, PolicyMode,
}
use oaslananka_lab_mcp_ssh_t.Policy.Evaluate.{
  is_enforced, explain_decision, evaluate, assert_allowed, command_check, root_check,
  remote_path_check, local_path_check, host_check, denial, paths_check, when_some, first_denial,
  bind_host_check, remote_host_check, port_check, tunnel_check,
}
use oaslananka_lab_mcp_ssh_t.Policy.Evaluate.Checks.{
  sudo_check_iff, command_check_iff, root_check_iff, host_check_iff, two_lists_iff,
  when_some-eq-none_iff, first_denial-eq-none_iff, Names, Passes, CommandPasses, PortPasses,
  bind_host_check_iff, remote_host_check_iff, port_check_iff,
}
use oaslananka_lab_mcp_ssh_t.Policy.Evaluate.Prefixes.{create-Created}
use oaslananka_lab_mcp_ssh_t.Policy.Evaluate.LocalPaths.{local_path_check_iff, LocalPathPasses}
use oaslananka_lab_mcp_ssh_t.Policy.Evaluate.PathRules.{remote_path_check_iff, RemotePathPasses}

allowed_of_none : (o : Option Reason) → (not (is_some o) ≡ true) ↔ (o ≡ none)
allowed_of_none none = (λ h. refl, λ h. refl)
allowed_of_none (some r) = (λ h. cc, λ h. cc)

if_iff :
    (b : Bool) (check : Option Reason)
    → ((if b then check else none) ≡ none) ↔ (b ≡ true → check ≡ none)
if_iff true check = (λ h t. h, λ f. f refl)
if_iff false check = (λ h t. cc, λ f. refl)

three_iff :
    (x y z : Option Reason) {P Q R : Type 0}
    → (x ≡ none) ↔ P
    → (y ≡ none) ↔ Q
    → (z ≡ none) ↔ R
    → ((x or_else y or_else z) ≡ none) ↔ (P × (Q × R))
three_iff x y z i j k = two_lists_iff x (y or_else z) i (two_lists_iff y z j k)

some_iff :
    {A : Type 0} (o : Option A) (check : A → Option Reason) {P : A → Type 0}
    → ((a : A) → (check a ≡ none) ↔ P a)
    → (when_some o check ≡ none) ↔ ((a : A) → o ≡ some a → P a)
some_iff o check i =
    let w = when_some-eq-none_iff o check in
    (λ h a e. (i a).0 (w.0 h a e), λ f. w.1 (λ a e. (i a).1 (f a e)))

All-iff :
    {A : Type 0} (check : A → Option Reason) (xs : List A) {P : A → Type 0}
    → ((a : A) → (check a ≡ none) ↔ P a)
    → (first_denial check xs ≡ none) ↔ All P xs
All-iff check xs {P} i =
    let w = first_denial-eq-none_iff check xs in
    (
      λ h. All-map (λ a. check a ≡ none) P (λ a. (i a).0) xs (w.0 h),
      λ p. w.1 (All-map P (λ a. check a ≡ none) (λ a. (i a).1) xs p),
    )

module _ (regex : Text → Text → Bool) (safety_test : String → Text → Bool)
    (normalize_local : Text → Option Text) (c : PolicyConfig) where
  -- The guards of a context, each over the configuration.
  pub record Permitted (ctx : PolicyContext) : Type 0 where
    pub host :
        (h : Text)
        → truthy ctx.host ≡ some h
        → (c.allowed_hosts ≡ []) ⊎ AnyOf (Names regex h) c.allowed_hosts
    pub bind_host :
        is_tunnel ctx.action ≡ true
        → (h : Text) → truthy ctx.local_bind_host ≡ some h
        → Passes regex h c.tunnel_deny_bind_hosts c.tunnel_allow_bind_hosts
    pub remote_host :
        is_tunnel ctx.action ≡ true
        → (h : Text) → truthy ctx.remote_host ≡ some h
        → Passes regex h c.tunnel_deny_remote_hosts c.tunnel_allow_remote_hosts
    pub ports : is_tunnel ctx.action ≡ true → All (PortPasses c) (ports_of ctx)
    pub root : (u : Text) → ctx.username ≡ some u → u ≡ codes "root" → c.allow_root_login ≡ true
    pub sudo : ctx.raw_sudo ≡ true → c.allow_raw_sudo ≡ true
    pub command :
        (text : Text) → truthy ctx.command ≡ some text → CommandPasses regex safety_test c text
    pub remote_paths :
        is_local_transfer ctx.action ≡ false → All (RemotePathPasses c ctx) (paths_of ctx)
    pub local_paths :
        is_local_transfer ctx.action ≡ true → All (LocalPathPasses normalize_local c) (paths_of ctx)

module _ (regex : Text → Text → Bool) (safety_test : String → Text → Bool)
    (normalize_local : Text → Option Text) (c : PolicyConfig) (e : PolicyEngine) where
  tunnel_check_iff :
      e.config ≡ c
      → (ctx : PolicyContext)
      → (tunnel_check regex safety_test normalize_local e ctx ≡ none) ↔ (
          is_tunnel ctx.action ≡ true
          → ((h : Text)
              → truthy ctx.local_bind_host ≡ some h
              → Passes regex h c.tunnel_deny_bind_hosts c.tunnel_allow_bind_hosts)
            × (((h : Text)
                  → truthy ctx.remote_host ≡ some h
                  → Passes regex h c.tunnel_deny_remote_hosts c.tunnel_allow_remote_hosts)
                × All (PortPasses c) (ports_of ctx)))
  unfolding tunnel_check
  tunnel_check_iff same ctx = rw same (
      let parts =
        three_iff _ _ _
          (some_iff (truthy ctx.local_bind_host) (bind_host_check regex c)
            (bind_host_check_iff regex c))
          (some_iff (truthy ctx.remote_host) (remote_host_check regex c)
            (remote_host_check_iff regex c))
          (All-iff (port_check c) (ports_of ctx) (port_check_iff c)) in
      let test = if_iff (is_tunnel ctx.action) _ in
      (λ h t. parts.0 (test.0 h t), λ f. test.1 (λ t. parts.1 (f t))))

  paths_check_iff :
      create normalize_local c ≡ some e
      → (ctx : PolicyContext)
      → (paths_check regex safety_test normalize_local e ctx ≡ none) ↔ (
          (is_local_transfer ctx.action ≡ false → All (RemotePathPasses c ctx) (paths_of ctx))
          × (is_local_transfer ctx.action ≡ true
              → All (LocalPathPasses normalize_local c) (paths_of ctx)))
  unfolding paths_check
  paths_check_iff made ctx =
      let local =
        All-iff (local_path_check normalize_local e) (paths_of ctx)
          {P = LocalPathPasses normalize_local c} (local_path_check_iff normalize_local c e made) in
      let remote =
        All-iff (remote_path_check e ctx) (paths_of ctx) {P = RemotePathPasses c ctx}
          (remote_path_check_iff (create-Created normalize_local c e made) ctx) in
      elim (Bool-cases (is_local_transfer ctx.action)) [
        | inl here ↦ rw here (λ h. (λ f. cc, λ t. local.0 h), λ p. local.1 (p.1 refl))
        | inr there ↦ rw there (λ h. (λ f. remote.0 h, λ t. cc), λ p. remote.1 (p.0 refl))
      ]

module _ (regex : Text → Text → Bool) (safety_test : String → Text → Bool)
    (normalize_local : Text → Option Text) (e : PolicyEngine) where
  -- With the configuration that the engine holds.
  denial_iff :
      create normalize_local e.config ≡ some e
      → (ctx : PolicyContext)
      → (denial regex safety_test normalize_local e ctx ≡ none)
        ↔ Permitted regex safety_test normalize_local e.config ctx
  unfolding denial
  denial_iff made ctx =
      let c = e.config in
      let host = some_iff (truthy ctx.host) (host_check regex c) (host_check_iff regex c) in
      let root =
        some_iff ctx.username (root_check c) {P = λ u. u ≡ codes "root" → c.allow_root_login ≡ true}
          (root_check_iff c) in
      let command =
        some_iff (truthy ctx.command) (command_check regex safety_test c)
          (command_check_iff regex safety_test c) in
      let parts = two_lists_iff _ _ host (
        two_lists_iff _ _ (tunnel_check_iff regex safety_test normalize_local c e refl ctx) (
          three_iff _ _ _ root (sudo_check_iff c ctx.raw_sudo) (
            two_lists_iff _ _ command
              (paths_check_iff regex safety_test normalize_local c e made ctx)))) in
      (
        λ h.
            let p = parts.0 h in
            record {
              host = p.0;
              bind_host = λ t. (p.1.0 t).0;
              remote_host = λ t. (p.1.0 t).1.0;
              ports = λ t. (p.1.0 t).1.1;
              root = p.1.1.0;
              sudo = p.1.1.1.0;
              command = p.1.1.1.1.0;
              remote_paths = p.1.1.1.1.1.0;
              local_paths = p.1.1.1.1.1.1;
            },
        λ p. parts.1 (
          p.host,
          (
            λ t. (p.bind_host t, (p.remote_host t, p.ports t)),
            (p.root, (p.sudo, (p.command, (p.remote_paths, p.local_paths)))),
          ),
        ),
      )

-- An engine that the constructor makes of a configuration allows a context exactly when every guard
-- permits it: the host is listed; a tunnel's hosts and ports pass their lists; root and raw sudo
-- are enabled where they are used; the command passes its patterns and the safety table; every
-- remote path lies, segment by segment, under no denied prefix of the configuration, with a
-- destructive operation confined to the allowed ones; and every local path of a transfer has a
-- normal form, inside that of an allowed prefix of the configuration and inside that of no denied
-- one.
pub evaluate_allowed_iff :
    (regex : Text → Text → Bool) (safety_test : String → Text → Bool)
    (normalize_local : Text → Option Text) (c : PolicyConfig) (e : PolicyEngine)
    (ctx : PolicyContext)
    → create normalize_local c ≡ some e
    → ((evaluate regex safety_test normalize_local e ctx).allowed ≡ true)
      ↔ Permitted regex safety_test normalize_local c ctx
unfolding evaluate
evaluate_allowed_iff regex safety_test normalize_local c e ctx h =
    let made = create-Created normalize_local c e h in
    let own =
      denial_iff regex safety_test normalize_local e
        (subst (λ d. create normalize_local d ≡ some e) (sym made.config) h) ctx in
    let given =
      subst
        (λ d.
          (denial regex safety_test normalize_local e ctx ≡ none)
          ↔ Permitted regex safety_test normalize_local d ctx)
        made.config own in
    let none_iff = allowed_of_none (denial regex safety_test normalize_local e ctx) in
    (λ a. given.0 (none_iff.0 a), λ p. none_iff.1 (given.1 p))

enforced_iff :
    (d : Option Reason) (m : PolicyMode) {P : Type 0}
    → (not (is_some d) ≡ true) ↔ P
    → ((not (not (is_some d)) && is_enforced m) ≡ true) ↔ ((¬ P) × (m ≡ enforce))
enforced_iff none enforce i = (λ h. cc, λ h. absurd (h.0 (i.0 refl)))
enforced_iff none explain i = (λ h. cc, λ h. cc)
enforced_iff (some r) enforce i = (λ h. (λ p. cc (i.1 p), refl), λ h. refl)
enforced_iff (some r) explain i = (λ h. cc, λ h. cc)

-- `assertAllowed` of an engine that the constructor makes of a configuration throws exactly for a
-- context that some guard of the configuration does not permit, when the mode of the context, or
-- else that of the configuration, is `enforce`.
pub assert_allowed_thrown :
    (regex : Text → Text → Bool) (safety_test : String → Text → Bool)
    (normalize_local : Text → Option Text) (c : PolicyConfig) (e : PolicyEngine)
    (ctx : PolicyContext)
    → create normalize_local c ≡ some e
    → ((assert_allowed regex safety_test normalize_local e ctx).thrown ≡ true)
      ↔ ((¬ Permitted regex safety_test normalize_local c ctx) × (get_or ctx.mode c.mode ≡ enforce))
unfolding assert_allowed evaluate
assert_allowed_thrown regex safety_test normalize_local c e ctx h =
    let made = create-Created normalize_local c e h in
    subst
      (λ d. ((assert_allowed regex safety_test normalize_local e ctx).thrown ≡ true) ↔ (
        (¬ Permitted regex safety_test normalize_local c ctx) × (get_or ctx.mode d.mode ≡ enforce)))
      made.config
      (enforced_iff (denial regex safety_test normalize_local e ctx) (get_or ctx.mode e.config.mode)
        (evaluate_allowed_iff regex safety_test normalize_local c e ctx h))

-- `explain` gives the verdict and the reason that `assertAllowed` gives for the context in its own
-- mode, and the mode `explain`.
explain_same_verdict :
    (regex : Text → Text → Bool) (safety_test : String → Text → Bool)
    (normalize_local : Text → Option Text) (e : PolicyEngine) (ctx : PolicyContext)
    → ((explain_decision regex safety_test normalize_local e ctx).allowed
        ≡ (assert_allowed regex safety_test normalize_local e ctx).decision.allowed)
      × ((explain_decision regex safety_test normalize_local e ctx).reason
          ≡ (assert_allowed regex safety_test normalize_local e ctx).decision.reason)
      × ((explain_decision regex safety_test normalize_local e ctx).mode ≡ explain)
unfolding explain_decision assert_allowed evaluate denial tunnel_check paths_check remote_path_check
explain_same_verdict regex safety_test normalize_local e ctx = (refl, refl, refl)
