-- ===== src/Policy/Enforcer.antt =====
-- `PolicyEnforcer` of packages/core/src/policy.ts over `TenantPolicy` of
-- packages/protocol/src/schemas/policy.ts. What node:path's `resolve` and `canonicalWorkspacePath` give for a path, and
-- whether the local admission grants it, are arguments.
use agent_phonon.Base.{
  ℕ, Bool, true, false, ◌||◌, List, [], ◌∷◌, Option, none, some, Result, ok, err, ◌>>◌, guard, leb,
  any, map,
}
use agent_phonon.Js.Text.{text_eq, codes}
use agent_phonon.Policy.Glob.{match_glob, GlobError}
use agent_phonon.Policy.Paths.{is_path_under_roots, workspace_paths_overlap}

pub record TenantPolicy : Type 0 where
  pub allowed_project_roots : List (List ℕ)
  pub allowed_agents : List (List ℕ)
  pub allowed_methods : List (List ℕ)
  pub allow_global_skill_install : Bool
  pub allow_url_skill_install : Bool
  pub allow_local_path_skill_install : Bool
  pub allow_skill_recovery : Bool
  pub allow_delete_files : Bool
  pub allow_external_documents : Bool
  pub allow_env_reveal : Bool
  pub allow_env_write : Bool
  pub allow_exec : Bool
  pub allow_employee_profiles : Bool
  pub allow_project_provision : Bool
  pub allow_device_fs_browse : Bool
  pub allow_maintenance_read : Bool
  pub allow_maintenance_config_write : Bool
  pub allow_maintenance_package_update : Bool
  pub allow_maintenance_service_restart : Bool
  pub max_upload_bytes : Option ℕ
  pub deny_path_patterns : List (List ℕ)

-- What the assertions throw.
pub data PolicyError : Type 0 where
  policy_denied document_path_denied document_too_large : PolicyError
  not_canonical : PolicyError
  bad_pattern : GlobError → PolicyError

-- The patterns of the schema's default.
abbrev pub default_deny_patterns : List (List ℕ)
default_deny_patterns =
    codes "**/.ssh/**"
    ∷ codes "**/.aws/**"
    ∷ codes "**/.env"
    ∷ codes "**/.git/config"
    ∷ codes "**/id_rsa*"
    ∷ codes "**/*.pem"
    ∷ codes "**/openclaw.json"
    ∷ []

-- `DEFAULT_TENANT_POLICY`.
abbrev pub default_policy : TenantPolicy
default_policy = record {
  allowed_project_roots = [];
  allowed_agents = [];
  allowed_methods = [];
  allow_global_skill_install = false;
  allow_url_skill_install = false;
  allow_local_path_skill_install = false;
  allow_skill_recovery = false;
  allow_delete_files = false;
  allow_external_documents = false;
  allow_env_reveal = false;
  allow_env_write = false;
  allow_exec = false;
  allow_employee_profiles = false;
  allow_project_provision = false;
  allow_device_fs_browse = true;
  allow_maintenance_read = false;
  allow_maintenance_config_write = false;
  allow_maintenance_package_update = false;
  allow_maintenance_service_restart = false;
  max_upload_bytes = none;
  deny_path_patterns = default_deny_patterns;
}

abbrev pub trusted_policy : List ℕ → TenantPolicy
trusted_policy workspace_root = record default_policy {
  allowed_project_roots = workspace_root ∷ [];
  allow_delete_files = true;
  allow_global_skill_install = true;
  allow_env_write = true;
  allow_exec = true;
}

pub record PolicyEnforcer : Type 0 where
  pub policy : TenantPolicy
  pub workspace_root : List ℕ
  pub project_roots : List (List ℕ)

abbrev pub policy_for : Option TenantPolicy → Bool → List ℕ → TenantPolicy
policy_for (some policy) trust_local root = policy
policy_for none true root = trusted_policy root
policy_for none false root = default_policy

-- The constructor; `canonical` is `canonicalWorkspacePath` at the time.
unfoldable pub construct_enforcer :
    Option TenantPolicy → Bool → List ℕ → (List ℕ → List ℕ) → PolicyEnforcer
construct_enforcer given trust_local raw_root canonical =
    let root = canonical raw_root in
    let policy = policy_for given trust_local root in
    record {
      policy = policy;
      workspace_root = root;
      project_roots = root ∷ map canonical policy.allowed_project_roots;
    }

-- `assertProjectPath`: `abs` is the canonical path, or that it could not be had.
unfoldable pub assert_project_path :
    PolicyEnforcer → Option (List ℕ) → Bool → Result PolicyError (Unit {0})
unfolding is_path_under_roots
assert_project_path e none admitted = err not_canonical
assert_project_path e (some abs) admitted =
    guard (admitted || is_path_under_roots abs e.project_roots) policy_denied

-- `assertProjectDirectoryNavigation`: keys of paths.
unfoldable pub assert_project_directory_navigation :
    PolicyEnforcer → List ℕ → Bool → (List ℕ → List ℕ) → Result PolicyError (Unit {0})
unfolding workspace_paths_overlap
assert_project_directory_navigation e key admitted path_key =
    guard (admitted || any (λ root. workspace_paths_overlap key (path_key root)) e.project_roots)
      policy_denied

abbrev pub denies :
    Result GlobError Bool → Result PolicyError (Unit {0}) → Result PolicyError (Unit {0})
denies (err thrown) later = err (bad_pattern thrown)
denies (ok true) later = err document_path_denied
denies (ok false) later = later

-- The loop over the patterns.
unfoldable pub assert_not_denied : List ℕ → List (List ℕ) → Result PolicyError (Unit {0})
unfolding match_glob
assert_not_denied abs [] = ok tt
assert_not_denied abs (pattern ∷ patterns) =
    denies (match_glob abs pattern) (assert_not_denied abs patterns)

-- An empty root counts as none.
abbrev pub in_project : List ℕ → Option (List ℕ) → Bool
in_project abs none = false
in_project abs (some []) = false
in_project abs (some (c ∷ root)) = is_path_under_roots abs ((c ∷ root) ∷ [])

-- `assertDocumentPath`; `abs` is what `resolve` gives.
unfoldable pub assert_document_path :
    PolicyEnforcer → List ℕ → Option (List ℕ) → Result PolicyError (Unit {0})
unfolding assert_not_denied is_path_under_roots
assert_document_path e abs project_root =
    assert_not_denied abs e.policy.deny_path_patterns
    >> guard (in_project abs project_root || e.policy.allow_external_documents) document_path_denied

unfoldable pub includes_text : List (List ℕ) → List ℕ → Bool
unfolding text_eq
includes_text texts text = any (λ t. text_eq t text) texts

-- An empty list allows all.
abbrev pub in_list : List (List ℕ) → List ℕ → Bool
in_list [] text = true
in_list (t ∷ texts) text = includes_text (t ∷ texts) text

unfoldable pub assert_method_allowed : PolicyEnforcer → List ℕ → Result PolicyError (Unit {0})
unfolding includes_text
assert_method_allowed e method = guard (in_list e.policy.allowed_methods method) policy_denied

unfoldable pub assert_agent_allowed : PolicyEnforcer → List ℕ → Result PolicyError (Unit {0})
unfolding includes_text
assert_agent_allowed e agent = guard (in_list e.policy.allowed_agents agent) policy_denied

abbrev pub within_limit : Option ℕ → ℕ → Bool
within_limit none bytes = true
within_limit (some limit) bytes = leb bytes limit

unfoldable pub assert_upload_size : PolicyEnforcer → ℕ → Result PolicyError (Unit {0})
assert_upload_size e bytes = guard (within_limit e.policy.max_upload_bytes bytes) document_too_large

-- The operations that one flag allows, each asserted by a method of its own.
pub data Permission : Type 0 where
  delete_files global_skill_install skill_recovery url_skill_install : Permission
  local_path_skill_install env_write exec employee_profiles project_provision : Permission
  maintenance_read maintenance_config_write maintenance_package_update : Permission
  maintenance_service_restart : Permission

abbrev pub flag : TenantPolicy → Permission → Bool
flag p delete_files = p.allow_delete_files
flag p global_skill_install = p.allow_global_skill_install
flag p skill_recovery = p.allow_skill_recovery
flag p url_skill_install = p.allow_url_skill_install
flag p local_path_skill_install = p.allow_local_path_skill_install
flag p env_write = p.allow_env_write
flag p exec = p.allow_exec
flag p employee_profiles = p.allow_employee_profiles
flag p project_provision = p.allow_project_provision
flag p maintenance_read = p.allow_maintenance_read
flag p maintenance_config_write = p.allow_maintenance_config_write
flag p maintenance_package_update = p.allow_maintenance_package_update
flag p maintenance_service_restart = p.allow_maintenance_service_restart

unfoldable pub assert_permission : PolicyEnforcer → Permission → Result PolicyError (Unit {0})
assert_permission e permission = guard (flag e.policy permission) policy_denied
