-- ===== src/Policy/Paths.antt =====
-- `isPathUnderRoots` of packages/protocol/src/schemas/policy.ts, and the overlap of two workspace paths and
-- the owners of packages/core/src/workspace-paths.ts. The separator of the platform is the slash.
use agent_phonon.Base.{
  ℕ, Bool, true, false, ◌&&◌, ◌||◌, List, [], ◌∷◌, ◌++◌, Option, none, some, Result, ok, err,
  if◌then◌else◌, ◌==◌, any,
}
use agent_phonon.Js.Text.{text_eq}
use agent_phonon.Policy.Glob.{slash, forward_slashes, is_empty}

-- `replace(/\/+$/, "")`.
unfoldable pub strip_slashes : List ℕ → List ℕ
strip_slashes [] = []
strip_slashes (c ∷ s) =
    let rest = strip_slashes s in if c == slash && is_empty rest then [] else c ∷ rest

unfoldable pub starts_with : List ℕ → List ℕ → Bool
starts_with s [] = true
starts_with [] (p ∷ prefix) = false
starts_with (c ∷ s) (p ∷ prefix) = c == p && starts_with s prefix

-- `norm === root || norm.startsWith(root + "/")`.
unfoldable pub at_or_under : List ℕ → List ℕ → Bool
unfolding text_eq starts_with
at_or_under norm root = text_eq norm root || starts_with norm (root ++ slash ∷ [])

unfoldable pub is_path_under_roots : List ℕ → List (List ℕ) → Bool
unfolding at_or_under strip_slashes forward_slashes
is_path_under_roots abs_path roots =
    any (λ r. at_or_under (forward_slashes abs_path) (strip_slashes (forward_slashes r))) roots

unfoldable pub ends_with_slash : List ℕ → Bool
ends_with_slash [] = false
ends_with_slash (c ∷ []) = c == slash
ends_with_slash (c ∷ d ∷ s) = ends_with_slash (d ∷ s)

-- `value.endsWith(sep) ? value : value + sep`.
unfoldable pub with_slash : List ℕ → List ℕ
unfolding ends_with_slash
with_slash s = if ends_with_slash s then s else s ++ slash ∷ []

unfoldable pub workspace_paths_overlap : List ℕ → List ℕ → Bool
unfolding text_eq starts_with with_slash
workspace_paths_overlap left right =
    text_eq left right || starts_with left (with_slash right) || starts_with right (with_slash left)

-- A record of an owner: the namespace, where it has one, and what its key comes to, or that the
-- canonical path could not be found.
pub record NamespacePath : Type 0 where
  pub namespace : Option (List ℕ)
  pub key : Option (List ℕ)

pub data OwnerError : Type 0 where
  not_verified other_owner : OwnerError

abbrev pub same_namespace : Option (List ℕ) → List ℕ → Bool
same_namespace none namespace = false
same_namespace (some n) namespace = text_eq n namespace

abbrev pub checked_owner :
    Option (List ℕ) → List ℕ → Result OwnerError (Unit {0}) → Result OwnerError (Unit {0})
checked_owner none key later = err not_verified
checked_owner (some other) key later =
    if workspace_paths_overlap key other then err other_owner else later

-- `assertNamespacePathAvailable`; `key` is the path's key.
unfoldable pub assert_namespace_path_available :
    List ℕ → List ℕ → List NamespacePath → Result OwnerError (Unit {0})
unfolding workspace_paths_overlap text_eq
assert_namespace_path_available key namespace [] = ok tt
assert_namespace_path_available key namespace (r ∷ records) =
    let later = assert_namespace_path_available key namespace records in
    if same_namespace r.namespace namespace then later else checked_owner r.key key later
