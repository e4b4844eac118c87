-- ===== src/Outbox/State.antt =====
-- The fields of the class in packages/core/src/outbox.ts, and its map and set.
use agent_phonon.Base.{
  ℕ, Bool, false, ◌&&◌, ◌||◌, List, [], ◌∷◌, Option, none, some, leb, ◌==◌, if◌then◌else◌,
}
use agent_phonon.Js.Text.{text_eq}
use agent_phonon.Store.Outbox.{StreamEvent, Db}

pub record Buffered : Type 0 where
  pub session_id : List ℕ
  pub seq : ℕ
  pub event : StreamEvent

-- `keys` is the set of pairs that `JSON.stringify` makes one text of. `store` and `tenant_id` are
-- the options of the constructor.
pub record Outbox : Type 0 where
  pub buffer : List Buffered
  pub keys : List (List ℕ × ℕ)
  pub acked : List (List ℕ × ℕ)
  pub store : Option Db
  pub tenant_id : Option (List ℕ)

-- `Map.get` and `Map.set`, over the entries in their order of insertion.
unfoldable pub get : List (List ℕ × ℕ) → List ℕ → Option ℕ
get [] k = none
get ((j, v) ∷ m) k = if text_eq j k then some v else get m k

unfoldable pub set : List (List ℕ × ℕ) → List ℕ → ℕ → List (List ℕ × ℕ)
set [] k v = (k, v) ∷ []
set ((j, w) ∷ m) k v = let rest = set m k v in if text_eq j k then (j, v) ∷ m else (j, w) ∷ rest

-- `seq <= (this.acked.get(sessionId) ?? -1)`.
abbrev pub is_acked : Option ℕ → ℕ → Bool
is_acked none seq = false
is_acked (some a) seq = leb seq a

unfoldable pub has_key : List (List ℕ × ℕ) → List ℕ → ℕ → Bool
has_key [] session seq = false
has_key ((s, n) ∷ keys) session seq = (text_eq s session && n == seq) || has_key keys session seq

-- `Set.delete`.
unfoldable pub delete_key : List (List ℕ × ℕ) → List ℕ → ℕ → List (List ℕ × ℕ)
delete_key [] session seq = []
delete_key ((s, n) ∷ keys) session seq =
    let rest = delete_key keys session seq in
    if text_eq s session && n == seq then rest else (s, n) ∷ rest

-- `this.tenantId ?? ""`.
abbrev pub tenant_or_empty : Option (List ℕ) → List ℕ
tenant_or_empty none = []
tenant_or_empty (some t) = t
