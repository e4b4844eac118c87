-- ===== src/Outbox/Maps.antt =====
-- The maps of packages/core/src/outbox.ts from a session to a number.
use agent_phonon.Base.{ℕ, ◌≡◌, refl, List, [], ◌∷◌, some, if◌then◌else◌, arith, ◌&&◌, not, ◌==◌}
use agent_phonon.Js.Text.{text_eq}
use agent_phonon.Js.Text.Order.{text_eq_iff}
use agent_phonon.Outbox.State.{get, set, has_key, delete_key}

pub get-set :
    (m : List (List ℕ × ℕ)) (k : List ℕ) (v : ℕ) (j : List ℕ)
    → get (set m k v) j ≡ (if text_eq k j then some v else get m j)
unfolding get set
get-set [] k v j = refl
get-set ((i, w) ∷ m) k v j =
    ground (arith, text_eq_iff i k, text_eq_iff i j, text_eq_iff k j, get-set m k v j)

pub has_key-delete_key :
    (keys : List (List ℕ × ℕ)) (s : List ℕ) (n : ℕ) (t : List ℕ) (m : ℕ)
    → has_key (delete_key keys s n) t m ≡ (has_key keys t m && not (text_eq s t && n == m))
unfolding has_key delete_key
has_key-delete_key [] s n t m = refl
has_key-delete_key ((u, k) ∷ keys) s n t m =
    ground
      (arith, text_eq_iff u s, text_eq_iff u t, text_eq_iff s t, has_key-delete_key keys s n t m)
