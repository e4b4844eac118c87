-- ===== src/Idempotency/Keys.antt =====
-- The keys of packages/core/src/idempotency.ts.
use agent_phonon.Base.{ℕ, ◌≡◌, refl, Bool, true, not, ◌&&◌, List, [], ◌∷◌, ◌++◌, ◌==◌, arith}
use agent_phonon.Idempotency.{request_key}

-- No U+0000 in a text.
unfoldable pub has_no_nul : List ℕ → Bool
has_no_nul [] = true
has_no_nul (c ∷ s) = not (c == 0) && has_no_nul s

split_at_nul :
    (a b s t : List ℕ)
    → has_no_nul a ≡ true
    → has_no_nul b ≡ true
    → a ++ 0 ∷ s ≡ b ++ 0 ∷ t
    → (a ≡ b) × (s ≡ t)
unfolding has_no_nul
split_at_nul [] [] s t ha hb e = (refl, cc)
split_at_nul [] (y ∷ b) s t ha hb e = let zero_y : 0 ≡ y = cc in ground arith
split_at_nul (x ∷ a) [] s t ha hb e = let x_zero : x ≡ 0 = cc in ground arith
split_at_nul (x ∷ a) (y ∷ b) s t ha hb e =
    let ih = split_at_nul a b s t (ground arith) (ground arith) cc in
    let same : x ≡ y = cc in let rest : a ≡ b = ih.0 in (cc, ih.1)

-- Different requests have different keys, if neither tenants nor methods contain U+0000; the client's
-- id may.
pub request_key_injective :
    (tenant method id tenant' method' id' : List ℕ)
    → has_no_nul tenant ≡ true
    → has_no_nul method ≡ true
    → has_no_nul tenant' ≡ true
    → has_no_nul method' ≡ true
    → request_key tenant method id ≡ request_key tenant' method' id'
    → (tenant ≡ tenant') × (method ≡ method') × (id ≡ id')
request_key_injective tenant method id tenant' method' id' ht hm ht' hm' e =
    let first = split_at_nul tenant tenant' (method ++ (0 ∷ id)) (method' ++ (0 ∷ id')) ht ht' e in
    let second = split_at_nul method method' id id' hm hm' first.1 in (first.0, second.0, second.1)
