-- ===== src/Policy/Segments.antt =====
-- `isPathUnderRoots` of packages/protocol/src/schemas/policy.ts compares whole segments of paths.
use agent_phonon.Base.{
  ℕ, ◌≡◌, refl, Bool, true, false, ◌&&◌, List, [], ◌∷◌, ◌==◌, any, arith, sym, ◌||◌, if◌then◌else◌,
  inl, inr, Bool-cases, ==_iff,
}
use agent_phonon.Js.Text.{text_eq, split, push_head}
use agent_phonon.Policy.Glob.{slash, forward_slashes, is_empty}
use agent_phonon.Policy.Paths.{strip_slashes, starts_with, at_or_under, is_path_under_roots}

unfoldable pub is_prefix : List (List ℕ) → List (List ℕ) → Bool
is_prefix [] ys = true
is_prefix (x ∷ xs) [] = false
is_prefix (x ∷ xs) (y ∷ ys) = text_eq x y && is_prefix xs ys

-- The pieces of a path between its slashes.
abbrev segments : List ℕ → List (List ℕ)
segments s = split s slash

abbrev Cons : List (List ℕ) → Type 0
Cons xs = (y : List ℕ) × (ys : List (List ℕ)) × (xs ≡ y ∷ ys)

push_head-Cons : (c : ℕ) (xs : List (List ℕ)) → Cons (push_head c xs)
push_head-Cons c [] = (_, _, refl)
push_head-Cons c (x ∷ xs) = (_, _, refl)

split-Cons : (s : List ℕ) → Cons (segments s)
unfolding split
split-Cons [] = (_, _, refl)
split-Cons (c ∷ s) = elim (Bool-cases (c == slash)) [
  | inl hit ↦ rw hit (_, _, refl)
  | inr miss ↦ rw miss (push_head-Cons c (segments s))
]

is_prefix-push_head :
    (r c : ℕ) (xs ys : List (List ℕ))
    → Cons xs
    → Cons ys
    → is_prefix (push_head r xs) (push_head c ys) ≡ (r == c && is_prefix xs ys)
unfolding is_prefix text_eq
is_prefix-push_head r c [] ys (x, xs, e) k = cc
is_prefix-push_head r c (x ∷ xs) [] h (y, ys, e) = cc
is_prefix-push_head r c (x ∷ xs) (y ∷ ys) h k = ground arith

is_prefix-empty : (xs : List (List ℕ)) → Cons xs → is_prefix xs [] ≡ false
unfolding is_prefix
is_prefix-empty [] (x, xs, e) = cc
is_prefix-empty (x ∷ xs) h = refl

-- An empty piece is not one that starts with a character.
empty-push_head : (c : ℕ) (ys : List (List ℕ)) → is_prefix ([] ∷ []) (push_head c ys) ≡ false
unfolding is_prefix text_eq
empty-push_head c [] = refl
empty-push_head c (y ∷ ys) = refl

empties-push_head : (c : ℕ) (xs ys : List (List ℕ)) → is_prefix ([] ∷ xs) (push_head c ys) ≡ false
unfolding is_prefix text_eq
empties-push_head c xs [] = refl
empties-push_head c xs (y ∷ ys) = refl

push_head-empty : (c : ℕ) (xs ys : List (List ℕ)) → is_prefix (push_head c xs) ([] ∷ ys) ≡ false
unfolding is_prefix text_eq
push_head-empty c [] ys = refl
push_head-empty c (x ∷ xs) ys = refl

at_or_under-segments :
    (norm root : List ℕ) → at_or_under norm root ≡ is_prefix (segments root) (segments norm)
unfolding at_or_under starts_with text_eq split is_prefix
at_or_under-segments [] [] = refl
at_or_under-segments (c ∷ norm) [] = ground (arith, empty-push_head c (segments norm))
at_or_under-segments [] (r ∷ root) =
    ground (
      arith,
      is_prefix-empty (segments root) (split-Cons root),
      push_head-empty r (segments root) [],
    )
at_or_under-segments (c ∷ norm) (r ∷ root) = ground (
  arith,
  at_or_under-segments norm root,
  ==_iff r c,
  empties-push_head c (segments root) (segments norm),
  push_head-empty r (segments root) (segments norm),
  is_prefix-push_head r c (segments root) (segments norm) (split-Cons root) (split-Cons norm),
)

-- The segments of a path: its pieces between slashes or backslashes.
unfoldable pub cut : List ℕ → List (List ℕ)
cut [] = [] ∷ []
cut (c ∷ s) = if c == 47 || c == 92 then [] ∷ cut s else push_head c (cut s)

unfoldable unless_blank : List (List ℕ) → List (List ℕ)
unless_blank [] = []
unless_blank ([] ∷ []) = []
unless_blank ([] ∷ x ∷ xs) = [] ∷ x ∷ xs
unless_blank ((c ∷ x) ∷ xs) = (c ∷ x) ∷ xs

unfoldable drop_empties : List (List ℕ) → List (List ℕ)
unfolding unless_blank
drop_empties [] = []
drop_empties (x ∷ xs) = unless_blank (x ∷ drop_empties xs)

-- The segments of a root: the empty ones at the end are dropped, and the first one is kept.
unfoldable pub trimmed : List (List ℕ) → List (List ℕ)
unfolding drop_empties
trimmed [] = []
trimmed (x ∷ xs) = x ∷ drop_empties xs

drop_empties-trimmed : (xs : List (List ℕ)) → drop_empties xs ≡ unless_blank (trimmed xs)
unfolding drop_empties trimmed unless_blank
drop_empties-trimmed [] = refl
drop_empties-trimmed (x ∷ xs) = refl

trimmed-push_head :
    (c : ℕ) (xs : List (List ℕ)) → trimmed (push_head c xs) ≡ push_head c (trimmed xs)
unfolding trimmed drop_empties
trimmed-push_head c [] = refl
trimmed-push_head c (x ∷ xs) = refl

blank_after : (xs : List (List ℕ)) → Cons xs → unless_blank ([] ∷ xs) ≡ [] ∷ xs
unfolding unless_blank
blank_after [] (x, xs, e) = cc
blank_after (x ∷ xs) h = refl

blank_push : (c : ℕ) (xs : List (List ℕ)) → unless_blank (push_head c xs) ≡ push_head c xs
unfolding unless_blank
blank_push c [] = refl
blank_push c (x ∷ xs) = refl

unless_blank-split :
    (s : List ℕ) → unless_blank (segments s) ≡ (if is_empty s then [] else segments s)
unfolding split unless_blank
unless_blank-split [] = refl
unless_blank-split (c ∷ s) = elim (Bool-cases (c == slash)) [
  | inl hit ↦ rw hit (blank_after (segments s) (split-Cons s))
  | inr miss ↦ rw miss (blank_push c (segments s))
]

segments-forward : (s : List ℕ) → segments (forward_slashes s) ≡ cut s
unfolding split forward_slashes cut
segments-forward [] = refl
segments-forward (c ∷ s) = ground (arith, segments-forward s)

segments-strip : (s : List ℕ) → segments (strip_slashes (forward_slashes s)) ≡ trimmed (cut s)
unfolding split strip_slashes forward_slashes cut trimmed drop_empties
segments-strip [] = refl
segments-strip (c ∷ s) =
    let rest = strip_slashes (forward_slashes s) in
    ground (
      arith,
      segments-strip s,
      drop_empties-trimmed (cut s),
      unless_blank-split rest,
      trimmed-push_head c (cut s),
    )

any-ext :
    (p q : List ℕ → Bool) (xs : List (List ℕ)) → ((x : List ℕ) → p x ≡ q x) → any p xs ≡ any q xs
any-ext p q [] h = refl
any-ext p q (x ∷ xs) h = rw (h x, any-ext p q xs h) refl

-- A path is under one of the roots exactly where the segments of a root, without the empty ones at its end,
-- are the first segments of the path: no path is under a root of which it only shares the beginning of
-- a name. Segments stand between slashes or backslashes on both sides.
pub is_path_under_roots-segments :
    (abs_path : List ℕ) (roots : List (List ℕ))
    → is_path_under_roots abs_path roots
      ≡ any (λ root. is_prefix (trimmed (cut root)) (cut abs_path)) roots
unfolding is_path_under_roots
is_path_under_roots-segments abs_path roots = any-ext _ _ roots (λ root.
    rw (sym (segments-strip root), sym (segments-forward abs_path))
      (at_or_under-segments (forward_slashes abs_path) (strip_slashes (forward_slashes root))))
