-- ===== src/Policy/Language.antt =====
-- Which paths the patterns of `matchGlob` of packages/core/src/policy.ts stand for.
use agent_phonon.Base.{
  ℕ, ◌≡◌, refl, ap, sym, ◌↔◌, ◌⊎◌, inl, inr, Bool, true, ◌&&◌, List, [], ◌∷◌, ◌++◌, Result, ok, err,
  arith, Bool-cases, ==_iff,
}
use agent_phonon.Policy.Glob.{
  Piece, literal, optional, shallow, deep, dot, not_slash, run_while, literal_then, is_empty, test,
  test_parsed, GlobError, match_glob, pieces_of, forward_slashes, no_atom,
}

unfoldable pub every : (ℕ → Bool) → List ℕ → Bool
every p [] = true
every p (c ∷ s) = p c && every p s

-- The text is a run of characters with the property and a rest.
abbrev pub Splits : (ℕ → Bool) → (List ℕ → Type 0) → List ℕ → Type 0
Splits p Rest s = (u : List ℕ) × (v : List ℕ) × (s ≡ u ++ v) × (every p u ≡ true) × Rest v

abbrev pub Starts : ℕ → (List ℕ → Type 0) → List ℕ → Type 0
Starts a Rest s = (t : List ℕ) × (s ≡ a ∷ t) × Rest t

-- What a list of pieces stands for: a literal is itself, an optional one may be absent, a shallow star is
-- any text without a slash, a deep one any text without a line terminator.
unfoldable pub Matches : List Piece → List ℕ → Type 0
Matches [] s = s ≡ []
Matches (literal a ∷ pieces) s = Starts a (Matches pieces) s
Matches (optional a ∷ pieces) s = Matches pieces s ⊎ Starts a (Matches pieces) s
Matches (shallow ∷ pieces) s = Splits not_slash (Matches pieces) s
Matches (deep ∷ pieces) s = Splits dot (Matches pieces) s

pub run_while_sound :
    (p : ℕ → Bool) (rest : List ℕ → Bool) (s : List ℕ)
    → run_while p rest s ≡ true
    → Splits p (λ v. rest v ≡ true) s
unfolding run_while every
run_while_sound p rest [] h = ([], [], refl, refl, h)
run_while_sound p rest (c ∷ s) h = elim (Bool-cases (rest (c ∷ s))) [
  | inl here ↦ ([], c ∷ s, refl, refl, here)
  | inr not_here ↦
      let (u, v, split, all, k) = run_while_sound p rest s (ground (arith, h, not_here)) in
      (c ∷ u, v, ap (λ t. c ∷ t) split, ground (arith, h, not_here, all), k)
]

pub run_while_complete :
    (p : ℕ → Bool) (rest : List ℕ → Bool) (u v : List ℕ)
    → every p u ≡ true
    → rest v ≡ true
    → run_while p rest (u ++ v) ≡ true
unfolding run_while every
run_while_complete p rest [] [] all k = k
run_while_complete p rest [] (c ∷ v) all k = ground (arith, k)
run_while_complete p rest (c ∷ u) v all k =
    ground (arith, all, run_while_complete p rest u v (ground (arith, all)) k)

literal_then_sound :
    (a : ℕ) (rest : List ℕ → Bool) (s : List ℕ)
    → literal_then a rest s ≡ true
    → Starts a (λ t. rest t ≡ true) s
literal_then_sound a rest [] h = cc
literal_then_sound a rest (c ∷ s) h =
    let same : a ≡ c = ground (arith, h, ==_iff a c) in
    (s, ap (λ x. x ∷ s) (sym same), ground (arith, h))

literal_then_complete :
    (a : ℕ) (rest : List ℕ → Bool) (t : List ℕ) → rest t ≡ true → literal_then a rest (a ∷ t) ≡ true
literal_then_complete a rest t k = ground (arith, k)

is_empty_sound : (s : List ℕ) → is_empty s ≡ true → s ≡ []
is_empty_sound [] h = refl
is_empty_sound (c ∷ s) h = cc

test_sound : (pieces : List Piece) (s : List ℕ) → test pieces s ≡ true → Matches pieces s
unfolding test Matches
test_sound [] s h = is_empty_sound s h
test_sound (literal a ∷ pieces) s h =
    let (t, starts, k) = literal_then_sound a (test pieces) s h in
    (t, starts, test_sound pieces t k)
test_sound (optional a ∷ pieces) s h = elim (Bool-cases (test pieces s)) [
  | inl absent ↦ inl (test_sound pieces s absent)
  | inr here ↦
      let (t, starts, k) = literal_then_sound a (test pieces) s (ground (arith, h, here)) in
      inr (t, starts, test_sound pieces t k)
]
test_sound (shallow ∷ pieces) s h =
    let (u, v, split, all, k) = run_while_sound not_slash (test pieces) s h in
    (u, v, split, all, test_sound pieces v k)
test_sound (deep ∷ pieces) s h =
    let (u, v, split, all, k) = run_while_sound dot (test pieces) s h in
    (u, v, split, all, test_sound pieces v k)

pub test_complete : (pieces : List Piece) (s : List ℕ) → Matches pieces s → test pieces s ≡ true
unfolding test Matches
test_complete [] s m = rw m refl
test_complete (literal a ∷ pieces) s (t, starts, k) =
    rw starts (literal_then_complete a (test pieces) t (test_complete pieces t k))
test_complete (optional a ∷ pieces) s (inl k) = ground (arith, test_complete pieces s k)
test_complete (optional a ∷ pieces) s (inr (t, starts, k)) =
    let later : literal_then a (test pieces) s ≡ true =
      rw starts (literal_then_complete a (test pieces) t (test_complete pieces t k)) in
    ground (arith, later)
test_complete (shallow ∷ pieces) s (u, v, split, all, k) =
    rw split (run_while_complete not_slash (test pieces) u v all (test_complete pieces v k))
test_complete (deep ∷ pieces) s (u, v, split, all, k) =
    rw split (run_while_complete dot (test pieces) u v all (test_complete pieces v k))

-- The test of the regular expression says exactly whether the text is in the language of the pieces.
pub test_iff : (pieces : List Piece) (s : List ℕ) → (test pieces s ≡ true) ↔ Matches pieces s
test_iff pieces s = (test_sound pieces s, test_complete pieces s)

-- The pieces of a pattern, where it makes a regular expression, stand for the path.
abbrev pub MatchesParsed : Result GlobError (List Piece) → List ℕ → Type 0
MatchesParsed (err thrown) s = ⊥
MatchesParsed (ok pieces) s = Matches pieces s

test_parsed_iff :
    (parsed : Result GlobError (List Piece)) (s : List ℕ)
    → (test_parsed parsed s ≡ ok true) ↔ MatchesParsed parsed s
test_parsed_iff (err thrown) s = (λ h. cc, λ m. elim m [ ])
test_parsed_iff (ok pieces) s =
    (λ h. test_sound pieces s (ground (arith, h)), λ m. ap ok (test_complete pieces s m))

-- A pattern matches a path exactly where its pieces stand for the path: a literal for itself, a literal with
-- a question mark also for nothing, a single star for any text without a slash, a double one for any text
-- without a line terminator; backslashes count as slashes in both.
pub match_glob-pieces :
    (path pattern : List ℕ)
    → (match_glob path pattern ≡ ok true)
      ↔ MatchesParsed (pieces_of (forward_slashes pattern) no_atom) (forward_slashes path)
unfolding match_glob
match_glob-pieces path pattern =
    test_parsed_iff (pieces_of (forward_slashes pattern) no_atom) (forward_slashes path)
