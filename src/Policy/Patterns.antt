-- ===== src/Policy/Patterns.antt =====
-- Which paths a deny pattern stands for, read off the pattern itself, and that `matchGlob` of
-- packages/core/src/policy.ts says just that.
use agent_phonon.Base.{
  ℕ, ◌≡◌, refl, ap, sym, ◌∙◌, ◌↔◌, inl, inr, Bool, true, false, not, ◌&&◌, ◌||◌, List, [], ◌∷◌, map,
  ok, arith, Bool-cases, if◌then◌else◌, ◌==◌, subst,
}
use agent_phonon.Policy.Glob.{
  Piece, literal, shallow, deep, Before, no_atom, quantified, atom, flush, pieces_of, forward,
  forward_slashes, dot, not_slash, run_while, literal_then, test, match_glob,
}
use agent_phonon.Policy.Language.{Splits, run_while_sound, run_while_complete}

-- Both slashes count as one.
abbrev pub is_slash : ℕ → Bool
is_slash c = c == 47 || c == 92

-- A character of a pattern that stands for itself.
abbrev pub alike : ℕ → ℕ → Bool
alike a x = a == x || (is_slash a && is_slash x)

-- A character that a single star passes over: no slash.
abbrev pub in_segment : ℕ → Bool
in_segment c = not (is_slash c)

-- A character that a double star passes over: no line feed, carriage return, or Unicode line terminator.
abbrev pub in_line : ℕ → Bool
in_line c = not (c == 10 || c == 13 || c == 8232 || c == 8233)

-- The text is a character with the property and a rest.
abbrev pub Begins : (ℕ → Bool) → (List ℕ → Type 0) → List ℕ → Type 0
Begins p Rest s = (x : ℕ) × (t : List ℕ) × (s ≡ x ∷ t) × (p x ≡ true) × Rest t

-- Two stars in a row stand for any text in one line, and so does U+0000; one star for any text in one segment;
-- every other character for itself.
unfoldable pub Fits : List ℕ → List ℕ → Type 0
Fits [] s = s ≡ []
Fits (c ∷ []) s =
    if c == 42
    then Splits in_segment (λ v. v ≡ []) s
    else if c == 0
    then Splits in_line (λ v. v ≡ []) s
    else Begins (alike c) (λ v. v ≡ []) s
Fits (c ∷ d ∷ pattern) s =
    if c == 42
    then (if d == 42
        then Splits in_line (Fits pattern) s
        else Splits in_segment (Fits (d ∷ pattern)) s)
    else if c == 0
    then Splits in_line (Fits (d ∷ pattern)) s
    else Begins (alike c) (Fits (d ∷ pattern)) s

unfoldable pub has_question_mark : List ℕ → Bool
has_question_mark [] = false
has_question_mark (c ∷ pattern) = c == 63 || has_question_mark pattern

-- The pieces of a pattern that has no question mark.
unfoldable plain_pieces : List ℕ → List Piece
plain_pieces [] = []
plain_pieces (c ∷ []) =
    if c == 42 then shallow ∷ [] else if c == 0 then deep ∷ [] else literal (forward c) ∷ []
plain_pieces (c ∷ d ∷ pattern) =
    let double = plain_pieces pattern in
    let single = plain_pieces (d ∷ pattern) in
    if c == 42
    then (if d == 42 then deep ∷ double else shallow ∷ single)
    else if c == 0
    then deep ∷ single
    else literal (forward c) ∷ single

pieces_of-plain :
    (pattern : List ℕ) (before : Before)
    → has_question_mark pattern ≡ false
    → pieces_of (map forward pattern) before ≡ flush before (ok (plain_pieces pattern))
unfolding pieces_of plain_pieces has_question_mark
pieces_of-plain [] before h = refl
pieces_of-plain (c ∷ []) before h = ground (arith, h)
pieces_of-plain (c ∷ d ∷ pattern) before h = ground (
  arith,
  h,
  pieces_of-plain pattern quantified,
  pieces_of-plain (d ∷ pattern) quantified,
  pieces_of-plain (d ∷ pattern) (atom (forward c)),
)

run_while-segment :
    (rest : List ℕ → Bool) (s : List ℕ)
    → run_while not_slash rest (map forward s) ≡ run_while in_segment (λ v. rest (map forward v)) s
unfolding run_while
run_while-segment rest [] = refl
run_while-segment rest (c ∷ s) =
    let same : not_slash (forward c) ≡ in_segment c = ground arith in
    ap (λ b. rest (forward c ∷ map forward s) || b)
      (ap (λ b. b && run_while not_slash rest (map forward s)) same
        ∙ ap (λ b. in_segment c && b) (run_while-segment rest s))

run_while-line :
    (rest : List ℕ → Bool) (s : List ℕ)
    → run_while dot rest (map forward s) ≡ run_while in_line (λ v. rest (map forward v)) s
unfolding run_while
run_while-line rest [] = refl
run_while-line rest (c ∷ s) =
    let same : dot (forward c) ≡ in_line c = ground arith in
    ap (λ b. rest (forward c ∷ map forward s) || b)
      (ap (λ b. b && run_while dot rest (map forward s)) same
        ∙ ap (λ b. in_line c && b) (run_while-line rest s))

alike-forward : (a x : ℕ) → alike a x ≡ (forward a == forward x)
alike-forward a x = ground arith

shallow_iff :
    (rest : List ℕ → Bool) (Rest : List ℕ → Type 0) (s : List ℕ)
    → ((v : List ℕ) → (rest (map forward v) ≡ true) ↔ Rest v)
    → (run_while not_slash rest (map forward s) ≡ true) ↔ Splits in_segment Rest s
shallow_iff rest Rest s says = (
  λ h.
      let (u, v, split, all, k) =
        run_while_sound in_segment (λ v. rest (map forward v)) s
          (sym (run_while-segment rest s) ∙ h) in
      (u, v, split, all, (says v).0 k),
  λ (u, v, split, all, k).
      run_while-segment rest s
      ∙ subst (λ t. run_while in_segment (λ v. rest (map forward v)) t ≡ true) (sym split)
          (run_while_complete in_segment (λ v. rest (map forward v)) u v all ((says v).1 k)),
)

deep_iff :
    (rest : List ℕ → Bool) (Rest : List ℕ → Type 0) (s : List ℕ)
    → ((v : List ℕ) → (rest (map forward v) ≡ true) ↔ Rest v)
    → (run_while dot rest (map forward s) ≡ true) ↔ Splits in_line Rest s
deep_iff rest Rest s says = (
  λ h.
      let (u, v, split, all, k) =
        run_while_sound in_line (λ v. rest (map forward v)) s (sym (run_while-line rest s) ∙ h) in
      (u, v, split, all, (says v).0 k),
  λ (u, v, split, all, k).
      run_while-line rest s
      ∙ subst (λ t. run_while in_line (λ v. rest (map forward v)) t ≡ true) (sym split)
          (run_while_complete in_line (λ v. rest (map forward v)) u v all ((says v).1 k)),
)

both_true : (a b : Bool) → (a && b) ≡ true → (a ≡ true) × (b ≡ true)
both_true a b h = (ground (arith, h), ground (arith, h))

true_both : (a b : Bool) → a ≡ true → b ≡ true → (a && b) ≡ true
true_both a b h k = ground (arith, h, k)

literal_sound :
    (a : ℕ) (rest : List ℕ → Bool) (Rest : List ℕ → Type 0) (s : List ℕ)
    → ((v : List ℕ) → (rest (map forward v) ≡ true) ↔ Rest v)
    → literal_then (forward a) rest (map forward s) ≡ true
    → Begins (alike a) Rest s
literal_sound a rest Rest [] says h = cc
literal_sound a rest Rest (x ∷ t) says h =
    let both = both_true (forward a == forward x) (rest (map forward t)) h in
    (x, t, refl, alike-forward a x ∙ both.0, (says t).0 both.1)

literal_iff :
    (a : ℕ) (rest : List ℕ → Bool) (Rest : List ℕ → Type 0) (s : List ℕ)
    → ((v : List ℕ) → (rest (map forward v) ≡ true) ↔ Rest v)
    → (literal_then (forward a) rest (map forward s) ≡ true) ↔ Begins (alike a) Rest s
literal_iff a rest Rest s says = (
  literal_sound a rest Rest s says,
  λ (x, t, starts, same, k).
      subst (λ u. literal_then (forward a) rest (map forward u) ≡ true) (sym starts)
        (true_both (forward a == forward x) (rest (map forward t)) (sym (alike-forward a x) ∙ same)
          ((says t).1 k)),
)

empty_iff : (v : List ℕ) → (test [] (map forward v) ≡ true) ↔ (v ≡ [])
unfolding test
empty_iff [] = (λ h. refl, λ h. refl)
empty_iff (c ∷ v) = (λ h. cc, λ h. cc)

test-Fits :
    (pattern s : List ℕ) → (test (plain_pieces pattern) (map forward s) ≡ true) ↔ Fits pattern s
unfolding test plain_pieces Fits
test-Fits [] s = empty_iff s
test-Fits (c ∷ []) s = elim (Bool-cases (c == 42)) [
  | inl star ↦ rw star (shallow_iff (test []) (λ v. v ≡ []) s empty_iff)
  | inr other ↦ elim (Bool-cases (c == 0)) [
    | inl zero ↦ rw (other, zero) (deep_iff (test []) (λ v. v ≡ []) s empty_iff)
    | inr plain ↦ rw (other, plain) (literal_iff c (test []) (λ v. v ≡ []) s empty_iff)
  ]
]
test-Fits (c ∷ d ∷ pattern) s =
    let double = test-Fits pattern in
    let single = test-Fits (d ∷ pattern) in
    elim (Bool-cases (c == 42)) [
      | inl star ↦ elim (Bool-cases (d == 42)) [
        | inl twice ↦
            rw (star, twice) (deep_iff (test (plain_pieces pattern)) (Fits pattern) s double)
        | inr once ↦
            rw (star, once)
              (shallow_iff (test (plain_pieces (d ∷ pattern))) (Fits (d ∷ pattern)) s single)
      ]
      | inr other ↦ elim (Bool-cases (c == 0)) [
        | inl zero ↦
            rw (other, zero)
              (deep_iff (test (plain_pieces (d ∷ pattern))) (Fits (d ∷ pattern)) s single)
        | inr plain ↦
            rw (other, plain)
              (literal_iff c (test (plain_pieces (d ∷ pattern))) (Fits (d ∷ pattern)) s single)
      ]
    ]

-- A pattern without a question mark matches a path exactly where the path fits the pattern: two stars in a row,
-- or a U+0000, stand for any text without a line terminator, a single star for any text without a slash or a
-- backslash, every other character for itself, where slash and backslash stand for each other.
pub match_glob_iff :
    (path pattern : List ℕ)
    → has_question_mark pattern ≡ false
    → (match_glob path pattern ≡ ok true) ↔ Fits pattern path
unfolding match_glob forward_slashes
match_glob_iff path pattern h =
    let parsed = pieces_of-plain pattern no_atom h in
    let says = test-Fits pattern path in
    rw parsed (λ m. says.0 (ground (arith, m)), λ f. ap ok (says.1 f))
