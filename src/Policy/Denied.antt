-- ===== src/Policy/Denied.antt =====
-- What the deny patterns of packages/core/src/policy.ts keep out.
use agent_phonon.Base.{
  ℕ, ◌≡◌, ◌≢◌, ◌∙◌, refl, >>=-eq-ok, sym, ap, subst, Bool, true, false, not, ◌&&◌, List, [], ◌∷◌,
  ◌++◌, Option, arith, Result, ok, err, ◌==◌, inl, inr, Bool-cases, ◌≢◌,
}
use agent_phonon.Js.Text.{text_eq}
use agent_phonon.Js.Text.Order.{text_eq_iff}
use agent_phonon.Policy.Glob.{
  backslash, asterisk, question_mark, forward, forward_slashes, cons_piece, flush, pieces_of, dot,
  match_glob, Piece, literal, deep, Before, no_atom, lazy, quantified, atom, GlobError,
}
use agent_phonon.Policy.Language.{every, Matches, MatchesParsed, match_glob-pieces}
use agent_phonon.Policy.Enforcer.{
  denies, assert_not_denied, assert_document_path, includes_text, PolicyEnforcer, PolicyError,
}

-- A character that stands for itself in a pattern.
abbrev pub plain : ℕ → Bool
plain c = not (c == asterisk) && not (c == 0) && not (c == question_mark) && not (c == backslash)

-- `**`, a text, `**`.
abbrev pub around : List ℕ → List ℕ
around text = asterisk ∷ asterisk ∷ (text ++ asterisk ∷ asterisk ∷ [])

unfoldable literals : List ℕ → List Piece
literals [] = deep ∷ []
literals (c ∷ text) = literal c ∷ literals text

pieces_of-plain :
    (c : ℕ) (rest : List ℕ) (before : Before)
    → plain c ≡ true
    → pieces_of (c ∷ rest) before ≡ flush before (pieces_of rest (atom c))
unfolding pieces_of
pieces_of-plain c [] before h = ground (arith, h)
pieces_of-plain c (d ∷ rest) before h = ground (arith, h)

pieces_of-end :
    (before : Before)
    → pieces_of (asterisk ∷ asterisk ∷ []) before ≡ flush before (ok (literals []))
unfolding pieces_of literals
pieces_of-end no_atom = refl
pieces_of-end lazy = refl
pieces_of-end quantified = refl
pieces_of-end (atom c) = refl

pieces_of-text :
    (text : List ℕ) (before : Before)
    → every plain text ≡ true
    → pieces_of (text ++ asterisk ∷ asterisk ∷ []) before ≡ flush before (ok (literals text))
unfolding every literals
pieces_of-text [] before h = pieces_of-end before
pieces_of-text (c ∷ text) before h =
    pieces_of-plain c (text ++ asterisk ∷ asterisk ∷ []) before (ground (arith, h))
    ∙ ap (flush before) (pieces_of-text text (atom c) (ground (arith, h)))

pieces_of-around :
    (text : List ℕ)
    → every plain text ≡ true
    → pieces_of (around text) no_atom ≡ ok (deep ∷ literals text)
unfolding pieces_of
pieces_of-around text h = ap (cons_piece deep) (pieces_of-text text quantified h)

forward_slashes-append :
    (xs ys : List ℕ) → forward_slashes (xs ++ ys) ≡ forward_slashes xs ++ forward_slashes ys
unfolding forward_slashes
forward_slashes-append [] ys = refl
forward_slashes-append (x ∷ xs) ys = ap (λ l. forward x ∷ l) (forward_slashes-append xs ys)

forward_slashes-plain : (text : List ℕ) → every plain text ≡ true → forward_slashes text ≡ text
unfolding forward_slashes every
forward_slashes-plain [] h = refl
forward_slashes-plain (c ∷ text) h =
    let same : forward c ≡ c = ground (arith, h) in
    rw (same, forward_slashes-plain text (ground (arith, h))) refl

forward_slashes-dot : (s : List ℕ) → every dot s ≡ true → every dot (forward_slashes s) ≡ true
unfolding forward_slashes every
forward_slashes-dot [] h = refl
forward_slashes-dot (c ∷ s) h = ground (arith, h, forward_slashes-dot s)

append_nil : (xs : List ℕ) → xs ≡ xs ++ []
append_nil [] = refl
append_nil (x ∷ xs) = ap (λ l. x ∷ l) (append_nil xs)

literals-Matches :
    (text rest : List ℕ) → every dot rest ≡ true → Matches (literals text) (text ++ rest)
unfolding literals Matches
literals-Matches [] rest h = (rest, [], append_nil rest, h, refl)
literals-Matches (c ∷ text) rest h = (text ++ rest, refl, literals-Matches text rest h)

around-forward :
    (text : List ℕ) → every plain text ≡ true → forward_slashes (around text) ≡ around text
unfolding forward_slashes
around-forward text h =
    ap (λ l. asterisk ∷ asterisk ∷ l)
      (forward_slashes-append text (asterisk ∷ asterisk ∷ [])
        ∙ ap (λ l. l ++ asterisk ∷ asterisk ∷ []) (forward_slashes-plain text h))

middle-forward :
    (before text behind : List ℕ)
    → every plain text ≡ true
    → forward_slashes (before ++ (text ++ behind))
      ≡ forward_slashes before ++ (text ++ forward_slashes behind)
middle-forward before text behind h =
    forward_slashes-append before (text ++ behind)
    ∙ ap (λ l. forward_slashes before ++ l)
        (forward_slashes-append text behind
          ∙ ap (λ l. l ++ forward_slashes behind) (forward_slashes-plain text h))

match_glob-around :
    (before text behind : List ℕ)
    → every plain text ≡ true
    → every dot before ≡ true
    → every dot behind ≡ true
    → match_glob (before ++ (text ++ behind)) (around text) ≡ ok true
unfolding Matches
match_glob-around before text behind p b e =
    let found : Matches (deep ∷ literals text)
        (forward_slashes before ++ (text ++ forward_slashes behind)) =
      (
        forward_slashes before,
        text ++ forward_slashes behind,
        refl,
        forward_slashes-dot before b,
        literals-Matches text (forward_slashes behind) (forward_slashes-dot behind e),
      ) in
    let parsed : MatchesParsed (pieces_of (forward_slashes (around text)) no_atom)
        (forward_slashes (before ++ (text ++ behind))) =
      rw (around-forward text p, pieces_of-around text p, middle-forward before text behind p)
        found in
    (match_glob-pieces (before ++ (text ++ behind)) (around text)).1 parsed

denies-ok :
    (matched : Result GlobError Bool) (later : Result PolicyError (Unit {0}))
    → denies matched later ≡ ok tt
    → (matched ≢ ok true) × (later ≡ ok tt)
denies-ok (err thrown) later h = (λ m. cc, cc)
denies-ok (ok true) later h = (λ m. cc, cc)
denies-ok (ok false) later h = (λ m. cc, h)

-- A path that a pattern of the list matches is not let through by the loop.
assert_not_denied-includes :
    (abs pattern : List ℕ) (patterns : List (List ℕ))
    → includes_text patterns pattern ≡ true
    → match_glob abs pattern ≡ ok true
    → assert_not_denied abs patterns ≢ ok tt
unfolding includes_text assert_not_denied
assert_not_denied-includes abs pattern [] h m e = cc
assert_not_denied-includes abs pattern (q ∷ patterns) h m e =
    let (unmatched, later) = denies-ok (match_glob abs q) (assert_not_denied abs patterns) e in
    elim (Bool-cases (text_eq q pattern)) [
      | inl hit ↦
          unmatched
            (subst (λ x. match_glob abs x ≡ ok true) (sym ((text_eq_iff q pattern).0 hit)) m)
      | inr miss ↦ assert_not_denied-includes abs pattern patterns (rw miss at h) m later
    ]

-- Where a text of plain characters stands between two double stars on the deny list, no path that contains
-- the text is let through, be it inside the project, be external documents allowed or not, as long as
-- the path has no line terminator before or behind the text.
pub assert_document_path-denies :
    (e : PolicyEnforcer) (before text behind : List ℕ) (project_root : Option (List ℕ))
    → every plain text ≡ true
    → every dot before ≡ true
    → every dot behind ≡ true
    → includes_text e.policy.deny_path_patterns (around text) ≡ true
    → assert_document_path e (before ++ (text ++ behind)) project_root ≢ ok tt
unfolding assert_document_path
assert_document_path-denies e before text behind project_root p b d h passes =
    let (_, not_denied, _) =
      >>=-eq-ok (assert_not_denied (before ++ (text ++ behind)) e.policy.deny_path_patterns) _
        passes in
    assert_not_denied-includes (before ++ (text ++ behind)) (around text)
      e.policy.deny_path_patterns h (match_glob-around before text behind p b d) not_denied
