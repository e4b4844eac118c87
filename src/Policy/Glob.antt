-- ===== src/Policy/Glob.antt =====
-- `matchGlob` of packages/core/src/policy.ts: the regular expression that it makes of a pattern, as a list of
-- its pieces, and whether a path is in the language of that.
use agent_phonon.Base.{
  ℕ, Bool, true, false, not, ◌&&◌, ◌||◌, List, [], ◌∷◌, Result, ok, err, if◌then◌else◌, ◌==◌, map,
}

abbrev pub slash : ℕ
slash = 47

abbrev pub backslash : ℕ
backslash = 92

abbrev pub asterisk : ℕ
asterisk = 42

abbrev pub question_mark : ℕ
question_mark = 63

-- `replace(/\\/g, "/")`.
abbrev pub forward : ℕ → ℕ
forward c = if c == backslash then slash else c

unfoldable pub forward_slashes : List ℕ → List ℕ
forward_slashes = map forward

-- `c`, `c?`, `[^/]*` and `.*`.
pub data Piece : Type 0 where
  literal optional : ℕ → Piece
  shallow deep : Piece

-- What stands before a `?`: nothing it could apply to, a literal, a piece with a quantifier, or one
-- that has been made lazy.
pub data Before : Type 0 where
  no_atom lazy quantified : Before
  atom : ℕ → Before

-- `new RegExp` throws.
pub data GlobError : Type 0 where
  nothing_to_repeat : GlobError

abbrev pub cons_piece : Piece → Result GlobError (List Piece) → Result GlobError (List Piece)
cons_piece p (err thrown) = err thrown
cons_piece p (ok pieces) = ok (p ∷ pieces)

-- The piece of a literal stands as long as it is not known whether a `?` follows.
abbrev pub flush : Before → Result GlobError (List Piece) → Result GlobError (List Piece)
flush no_atom rest = rest
flush lazy rest = rest
flush quantified rest = rest
flush (atom c) rest = cons_piece (literal c) rest

-- What a `?` makes of the piece before it; the two that follow are the rest behind an optional literal and
-- that behind a lazy piece.
abbrev pub repeat_atom :
    Before
    → Result GlobError (List Piece)
    → Result GlobError (List Piece)
    → Result GlobError (List Piece)
repeat_atom no_atom after_optional after_lazy = err nothing_to_repeat
repeat_atom lazy after_optional after_lazy = err nothing_to_repeat
repeat_atom quantified after_optional after_lazy = after_lazy
repeat_atom (atom c) after_optional after_lazy = cons_piece (optional c) after_optional

-- The pieces of a pattern of which the slashes are forward; `**` and the placeholder of the code, U+0000,
-- are `.*`, a `*` is `[^/]*`, all else but `?` is escaped where it has to be.
unfoldable pub pieces_of : List ℕ → Before → Result GlobError (List Piece)
pieces_of [] before = flush before (ok [])
pieces_of (c ∷ []) before =
    let plain = flush before (ok (literal c ∷ [])) in
    if c == asterisk
    then flush before (ok (shallow ∷ []))
    else if c == 0
    then flush before (ok (deep ∷ []))
    else if c == question_mark
    then repeat_atom before (ok []) (ok [])
    else plain
pieces_of (c ∷ d ∷ pattern) before =
    let starred = pieces_of pattern quantified in
    let single = pieces_of (d ∷ pattern) quantified in
    let made_lazy = pieces_of (d ∷ pattern) lazy in
    let plain = pieces_of (d ∷ pattern) (atom c) in
    if c == asterisk
    then (if d == asterisk
        then flush before (cons_piece deep starred)
        else flush before (cons_piece shallow single))
    else if c == 0
    then flush before (cons_piece deep single)
    else if c == question_mark
    then repeat_atom before single made_lazy
    else flush before plain

-- A dot matches no line terminator.
abbrev pub is_line_terminator : ℕ → Bool
is_line_terminator c = c == 10 || c == 13 || c == 8232 || c == 8233

abbrev pub dot : ℕ → Bool
dot c = not (is_line_terminator c)

abbrev pub not_slash : ℕ → Bool
not_slash c = not (c == slash)

-- A piece with a star: the rest has to match behind some run of its characters.
unfoldable pub run_while : (ℕ → Bool) → (List ℕ → Bool) → List ℕ → Bool
run_while p rest [] = rest []
run_while p rest (c ∷ s) = let later = run_while p rest s in rest (c ∷ s) || (p c && later)

abbrev pub literal_then : ℕ → (List ℕ → Bool) → List ℕ → Bool
literal_then a rest [] = false
literal_then a rest (c ∷ s) = a == c && rest s

abbrev pub is_empty : List ℕ → Bool
is_empty [] = true
is_empty (c ∷ s) = false

-- `re.test`, between `^` and `$`.
unfoldable pub test : List Piece → List ℕ → Bool
unfolding run_while
test [] s = is_empty s
test (literal a ∷ pieces) s = literal_then a (test pieces) s
test (optional a ∷ pieces) s = test pieces s || literal_then a (test pieces) s
test (shallow ∷ pieces) s = run_while not_slash (test pieces) s
test (deep ∷ pieces) s = run_while dot (test pieces) s

abbrev pub test_parsed : Result GlobError (List Piece) → List ℕ → Result GlobError Bool
test_parsed (err thrown) s = err thrown
test_parsed (ok pieces) s = ok (test pieces s)

unfoldable pub match_glob : List ℕ → List ℕ → Result GlobError Bool
unfolding pieces_of forward_slashes test
match_glob path pattern =
    test_parsed (pieces_of (forward_slashes pattern) no_atom) (forward_slashes path)
