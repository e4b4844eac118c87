-- ===== src/Policy/Tests.antt =====
-- Paths and patterns of packages/core/src/policy.ts.
use agent_phonon.Base.{◌≡◌, ◌≢◌, ◌↔◌, refl, true, false, [], ◌∷◌, ◌++◌, some, ok, err, any}
use agent_phonon.Js.Text.{codes, text_eq}
use agent_phonon.Policy.Glob.{match_glob, nothing_to_repeat}
use agent_phonon.Policy.Language.{every}
use agent_phonon.Policy.Patterns.{Fits, has_question_mark, match_glob_iff}
use agent_phonon.Policy.Paths.{is_path_under_roots}
use agent_phonon.Policy.Enforcer.{
  PolicyEnforcer, default_policy, assert_document_path, includes_text,
}
use agent_phonon.Policy.Denied.{assert_document_path-denies}
use agent_phonon.Policy.Segments.{is_prefix, cut, trimmed, is_path_under_roots-segments}

pem : match_glob (codes "/p/a/key.pem") (codes "**/*.pem") ≡ ok true
unfolding match_glob
pem = refl

-- A single star stays within a segment.
star : match_glob (codes "/p/id_rsa/x") (codes "**/id_rsa*") ≡ ok false
unfolding match_glob
star = refl

-- A question mark is not escaped: it makes the character before it optional, and may not come first.
question : match_glob (codes "/p/ab") (codes "/p/abc?") ≡ ok true
unfolding match_glob
question = refl

question_first : match_glob (codes "/p") (codes "?") ≡ err nothing_to_repeat
unfolding match_glob
question_first = refl

-- A line feed in the name of a directory hides a path from the default patterns.
line_feed : match_glob (codes "/p/a" ++ (10 ∷ codes "b/.ssh/id")) (codes "**/.ssh/**") ≡ ok false
unfolding match_glob
line_feed = refl

match_glob_iff_example :
    (match_glob (codes "/p/key.pem") (codes "**/*.pem") ≡ ok true)
    ↔ Fits (codes "**/*.pem") (codes "/p/key.pem")
unfolding has_question_mark
match_glob_iff_example = match_glob_iff (codes "/p/key.pem") (codes "**/*.pem") refl

abbrev enforcer : PolicyEnforcer
enforcer = record {
  policy = record default_policy { allow_external_documents = true };
  workspace_root = codes "/w";
  project_roots = codes "/w" ∷ [];
}

assert_document_path-denies_example :
    assert_document_path enforcer
      (codes "/w/p" ++ (codes "/.ssh/" ++ codes "id"))
      (some (codes "/w/p"))
    ≢ ok tt
unfolding every includes_text text_eq
assert_document_path-denies_example =
    assert_document_path-denies enforcer (codes "/w/p") (codes "/.ssh/") (codes "id")
      (some (codes "/w/p")) refl refl refl refl

is_path_under_roots-segments_example :
    is_path_under_roots (codes "/w/pq") (codes "/w/p/" ∷ [])
    ≡ any (λ root. is_prefix (trimmed (cut root)) (cut (codes "/w/pq"))) (codes "/w/p/" ∷ [])
is_path_under_roots-segments_example =
    is_path_under_roots-segments (codes "/w/pq") (codes "/w/p/" ∷ [])

neighbour : is_path_under_roots (codes "/w/pq") (codes "/w/p/" ∷ []) ≡ false
unfolding is_path_under_roots
neighbour = refl
