-- ===== src/Outbox/Buffer.antt =====
-- What the loops of packages/core/src/outbox.ts do to the buffer and the keys.
use agent_phonon.Base.{
  ℕ, ◌≤◌, ◌≡◌, ◌≢◌, refl, Bool, true, false, List, [], ◌∷◌, ◌++◌, if◌then◌else◌, arith, ◌||◌, ◌&&◌,
  not, ◌==◌, leb, List-cases, inl, inr,
}
use agent_phonon.Js.Text.{text_eq}
use agent_phonon.Js.Text.Order.{text_eq_iff}
use agent_phonon.Outbox.State.{Buffered, has_key, delete_key}
use agent_phonon.Outbox.{drop_acked, session_items, max_seq}
use agent_phonon.Outbox.Maps.{has_key-delete_key}

unfoldable pub in_buffer : List Buffered → List ℕ → ℕ → Bool
in_buffer [] s n = false
in_buffer (b ∷ buffer) s n = (text_eq b.session_id s && b.seq == n) || in_buffer buffer s n

pub in_buffer-append :
    (xs ys : List Buffered) (s : List ℕ) (n : ℕ)
    → in_buffer (xs ++ ys) s n ≡ (in_buffer xs s n || in_buffer ys s n)
unfolding in_buffer
in_buffer-append [] ys s n = refl
in_buffer-append (x ∷ xs) ys s n = ground (arith, in_buffer-append xs ys s n)

pub has_key-append :
    (xs ys : List (List ℕ × ℕ)) (s : List ℕ) (n : ℕ)
    → has_key (xs ++ ys) s n ≡ (has_key xs s n || has_key ys s n)
unfolding has_key
has_key-append [] ys s n = refl
has_key-append ((t, m) ∷ xs) ys s n = ground (arith, has_key-append xs ys s n)

-- An acknowledgement of `s` up to `e` covers the event.
abbrev pub covers : List ℕ → ℕ → List ℕ → ℕ → Bool
covers s e t n = text_eq s t && leb n e

-- What stays of the buffer, apart from the keys.
unfoldable pub kept : List Buffered → List ℕ → ℕ → List Buffered
kept [] s e = []
kept (b ∷ buffer) s e =
    let rest = kept buffer s e in if covers s e b.session_id b.seq then rest else b ∷ rest

pub drop_acked-kept :
    (buffer : List Buffered) (s : List ℕ) (e : ℕ) (keys : List (List ℕ × ℕ))
    → (drop_acked buffer s e keys).0 ≡ kept buffer s e
unfolding kept drop_acked
drop_acked-kept [] s e keys = refl
drop_acked-kept (b ∷ buffer) s e keys = ground (
  arith,
  text_eq_iff b.session_id s,
  text_eq_iff s b.session_id,
  drop_acked-kept buffer s e keys,
  drop_acked-kept buffer s e (delete_key keys b.session_id b.seq),
)

pub in_buffer-kept :
    (buffer : List Buffered) (s : List ℕ) (e : ℕ) (t : List ℕ) (n : ℕ)
    → in_buffer (kept buffer s e) t n ≡ (in_buffer buffer t n && not (covers s e t n))
unfolding in_buffer kept
in_buffer-kept [] s e t n = refl
in_buffer-kept (b ∷ buffer) s e t n = ground (
  arith,
  text_eq_iff s b.session_id,
  text_eq_iff b.session_id t,
  text_eq_iff s t,
  in_buffer-kept buffer s e t n,
)

pub has_key-drop_acked :
    (buffer : List Buffered) (s : List ℕ) (e : ℕ) (keys : List (List ℕ × ℕ)) (t : List ℕ) (n : ℕ)
    → has_key (drop_acked buffer s e keys).1 t n
      ≡ (has_key keys t n && not (in_buffer buffer t n && covers s e t n))
unfolding in_buffer drop_acked
has_key-drop_acked [] s e keys t n = ground arith
has_key-drop_acked (b ∷ buffer) s e keys t n = ground (
  arith,
  text_eq_iff b.session_id s,
  text_eq_iff b.session_id t,
  text_eq_iff s t,
  has_key-drop_acked buffer s e keys t n,
  has_key-drop_acked buffer s e (delete_key keys b.session_id b.seq) t n,
  has_key-delete_key keys b.session_id b.seq t n,
)

-- The items of a session, and the largest of their sequence numbers.
pub in_buffer-session_items :
    (buffer : List Buffered) (s : List ℕ) (n : ℕ)
    → in_buffer (session_items buffer s) s n ≡ in_buffer buffer s n
unfolding in_buffer session_items
in_buffer-session_items [] s n = refl
in_buffer-session_items (b ∷ buffer) s n = ground (arith, in_buffer-session_items buffer s n)

pub le-max_seq :
    (buffer : List Buffered) (s : List ℕ) (n : ℕ) → in_buffer buffer s n ≡ true → n ≤ max_seq buffer
unfolding in_buffer max_seq
le-max_seq [] s n h = cc
le-max_seq (b ∷ buffer) s n h = ground (arith, le-max_seq buffer s n)

pub max_seq-in_buffer :
    (buffer : List Buffered) (s : List ℕ)
    → session_items buffer s ≢ []
    → in_buffer buffer s (max_seq (session_items buffer s)) ≡ true
unfolding in_buffer session_items max_seq
max_seq-in_buffer [] s h = absurd (h refl)
max_seq-in_buffer (b ∷ buffer) s h = elim (List-cases (session_items buffer s)) [
  | inl none_left ↦ ground arith
  | inr more ↦ ground (arith, max_seq-in_buffer buffer s more)
]
