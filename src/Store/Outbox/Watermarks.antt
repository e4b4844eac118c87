-- ===== src/Store/Outbox/Watermarks.antt =====
-- The watermarks of the outbox tables, packages/core/src/store.ts.
use agent_phonon.Base.{
  ℕ, max, ◌≡◌, refl, true, List, [], ◌∷◌, Option, none, some, if◌then◌else◌, arith,
}
use agent_phonon.Js.Text.{text_eq}
use agent_phonon.Js.Text.Order.{text_eq_iff, text_eq_refl}
use agent_phonon.Store.Outbox.{AckRow, upsert_ack, ack_of}

-- A watermark raised to `e`.
abbrev pub raised : Option ℕ → ℕ → ℕ
raised none e = e
raised (some a) e = max a e

pub ack_of-upsert_ack :
    (rows : List AckRow) (t s : List ℕ) (e : ℕ) (j : List ℕ)
    → ack_of (upsert_ack rows t s e) t j
      ≡ (if text_eq s j then some (raised (ack_of rows t s) e) else ack_of rows t j)
unfolding ack_of upsert_ack
ack_of-upsert_ack [] t s e j = ground (arith, text_eq_refl t)
ack_of-upsert_ack (r ∷ rows) t s e j = ground (
  arith,
  text_eq_iff r.tenant t,
  text_eq_iff r.session s,
  text_eq_iff r.session j,
  text_eq_iff s j,
  ack_of-upsert_ack rows t s e j,
)

-- At most one row of the tenant for each session.
abbrev pub OneRow : List ℕ → List AckRow → Type 0
OneRow t [] = Unit {0}
OneRow t (r ∷ rows) = (text_eq r.tenant t ≡ true → ack_of rows t r.session ≡ none) × OneRow t rows

pub upsert_ack-OneRow :
    (rows : List AckRow) (t s : List ℕ) (e : ℕ) → OneRow t rows → OneRow t (upsert_ack rows t s e)
unfolding upsert_ack
upsert_ack-OneRow [] t s e one = (λ h. unfold ack_of in refl, tt)
upsert_ack-OneRow (r ∷ rows) t s e one = ground (
  arith,
  text_eq_iff r.tenant t,
  text_eq_iff r.session s,
  text_eq_iff s r.session,
  ack_of-upsert_ack rows t s e r.session,
  upsert_ack-OneRow rows t s e one.1,
)
