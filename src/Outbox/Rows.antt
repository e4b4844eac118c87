-- ===== src/Outbox/Rows.antt =====
-- The rows of packages/core/src/store.ts read as the buffer of packages/core/src/outbox.ts.
use agent_phonon.Base.{ℕ, ◌≡◌, refl, List, [], ◌∷◌, ◌++◌, map, arith, ◌&&◌, not, leb}
use agent_phonon.Js.Text.{text_eq}
use agent_phonon.Js.Text.Order.{text_eq_iff, text_eq_refl}
use agent_phonon.Store.Outbox.{EventRow, is_event, event_exists, delete_events}
use agent_phonon.Outbox.State.{Buffered}
use agent_phonon.Outbox.Buffer.{in_buffer, kept}

abbrev pub to_buffered : EventRow → Buffered
to_buffered r = record { session_id = r.session; seq = r.seq; event = r.payload }

-- The rows of a tenant.
unfoldable pub rows_of : List ℕ → List EventRow → List EventRow
unfolding delete_events
rows_of t = delete_events (λ r. not (text_eq r.tenant t))

pub rows_of-append :
    (t : List ℕ) (xs ys : List EventRow) → rows_of t (xs ++ ys) ≡ rows_of t xs ++ rows_of t ys
unfolding rows_of
rows_of-append t [] ys = refl
rows_of-append t (x ∷ xs) ys = ground (arith, rows_of-append t xs ys)

pub rows_of_own : (t : List ℕ) (r : EventRow) → r.tenant ≡ t → rows_of t (r ∷ []) ≡ r ∷ []
unfolding rows_of
rows_of_own t r e = rw (e, text_eq_refl t)

pub event_exists-rows_of :
    (t : List ℕ) (rows : List EventRow) (s : List ℕ) (n : ℕ)
    → event_exists rows t s n ≡ in_buffer (map to_buffered (rows_of t rows)) s n
unfolding event_exists rows_of in_buffer
event_exists-rows_of t [] s n = refl
event_exists-rows_of t (r ∷ rows) s n = ground (arith, event_exists-rows_of t rows s n)

-- Deleting the acknowledged rows of a session keeps the order of the others.
pub rows_of-delete_events :
    (t : List ℕ) (rows : List EventRow) (s : List ℕ) (e : ℕ)
    → map to_buffered (rows_of t (delete_events (λ r. is_event t s r && leb r.seq e) rows))
      ≡ kept (map to_buffered (rows_of t rows)) s e
unfolding rows_of is_event kept
rows_of-delete_events t [] s e = refl
rows_of-delete_events t (r ∷ rows) s e =
    ground
      (arith, text_eq_iff r.session s, text_eq_iff s r.session, rows_of-delete_events t rows s e)
