-- ===== src/Outbox/Order.antt =====
-- The order of `pending`, packages/core/src/outbox.ts.
use mathlib.Core.List.{Perm}
use mathlib.Core.List.Perm
use agent_phonon.Base.{
  ◌≤◌, ◌≡◌, sym, subst, ◌⊎◌, inl, inr, ◌↔◌, Bool, true, false, List, [], ◌∷◌, map, arith, All,
  Bool-cases,
}
use agent_phonon.Js.Text.{text_lt}
use agent_phonon.Js.Text.Order.{
  text_lt_asymm, text_lt_ne, text_lt_irrefl, text_lt_trans, text_lt_total,
}
use agent_phonon.Store.Outbox.{StreamEvent}
use agent_phonon.Js.Sort.{insert_sorted, sort}
use agent_phonon.Outbox.State.{Buffered, Outbox}
use agent_phonon.Outbox.{buffered_le, pending}
use agent_phonon.Outbox.Invariant.{IsValid, IsLabelled}

module _ {A : Type 0} (le : A → A → Bool) where
  abbrev pub IsSorted : List A → Type 0
  IsSorted [] = Unit {0}
  IsSorted (x ∷ xs) = All (λ y. le x y ≡ true) xs × IsSorted xs

  insert_sorted-Perm : (a : A) (xs : List A) → Perm (insert_sorted le a xs) (a ∷ xs)
  unfolding insert_sorted
  insert_sorted-Perm a [] = Perm.refl (a ∷ [])
  insert_sorted-Perm a (x ∷ xs) = elim (Bool-cases (le a x)) [
    | inl first ↦ rw first (Perm.refl (a ∷ x ∷ xs))
    | inr later ↦ rw later (Perm.trans (Perm.cons x (insert_sorted-Perm a xs)) (Perm.swap a x xs))
  ]

  pub sort-Perm : (xs : List A) → Perm (sort le xs) xs
  unfolding sort
  sort-Perm [] = Perm.refl []
  sort-Perm (x ∷ xs) = Perm.trans (insert_sorted-Perm x (sort le xs)) (Perm.cons x (sort-Perm xs))

  All-insert_sorted :
      (P : A → Type 0) (a : A) (xs : List A) → P a → All P xs → All P (insert_sorted le a xs)
  unfolding insert_sorted
  All-insert_sorted P a [] p h = (p, tt)
  All-insert_sorted P a (x ∷ xs) p h = elim (Bool-cases (le a x)) [
    | inl first ↦ rw first (p, h)
    | inr later ↦ rw later (h.0, All-insert_sorted P a xs p h.1)
  ]

  module _ (trans : (x y z : A) → le x y ≡ true → le y z ≡ true → le x z ≡ true)
      (total : (x y : A) → le x y ≡ false → le y x ≡ true) where
    All-trans :
        (a x : A) (xs : List A)
        → le a x ≡ true
        → All (λ y. le x y ≡ true) xs
        → All (λ y. le a y ≡ true) xs
    All-trans a x [] h k = tt
    All-trans a x (y ∷ xs) h k = (trans a x y h k.0, All-trans a x xs h k.1)

    insert_sorted-IsSorted : (a : A) (xs : List A) → IsSorted xs → IsSorted (insert_sorted le a xs)
    unfolding insert_sorted
    insert_sorted-IsSorted a [] h = (tt, tt)
    insert_sorted-IsSorted a (x ∷ xs) h = elim (Bool-cases (le a x)) [
      | inl first ↦ rw first ((first, All-trans a x xs first h.0), h)
      | inr later ↦ rw later (
        All-insert_sorted (λ y. le x y ≡ true) a xs (total a x later) h.0,
        insert_sorted-IsSorted a xs h.1,
      )
    ]

    pub sort-IsSorted : (xs : List A) → IsSorted (sort le xs)
    unfolding sort
    sort-IsSorted [] = tt
    sort-IsSorted (x ∷ xs) = insert_sorted-IsSorted x (sort le xs) (sort-IsSorted xs)

-- The comparison, as an order of sessions first and numbers second.
buffered_le_iff :
    (x y : Buffered)
    → (buffered_le x y ≡ true) ↔ (
        (text_lt x.session_id y.session_id ≡ true)
        ⊎ ((x.session_id ≡ y.session_id) × (x.seq ≤ y.seq)))
unfolding buffered_le
buffered_le_iff x y = elim (text_lt_total x.session_id y.session_id) [
  | inl lt ↦ (λ h. inl lt, λ h. ground arith)
  | inr (inl e) ↦
      let a = text_lt_irrefl x.session_id in
      let b : text_lt x.session_id y.session_id ≡ false =
        subst (λ t. text_lt x.session_id t ≡ false) e a in
      let c : text_lt y.session_id x.session_id ≡ false =
        subst (λ t. text_lt t x.session_id ≡ false) e a in
      (λ h. inr (e, ground arith), λ h. ground arith)
  | inr (inr gt) ↦
      let b = text_lt_asymm y.session_id x.session_id gt in
      let c = text_lt_ne y.session_id x.session_id gt in
      (λ h. ground arith, λ h. ground (arith, λ (e : x.session_id ≡ y.session_id). c (sym e)))
]

buffered_le_trans :
    (x y z : Buffered) → buffered_le x y ≡ true → buffered_le y z ≡ true → buffered_le x z ≡ true
buffered_le_trans x y z h k = (buffered_le_iff x z).1 (
    ground (
      arith,
      (buffered_le_iff x y).0 h,
      (buffered_le_iff y z).0 k,
      text_lt_trans x.session_id y.session_id z.session_id,
    ))

buffered_le_total : (x y : Buffered) → buffered_le x y ≡ false → buffered_le y x ≡ true
unfolding buffered_le
buffered_le_total x y h = ground arith

-- An event may stand before another: its session id is less, or the ids are the same and its number is
-- not greater.
abbrev pub Precedes : StreamEvent → StreamEvent → Type 0
Precedes a b =
    (text_lt a.session_id b.session_id ≡ true) ⊎ ((a.session_id ≡ b.session_id) × (a.seq ≤ b.seq))

-- Each event may stand before all that follow it.
abbrev pub InOrder : List StreamEvent → Type 0
InOrder [] = Unit
InOrder (e ∷ events) = All (Precedes e) events × InOrder events

labelled-Precedes :
    (a b : Buffered)
    → IsLabelled a
    → IsLabelled b
    → buffered_le a b ≡ true
    → Precedes a.event b.event
labelled-Precedes a b la lb h = elim ((buffered_le_iff a b).0 h) [
  | inl less ↦ inl (rw (sym la.0, sym lb.0) less)
  | inr same ↦ inr (cc (la.0, lb.0, same.0), omega (arith, la.1, lb.1, same.1))
]

All-Precedes :
    (b : Buffered) (xs : List Buffered)
    → IsLabelled b
    → All IsLabelled xs
    → All (λ y. buffered_le b y ≡ true) xs
    → All (Precedes b.event) (map (λ x. x.event) xs)
All-Precedes b [] lb lx h = tt
All-Precedes b (x ∷ xs) lb lx h = (labelled-Precedes b x lb lx.0 h.0, All-Precedes b xs lb lx.1 h.1)

events-InOrder :
    (xs : List Buffered)
    → All IsLabelled xs
    → IsSorted buffered_le xs
    → InOrder (map (λ b. b.event) xs)
events-InOrder [] l h = tt
events-InOrder (x ∷ xs) l h = (All-Precedes x xs l.0 l.1 h.0, events-InOrder xs l.1 h.1)

All-sort : (P : Buffered → Type 0) (xs : List Buffered) → All P xs → All P (sort buffered_le xs)
unfolding sort
All-sort P [] h = tt
All-sort P (x ∷ xs) h =
    All-insert_sorted buffered_le P x (sort buffered_le xs) h.0 (All-sort P xs h.1)

-- `pending` without a request on a valid outbox gives the events of the buffer, each as often as it
-- stands there, ordered by session id and, within a session, by ascending number.
pub pending_all :
    (o : Outbox)
    → IsValid o
    → Perm (pending o []) (map (λ b. b.event) o.buffer) × InOrder (pending o [])
unfolding pending
pending_all o v = (
  Perm.map (λ b. b.event) (sort-Perm buffered_le o.buffer),
  events-InOrder (sort buffered_le o.buffer) (All-sort IsLabelled o.buffer v.labelled)
      (sort-IsSorted buffered_le buffered_le_trans buffered_le_total o.buffer),
)
