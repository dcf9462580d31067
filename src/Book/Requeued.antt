-- ===== src/Book/Requeued.antt =====
-- A level that held orders gets another queue: which levels hold bids and asks then.
use c_order_book.Prelude.{
  ℕ, ◌≡◌, ◌∙◌, ap, sym, refl, true, false, arith, ◌==◌, Bool-cases, inl, inr, List, [], ◌∷◌,
  if◌then◌else◌,
}
use mathlib.Core.Path.{subst}
use c_order_book.Order.{is_buy}
use c_order_book.Book.Queue.{Entry}
use c_order_book.Book.Valid.{View, bid_at, ask_at, occupied}
use c_order_book.Book.Top.{without_level}
use c_order_book.Book.Unlink.{requeued}

module _ (v : View) (idx : ℕ) (q : List Entry) (free : List ℕ) where
  -- a level that holds orders now held orders before
  pub held_before :
      occupied (v.queue idx) ≡ true
      → (i : ℕ) → occupied ((requeued v idx q free).queue i) ≡ true
      → occupied (v.queue i) ≡ true
  held_before held i h = elim (Bool-cases (idx == i)) [
    | inl here ↦
        let same : idx ≡ i = ground (arith, here) in
        sym (ap (λ j. occupied (v.queue j)) same) ∙ held
    | inr there ↦ ground (arith, there, h)
  ]

  -- which levels hold bids and asks, when the level has become empty and when it has not
  pub bids_gone :
      q ≡ []
      → (i : ℕ)
      → (if is_buy (v.side idx) then without_level (bid_at v) idx else bid_at v) i
        ≡ bid_at (requeued v idx q free) i
  bids_gone h i = elim (Bool-cases (idx == i)) [
    | inl here ↦
        let same : idx ≡ i = ground (arith, here) in
        rw h (
          subst
            (λ j.
              (if is_buy (v.side idx) then without_level (bid_at v) idx else bid_at v) j
              ≡ (if idx == j then false else bid_at v j))
            same (ground arith)
          ∙ ground (arith, here))
    | inr there ↦ ground (arith, there)
  ]

  pub asks_gone :
      q ≡ []
      → (i : ℕ)
      → (if is_buy (v.side idx) then ask_at v else without_level (ask_at v) idx) i
        ≡ ask_at (requeued v idx q free) i
  asks_gone h i = elim (Bool-cases (idx == i)) [
    | inl here ↦
        let same : idx ≡ i = ground (arith, here) in
        rw h (
          subst
            (λ j.
              (if is_buy (v.side idx) then ask_at v else without_level (ask_at v) idx) j
              ≡ (if idx == j then false else ask_at v j))
            same (ground arith)
          ∙ ground (arith, here))
    | inr there ↦ ground (arith, there)
  ]

  pub held_after :
      occupied (v.queue idx) ≡ true
      → (r : Entry) (rs : List Entry) → q ≡ r ∷ rs
      → (i : ℕ) → occupied (v.queue i) ≡ occupied ((requeued v idx q free).queue i)
  held_after held r rs h i = elim (Bool-cases (idx == i)) [
    | inl here ↦
        let same : idx ≡ i = ground (arith, here) in
        sym (ap (λ j. occupied (v.queue j)) same) ∙ held ∙ rw (here, h) refl
    | inr there ↦ rw there refl
  ]
