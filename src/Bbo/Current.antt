-- ===== src/Bbo/Current.antt =====
-- The publisher's last update against the queues at the top of the book.
use c_order_book.Prelude.{
  ℕ, ◌^◌, ◌<◌, ◌≤◌, ◌≡◌, refl, Bool, true, false, Bool-cases, inl, inr, ◌&&◌, leb, ◌==◌, arith,
}
use c_order_book.Prelude.Int.{ℤ, pos, negsuc, ◌+ℤ◌, ◌≤ℤ◌, eq_ℤ, leb_ℤ, eq_of_parts, int_laws}
use c_order_book.Prelude.Word.{add64}
use c_order_book.Book.State.{Book}
use c_order_book.Bitmap.{npos}
use c_order_book.Book.Engine.{best_bid, best_ask, level_qty}
use c_order_book.Book.Queue.{total}
use c_order_book.Book.Valid.{View, IsBook, bid_at, ask_at, price_of, tick-price}
use c_order_book.Bbo.{BboUpdate, on_message_applied, snapshot, unchanged, shown_qty}
use c_order_book.Bbo.Feed.{applied, Session, step, counted-last}

equal : (a b : ℤ) → eq_ℤ a b ≡ true → b ≡ a
equal a b h = eq_of_parts b a (grind arith)

all_equal :
    (a b c d e f g h : ℤ)
    → (eq_ℤ a b && (eq_ℤ c d && (eq_ℤ e f && eq_ℤ g h))) ≡ true
    → (b ≡ a) × (d ≡ c) × (f ≡ e) × (h ≡ g)
all_equal a b c d e f g h k = (
  equal a b (ground arith),
  equal c d (ground arith),
  equal e f (ground arith),
  equal g h (ground arith),
)

module _ (num_ticks : ℕ) where
  -- An update shows the best prices of a book and the lots at them, -1 and none for an empty side.
  abbrev Shows : BboUpdate → Book → Type 0
  Shows u b =
      (u.bid_px ≡ best_bid b)
      × (u.ask_px ≡ best_ask num_ticks b)
      × (u.bid_qty ≡ shown_qty num_ticks (best_bid b) b)
      × (u.ask_qty ≡ shown_qty num_ticks (best_ask num_ticks b) b)

  unchanged-Shows : (u : BboUpdate) (b : Book) → unchanged num_ticks u b ≡ true → Shows u b
  unfolding unchanged
  unchanged-Shows u b h = all_equal _ _ _ _ _ _ _ _ h

  snapshot-Shows : (n origin : ℕ) (b : Book) → Shows (snapshot num_ticks n origin b) b
  unfolding snapshot
  snapshot-Shows n origin b = (refl, refl, refl, refl)

  shown-Shows :
      (ring_cap origin : ℕ) (b : Book) (s : Session)
      → Shows (step num_ticks ring_cap (applied origin b) s).publisher.last b
  unfolding on_message_applied
  shown-Shows ring_cap origin b s = elim (Bool-cases (unchanged num_ticks s.publisher.last b)) [
    | inl same ↦ rw same (unchanged-Shows s.publisher.last b same)
    | inr other ↦
        rw other (rw ((counted-last _ _).1) (snapshot-Shows (add64 s.publisher.count 1) origin b))
  ]

-- A side of the queues, whose levels with orders are those of `held`: it has none, and -1 and no lots
-- are shown; or no other level is better than `i`, and its price and the lots of its queue are shown.
pub data Top (b : Book) (v : View) (held : ℕ → Bool) (better : ℕ → ℕ → Bool) : ℤ → ℤ → Type 0 where
  nobody : ((i : ℕ) → held i ≡ false) → Top b v held better (negsuc 0) (pos 0)
  best :
      (i : ℕ)
      → held i ≡ true
      → ((j : ℕ) → held j ≡ true → better i j ≡ true)
      → Top b v held better (b.base +ℤ pos i) (total (v.queue i))

abbrev pub higher : ℕ → ℕ → Bool
higher i j = leb j i

abbrev pub lower : ℕ → ℕ → Bool
lower i j = leb i j

above_base : (z : ℤ) (i : ℕ) → pos 0 ≤ℤ z → leb_ℤ (pos 0) (z +ℤ pos i) ≡ true
above_base z i h = let more : pos 0 ≤ℤ z +ℤ pos i = omega int_laws in ground (arith, more)

module _ {num_ticks pool_cap : ℕ} (small : num_ticks ≤ 2 ^ 64) {b : Book} (v : View)
    (w : IsBook num_ticks pool_cap b v) (based : pos 0 ≤ℤ b.base) where
  shown_qty-total :
      (i : ℕ) → i < num_ticks → shown_qty num_ticks (price_of b i) b ≡ total (v.queue i)
  unfolding shown_qty level_qty
  shown_qty-total i h =
      rw (above_base b.base i based, tick-price b.base i (omega (arith, h, small)), w.stored.sum i)
        (ground (arith, h))

  nothing_shown : shown_qty num_ticks (negsuc 0) b ≡ pos 0
  unfolding shown_qty
  nothing_shown = refl

  best_bid-Top : Top b v (bid_at v) higher (best_bid b) (shown_qty num_ticks (best_bid b) b)
  unfolding best_bid
  best_bid-Top =
      let t = w.top in
      elim (Bool-cases (b.best_bid == npos)) [
        | inl none_held ↦
            rw (none_held, nothing_shown)
              (nobody (λ i. elim (Bool-cases (bid_at v i)) [
                | inl h ↦ absurd ((t.bid_top i h).0 (ground (arith, none_held)))
                | inr h ↦ h
              ]))
        | inr some_held ↦
            let h = t.bid_best (λ e. ground (arith, some_held, e)) in
            rw (some_held, shown_qty-total b.best_bid (t.bid_inside b.best_bid h))
              (best b.best_bid h (λ j k. ground (arith, (t.bid_top j k).1)))
      ]

  best_ask-Top :
      Top b v (ask_at v) lower (best_ask num_ticks b) (shown_qty num_ticks (best_ask num_ticks b) b)
  unfolding best_ask
  best_ask-Top =
      let t = w.top in
      elim (Bool-cases (leb num_ticks b.best_ask)) [
        | inl none_held ↦
            rw (none_held, nothing_shown)
              (nobody (λ i. elim (Bool-cases (ask_at v i)) [
                | inl h ↦ absurd (ground (arith, none_held, t.ask_top i h, t.ask_inside i h))
                | inr h ↦ h
              ]))
        | inr some_held ↦
            let inside : b.best_ask < num_ticks = ground (arith, some_held) in
            rw (some_held, shown_qty-total b.best_ask inside)
              (best b.best_ask (t.ask_best inside) (λ j k. ground (arith, t.ask_top j k)))
      ]

  -- In a well-formed book of at most 2 ^ 64 levels and with a base that is not negative: after every
  -- applied message the publisher's last update shows the highest price at which bids are queued and
  -- the visible lots of that queue, and the lowest price at which asks are queued and the visible lots
  -- of that queue, with -1 and no lots for a side without orders; whether the update was pushed,
  -- dropped or not needed.
  pub last_update_is_current :
      (ring_cap origin : ℕ) (s : Session)
      → let u = (step num_ticks ring_cap (applied origin b) s).publisher.last in
        Top b v (bid_at v) higher u.bid_px u.bid_qty × Top b v (ask_at v) lower u.ask_px u.ask_qty
  last_update_is_current ring_cap origin s =
      let (e1, e2, e3, e4) = shown-Shows num_ticks ring_cap origin b s in
      rw (e1, e2, e3, e4) (best_bid-Top, best_ask-Top)
