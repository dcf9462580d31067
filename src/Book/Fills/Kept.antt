-- ===== src/Book/Fills/Kept.antt =====
-- A sweep keeps the book well formed.
use c_order_book.Prelude.{
  ℕ, ◌^◌, ◌<◌, ◌≤◌, ◌≡◌, ◌∙◌, ap, sym, refl, true, not, ◌&&◌, arith, ◌==◌, if◌then◌else◌,
  Bool-cases, inl, inr, List, [], ◌∷◌, ◌++◌,
}
use mathlib.Core.Path.{subst}
use c_order_book.Pool.{Cell}
use c_order_book.Order.{Side, Order, is_buy}
use c_order_book.Book.State.{Book, PriceLevel}
use c_order_book.Book.Queue.{Entry}
use c_order_book.Book.Links.{clear_bid, clear_ask}
use c_order_book.Book.Sweep.{swept}
use c_order_book.Book.Top.{
  IsTop, IsTop-ext, others-IsTop, with_top, with_top-IsTop, without_level, swept-buy-IsTop,
  swept-sell-IsTop,
}
use c_order_book.Book.Valid.{View, IsBook, AllGood, bid_at, ask_at, occupied}
use c_order_book.Book.Requeued.{held_before, bids_gone, asks_gone, held_after}
use c_order_book.Book.Unlink.{requeued}
use c_order_book.Book.Unlink.Kept.{tops-IsStored}
use c_order_book.Book.Fills.{Live, put_live, Sweeping}
use c_order_book.Book.Fills.Stored.{Settled, settled, settled-IsStored}

-- the level that a taker meets first, on the makers' side
abbrev pub best_of : Side → Book → ℕ
best_of Side.buy b = b.best_bid
best_of Side.sell b = b.best_ask

swept-with_top :
    (num_ticks : ℕ) (maker : Side) (idx : ℕ) (b : Book)
    → swept num_ticks maker idx b ≡ with_top (swept num_ticks maker idx b) b
unfolding swept clear_bid clear_ask
swept-with_top num_ticks Side.buy idx b = refl
swept-with_top num_ticks Side.sell idx b = refl

module _ {num_ticks pool_cap : ℕ} (small : num_ticks ≤ 2 ^ 18) {b : Book} {v : View}
    (w : IsBook num_ticks pool_cap b v) (idx : ℕ) (held : occupied (v.queue idx) ≡ true)
    {now : Live} {es rl : List Entry} {free : List ℕ} (k : Sweeping pool_cap b v idx now es rl free)
    (c : ℕ → Cell Order) (l : ℕ → PriceLevel) (s : Settled b v idx now (es ++ rl) free c l) where
  abbrev pub later : View
  later = requeued v idx (es ++ rl) free

  abbrev pub plain : Book
  plain = put_live (settled now c l) b

  good_after : (i : ℕ) → AllGood now.generations (later.queue i)
  good_after i = elim (Bool-cases (idx == i)) [
    | inl h ↦ rw h k.good
    | inr h ↦ rw h (k.good_there i (ground (arith, h)))
  ]

  topped-IsBook :
      (t : Book)
      → IsTop num_ticks t (bid_at later) (ask_at later)
      → IsBook num_ticks pool_cap (with_top t plain) later
  topped-IsBook t top = record {
    stored = tops-IsStored t now.generations (settled-IsStored w.stored idx k c l s);
    good = good_after;
    wide = k.wide;
    parity = λ n h. k.parity n h ∙ sym (s.same n);
    top = with_top-IsTop num_ticks plain top;
    uncrossed = λ i j p q.
        w.uncrossed i j (ground (arith, p, held_before v idx (es ++ rl) free held i))
          (ground (arith, q, held_before v idx (es ++ rl) free held j));
  }

  old-IsTop : IsTop num_ticks plain (bid_at v) (ask_at v)
  old-IsTop = others-IsTop num_ticks _ _ _ _ w.top

  pub plain-IsBook :
      (r : Entry) (rs : List Entry) → es ++ rl ≡ r ∷ rs → IsBook num_ticks pool_cap plain later
  plain-IsBook r rs h = topped-IsBook plain (
      IsTop-ext num_ticks
        (λ i. ap (λ t. t && is_buy (v.side i)) (held_after v idx (es ++ rl) free held r rs h i))
        (λ i.
          ap (λ t. t && not (is_buy (v.side i))) (held_after v idx (es ++ rl) free held r rs h i))
        old-IsTop)

  inside : idx < num_ticks
  inside = ground (arith, held, w.top.bid_inside idx, w.top.ask_inside idx)

  swept-IsTop :
      (maker : Side)
      → idx ≡ best_of maker b
      → IsTop num_ticks
          (swept num_ticks maker idx plain)
          (if is_buy maker then without_level (bid_at v) idx else bid_at v)
          (if is_buy maker then ask_at v else without_level (ask_at v) idx)
  swept-IsTop Side.buy e = swept-buy-IsTop num_ticks small old-IsTop idx inside e
  swept-IsTop Side.sell e = swept-sell-IsTop num_ticks small old-IsTop idx inside e

  pub swept-IsBook :
      es ++ rl ≡ []
      → idx ≡ best_of (v.side idx) b
      → IsBook num_ticks pool_cap (swept num_ticks (v.side idx) idx plain) later
  swept-IsBook h e =
      subst (λ t. IsBook num_ticks pool_cap t later)
        (sym (swept-with_top num_ticks (v.side idx) idx plain))
        (topped-IsBook (swept num_ticks (v.side idx) idx plain) (
          IsTop-ext num_ticks (bids_gone v idx (es ++ rl) free h)
            (asks_gone v idx (es ++ rl) free h) (swept-IsTop (v.side idx) e)))
