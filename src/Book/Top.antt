-- ===== src/Book/Top.antt =====
-- The two indices and the cached best prices: `p i` and `q i` say that level `i` holds bids or asks.
use c_order_book.Prelude.{
  ℕ, ◌+◌, ◌^◌, ◌≤◌, ◌<◌, ◌≡◌, ◌≢◌, ◌∙◌, sym, Bool, true, false, not, ◌&&◌, ◌||◌, arith, ◌==◌,
  if◌then◌else◌, Bool-cases, inl, inr, List,
}
use c_order_book.Bitmap.{npos, reset, next_set, prev_set}
use c_order_book.Bitmap.Occupied.{
  IsIndex, marked, set-marked, reset-marked, set-IsIndex, reset-IsIndex,
}
use c_order_book.Bitmap.Nearest
use c_order_book.Bitmap.Nearest.{Found, FoundBelow}
use c_order_book.Bitmap.Above.{next_set-Found}
use c_order_book.Bitmap.Below.{prev_set-Found}
use c_order_book.Order.{Side, is_buy, Order, Trade}
use c_order_book.Pool.{Pool}
use c_order_book.Book.State.{Book, PriceLevel}
use c_order_book.Book.Links.{clear_bid, clear_ask, level_emptied, mark_level}
use c_order_book.Book.Sweep.{swept}

-- Membership with one level put in, and with one taken out.
abbrev pub with_level : (ℕ → Bool) → ℕ → ℕ → Bool
with_level p idx i = (idx == i) || p i

abbrev pub without_level : (ℕ → Bool) → ℕ → ℕ → Bool
without_level p idx i = not (idx == i) && p i

-- `b` with the indices and the best prices of `t`.
abbrev pub with_top : Book → Book → Book
with_top t b = record b {
  bids = t.bids;
  asks = t.asks;
  best_bid = t.best_bid;
  best_ask = t.best_ask;
}

module _ (num_ticks : ℕ) where
  pub record IsTop (b : Book) (p q : ℕ → Bool) : Type 0 where
    pub bid_index : IsIndex b.bids
    pub ask_index : IsIndex b.asks
    pub bid_marks : (i : ℕ) → marked b.bids i ≡ p i
    pub ask_marks : (i : ℕ) → marked b.asks i ≡ q i
    pub bid_best : b.best_bid ≢ npos → p b.best_bid ≡ true
    pub bid_top : (i : ℕ) → p i ≡ true → (b.best_bid ≢ npos) × (i ≤ b.best_bid)
    pub ask_best : b.best_ask < num_ticks → q b.best_ask ≡ true
    pub ask_top : (i : ℕ) → q i ≡ true → b.best_ask ≤ i
    pub ask_range : b.best_ask ≤ num_ticks
    pub bid_inside : (i : ℕ) → p i ≡ true → i < num_ticks
    pub ask_inside : (i : ℕ) → q i ≡ true → i < num_ticks

  -- What the rest of the book is does not matter here.
  pub with_top-IsTop :
      {t : Book} {p q : ℕ → Bool} (b : Book) → IsTop t p q → IsTop (with_top t b) p q
  with_top-IsTop b t = record {
    bid_index = t.bid_index;
    ask_index = t.ask_index;
    bid_marks = t.bid_marks;
    ask_marks = t.ask_marks;
    bid_best = t.bid_best;
    bid_top = t.bid_top;
    ask_best = t.ask_best;
    ask_top = t.ask_top;
    ask_range = t.ask_range;
    bid_inside = t.bid_inside;
    ask_inside = t.ask_inside;
  }

  pub others-IsTop :
      {b : Book} {p q : ℕ → Bool} (pool : Pool Order) (levels : ℕ → PriceLevel)
      (generations : ℕ → ℕ) (trades : List Trade)
      → IsTop b p q
      → IsTop
          (record b { pool = pool; levels = levels; generations = generations; trades = trades })
          p
          q
  others-IsTop {b} pool levels generations trades t =
      with_top-IsTop
        (record b { pool = pool; levels = levels; generations = generations; trades = trades }) t

  pub IsTop-ext :
      {b : Book} {p q p2 q2 : ℕ → Bool}
      → ((i : ℕ) → p i ≡ p2 i)
      → ((i : ℕ) → q i ≡ q2 i)
      → IsTop b p q
      → IsTop b p2 q2
  IsTop-ext {b} {p} {q} {p2} {q2} e f t = record {
    bid_index = t.bid_index;
    ask_index = t.ask_index;
    bid_marks = λ i. t.bid_marks i ∙ e i;
    ask_marks = λ i. t.ask_marks i ∙ f i;
    bid_best = λ ne. sym (e _) ∙ t.bid_best ne;
    bid_top = λ i h. t.bid_top i (e i ∙ h);
    ask_best = λ l. sym (f _) ∙ t.ask_best l;
    ask_top = λ i h. t.ask_top i (f i ∙ h);
    ask_range = t.ask_range;
    bid_inside = λ i h. t.bid_inside i (e i ∙ h);
    ask_inside = λ i h. t.ask_inside i (f i ∙ h);
  }

  module _ (small : num_ticks ≤ 2 ^ 18) {b : Book} {p q : ℕ → Bool} (t : IsTop b p q) (idx : ℕ)
      (inside : idx < num_ticks) where
    pub mark_buy-IsTop : IsTop (mark_level Side.buy idx b) (with_level p idx) q
    unfolding mark_level
    mark_buy-IsTop = record {
      bid_index = set-IsIndex idx b.bids (omega arith) t.bid_index;
      ask_index = t.ask_index;
      bid_marks = λ i. ground (arith, set-marked idx i b.bids, t.bid_marks i);
      ask_marks = t.ask_marks;
      bid_best = λ ne. ground (arith, t.bid_best);
      bid_top = λ i h. ground (arith, t.bid_top i);
      ask_best = t.ask_best;
      ask_top = t.ask_top;
      ask_range = t.ask_range;
      bid_inside = λ i h. ground (arith, t.bid_inside i);
      ask_inside = t.ask_inside;
    }

    pub mark_sell-IsTop : IsTop (mark_level Side.sell idx b) p (with_level q idx)
    unfolding mark_level
    mark_sell-IsTop = record {
      bid_index = t.bid_index;
      ask_index = set-IsIndex idx b.asks (omega arith) t.ask_index;
      bid_marks = t.bid_marks;
      ask_marks = λ i. ground (arith, set-marked idx i b.asks, t.ask_marks i);
      bid_best = t.bid_best;
      bid_top = t.bid_top;
      ask_best = λ l. ground (arith, t.ask_best);
      ask_top = λ i h. ground (arith, t.ask_top i);
      ask_range = ground (arith, t.ask_range);
      bid_inside = t.bid_inside;
      ask_inside = λ i h. ground (arith, t.ask_inside i);
    }

    -- The scan from an emptied best bid finds the next one.
    clear_bid-IsTop :
        ((i : ℕ) → p i ≡ true → i ≤ idx) → IsTop (clear_bid idx b) (without_level p idx) q
    unfolding clear_bid
    clear_bid-IsTop top = from (prev_set-Found (reset idx b.bids) index idx (omega arith))
      where
        index : IsIndex (reset idx b.bids)
        index = reset-IsIndex idx b.bids (omega arith) t.bid_index

        marks : (i : ℕ) → marked (reset idx b.bids) i ≡ without_level p idx i
        marks i = ground (arith, reset-marked idx i b.bids, t.bid_marks i)

        from :
            FoundBelow (reset idx b.bids) (idx + 1) (prev_set idx (reset idx b.bids))
            → IsTop
                (record b { bids = reset idx b.bids; best_bid = prev_set idx (reset idx b.bids) })
                (without_level p idx)
                q
        from (Nearest.FoundBelow.at f) = record {
          bid_index = index;
          ask_index = t.ask_index;
          bid_marks = marks;
          ask_marks = t.ask_marks;
          bid_best = λ ne. sym (marks _) ∙ f.holds;
          bid_top =
              λ i h. (λ e. omega (arith, f.below), ground (arith, f.greatest i, marks i, top i));
          ask_best = t.ask_best;
          ask_top = t.ask_top;
          ask_range = t.ask_range;
          bid_inside = λ i h. ground (arith, t.bid_inside i);
          ask_inside = t.ask_inside;
        }
        from (Nearest.FoundBelow.nowhere e f) = record {
          bid_index = index;
          ask_index = t.ask_index;
          bid_marks = marks;
          ask_marks = t.ask_marks;
          bid_best = λ ne. absurd (ne e);
          bid_top = λ i h. absurd (ground (arith, f i, marks i, top i));
          ask_best = t.ask_best;
          ask_top = t.ask_top;
          ask_range = t.ask_range;
          bid_inside = λ i h. ground (arith, t.bid_inside i);
          ask_inside = t.ask_inside;
        }

    clear_ask-IsTop :
        ((i : ℕ) → q i ≡ true → idx ≤ i) → IsTop (clear_ask num_ticks idx b) p (without_level q idx)
    unfolding clear_ask
    clear_ask-IsTop top = from (next_set-Found (reset idx b.asks) index idx num_ticks inside)
      where
        index : IsIndex (reset idx b.asks)
        index = reset-IsIndex idx b.asks (omega arith) t.ask_index

        marks : (i : ℕ) → marked (reset idx b.asks) i ≡ without_level q idx i
        marks i = ground (arith, reset-marked idx i b.asks, t.ask_marks i)

        from :
            Found (reset idx b.asks) idx (next_set num_ticks idx (reset idx b.asks))
            → IsTop (clear_ask num_ticks idx b) p (without_level q idx)
        from (Nearest.Found.at f) =
            let here = sym (marks _) ∙ f.holds in
            let in_range =
              t.ask_inside (next_set num_ticks idx (reset idx b.asks)) (ground (arith, here)) in
            let finite : (next_set num_ticks idx (reset idx b.asks) == npos) ≡ false =
              ground arith in
            rw finite (record {
              bid_index = t.bid_index;
              ask_index = index;
              bid_marks = t.bid_marks;
              ask_marks = marks;
              bid_best = t.bid_best;
              bid_top = t.bid_top;
              ask_best = λ l. here;
              ask_top = λ i h. ground (arith, f.least i, marks i, top i);
              ask_range = omega (arith, in_range);
              bid_inside = t.bid_inside;
              ask_inside = λ i h. ground (arith, t.ask_inside i);
            })
        from (Nearest.Found.nowhere e f) =
            let gone : (next_set num_ticks idx (reset idx b.asks) == npos) ≡ true = ground arith in
            rw gone (record {
              bid_index = t.bid_index;
              ask_index = index;
              bid_marks = t.bid_marks;
              ask_marks = marks;
              bid_best = t.bid_best;
              bid_top = t.bid_top;
              ask_best = λ l. absurd (omega arith);
              ask_top = λ i h. absurd (ground (arith, f i, marks i, top i));
              ask_range = omega arith;
              bid_inside = t.bid_inside;
              ask_inside = λ i h. ground (arith, t.ask_inside i);
            })

    -- A level that has lost its last bid leaves the index, and the best bid stays the greatest.
    pub emptied_buy-IsTop : IsTop (level_emptied num_ticks Side.buy idx b) (without_level p idx) q
    unfolding level_emptied
    emptied_buy-IsTop = elim (Bool-cases (idx == b.best_bid)) [
      | inl best ↦ rw best (clear_bid-IsTop (λ i h. ground (arith, t.bid_top i)))
      | inr other ↦ rw other (record {
        bid_index = reset-IsIndex idx b.bids (omega arith) t.bid_index;
        ask_index = t.ask_index;
        bid_marks = λ i. ground (arith, reset-marked idx i b.bids, t.bid_marks i);
        ask_marks = t.ask_marks;
        bid_best = λ ne. ground (arith, t.bid_best ne);
        bid_top = λ i h. ground (arith, t.bid_top i);
        ask_best = t.ask_best;
        ask_top = t.ask_top;
        ask_range = t.ask_range;
        bid_inside = λ i h. ground (arith, t.bid_inside i);
        ask_inside = t.ask_inside;
      })
    ]

    pub emptied_sell-IsTop : IsTop (level_emptied num_ticks Side.sell idx b) p (without_level q idx)
    unfolding level_emptied
    emptied_sell-IsTop = elim (Bool-cases (idx == b.best_ask)) [
      | inl best ↦ rw best (clear_ask-IsTop (λ i h. ground (arith, t.ask_top i)))
      | inr other ↦ rw other (record {
        bid_index = t.bid_index;
        ask_index = reset-IsIndex idx b.asks (omega arith) t.ask_index;
        bid_marks = t.bid_marks;
        ask_marks = λ i. ground (arith, reset-marked idx i b.asks, t.ask_marks i);
        bid_best = t.bid_best;
        bid_top = t.bid_top;
        ask_best = λ l. ground (arith, t.ask_best l);
        ask_top = λ i h. ground (arith, t.ask_top i);
        ask_range = t.ask_range;
        bid_inside = t.bid_inside;
        ask_inside = λ i h. ground (arith, t.ask_inside i);
      })
    ]

    -- The same after a sweep, which runs at the best level.
    pub swept-buy-IsTop :
        idx ≡ b.best_bid → IsTop (swept num_ticks Side.buy idx b) (without_level p idx) q
    unfolding swept
    swept-buy-IsTop e = clear_bid-IsTop (λ i h. omega (arith, t.bid_top i h))

    pub swept-sell-IsTop :
        idx ≡ b.best_ask → IsTop (swept num_ticks Side.sell idx b) p (without_level q idx)
    unfolding swept
    swept-sell-IsTop e = clear_ask-IsTop (λ i h. omega (arith, t.ask_top i h))

    -- When a level inside the ladder of at most 2 ^ 18 levels loses its last order, on either side,
    -- it leaves the side's index, the cached best of that side is again the extreme one of the levels
    -- left, or none, and the other side is as before.
    pub level_emptied-IsTop :
        (side : Side)
        → IsTop
            (level_emptied num_ticks side idx b)
            (if is_buy side then without_level p idx else p)
            (if is_buy side then q else without_level q idx)
    level_emptied-IsTop Side.buy = emptied_buy-IsTop
    level_emptied-IsTop Side.sell = emptied_sell-IsTop
