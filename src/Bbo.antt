-- ===== src/Bbo.antt =====
-- include/lob/bbo.hpp: the publisher of the top of the book. The book is an argument of the step and
-- the ring a part of its state, since the publisher reads the one and pushes on the other.
pub mod Feed
pub mod Current
use c_order_book.Prelude.{ℕ, Bool, true, false, ◌&&◌, if◌then◌else◌}
use c_order_book.Prelude.Int.{ℤ, pos, negsuc, leb_ℤ, eq_ℤ}
use c_order_book.Prelude.Word.{add64}
use c_order_book.SpscRing.{Ring, try_push}
use c_order_book.Book.State.{Book}
use c_order_book.Book.Engine.{best_bid, best_ask, level_qty}

pub record BboUpdate : Type 0 where
  pub bid_px : ℤ
  pub ask_px : ℤ
  pub bid_qty : ℤ
  pub ask_qty : ℤ
  pub seq : ℕ
  pub origin_tsc : ℕ

pub record BboPublisher : Type 0 where
  pub last : BboUpdate
  pub count : ℕ
  pub published : ℕ
  pub dropped : ℕ

abbrev pub new_publisher : BboPublisher
new_publisher = record {
  last = record {
    bid_px = negsuc 0;
    ask_px = negsuc 0;
    bid_qty = pos 0;
    ask_qty = pos 0;
    seq = 0;
    origin_tsc = 0;
  };
  count = 0;
  published = 0;
  dropped = 0;
}

-- the counters after the push: `++published_` or `++dropped_`
unfoldable pub counted : Bool → BboPublisher → BboPublisher
counted true p = record p { published = add64 p.published 1 }
counted false p = record p { dropped = add64 p.dropped 1 }

module _ (num_ticks : ℕ) where
  -- `px >= 0 ? book_.level_qty(px) : 0`
  unfoldable pub shown_qty : ℤ → Book → ℤ
  shown_qty px b = if leb_ℤ (pos 0) px then level_qty num_ticks px b else pos 0

  -- the comparison of the book's top with the last update
  unfoldable pub unchanged : BboUpdate → Book → Bool
  unfolding shown_qty
  unchanged u b =
      eq_ℤ (best_bid b) u.bid_px
      && (eq_ℤ (best_ask num_ticks b) u.ask_px
          && (eq_ℤ (shown_qty (best_bid b) b) u.bid_qty
              && eq_ℤ (shown_qty (best_ask num_ticks b) b) u.ask_qty))

  -- the update that is stored and pushed, number `n`
  unfoldable pub snapshot : ℕ → ℕ → Book → BboUpdate
  unfolding shown_qty
  snapshot n origin b = record {
    bid_px = best_bid b;
    ask_px = best_ask num_ticks b;
    bid_qty = shown_qty (best_bid b) b;
    ask_qty = shown_qty (best_ask num_ticks b) b;
    seq = n;
    origin_tsc = origin;
  }

  unfoldable pub on_message_applied :
      (ring_cap : ℕ) → ℕ → Book → BboPublisher → Ring BboUpdate → BboPublisher × Ring BboUpdate
  unfolding unchanged snapshot counted
  on_message_applied ring_cap origin b p r =
      let u = snapshot (add64 p.count 1) origin b in
      let pushed = try_push ring_cap u r in
      if unchanged p.last b
      then (p, r)
      else (counted pushed.0 (record p { last = u; count = add64 p.count 1 }), pushed.1)
