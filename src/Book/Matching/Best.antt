-- ===== src/Book/Matching/Best.antt =====
-- The cached best price of a side is the level that a taker meets first.
use c_order_book.Prelude.{ℕ, ◌<◌, ◌≡◌, refl, true, false, not, arith}
use c_order_book.Order.{Side, is_buy}
use c_order_book.Book.State.{Book}
use c_order_book.Book.Engine.{crosses, far_best, opposite}
use c_order_book.Book.Top.{IsTop}
use c_order_book.Book.Valid.{View, bid_at, ask_at, occupied}
use c_order_book.Book.Fills.Kept.{best_of}
use c_order_book.Book.Matching.{makers_at, as_good, IsBest}

module _ {num_ticks : ℕ} {b : Book} (v : View) (t : IsTop num_ticks b (bid_at v) (ask_at v))
    (limit : ℕ) (inside : limit < num_ticks) where
  pub far_best-IsBest :
      (taker : Side) → crosses taker limit b ≡ true → IsBest taker v (far_best taker b)
  far_best-IsBest Side.buy h =
      (t.ask_best (ground (arith, h, inside)), λ j k. ground (arith, t.ask_top j k))
  far_best-IsBest Side.sell h =
      (t.bid_best (ground (arith, h)), λ j k. ground (arith, t.bid_top j k))

  pub far_best-as_good :
      (taker : Side) → crosses taker limit b ≡ true → as_good taker (far_best taker b) limit ≡ true
  far_best-as_good Side.buy h = h
  far_best-as_good Side.sell h = ground (arith, h)

  pub crosses-nobody :
      (taker : Side)
      → crosses taker limit b ≡ false
      → (j : ℕ) → makers_at taker v j ≡ true
      → as_good taker j limit ≡ false
  crosses-nobody Side.buy h j k = ground (arith, h, t.ask_top j k)
  crosses-nobody Side.sell h j k = ground (arith, h, t.bid_top j k)

-- The level of the makers that a taker meets is on the opposite side.
pub makers_at-opposite :
    (taker : Side) (v : View) (i : ℕ) → makers_at taker v i ≡ true → v.side i ≡ opposite taker
makers_at-opposite taker v i h = from taker (v.side i) (is taker h)
  where
    is : (s : Side) → makers_at s v i ≡ true → is_buy (v.side i) ≡ not (is_buy s)
    is Side.buy h = ground (arith, h)
    is Side.sell h = ground (arith, h)

    from : (s d : Side) → is_buy d ≡ not (is_buy s) → d ≡ opposite s
    from Side.buy Side.sell h = refl
    from Side.sell Side.buy h = refl
    from Side.buy Side.buy h = absurd (ground (arith, h))
    from Side.sell Side.sell h = absurd (ground (arith, h))

pub makers_at-occupied :
    (taker : Side) (v : View) (i : ℕ) → makers_at taker v i ≡ true → occupied (v.queue i) ≡ true
makers_at-occupied Side.buy v i h = ground (arith, h)
makers_at-occupied Side.sell v i h = ground (arith, h)

pub far_best-best_of : (taker : Side) (b : Book) → far_best taker b ≡ best_of (opposite taker) b
far_best-best_of Side.buy b = refl
far_best-best_of Side.sell b = refl
