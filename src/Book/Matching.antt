-- ===== src/Book/Matching.antt =====
-- The matching loop against the queues of all levels: price priority, then time priority.
pub mod Lots
pub mod Best
pub mod Loop
pub mod Outcome
pub mod Bounded
pub mod Reach
use c_order_book.Prelude.{ℕ, ◌≤◌, ◌≡◌, Bool, true, false, List, [], ◌++◌, leb}
use c_order_book.Prelude.Int.{ℤ, pos, ◌+ℤ◌, ◌<ℤ◌}
use c_order_book.Order.{Side, Trade}
use c_order_book.Book.Valid.{View, bid_at, ask_at}
use c_order_book.Book.Unlink.{requeued}
use c_order_book.Book.Fills.{Filled, fill_queue, give_back}

-- whether level `i` holds orders that a taker on the side could meet
abbrev pub makers_at : Side → View → ℕ → Bool
makers_at Side.buy v i = ask_at v i
makers_at Side.sell v i = bid_at v i

-- whether `i` is as good for the taker as `j`, or better
abbrev pub as_good : Side → ℕ → ℕ → Bool
as_good Side.buy i j = leb i j
as_good Side.sell i j = leb j i

-- The best level that holds makers.
abbrev pub IsBest : Side → View → ℕ → Type 0
IsBest taker v i =
    (makers_at taker v i ≡ true) × ((j : ℕ) → makers_at taker v j ≡ true → as_good taker i j ≡ true)

-- The view after the level `i` was filled with the outcome `r`.
abbrev pub filled_view : View → ℕ → Filled → View
filled_view v i r = requeued v i (r.left ++ r.reloaded) (give_back r.retired v.free)

-- A taker with a limit at level `limit` meets the makers level by level: always at the best level, as
-- long as it has lots and that level is as good as its limit. The lots, the orders and the free slots
-- before and after, and the trades between.
pub data Matched (base : ℤ) (taker : Side) (limit : ℕ)
    : View → ℤ → List Trade → View → ℤ → Type 0 where
  stops :
      {v : View} {q : ℤ}
      → (pos 0 <ℤ q → (j : ℕ) → makers_at taker v j ≡ true → as_good taker j limit ≡ false)
      → Matched base taker limit v q [] v q
  takes :
      {v v2 : View} {q left : ℤ} {ts : List Trade} (i : ℕ)
      → pos 0 <ℤ q
      → IsBest taker v i
      → as_good taker i limit ≡ true
      → Matched base taker limit
          (filled_view v i (fill_queue (base +ℤ pos i) (v.queue i) q))
          (fill_queue (base +ℤ pos i) (v.queue i) q).open_lots
          ts
          v2
          left
      → Matched base taker limit v q
          ((fill_queue (base +ℤ pos i) (v.queue i) q).trades ++ ts)
          v2
          left
