-- ===== src/Advanced.antt =====
-- bench/bench_advanced_orders.cpp: the two checks of the advanced orders, as commands on a new book
-- that answer what the functions return.
use c_order_book.Prelude.{ℕ, ◌+◌, ◌-◌, Bool, true, false, not, ◌&&◌, List, [], ◌∷◌, ◌==◌, some}
use c_order_book.Prelude.Int.{pos, eq_ℤ}
use c_order_book.Order.{Side, Trade}
use c_order_book.Book.State.{Book, Cmd, pure, modify, ◌>>=◌, ◌>>◌}
use c_order_book.Book.Links.{taker_filled_id}
use c_order_book.Book.Engine.{new_order, new_iceberg_order, cancel, best_bid, level_qty}

-- `trades.clear()`
abbrev pub clear_trades : Cmd (Unit {0})
clear_trades = modify (λ b. record b { trades = [] })

-- `trades.size() == 1 && trades[0].maker_id == id && trades[0].qty == qty`
abbrev pub one_trade : (id qty : ℕ) → List Trade → Bool
one_trade id qty [] = false
one_trade id qty (t ∷ []) = t.maker_id == id && eq_ℤ t.qty (pos qty)
one_trade id qty (t ∷ u ∷ ts) = false

abbrev pub no_trades : List Trade → Bool
no_trades [] = true
no_trades (t ∷ ts) = false

-- `id != 0 && id != ~OrderId{0}`
abbrev pub rests : ℕ → Bool
rests id = not (id == 0) && not (id == taker_filled_id)

-- a condition on the book
abbrev pub holds : (Book → Bool) → Cmd Bool
holds p b = some (p b, b)

module _ (num_ticks pool_cap base : ℕ) where
  abbrev pub shows : (price qty : ℕ) → Book → Bool
  shows price qty b = eq_ℤ (level_qty num_ticks (pos price) b) (pos qty)

  abbrev pub order_at : Side → (price qty : ℕ) → Bool → Cmd ℕ
  order_at side price qty post_only =
      new_order num_ticks pool_cap side (pos price) (pos qty) post_only

  unfoldable pub test_iceberg_priority : Cmd Bool
  test_iceberg_priority = do
    let price = base + 500
    ice ← new_iceberg_order num_ticks pool_cap Side.sell (pos price) (pos 10) (pos 30)
    a ← holds (λ b. rests ice && shows price 10 b)
    plain ← order_at Side.sell price 5 false
    c ← holds (λ b. rests plain && shows price 15 b)
    clear_trades
    order_at Side.buy price 10 false
    d ← holds (λ b. one_trade ice 10 b.trades && shows price 15 b)
    clear_trades
    order_at Side.buy price 5 false
    e ← holds (λ b. one_trade plain 5 b.trades && shows price 10 b)
    dead ← cancel num_ticks pool_cap plain
    clear_trades
    order_at Side.buy price 3 false
    f ← holds (λ b. one_trade ice 3 b.trades && shows price 7 b)
    pure (a && (c && (d && (e && (not dead && f)))))

  unfoldable pub test_post_only : Cmd Bool
  test_post_only = do
    let ask = base + 1000
    resting_ask ← order_at Side.sell ask 20 false
    cross_at ← order_at Side.buy ask 5 true
    a ← holds (λ b. cross_at == 0 && (no_trades b.trades && shows ask 20 b))
    cross_thru ← order_at Side.buy (ask + 50) 5 true
    c ← holds (λ b. cross_thru == 0 && (no_trades b.trades && shows ask 20 b))
    maker ← order_at Side.buy (ask - 100) 7 true
    d ← holds (λ b.
        rests maker
        && (no_trades b.trades && (eq_ℤ (best_bid b) (pos (ask - 100)) && shows (ask - 100) 7 b)))
    clear_trades
    taker ← order_at Side.buy ask 5 false
    e ← holds (λ b. taker == taker_filled_id && one_trade resting_ask 5 b.trades)
    pure (not (resting_ask == 0) && (a && (c && (d && e))))
