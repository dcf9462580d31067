-- ===== src/RiskBench.antt =====
-- bench/bench_risk.cpp: the pre-generated stream of orders, and the functional proofs of the rate
-- limiter and of the position limit. `now` is the clock reading, and `win` the window in ticks.
use Prim.Native.Nat.{bit_or}
use c_order_book.Prelude.{ℕ, zero, suc, ◌+◌, ◌/◌, ◌%◌, ◌^◌, Bool, ◌&&◌, ◌==◌, if◌then◌else◌}
use c_order_book.Prelude.Int.{ℤ, pos, ◌+ℤ◌}
use c_order_book.Prelude.Word.{add64}
use c_order_book.Order.{Side}
use c_order_book.Feed.{rng_next}
use c_order_book.Risk.{
  Gateway, new_gateway, check, on_cancel, on_fill, rj_none, rj_position, rj_rate,
}

-- An entry of the tables `sides`, `prices` and `qtys`.
pub record Entry : Type 0 where
  pub side : Side
  pub price : ℤ
  pub qty : ℤ

module _ (base : ℤ) where
  -- the entry of a random number
  unfoldable pub entry_of : ℕ → Entry
  entry_of v = record {
    side = if v % 2 == 1 then Side.buy else Side.sell;
    price = base +ℤ pos (v % 60000);
    qty = pos (1 + v / 2 ^ 8 % 64);
  }

  -- The tables, as functions of the place: entry `n` takes the number after those of the ones before.
  unfoldable pub table : (seed : ℕ) → (n : ℕ) → Entry
  unfolding entry_of
  table seed zero = entry_of (rng_next seed).1
  table seed (suc n) = table (rng_next seed).0 n

  -- the gateway of the measurements, with `depth` 256
  unfoldable pub wide_gateway : Gateway
  wide_gateway = new_gateway (pos 64) base (base +ℤ pos 65535) (pos (2 ^ 60)) 1

  -- `for (i = 0; i < n; ++i) acc |= gw.check(...)`, where `k` is `i & (TAB - 1)`
  unfoldable pub accept_loop : (table : ℕ → Entry) → (now0 n : ℕ) → ℕ × Gateway → ℕ × Gateway
  accept_loop tab now0 zero s = s
  accept_loop tab now0 (suc i) s =
      let (acc, gw) = accept_loop tab now0 i s in
      let e = tab (i % 2 ^ 16) in
      let (rj, gw2) = check 256 e.side e.price e.qty (add64 now0 i) gw in (bit_or acc rj, gw2)

  -- `gwr.check(Side::Buy, BASE + 1, 1, now)`, with the verdict and the gateway after it
  abbrev pub rapid : (now : ℕ) → Gateway → ℕ × Gateway
  rapid now g = check 4 Side.buy (base +ℤ pos 1) (pos 1) now g

  -- the burst of `n` orders: 99 as soon as one of them is refused
  unfoldable pub burst : (t n : ℕ) → ℕ × Gateway → ℕ × Gateway
  burst t zero s = s
  burst t (suc i) s =
      let (fifth, g) = burst t i s in
      let (rj, g2) = rapid (add64 t i) g in ((if rj == 0 then fifth else 99), g2)

  unfoldable pub rate_limiter : (win t : ℕ) → Bool
  unfolding burst
  rate_limiter win t =
      let (fifth, g) =
        burst t 4 (0, new_gateway (pos 64) base (base +ℤ pos 65535) (pos (2 ^ 60)) win) in
      let (over, g2) = rapid (add64 t 4) g in
      let (later, g3) = rapid (add64 (add64 t win) 5) g2 in
      bit_or fifth over == rj_rate && later == rj_none

  -- `gwp.check(Side::Buy, BASE + 1, qty, now)`
  abbrev pub held : (qty now : ℕ) → Gateway → ℕ × Gateway
  held qty now g = check 256 Side.buy (base +ℤ pos 1) (pos qty) now g

  unfoldable pub position_limit : Bool
  position_limit =
      let (a, g1) = held 8 1000 (new_gateway (pos 100) base (base +ℤ pos 65535) (pos 10) 1) in
      let (b, g2) = held 5 2000 g1 in
      let (c, g3) = held 5 3000 (on_cancel Side.buy (pos 8) g2) in
      let (d, g4) = held 6 4000 (on_fill Side.buy (pos 5) g3) in
      a == 0 && (b == rj_position && (c == 0 && d == rj_position))
