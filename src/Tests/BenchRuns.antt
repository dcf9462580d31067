-- ===== src/Tests/BenchRuns.antt =====
-- The scripted checks of the benchmarks, at the base of the benchmarks and smaller arenas.
use c_order_book.Prelude.{◌≡◌, refl, Bool, true, Option, none, some}
use c_order_book.Prelude.Int.{pos, ◌+ℤ◌, ◌-ℤ◌, ◌*ℤ◌}
use c_order_book.Prelude.Word.{to_u64, sub64, add64}
use c_order_book.Prelude.Bits.{bit, countr_zero, countl_zero}
use c_order_book.Pool.{new_pool, acquire, release}
use c_order_book.Bitmap.{set, reset, next_set, prev_set}
use c_order_book.SpscRing.{new_ring, try_push, try_pop}
use c_order_book.Book.State.{load_order, store_order, tick}
use c_order_book.Book.Links.{
  new_book, make_id, release_order, acquire_order, clear_bid, clear_ask, mark_level, place, rest,
}
use c_order_book.Book.Sweep.{swept, sweep_level}
use c_order_book.Book.Engine.{new_order, best_bid, best_ask, level_qty}
use c_order_book.Risk.{
  new_gateway, check, accept, verdict, bad_qty, bad_price, bad_position, bad_rate, mask,
  prospective_buy, prospective_sell, on_fill, on_cancel,
}
use c_order_book.RiskBench.{rate_limiter, position_limit}
use c_order_book.Signals.{
  SignalUpdate, new_signals, on_signal_applied, div_ℤ, to_i32, ofi_next, micro, tallied,
  top_untouched,
}
use c_order_book.Bbo.{shown_qty}
use c_order_book.SignalBench.{Scenario, correctness, expect}

runs_rate_limiter : rate_limiter (pos 1000000) 1000 5000 ≡ true
unfolding rate_limiter check accept verdict mask bad_qty bad_price bad_position bad_rate
    prospective_buy prospective_sell new_gateway ◌+ℤ◌ ◌-ℤ◌ ◌*ℤ◌ add64 sub64
runs_rate_limiter = refl

runs_position_limit : position_limit (pos 1000000) ≡ true
unfolding position_limit check accept on_fill on_cancel verdict mask bad_qty bad_price bad_position
    bad_rate prospective_buy prospective_sell new_gateway ◌+ℤ◌ ◌-ℤ◌ ◌*ℤ◌ add64 sub64
runs_position_limit = refl

abbrev no_update : SignalUpdate
no_update = record {
  bid_px = pos 0;
  ask_px = pos 0;
  bid_qty = pos 0;
  ask_qty = pos 0;
  ofi = pos 0;
  micro_px = pos 0;
  seq = 0;
  origin_tsc = 0;
}

abbrev start : Scenario
start = record {
  book = new_book 2048 8 (pos 1000000);
  ring = new_ring (λ _. no_update);
  publisher = new_signals;
  ok = true;
}

abbrev answer : Option Scenario → Option Bool
answer none = none
answer (some s) = some s.ok

runs_correctness : answer (correctness 2048 8 16 (pos 1000000) start) ≡ some true
unfolding correctness expect new_book new_pool new_order rest place store_order load_order
    acquire_order acquire tick to_u64 sub64 add64 make_id mark_level set reset next_set prev_set
    sweep_level release_order release swept clear_bid clear_ask best_bid best_ask level_qty bit
    countr_zero countl_zero ◌+ℤ◌ ◌-ℤ◌ ◌*ℤ◌ try_push try_pop on_signal_applied div_ℤ to_i32 ofi_next
    micro tallied top_untouched shown_qty
runs_correctness = refl
