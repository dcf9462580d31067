-- ===== src/Tests/LoopRuns.antt =====
-- The strategy at an update with both sides of the book, and a workload.
use c_order_book.Prelude.{◌≡◌, refl, List, ◌++◌, length, arith}
use c_order_book.Prelude.Int.{pos}
use c_order_book.Order.{Side, Message}
use c_order_book.Bbo.{BboUpdate}
use c_order_book.Risk.{new_gateway}
use c_order_book.Loop.{Strategy, new_strategy, on_update}
use c_order_book.Loop.Quotes.{All, IsQuote, Counted, on_update-Counted}
use c_order_book.Workload.{make_workload}
use c_order_book.Workload.Sound.{AllSound, make_workload-AllSound}

abbrev update : BboUpdate
update = record {
  bid_px = pos 1010;
  ask_px = pos 1013;
  bid_qty = pos 5;
  ask_qty = pos 7;
  seq = 1;
  origin_tsc = 99;
}

abbrev start : Strategy
start = new_strategy (new_gateway (pos 8) (pos 1000) (pos 1063) (pos 64) 100)

start-Counted : Counted (pos 1000) (pos 1063) start
unfolding new_gateway
start-Counted = record { buys = refl; sells = refl; flat = refl; low = refl; high = refl }

on_update-Counted_example :
    (buys sells : List Message) × ((on_update 4 update 1000 1001 start).0 ≡ buys ++ sells)
    × All (IsQuote Side.buy (pos 1010) (pos 1000) (pos 1063) 99) buys
    × All (IsQuote Side.sell (pos 1013) (pos 1000) (pos 1063) 99) sells
    × Counted (pos 1000) (pos 1063) (on_update 4 update 1000 1001 start).1
on_update-Counted_example =
    on_update-Counted 4 (pos 1000) (pos 1063) (omega arith) update 1000 1001 start start-Counted

make_workload-AllSound_example :
    (length (make_workload 3 0xBEEF) ≡ 3) × AllSound (make_workload 3 0xBEEF)
make_workload-AllSound_example = make_workload-AllSound 3 0xBEEF
