-- ===== src/Tests/AdvancedRuns.antt =====
-- The checks of the advanced orders, on a ladder of 2048 ticks from 1000 and an arena of 8.
use c_order_book.Prelude.{◌≡◌, refl, Bool, true, Option, none, some}
use c_order_book.Prelude.Int.{pos, ◌+ℤ◌, ◌-ℤ◌}
use c_order_book.Prelude.Word.{to_u64, sub64}
use c_order_book.Prelude.Bits.{bit, countr_zero, countl_zero}
use c_order_book.Pool.{new_pool, acquire, release}
use c_order_book.Bitmap.{set, reset, next_set, prev_set}
use c_order_book.Book.State.{Book, load_order, store_order, tick}
use c_order_book.Book.Links.{
  new_book, make_id, slot_of, generation_of, release_order, acquire_order, clear_bid, clear_ask,
  level_emptied, unlink_and_release, mark_level, place, rest, rest_iceberg,
}
use c_order_book.Book.Sweep.{swept, sweep_level}
use c_order_book.Book.Engine.{new_order, new_iceberg_order, cancel, best_bid, best_ask, level_qty}
use c_order_book.Advanced.{test_iceberg_priority, test_post_only}

abbrev answer : Option (Bool × Book) → Option Bool
answer none = none
answer (some (ok, b)) = some ok

abbrev start : Book
start = new_book 2048 8 (pos 1000)

runs_iceberg : answer (test_iceberg_priority 2048 8 1000 start) ≡ some true
unfolding test_iceberg_priority new_book new_pool new_order new_iceberg_order rest rest_iceberg
    place store_order load_order acquire_order acquire tick to_u64 sub64 make_id slot_of
    generation_of mark_level set reset next_set prev_set sweep_level release_order release swept
    clear_bid clear_ask best_bid best_ask level_qty bit countr_zero countl_zero ◌+ℤ◌ ◌-ℤ◌ cancel
    unlink_and_release level_emptied
runs_iceberg = refl

runs_post_only : answer (test_post_only 2048 8 1000 start) ≡ some true
unfolding test_post_only new_book new_pool new_order rest place store_order load_order acquire_order
    acquire tick to_u64 sub64 make_id slot_of mark_level set reset next_set prev_set sweep_level
    release_order release swept clear_bid clear_ask best_bid best_ask level_qty bit countr_zero
    countl_zero ◌+ℤ◌ ◌-ℤ◌
runs_post_only = refl
