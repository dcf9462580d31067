-- ===== src/Tests/BookRuns.antt =====
-- Scenarios of tests/test_correctness.cpp on a ladder of 64 ticks from 1000 and an arena of 4.
use c_order_book.Prelude.{
  ℕ, ◌≡◌, refl, Bool, true, false, Option, none, some, List, [], ◌∷◌, ◌*◌, ◌+◌, ◌^◌,
}
use c_order_book.Prelude.Int.{ℤ, pos, negsuc, ◌+ℤ◌, ◌-ℤ◌}
use c_order_book.Prelude.Word.{to_u64, sub64}
use c_order_book.Prelude.Bits.{bit, countr_zero, countl_zero}
use c_order_book.Pool.{new_pool, acquire, release}
use c_order_book.Bitmap.{set, reset, next_set, prev_set}
use c_order_book.Order.{Side, Trade}
use c_order_book.Book.State.{Book, Cmd, pure, ◌>>=◌, ◌>>◌, load_order, store_order, tick}
use c_order_book.Book.Links.{
  new_book, make_id, slot_of, generation_of, release_order, acquire_order, clear_bid, clear_ask,
  level_emptied, unlink_and_release, mark_level, place, rest, rest_iceberg, taker_filled_id,
}
use c_order_book.Book.Sweep.{swept, sweep_level}
use c_order_book.Book.Engine.{new_order, new_iceberg_order, cancel, best_bid, best_ask}

abbrev start : Book
start = new_book 64 4 (pos 1000)

abbrev sell : ℕ → ℕ → Cmd ℕ
sell p q = new_order 64 4 Side.sell (pos p) (pos q) false

abbrev buy : ℕ → ℕ → Cmd ℕ
buy p q = new_order 64 4 Side.buy (pos p) (pos q) false

abbrev id_of : ℕ → ℕ → ℕ
id_of g n = g * 2 ^ 32 + n + 1

abbrev outcome : Option (ℕ × Book) → Option (ℕ × ℤ × ℤ × List Trade)
outcome none = none
outcome (some (id, b)) = some (id, best_bid b, best_ask 64 b, b.trades)

abbrev trade : ℕ → ℕ → ℕ → Trade
trade id px q = record { maker_id = id; taker_id = 0; price = pos px; qty = pos q }

abbrev Bool_code : Bool → ℕ
Bool_code true = 1
Bool_code false = 0

-- price-time priority over two levels, the third maker partly filled
runs_priority :
    outcome ((do sell 1020 10; sell 1020 10; sell 1010 10; buy 1030 25) start)
    ≡ some (
      taker_filled_id,
      negsuc 0,
      pos 1020,
      trade (id_of 1 2) 1010 10 ∷ trade (id_of 1 0) 1020 10 ∷ trade (id_of 1 1) 1020 5 ∷ [],
    )
unfolding new_book new_pool new_order rest place store_order load_order acquire_order acquire tick
    to_u64 sub64 make_id slot_of mark_level set reset next_set prev_set sweep_level release_order
    release swept clear_bid clear_ask best_bid best_ask bit countr_zero countl_zero ◌+ℤ◌ ◌-ℤ◌
runs_priority = refl

-- an iceberg of 12 lots with a clip of 5, behind which a plain order gains priority
runs_iceberg :
    outcome (
      (do new_iceberg_order 64 4 Side.sell (pos 1010) (pos 5) (pos 12); sell 1010 4; buy 1010 11)
        start)
    ≡ some (
      taker_filled_id,
      negsuc 0,
      pos 1010,
      trade (id_of 1 0) 1010 5 ∷ trade (id_of 1 1) 1010 4 ∷ trade (id_of 1 0) 1010 2 ∷ [],
    )
unfolding new_book new_pool new_order new_iceberg_order rest rest_iceberg place store_order
    load_order acquire_order acquire tick to_u64 sub64 make_id slot_of mark_level set reset next_set
    prev_set sweep_level release_order release swept clear_bid clear_ask best_bid best_ask bit
    countr_zero countl_zero ◌+ℤ◌ ◌-ℤ◌
runs_iceberg = refl

-- cancelling the best bid reveals the next one, and a second cancel finds a stale id
runs_cancel :
    outcome (
      (do
        id ← buy 1040 5
        buy 1030 5
        cancel 64 4 id
        again ← cancel 64 4 id
        pure (Bool_code again))
        start)
    ≡ some (0, pos 1030, negsuc 0, [])
unfolding new_book new_pool new_order rest place store_order load_order acquire_order acquire tick
    to_u64 sub64 make_id slot_of generation_of mark_level set reset next_set prev_set sweep_level
    release_order release swept clear_bid clear_ask best_bid best_ask bit countr_zero countl_zero
    ◌+ℤ◌ ◌-ℤ◌ cancel unlink_and_release level_emptied
runs_cancel = refl
