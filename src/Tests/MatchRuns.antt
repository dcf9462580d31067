-- ===== src/Tests/MatchRuns.antt =====
-- Takers against the one order of a book, and a first message.
use c_order_book.Prelude.{ℕ, ◌-◌, ◌^◌, ◌≡◌, ◌<◌, refl, arith, false}
use c_order_book.Prelude.Int.{pos, negsuc, ◌<ℤ◌, ◌≤ℤ◌, ◌+ℤ◌, ◌-ℤ◌}
use c_order_book.Prelude.Word.{to_u64, sub64}
use c_order_book.Order.{Side, MsgType, Message}
use c_order_book.Book.State.{tick, store_order, load_order}
use c_order_book.Book.Links.{new_book, rest, place, acquire_order, mark_level, make_id}
use c_order_book.Pool.{new_pool, acquire}
use c_order_book.Bitmap.{set}
use c_order_book.Book.Engine.{new_order, new_iceberg_order, apply}
use c_order_book.Book.Returns.{Returns}
use c_order_book.Book.Matching.Outcome.{
  Ordered, new_order-Ordered, Accepted, iceberg, new_iceberg_order-Accepted,
}
use c_order_book.Book.Matching.Reach.{Reachable, fresh, Sane, Reachable-Safe}
use c_order_book.Tests.UnlinkRuns.{held, held_view, held-IsBook, ladder}

pub held_base : held.base ≡ pos 1000
unfolding new_book new_pool rest place store_order load_order acquire_order acquire mark_level set
    tick to_u64 sub64 make_id ◌+ℤ◌ ◌-ℤ◌
held_base = refl

near_1003 : negsuc (2 ^ 63 - 1) ≤ℤ pos 1003 -ℤ held.base
unfolding ◌-ℤ◌
near_1003 = rw held_base (omega arith)

far_1003 : pos 1003 -ℤ held.base ≤ℤ pos (2 ^ 63 - 1)
unfolding ◌-ℤ◌
far_1003 = rw held_base (omega arith)

-- an order to sell 7 lots at 1003, where 5 are bid
new_order-Ordered_example :
    Returns
      (Ordered 64 4 held held_view Side.sell (tick (pos 1003) held.base) (pos 7) false)
      (new_order 64 4 Side.sell (pos 1003) (pos 7) false held)
new_order-Ordered_example =
    new_order-Ordered (omega arith) held-IsBook Side.sell (pos 1003) near_1003 far_1003 (pos 7)
      false

in_ladder : tick (pos 1003) held.base < 64
unfolding tick to_u64 ◌-ℤ◌
in_ladder = rw held_base (omega arith)

-- an iceberg to sell 12 lots at 1003 with a clip of 3
new_iceberg_order-Accepted_example :
    Returns
      (Accepted 64 4 held held_view Side.sell
        (tick (pos 1003) held.base)
        (pos 12)
        (iceberg (pos 3)))
      (new_iceberg_order 64 4 Side.sell (pos 1003) (pos 3) (pos 12) held)
new_iceberg_order-Accepted_example =
    new_iceberg_order-Accepted (omega arith) held-IsBook Side.sell (pos 1003) near_1003 far_1003
      (pos 3) (pos 12) (omega arith) (omega arith) in_ladder

abbrev first_message : Message
first_message = record {
  price = pos 1003;
  qty = pos 5;
  id = 0;
  type = MsgType.new_order;
  side = Side.buy;
}

Reachable-Safe_example :
    Sane 64 4 10 ladder
    × ((i : ℕ)
        → (pos 0 ≤ℤ (ladder.levels i).total_qty) × ((ladder.levels i).total_qty <ℤ pos (2 ^ 63)))
    × Returns (λ _ b2. Reachable 64 4 10 (pos 1000) b2) (apply 64 4 first_message ladder)
unfolding new_book ◌-ℤ◌
Reachable-Safe_example =
    Reachable-Safe (omega arith) (omega arith) (pos 1000) (omega arith) fresh first_message
      ((omega arith, omega arith), omega arith)
