-- ===== src/Tests/BookKept.antt =====
-- The theorems on the book at a ladder of 64 ticks from 1000 with an arena of 4.
use c_order_book.Prelude.{refl, arith}
use c_order_book.Prelude.Int.{pos, ◌-ℤ◌, min_ℤ}
use c_order_book.Order.{Side}
use c_order_book.Book.State.{Book}
use c_order_book.Book.Links.{new_book, rest, rest_iceberg}
use c_order_book.Book.Valid.{price_of}
use c_order_book.Book.Fresh.{no_orders, new_book-IsBook}
use c_order_book.Book.Returns.{Returns}
use c_order_book.Book.Rest.Outcome.{Rests, rest-Rests, rest_iceberg-Rests}

abbrev ladder : Book
ladder = new_book 64 4 (pos 1000)

-- an order to buy 5 lots at 1003
rest-Rests_example :
    Returns
      (Rests 64 4 ladder (no_orders 4) Side.buy 3 (pos 5) (pos 0) (pos 0))
      (rest Side.buy 3 (price_of ladder 3) (pos 5) ladder)
unfolding new_book
rest-Rests_example =
    rest-Rests (omega arith) (new_book-IsBook 64 4 (pos 1000)) Side.buy 3 (omega arith) refl (pos 5)
      (omega arith)

-- an order to sell 12 lots at 1003 with a clip of 5
rest_iceberg-Rests_example :
    Returns
      (Rests 64 4 ladder
        (no_orders 4)
        Side.sell
        3
        (min_ℤ (pos 5) (pos 12))
        (pos 5)
        (pos 12 -ℤ min_ℤ (pos 5) (pos 12)))
      (rest_iceberg Side.sell 3 (price_of ladder 3) (pos 5) (pos 12) ladder)
unfolding new_book
rest_iceberg-Rests_example =
    rest_iceberg-Rests (omega arith) (new_book-IsBook 64 4 (pos 1000)) Side.sell 3 (omega arith)
      refl (pos 5) (pos 12) (omega arith) (omega arith)
