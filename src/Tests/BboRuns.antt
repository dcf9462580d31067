-- ===== src/Tests/BboRuns.antt =====
-- The theorems on the publisher at a ring of 2 and a book of 64 ticks from 1000.
use c_order_book.Prelude.{ℕ, ◌+◌, ◌≤◌, ◌≡◌, List, [], ◌∷◌, length, arith}
use c_order_book.Prelude.Int.{pos}
use c_order_book.SpscRing.Queue.{contents}
use c_order_book.Order.{Side}
use c_order_book.Book.State.{Book}
use c_order_book.Book.Links.{new_book, mark_level}
use c_order_book.Bbo.{BboUpdate, new_publisher}
use c_order_book.Bbo.Feed.{
  Event, applied, poll, Session, opening, Ascending, run, step, accepted, no_update_unaccounted,
}
use c_order_book.Bbo.Current.{Top, higher, lower, last_update_is_current}
use c_order_book.Book.Valid.{bid_at, ask_at}
use c_order_book.Tests.UnlinkRuns.{held, held_view, held-IsBook}
use c_order_book.Tests.MatchRuns.{held_base}

abbrev blank_slots : ℕ → BboUpdate
blank_slots i = new_publisher.last

-- a book with a bid level, and the same without
abbrev bid_book : ℕ → Book
bid_book i = mark_level Side.buy i (new_book 64 4 (pos 1000))

-- three changes of the top for a ring of two slots, polled once
abbrev events : List Event
events = applied 7 (bid_book 3) ∷ applied 8 (bid_book 4) ∷ applied 9 (bid_book 5) ∷ poll ∷ []

abbrev end_state : Session
end_state = run 64 2 events (opening blank_slots)

no_update_unaccounted_example :
    Ascending 0 (accepted 2 end_state) end_state.publisher.count
    × (length (accepted 2 end_state) + end_state.publisher.dropped ≡ end_state.publisher.count)
    × (length (contents 2 end_state.ring) ≤ 2)
no_update_unaccounted_example =
    no_update_unaccounted 64 2 blank_slots events (omega arith) (omega arith)

last_update_is_current_example :
    let u = (step 64 2 (applied 7 held) (opening blank_slots)).publisher.last in
    Top held held_view (bid_at held_view) higher u.bid_px u.bid_qty
    × Top held held_view (ask_at held_view) lower u.ask_px u.ask_qty
last_update_is_current_example =
    last_update_is_current (omega arith) held_view held-IsBook (rw held_base (omega arith)) 2 7
      (opening blank_slots)
