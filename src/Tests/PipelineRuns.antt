-- ===== src/Tests/PipelineRuns.antt =====
-- The two paths from the parser to the book, for an order that is added and deleted.
use c_order_book.Prelude.{ℕ, ◌≡◌, some, List, [], ◌∷◌, ◌++◌, length, arith}
use c_order_book.Prelude.Int.{pos}
use c_order_book.Order.{Message}
use c_order_book.Itch.{Wire, add_order, order_delete, as_add, as_delete}
use c_order_book.Pipeline.{Gateway, new_gateway, no_message}
use c_order_book.Pipeline.Paths.{
  Turn, produce, consume, turns, opening, direct, Progress, ring_path_follows_direct,
}
use c_order_book.Pipeline.Drains.{alternate, fair_rounds_drain}

abbrev memory : ℕ → ℕ
memory _ = 1

abbrev wires : List Wire
wires =
    add_order (record (as_add memory 0) { side = 66; shares = 5; price = 1003; order_ref = 1 })
    ∷ order_delete (record (as_delete memory 0) { order_ref = 1 })
    ∷ []

abbrev gateway : Gateway
gateway = new_gateway 64 4 (pos 1000) 1

abbrev slots : ℕ → Message
slots _ = no_message

abbrev schedule : List Turn
schedule = produce ∷ produce ∷ consume ∷ consume ∷ []

ring_path_follows_direct_example :
    Progress 64 4 1 wires
      (some gateway)
      (turns 64 4 1 schedule (opening 64 4 1 wires slots gateway))
ring_path_follows_direct_example =
    ring_path_follows_direct 64 4 1 wires slots gateway schedule (omega arith) (omega arith)

-- the second push finds the ring full
abbrev crowded : List Turn
crowded = produce ∷ produce ∷ produce ∷ []

fair_rounds_drain_example :
    (turns 64 4 1 (crowded ++ alternate (length wires)) (opening 64 4 1 wires slots gateway)).engine
    ≡ direct 64 4 1 wires (some gateway)
fair_rounds_drain_example =
    fair_rounds_drain 64 4 1 wires slots gateway crowded (omega arith) (omega arith)
