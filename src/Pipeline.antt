-- ===== src/Pipeline.antt =====
-- bench/pipeline_common.hpp: the sinks of the parser and the gateway in front of the book. A wire
-- struct's fields are those that the sink has passed through `bswap` (see Itch).
pub mod Paths
pub mod Drains
use c_order_book.Prelude.{
  ℕ, zero, suc, ◌+◌, Bool, true, false, Option, none, some, List, [], ◌∷◌, ◌==◌, ltb, if◌then◌else◌,
}
use c_order_book.Prelude.Int.{ℤ, pos, ltb_ℤ}
use c_order_book.Prelude.Word.{update, to_u64, add64}
use c_order_book.SpscRing.{Ring, try_push, try_pop}
use c_order_book.Order.{Side, MsgType, Message}
use c_order_book.Itch.{
  Wire, add_order, order_executed, order_cancel, order_delete, AddOrder, OrderExecuted, OrderCancel,
  OrderDelete,
}
use c_order_book.Book.State.{Book, Cmd}
use c_order_book.Book.Links.{new_book}
use c_order_book.Book.Engine.{new_order, cancel, reduce}

-- `Message m{}`
abbrev pub no_message : Message
no_message = record {
  price = pos 0;
  qty = pos 0;
  id = 0;
  type = MsgType.new_order;
  side = Side.buy;
}

-- The message that each overload of `operator()` builds, in `RingSink` and in `GatewaySink` alike.
abbrev pub of_add : AddOrder → Message
of_add a = record {
  type = MsgType.new_order;
  side = if a.side == 66 then Side.buy else Side.sell;
  price = pos a.price;
  qty = pos a.shares;
  id = a.order_ref;
}

abbrev pub of_executed : OrderExecuted → Message
of_executed e = record no_message {
  type = MsgType.execute;
  qty = pos e.executed_shares;
  id = e.order_ref;
}

abbrev pub of_cancel : OrderCancel → Message
of_cancel x = record no_message {
  type = MsgType.reduce;
  qty = pos x.canceled_shares;
  id = x.order_ref;
}

abbrev pub of_delete : OrderDelete → Message
of_delete d = record no_message { type = MsgType.cancel; id = d.order_ref }

abbrev pub message_of : Wire → Message
message_of (add_order a) = of_add a
message_of (order_executed e) = of_executed e
message_of (order_cancel x) = of_cancel x
message_of (order_delete d) = of_delete d

-- `RingSink::push` spins while the ring is full: one attempt, and `false` for another round.
unfoldable pub ring_sink : (ring_cap : ℕ) → Wire → Ring Message → Bool × Ring Message
ring_sink ring_cap w r = try_push ring_cap (message_of w) r

-- `refs` is as a function of the reference; `refs.size()` is `size`.
pub record Gateway : Type 0 where
  pub book : Book
  pub refs : ℕ → ℕ
  pub size : ℕ
  pub trades : ℕ
  pub traded_lots : ℕ

module _ (num_ticks pool_cap : ℕ) where
  abbrev pub new_gateway : ℤ → ℕ → Gateway
  new_gateway base max_ref = record {
    book = new_book num_ticks pool_cap base;
    refs = λ _. 0;
    size = max_ref + 1;
    trades = 0;
    traded_lots = 0;
  }

  -- the book after a command, with the rest of the gateway
  abbrev pub with_book :
      {A : Type 0} → Gateway → Option (A × Book) → (A → Book → Gateway) → Option Gateway
  with_book g none k = none
  with_book g (some (a, b)) k = some (k a b)

  -- the switch on the message type
  unfoldable pub dispatch : Message → Gateway → Option Gateway
  dispatch m g = elim m.type [
    | MsgType.new_order ↦
        with_book g (new_order num_ticks pool_cap m.side m.price m.qty false g.book)
          (λ eng b. record g { book = b; refs = update g.refs m.id eng })
    | MsgType.execute ↦
        with_book g (reduce num_ticks pool_cap (g.refs m.id) m.qty g.book) (λ filled b. record g {
          book = b;
          trades = add64 g.trades (if ltb_ℤ (pos 0) filled then 1 else 0);
          traded_lots = add64 g.traded_lots (to_u64 filled);
        })
    | MsgType.reduce ↦
        with_book g (reduce num_ticks pool_cap (g.refs m.id) m.qty g.book)
          (λ _ b. record g { book = b })
    | MsgType.cancel ↦
        with_book g (cancel num_ticks pool_cap (g.refs m.id) g.book) (λ _ b. record g { book = b })
  ]

  -- `Gateway::apply`; `none` is undefined behaviour, an index beyond `refs` included
  unfoldable pub gateway_apply : Message → Gateway → Option Gateway
  unfolding dispatch
  gateway_apply m g = if ltb m.id g.size then dispatch m g else none

  -- `GatewaySink`
  unfoldable pub gateway_sink : Wire → Gateway → Option Gateway
  unfolding gateway_apply
  gateway_sink w g = gateway_apply (message_of w) g
