-- ===== src/Loop/Engine.antt =====
-- The engine thread: its loop over the order ring and the arena ring.
use c_order_book.Prelude.{ℕ, zero, suc, ◌+◌, ◌%◌, ◌^◌, Option, none, some}
use c_order_book.Prelude.Word.{update, sub64}
use c_order_book.Order.{Message}
use c_order_book.Itch.{Wire, next, load_be}
use c_order_book.SpscRing.{Ring, try_pop}
use c_order_book.ArenaRing.{ArenaRing, try_front, release}
use c_order_book.Bbo.{BboUpdate, BboPublisher, on_message_applied}
use c_order_book.Book.State.{Book}
use c_order_book.Pipeline.{Gateway, gateway_sink}
use c_order_book.Loop.{QuoteDesk, desk_apply}

pub record Engine : Type 0 where
  pub done : ℕ
  pub n_t2t : ℕ
  pub t2t : ℕ → ℕ
  pub gw : Gateway
  pub desk : QuoteDesk
  pub bbo : BboPublisher
  pub g_orders : Ring Message
  pub g_arena : ArenaRing (ℕ → ℕ)
  pub g_bbo : Ring BboUpdate

-- The capacities of the rings are `ord_cap`, `arena_cap` and `bbo_cap`.
module _ (num_ticks pool_cap ord_cap arena_cap bbo_cap : ℕ) where
  abbrev desked : Option (QuoteDesk × Book) → Engine → Option Engine
  desked none e = none
  desked (some (d, b)) e = some (record e { desk = d; gw = record (e.gw) { book = b } })

  -- The desk applies a message, which is then timed at `now`.
  abbrev pub timed : (now : ℕ) → Message → Engine → Option Engine
  timed now q e = elim (desked (desk_apply num_ticks pool_cap q e.desk e.gw.book) e) [
    | none ↦ none
    | some e2 ↦
        some
          (record e2 { t2t = update e.t2t e.n_t2t (sub64 now q.id % 2 ^ 32); n_t2t = e.n_t2t + 1 })
  ]

  -- priority 1: the firm's own orders
  unfoldable pub own_orders : (now : ℕ) → Engine → Option Engine
  own_orders now e =
      let (got, r) = try_pop ord_cap e.g_orders in
      elim got [
        | none ↦ some (record e { g_orders = r })
        | some q ↦ timed now q (record e { g_orders = r })
      ]

  -- The publisher compares the top of the book with its last update, and a frame is done.
  abbrev pub published : (origin : ℕ) → Engine → Engine
  published origin e =
      let out = on_message_applied num_ticks bbo_cap origin e.gw.book e.bbo e.g_bbo in
      record e { bbo = out.0; g_bbo = out.1; done = e.done + 1 }

  -- `one.next(GatewaySink{gw})`: a frame that is no message changes nothing
  abbrev pub sunk : Option (Wire × ℕ) → Gateway → Option Gateway
  sunk none gw = some gw
  sunk (some (w, c)) gw = gateway_sink num_ticks pool_cap w gw

  abbrev pub then_published : (origin : ℕ) → Option Gateway → Engine → Option Engine
  then_published origin none e = none
  then_published origin (some gw) e =
      some (published origin (record e { gw = gw; g_arena = release e.g_arena }))

  -- priority 2: a frame of the feed, with the entry stamps `t0`
  unfoldable pub market_data : (t0 : ℕ → ℕ) → Engine → Option Engine
  market_data t0 e =
      let (got, r) = try_front arena_cap e.g_arena in
      elim got [
        | none ↦ some (record e { g_arena = r })
        | some slot ↦
            let p = r.slots slot in
            then_published (t0 e.done) (sunk (next p (2 + load_be p 2 0) 0) e.gw)
              (record e { g_arena = r })
      ]

  -- A round of the loop.
  unfoldable pub engine_round : (t0 : ℕ → ℕ) → (now : ℕ) → Engine → Option Engine
  unfolding own_orders market_data
  engine_round t0 now e = elim (own_orders now e) [ none ↦ none | some e2 ↦ market_data t0 e2 ]

  -- The quotes in flight after the feed has ended; fuel counts the pops.
  unfoldable pub late_quotes : (fuel : ℕ) → Engine → Option Engine
  late_quotes zero e = none
  late_quotes (suc fuel) e =
      let (got, r) = try_pop ord_cap e.g_orders in
      let e2 = record e { g_orders = r } in
      elim got [
        | none ↦ some e2
        | some q ↦ elim (desked (desk_apply num_ticks pool_cap q e2.desk e2.gw.book) e2) [
          | none ↦ none
          | some e3 ↦ late_quotes fuel e3
        ]
      ]
