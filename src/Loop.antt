-- ===== src/Loop.antt =====
-- bench/bench_trading_loop.cpp: the closed loop of feed, engine and strategy. Clock readings are
-- arguments. The desk of the strategy's quotes and the strategy are here, the engine in Loop/Engine.
pub mod Engine
pub mod Quotes
use c_order_book.Prelude.{
  ℕ, zero, suc, ◌+◌, ◌-◌, ◌%◌, ◌^◌, Bool, true, false, not, ◌&&◌, Option, none, some, List, [], ◌∷◌,
  ◌++◌, ◌==◌, if◌then◌else◌,
}
use c_order_book.Prelude.Int.{ℤ, pos, negsuc, leb_ℤ, ltb_ℤ, eq_ℤ, ◌+ℤ◌, ◌-ℤ◌}
use c_order_book.Prelude.Word.{add64}
use c_order_book.Order.{Side, MsgType, Message, is_buy}
use c_order_book.Bbo.{BboUpdate}
use c_order_book.Book.State.{Book, Cmd, pure, ◌>>=◌, ◌>>◌}
use c_order_book.Book.Engine.{new_order, cancel}
use c_order_book.Pipeline.{no_message}
use c_order_book.Risk.{Gateway, check, on_cancel}

-- `QuoteDesk`: the resting quote of each side, or 0
pub record QuoteDesk : Type 0 where
  pub bid_id : ℕ
  pub ask_id : ℕ
  pub quotes : ℕ

abbrev pub new_desk : QuoteDesk
new_desk = record { bid_id = 0; ask_id = 0; quotes = 0 }

-- the id that `live` refers to, and the desk once it is assigned
abbrev pub live_id : Side → QuoteDesk → ℕ
live_id Side.buy d = d.bid_id
live_id Side.sell d = d.ask_id

abbrev pub with_live : Side → ℕ → QuoteDesk → QuoteDesk
with_live Side.buy id d = record d { bid_id = id }
with_live Side.sell id d = record d { ask_id = id }

module _ (num_ticks pool_cap : ℕ) where
  -- `if (live) book.cancel(live)`
  abbrev pub pull : ℕ → Cmd Bool
  pull live = if live == 0 then pure false else cancel num_ticks pool_cap live

  -- `QuoteDesk::apply`
  unfoldable pub desk_apply : Message → QuoteDesk → Cmd QuoteDesk
  desk_apply m d = do
    pull (live_id m.side d)
    id ← new_order num_ticks pool_cap m.side m.price m.qty false
    let d2 = with_live m.side id d
    pure (record d2 { quotes = add64 d.quotes 1 })

-- The local variables of the strategy thread.
pub record Strategy : Type 0 where
  pub my_bid : ℤ
  pub my_ask : ℤ
  pub gaps : ℕ
  pub last_seq : ℕ
  pub risk : Gateway
  pub risk_rejects : ℕ

abbrev pub new_strategy : Gateway → Strategy
new_strategy risk = record {
  my_bid = negsuc 0;
  my_ask = negsuc 0;
  gaps = 0;
  last_seq = 0;
  risk = risk;
  risk_rejects = 0;
}

-- the price that `my_px` refers to, and the strategy once it is assigned
abbrev pub my_px : Side → Strategy → ℤ
my_px Side.buy s = s.my_bid
my_px Side.sell s = s.my_ask

abbrev pub with_px : Side → ℤ → Strategy → Strategy
with_px Side.buy px s = record s { my_bid = px }
with_px Side.sell px s = record s { my_ask = px }

-- The instruction that `quote` spins to push.
abbrev pub instruction : Side → ℤ → (origin : ℕ) → Message
instruction side px origin = record no_message {
  type = MsgType.new_order;
  side = side;
  price = px;
  qty = pos 1;
  id = origin;
}

-- `depth` is the risk gateway's RateWindowMsgs.
module _ (depth : ℕ) where
  -- the strategy after an accept: `if (my_px >= 0) risk.on_cancel(s, 1); my_px = px`
  abbrev pub replaced : Side → ℤ → Gateway → Strategy → Strategy
  replaced side px risk s = with_px side px (record s {
    risk = if leb_ℤ (pos 0) (my_px side s) then on_cancel side (pos 1) risk else risk;
  })

  -- The lambda `quote`, at the clock `now`: the messages to push, none where risk rejects.
  unfoldable pub quote : Side → ℤ → (origin now : ℕ) → Strategy → List Message × Strategy
  quote side px origin now s =
      let checked = check depth side px (pos 1) now s.risk in
      if checked.0 == 0
      then (instruction side px origin ∷ [], replaced side px checked.1 s)
      else ([], record s { risk = checked.1; risk_rejects = add64 s.risk_rejects 1 })

  -- A side's part of the loop's body, for the touch `touch` and the wanted price `want`.
  unfoldable pub requote :
      Side → (touch want : ℤ) → (origin now : ℕ) → Strategy → List Message × Strategy
  unfolding quote
  requote side touch want origin now s =
      if leb_ℤ (pos 0) touch && not (eq_ℤ want (my_px side s))
      then quote side want origin now s
      else ([], s)

  abbrev pub buy_pressure : BboUpdate → Bool
  buy_pressure u = leb_ℤ u.ask_qty u.bid_qty

  abbrev pub bid_want : BboUpdate → ℤ
  bid_want u = if buy_pressure u then u.bid_px else u.bid_px -ℤ pos 1

  abbrev pub ask_want : BboUpdate → ℤ
  ask_want u = if buy_pressure u then u.ask_px +ℤ pos 1 else u.ask_px

  -- `gaps += (last_seq && u.seq != last_seq + 1); last_seq = u.seq`
  abbrev pub sequenced : BboUpdate → Strategy → Strategy
  sequenced u s = record s {
    gaps =
        add64 s.gaps (if not (s.last_seq == 0) && not (u.seq == add64 s.last_seq 1) then 1 else 0);
    last_seq = u.seq;
  }

  -- The loop's body for an update, with the clock at each of its two quotes.
  unfoldable pub on_update : BboUpdate → (now_bid now_ask : ℕ) → Strategy → List Message × Strategy
  unfolding requote
  on_update u now_bid now_ask s =
      let bid = requote Side.buy u.bid_px (bid_want u) u.origin_tsc now_bid (sequenced u s) in
      let ask = requote Side.sell u.ask_px (ask_want u) u.origin_tsc now_ask bid.1 in
      (bid.0 ++ ask.0, ask.1)
