-- ===== src/Tests/RiskRuns.antt =====
-- A gateway with a limit of 100 lots and two accepts in a window of 50 ticks.
use c_order_book.Prelude.{◌≡◌, ◌≢◌, ◌⊎◌, ◌↔◌, refl, true, List, [], ◌∷◌, arith}
use c_order_book.Prelude.Bits.{bit}
use c_order_book.Prelude.Int.{pos, ◌≤ℤ◌, ◌-ℤ◌, ◌+ℤ◌, ◌*ℤ◌}
use c_order_book.Prelude.Word.{add64, sub64}
use c_order_book.Order.{Side}
use c_order_book.Risk.{
  Gateway, new_gateway, check, accept, verdict, bad_qty, bad_price, bad_position, bad_rate, mask,
  prospective_buy, prospective_sell, on_fill, on_cancel,
}
use c_order_book.Risk.Verdict.{
  Passes, Counted, QtyFails, PriceFails, PositionFails, RateFails, refused, check_decides,
  check_reasons,
}
use c_order_book.Risk.Exposure.{
  Event, order, cancelled, filled, InLimits, run, step, session_within_limit,
}
use c_order_book.Risk.Rate.{IsClocked, Apart, accepts, note_accept, accepts_are-Apart}

abbrev gateway : Gateway
gateway = new_gateway (pos 40) (pos 900) (pos 1100) (pos 100) 50

abbrev session : List Event
session =
    order Side.buy (pos 1000) (pos 40) 100
    ∷ order Side.sell (pos 1001) (pos 30) 110
    ∷ order Side.sell (pos 1002) (pos 30) 120
    ∷ filled Side.buy (pos 25)
    ∷ cancelled Side.sell (pos 30)
    ∷ order Side.sell (pos 1002) (pos 30) 160
    ∷ []

runs_position : (run 2 session gateway).net_pos ≡ pos 25
unfolding run step check accept on_fill on_cancel verdict mask bad_qty bad_price bad_position
    bad_rate prospective_buy prospective_sell new_gateway ◌+ℤ◌ ◌-ℤ◌ ◌*ℤ◌ add64 sub64
runs_position = refl

runs_accepts : accepts 2 session gateway [] ≡ 160 ∷ 110 ∷ 100 ∷ []
unfolding accepts note_accept step check accept on_fill on_cancel verdict mask bad_qty bad_price
    bad_position bad_rate prospective_buy prospective_sell new_gateway ◌+ℤ◌ ◌-ℤ◌ ◌*ℤ◌ add64 sub64
runs_accepts = refl

check_decides_example :
    let rj = (check 2 Side.buy (pos 1000) (pos 40) 100 gateway).0 in
    let after = (check 2 Side.buy (pos 1000) (pos 40) 100 gateway).1 in
    ((rj ≡ 0)
      × Passes 2 Side.buy (pos 1000) (pos 40) 100 gateway
      × Counted 2 Side.buy (pos 40) 100 gateway after)
    ⊎ ((rj ≢ 0)
        × (QtyFails 2 Side.buy (pos 1000) (pos 40) 100 gateway
            ⊎ (PriceFails 2 Side.buy (pos 1000) (pos 40) 100 gateway
                ⊎ (PositionFails 2 Side.buy (pos 1000) (pos 40) 100 gateway
                    ⊎ RateFails 2 Side.buy (pos 1000) (pos 40) 100 gateway)))
        × (after ≡ refused gateway))
check_decides_example = check_decides 2 Side.buy (pos 1000) (pos 40) 100 gateway

check_reasons_example :
    let rj = (check 2 Side.buy (pos 1200) (pos 50) 100 gateway).0 in
    ((bit rj 0 ≡ true) ↔ QtyFails 2 Side.buy (pos 1200) (pos 50) 100 gateway)
    × ((bit rj 1 ≡ true) ↔ PriceFails 2 Side.buy (pos 1200) (pos 50) 100 gateway)
    × ((bit rj 2 ≡ true) ↔ PositionFails 2 Side.buy (pos 1200) (pos 50) 100 gateway)
    × ((bit rj 3 ≡ true) ↔ RateFails 2 Side.buy (pos 1200) (pos 50) 100 gateway)
check_reasons_example = check_reasons 2 Side.buy (pos 1200) (pos 50) 100 gateway

gateway-InLimits : InLimits gateway
unfolding new_gateway ◌+ℤ◌ ◌-ℤ◌
gateway-InLimits = omega arith

session_within_limit_example :
    InLimits (run 2 session gateway)
    × ((run 2 session gateway).pos_limit ≡ gateway.pos_limit)
    × (pos 0 ≤ℤ (run 2 session gateway).open_buy
        → (run 2 session gateway).net_pos ≤ℤ gateway.pos_limit)
    × (pos 0 ≤ℤ (run 2 session gateway).open_sell
        → pos 0 -ℤ gateway.pos_limit ≤ℤ (run 2 session gateway).net_pos)
session_within_limit_example =
    session_within_limit 2 session gateway (tt, (tt, (tt, (omega arith, (omega arith, (tt, tt))))))
      gateway-InLimits

session-IsClocked : IsClocked 2 0 session
session-IsClocked = (omega arith, (omega arith, (omega arith, (omega arith, omega arith))))

accepts_are-Apart_example : Apart 2 50 (accepts 2 session gateway [])
accepts_are-Apart_example =
    accepts_are-Apart 2 (pos 40) (pos 900) (pos 1100) (pos 100) 50 session (omega arith)
      session-IsClocked
