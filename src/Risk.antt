-- ===== src/Risk.antt =====
-- include/lob/risk.hpp: the pre-trade risk gateway. `depth` is the template's RateWindowMsgs, a power
-- of two, so that `n & MASK` is `n % depth`.
pub mod Exposure
pub mod Rate
pub mod Verdict
use Prim.Native.Nat.{bit_or}
use c_order_book.Prelude.{ℕ, ◌+◌, ◌*◌, ◌%◌, Bool, true, false, ◌||◌, ltb, ◌==◌, if◌then◌else◌}
use c_order_book.Prelude.Int.{ℤ, pos, negsuc, ltb_ℤ, leb_ℤ, ◌+ℤ◌, ◌-ℤ◌, ◌*ℤ◌}
use c_order_book.Prelude.Word.{add64, sub64, update}
use c_order_book.Order.{Side, is_buy}

-- `RiskReject`
abbrev pub rj_none : ℕ
rj_none = 0

abbrev pub rj_qty : ℕ
rj_qty = 1

abbrev pub rj_price_band : ℕ
rj_price_band = 2

abbrev pub rj_position : ℕ
rj_position = 4

abbrev pub rj_rate : ℕ
rj_rate = 8

pub record Gateway : Type 0 where
  pub max_qty : ℤ
  pub px_lo : ℤ
  pub px_hi : ℤ
  pub pos_limit : ℤ
  pub window_ticks : ℕ
  pub open_buy : ℤ
  pub open_sell : ℤ
  pub net_pos : ℤ
  pub n_sent : ℕ
  pub rejected : ℕ
  pub stamps : ℕ → ℕ

unfoldable pub new_gateway : ℤ → ℤ → ℤ → ℤ → ℕ → Gateway
new_gateway max_order_qty px_lo px_hi position_limit window_ticks = record {
  max_qty = max_order_qty;
  px_lo = px_lo;
  px_hi = px_hi;
  pos_limit = position_limit;
  window_ticks = window_ticks;
  open_buy = pos 0;
  open_sell = pos 0;
  net_pos = pos 0;
  n_sent = 0;
  rejected = 0;
  stamps = λ _. 0;
}

-- `std::uint32_t(cond)` and `Qty(cond)`
abbrev pub to_num : Bool → ℕ
to_num true = 1
to_num false = 0

abbrev pub to_qty : Bool → ℤ
to_qty true = pos 1
to_qty false = pos 0

-- `RJ_QTY * a | RJ_PRICE_BAND * b | RJ_POSITION * c | RJ_RATE * d`
unfoldable pub mask : Bool → Bool → Bool → Bool → ℕ
mask a b c d =
    bit_or
      (bit_or (bit_or (bit_or rj_none (rj_qty * to_num a)) (rj_price_band * to_num b))
        (rj_position * to_num c))
      (rj_rate * to_num d)

unfoldable pub bad_qty : ℤ → Gateway → Bool
bad_qty qty g = leb_ℤ qty (pos 0) || ltb_ℤ g.max_qty qty

unfoldable pub bad_price : ℤ → Gateway → Bool
bad_price price g = ltb_ℤ price g.px_lo || ltb_ℤ g.px_hi price

-- `pb` and `ps`: the open lots of each side if this order rests
unfoldable pub prospective_buy : Side → ℤ → Gateway → ℤ
prospective_buy side qty g = g.open_buy +ℤ qty *ℤ to_qty (is_buy side)

unfoldable pub prospective_sell : Side → ℤ → Gateway → ℤ
prospective_sell side qty g = g.open_sell +ℤ qty *ℤ (pos 1 -ℤ to_qty (is_buy side))

unfoldable pub bad_position : Side → ℤ → Gateway → Bool
bad_position side qty g =
    ltb_ℤ g.pos_limit (prospective_buy side qty g +ℤ g.net_pos)
    || ltb_ℤ g.pos_limit (prospective_sell side qty g -ℤ g.net_pos)

module _ (depth : ℕ) where
  unfoldable pub bad_rate : ℕ → Gateway → Bool
  bad_rate now g = ltb (sub64 now (g.stamps (g.n_sent % depth))) g.window_ticks

  unfoldable pub verdict : Side → ℤ → ℤ → ℕ → Gateway → ℕ
  verdict side price qty now g =
      mask (bad_qty qty g) (bad_price price g) (bad_position side qty g) (bad_rate now g)

  unfoldable pub accept : Side → ℤ → ℕ → Gateway → Gateway
  accept side qty now g = record g {
    open_buy = prospective_buy side qty g;
    open_sell = prospective_sell side qty g;
    stamps = update g.stamps (g.n_sent % depth) now;
    n_sent = add64 g.n_sent 1;
  }

  unfoldable pub check : Side → ℤ → ℤ → ℕ → Gateway → ℕ × Gateway
  check side price qty now g =
      let rj = verdict side price qty now g in
      (rj, if rj == 0 then accept side qty now g else record g { rejected = add64 g.rejected 1 })

unfoldable pub on_cancel : Side → ℤ → Gateway → Gateway
on_cancel side qty g = record g {
  open_buy = g.open_buy -ℤ qty *ℤ to_qty (is_buy side);
  open_sell = g.open_sell -ℤ qty *ℤ (pos 1 -ℤ to_qty (is_buy side));
}

unfoldable pub on_fill : Side → ℤ → Gateway → Gateway
on_fill side qty g = record g {
  open_buy = g.open_buy -ℤ qty *ℤ to_qty (is_buy side);
  open_sell = g.open_sell -ℤ qty *ℤ (pos 1 -ℤ to_qty (is_buy side));
  net_pos = g.net_pos +ℤ qty *ℤ (pos 2 *ℤ to_qty (is_buy side) -ℤ pos 1);
}
