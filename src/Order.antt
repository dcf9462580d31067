-- ===== src/Order.antt =====
-- include/lob/common.hpp and include/lob/order.hpp: prices and quantities, which are signed
-- 64-bit integers in the source and integers here, since an overflow of theirs is undefined; the
-- sides; and the order with its intrusive links, which are slots of the arena.
use c_order_book.Prelude.{ℕ, Option, none, Bool, true, false}
use c_order_book.Prelude.Int.{ℤ, pos}

pub data Side : Type 0 where
  buy sell : Side

abbrev pub is_buy : Side → Bool
is_buy Side.buy = true
is_buy Side.sell = false

pub record Order : Type 0 where
  pub qty : ℤ
  pub next : Option ℕ
  pub prev : Option ℕ
  pub price : ℤ
  pub id : ℕ
  pub side : Side
  pub hidden_qty : ℤ
  pub display_qty : ℤ

-- `init`, on any order
abbrev pub init : ℕ → Side → ℤ → ℤ → Order
init id side price qty = record {
  qty = qty;
  next = none;
  prev = none;
  price = price;
  id = id;
  side = side;
  hidden_qty = pos 0;
  display_qty = pos 0;
}

-- `Order()`: what the arena's placement new builds
abbrev pub blank : Order
blank = init 0 Side.buy (pos 0) (pos 0)

pub record Trade : Type 0 where
  pub maker_id : ℕ
  pub taker_id : ℕ
  pub price : ℤ
  pub qty : ℤ

-- `MsgType` and `Message`; the padding bytes are left out.
pub data MsgType : Type 0 where
  new_order cancel execute reduce : MsgType

pub record Message : Type 0 where
  pub price : ℤ
  pub qty : ℤ
  pub id : ℕ
  pub type : MsgType
  pub side : Side
