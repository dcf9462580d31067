-- ===== src/Itch.antt =====
-- include/lob/itch.hpp: the parser of framed ITCH messages. `buf` is the memory by address; the stream
-- is the addresses below `size`. A message is what a sink reads from the overlaid wire struct, each
-- integer through `bswap`.
pub mod Frames
pub mod Loads
use c_order_book.Prelude.{
  ℕ, zero, suc, ◌+◌, ◌*◌, ◌/◌, ◌%◌, ◌^◌, Option, none, some, List, [], ◌∷◌, ltb, ◌==◌,
  if◌then◌else◌,
}

-- The swap of the `n` bytes of a word.
unfoldable pub bswap : (n : ℕ) → ℕ → ℕ
bswap zero v = 0
bswap (suc n) v = v % 256 * 256 ^ n + bswap n (v / 256)

pub record MsgHeader : Type 0 where
  pub type : ℕ
  pub stock_locate : ℕ
  pub tracking_number : ℕ
  pub timestamp : ℕ → ℕ

pub record AddOrder : Type 0 where
  pub h : MsgHeader
  pub order_ref : ℕ
  pub side : ℕ
  pub shares : ℕ
  pub stock : ℕ → ℕ
  pub price : ℕ

pub record OrderExecuted : Type 0 where
  pub h : MsgHeader
  pub order_ref : ℕ
  pub executed_shares : ℕ
  pub match_number : ℕ

pub record OrderCancel : Type 0 where
  pub h : MsgHeader
  pub order_ref : ℕ
  pub canceled_shares : ℕ

pub record OrderDelete : Type 0 where
  pub h : MsgHeader
  pub order_ref : ℕ

-- what the sink is called with
pub data Wire : Type 0 where
  add_order : AddOrder → Wire
  order_executed : OrderExecuted → Wire
  order_cancel : OrderCancel → Wire
  order_delete : OrderDelete → Wire

-- `sizeof` of the wire struct, and its type character: 'A', 'E', 'X', 'D'
abbrev pub size_of : Wire → ℕ
size_of (add_order _) = 36
size_of (order_executed _) = 31
size_of (order_cancel _) = 23
size_of (order_delete _) = 19

abbrev pub type_of : Wire → ℕ
type_of (add_order _) = 65
type_of (order_executed _) = 69
type_of (order_cancel _) = 88
type_of (order_delete _) = 68

module _ (buf : ℕ → ℕ) where
  -- the load of an `n`-byte integer on a little-endian machine
  unfoldable pub load_native : (n : ℕ) → ℕ → ℕ
  load_native zero p = 0
  load_native (suc n) p = buf p + 256 * load_native n (p + 1)

  -- the load and the swap, as `load_be16` and the readers of the wire structs do them
  abbrev pub load_be : (n : ℕ) → ℕ → ℕ
  load_be n p = bswap n (load_native n p)

  abbrev pub header : ℕ → MsgHeader
  header p = record {
    type = buf p;
    stock_locate = load_be 2 (p + 1);
    tracking_number = load_be 2 (p + 3);
    timestamp = λ i. buf (p + 5 + i);
  }

  -- the wire structs over the bytes from `p` on
  abbrev pub as_add : ℕ → AddOrder
  as_add p = record {
    h = header p;
    order_ref = load_be 8 (p + 11);
    side = buf (p + 19);
    shares = load_be 4 (p + 20);
    stock = λ i. buf (p + 24 + i);
    price = load_be 4 (p + 32);
  }

  abbrev pub as_executed : ℕ → OrderExecuted
  as_executed p = record {
    h = header p;
    order_ref = load_be 8 (p + 11);
    executed_shares = load_be 4 (p + 19);
    match_number = load_be 8 (p + 23);
  }

  abbrev pub as_cancel : ℕ → OrderCancel
  as_cancel p = record {
    h = header p;
    order_ref = load_be 8 (p + 11);
    canceled_shares = load_be 4 (p + 19);
  }

  abbrev pub as_delete : ℕ → OrderDelete
  as_delete p = record { h = header p; order_ref = load_be 8 (p + 11) }

  -- The switch on the type, for a payload of `len` bytes from `p` on.
  unfoldable pub decode : (len : ℕ) → ℕ → Option Wire
  decode len p =
      if buf p == 65
      then (if len == 36 then some (add_order (as_add p)) else none)
      else if buf p == 69
      then (if len == 31 then some (order_executed (as_executed p)) else none)
      else if buf p == 88
      then (if len == 23 then some (order_cancel (as_cancel p)) else none)
      else if buf p == 68
      then (if len == 19 then some (order_delete (as_delete p)) else none)
      else none

  -- `cur_ = p + len`, where the switch has found a message
  abbrev pub advance : (len : ℕ) → ℕ → Option Wire → Option (Wire × ℕ)
  advance len cur none = none
  advance len cur (some m) = some (m, cur + 2 + len)

  -- The message and the new cursor; `none` is `false`, which leaves the cursor.
  unfoldable pub next : (size : ℕ) → ℕ → Option (Wire × ℕ)
  next size cur =
      let len = load_be 2 cur in
      if ltb size (cur + 2)
      then none
      else if ltb size (cur + 2 + len)
      then none
      else advance len cur (decode len (cur + 2))

  -- `while (p.next(sink)) {}`, with fuel for the rounds: the messages and the last cursor.
  unfoldable pub parse : (fuel size : ℕ) → ℕ → Option (List Wire × ℕ)
  parse zero size cur = none
  parse (suc fuel) size cur = elim (next size cur) [
    | none ↦ some ([], cur)
    | some (m, cur2) ↦ elim (parse fuel size cur2) [
      | none ↦ none
      | some (ms, last) ↦ some (m ∷ ms, last)
    ]
  ]
