-- ===== src/Workload.antt =====
-- bench/bench_rdtsc.cpp: the workload of the latency benchmark, and the driver that feeds it to a
-- book. The counts of the trade handler are those of the book's list of trades.
pub mod Sound
use c_order_book.Prelude.{
  ℕ, zero, suc, ◌+◌, ◌-◌, ◌*◌, ◌/◌, ◌%◌, ◌^◌, Bool, true, false, not, ◌&&◌, Option, none, some,
  List, [], ◌∷◌, ltb, ◌==◌, if◌then◌else◌,
}
use c_order_book.Prelude.Int.{ℤ, pos, negsuc, leb_ℤ, ◌+ℤ◌, ◌-ℤ◌}
use c_order_book.Prelude.Word.{update, add64, u64_mod}
use c_order_book.Order.{Side, MsgType, Message}
use c_order_book.Book.State.{Book}
use c_order_book.Book.Links.{taker_filled_id}
use c_order_book.Book.Engine.{new_order, cancel}
use c_order_book.SpscRing.{Ring, try_pop}
use c_order_book.Feed.{rng_next, mid_price}
use c_order_book.Pipeline.{no_message}

-- The message for the random number `r`.
unfoldable pub message_for : ℕ → Message
message_for r =
    let bucket = r % 100 in
    let side = if r / 2 ^ 8 % 2 == 1 then Side.buy else Side.sell in
    let buy = r / 2 ^ 8 % 2 == 1 in
    let off = 1 + r / 2 ^ 16 % 32 in
    let post = record no_message {
      type = MsgType.new_order;
      side = side;
      price = if buy then pos (mid_price - off) else pos (mid_price + off);
      qty = pos (1 + r / 2 ^ 24 % 8);
    } in
    let crosser = record no_message {
      type = MsgType.new_order;
      side = side;
      price = if buy then pos (mid_price + 8) else pos (mid_price - 8);
      qty = pos (8 + r / 2 ^ 24 % 16);
    } in
    if ltb bucket 58
    then post
    else if ltb bucket 94
    then crosser
    else record no_message { type = MsgType.cancel; id = 0 }

-- `make_workload(n, seed)`
unfoldable pub make_workload : (n seed : ℕ) → List Message
make_workload zero s = []
make_workload (suc n) s = let (s2, r) = rng_next s in message_for r ∷ make_workload n s2

-- `IdWindow`; its capacity is a power of two, so that `w & (CAP - 1)` is a remainder.
pub record IdWindow : Type 0 where
  pub ids : ℕ → ℕ
  pub w : ℕ

abbrev pub window_cap : ℕ
window_cap = 4096

abbrev pub new_window : IdWindow
new_window = record { ids = λ _. 0; w = 0 }

unfoldable pub window_push : ℕ → IdWindow → IdWindow
window_push id i = record { ids = update i.ids (i.w % window_cap) id; w = add64 i.w 1 }

unfoldable pub pick : ℕ → IdWindow → ℕ
pick r i = i.ids (r % window_cap)

pub record Driver : Type 0 where
  pub book : Book
  pub ids : IdWindow
  pub cancel_rng : ℕ

module _ (num_ticks pool_cap : ℕ) where
  abbrev posted : Option (ℕ × Book) → Driver → Option Driver
  posted none d = none
  posted (some (id, b)) d = some (record d {
    book = b;
    ids = if not (id == 0) && not (id == taker_filled_id) then window_push id d.ids else d.ids;
  })

  abbrev pulled : Option (Bool × Book) → ℕ → Driver → Option Driver
  pulled none s d = none
  pulled (some (ok, b)) s d = some (record d { book = b; cancel_rng = s })

  -- The lambda `drive`: anything but a new order is a cancel of an id from the window.
  unfoldable pub drive : Message → Driver → Option Driver
  drive m d =
      let (s, r) = rng_next d.cancel_rng in
      elim m.type [
        | MsgType.new_order ↦
            posted (new_order num_ticks pool_cap m.side m.price m.qty false d.book) d
        | _ ↦ pulled (cancel num_ticks pool_cap (pick r d.ids) d.book) s d
      ]

  -- `for (const Message& m : warm) drive(m)`
  unfoldable pub drive_all : List Message → Driver → Option Driver
  drive_all [] d = some d
  drive_all (m ∷ ms) d = elim (drive m d) [ none ↦ none | some d2 ↦ drive_all ms d2 ]

  -- A poll of the pipeline's engine: the number is 1 where a message was done.
  unfoldable pub poll : (ring_cap : ℕ) → Ring Message → Driver → Option (ℕ × Ring Message × Driver)
  unfolding drive
  poll ring_cap r d =
      let (got, r2) = try_pop ring_cap r in
      elim got [
        | none ↦ some (0, r2, d)
        | some m ↦ elim (drive m d) [ none ↦ none | some d2 ↦ some (1, r2, d2) ]
      ]
