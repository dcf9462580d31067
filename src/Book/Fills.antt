-- ===== src/Book/Fills.antt =====
-- `sweep_level` against the queue of a level: the queue it leaves, and the state inside its loop.
pub mod Step
pub mod Round
pub mod Reload
pub mod Loop
pub mod Settle
pub mod Stored
pub mod Enter
pub mod Kept
pub mod Outcome
use c_order_book.Prelude.{
  ℕ, ◌+◌, ◌^◌, ◌%◌, ◌<◌, ◌≡◌, ◌≢◌, Bool, true, false, ◌||◌, arith, ◌==◌, Option, none, some, List,
  [], ◌∷◌, ◌++◌, if◌then◌else◌,
}
use c_order_book.Prelude.Int.{ℤ, pos, ltb_ℤ, eq_ℤ, min_ℤ, ◌+ℤ◌, ◌-ℤ◌}
use c_order_book.Prelude.Word.{update}
use c_order_book.Pool.{Cell, object}
use c_order_book.Pool.Free.{IsFree, is_free}
use c_order_book.Order.{Order, Trade}
use c_order_book.Book.State.{Book, PriceLevel}
use c_order_book.Book.Queue.{Entry, first_or, last_or, has_slot, Distinct, total, Seg}
use c_order_book.Book.Valid.{View, price_of, AllGood}
use c_order_book.Book.Unlink.{requeued}
use c_order_book.Book.Unlink.Lessened.{lessened}

-- What a taker leaves of a queue: its open lots, the orders that it did not exhaust, those that show
-- a new clip in the order in which they do, the slots of those that are gone, and the trades.
pub record Filled : Type 0 where
  pub open_lots : ℤ
  pub left : List Entry
  pub reloaded : List Entry
  pub retired : List ℕ
  pub trades : List Trade

-- An order that shows the next clip of its reserve.
abbrev pub next_clip : Entry → Entry
next_clip e = record {
  slot = e.slot;
  id = e.id;
  qty = min_ℤ e.display e.hidden;
  hidden = e.hidden -ℤ min_ℤ e.display e.hidden;
  display = e.display;
}

abbrev pub trade_of : ℤ → Entry → ℤ → Trade
trade_of px e fill = record { maker_id = e.id; taker_id = 0; price = px; qty = fill }

-- the outcome `r` of the orders behind `e`, which was exhausted
abbrev pub exhaust : ℤ → Entry → Filled → Filled
exhaust px e r = record {
  open_lots = r.open_lots;
  left = r.left;
  reloaded = if ltb_ℤ (pos 0) e.hidden then next_clip e ∷ r.reloaded else r.reloaded;
  retired = if ltb_ℤ (pos 0) e.hidden then r.retired else e.slot ∷ r.retired;
  trades = trade_of px e e.qty ∷ r.trades;
}

-- The orders of a queue are filled first in, first out.
unfoldable pub fill_queue : ℤ → List Entry → ℤ → Filled
fill_queue px [] q = record { open_lots = q; left = []; reloaded = []; retired = []; trades = [] }
fill_queue px (e ∷ es) q =
    let rest = fill_queue px es (q -ℤ e.qty) in
    if ltb_ℤ (pos 0) q
    then (if ltb_ℤ q e.qty
        then record {
          open_lots = pos 0;
          left = lessened e q ∷ es;
          reloaded = [];
          retired = [];
          trades = trade_of px e q ∷ [];
        }
        else exhaust px e rest)
    else record { open_lots = q; left = e ∷ es; reloaded = []; retired = []; trades = [] }

-- the free slots after the slots `ns` were released one after the other
abbrev pub give_back : List ℕ → List ℕ → List ℕ
give_back [] free = free
give_back (n ∷ ns) free = give_back ns (n ∷ free)

-- What the loop changes of the book.
pub record Live : Type 0 where
  pub cells : ℕ → Cell Order
  pub free_head : Option ℕ
  pub levels : ℕ → PriceLevel
  pub generations : ℕ → ℕ
  pub trades : List Trade

abbrev pub live_of : Book → Live
live_of b = record {
  cells = b.pool.cells;
  free_head = b.pool.free_head;
  levels = b.levels;
  generations = b.generations;
  trades = b.trades;
}

abbrev pub put_live : Live → Book → Book
put_live x b = record b {
  pool = record (b.pool) { cells = x.cells; free_head = x.free_head };
  levels = x.levels;
  generations = x.generations;
  trades = x.trades;
}

-- Inside the loop at level `idx` of `b`: the orders `es` are still linked from the local variable, the
-- orders `rl` are in the reload chain, and the slots `free` are free. The level's head, and the `prev`
-- of the first of `es`, are stale.
pub record Sweeping (pool_cap : ℕ) (b : Book) (v : View) (idx : ℕ) (x : Live) (es rl : List Entry)
    (free : List ℕ) : Type 0 where
  pub prev : Option ℕ
  pub last : Option ℕ
  pub frees : IsFree (put_live x b).pool free
  pub front : Seg (price_of b idx) (v.side idx) x.cells prev es none
  pub back : Seg (price_of b idx) (v.side idx) x.cells none rl none
  pub there : (i : ℕ) → idx ≢ i → Seg (price_of b i) (v.side i) x.cells none (v.queue i) none
  pub distinct : Distinct (es ++ rl)
  pub apart :
      (i : ℕ) → idx ≢ i → (n : ℕ) → has_slot n (es ++ rl) ≡ true → has_slot n (v.queue i) ≡ false
  pub tail : (x.levels idx).tail ≡ last_or last es
  pub sum : (x.levels idx).total_qty ≡ total (es ++ rl)
  pub others : (i : ℕ) → idx ≢ i → x.levels i ≡ b.levels i
  pub bounded : (n : ℕ) (o : Order) → x.cells n ≡ object o → n < pool_cap
  pub resides :
      (n : ℕ) (o : Order)
      → x.cells n ≡ object o
      → (i : ℕ) × (has_slot n (update v.queue idx (es ++ rl) i) ≡ true)
  pub good : AllGood x.generations (es ++ rl)
  pub good_there : (i : ℕ) → idx ≢ i → AllGood x.generations (v.queue i)
  pub wide : (n : ℕ) → x.generations n < 2 ^ 32
  pub parity : (n : ℕ) → n < pool_cap → (x.generations n % 2 == 0) ≡ is_free (x.cells n)
