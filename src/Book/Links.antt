-- ===== src/Book/Links.antt =====
-- The constructor of `OrderBook`, order ids, and putting an order on a level and taking it off.
-- `num_ticks` and `pool_cap` are the template's NumTicks and PoolCap.
use Prim.Native.Nat.{bit_or}
use c_order_book.Prelude.{
  ℕ, ◌+◌, ◌-◌, ◌*◌, ◌/◌, ◌%◌, ◌^◌, Bool, true, false, ◌||◌, Option, none, some, ltb, ◌==◌,
  if◌then◌else◌, [],
}
use c_order_book.Prelude.Int.{ℤ, pos, min_ℤ, ◌-ℤ◌}
use c_order_book.Prelude.Word.{sub64, u64_mod}
use c_order_book.Pool.{new_pool, acquire, release}
use c_order_book.Bitmap.{npos, clear, set, reset, next_set, prev_set}
use c_order_book.Order.{Side, Order, init, blank}
use c_order_book.Book.State.{
  PriceLevel, Book, Cmd, pure, ◌>>=◌, ◌>>◌, modify, load_order, store_order, set_next, set_prev,
  set_head, set_tail, add_total, sub_total, bump_generation, tick,
}

abbrev pub empty_level : PriceLevel
empty_level = record { head = none; tail = none; total_qty = pos 0 }

-- The constructor.
unfoldable pub new_book : (num_ticks pool_cap : ℕ) → ℤ → Book
new_book num_ticks pool_cap base_tick = record {
  pool = new_pool pool_cap;
  levels = λ _. empty_level;
  bids = clear;
  asks = clear;
  generations = λ _. 0;
  base = base_tick;
  best_bid = npos;
  best_ask = num_ticks;
  trades = [];
}

-- TAKER_FILLED_ID
abbrev pub taker_filled_id : ℕ
taker_filled_id = u64_mod - 1

-- `(generation << 32) | (slot + 1)`
unfoldable pub make_id : ℕ → ℕ → ℕ
make_id generation slot = bit_or (generation * 2 ^ 32) (slot + 1)

-- `(id & 0xFFFFFFFF) - 1` and `uint32_t(id >> 32)`
unfoldable pub slot_of : ℕ → ℕ
slot_of id = sub64 (id % 2 ^ 32) 1

unfoldable pub generation_of : ℕ → ℕ
generation_of id = id / 2 ^ 32 % 2 ^ 32

abbrev pub is_none {ℓ} : {A : Type ℓ} → Option A → Bool
is_none none = true
is_none (some _) = false

-- `pool_.release(o)`
unfoldable pub release_order : ℕ → Cmd (Unit {0})
release_order n b = elim (release n b.pool) [
  | none ↦ none
  | some p ↦ some (tt, record b { pool = p })
]

-- `pool_.acquire()`
unfoldable pub acquire_order : Cmd (Option ℕ)
acquire_order b = elim (acquire blank b.pool) [
  | none ↦ none
  | some (r, p) ↦ some (r, record b { pool = p })
]

-- `if (o->prev) o->prev->next = o->next; else lvl.head = o->next;`, and the same for `tail`
unfoldable pub unlink_prev : ℕ → Order → Cmd (Unit {0})
unlink_prev idx o = elim o.prev [ none ↦ set_head idx o.next | some p ↦ set_next p o.next ]

unfoldable pub unlink_next : ℕ → Order → Cmd (Unit {0})
unlink_next idx o = elim o.next [ none ↦ set_tail idx o.prev | some n ↦ set_prev n o.prev ]

-- the bitmap and the cached best of a side, when its level `idx` has become empty
unfoldable pub clear_bid : ℕ → Book → Book
clear_bid idx b = record b { bids = reset idx b.bids; best_bid = prev_set idx (reset idx b.bids) }

module _ (num_ticks : ℕ) where
  unfoldable pub clear_ask : ℕ → Book → Book
  clear_ask idx b =
      let nxt = next_set num_ticks idx (reset idx b.asks) in
      record b { asks = reset idx b.asks; best_ask = if nxt == npos then num_ticks else nxt }

  -- In `unlink_and_release` the best is moved only if it was at the level.
  unfoldable pub level_emptied : Side → ℕ → Book → Book
  level_emptied Side.buy idx b =
      if idx == b.best_bid then clear_bid idx b else record b { bids = reset idx b.bids }
  level_emptied Side.sell idx b =
      if idx == b.best_ask then clear_ask idx b else record b { asks = reset idx b.asks }

  unfoldable pub if_emptied : Side → ℕ → Book → Book
  if_emptied side idx b = if is_none (b.levels idx).head then level_emptied side idx b else b

  unfoldable pub unlink_and_release : ℕ → Cmd (Unit {0})
  unfolding unlink_prev unlink_next if_emptied
  unlink_and_release slot b0 =
      (do
        o ← load_order slot
        let idx = tick o.price b0.base
        unlink_prev idx o
        unlink_next idx o
        sub_total idx o.qty
        modify (if_emptied o.side idx)
        bump_generation slot
        release_order slot)
        b0

-- The fields of an order that rests with `visible` lots shown and `hidden` behind them.
abbrev pub resting : ℕ → Side → ℤ → ℤ → ℤ → ℤ → Option ℕ → Order
resting id side price visible display hidden last = record (init id side price visible) {
  display_qty = display;
  hidden_qty = hidden;
  prev = last;
}

-- `bids_.set(idx)` or `asks_.set(idx)`, and the cached best
unfoldable pub mark_level : Side → ℕ → Book → Book
mark_level Side.buy idx b = record b {
  bids = set idx b.bids;
  best_bid = if b.best_bid == npos || ltb b.best_bid idx then idx else b.best_bid;
}
mark_level Side.sell idx b = record b {
  asks = set idx b.asks;
  best_ask = if ltb idx b.best_ask then idx else b.best_ask;
}

-- `if (lvl.tail) lvl.tail->next = o; else lvl.head = o;`
unfoldable pub link_last : ℕ → Option ℕ → ℕ → Cmd (Unit {0})
link_last idx last slot = elim last [
  | none ↦ set_head idx (some slot)
  | some t ↦ set_next t (some slot)
]

-- What `rest` and `rest_iceberg` do with the slot that the arena gives them.
unfoldable pub place : Side → ℕ → ℤ → ℤ → ℤ → ℤ → ℕ → Cmd ℕ
unfolding link_last
place side idx price visible display hidden slot b0 =
    (do
      bump_generation slot
      let id = make_id ((b0.generations slot + 1) % 2 ^ 32) slot
      let last = (b0.levels idx).tail
      store_order slot (resting id side price visible display hidden last)
      link_last idx last slot
      set_tail idx (some slot)
      add_total idx visible
      modify (mark_level side idx)
      pure id)
      b0

-- `rest<S>(idx, price, qty)`; 0 is the rejection when the arena is exhausted
unfoldable pub rest : Side → ℕ → ℤ → ℤ → Cmd ℕ
rest side idx price qty = do
  got ← acquire_order
  elim got [ none ↦ pure 0 | some slot ↦ place side idx price qty (pos 0) (pos 0) slot ]

unfoldable pub rest_iceberg : Side → ℕ → ℤ → ℤ → ℤ → Cmd ℕ
rest_iceberg side idx price display remaining = do
  got ← acquire_order
  elim got [
    | none ↦ pure 0
    | some slot ↦
        let visible = min_ℤ display remaining in
        place side idx price visible display (remaining -ℤ visible) slot
  ]
