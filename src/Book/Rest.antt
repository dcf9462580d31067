-- ===== src/Book/Rest.antt =====
-- An order that comes to rest: the state after `rest` and `rest_iceberg`.
pub mod Stored
pub mod Sides
pub mod Kept
pub mod Outcome
use c_order_book.Prelude.{
  ℕ, ◌+◌, ◌*◌, ◌-◌, ◌^◌, ◌%◌, ◌<◌, ◌≤◌, ◌≡◌, ◌≢◌, ◌∙◌, ap, sym, refl, Bool, true, false, not, ◌&&◌,
  ◌||◌, arith, ◌==◌, if◌then◌else◌, Bool-cases, inl, inr, Option, none, some, List, [], ◌∷◌, ◌++◌,
}
use mathlib.Core.Path.{subst}
use c_order_book.Prelude.Int.{ℤ, pos, ◌+ℤ◌, ◌-ℤ◌, ◌<ℤ◌, ◌≤ℤ◌, min_ℤ, int_laws}
use c_order_book.Prelude.Word.{update}
use c_order_book.Pool.{Cell, Pool, object, free_node, acquire, store, load}
use c_order_book.Pool.Free
use c_order_book.Pool.Free.{
  IsFree, is_free, acquire-nil, acquire-cons, taken, taken-IsFree, store-IsFree,
}
use c_order_book.Order.{Side, Order, blank}
use c_order_book.Book.State.{
  Book, PriceLevel, pure, ◌>>=◌, ◌>>◌, load_order, store_order, set_level,
}
use c_order_book.Book.Access.{put_order, load_order-ok, store_order-ok}
use c_order_book.Book.Links.{
  make_id, place, rest, rest_iceberg, acquire_order, mark_level, link_last,
}
use c_order_book.Book.Queue.{
  Entry, as_order, first_or, last_or, has_slot, Distinct, Distinct-append, total-append,
  has_slot-append, total, Seg, Seg-split, Seg-update, Seg-snoc, Snoc, none_in, snoc, to_snoc,
  last_or-append, first_or-append,
}
use c_order_book.Book.Valid.{View, price_of, IsStored, IsBook, elsewhere, free_nowhere}
use c_order_book.Book.Returns.{Returns, returns}

-- The entry of an order that rests in slot `x`.
abbrev pub rested : (ℕ → ℕ) → ℕ → ℤ → ℤ → ℤ → Entry
rested generations x visible display hidden = record {
  slot = x;
  id = make_id ((generations x + 1) % 2 ^ 32) x;
  qty = visible;
  hidden = hidden;
  display = display;
}

-- The view with the entry `e` behind the queue of level `idx`.
abbrev pub behind : View → Side → ℕ → Entry → List ℕ → View
behind v side idx e free = record {
  queue = update v.queue idx (v.queue idx ++ (e ∷ []));
  side = update v.side idx side;
  free = free;
}

module _ (side : Side) (idx : ℕ) (price visible display hidden : ℤ) (x : ℕ) (b : Book) where
  abbrev pub entry : Entry
  entry = rested b.generations x visible display hidden

  -- the state after `place`, before the level is marked, with the arena's slots `c`
  abbrev pub placed : (ℕ → Cell Order) → Option ℕ → Book
  placed c head = record b {
    pool = record (b.pool) { cells = c };
    generations = update b.generations x ((b.generations x + 1) % 2 ^ 32);
    levels =
        update b.levels idx
          (record { head = head; tail = some x; total_qty = (b.levels idx).total_qty +ℤ visible });
  }

  abbrev pub alone : Book
  alone = placed (update b.pool.cells x (object (as_order price side entry none none))) (some x)

  abbrev pub beside : ℕ → Order → Book
  beside y o =
      placed
        (update (update b.pool.cells x (object (as_order price side entry none (some y)))) y
          (object (record o { next = some x })))
        (b.levels idx).head

  pub place_first :
      b.pool.cells x ≡ object blank
      → (b.levels idx).tail ≡ none
      → place side idx price visible display hidden x b ≡ some (entry.id, mark_level side idx alone)
  unfolding place store_order
  place_first c t = ground (arith, c, t)

  pub place_behind :
      (y : ℕ) (o : Order)
      → b.pool.cells x ≡ object blank
      → (b.levels idx).tail ≡ some y
      → x ≢ y
      → b.pool.cells y ≡ object o
      → place side idx price visible display hidden x b
        ≡ some (entry.id, mark_level side idx (beside y o))
  unfolding place store_order load_order
  place_behind y o c t ne live = ground (arith, c, t, live)
