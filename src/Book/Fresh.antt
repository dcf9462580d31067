-- ===== src/Book/Fresh.antt =====
-- A new book is well formed: it has no orders, and every slot of its arena is free.
use c_order_book.Prelude.{ℕ, ◌≡◌, ap, sym, refl, [], arith}
use c_order_book.Prelude.Int.{ℤ}
use c_order_book.Pool.{object, new_pool}
use c_order_book.Pool.Free.{is_free}
use c_order_book.Pool.Fresh.{slots_below, new_pool-IsFree, new_pool-capacity, new_pool-empty}
use c_order_book.Bitmap.Occupied.{clear-IsIndex, clear-marked}
use c_order_book.Order.{Side, Order}
use c_order_book.Book.Links.{new_book}
use c_order_book.Book.Valid.{View, IsBook}

abbrev pub no_orders : ℕ → View
no_orders pool_cap = record {
  queue = λ _. [];
  side = λ _. Side.buy;
  free = slots_below pool_cap [];
}

no_object : (pool_cap n : ℕ) (o : Order) → (new_pool pool_cap).cells n ≡ object o → ⊥
no_object pool_cap n o e = ground (arith, new_pool-empty Order pool_cap n, ap is_free e)

-- The constructor gives a well-formed book with no orders, whose free list is all of the arena.
pub new_book-IsBook :
    (num_ticks pool_cap : ℕ) (base : ℤ)
    → IsBook num_ticks pool_cap (new_book num_ticks pool_cap base) (no_orders pool_cap)
unfolding new_book
new_book-IsBook num_ticks pool_cap base = record {
  stored = record {
    free = new_pool-IsFree pool_cap;
    capacity = new_pool-capacity Order pool_cap;
    linked = λ i. tt;
    distinct = λ i. tt;
    head = λ i. refl;
    tail = λ i. refl;
    sum = λ i. refl;
    bounded = λ n o e. absurd (no_object pool_cap n o e);
    resides = λ n o e. absurd (no_object pool_cap n o e);
  };
  good = λ i. tt;
  wide = λ n. omega arith;
  parity = λ n l. sym (new_pool-empty Order pool_cap n);
  top = record {
    bid_index = clear-IsIndex;
    ask_index = clear-IsIndex;
    bid_marks = clear-marked;
    ask_marks = clear-marked;
    bid_best = λ ne. absurd (ne refl);
    bid_top = λ i h. absurd (ground (arith, h));
    ask_best = λ l. absurd (omega (arith, l));
    ask_top = λ i h. absurd (ground (arith, h));
    ask_range = omega arith;
    bid_inside = λ i h. absurd (ground (arith, h));
    ask_inside = λ i h. absurd (ground (arith, h));
  };
  uncrossed = λ i j h k. absurd (ground (arith, h));
}
