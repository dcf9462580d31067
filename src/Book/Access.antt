-- ===== src/Book/Access.antt =====
-- The accesses to the arena succeed on a slot with an object in it.
use c_order_book.Prelude.{ℕ, ◌≡◌, some, arith}
use c_order_book.Prelude.Word.{update}
use c_order_book.Pool.{object}
use c_order_book.Order.{Order}
use c_order_book.Book.State.{Book, load_order, store_order}

-- The book with `v` in slot `n`.
abbrev pub put_order : ℕ → Order → Book → Book
put_order n v b = record b { pool = record (b.pool) { cells = update b.pool.cells n (object v) } }

module _ (n : ℕ) (b : Book) (o : Order) (live : b.pool.cells n ≡ object o) where
  pub load_order-ok : load_order n b ≡ some (o, b)
  unfolding load_order
  load_order-ok = ground (arith, live)

  pub store_order-ok : (v : Order) → store_order n v b ≡ some (tt, put_order n v b)
  unfolding store_order
  store_order-ok v = ground (arith, live)
