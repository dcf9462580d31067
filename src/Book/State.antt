-- ===== src/Book/State.antt =====
-- The state of `OrderBook`, and the accesses that its operations are made of. An operation is a
-- command on the state; `none` is undefined behaviour (an access to a dead slot of the arena) or a
-- loop that ran out of its fuel.
use c_order_book.Prelude.{ℕ, ◌+◌, ◌%◌, ◌^◌, Option, none, some, List, [], ◌∷◌, ◌++◌}
use c_order_book.Prelude.Int.{ℤ, ◌+ℤ◌, ◌-ℤ◌}
use c_order_book.Prelude.Word.{to_u64, update}
use c_order_book.Pool.{Pool, load, store}
use c_order_book.Bitmap.{Bitmap}
use c_order_book.Order.{Order, Trade}

-- `PriceLevel`, without its padding
pub record PriceLevel : Type 0 where
  pub head : Option ℕ
  pub tail : Option ℕ
  pub total_qty : ℤ

-- `trades` is what `on_trade` has been called with so far, oldest first.
pub record Book : Type 0 where
  pub pool : Pool Order
  pub levels : ℕ → PriceLevel
  pub bids : Bitmap
  pub asks : Bitmap
  pub generations : ℕ → ℕ
  pub base : ℤ
  pub best_bid : ℕ
  pub best_ask : ℕ
  pub trades : List Trade

abbrev pub Cmd : Type 0 → Type 0
Cmd A = Book → Option (A × Book)

abbrev pub pure : {A : Type 0} → A → Cmd A
pure a b = some (a, b)

module _ {A B : Type 0} where
  abbrev pub and_then : Option (A × Book) → (A → Cmd B) → Option (B × Book)
  and_then none k = none
  and_then (some (a, b)) k = k a b

  infixl 5 ◌>>=◌ ◌>>◌
  abbrev pub ◌>>=◌ : Cmd A → (A → Cmd B) → Cmd B
  m >>= k = λ b. and_then (m b) k

  abbrev pub ◌>>◌ : Cmd A → Cmd B → Cmd B
  m >> n = m >>= λ _. n

abbrev pub modify : (Book → Book) → Cmd (Unit {0})
modify f b = some (tt, f b)

-- `*o`
unfoldable pub load_order : ℕ → Cmd Order
load_order n b = elim (load n b.pool) [ none ↦ none | some o ↦ some (o, b) ]

-- `*o = v`
unfoldable pub store_order : ℕ → Order → Cmd (Unit {0})
store_order n v b = elim (store n v b.pool) [
  | none ↦ none
  | some p ↦ some (tt, record b { pool = p })
]

-- `o->next = p`, `o->prev = p`
abbrev pub set_next : ℕ → Option ℕ → Cmd (Unit {0})
set_next n p = do o ← load_order n; store_order n (record o { next = p })

abbrev pub set_prev : ℕ → Option ℕ → Cmd (Unit {0})
set_prev n p = do o ← load_order n; store_order n (record o { prev = p })

-- `lvl.head = p`, `lvl.tail = p`, `lvl.total_qty += q`, at the level `idx`
abbrev pub set_level : ℕ → PriceLevel → Book → Book
set_level idx l b = record b { levels = update b.levels idx l }

abbrev pub set_head : ℕ → Option ℕ → Cmd (Unit {0})
set_head idx p = modify (λ b. set_level idx (record (b.levels idx) { head = p }) b)

abbrev pub set_tail : ℕ → Option ℕ → Cmd (Unit {0})
set_tail idx p = modify (λ b. set_level idx (record (b.levels idx) { tail = p }) b)

abbrev pub add_total : ℕ → ℤ → Cmd (Unit {0})
add_total idx q =
    modify
      (λ b. set_level idx (record (b.levels idx) { total_qty = (b.levels idx).total_qty +ℤ q }) b)

abbrev pub sub_total : ℕ → ℤ → Cmd (Unit {0})
sub_total idx q =
    modify
      (λ b. set_level idx (record (b.levels idx) { total_qty = (b.levels idx).total_qty -ℤ q }) b)

-- `++generations_[slot]`, a 32-bit counter
abbrev pub bump_generation : ℕ → Cmd (Unit {0})
bump_generation slot =
    modify (λ b. record b {
      generations = update b.generations slot ((b.generations slot + 1) % 2 ^ 32);
    })

-- `on_trade(t)`
abbrev pub report : Trade → Cmd (Unit {0})
report t = modify (λ b. record b { trades = b.trades ++ (t ∷ []) })

-- `static_cast<std::size_t>(price - base_)`
unfoldable pub tick : ℤ → ℤ → ℕ
tick price base = to_u64 (price -ℤ base)
