-- ===== src/Book/Rest/Kept.antt =====
-- `rest` and `rest_iceberg` keep the book well formed.
use c_order_book.Prelude.{
  ℕ, ◌+◌, ◌^◌, ◌%◌, ◌<◌, ◌≤◌, ◌≡◌, ◌∙◌, ap, sym, refl, true, false, arith, ◌==◌, if◌then◌else◌,
  Bool-cases, inl, inr, Option, none, some, List, [], ◌∷◌, ◌++◌,
}
use c_order_book.Prelude.Int.{ℤ, pos, ◌<ℤ◌, ◌≤ℤ◌}
use c_order_book.Prelude.Word.{update}
use c_order_book.Pool.{Cell}
use c_order_book.Pool.Free.{is_free}
use c_order_book.Order.{Side, Order, is_buy}
use c_order_book.Book.State.{Book}
use c_order_book.Book.Links.{make_id, mark_level, place}
use c_order_book.Book.Engine.{crosses}
use c_order_book.Book.Queue.{Entry, last_or, last_or-append, has_slot, Snoc, none_in, snoc}
use c_order_book.Book.Top.{IsTop, others-IsTop}
use c_order_book.Book.Valid.{View, price_of, bid_at, ask_at, AllGood, IsStored, IsBook}
use c_order_book.Book.Returns.{Returns, returns}
use c_order_book.Book.Rest.{placed, place_first, place_behind}
use c_order_book.Book.Rest.Stored.{
  after, b1, x_nowhere, x_inside, free0, alone-IsStored, beside-IsStored, last_order, last_cell,
  new_slot,
}
use c_order_book.Book.Rest.Sides.{
  occupied-snoc, other_side, same_side, behind-IsTop, behind-uncrossed,
}

pub AllGood-update :
    (g : ℕ → ℕ) (x k : ℕ) (es : List Entry)
    → has_slot x es ≡ false
    → AllGood g es
    → AllGood (update g x k) es
AllGood-update g x k [] h a = tt
AllGood-update g x k (e ∷ es) h a = (
  record {
    named = ground (arith, a.0.named);
    shown = a.0.shown;
    reserve = a.0.reserve;
    clip = a.0.clip;
  },
  AllGood-update g x k es (ground arith) a.1,
)

pub AllGood-append :
    (g : ℕ → ℕ) (xs ys : List Entry) → AllGood g xs → AllGood g ys → AllGood g (xs ++ ys)
AllGood-append g [] ys a c = c
AllGood-append g (x ∷ xs) ys a c = (a.0, AllGood-append g xs ys a.1 c)

mark_level-IsStored :
    {pool_cap : ℕ} {b : Book} {v : View} (side : Side) (idx : ℕ)
    → IsStored pool_cap b v
    → IsStored pool_cap (mark_level side idx b) v
unfolding mark_level
mark_level-IsStored Side.buy idx s = record {
  free = s.free;
  capacity = s.capacity;
  linked = s.linked;
  distinct = s.distinct;
  head = s.head;
  tail = s.tail;
  sum = s.sum;
  bounded = s.bounded;
  resides = s.resides;
}
mark_level-IsStored Side.sell idx s = record {
  free = s.free;
  capacity = s.capacity;
  linked = s.linked;
  distinct = s.distinct;
  head = s.head;
  tail = s.tail;
  sum = s.sum;
  bounded = s.bounded;
  resides = s.resides;
}

trades-mark_level : (side : Side) (idx : ℕ) (b : Book) → (mark_level side idx b).trades ≡ b.trades
unfolding mark_level
trades-mark_level Side.buy idx b = refl
trades-mark_level Side.sell idx b = refl

marked-IsBook :
    {num_ticks pool_cap : ℕ} (side : Side) (idx : ℕ) {b : Book} {v : View}
    → IsStored pool_cap b v
    → ((i : ℕ) → AllGood b.generations (v.queue i))
    → ((n : ℕ) → b.generations n < 2 ^ 32)
    → ((n : ℕ) → n < pool_cap → (b.generations n % 2 == 0) ≡ is_free (b.pool.cells n))
    → IsTop num_ticks (mark_level side idx b) (bid_at v) (ask_at v)
    → ((i j : ℕ) → bid_at v i ≡ true → ask_at v j ≡ true → i < j)
    → IsBook num_ticks pool_cap (mark_level side idx b) v
unfolding mark_level
marked-IsBook Side.buy idx s g k p t u = record {
  stored = mark_level-IsStored Side.buy idx s;
  good = g;
  wide = k;
  parity = p;
  top = t;
  uncrossed = u;
}
marked-IsBook Side.sell idx s g k p t u = record {
  stored = mark_level-IsStored Side.sell idx s;
  good = g;
  wide = k;
  parity = p;
  top = t;
  uncrossed = u;
}

odd : (g : ℕ) → (g % 2 == 0) ≡ true → ((g + 1) % 2 ^ 32 % 2 == 0) ≡ false
odd g h = ground (arith, h)

module _ {num_ticks pool_cap : ℕ} (small : num_ticks ≤ 2 ^ 18) {b : Book} {v : View}
    (w : IsBook num_ticks pool_cap b v) (side : Side) (idx : ℕ) (visible display hidden : ℤ) (x : ℕ)
    (xs : List ℕ) (f : v.free ≡ x ∷ xs) (inside : idx < num_ticks)
    (apart : crosses side idx b ≡ false) (lots : pos 0 <ℤ visible) (reserve : pos 0 ≤ℤ hidden)
    (clip : pos 0 <ℤ hidden → pos 0 <ℤ display) where
  abbrev later : View
  later = after w.stored side idx visible display hidden x xs f

  good_after :
      (i : ℕ) → AllGood (update b.generations x ((b.generations x + 1) % 2 ^ 32)) (later.queue i)
  good_after i = elim (Bool-cases (idx == i)) [
    | inl e ↦ rw e (
        AllGood-append _ (v.queue idx) _ (old idx)
          (record { named = ground arith; shown = lots; reserve = reserve; clip = clip }, tt))
    | inr o ↦ rw o (old i)
  ]
    where
      old : (i : ℕ) → AllGood (update b.generations x ((b.generations x + 1) % 2 ^ 32)) (v.queue i)
      old i =
          AllGood-update b.generations x _ (v.queue i)
            (x_nowhere w.stored side idx visible display hidden x xs f i) (w.good i)

  other : (if is_buy side then ask_at v idx else bid_at v idx) ≡ false
  other = other_side v side idx w.top apart

  was_free : is_free (b.pool.cells x) ≡ true
  was_free = ground (arith, (free0 w.stored side idx visible display hidden x xs f).chain)

  parity_after :
      (n : ℕ)
      → n < pool_cap
      → (update b.generations x ((b.generations x + 1) % 2 ^ 32) n % 2 == 0)
        ≡ (if x == n then false else is_free (b.pool.cells n))
  parity_after n l = elim (Bool-cases (x == n)) [
    | inl e ↦ rw e (
        odd (b.generations x)
          (w.parity x (x_inside w.stored side idx visible display hidden x xs f) ∙ was_free))
    | inr o ↦ rw o (w.parity n l)
  ]

  -- The invariant holds once the arena and the level do.
  rested-IsBook :
      (c : ℕ → Cell Order) (head : Option ℕ)
      → IsStored pool_cap
          (placed side idx
            (price_of b idx)
            visible
            display
            hidden
            x
            (b1 w.stored side idx visible display hidden x xs f)
            c
            head)
          later
      → ((n : ℕ)
          → n < pool_cap
          → is_free (c n) ≡ (if x == n then false else is_free (b.pool.cells n)))
      → IsBook num_ticks pool_cap
          (mark_level side idx (
            placed side idx
              (price_of b idx)
              visible
              display
              hidden
              x
              (b1 w.stored side idx visible display hidden x xs f)
              c
              head))
          later
  rested-IsBook c head s cells =
      marked-IsBook side idx s good_after (λ n. ground (arith, w.wide n))
        (λ n l. parity_after n l ∙ sym (cells n l))
        (behind-IsTop small v side idx _ xs inside (others-IsTop num_ticks _ _ _ _ w.top) other)
        (behind-uncrossed v side idx _ xs w.top apart other w.uncrossed)

  abbrev here : Book
  here = b1 w.stored side idx visible display hidden x xs f

  abbrev Placed : ℕ → Book → Type 0
  Placed id b2 =
      (id ≡ make_id ((b.generations x + 1) % 2 ^ 32) x)
      × IsBook num_ticks pool_cap b2 later
      × (b2.trades ≡ b.trades)

  pub place-IsBook :
      {q : List Entry}
      → Snoc q
      → v.queue idx ≡ q
      → Returns Placed (place side idx (price_of b idx) visible display hidden x here)
  place-IsBook none_in e =
      let tail = w.stored.tail idx ∙ ap (last_or none) e in
      rw (place_first side idx (price_of b idx) visible display hidden x here (ground arith) tail) (
        returns (
          refl,
          rested-IsBook _ (some x)
              (alone-IsStored w.stored side idx visible display hidden x xs f e)
              (λ n l. ground arith),
          trades-mark_level side idx _,
        ))
  place-IsBook (snoc ys z) e =
      let same = same_side v side idx other (rw e (occupied-snoc ys z)) in
      let tail = w.stored.tail idx ∙ ap (last_or none) e ∙ last_or-append none ys (z ∷ []) in
      let live = last_cell w.stored side idx visible display hidden x xs f ys z e same in
      let distinct = new_slot w.stored side idx visible display hidden x xs f ys z e same in
      rw
        (place_behind side idx (price_of b idx) visible display hidden x here z.slot
          (last_order w.stored side idx visible display hidden x xs f ys z e same) (ground arith)
          tail distinct (ground (arith, live, distinct)))
        (returns (
          refl,
          rested-IsBook _ _
              (beside-IsStored w.stored side idx visible display hidden x xs f ys z e same)
              (λ n l. ground (arith, live)),
          trades-mark_level side idx _,
        ))
