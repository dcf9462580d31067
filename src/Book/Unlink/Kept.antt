-- ===== src/Book/Unlink/Kept.antt =====
-- `unlink_and_release` keeps the book well formed.
use c_order_book.Prelude.{
  ℕ, ◌+◌, ◌^◌, ◌%◌, ◌<◌, ◌≤◌, ◌≡◌, ◌∙◌, ap, sym, refl, true, false, not, ◌&&◌, arith, ◌==◌,
  Bool-cases, inl, inr, none, List, [], ◌∷◌, ◌++◌,
}
use mathlib.Core.Path.{subst}
use c_order_book.Prelude.Word.{update}
use c_order_book.Pool.{Cell}
use c_order_book.Pool.Free.{is_free}
use c_order_book.Order.{Order, is_buy}
use c_order_book.Book.State.{Book, PriceLevel}
use c_order_book.Book.Links.{if_emptied, unlink_and_release, is_none}
use c_order_book.Book.Queue.{Entry, first_or}
use c_order_book.Book.Valid.{View, IsStored, IsBook, AllGood, bid_at, ask_at, occupied, tick-price}
use c_order_book.Book.Top.{
  IsTop, others-IsTop, with_top, with_top-IsTop, IsTop-ext, level_emptied-IsTop,
}
use c_order_book.Book.Rest.Kept.{AllGood-update}
use c_order_book.Book.Returns.{Returns, returns}
use c_order_book.Book.Requeued.{held_before, bids_gone, asks_gone, held_after}
use c_order_book.Book.Unlink.{requeued}
use c_order_book.Book.Unlink.Stored.{Closed, released-IsStored, nowhere, inside}
use c_order_book.Book.Unlink.Run.{
  unlinked, unlink_and_release-unlinked, order_of, order_of-live, order_of-still, before, after,
  levels_after, Closed-after,
}

AllGood-gone :
    (g : ℕ → ℕ) (ys zs : List Entry) (e : Entry) → AllGood g (ys ++ (e ∷ zs)) → AllGood g (ys ++ zs)
AllGood-gone g [] zs e a = a.1
AllGood-gone g (y ∷ ys) zs e a = (a.0, AllGood-gone g ys zs e a.1)

occupied-cons : (ys zs : List Entry) (e : Entry) → occupied (ys ++ (e ∷ zs)) ≡ true
occupied-cons [] zs e = refl
occupied-cons (y ∷ ys) zs e = refl

-- A level is empty exactly if its head is null.
is_none-head : (es : List Entry) → is_none (first_or none es) ≡ not (occupied es)
is_none-head [] = refl
is_none-head (e ∷ es) = refl

pub even : (g : ℕ) → (g % 2 == 0) ≡ false → ((g + 1) % 2 ^ 32 % 2 == 0) ≡ true
even g h = ground (arith, h)

-- What the arena and the levels hold does not depend on the indices.
pub tops-IsStored :
    {pool_cap : ℕ} {b : Book} {v : View} (t : Book) (g : ℕ → ℕ)
    → IsStored pool_cap b v
    → IsStored pool_cap (record (with_top t b) { generations = g }) v
tops-IsStored t g s = record {
  free = s.free;
  capacity = s.capacity;
  linked = s.linked;
  distinct = s.distinct;
  head = s.head;
  tail = s.tail;
  sum = s.sum;
  bounded = s.bounded;
  resides = s.resides;
}

module _ {num_ticks pool_cap : ℕ} (small : num_ticks ≤ 2 ^ 18) {b : Book} {v : View}
    (w : IsBook num_ticks pool_cap b v) (idx : ℕ) (ys zs : List Entry) (e : Entry)
    (queue : v.queue idx ≡ ys ++ (e ∷ zs)) where
  abbrev later : View
  later = requeued v idx (ys ++ zs) (e.slot ∷ v.free)

  abbrev cells_now : ℕ → Cell Order
  cells_now = (after w.stored idx ys zs e queue).cells

  abbrev levels_now : ℕ → PriceLevel
  levels_now = levels_after w.stored idx ys zs e queue

  closed : Closed b v idx ys zs e cells_now levels_now
  closed = Closed-after w.stored idx ys zs e queue

  held : occupied (v.queue idx) ≡ true
  held = rw queue (occupied-cons ys zs e)

  pub in_ladder : idx < num_ticks
  in_ladder = ground (arith, held, w.top.bid_inside idx, w.top.ask_inside idx)

  good_after :
      (i : ℕ)
      → AllGood (update b.generations e.slot ((b.generations e.slot + 1) % 2 ^ 32)) (later.queue i)
  good_after i =
      AllGood-update b.generations e.slot _ (later.queue i) (nowhere w.stored idx ys zs e queue i)
        (elim (Bool-cases (idx == i)) [
          | inl h ↦ rw h (
              AllGood-gone b.generations ys zs e (subst (AllGood b.generations) queue (w.good idx)))
          | inr h ↦ rw h (w.good i)
        ])

  was_odd : (b.generations e.slot % 2 == 0) ≡ false
  was_odd =
      w.parity e.slot (inside w.stored idx ys zs e queue cells_now levels_now closed)
      ∙ ap is_free (order_of-live w.stored idx ys zs e queue)

  abbrev final_book : Book
  final_book =
      unlinked num_ticks e.slot idx (order_of w.stored idx ys zs e queue) b v.free cells_now
        (after w.stored idx ys zs e queue).levels

  parity_after :
      (n : ℕ)
      → n < pool_cap
      → (final_book.generations n % 2 == 0) ≡ is_free (final_book.pool.cells n)
  parity_after n l = elim (Bool-cases (e.slot == n)) [
    | inl h ↦ rw h (even (b.generations e.slot) was_odd)
    | inr h ↦ rw h (w.parity n l ∙ sym (closed.same n))
  ]

  head_now : (levels_now idx).head ≡ first_or none (ys ++ zs)
  head_now = ground (arith, closed.level idx)

  abbrev tested_book : Book
  tested_book = record b { pool = record (b.pool) { cells = cells_now }; levels = levels_now }

  tested_book-IsTop : IsTop num_ticks tested_book (bid_at v) (ask_at v)
  tested_book-IsTop = others-IsTop num_ticks _ _ _ _ w.top

  if_emptied-IsTop :
      (q : List Entry)
      → ys ++ zs ≡ q
      → IsTop num_ticks
          (if_emptied num_ticks (v.side idx) idx tested_book)
          (bid_at later)
          (ask_at later)
  unfolding if_emptied
  if_emptied-IsTop [] h = rw (head_now ∙ ap (first_or none) h) (
      IsTop-ext num_ticks (bids_gone v idx (ys ++ zs) (e.slot ∷ v.free) h)
        (asks_gone v idx (ys ++ zs) (e.slot ∷ v.free) h)
        (level_emptied-IsTop num_ticks small tested_book-IsTop idx in_ladder (v.side idx)))
  if_emptied-IsTop (q ∷ qs) h = rw (head_now ∙ ap (first_or none) h) (
      IsTop-ext num_ticks
        (λ i.
          ap (λ t. t && is_buy (v.side i))
            (held_after v idx (ys ++ zs) (e.slot ∷ v.free) held q qs h i))
        (λ i.
          ap (λ t. t && not (is_buy (v.side i)))
            (held_after v idx (ys ++ zs) (e.slot ∷ v.free) held q qs h i))
        tested_book-IsTop)

  fits : idx < 2 ^ 64
  fits = omega (arith, in_ladder)

  pub unlinked-IsBook : IsBook num_ticks pool_cap final_book later
  unlinked-IsBook = record {
    stored =
        tops-IsStored (if_emptied num_ticks (v.side idx) idx tested_book) final_book.generations
          (released-IsStored w.stored idx ys zs e queue cells_now levels_now closed);
    good = good_after;
    wide = λ n. ground (arith, w.wide n);
    parity = parity_after;
    top = with_top-IsTop num_ticks final_book (if_emptied-IsTop (ys ++ zs) refl);
    uncrossed = λ i j p q.
        w.uncrossed i j (ground (arith, p, held_before v idx (ys ++ zs) (e.slot ∷ v.free) held i))
          (ground (arith, q, held_before v idx (ys ++ zs) (e.slot ∷ v.free) held j));
  }

  -- The entry `e` leaves its queue, and its slot becomes the first free one.
  pub unlink_and_release-IsBook :
      Returns (λ _ b2. IsBook num_ticks pool_cap b2 later) (unlink_and_release num_ticks e.slot b)
  unlink_and_release-IsBook =
      rw
        (unlink_and_release-unlinked num_ticks e.slot idx (order_of w.stored idx ys zs e queue) b
          v.free cells_now (after w.stored idx ys zs e queue).levels
          (before w.stored idx ys zs e queue).cells (before w.stored idx ys zs e queue).levels
          (order_of w.stored idx ys zs e queue) (order_of-live w.stored idx ys zs e queue)
          (tick-price b.base idx fits) (before w.stored idx ys zs e queue).ran
          (after w.stored idx ys zs e queue).ran (order_of-still w.stored idx ys zs e queue)
          closed.frees)
        (returns unlinked-IsBook)
