-- ===== src/Book/Fills/Stored.antt =====
-- The arena and the queues after a sweep.
use c_order_book.Prelude.{
  ℕ, ◌≡◌, ◌≢◌, ◌∙◌, ap, refl, arith, ◌==◌, Bool-cases, inl, inr, none, List, ◌++◌, if◌then◌else◌,
}
use mathlib.Core.Path.{subst}
use c_order_book.Pool.{Cell, object}
use c_order_book.Pool.Free.{IsFree, is_free}
use c_order_book.Order.{Order}
use c_order_book.Book.State.{Book, PriceLevel}
use c_order_book.Book.Queue.{Entry, first_or, last_or, Seg}
use c_order_book.Book.Valid.{View, price_of, IsStored}
use c_order_book.Book.Unlink.{requeued}
use c_order_book.Book.Unlink.Stored.{object_of}
use c_order_book.Book.Fills.{Live, put_live, Sweeping}

-- The slots `c` and the levels `l` after the loop's variables were written back to the level.
pub record Settled (b : Book) (v : View) (idx : ℕ) (now : Live) (q : List Entry) (free : List ℕ)
    (c : ℕ → Cell Order) (l : ℕ → PriceLevel) : Type 0 where
  pub here : Seg (price_of b idx) (v.side idx) c none q none
  pub there : (i : ℕ) → idx ≢ i → Seg (price_of b i) (v.side i) c none (v.queue i) none
  pub same : (n : ℕ) → is_free (c n) ≡ is_free (now.cells n)
  pub frees : IsFree (record (b.pool) { cells = c; free_head = now.free_head }) free
  pub level :
      (j : ℕ)
      → l j ≡ (
          if idx == j
          then record {
            head = first_or none q;
            tail = last_or none q;
            total_qty = (now.levels idx).total_qty;
          }
          else now.levels j)

abbrev pub settled : Live → (ℕ → Cell Order) → (ℕ → PriceLevel) → Live
settled now c l = record now { cells = c; levels = l }

module _ {pool_cap : ℕ} {b : Book} {v : View} (s : IsStored pool_cap b v) (idx : ℕ) {now : Live}
    {es rl : List Entry} {free : List ℕ} (w : Sweeping pool_cap b v idx now es rl free)
    (c : ℕ → Cell Order) (l : ℕ → PriceLevel) (k : Settled b v idx now (es ++ rl) free c l) where
  abbrev pub after : View
  after = requeued v idx (es ++ rl) free

  linked_after : (i : ℕ) → Seg (price_of b i) (v.side i) c none (after.queue i) none
  linked_after i = elim (Bool-cases (idx == i)) [
    | inl h ↦
        rw h
          (subst (λ j. Seg (price_of b j) (v.side j) c none (es ++ rl) none) (grind arith) k.here)
    | inr h ↦ rw h (k.there i (grind arith))
  ]

  was : (n : ℕ) (o : Order) → c n ≡ object o → (o2 : Order) × (now.cells n ≡ object o2)
  was n o h = object_of (now.cells n) (ground (arith, h, k.same n))

  pub settled-IsStored : IsStored pool_cap (put_live (settled now c l) b) after
  settled-IsStored = record {
    free = k.frees;
    capacity = s.capacity;
    linked = linked_after;
    distinct =
        λ i. elim (Bool-cases (idx == i)) [ inl h ↦ rw h w.distinct | inr h ↦ rw h (s.distinct i) ];
    head = λ i. elim (Bool-cases (idx == i)) [
      | inl h ↦ rw (k.level i, h) refl
      | inr h ↦ rw (k.level i, h) (ap PriceLevel.head (w.others i (ground (arith, h))) ∙ s.head i)
    ];
    tail = λ i. elim (Bool-cases (idx == i)) [
      | inl h ↦ rw (k.level i, h) refl
      | inr h ↦ rw (k.level i, h) (ap PriceLevel.tail (w.others i (ground (arith, h))) ∙ s.tail i)
    ];
    sum = λ i. elim (Bool-cases (idx == i)) [
      | inl h ↦ rw (k.level i, h) w.sum
      | inr h ↦
          rw (k.level i, h) (ap PriceLevel.total_qty (w.others i (ground (arith, h))) ∙ s.sum i)
    ];
    bounded = λ n o h. w.bounded n (was n o h).0 (was n o h).1;
    resides = λ n o h. w.resides n (was n o h).0 (was n o h).1;
  }
