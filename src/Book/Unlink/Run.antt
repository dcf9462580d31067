-- ===== src/Book/Unlink/Run.antt =====
-- `unlink_and_release` step by step: it returns, and the state that it leaves.
use c_order_book.Prelude.{
  ℕ, ◌+◌, ◌^◌, ◌%◌, ◌<◌, ◌≡◌, ◌∙◌, ap, refl, true, false, ◌||◌, arith, ◌==◌, Bool-cases, inl, inr,
  none, some, List, ◌∷◌, ◌++◌, if◌then◌else◌,
}
use mathlib.Core.Path.{subst}
use c_order_book.Prelude.Int.{◌-ℤ◌}
use c_order_book.Prelude.Word.{update}
use c_order_book.Pool.{Cell, object}
use c_order_book.Pool.Free.{IsFree, release-cons}
use c_order_book.Order.{Side, Order}
use c_order_book.Book.State.{Book, PriceLevel, tick}
use c_order_book.Book.Access.{load_order-ok}
use c_order_book.Book.Links.{
  unlink_prev, unlink_next, level_emptied, clear_bid, clear_ask, if_emptied, unlink_and_release,
  release_order, is_none,
}
use c_order_book.Book.Queue.{
  Entry, as_order, first_or, last_or, has_slot, has_slot-append, Distinct, Distinct-left,
  Distinct-right, Distinct-apart, Seg, Seg-split, Seg-join, to_snoc,
}
use c_order_book.Book.Top.{with_top}
use c_order_book.Book.Valid.{View, price_of, IsStored, elsewhere, queued-inside}
use c_order_book.Book.Unlink.{Relinked-is_free, Relinked-other, Relinked-Seg, Relinked-IsFree}
use c_order_book.Book.Unlink.Links.{with_links, Front, Back, unlink_prev-Front, unlink_next-Back}
use c_order_book.Book.Unlink.Stored.{Closed, released}

-- The levels after the lots of `o` left the total of level `idx`.
abbrev pub totalled : ℕ → Order → (ℕ → PriceLevel) → ℕ → PriceLevel
totalled idx o l = update l idx (record (l idx) { total_qty = (l idx).total_qty -ℤ o.qty })

module _ (num_ticks : ℕ) where
  if_emptied-with_top :
      (side : Side) (idx : ℕ) (b : Book)
      → if_emptied num_ticks side idx b ≡ with_top (if_emptied num_ticks side idx b) b
  unfolding if_emptied level_emptied clear_bid clear_ask
  if_emptied-with_top Side.buy idx b = elim (Bool-cases (is_none (b.levels idx).head)) [
    | inr h ↦ rw h refl
    | inl h ↦ rw h (elim (Bool-cases (idx == b.best_bid)) [ inl k ↦ rw k refl | inr k ↦ rw k refl ])
  ]
  if_emptied-with_top Side.sell idx b = elim (Bool-cases (is_none (b.levels idx).head)) [
    | inr h ↦ rw h refl
    | inl h ↦ rw h (elim (Bool-cases (idx == b.best_ask)) [ inl k ↦ rw k refl | inr k ↦ rw k refl ])
  ]

  module _ (n idx : ℕ) (o : Order) (b : Book) (free : List ℕ) (c : ℕ → Cell Order)
      (l : ℕ → PriceLevel) where
    -- the state in which the level's emptiness is tested, and its indices afterwards
    abbrev pub tested : Book
    tested = if_emptied num_ticks o.side idx (with_links c (totalled idx o l) b)

    abbrev pub unlinked : Book
    unlinked = record (with_top tested (released n free c (totalled idx o l) b)) {
      generations = update b.generations n ((b.generations n + 1) % 2 ^ 32);
    }

    abbrev bumped : Book → Book
    bumped t = record t { generations = update t.generations n ((t.generations n + 1) % 2 ^ 32) }

    pub unlink_and_release-unlinked :
        (c1 : ℕ → Cell Order) (l1 : ℕ → PriceLevel) (o2 : Order)
        → b.pool.cells n ≡ object o
        → tick o.price b.base ≡ idx
        → unlink_prev idx o b ≡ some (tt, with_links c1 l1 b)
        → unlink_next idx o (with_links c1 l1 b) ≡ some (tt, with_links c l b)
        → c n ≡ object o2
        → IsFree (record (b.pool) { cells = c }) free
        → unlink_and_release num_ticks n b ≡ some (tt, unlinked)
    unfolding unlink_and_release release_order
    unlink_and_release-unlinked c1 l1 o2 live there first second still frees =
        rw (load_order-ok n b o live, there)
          (rw first (
            rw second (
              ap (λ (t : Book). release_order n (bumped t))
                (if_emptied-with_top o.side idx (with_links c (totalled idx o l) b))
              ∙ rw
                  (
                    release-cons (record (b.pool) { cells = c }) n o2 free frees still,
                    release_order,
                  )
                  refl)))

module _ {pool_cap : ℕ} {b : Book} {v : View} (s : IsStored pool_cap b v) (idx : ℕ)
    (ys zs : List Entry) (e : Entry) (queue : v.queue idx ≡ ys ++ (e ∷ zs)) where
  abbrev pub order_of : Order
  order_of = as_order (price_of b idx) (v.side idx) e (first_or none zs) (last_or none ys)

  parts :
      Seg (price_of b idx) (v.side idx) b.pool.cells none ys (some e.slot)
      × Seg (price_of b idx) (v.side idx) b.pool.cells (last_or none ys) (e ∷ zs) none
  parts =
      Seg-split (price_of b idx) (v.side idx) b.pool.cells none none ys (e ∷ zs) (
        subst (λ q. Seg (price_of b idx) (v.side idx) b.pool.cells none q none) queue
          (s.linked idx))

  pub order_of-live : b.pool.cells e.slot ≡ object order_of
  order_of-live = parts.1.0

  apart : Distinct (ys ++ (e ∷ zs))
  apart = subst Distinct queue (s.distinct idx)

  behind : Distinct (e ∷ zs)
  behind = Distinct-right ys (e ∷ zs) apart

  pub before : Front (price_of b idx) (v.side idx) idx b ys zs (unlink_prev idx order_of b)
  before =
      unlink_prev-Front (price_of b idx) (v.side idx) idx b e ys zs (to_snoc ys)
        (Distinct-left ys (e ∷ zs) apart) (s.head idx ∙ ap (first_or none) queue) parts.0

  abbrev pub halfway : Book
  halfway = with_links before.cells before.levels b

  ys-zs : (n : ℕ) → has_slot n ys ≡ true → has_slot n (e ∷ zs) ≡ false
  ys-zs n h = Distinct-apart ys (e ∷ zs) n apart h

  pub after :
      Back (price_of b idx) (v.side idx) idx halfway ys zs (unlink_next idx order_of halfway)
  after =
      unlink_next-Back (price_of b idx) (v.side idx) idx halfway e ys zs behind.1
        (ap PriceLevel.tail (before.level idx)
          ∙ ground arith
          ∙ s.tail idx
          ∙ ap (last_or none) queue)
        (Relinked-Seg (price_of b idx) (v.side idx) (some e.slot) none zs before.relinked
          (λ n h. ground (arith, ys-zs n h)) parts.1.1)

  abbrev pub levels_after : ℕ → PriceLevel
  levels_after = totalled idx order_of after.levels

  abbrev slots : List Entry
  slots = ys ++ zs

  outside : (n : ℕ) → has_slot n ys ≡ false → has_slot n zs ≡ false → after.cells n ≡ b.pool.cells n
  outside n h k = Relinked-other after.relinked n k ∙ Relinked-other before.relinked n h

  e_outside : (has_slot e.slot ys || has_slot e.slot zs) ≡ false
  e_outside = ground (arith, behind.0, ys-zs e.slot)

  pub order_of-still : after.cells e.slot ≡ object order_of
  order_of-still =
      outside e.slot (ground (arith, e_outside)) (ground (arith, e_outside)) ∙ order_of-live

  in_queue : (n : ℕ) → (has_slot n ys || has_slot n zs) ≡ true → has_slot n (v.queue idx) ≡ true
  in_queue n h = ap (has_slot n) queue ∙ ground (arith, has_slot-append n ys (e ∷ zs), h)

  inside : (n : ℕ) → has_slot n (v.queue idx) ≡ true → n < b.pool.capacity
  inside n h = rw s.capacity (queued-inside s n idx h)

  level_after :
      (j : ℕ)
      → levels_after j ≡ (
          if idx == j
          then record {
            head = first_or none (ys ++ zs);
            tail = last_or none (ys ++ zs);
            total_qty = (b.levels idx).total_qty -ℤ e.qty;
          }
          else b.levels j)
  level_after j = ground (arith, after.level j, before.level j, after.level idx, before.level idx)

  pub Closed-after : Closed b v idx ys zs e after.cells levels_after
  Closed-after = record {
    here =
        Seg-join (price_of b idx) (v.side idx) after.cells none none ys zs
          (Relinked-Seg (price_of b idx) (v.side idx) none (first_or none zs) ys after.relinked
            (λ n h. ground (arith, ys-zs n, h)) before.seg)
          after.seg;
    there = λ i ne.
        Relinked-Seg (price_of b i) (v.side i) none none (v.queue i) after.relinked
          (λ n h. elsewhere s n idx i ne (in_queue n (ground (arith, h))))
          (Relinked-Seg (price_of b i) (v.side i) none none (v.queue i) before.relinked
            (λ n h. elsewhere s n idx i ne (in_queue n (ground (arith, h)))) (s.linked i));
    order = (order_of, order_of-still);
    frees =
        Relinked-IsFree (record (b.pool) { cells = before.cells }) v.free after.relinked
          (λ n h. inside n (in_queue n (ground (arith, h))))
          (Relinked-IsFree b.pool v.free before.relinked
            (λ n h. inside n (in_queue n (ground (arith, h)))) s.free);
    same = λ n. Relinked-is_free after.relinked n ∙ Relinked-is_free before.relinked n;
    level = level_after;
  }
