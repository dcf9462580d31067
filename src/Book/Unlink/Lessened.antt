-- ===== src/Book/Unlink/Lessened.antt =====
-- `reduce` of a part of an order's lots: the order keeps its place in its queue.
use c_order_book.Prelude.{
  ℕ, ◌<◌, ◌≡◌, ◌∙◌, ap, sym, refl, true, not, ◌&&◌, ◌||◌, arith, ◌==◌, Bool-cases, inl, inr, none,
  some, List, [], ◌∷◌, ◌++◌,
}
use mathlib.Core.Path.{subst}
use c_order_book.Prelude.Int.{ℤ, ◌-ℤ◌, ◌<ℤ◌, int_laws}
use c_order_book.Pool.{object}
use c_order_book.Pool.Free.{store-IsFree}
use c_order_book.Order.{Order, is_buy}
use c_order_book.Book.State.{Book, set_level}
use c_order_book.Book.Access.{put_order}
use c_order_book.Book.Queue.{
  Entry, first_or, last_or, has_slot, has_slot-append, Distinct, Distinct-right, Distinct-apart,
  total, total-append, Seg, Seg-split, Seg-join, Seg-update, last_or-append,
}
use c_order_book.Book.Top.{others-IsTop, IsTop-ext}
use c_order_book.Book.Valid.{
  View, price_of, IsStored, IsBook, AllGood, elsewhere, queued-inside, occupied,
}
use c_order_book.Book.Unlink.{requeued}
use c_order_book.Book.Unlink.Run.{order_of, order_of-live}

module _ (e : Entry) (q : ℤ) where
  abbrev pub lessened : Entry
  lessened = record {
    slot = e.slot;
    id = e.id;
    qty = e.qty -ℤ q;
    hidden = e.hidden;
    display = e.display;
  }

  has_slot-lessened :
      (n : ℕ) (ys zs : List Entry)
      → has_slot n (ys ++ (lessened ∷ zs)) ≡ has_slot n (ys ++ (e ∷ zs))
  has_slot-lessened n [] zs = refl
  has_slot-lessened n (y ∷ ys) zs = ap (λ t. (n == y.slot) || t) (has_slot-lessened n ys zs)

  Distinct-lessened :
      (ys zs : List Entry) → Distinct (ys ++ (e ∷ zs)) → Distinct (ys ++ (lessened ∷ zs))
  Distinct-lessened [] zs d = d
  Distinct-lessened (y ∷ ys) zs d =
      (has_slot-lessened y.slot ys zs ∙ d.0, Distinct-lessened ys zs d.1)

  first_or-lessened :
      (ys zs : List Entry) → first_or none (ys ++ (e ∷ zs)) ≡ first_or none (ys ++ (lessened ∷ zs))
  first_or-lessened [] zs = refl
  first_or-lessened (y ∷ ys) zs = refl

  last_or-lessened :
      (ys zs : List Entry) → last_or none (ys ++ (e ∷ zs)) ≡ last_or none (ys ++ (lessened ∷ zs))
  last_or-lessened ys zs =
      last_or-append none ys (e ∷ zs) ∙ sym (last_or-append none ys (lessened ∷ zs))

  total-lessened :
      (ys zs : List Entry) → total (ys ++ (e ∷ zs)) -ℤ q ≡ total (ys ++ (lessened ∷ zs))
  total-lessened ys zs =
      ap (λ t. t -ℤ q) (total-append ys (e ∷ zs))
      ∙ omega int_laws
      ∙ sym (total-append ys (lessened ∷ zs))

  AllGood-lessened :
      (g : ℕ → ℕ) (ys zs : List Entry)
      → q <ℤ e.qty
      → AllGood g (ys ++ (e ∷ zs))
      → AllGood g (ys ++ (lessened ∷ zs))
  AllGood-lessened g [] zs l a = (
    record {
      named = a.0.named;
      shown = omega (int_laws, l);
      reserve = a.0.reserve;
      clip = a.0.clip;
    },
    a.1,
  )
  AllGood-lessened g (y ∷ ys) zs l a = (a.0, AllGood-lessened g ys zs l a.1)

  occupied-lessened :
      (ys zs : List Entry) → occupied (ys ++ (e ∷ zs)) ≡ occupied (ys ++ (lessened ∷ zs))
  occupied-lessened [] zs = refl
  occupied-lessened (y ∷ ys) zs = refl

module _ {num_ticks pool_cap : ℕ} {b : Book} {v : View} (w : IsBook num_ticks pool_cap b v)
    (idx : ℕ) (ys zs : List Entry) (e : Entry) (queue : v.queue idx ≡ ys ++ (e ∷ zs)) (q : ℤ)
    (part : q <ℤ e.qty) where
  abbrev pub lessened_order : Order
  lessened_order = record (order_of w.stored idx ys zs e queue) { qty = e.qty -ℤ q }

  abbrev pub lessened_view : View
  lessened_view = requeued v idx (ys ++ (lessened e q ∷ zs)) v.free

  abbrev pub lessened_book : Book
  lessened_book =
      set_level idx (record (b.levels idx) { total_qty = (b.levels idx).total_qty -ℤ q })
        (put_order e.slot lessened_order b)

  there : has_slot e.slot (v.queue idx) ≡ true
  there = rw queue (ground (arith, has_slot-append e.slot ys (e ∷ zs)))

  inside : e.slot < pool_cap
  inside = queued-inside w.stored e.slot idx there

  live : b.pool.cells e.slot ≡ object (order_of w.stored idx ys zs e queue)
  live = order_of-live w.stored idx ys zs e queue

  -- The queue of each level before and after.
  same_at :
      {A : Type 0} (f : List Entry → A)
      → f (ys ++ (e ∷ zs)) ≡ f (ys ++ (lessened e q ∷ zs))
      → (i : ℕ) → f (v.queue i) ≡ f (lessened_view.queue i)
  same_at f h i = elim (Bool-cases (idx == i)) [
    | inl here ↦
        let same : idx ≡ i = ground (arith, here) in
        sym (ap (λ j. f (v.queue j)) same) ∙ ap f queue ∙ h ∙ rw here refl
    | inr other ↦ rw other refl
  ]

  apart : Distinct (ys ++ (e ∷ zs))
  apart = subst Distinct queue (w.stored.distinct idx)

  here_after :
      Seg
        (price_of b idx)
        (v.side idx)
        lessened_book.pool.cells
        none
        (ys ++ (lessened e q ∷ zs))
        none
  here_after =
      let parts = Seg-split (price_of b idx) (v.side idx) b.pool.cells none none ys (e ∷ zs) (
        subst (λ r. Seg (price_of b idx) (v.side idx) b.pool.cells none r none) queue
          (w.stored.linked idx)) in
      Seg-join (price_of b idx) (v.side idx) _ none none ys (lessened e q ∷ zs)
        (Seg-update (price_of b idx) (v.side idx) b.pool.cells e.slot _ none (some e.slot) ys
          (ground (arith, Distinct-apart ys (e ∷ zs) e.slot apart)) parts.0)
        (
          ground arith,
          Seg-update (price_of b idx) (v.side idx) b.pool.cells e.slot _ (some e.slot) none zs
              (Distinct-right ys (e ∷ zs) apart).0 parts.1.1,
        )

  linked_after :
      (i : ℕ)
      → Seg (price_of b i) (v.side i) lessened_book.pool.cells none (lessened_view.queue i) none
  linked_after i = elim (Bool-cases (idx == i)) [
    | inl here ↦ rw here (
        subst
          (λ j.
            Seg (price_of b j) (v.side j) lessened_book.pool.cells none (ys ++ (lessened e q ∷ zs))
              none)
          (ground (arith, here)) here_after)
    | inr other ↦ rw other (
        Seg-update (price_of b i) (v.side i) b.pool.cells e.slot _ none none (v.queue i)
          (elsewhere w.stored e.slot idx i (ground (arith, other)) there) (w.stored.linked i))
  ]

  lessened-IsStored : IsStored pool_cap lessened_book lessened_view
  lessened-IsStored = record {
    free =
        store-IsFree b.pool e.slot _ _ v.free live (omega (arith, inside, w.stored.capacity))
          w.stored.free;
    capacity = w.stored.capacity;
    linked = linked_after;
    distinct = λ i. elim (Bool-cases (idx == i)) [
      | inl here ↦ rw here (Distinct-lessened e q ys zs apart)
      | inr other ↦ rw other (w.stored.distinct i)
    ];
    head = λ i.
        ground (arith, w.stored.head i, same_at (first_or none) (first_or-lessened e q ys zs) i);
    tail =
        λ i. ground (arith, w.stored.tail i, same_at (last_or none) (last_or-lessened e q ys zs) i);
    sum = λ i. elim (Bool-cases (idx == i)) [
      | inl here ↦
          rw here (ap (λ t. t -ℤ q) (w.stored.sum idx ∙ ap total queue) ∙ total-lessened e q ys zs)
      | inr other ↦ rw other (w.stored.sum i)
    ];
    bounded = λ n o h. ground (arith, w.stored.bounded n o, inside);
    resides = λ n o h. elim (Bool-cases (e.slot == n)) [
      | inl k ↦ (
        idx,
        sym (same_at (has_slot n) (sym (has_slot-lessened e q n ys zs)) idx)
            ∙ ap (λ m. has_slot m (v.queue idx)) (ground (arith, k))
            ∙ there,
      )
      | inr k ↦
          let (i, at) = w.stored.resides n o (ground (arith, h, k)) in
          (i, sym (same_at (has_slot n) (sym (has_slot-lessened e q n ys zs)) i) ∙ at)
    ];
  }

  held_after : (i : ℕ) → occupied (v.queue i) ≡ occupied (lessened_view.queue i)
  held_after = same_at occupied (occupied-lessened e q ys zs)

  pub lessened-IsBook : IsBook num_ticks pool_cap lessened_book lessened_view
  lessened-IsBook = record {
    stored = lessened-IsStored;
    good = λ i. elim (Bool-cases (idx == i)) [
      | inl here ↦ rw here (
          AllGood-lessened e q b.generations ys zs part
            (subst (AllGood b.generations) queue (w.good idx)))
      | inr other ↦ rw other (w.good i)
    ];
    wide = w.wide;
    parity = λ n l. ground (arith, w.parity n l, live);
    top =
        IsTop-ext num_ticks (λ i. ap (λ t. t && is_buy (v.side i)) (held_after i))
          (λ i. ap (λ t. t && not (is_buy (v.side i))) (held_after i))
          (others-IsTop num_ticks _ _ _ _ w.top);
    uncrossed = λ i j h k.
        w.uncrossed i j (ground (arith, h, held_after i)) (ground (arith, k, held_after j));
  }
