-- ===== src/Book/Rest/Stored.antt =====
-- The arena and the queues after an order came to rest: it stands last in its level's queue.
use c_order_book.Prelude.{
  ℕ, ◌<◌, ◌≡◌, ◌≢◌, ◌∙◌, ap, sym, refl, true, false, arith, ◌==◌, Bool-cases, inl, inr, Option,
  none, some, List, [], ◌∷◌, ◌++◌,
}
use mathlib.Core.Path.{subst}
use c_order_book.Prelude.Int.{ℤ, ◌+ℤ◌, int_laws}
use c_order_book.Prelude.Word.{update}
use c_order_book.Pool.{Cell, object}
use c_order_book.Pool.Free
use c_order_book.Pool.Free.{
  IsFree, is_free, acquire-nil, acquire-cons, taken, taken-IsFree, store-IsFree,
}
use c_order_book.Order.{Side, Order, blank}
use c_order_book.Book.State.{Book}
use c_order_book.Book.Queue.{
  Entry, as_order, first_or, last_or, has_slot, Distinct, Distinct-append, total-append,
  has_slot-append, total, Seg, Seg-split, Seg-update, Seg-snoc, last_or-append, first_or-append,
}
use c_order_book.Book.Valid.{View, price_of, IsStored, elsewhere, free_nowhere}
use c_order_book.Book.Rest.{rested, behind, placed, alone, beside}

pub first_or-more :
    (ys : List Entry) (z e : Entry)
    → first_or none (ys ++ (z ∷ [])) ≡ first_or none ((ys ++ (z ∷ [])) ++ (e ∷ []))
first_or-more [] z e = refl
first_or-more (y ∷ ys) z e = refl

module _ {pool_cap : ℕ} {b : Book} {v : View} (s : IsStored pool_cap b v) where
  -- what a write to a slot of level `idx`, or to a free slot, leaves of the other levels
  pub Seg-elsewhere :
      (n idx i : ℕ) (w : Cell Order)
      → idx ≢ i
      → has_slot n (v.queue idx) ≡ true
      → (c : ℕ → Cell Order) → Seg (price_of b i) (v.side i) c none (v.queue i) none
      → Seg (price_of b i) (v.side i) (update c n w) none (v.queue i) none
  Seg-elsewhere n idx i w ne h c g =
      Seg-update (price_of b i) (v.side i) c n w none none (v.queue i) (elsewhere s n idx i ne h) g

  module _ (side : Side) (idx : ℕ) (visible display hidden : ℤ) (x : ℕ) (xs : List ℕ)
      (f : v.free ≡ x ∷ xs) where
    abbrev pub b1 : Book
    b1 = record b { pool = taken blank x xs b.pool }

    abbrev pub new_entry : Entry
    new_entry = rested b.generations x visible display hidden

    pub free0 : IsFree b.pool (x ∷ xs)
    free0 = subst (IsFree b.pool) f s.free

    pub x_nowhere : (i : ℕ) → has_slot x (v.queue i) ≡ false
    x_nowhere i = free_nowhere s x i (Free.first xs) free0.chain.0

    pub x_inside : x < pool_cap
    x_inside = omega (arith, free0.within x (ground arith), s.capacity)

    abbrev pub after : View
    after = behind v side idx new_entry xs

    Distinct-after : (i : ℕ) → Distinct (after.queue i)
    Distinct-after i = elim (Bool-cases (idx == i)) [
      | inl e ↦ rw e (
          Distinct-append (v.queue idx) (new_entry ∷ []) (s.distinct idx) (refl, tt)
            (λ n h. ground (arith, x_nowhere idx)))
      | inr o ↦ rw o (s.distinct i)
    ]

    abbrev placed_here : (ℕ → Cell Order) → Option ℕ → Book
    placed_here = placed side idx (price_of b idx) visible display hidden x b1

    sum_after :
        (c : ℕ → Cell Order) (head : Option ℕ) (i : ℕ)
        → ((placed_here c head).levels i).total_qty ≡ total (after.queue i)
    sum_after c head i = elim (Bool-cases (idx == i)) [
      | inl e ↦ rw e (
          ap (λ t. t +ℤ visible) (s.sum idx)
          ∙ one
          ∙ sym (total-append (v.queue idx) (new_entry ∷ [])))
      | inr o ↦ rw o (s.sum i)
    ]
      where
        one : total (v.queue idx) +ℤ visible ≡ total (v.queue idx) +ℤ total (new_entry ∷ [])
        one = ap (λ t. total (v.queue idx) +ℤ t) (omega int_laws)

    -- What stands in an arena slot after the placing, other than the new order, was in a queue before.
    resides_after :
        (n : ℕ)
        → ((i : ℕ) × (has_slot n (v.queue i) ≡ true))
        → (i : ℕ) × (has_slot n (after.queue i) ≡ true)
    resides_after n (i, h) = (i, ground (arith, h, has_slot-append n (v.queue i) (new_entry ∷ [])))

    new_resides : has_slot x (after.queue idx) ≡ true
    new_resides = ground (arith, has_slot-append x (v.queue idx) (new_entry ∷ []))

    linked_after :
        (c : ℕ → Cell Order)
        → Seg (price_of b idx) side c none (v.queue idx ++ (new_entry ∷ [])) none
        → ((i : ℕ) → idx ≢ i → Seg (price_of b i) (v.side i) c none (v.queue i) none)
        → (i : ℕ) → Seg (price_of b i) (after.side i) c none (after.queue i) none
    linked_after c here there i = elim (Bool-cases (idx == i)) [
      | inl e ↦ rw e (
          subst (λ j. Seg (price_of b j) side c none (v.queue idx ++ (new_entry ∷ [])) none)
            (grind arith) here)
      | inr o ↦ rw o (there i (grind arith))
    ]

    pub alone-IsStored :
        v.queue idx ≡ []
        → IsStored pool_cap (alone side idx (price_of b idx) visible display hidden x b1) after
    alone-IsStored empty = record {
      free =
          store-IsFree (taken blank x xs b.pool) x blank _ xs (ground arith)
            (omega (arith, x_inside, s.capacity)) (taken-IsFree blank b.pool x xs free0);
      capacity = s.capacity;
      linked =
          linked_after (alone side idx (price_of b idx) visible display hidden x b1).pool.cells
            (rw empty (ground arith, tt))
            (λ i ne.
              Seg-update (price_of b i) (v.side i) b1.pool.cells x _ none none (v.queue i)
                (x_nowhere i)
                (Seg-update (price_of b i) (v.side i) b.pool.cells x _ none none (v.queue i)
                  (x_nowhere i) (s.linked i)));
      distinct = Distinct-after;
      head = λ i. ground (arith, s.head i, empty);
      tail = λ i. ground (arith, s.tail i, empty);
      sum = sum_after b1.pool.cells (some x);
      bounded = λ n o e. ground (arith, s.bounded n o, x_inside);
      resides = λ n o e. elim (Bool-cases (x == n)) [
        | inl same ↦ (idx, ground (arith, new_resides))
        | inr other ↦ resides_after n (s.resides n o (ground (arith, e)))
      ];
    }

    module _ (ys : List Entry) (z : Entry) (queue : v.queue idx ≡ ys ++ (z ∷ []))
        (same : v.side idx ≡ side) where
      -- the last order of the level
      abbrev pub last_order : Order
      last_order = as_order (price_of b idx) side z none (last_or none ys)

      in_queue : has_slot z.slot (v.queue idx) ≡ true
      in_queue = rw queue (ground (arith, has_slot-append z.slot ys (z ∷ [])))

      here0 : Seg (price_of b idx) side b.pool.cells none (ys ++ (z ∷ [])) none
      here0 =
          subst (λ d. Seg (price_of b idx) d b.pool.cells none (ys ++ (z ∷ [])) none) same
            (subst (λ q. Seg (price_of b idx) (v.side idx) b.pool.cells none q none) queue
              (s.linked idx))

      pub last_cell : b.pool.cells z.slot ≡ object last_order
      last_cell = (Seg-split (price_of b idx) side b.pool.cells none none ys (z ∷ []) here0).1.0

      z_inside : z.slot < pool_cap
      z_inside = s.bounded z.slot _ last_cell

      pub new_slot : x ≢ z.slot
      new_slot e = ground (arith, x_nowhere idx, in_queue)

      apart : has_slot x (ys ++ (z ∷ [])) ≡ false
      apart = subst (λ q. has_slot x q ≡ false) queue (x_nowhere idx)

      abbrev beside_here : Book
      beside_here = beside side idx (price_of b idx) visible display hidden x b1 z.slot last_order

      abbrev cells_x : ℕ → Cell Order
      cells_x =
          update b1.pool.cells x
            (object (as_order (price_of b idx) side new_entry none (some z.slot)))

      pub beside-IsStored : IsStored pool_cap beside_here after
      beside-IsStored = record {
        free =
            store-IsFree (record (taken blank x xs b.pool) { cells = cells_x }) z.slot last_order _
              xs (ground (arith, last_cell, new_slot)) (omega (arith, z_inside, s.capacity))
              (store-IsFree (taken blank x xs b.pool) x blank _ xs (ground arith)
                (omega (arith, x_inside, s.capacity)) (taken-IsFree blank b.pool x xs free0));
        capacity = s.capacity;
        linked =
            linked_after beside_here.pool.cells
              (rw queue (
                Seg-snoc (price_of b idx) side b1.pool.cells ys z new_entry
                  (subst Distinct queue (s.distinct idx)) apart
                  (Seg-update (price_of b idx) side b.pool.cells x _ none none _ apart here0)))
              (λ i ne. Seg-elsewhere z.slot idx i _ ne in_queue _ (
                Seg-update (price_of b i) (v.side i) b1.pool.cells x _ none none (v.queue i)
                  (x_nowhere i)
                  (Seg-update (price_of b i) (v.side i) b.pool.cells x _ none none (v.queue i)
                    (x_nowhere i) (s.linked i))));
        distinct = Distinct-after;
        head = λ i. elim (Bool-cases (idx == i)) [
          | inl e ↦ rw e (
              rw queue (
                ground (
                  arith,
                  s.head idx,
                  queue,
                  first_or-append none ys (z ∷ []),
                  first_or-append none (ys ++ (z ∷ [])) (new_entry ∷ []),
                  first_or-more ys z new_entry,
                )))
          | inr o ↦ rw o (s.head i)
        ];
        tail = λ i. elim (Bool-cases (idx == i)) [
          | inl e ↦ rw e (sym (last_or-append none (v.queue idx) (new_entry ∷ [])))
          | inr o ↦ rw o (s.tail i)
        ];
        sum = sum_after b1.pool.cells (b.levels idx).head;
        bounded = λ n o e. ground (arith, s.bounded n o, x_inside, z_inside);
        resides = λ n o e. elim (Bool-cases (x == n)) [
          | inl h ↦ (idx, ground (arith, new_resides))
          | inr h ↦ elim (Bool-cases (z.slot == n)) [
            | inl k ↦ resides_after n (idx, ground (arith, in_queue))
            | inr k ↦ resides_after n (s.resides n o (ground (arith, e)))
          ]
        ];
      }
