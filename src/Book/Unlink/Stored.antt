-- ===== src/Book/Unlink/Stored.antt =====
-- The arena and the queues after an order left its level and its slot was released.
use c_order_book.Prelude.{
  ℕ, ◌<◌, ◌≡◌, ◌≢◌, ◌∙◌, ap, sym, refl, true, false, arith, ◌==◌, Bool-cases, inl, inr, Option,
  none, List, ◌∷◌, ◌++◌, if◌then◌else◌,
}
use mathlib.Core.Path.{subst}
use c_order_book.Prelude.Int.{◌-ℤ◌, int_laws}
use c_order_book.Prelude.Word.{update}
use c_order_book.Pool.{Cell, object, free_node}
use c_order_book.Pool.Free.{IsFree, is_free, given_back, given_back-IsFree}
use c_order_book.Order.{Order}
use c_order_book.Book.State.{Book, PriceLevel}
use c_order_book.Book.Queue.{
  Entry, first_or, last_or, has_slot, has_slot-append, Distinct, Distinct-append, Distinct-left,
  Distinct-right, Distinct-apart, total, total-append, Seg, Seg-update,
}
use c_order_book.Book.Valid.{View, price_of, IsStored, elsewhere}
use c_order_book.Book.Unlink.{requeued}

pub object_of : (c : Cell Order) → is_free c ≡ false → (o : Order) × (c ≡ object o)
object_of (object o) h = (o, refl)
object_of (free_node k) h = absurd (ground (arith, h))

total-gone : (ys zs : List Entry) (e : Entry) → total (ys ++ (e ∷ zs)) -ℤ e.qty ≡ total (ys ++ zs)
total-gone ys zs e =
    ap (λ t. t -ℤ e.qty) (total-append ys (e ∷ zs)) ∙ omega int_laws ∙ sym (total-append ys zs)

has_slot-gone :
    (ys zs : List Entry) (e : Entry) (n : ℕ)
    → (e.slot == n) ≡ false
    → has_slot n (ys ++ (e ∷ zs)) ≡ true
    → has_slot n (ys ++ zs) ≡ true
has_slot-gone ys zs e n ne h =
    ground (arith, has_slot-append n ys (e ∷ zs), has_slot-append n ys zs)

pub Distinct-gone :
    (ys zs : List Entry) (e : Entry)
    → Distinct (ys ++ (e ∷ zs))
    → Distinct (ys ++ zs) × (has_slot e.slot (ys ++ zs) ≡ false)
Distinct-gone ys zs e d =
    let right = Distinct-right ys (e ∷ zs) d in
    (
      Distinct-append ys zs (Distinct-left ys (e ∷ zs) d) right.1
          (λ n h. ground (arith, Distinct-apart ys (e ∷ zs) n d h)),
      ground (arith, has_slot-append e.slot ys zs, right.0, Distinct-apart ys (e ∷ zs) e.slot d),
    )

-- The slots `c` and the levels `l` of a book whose level `idx` has closed the gap between `ys` and
-- `zs` that `e` left.
pub record Closed (b : Book) (v : View) (idx : ℕ) (ys zs : List Entry) (e : Entry)
    (c : ℕ → Cell Order) (l : ℕ → PriceLevel) : Type 0 where
  pub here : Seg (price_of b idx) (v.side idx) c none (ys ++ zs) none
  pub there : (i : ℕ) → idx ≢ i → Seg (price_of b i) (v.side i) c none (v.queue i) none
  pub order : (o : Order) × (c e.slot ≡ object o)
  pub frees : IsFree (record (b.pool) { cells = c }) v.free
  pub same : (n : ℕ) → is_free (c n) ≡ is_free (b.pool.cells n)
  pub level :
      (j : ℕ)
      → l j ≡ (
          if idx == j
          then record {
            head = first_or none (ys ++ zs);
            tail = last_or none (ys ++ zs);
            total_qty = (b.levels idx).total_qty -ℤ e.qty;
          }
          else b.levels j)

-- The book with these, after the slot of `e` was released.
abbrev pub released : ℕ → List ℕ → (ℕ → Cell Order) → (ℕ → PriceLevel) → Book → Book
released n free c l b = record b {
  pool = given_back n free (record (b.pool) { cells = c });
  levels = l;
}

module _ {pool_cap : ℕ} {b : Book} {v : View} (s : IsStored pool_cap b v) (idx : ℕ)
    (ys zs : List Entry) (e : Entry) (queue : v.queue idx ≡ ys ++ (e ∷ zs)) where
  abbrev pub without : View
  without = requeued v idx (ys ++ zs) (e.slot ∷ v.free)

  slots : Distinct (ys ++ zs) × (has_slot e.slot (ys ++ zs) ≡ false)
  slots = Distinct-gone ys zs e (subst Distinct queue (s.distinct idx))

  pub nowhere : (i : ℕ) → has_slot e.slot (without.queue i) ≡ false
  nowhere i = elim (Bool-cases (idx == i)) [
    | inl h ↦ rw h slots.1
    | inr h ↦ rw h (
        elsewhere s e.slot idx i (grind arith)
          (ground (arith, queue, has_slot-append e.slot ys (e ∷ zs))))
  ]

  module _ (c : ℕ → Cell Order) (l : ℕ → PriceLevel) (k : Closed b v idx ys zs e c l) where
    was_object :
        (q : Option ℕ) (n : ℕ) (o : Order)
        → update c e.slot (free_node q) n ≡ object o
        → ((e.slot == n) ≡ false) × (o2 : Order) × (b.pool.cells n ≡ object o2)
    was_object q n o h =
        let was = object_of (b.pool.cells n) (ground (arith, h, k.same n)) in
        (ground (arith, h), was.0, was.1)

    pub inside : e.slot < pool_cap
    inside =
        let was = object_of (b.pool.cells e.slot) (ground (arith, k.same e.slot, k.order)) in
        s.bounded e.slot was.0 was.1

    linked_after : (i : ℕ) → Seg (price_of b i) (v.side i) c none (without.queue i) none
    linked_after i = elim (Bool-cases (idx == i)) [
      | inl h ↦
          rw h
            (subst (λ j. Seg (price_of b j) (v.side j) c none (ys ++ zs) none) (grind arith) k.here)
      | inr h ↦ rw h (k.there i (grind arith))
    ]

    sum_after : (i : ℕ) → (l i).total_qty ≡ total (without.queue i)
    sum_after i = elim (Bool-cases (idx == i)) [
      | inl h ↦ rw h (
          rw (k.level i, h)
            (ap (λ t. t -ℤ e.qty) (s.sum idx ∙ ap total queue) ∙ total-gone ys zs e))
      | inr h ↦ rw h (rw (k.level i, h) (s.sum i))
    ]

    resides_after :
        (n : ℕ)
        → (e.slot == n) ≡ false
        → ((i : ℕ) × (has_slot n (v.queue i) ≡ true))
        → (i : ℕ) × (has_slot n (without.queue i) ≡ true)
    resides_after n ne (i, h) = elim (Bool-cases (idx == i)) [
      | inl same ↦ (
        i,
        rw same (
            has_slot-gone ys zs e n ne
              (sym (ap (has_slot n) queue) ∙ ap (λ j. has_slot n (v.queue j)) (grind arith) ∙ h)),
      )
      | inr other ↦ (i, rw other h)
    ]

    pub released-IsStored : IsStored pool_cap (released e.slot v.free c l b) without
    released-IsStored = record {
      free =
          given_back-IsFree (record (b.pool) { cells = c }) e.slot k.order.0 v.free k.frees
            k.order.1 (omega (arith, s.capacity, inside));
      capacity = s.capacity;
      linked = λ i.
          Seg-update (price_of b i) (v.side i) c e.slot _ none none (without.queue i) (nowhere i)
            (linked_after i);
      distinct =
          λ i. elim (Bool-cases (idx == i)) [ inl h ↦ rw h slots.0 | inr h ↦ rw h (s.distinct i) ];
      head = λ i. ground (arith, k.level i, s.head i);
      tail = λ i. ground (arith, k.level i, s.tail i);
      sum = sum_after;
      bounded = λ n o h. let (ne, o2, was) = was_object _ n o h in s.bounded n o2 was;
      resides = λ n o h.
          let (ne, o2, was) = was_object _ n o h in resides_after n ne (s.resides n o2 was);
    }
