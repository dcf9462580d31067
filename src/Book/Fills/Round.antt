-- ===== src/Book/Fills/Round.antt =====
-- A round of the loop keeps its invariant: the order at hand is partly filled, or gone.
use c_order_book.Prelude.{
  ℕ, ◌%◌, ◌<◌, ◌≡◌, ◌≢◌, ◌∙◌, ap, sym, true, false, ◌||◌, arith, ◌==◌, Bool-cases, inl, inr, none,
  some, List, ◌∷◌, ◌++◌,
}
use mathlib.Core.Path.{subst}
use c_order_book.Prelude.Int.{ℤ, ◌+ℤ◌, ◌-ℤ◌, ◌<ℤ◌, int_laws}
use c_order_book.Prelude.Word.{update}
use c_order_book.Pool.{free_node}
use c_order_book.Pool.Free.{IsFree, is_free, store-IsFree, given_back-IsFree}
use c_order_book.Order.{Order}
use c_order_book.Book.State.{Book}
use c_order_book.Book.Queue.{
  Entry, as_order, first_or, has_slot, has_slot-append, total, Seg-update,
}
use c_order_book.Book.Sweep.{Sweep}
use c_order_book.Book.Valid.{View, price_of}
use c_order_book.Book.Rest.Kept.{AllGood-update}
use c_order_book.Book.Unlink.Lessened.{lessened}
use c_order_book.Book.Unlink.Stored.{object_of}
use c_order_book.Book.Unlink.Kept.{even}
use c_order_book.Book.Fills.{Live, put_live, Sweeping}
use c_order_book.Book.Fills.Step.{filled_part, filled_retired}

pub moved :
    (v : View) (idx n : ℕ) (q r : List Entry)
    → (has_slot n q ≡ true → has_slot n r ≡ true)
    → ((i : ℕ) × (has_slot n (update v.queue idx q i) ≡ true))
    → (i : ℕ) × (has_slot n (update v.queue idx r i) ≡ true)
moved v idx n q r f (i, h) = elim (Bool-cases (idx == i)) [
  | inl here ↦ (i, rw here (f (ground (arith, here, h))))
  | inr there ↦ (i, rw there (ground (arith, there, h)))
]

module _ {pool_cap : ℕ} {b : Book} {v : View} {idx : ℕ} {x : Live} {e : Entry} {es rl : List Entry}
    {free : List ℕ} (cap : b.pool.capacity ≡ pool_cap)
    (w : Sweeping pool_cap b v idx x (e ∷ es) rl free) where
  abbrev pub at_hand : Order
  at_hand = as_order (price_of b idx) (v.side idx) e (first_or none es) w.prev

  pub outside : (has_slot e.slot es || has_slot e.slot rl) ≡ false
  outside = ground (arith, has_slot-append e.slot es rl, w.distinct.0)

  pub nowhere : (i : ℕ) → idx ≢ i → has_slot e.slot (v.queue i) ≡ false
  nowhere i ne = w.apart i ne e.slot (ground arith)

  pub inside : e.slot < pool_cap
  inside = w.bounded e.slot at_hand w.front.0

  module _ (s : Sweep) (f : ℤ) where
    abbrev pub part : Live
    part = filled_part b x idx (price_of b idx) e.slot s at_hand f

    pub part-IsFree : IsFree (put_live part b).pool free
    part-IsFree =
        store-IsFree (put_live x b).pool e.slot at_hand _ free w.front.0
          (omega (arith, inside, cap)) w.frees

    pub Sweeping-part : f <ℤ e.qty → Sweeping pool_cap b v idx part (lessened e f ∷ es) rl free
    Sweeping-part less = record {
      prev = w.prev;
      last = w.last;
      frees = part-IsFree;
      front = (
        ground arith,
        Seg-update (price_of b idx) (v.side idx) x.cells e.slot _ (some e.slot) none es
            (ground (arith, outside)) w.front.1,
      );
      back =
          Seg-update (price_of b idx) (v.side idx) x.cells e.slot _ none none rl
            (ground (arith, outside)) w.back;
      there = λ i ne.
          Seg-update (price_of b i) (v.side i) x.cells e.slot _ none none (v.queue i) (nowhere i ne)
            (w.there i ne);
      distinct = w.distinct;
      apart = w.apart;
      tail = ground (arith, w.tail);
      sum = ground arith ∙ ap (λ t. t -ℤ f) w.sum ∙ omega int_laws;
      others = λ i ne. ground (arith, w.others i ne);
      bounded = λ n o h. ground (arith, w.bounded n o, inside);
      resides = λ n o h.
          let was = object_of (x.cells n) (ground (arith, h, w.front)) in
          moved v idx n ((e ∷ es) ++ rl) ((lessened e f ∷ es) ++ rl) (λ k. k)
            (w.resides n was.0 was.1);
      good = (
        record {
          named = w.good.0.named;
          shown = omega (int_laws, less);
          reserve = w.good.0.reserve;
          clip = w.good.0.clip;
        },
        w.good.1,
      );
      good_there = w.good_there;
      wide = w.wide;
      parity = λ n l. ground (arith, w.parity n l, w.front);
    }

    abbrev pub gone : Live
    gone = filled_retired b x idx (price_of b idx) e.slot s at_hand f

    was_odd : (x.generations e.slot % 2 == 0) ≡ false
    was_odd = w.parity e.slot inside ∙ ap is_free w.front.0

    pub Sweeping-gone : f ≡ e.qty → Sweeping pool_cap b v idx gone es rl (e.slot ∷ free)
    Sweeping-gone all = record {
      prev = some e.slot;
      last = some e.slot;
      frees =
          subst
            (λ h.
              IsFree
                (record ((put_live part b).pool) {
                  cells = update part.cells e.slot (free_node h);
                  free_head = some e.slot;
                })
                (e.slot ∷ free))
            (sym w.frees.head)
            (given_back-IsFree (put_live part b).pool e.slot (record at_hand { qty = e.qty -ℤ f })
              free part-IsFree (ground arith) (omega (arith, inside, cap)));
      front =
          Seg-update (price_of b idx) (v.side idx) part.cells e.slot _ (some e.slot) none es
            (ground (arith, outside))
            (Seg-update (price_of b idx) (v.side idx) x.cells e.slot _ (some e.slot) none es
              (ground (arith, outside)) w.front.1);
      back =
          Seg-update (price_of b idx) (v.side idx) part.cells e.slot _ none none rl
            (ground (arith, outside))
            (Seg-update (price_of b idx) (v.side idx) x.cells e.slot _ none none rl
              (ground (arith, outside)) w.back);
      there = λ i ne.
          Seg-update (price_of b i) (v.side i) part.cells e.slot _ none none (v.queue i)
            (nowhere i ne)
            (Seg-update (price_of b i) (v.side i) x.cells e.slot _ none none (v.queue i)
              (nowhere i ne) (w.there i ne));
      distinct = w.distinct.1;
      apart = λ i ne n h. w.apart i ne n (ground (arith, h));
      tail = ground (arith, w.tail);
      sum =
          ground arith
          ∙ ap (λ t. t -ℤ f) (w.sum ∙ ap (λ t. t +ℤ total (es ++ rl)) (sym all))
          ∙ omega int_laws;
      others = λ i ne. ground (arith, w.others i ne);
      bounded = λ n o h. ground (arith, w.bounded n o);
      resides = λ n o h.
          moved v idx n ((e ∷ es) ++ rl) (es ++ rl) (λ k. ground (arith, k, h))
            (w.resides n o (ground (arith, h)));
      good = AllGood-update x.generations e.slot _ (es ++ rl) w.distinct.0 w.good.1;
      good_there = λ i ne.
          AllGood-update x.generations e.slot _ (v.queue i) (nowhere i ne) (w.good_there i ne);
      wide = λ n. ground (arith, w.wide n);
      parity = λ n l. elim (Bool-cases (e.slot == n)) [
        | inl h ↦ rw h (even (x.generations e.slot) was_odd)
        | inr h ↦ rw h (w.parity n l)
      ];
    }
