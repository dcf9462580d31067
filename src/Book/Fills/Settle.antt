-- ===== src/Book/Fills/Settle.antt =====
-- `settle` writes the loop's variables back to the level.
use c_order_book.Prelude.{
  ℕ, ◌<◌, ◌≡◌, ◌≢◌, ◌∙◌, ap, sym, refl, true, false, arith, Bool-cases, inl, inr, Option, none,
  some, List, [], ◌∷◌, ◌++◌,
}
use mathlib.Core.Path.{subst}
use c_order_book.Prelude.Word.{update}
use c_order_book.Pool.{Cell, object}
use c_order_book.Order.{Side, Order}
use c_order_book.Book.State.{Book, PriceLevel, and_then, ◌>>◌, set_prev, set_head}
use c_order_book.Book.Access.{load_order-ok, store_order-ok}
use c_order_book.Book.Sweep.{Sweep, settle, splice, swept}
use c_order_book.Book.Queue.{
  Entry, as_order, first_or, last_or, has_slot, has_slot-append, Distinct, Distinct-left,
  Distinct-right, Distinct-apart, Seg, Seg-has_slot, Seg-split, Seg-join, Seg-update,
  last_or-append,
}
use c_order_book.Book.Valid.{View, price_of}
use c_order_book.Book.Unlink.{Relinked, written, Relinked-is_free, Relinked-Seg, Relinked-IsFree}
use c_order_book.Book.Fills.{Live, put_live, Sweeping}
use c_order_book.Book.Fills.Loop.{Holds}
use c_order_book.Book.Fills.Stored.{Settled, settled}

-- What `settle` returns when orders are left.
pub record Closing (b : Book) (v : View) (idx : ℕ) (now : Live) (q : List Entry) (free : List ℕ)
    (r : Option (Unit {0} × Book)) : Type 0 where
  pub cells : ℕ → Cell Order
  pub levels : ℕ → PriceLevel
  pub ran : r ≡ some (tt, put_live (settled now cells levels) b)
  pub ok : Settled b v idx now q free cells levels

-- the level's head written, then its tail
abbrev head_now : Live → ℕ → Option ℕ → ℕ → PriceLevel
head_now now idx head = update now.levels idx (record (now.levels idx) { head = head })

abbrev pub level_now : Live → ℕ → Option ℕ → Option ℕ → ℕ → PriceLevel
level_now now idx head tail =
    update (head_now now idx head) idx (record (head_now now idx head idx) { tail = tail })

module _ {pool_cap : ℕ} (num_ticks : ℕ) (maker : Side) {b : Book} {v : View} {idx : ℕ} {now : Live}
    {free : List ℕ} (cap : b.pool.capacity ≡ pool_cap) (s : Sweep) where
  -- No order is left.
  pub settle-nobody :
      Sweeping pool_cap b v idx now [] [] free
      → Holds s [] []
      → settle num_ticks maker idx s (put_live now b)
        ≡ some (
          tt,
          swept num_ticks maker idx
              (put_live (settled now now.cells (level_now now idx none none)) b),
        )
  unfolding settle
  settle-nobody w h = rw (h.head, h.at) refl

  pub nobody-Settled :
      Sweeping pool_cap b v idx now [] [] free
      → Settled b v idx now [] free now.cells (level_now now idx none none)
  nobody-Settled w = record {
    here = tt;
    there = w.there;
    same = λ n. refl;
    frees = w.frees;
    level = λ j. ground arith;
  }

  -- Only orders of the reload chain are left.
  pub settle-chain :
      (r : Entry) (rs : List Entry)
      → Sweeping pool_cap b v idx now [] (r ∷ rs) free
      → Holds s [] (r ∷ rs)
      → Closing b v idx now (r ∷ rs) free (settle num_ticks maker idx s (put_live now b))
  unfolding settle
  settle-chain r rs w h = record {
    cells = now.cells;
    levels = level_now now idx (some r.slot) (last_or none (r ∷ rs));
    ran = rw (h.head, h.at, h.tail) refl;
    ok = record {
      here = w.back;
      there = w.there;
      same = λ n. refl;
      frees = w.frees;
      level = λ j. ground arith;
    };
  }

  module _ {es rl : List Entry} (w : Sweeping pool_cap b v idx now es rl free) where
    inside_front : (n : ℕ) → has_slot n es ≡ true → n < b.pool.capacity
    inside_front n h =
        let (o, live, _, _) =
          Seg-has_slot (price_of b idx) (v.side idx) now.cells w.prev none es n w.front h in
        rw cap (w.bounded n o live)

    inside_back : (n : ℕ) → has_slot n rl ≡ true → n < b.pool.capacity
    inside_back n h =
        let (o, live, _, _) =
          Seg-has_slot (price_of b idx) (v.side idx) now.cells none none rl n w.back h in
        rw cap (w.bounded n o live)

    there_front :
        (i : ℕ) → idx ≢ i → (n : ℕ) → has_slot n es ≡ true → has_slot n (v.queue i) ≡ false
    there_front i ne n h = w.apart i ne n (ground (arith, h, has_slot-append n es rl))

    there_back : (i : ℕ) → idx ≢ i → (n : ℕ) → has_slot n rl ≡ true → has_slot n (v.queue i) ≡ false
    there_back i ne n h = w.apart i ne n (ground (arith, h, has_slot-append n es rl))

  -- Only orders that were not reached are left.
  pub settle-unreached :
      (e : Entry) (es : List Entry)
      → Sweeping pool_cap b v idx now (e ∷ es) [] free
      → Holds s (e ∷ es) []
      → Closing b v idx now (e ∷ es) free (settle num_ticks maker idx s (put_live now b))
  unfolding settle
  settle-unreached e es w h =
      let was = as_order (price_of b idx) (v.side idx) e (first_or none es) w.prev in
      let new = as_order (price_of b idx) (v.side idx) e (first_or none es) none in
      let at_head = put_live (settled now now.cells (head_now now idx (some e.slot))) b in
      let cells = update now.cells e.slot (object new) in
      let relinked : Relinked now.cells (e ∷ es) cells =
        written e.slot was new (ground arith) w.front.0 in
      record {
        cells = cells;
        levels = head_now now idx (some e.slot);
        ran =
            rw (h.head, h.at)
              (rw (load_order-ok e.slot at_head was w.front.0)
                (store_order-ok e.slot at_head was w.front.0 new));
        ok = record {
          here = (
            ground arith,
            Seg-update (price_of b idx) (v.side idx) now.cells e.slot _ (some e.slot) none es
                (Distinct-left (e ∷ es) [] w.distinct).0 w.front.1,
          );
          there = λ i ne.
              Relinked-Seg (price_of b i) (v.side i) none none (v.queue i) relinked
                (there_front w i ne) (w.there i ne);
          same = Relinked-is_free relinked;
          frees = Relinked-IsFree (put_live now b).pool free relinked (inside_front w) w.frees;
          level = λ j. ground (arith, w.tail);
        };
      }

  -- The reload chain goes behind the orders that were not reached.
  module _ (e : Entry) (es : List Entry) (r : Entry) (rs ys : List Entry) (z : Entry)
      (queue : e ∷ es ≡ ys ++ (z ∷ [])) (w : Sweeping pool_cap b v idx now (e ∷ es) (r ∷ rs) free)
      (h : Holds s (e ∷ es) (r ∷ rs)) where
    abbrev chained : Order
    chained = as_order (price_of b idx) (v.side idx) r (first_or none rs) (some z.slot)

    abbrev last_was : Order
    last_was = as_order (price_of b idx) (v.side idx) z none (last_or w.prev ys)

    abbrev last_new : Order
    last_new = as_order (price_of b idx) (v.side idx) z (some r.slot) (last_or w.prev ys)

    abbrev first_was : Order
    first_was = as_order (price_of b idx) (v.side idx) e (first_or (some r.slot) es) w.prev

    abbrev first_new : Order
    first_new = as_order (price_of b idx) (v.side idx) e (first_or (some r.slot) es) none

    abbrev c1 : ℕ → Cell Order
    c1 = update now.cells r.slot (object chained)

    abbrev c2 : ℕ → Cell Order
    c2 = update c1 z.slot (object last_new)

    abbrev c3 : ℕ → Cell Order
    c3 = update c2 e.slot (object first_new)

    r_live :
        now.cells r.slot ≡ object (as_order (price_of b idx) (v.side idx) r (first_or none rs) none)
    r_live = w.back.0

    apart_front : (n : ℕ) → has_slot n (r ∷ rs) ≡ true → has_slot n (e ∷ es) ≡ false
    apart_front n k = elim (Bool-cases (has_slot n (e ∷ es))) [
      | inr out ↦ out
      | inl both ↦ absurd (ground (arith, both, k, Distinct-apart (e ∷ es) (r ∷ rs) n w.distinct))
    ]

    linked1 : Relinked now.cells (r ∷ rs) c1
    linked1 = written r.slot _ chained (ground arith) r_live

    front1 : Seg (price_of b idx) (v.side idx) c1 w.prev (ys ++ (z ∷ [])) none
    front1 =
        subst (λ q. Seg (price_of b idx) (v.side idx) c1 w.prev q none) queue
          (Relinked-Seg (price_of b idx) (v.side idx) w.prev none (e ∷ es) linked1 apart_front
            w.front)

    split1 :
        Seg (price_of b idx) (v.side idx) c1 w.prev ys (some z.slot)
        × Seg (price_of b idx) (v.side idx) c1 (last_or w.prev ys) (z ∷ []) none
    split1 = Seg-split (price_of b idx) (v.side idx) c1 w.prev none ys (z ∷ []) front1

    z_live : c1 z.slot ≡ object last_was
    z_live = split1.1.0

    z_in : has_slot z.slot (e ∷ es) ≡ true
    z_in = ap (has_slot z.slot) queue ∙ ground (arith, has_slot-append z.slot ys (z ∷ []))

    linked2 : Relinked c1 (e ∷ es) c2
    linked2 = written z.slot last_was last_new z_in z_live

    distinct_front : Distinct (e ∷ es)
    distinct_front = Distinct-left (e ∷ es) (r ∷ rs) w.distinct

    z_out : has_slot z.slot ys ≡ false
    z_out = ground (arith, Distinct-apart ys (z ∷ []) z.slot (subst Distinct queue distinct_front))

    front2 : Seg (price_of b idx) (v.side idx) c2 w.prev (e ∷ es) (some r.slot)
    front2 =
        subst (λ q. Seg (price_of b idx) (v.side idx) c2 w.prev q (some r.slot)) (sym queue)
          (Seg-join (price_of b idx) (v.side idx) c2 w.prev (some r.slot) ys (z ∷ [])
            (Seg-update (price_of b idx) (v.side idx) c1 z.slot _ w.prev (some z.slot) ys z_out
              split1.0)
            (ground arith, tt))

    linked3 : Relinked c2 (e ∷ es) c3
    linked3 = written e.slot first_was first_new (ground arith) front2.0

    front3 : Seg (price_of b idx) (v.side idx) c3 none (e ∷ es) (some r.slot)
    front3 = (
      ground arith,
      Seg-update (price_of b idx) (v.side idx) c2 e.slot _ (some e.slot) (some r.slot) es
          distinct_front.0 front2.1,
    )

    last_slot : last_or none (e ∷ es) ≡ some z.slot
    last_slot = ap (last_or none) queue ∙ last_or-append none ys (z ∷ [])

    back_apart : (n : ℕ) → has_slot n (e ∷ es) ≡ true → has_slot n (r ∷ rs) ≡ false
    back_apart n k = Distinct-apart (e ∷ es) (r ∷ rs) n w.distinct k

    back3 : Seg (price_of b idx) (v.side idx) c3 (some z.slot) (r ∷ rs) none
    back3 =
        Relinked-Seg (price_of b idx) (v.side idx) (some z.slot) none (r ∷ rs) linked3 back_apart (
          Relinked-Seg (price_of b idx) (v.side idx) (some z.slot) none (r ∷ rs) linked2 back_apart
            (
              ground arith,
              Seg-update (price_of b idx) (v.side idx) now.cells r.slot _ (some r.slot) none rs
                  (Distinct-right (e ∷ es) (r ∷ rs) w.distinct).0 w.back.1,
            ))

    abbrev tail_now : ℕ → PriceLevel
    tail_now = update now.levels idx (record (now.levels idx) { tail = last_or none (r ∷ rs) })

    abbrev both_now : ℕ → PriceLevel
    both_now = update tail_now idx (record (tail_now idx) { head = some e.slot })

    spliced-Settled : Settled b v idx now ((e ∷ es) ++ (r ∷ rs)) free c3 both_now
    spliced-Settled = record {
      here =
          Seg-join (price_of b idx) (v.side idx) c3 none none (e ∷ es) (r ∷ rs) front3 (
            subst (λ p. Seg (price_of b idx) (v.side idx) c3 p (r ∷ rs) none) (sym last_slot)
              back3);
      there = λ i ne.
          Relinked-Seg (price_of b i) (v.side i) none none (v.queue i) linked3 (there_front w i ne)
            (Relinked-Seg (price_of b i) (v.side i) none none (v.queue i) linked2
              (there_front w i ne)
              (Relinked-Seg (price_of b i) (v.side i) none none (v.queue i) linked1
                (there_back w i ne) (w.there i ne)));
      same =
          λ n. Relinked-is_free linked3 n ∙ Relinked-is_free linked2 n ∙ Relinked-is_free linked1 n;
      frees =
          Relinked-IsFree (record (b.pool) { cells = c2; free_head = now.free_head }) free linked3
            (inside_front w)
            (Relinked-IsFree (record (b.pool) { cells = c1; free_head = now.free_head }) free
              linked2 (inside_front w)
              (Relinked-IsFree (put_live now b).pool free linked1 (inside_back w) w.frees));
      level = λ j. ground (arith, last_or-append none (e ∷ es) (r ∷ rs));
    }

    tail_was : (now.levels idx).tail ≡ some z.slot
    tail_was = w.tail ∙ last_slot

    abbrev chained_was : Order
    chained_was = as_order (price_of b idx) (v.side idx) r (first_or none rs) none

    abbrev book1 : Book
    book1 = put_live (settled now c1 now.levels) b

    abbrev book2 : Book
    book2 = put_live (settled now c2 tail_now) b

    written_back :
        and_then
          (splice idx (some z.slot) r.slot (last_or none (r ∷ rs)) (put_live now b))
          (λ _. set_prev e.slot none >> set_head idx (some e.slot))
        ≡ some (tt, put_live (settled now c3 both_now) b)
    unfolding splice
    written_back = rw (load_order-ok r.slot (put_live now b) chained_was r_live) (
        rw (store_order-ok r.slot (put_live now b) chained_was r_live chained) (
          rw (load_order-ok z.slot book1 last_was z_live) (
            rw (store_order-ok z.slot book1 last_was z_live last_new) (
              rw (load_order-ok e.slot book2 first_was front2.0)
                (rw (store_order-ok e.slot book2 first_was front2.0 first_new) refl)))))

    pub settle-spliced :
        Closing b v idx now
          ((e ∷ es) ++ (r ∷ rs))
          free
          (settle num_ticks maker idx s (put_live now b))
    unfolding settle
    settle-spliced = record {
      cells = c3;
      levels = both_now;
      ran =
          rw (h.head, h.at, h.tail)
            (ap
                (λ t.
                  and_then (splice idx t r.slot (last_or none (r ∷ rs)) (put_live now b))
                    (λ _. set_prev e.slot none >> set_head idx (some e.slot)))
                tail_was
              ∙ written_back);
      ok = spliced-Settled;
    }
