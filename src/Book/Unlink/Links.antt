-- ===== src/Book/Unlink/Links.antt =====
-- `unlink_prev` and `unlink_next`: the two sides of the gap are linked to each other.
use c_order_book.Prelude.{
  ℕ, ◌≡◌, ◌∙◌, ap, sym, refl, arith, ◌==◌, Bool-cases, inl, inr, Option, none, some, List, [], ◌∷◌,
  ◌++◌, if◌then◌else◌,
}
use c_order_book.Prelude.Int.{ℤ}
use c_order_book.Prelude.Word.{update}
use c_order_book.Pool.{Cell, object}
use c_order_book.Order.{Side, Order}
use c_order_book.Book.State.{Book, PriceLevel}
use c_order_book.Book.Access.{load_order-ok, store_order-ok}
use c_order_book.Book.Links.{unlink_prev, unlink_next}
use c_order_book.Book.Queue.{
  Entry, as_order, first_or, last_or, has_slot-append, Distinct, Distinct-apart, Seg, Seg-split,
  Seg-join, Seg-update, Snoc, none_in, snoc, last_or-append,
}
use c_order_book.Book.Unlink.{Relinked, as_was, written}

-- The book with the arena's slots `c` and the levels `l`.
abbrev pub with_links : (ℕ → Cell Order) → (ℕ → PriceLevel) → Book → Book
with_links c l b = record b { pool = record (b.pool) { cells = c }; levels = l }

-- `unlink_prev` on a book whose level `idx` has the orders `ys` before the one to go and `zs` behind.
pub record Front (px : ℤ) (side : Side) (idx : ℕ) (b : Book) (ys zs : List Entry)
    (r : Option (Unit {0} × Book)) : Type 0 where
  pub cells : ℕ → Cell Order
  pub levels : ℕ → PriceLevel
  pub ran : r ≡ some (tt, with_links cells levels b)
  pub relinked : Relinked b.pool.cells ys cells
  pub seg : Seg px side cells none ys (first_or none zs)
  pub level :
      (j : ℕ)
      → levels j ≡ (
          if idx == j
          then record (b.levels idx) { head = first_or none (ys ++ zs) }
          else b.levels j)

pub record Back (px : ℤ) (side : Side) (idx : ℕ) (b : Book) (ys zs : List Entry)
    (r : Option (Unit {0} × Book)) : Type 0 where
  pub cells : ℕ → Cell Order
  pub levels : ℕ → PriceLevel
  pub ran : r ≡ some (tt, with_links cells levels b)
  pub relinked : Relinked b.pool.cells zs cells
  pub seg : Seg px side cells (last_or none ys) zs none
  pub level :
      (j : ℕ)
      → levels j ≡ (
          if idx == j then record (b.levels idx) { tail = last_or none (ys ++ zs) } else b.levels j)

same_first :
    (ys : List Entry) (y : Entry) (xs zs : List Entry)
    → first_or none ((ys ++ (y ∷ [])) ++ xs) ≡ first_or none ((ys ++ (y ∷ [])) ++ zs)
same_first [] y xs zs = refl
same_first (x ∷ ys) y xs zs = refl

same_last :
    (ys : List Entry) (e z : Entry) (zs : List Entry)
    → last_or none (ys ++ (e ∷ (z ∷ zs))) ≡ last_or none (ys ++ (z ∷ zs))
same_last ys e z zs = last_or-append none ys (e ∷ (z ∷ zs)) ∙ sym (last_or-append none ys (z ∷ zs))

module _ (px : ℤ) (side : Side) (idx : ℕ) (b : Book) (e : Entry) where
  pub unlink_prev-Front :
      (ys zs : List Entry)
      → Snoc ys
      → Distinct ys
      → (b.levels idx).head ≡ first_or none (ys ++ (e ∷ zs))
      → Seg px side b.pool.cells none ys (some e.slot)
      → Front px side idx b ys zs
          (unlink_prev idx (as_order px side e (first_or none zs) (last_or none ys)) b)
  unfolding unlink_prev
  unlink_prev-Front ys zs none_in d h s = record {
    cells = b.pool.cells;
    levels = update b.levels idx (record (b.levels idx) { head = first_or none zs });
    ran = refl;
    relinked = as_was;
    seg = tt;
    level = λ j. refl;
  }
  unlink_prev-Front _ zs (snoc ys y) d h s =
      let parts = Seg-split px side b.pool.cells none (some e.slot) ys (y ∷ []) s in
      let was = as_order px side y (some e.slot) (last_or none ys) in
      let now = as_order px side y (first_or none zs) (last_or none ys) in
      record {
        cells = update b.pool.cells y.slot (object now);
        levels = b.levels;
        ran =
            rw (last_or-append none ys (y ∷ []), unlink_prev)
              (rw (load_order-ok y.slot b was parts.1.0)
                (store_order-ok y.slot b was parts.1.0 now));
        relinked =
            written y.slot was now (ground (arith, has_slot-append y.slot ys (y ∷ []))) parts.1.0;
        seg =
            Seg-join px side _ none (first_or none zs) ys (y ∷ [])
              (Seg-update px side b.pool.cells y.slot _ none (some y.slot) ys
                (ground (arith, Distinct-apart ys (y ∷ []) y.slot d)) parts.0)
              (ground arith, tt);
        level = λ j. elim (Bool-cases (idx == j)) [
          | inl here ↦ rw here (
              sym (ap b.levels (grind arith))
              ∙ ap (λ t. record (b.levels idx) { head = t }) (h ∙ same_first ys y (e ∷ zs) zs))
          | inr there ↦ rw there refl
        ];
      }

  pub unlink_next-Back :
      (ys zs : List Entry)
      → Distinct zs
      → (b.levels idx).tail ≡ last_or none (ys ++ (e ∷ zs))
      → Seg px side b.pool.cells (some e.slot) zs none
      → Back px side idx b ys zs
          (unlink_next idx (as_order px side e (first_or none zs) (last_or none ys)) b)
  unfolding unlink_next
  unlink_next-Back ys [] d h s = record {
    cells = b.pool.cells;
    levels = update b.levels idx (record (b.levels idx) { tail = last_or none ys });
    ran = refl;
    relinked = as_was;
    seg = tt;
    level = λ j. rw (last_or-append none ys []) refl;
  }
  unlink_next-Back ys (z ∷ zs) d h s =
      let was = as_order px side z (first_or none zs) (some e.slot) in
      let now = as_order px side z (first_or none zs) (last_or none ys) in
      record {
        cells = update b.pool.cells z.slot (object now);
        levels = b.levels;
        ran = rw (load_order-ok z.slot b was s.0) (store_order-ok z.slot b was s.0 now);
        relinked = written z.slot was now (ground arith) s.0;
        seg =
            (ground arith, Seg-update px side b.pool.cells z.slot _ (some z.slot) none zs d.0 s.1);
        level = λ j. elim (Bool-cases (idx == j)) [
          | inl here ↦ rw here (
              sym (ap b.levels (grind arith))
              ∙ ap (λ t. record (b.levels idx) { tail = t }) (h ∙ same_last ys e z zs))
          | inr there ↦ rw there refl
        ];
      }
