-- ===== src/Book/Matching/Lots.antt =====
-- Filling a queue takes lots, and no more than there are.
use c_order_book.Prelude.{ℕ, ◌≡◌, true, arith, Bool-cases, inl, inr, List, [], ◌∷◌}
use c_order_book.Prelude.Int.{ℤ, pos, ◌-ℤ◌, ◌<ℤ◌, ◌≤ℤ◌, ltb_ℤ, -ℤ_parts, int_laws}
use c_order_book.Book.Queue.{Entry}
use c_order_book.Book.Valid.{AllGood, occupied}
use c_order_book.Book.Fills.{fill_queue}

pub open_lots-bounds :
    (g : ℕ → ℕ) (px : ℤ) (es : List Entry) (q : ℤ)
    → AllGood g es
    → pos 0 ≤ℤ q
    → (pos 0 ≤ℤ (fill_queue px es q).open_lots) × ((fill_queue px es q).open_lots ≤ℤ q)
unfolding fill_queue
open_lots-bounds g px [] q a h = (h, omega arith)
open_lots-bounds g px (e ∷ es) q a h = elim (Bool-cases (ltb_ℤ (pos 0) q)) [
  | inr done ↦ rw done (h, omega arith)
  | inl more ↦ elim (Bool-cases (ltb_ℤ q e.qty)) [
    | inl less ↦ rw (more, less) (omega arith, h)
    | inr all ↦
        let rest =
          open_lots-bounds g px es (q -ℤ e.qty) a.1 (ground (arith, all, -ℤ_parts q e.qty)) in
        rw (more, all) (rest.0, omega (int_laws, rest.1, a.0.shown))
  ]
]

-- A taker with lots takes at least one of them.
pub open_lots-fewer :
    (g : ℕ → ℕ) (px : ℤ) (es : List Entry) (q : ℤ)
    → AllGood g es
    → occupied es ≡ true
    → pos 0 <ℤ q
    → (fill_queue px es q).open_lots <ℤ q
unfolding fill_queue
open_lots-fewer g px [] q a o h = absurd (ground arith)
open_lots-fewer g px (e ∷ es) q a o h =
    let more : ltb_ℤ (pos 0) q ≡ true = ground (arith, h) in
    elim (Bool-cases (ltb_ℤ q e.qty)) [
      | inl less ↦ rw (more, less) h
      | inr all ↦
          let rest =
            open_lots-bounds g px es (q -ℤ e.qty) a.1 (ground (arith, all, -ℤ_parts q e.qty)) in
          rw (more, all) (omega (int_laws, rest.1, a.0.shown))
    ]
