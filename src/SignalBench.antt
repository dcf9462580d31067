-- ===== src/SignalBench.antt =====
-- bench/bench_signals.cpp: the scripted scenario of the signal publisher, and the arithmetic of its
-- micro-cost loop.
use c_order_book.Prelude.{ℕ, Bool, false, ◌&&◌, Option, none, some}
use c_order_book.Prelude.Int.{ℤ, pos, negsuc, ◌+ℤ◌, ◌-ℤ◌, ◌*ℤ◌, eq_ℤ}
use c_order_book.Order.{Side}
use c_order_book.SpscRing.{Ring, try_pop}
use c_order_book.Book.State.{Book}
use c_order_book.Book.Engine.{new_order}
use c_order_book.Signals.{SignalUpdate, SignalPublisher, on_signal_applied, div_ℤ}

-- The local variables of `correctness`.
pub record Scenario : Type 0 where
  pub book : Book
  pub ring : Ring SignalUpdate
  pub publisher : SignalPublisher
  pub ok : Bool

-- `expect(what, ofi, micro)`: no update, or a wrong one, clears `ok`.
unfoldable pub expect : (ring_cap : ℕ) → (ofi micro_px : ℤ) → Scenario → Scenario
expect ring_cap ofi micro_px s =
    let (got, r) = try_pop ring_cap s.ring in
    elim got [
      | none ↦ record s { ring = r; ok = false }
      | some u ↦ record s { ring = r; ok = s.ok && (eq_ℤ u.ofi ofi && eq_ℤ u.micro_px micro_px) }
    ]

-- `((bp * aq + ap * bq) << 8) / d`
abbrev pub want_micro : (bp aq ap bq d : ℤ) → ℤ
want_micro bp aq ap bq d = div_ℤ ((bp *ℤ aq +ℤ ap *ℤ bq) *ℤ pos 256) d

module _ (num_ticks pool_cap ring_cap : ℕ) where
  -- an order, the publisher's comparison, and the expectation
  abbrev pub after_order :
      (side : Side)
      → (price qty : ℤ) → (origin : ℕ) → (ofi micro_px : ℤ) → Scenario
      → Option Scenario
  after_order side price qty origin ofi micro_px s =
      elim (new_order num_ticks pool_cap side price qty false s.book) [
        | none ↦ none
        | some (id, b) ↦
            let out = on_signal_applied num_ticks ring_cap origin b s.publisher s.ring in
            some (
              expect ring_cap ofi micro_px
                (record { book = b; ring = out.1; publisher = out.0; ok = s.ok }))
      ]

  abbrev pub and_after : Option Scenario → (Scenario → Option Scenario) → Option Scenario
  and_after none k = none
  and_after (some s) k = k s

  -- `correctness`, from a new book and an empty ring, for the base `base`
  unfoldable pub correctness : (base : ℤ) → Scenario → Option Scenario
  unfolding expect
  correctness base s =
      let bid = base +ℤ pos 1000 in
      let ask = base +ℤ pos 1010 in
      let bid2 = bid +ℤ pos 2 in
      let ask3 = ask -ℤ pos 3 in
      and_after
        (and_after
          (and_after
            (and_after
              (and_after
                (after_order Side.buy bid (pos 10) 1 (pos 10)
                  (want_micro bid (pos 0) (negsuc 0) (pos 10) (pos 10)) s)
                (after_order Side.sell ask (pos 30) 2 (pos 10)
                  (want_micro bid (pos 30) ask (pos 10) (pos 40))))
              (after_order Side.buy bid (pos 15) 3 (pos 25)
                (want_micro bid (pos 30) ask (pos 25) (pos 55))))
            (after_order Side.buy bid2 (pos 7) 4 (pos 32)
              (want_micro bid2 (pos 30) ask (pos 7) (pos 37))))
          (after_order Side.sell ask3 (pos 5) 5 (pos 27)
            (want_micro bid2 (pos 5) ask3 (pos 7) (pos 12))))
        (after_order Side.sell bid2 (pos 7) 6 (pos 20)
          (want_micro bid (pos 5) ask3 (pos 25) (pos 30)))
