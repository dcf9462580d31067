-- ===== src/Tests/SignalRuns.antt =====
-- The imbalance where the bid rises from 1000 to 1002 and the ask's lots shrink.
use c_order_book.Prelude.{◌≡◌}
use c_order_book.Prelude.Int.{pos, ltb_ℤ, ◌+ℤ◌, ◌-ℤ◌}
use c_order_book.Signals.{SignalPublisher, new_signals, ofi_next}
use c_order_book.Signals.Flow.{pressure, ofi_next-pressure}

abbrev before : SignalPublisher
before = record new_signals {
  last_bp = pos 1000;
  last_ap = pos 1010;
  last_bq = pos 7;
  last_aq = pos 9;
}

ofi_next-pressure_example :
    ofi_next (pos 1002) (pos 1010) (pos 4) (pos 5) before
    ≡ pos 0
      +ℤ (pressure (ltb_ℤ (pos 1000) (pos 1002)) (ltb_ℤ (pos 1002) (pos 1000)) (pos 4) (pos 7)
          -ℤ pressure (ltb_ℤ (pos 1010) (pos 1010)) (ltb_ℤ (pos 1010) (pos 1010)) (pos 5) (pos 9))
ofi_next-pressure_example = ofi_next-pressure (pos 1002) (pos 1010) (pos 4) (pos 5) before
