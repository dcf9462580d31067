-- ===== src/Signals/Flow.antt =====
-- The branchless imbalance against its definition by cases.
use c_order_book.Prelude.{◌≡◌, ◌∙◌, ap, refl, not, ◌&&◌, Bool, true, false, arith}
use c_order_book.Prelude.Int.{ℤ, pos, leb_ℤ, ltb_ℤ, ◌+ℤ◌, ◌-ℤ◌, ◌*ℤ◌, int_laws}
use c_order_book.Signals.{SignalPublisher, as_qty, ofi_next}

-- The pressure of one side: all the new lots where its price improved, the lots that went where it
-- fell back, the change of the lots where it stayed. `better` and `worse` compare new with old.
abbrev pub pressure : (better worse : Bool) → ℤ → ℤ → ℤ
pressure true worse new old = new
pressure false true new old = pos 0 -ℤ old
pressure false false new old = new -ℤ old

one_times : (q : ℤ) → pos 1 *ℤ q ≡ q
unfolding ◌*ℤ◌
one_times q = ground arith

zero_times : (q : ℤ) → pos 0 *ℤ q ≡ pos 0
unfolding ◌*ℤ◌
zero_times q = ground arith

leb_not_ltb : (a b : ℤ) → leb_ℤ a b ≡ not (ltb_ℤ b a)
leb_not_ltb a b = ground arith

not_both : (a b : ℤ) → (ltb_ℤ a b && ltb_ℤ b a) ≡ false
not_both a b = ground arith

pressure_terms :
    (p q : Bool) (new old : ℤ)
    → (p && q) ≡ false
    → as_qty (not q) *ℤ new -ℤ as_qty (not p) *ℤ old ≡ pressure p q new old
pressure_terms true true new old h = absurd (ground (arith, h))
pressure_terms true false new old h = rw (one_times new, zero_times old) (omega int_laws)
pressure_terms false true new old h = rw (zero_times new, one_times old) refl
pressure_terms false false new old h = rw (one_times new, one_times old) refl

side_pressure :
    (a b new old : ℤ)
    → as_qty (leb_ℤ a b) *ℤ new -ℤ as_qty (leb_ℤ b a) *ℤ old
      ≡ pressure (ltb_ℤ a b) (ltb_ℤ b a) new old
side_pressure a b new old =
    rw (leb_not_ltb a b, leb_not_ltb b a)
      (pressure_terms (ltb_ℤ a b) (ltb_ℤ b a) new old (not_both a b))

regroup : (o x y z w : ℤ) → o +ℤ (x -ℤ y -ℤ z +ℤ w) ≡ o +ℤ ((x -ℤ y) -ℤ (z -ℤ w))
regroup o x y z w = omega int_laws

-- The imbalance grows by the pressure of the bids less that of the asks. A side's pressure is all its
-- new lots where its best price improved, less its old lots where the price fell back, and the change
-- of its lots where the price stayed; a bid improves upwards and an ask downwards.
pub ofi_next-pressure :
    (bp ap bq aq : ℤ) (p : SignalPublisher)
    → ofi_next bp ap bq aq p
      ≡ p.ofi
        +ℤ (pressure (ltb_ℤ p.last_bp bp) (ltb_ℤ bp p.last_bp) bq p.last_bq
            -ℤ pressure (ltb_ℤ ap p.last_ap) (ltb_ℤ p.last_ap ap) aq p.last_aq)
unfolding ofi_next
ofi_next-pressure bp ap bq aq p = regroup p.ofi _ _ _ _ ∙ (λ i.
    p.ofi
    +ℤ (side_pressure p.last_bp bp bq p.last_bq i -ℤ side_pressure ap p.last_ap aq p.last_aq i))
