-- ===== src/Signals.antt =====
-- include/lob/signals.hpp: the publisher of order flow imbalance and micro-price, over the models of
-- the book and the ring.
pub mod Flow
use c_order_book.Prelude.{ℕ, ◌+◌, ◌-◌, ◌/◌, ◌%◌, ◌^◌, Bool, true, false, ◌&&◌, ltb, if◌then◌else◌}
use c_order_book.Prelude.Int.{ℤ, pos, negsuc, leb_ℤ, eq_ℤ, sub_ℕ, ◌+ℤ◌, ◌-ℤ◌, ◌*ℤ◌}
use c_order_book.Prelude.Word.{add64, to_u64}
use c_order_book.SpscRing.{Ring, try_push}
use c_order_book.Book.State.{Book}
use c_order_book.Book.Engine.{best_bid, best_ask}
use c_order_book.Bbo.{shown_qty}

pub record SignalUpdate : Type 0 where
  pub bid_px : ℤ
  pub ask_px : ℤ
  pub bid_qty : ℤ
  pub ask_qty : ℤ
  pub ofi : ℤ
  pub micro_px : ℤ
  pub seq : ℕ
  pub origin_tsc : ℕ

pub record SignalPublisher : Type 0 where
  pub last_bp : ℤ
  pub last_ap : ℤ
  pub last_bq : ℤ
  pub last_aq : ℤ
  pub ofi : ℤ
  pub count : ℕ
  pub published : ℕ
  pub dropped : ℕ

abbrev pub new_signals : SignalPublisher
new_signals = record {
  last_bp = negsuc 0;
  last_ap = negsuc 0;
  last_bq = pos 0;
  last_aq = pos 0;
  ofi = pos 0;
  count = 0;
  published = 0;
  dropped = 0;
}

-- `Qty(test)`
abbrev pub as_qty : Bool → ℤ
as_qty true = pos 1
as_qty false = pos 0

-- `std::int32_t(z)`
unfoldable pub to_i32 : ℤ → ℤ
to_i32 z = let u = to_u64 z % 2 ^ 32 in if ltb u (2 ^ 31) then pos u else negsuc (2 ^ 32 - 1 - u)

-- `a / b` of signed integers, which rounds towards zero
unfoldable pub div_ℤ : ℤ → ℤ → ℤ
div_ℤ (pos a) (pos b) = pos (a / b)
div_ℤ (pos a) (negsuc b) = sub_ℕ 0 (a / (b + 1))
div_ℤ (negsuc a) (pos b) = sub_ℕ 0 ((a + 1) / b)
div_ℤ (negsuc a) (negsuc b) = pos ((a + 1) / (b + 1))

-- the four indicator terms, for a new top of `bq` lots at `bp` and `aq` at `ap`
unfoldable pub ofi_next : ℤ → ℤ → ℤ → ℤ → SignalPublisher → ℤ
ofi_next bp ap bq aq p =
    p.ofi
    +ℤ (as_qty (leb_ℤ p.last_bp bp) *ℤ bq
        -ℤ as_qty (leb_ℤ bp p.last_bp) *ℤ p.last_bq
        -ℤ as_qty (leb_ℤ ap p.last_ap) *ℤ aq
        +ℤ as_qty (leb_ℤ p.last_ap ap) *ℤ p.last_aq)

unfoldable pub micro : ℤ → ℤ → ℤ → ℤ → ℤ
micro bp ap bq aq =
    let denom = bq +ℤ aq in
    div_ℤ ((bp *ℤ aq +ℤ ap *ℤ bq) *ℤ pos 256) (denom +ℤ as_qty (eq_ℤ denom (pos 0)))

-- `++published_` or `++dropped_`
unfoldable pub tallied : Bool → SignalPublisher → SignalPublisher
tallied true p = record p { published = add64 p.published 1 }
tallied false p = record p { dropped = add64 p.dropped 1 }

module _ (num_ticks : ℕ) where
  -- the comparison of the top with the last one
  unfoldable pub top_untouched : Book → SignalPublisher → Bool
  top_untouched b p =
      eq_ℤ (best_bid b) p.last_bp
      && (eq_ℤ (best_ask num_ticks b) p.last_ap
          && (eq_ℤ (shown_qty num_ticks (best_bid b) b) p.last_bq
              && eq_ℤ (shown_qty num_ticks (best_ask num_ticks b) b) p.last_aq))

  unfoldable pub on_signal_applied :
      (ring_cap : ℕ)
      → ℕ
      → Book
      → SignalPublisher
      → Ring SignalUpdate
      → SignalPublisher × Ring SignalUpdate
  unfolding top_untouched ofi_next micro to_i32
  on_signal_applied ring_cap origin b p r =
      let bp = best_bid b in
      let ap = best_ask num_ticks b in
      let bq = shown_qty num_ticks bp b in
      let aq = shown_qty num_ticks ap b in
      let flow = ofi_next bp ap bq aq p in
      let u : SignalUpdate = record {
        bid_px = to_i32 bp;
        ask_px = to_i32 ap;
        bid_qty = to_i32 bq;
        ask_qty = to_i32 aq;
        ofi = flow;
        micro_px = micro bp ap bq aq;
        seq = add64 p.count 1;
        origin_tsc = origin;
      } in
      let pushed = try_push ring_cap u r in
      if top_untouched b p then (p, r) else (
        tallied pushed.0 (record p {
          last_bp = bp;
          last_ap = ap;
          last_bq = bq;
          last_aq = aq;
          ofi = flow;
          count = add64 p.count 1;
        }),
        pushed.1,
      )
