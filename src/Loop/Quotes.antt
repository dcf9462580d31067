-- ===== src/Loop/Quotes.antt =====
-- What the strategy sends: quotes behind the touch and within the collar, one lot a side.
use c_order_book.Prelude.{
  ℕ, ◌≡◌, ◌∙◌, ap, sym, refl, true, false, not, ◌&&◌, List, [], ◌∷◌, ◌++◌, ◌==◌, ==_iff, Bool-cases,
  inl, inr, if◌then◌else◌, arith,
}
use mathlib.Core.Path.{subst}
use c_order_book.Prelude.Int.{
  ℤ, pos, leb_ℤ, eq_ℤ, ◌+ℤ◌, ◌-ℤ◌, ◌*ℤ◌, ◌≤ℤ◌, +ℤ_parts, -ℤ_parts, eq_of_parts,
}
use c_order_book.Order.{Side, MsgType, Message}
use c_order_book.Bbo.{BboUpdate}
use c_order_book.Risk.{check, accept, verdict, on_cancel, prospective_buy, prospective_sell}
use c_order_book.Risk.Verdict.{Passes-of_zero}
use c_order_book.Loop.{
  Strategy, my_px, replaced, quote, requote, on_update, bid_want, ask_want, sequenced,
}

-- at the touch of its side or behind it
abbrev pub IsBehind : Side → ℤ → ℤ → Type 0
IsBehind Side.buy touch px = px ≤ℤ touch
IsBehind Side.sell touch px = touch ≤ℤ px

-- A quote for one lot on a side with the touch `touch`, within a collar.
pub record IsQuote (side : Side) (touch lo hi : ℤ) (origin : ℕ) (m : Message) : Type 0 where
  pub a_new_order : m.type ≡ MsgType.new_order
  pub on_side : m.side ≡ side
  pub one_lot : m.qty ≡ pos 1
  pub stamped : m.id ≡ origin
  pub shown : pos 0 ≤ℤ touch
  pub behind : IsBehind side touch m.price
  pub above : lo ≤ℤ m.price
  pub below : m.price ≤ℤ hi

abbrev pub All : (Message → Type 0) → List Message → Type 0
All P [] = Unit {0}
All P (m ∷ ms) = P m × All P ms

-- a quoted price counts for one open lot
abbrev pub lots_at : ℤ → ℤ
lots_at px = if leb_ℤ (pos 0) px then pos 1 else pos 0

-- The open lots of the risk gateway are the strategy's quotes, and the collar is not negative.
pub record Counted (lo hi : ℤ) (s : Strategy) : Type 0 where
  pub buys : s.risk.open_buy ≡ lots_at s.my_bid
  pub sells : s.risk.open_sell ≡ lots_at s.my_ask
  pub flat : s.risk.net_pos ≡ pos 0
  pub low : s.risk.px_lo ≡ lo
  pub high : s.risk.px_hi ≡ hi

lots_at_shown : (px : ℤ) → leb_ℤ (pos 0) px ≡ true → lots_at px ≡ pos 1
lots_at_shown px e = rw (e) refl

lots_at_none : (px : ℤ) → leb_ℤ (pos 0) px ≡ false → lots_at px ≡ pos 0
lots_at_none px e = rw (e) refl

add_none : (z : ℤ) → z +ℤ pos 1 *ℤ pos 0 ≡ z
unfolding ◌*ℤ◌
add_none z = eq_of_parts (z +ℤ pos 0) z (omega (arith, +ℤ_parts z (pos 0)))

sub_none : (z : ℤ) → z -ℤ pos 1 *ℤ pos 0 ≡ z
unfolding ◌*ℤ◌
sub_none z = eq_of_parts (z -ℤ pos 0) z (omega (arith, -ℤ_parts z (pos 0)))

-- lots that are added and pulled
module _ (lo : ℤ) (low : pos 0 ≤ℤ lo) where
  first_quote :
      (z was px : ℤ)
      → leb_ℤ (pos 0) was ≡ false
      → z ≡ lots_at was
      → lo ≤ℤ px
      → z +ℤ pos 1 *ℤ pos 1 ≡ lots_at px
  unfolding ◌+ℤ◌ ◌*ℤ◌
  first_quote z was px e h l =
      ap (λ x. x +ℤ pos 1) (h ∙ lots_at_none was e) ∙ sym (lots_at_shown px (ground arith))

  next_quote :
      (z was px : ℤ)
      → leb_ℤ (pos 0) was ≡ true
      → z ≡ lots_at was
      → lo ≤ℤ px
      → z +ℤ pos 1 *ℤ pos 1 -ℤ pos 1 *ℤ pos 1 ≡ lots_at px
  unfolding ◌+ℤ◌ ◌-ℤ◌ ◌*ℤ◌
  next_quote z was px e h l =
      ap (λ x. x +ℤ pos 1 -ℤ pos 1) (h ∙ lots_at_shown was e)
      ∙ sym (lots_at_shown px (ground arith))

module _ (depth : ℕ) (lo hi : ℤ) (low : pos 0 ≤ℤ lo) where
  replaced-Counted :
      (side : Side) (px : ℤ) (now : ℕ) (s : Strategy)
      → Counted lo hi s
      → lo ≤ℤ px
      → Counted lo hi (replaced depth side px (accept depth side (pos 1) now s.risk) s)
  unfolding accept on_cancel prospective_buy prospective_sell ◌-ℤ◌
  replaced-Counted Side.buy px now s c l = elim (Bool-cases (leb_ℤ (pos 0) s.my_bid)) [
    | inl e ↦ rw (e) (record {
      buys = next_quote lo low s.risk.open_buy s.my_bid px e c.buys l;
      sells = sub_none _ ∙ add_none _ ∙ c.sells;
      flat = c.flat;
      low = c.low;
      high = c.high;
    })
    | inr e ↦ rw (e) (record {
      buys = first_quote lo low s.risk.open_buy s.my_bid px e c.buys l;
      sells = add_none _ ∙ c.sells;
      flat = c.flat;
      low = c.low;
      high = c.high;
    })
  ]
  replaced-Counted Side.sell px now s c l = elim (Bool-cases (leb_ℤ (pos 0) s.my_ask)) [
    | inl e ↦ rw (e) (record {
      buys = sub_none _ ∙ add_none _ ∙ c.buys;
      sells = next_quote lo low s.risk.open_sell s.my_ask px e c.sells l;
      flat = c.flat;
      low = c.low;
      high = c.high;
    })
    | inr e ↦ rw (e) (record {
      buys = add_none _ ∙ c.buys;
      sells = first_quote lo low s.risk.open_sell s.my_ask px e c.sells l;
      flat = c.flat;
      low = c.low;
      high = c.high;
    })
  ]

  -- The messages of one side, and the strategy after them.
  abbrev Good : Side → ℤ → ℕ → List Message × Strategy → Type 0
  Good side touch origin out = All (IsQuote side touch lo hi origin) out.0 × Counted lo hi out.1

  quote-Good :
      (side : Side) (touch px : ℤ) (origin now : ℕ) (s : Strategy)
      → pos 0 ≤ℤ touch
      → IsBehind side touch px
      → Counted lo hi s
      → Good side touch origin (quote depth side px origin now s)
  unfolding quote check
  quote-Good side touch px origin now s shown behind c =
      elim (Bool-cases (verdict depth side px (pos 1) now s.risk == 0)) [
        | inl e ↦
            let p = Passes-of_zero depth side px (pos 1) now s.risk ((==_iff _ _).0 e) in
            let above : lo ≤ℤ px = subst (λ x. x ≤ℤ px) c.low p.above in
            rw (e) (
              (
                record {
                  a_new_order = refl;
                  on_side = refl;
                  one_lot = refl;
                  stamped = refl;
                  shown = shown;
                  behind = behind;
                  above = above;
                  below = subst (λ x. px ≤ℤ x) c.high p.below;
                },
                tt,
              ),
              replaced-Counted side px now s c above,
            )
        | inr e ↦ rw (e) (
          tt,
          record { buys = c.buys; sells = c.sells; flat = c.flat; low = c.low; high = c.high },
        )
      ]

  requote-Good :
      (side : Side) (touch want : ℤ) (origin now : ℕ) (s : Strategy)
      → IsBehind side touch want
      → Counted lo hi s
      → Good side touch origin (requote depth side touch want origin now s)
  unfolding requote
  requote-Good side touch want origin now s behind c =
      elim (Bool-cases (leb_ℤ (pos 0) touch && not (eq_ℤ want (my_px side s)))) [
        | inl e ↦ rw (e) (quote-Good side touch want origin now s (ground (arith, e)) behind c)
        | inr e ↦ rw (e) (tt, c)
      ]

  bid_behind : (u : BboUpdate) → bid_want depth u ≤ℤ u.bid_px
  bid_behind u = ground (arith, -ℤ_parts u.bid_px (pos 1))

  ask_behind : (u : BboUpdate) → u.ask_px ≤ℤ ask_want depth u
  ask_behind u = ground (arith, +ℤ_parts u.ask_px (pos 1))

  -- In a strategy whose open lots in the risk gateway are its quotes, with a collar that does not
  -- start below 0, an update leads to new orders for one lot each: first to buy, at the bid touch or
  -- below it, then to sell, at the ask touch or above it, each only where its side has a touch, within
  -- the collar, and stamped with the update's origin. The open lots of the risk gateway are then again
  -- one for each side that is quoted and none for a side that is not.
  pub on_update-Counted :
      (u : BboUpdate) (now_bid now_ask : ℕ) (s : Strategy)
      → Counted lo hi s
      → (buys sells : List Message) × ((on_update depth u now_bid now_ask s).0 ≡ buys ++ sells)
        × All (IsQuote Side.buy u.bid_px lo hi u.origin_tsc) buys
        × All (IsQuote Side.sell u.ask_px lo hi u.origin_tsc) sells
        × Counted lo hi (on_update depth u now_bid now_ask s).1
  unfolding on_update
  on_update-Counted u now_bid now_ask s c =
      let c2 : Counted lo hi (sequenced depth u s) = record {
        buys = c.buys;
        sells = c.sells;
        flat = c.flat;
        low = c.low;
        high = c.high;
      } in
      let bid =
        requote-Good Side.buy u.bid_px (bid_want depth u) u.origin_tsc now_bid (sequenced depth u s)
          (bid_behind u) c2 in
      let ask =
        requote-Good Side.sell u.ask_px (ask_want depth u) u.origin_tsc now_ask _ (ask_behind u)
          bid.1 in
      (_, _, refl, bid.0, ask.0, ask.1)
