-- ===== src/Risk/Exposure.antt =====
-- The position limit over whole sessions of orders, cancels and fills.
use c_order_book.Prelude.{ℕ, ◌≡◌, ◌∙◌, refl, arith, ◌==◌, List, [], ◌∷◌, Bool-cases, inl, inr}
use c_order_book.Prelude.Int.{ℤ, pos, ◌≤ℤ◌, ◌+ℤ◌, ◌-ℤ◌, ◌*ℤ◌, int_laws}
use c_order_book.Order.{Side}
use c_order_book.Risk.{Gateway, check, accept, verdict, on_cancel, on_fill}
use c_order_book.Risk.Verdict.{Passes-of_zero, prospective_buy-bought, prospective_sell-sold}

-- If everything open on either side filled, the position would stay within the limit.
pub record InLimits (g : Gateway) : Type 0 where
  pub long : g.open_buy +ℤ g.net_pos ≤ℤ g.pos_limit
  pub short : g.open_sell -ℤ g.net_pos ≤ℤ g.pos_limit

-- What the strategy thread tells its gateway.
pub data Event : Type 0 where
  order : Side → ℤ → ℤ → ℕ → Event
  cancelled : Side → ℤ → Event
  filled : Side → ℤ → Event

-- Quantities cancelled or filled are not negative.
abbrev pub IsSane : Event → Type 0
IsSane (order side price qty now) = Unit {0}
IsSane (cancelled side qty) = pos 0 ≤ℤ qty
IsSane (filled side qty) = pos 0 ≤ℤ qty

abbrev pub AllSane : List Event → Type 0
AllSane [] = Unit {0}
AllSane (e ∷ es) = IsSane e × AllSane es

mul_one : (q : ℤ) → q *ℤ pos 1 ≡ q
unfolding ◌*ℤ◌
mul_one q = ground arith

mul_zero : (q : ℤ) → q *ℤ pos 0 ≡ pos 0
unfolding ◌*ℤ◌
mul_zero q = ground arith

-- The multipliers of the source: the other side's share, and the sign of a fill.
mul_off : (q : ℤ) → q *ℤ (pos 1 -ℤ pos 1) ≡ pos 0
unfolding ◌*ℤ◌ ◌-ℤ◌
mul_off q = ground arith

mul_on : (q : ℤ) → q *ℤ (pos 1 -ℤ pos 0) ≡ q
unfolding ◌*ℤ◌ ◌-ℤ◌
mul_on q = ground arith

mul_up : (q : ℤ) → q *ℤ (pos 2 -ℤ pos 1) ≡ q
unfolding ◌*ℤ◌ ◌-ℤ◌
mul_up q = ground arith

mul_down : (q : ℤ) → q *ℤ (pos 0 -ℤ pos 1) ≡ pos 0 -ℤ q
unfolding ◌*ℤ◌ ◌-ℤ◌
mul_down q = ground arith

-- Taking lots off the open buys, with a position that grows by as much or by less, keeps the worst
-- case; so on the other side.
ruleset multipliers = (mul_one, mul_zero, mul_off, mul_on, mul_up, mul_down)

module _ (depth : ℕ) where
  unfoldable pub step : Event → Gateway → Gateway
  step (order side price qty now) g = (check depth side price qty now g).1
  step (cancelled side qty) g = on_cancel side qty g
  step (filled side qty) g = on_fill side qty g

  unfoldable pub run : List Event → Gateway → Gateway
  run [] g = g
  run (e ∷ es) g = run es (step e g)

  check-InLimits :
      (side : Side) (price qty : ℤ) (now : ℕ) (g : Gateway)
      → InLimits g
      → InLimits (check depth side price qty now g).1
  unfolding check accept
  check-InLimits side price qty now g v =
      elim (Bool-cases (verdict depth side price qty now g == 0)) [
        | inl z ↦
            let p = Passes-of_zero depth side price qty now g (ground arith) in
            rw (z, prospective_buy-bought side qty g, prospective_sell-sold side qty g)
              (record { long = p.long; short = p.short })
        | inr nz ↦ rw nz (record { long = v.long; short = v.short })
      ]

  step-InLimits : (e : Event) (g : Gateway) → IsSane e → InLimits g → InLimits (step e g)
  unfolding step on_cancel on_fill
  step-InLimits (order side price qty now) g s v = check-InLimits side price qty now g v
  step-InLimits (cancelled Side.buy qty) g s v = record {
    long = simp multipliers (omega int_laws);
    short = simp multipliers (omega int_laws);
  }
  step-InLimits (cancelled Side.sell qty) g s v = record {
    long = simp multipliers (omega int_laws);
    short = simp multipliers (omega int_laws);
  }
  step-InLimits (filled Side.buy qty) g s v = record {
    long = simp multipliers (omega int_laws);
    short = simp multipliers (omega int_laws);
  }
  step-InLimits (filled Side.sell qty) g s v = record {
    long = simp multipliers (omega int_laws);
    short = simp multipliers (omega int_laws);
  }

  limit_kept : (e : Event) (g : Gateway) → (step e g).pos_limit ≡ g.pos_limit
  unfolding step check accept on_cancel on_fill
  limit_kept (order side price qty now) g = ground arith
  limit_kept (cancelled side qty) g = refl
  limit_kept (filled side qty) g = refl

  run-InLimits : (es : List Event) (g : Gateway) → AllSane es → InLimits g → InLimits (run es g)
  unfolding run
  run-InLimits [] g s v = v
  run-InLimits (e ∷ es) g s v = run-InLimits es (step e g) s.1 (step-InLimits e g s.0 v)

  limit-run : (es : List Event) (g : Gateway) → (run es g).pos_limit ≡ g.pos_limit
  unfolding run
  limit-run [] g = refl
  limit-run (e ∷ es) g = limit-run es (step e g) ∙ limit_kept e g

  -- However orders, cancels and fills of quantities that are not negative follow one another, a
  -- gateway that starts within its limit stays within it: if all lots open on one side filled, the
  -- position would not exceed the limit given at the start. So, while neither side's open lots are
  -- negative, the position lies between minus the limit and the limit.
  pub session_within_limit :
      (es : List Event) (g : Gateway)
      → AllSane es
      → InLimits g
      → InLimits (run es g)
        × ((run es g).pos_limit ≡ g.pos_limit)
        × (pos 0 ≤ℤ (run es g).open_buy → (run es g).net_pos ≤ℤ g.pos_limit)
        × (pos 0 ≤ℤ (run es g).open_sell → pos 0 -ℤ g.pos_limit ≤ℤ (run es g).net_pos)
  session_within_limit es g s v =
      let w = run-InLimits es g s v in
      let k = limit-run es g in
      let long : (run es g).open_buy +ℤ (run es g).net_pos ≤ℤ g.pos_limit = rw k at w.long in
      let short : (run es g).open_sell -ℤ (run es g).net_pos ≤ℤ g.pos_limit = rw k at w.short in
      (w, k, λ o. omega int_laws, λ o. omega int_laws)
