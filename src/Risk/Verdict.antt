-- ===== src/Risk/Verdict.antt =====
-- The verdict of `check`: which orders pass, what each bit of a rejection says, and what changes.
use c_order_book.Prelude.{
  ℕ, ◌+◌, ◌%◌, ◌^◌, ◌<◌, ◌≡◌, ◌⊎◌, inl, inr, ◌↔◌, ◌≤◌, ◌≢◌, ap, refl, Bool, true, Bool-cases, not,
  ◌||◌, arith, ◌==◌,
}
use c_order_book.Prelude.Bits.{bit}
use c_order_book.Prelude.Int.{ℤ, pos, ◌<ℤ◌, ◌≤ℤ◌, ◌+ℤ◌, ◌-ℤ◌, ◌*ℤ◌}
use c_order_book.Prelude.Word.{sub64, add64}
use c_order_book.Order.{Side}
use c_order_book.Risk.{
  Gateway, mask, bad_qty, bad_price, bad_position, bad_rate, verdict, accept, check,
  prospective_buy, prospective_sell,
}

-- every rejection bit tells its own condition
mask_bits :
    (a b c d : Bool)
    → (bit (mask a b c d) 0 ≡ a)
      × (bit (mask a b c d) 1 ≡ b)
      × (bit (mask a b c d) 2 ≡ c)
      × (bit (mask a b c d) 3 ≡ d)
unfolding mask bit
mask_bits a b c d = ground arith

mask_none : (a b c d : Bool) → (mask a b c d == 0) ≡ (not (a || (b || (c || d))))
unfolding mask
mask_none a b c d = ground arith

-- The lots that an order adds to the open buys, and to the open sells.
abbrev pub bought : Side → ℤ → ℤ
bought Side.buy qty = qty
bought Side.sell qty = pos 0

abbrev pub sold : Side → ℤ → ℤ
sold Side.buy qty = pos 0
sold Side.sell qty = qty

pub prospective_buy-bought :
    (side : Side) (qty : ℤ) (g : Gateway)
    → prospective_buy side qty g ≡ g.open_buy +ℤ bought side qty
unfolding prospective_buy ◌*ℤ◌
prospective_buy-bought Side.buy qty g = ap (λ q. g.open_buy +ℤ q) (ground arith)
prospective_buy-bought Side.sell qty g = ap (λ q. g.open_buy +ℤ q) (ground arith)

pub prospective_sell-sold :
    (side : Side) (qty : ℤ) (g : Gateway)
    → prospective_sell side qty g ≡ g.open_sell +ℤ sold side qty
unfolding prospective_sell ◌*ℤ◌ ◌-ℤ◌
prospective_sell-sold Side.buy qty g = ap (λ q. g.open_sell +ℤ q) (ground arith)
prospective_sell-sold Side.sell qty g = ap (λ q. g.open_sell +ℤ q) (ground arith)

-- The stamp in the slot of the ring that the next accept takes.
abbrev pub oldest_stamp : ℕ → Gateway → ℕ
oldest_stamp depth g = g.stamps (g.n_sent % depth)

-- What an order must meet to pass.
pub record Passes (depth : ℕ) (side : Side) (price qty : ℤ) (now : ℕ) (g : Gateway) : Type 0 where
  pub positive : pos 0 <ℤ qty
  pub small : qty ≤ℤ g.max_qty
  pub above : g.px_lo ≤ℤ price
  pub below : price ≤ℤ g.px_hi
  pub long : (g.open_buy +ℤ bought side qty) +ℤ g.net_pos ≤ℤ g.pos_limit
  pub short : (g.open_sell +ℤ sold side qty) -ℤ g.net_pos ≤ℤ g.pos_limit
  pub slow : g.window_ticks ≤ sub64 now (oldest_stamp depth g)

-- The gateway after an order that passed, and after one that did not.
pub record Counted (depth : ℕ) (side : Side) (qty : ℤ) (now : ℕ) (g g2 : Gateway) : Type 0 where
  pub buys : g2.open_buy ≡ g.open_buy +ℤ bought side qty
  pub sells : g2.open_sell ≡ g.open_sell +ℤ sold side qty
  pub sent : g2.n_sent ≡ (g.n_sent + 1) % 2 ^ 64
  pub stamped : g2.stamps (g.n_sent % depth) ≡ now
  pub others : (k : ℕ) → k ≢ g.n_sent % depth → g2.stamps k ≡ g.stamps k
  pub position : g2.net_pos ≡ g.net_pos
  pub refusals : g2.rejected ≡ g.rejected
  pub limits :
      (g2.max_qty ≡ g.max_qty)
      × (g2.px_lo ≡ g.px_lo)
      × (g2.px_hi ≡ g.px_hi)
      × (g2.pos_limit ≡ g.pos_limit)
      × (g2.window_ticks ≡ g.window_ticks)

abbrev pub refused : Gateway → Gateway
refused g = record g { rejected = (g.rejected + 1) % 2 ^ 64 }

module _ (depth : ℕ) (side : Side) (price qty : ℤ) (now : ℕ) (g : Gateway) where
  -- What each bit of a rejection says.
  abbrev pub QtyFails : Type 0
  QtyFails = (qty ≤ℤ pos 0) ⊎ (g.max_qty <ℤ qty)

  abbrev pub PriceFails : Type 0
  PriceFails = (price <ℤ g.px_lo) ⊎ (g.px_hi <ℤ price)

  abbrev pub PositionFails : Type 0
  PositionFails =
      (g.pos_limit <ℤ ((g.open_buy +ℤ bought side qty) +ℤ g.net_pos))
      ⊎ (g.pos_limit <ℤ ((g.open_sell +ℤ sold side qty) -ℤ g.net_pos))

  abbrev pub RateFails : Type 0
  RateFails = sub64 now (oldest_stamp depth g) < g.window_ticks

  sized : (bad_qty qty g ≡ true) ↔ QtyFails
  unfolding bad_qty
  sized = (λ h. ground arith, λ h. ground arith)

  collared : (bad_price price g ≡ true) ↔ PriceFails
  unfolding bad_price
  collared = (λ h. ground arith, λ h. ground arith)

  limited : (bad_position side qty g ≡ true) ↔ PositionFails
  unfolding bad_position
  limited =
      rw (prospective_buy-bought side qty g, prospective_sell-sold side qty g)
        (λ h. ground arith, λ h. ground arith)

  paced : (bad_rate depth now g ≡ true) ↔ RateFails
  unfolding bad_rate
  paced = (λ h. ground arith, λ h. ground arith)

  pub Passes-of_zero : verdict depth side price qty now g ≡ 0 → Passes depth side price qty now g
  unfolding verdict
  Passes-of_zero e =
      let none_bad =
        mask_none (bad_qty qty g) (bad_price price g) (bad_position side qty g)
          (bad_rate depth now g) in
      record {
        positive = ground (arith, none_bad, sized);
        small = ground (arith, none_bad, sized);
        above = ground (arith, none_bad, collared);
        below = ground (arith, none_bad, collared);
        long = ground (arith, none_bad, limited);
        short = ground (arith, none_bad, limited);
        slow = ground (arith, none_bad, paced);
      }

  some_fails :
      verdict depth side price qty now g ≢ 0 → QtyFails ⊎ (PriceFails ⊎ (PositionFails ⊎ RateFails))
  unfolding verdict
  some_fails n = elim (Bool-cases (bad_qty qty g)) [
    | inl a ↦ inl (sized.0 a)
    | inr a ↦ elim (Bool-cases (bad_price price g)) [
      | inl b ↦ inr (inl (collared.0 b))
      | inr b ↦ elim (Bool-cases (bad_position side qty g)) [
        | inl c ↦ inr (inr (inl (limited.0 c)))
        | inr c ↦ inr (
            inr (
              inr (
                paced.0 (
                  ground (
                    arith,
                    n,
                    a,
                    b,
                    c,
                    mask_none (bad_qty qty g) (bad_price price g) (bad_position side qty g)
                        (bad_rate depth now g),
                  )))))
      ]
    ]
  ]

  accept-Counted : Counted depth side qty now g (accept depth side qty now g)
  unfolding accept add64
  accept-Counted = record {
    buys = prospective_buy-bought side qty g;
    sells = prospective_sell-sold side qty g;
    sent = refl;
    stamped = ground arith;
    others = λ k h. ground arith;
    position = refl;
    refusals = refl;
    limits = (refl, refl, refl, refl, refl);
  }

  -- `check` either passes the order or refuses it. It passes, with the result 0, if the size is
  -- positive and at most the maximum, the price lies in the collar, neither side's worst case
  -- exceeds the limit with the order's lots on its own side, and the stamp in the slot that the
  -- next accept takes differs from the clock by a window at least, modulo 2 ^ 64. Then the lots are
  -- added to the open lots of the order's side, the clock is stamped in that slot, the count of
  -- accepts goes up by one, modulo 2 ^ 64, and nothing else changes. Otherwise the result is not 0,
  -- one of these conditions fails, and only the count of rejections goes up by one, modulo 2 ^ 64.
  pub check_decides :
      let rj = (check depth side price qty now g).0 in
      let after = (check depth side price qty now g).1 in
      ((rj ≡ 0) × Passes depth side price qty now g × Counted depth side qty now g after)
      ⊎ ((rj ≢ 0) × (QtyFails ⊎ (PriceFails ⊎ (PositionFails ⊎ RateFails))) × (after ≡ refused g))
  unfolding check add64
  check_decides = elim (Bool-cases (verdict depth side price qty now g == 0)) [
    | inl z ↦
        let e : verdict depth side price qty now g ≡ 0 = ground (arith, z) in
        rw z (inl (e, Passes-of_zero e, accept-Counted))
    | inr z ↦
        let n : verdict depth side price qty now g ≢ 0 = λ e. ground (arith, z, e) in
        rw z (inr (n, some_fails n, refl))
  ]

  -- A rejection names every check that failed, and no other: bit 0 is set if the size is not
  -- positive or exceeds the maximum, bit 1 if the price lies outside the collar, bit 2 if with the
  -- order's lots on its own side the worst case of either side exceeds the limit, and bit 3 if the
  -- stamp in the slot that the next accept takes differs from the clock by less than a window, modulo
  -- 2 ^ 64.
  pub check_reasons :
      let rj = (check depth side price qty now g).0 in
      ((bit rj 0 ≡ true) ↔ QtyFails)
      × ((bit rj 1 ≡ true) ↔ PriceFails)
      × ((bit rj 2 ≡ true) ↔ PositionFails)
      × ((bit rj 3 ≡ true) ↔ RateFails)
  unfolding check verdict
  check_reasons =
      let (size, collar, exposure, rate) =
        mask_bits (bad_qty qty g) (bad_price price g) (bad_position side qty g)
          (bad_rate depth now g) in
      rw (size, collar, exposure, rate) (sized, collared, limited, paced)
