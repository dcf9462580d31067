-- ===== src/Book/Matching/Loop.antt =====
-- The matching loop returns, and follows price-time priority.
use c_order_book.Prelude.{
  ℕ, zero, suc, ◌+◌, ◌^◌, ◌<◌, ◌≤◌, ◌≡◌, ◌∙◌, ap, sym, refl, true, false, ◌&&◌, arith, Bool-cases,
  inl, inr, List, [], ◌++◌,
}
use mathlib.Core.Path.{subst}
use mathlib.Core.List.{append-nil, append_assoc}
use c_order_book.Prelude.Int.{ℤ, pos, negsuc, pos_part, ◌<ℤ◌, ◌≤ℤ◌, ltb_ℤ}
use c_order_book.Order.{Side, Trade}
use c_order_book.Book.State.{Book}
use c_order_book.Book.Sweep.{sweep_level}
use c_order_book.Book.Engine.{match_loop, crosses, far_best, opposite}
use c_order_book.Book.Valid.{View, IsBook, price_of}
use c_order_book.Book.Returns.{Returns, returns, bind, weaken}
use c_order_book.Book.Fills.{Filled, fill_queue}
use c_order_book.Book.Fills.Kept.{best_of}
use c_order_book.Book.Fills.Outcome.{Sweeps, sweep_level-Sweeps}
use c_order_book.Book.Matching.{filled_view, Matched, stops, takes}
use c_order_book.Book.Matching.Lots.{open_lots-bounds, open_lots-fewer}
use c_order_book.Book.Matching.Best.{
  far_best-IsBest, far_best-as_good, crosses-nobody, makers_at-opposite, makers_at-occupied,
  far_best-best_of,
}

fewer_rounds : (a q : ℤ) → pos 0 ≤ℤ a → a <ℤ q → pos_part a < pos_part q
fewer_rounds (pos a) (pos q) h l = omega arith
fewer_rounds (pos a) (negsuc q) h l = absurd (omega arith)
fewer_rounds (negsuc a) q h l = absurd (omega arith)

-- The book after the loop: what it stands for now, and how that came about.
pub record Matches (num_ticks pool_cap : ℕ) (b : Book) (v : View) (taker : Side) (limit : ℕ)
    (q left : ℤ) (b2 : Book) : Type 0 where
  pub view : View
  pub trades : List Trade
  pub matched : Matched b.base taker limit v q trades view left
  pub reported : b2.trades ≡ b.trades ++ trades
  pub base : b2.base ≡ b.base
  pub book : IsBook num_ticks pool_cap b2 view
  pub lots : pos 0 ≤ℤ left
  pub over : (ltb_ℤ (pos 0) left && crosses taker limit b2) ≡ false

module _ {num_ticks pool_cap : ℕ} (small : num_ticks ≤ 2 ^ 18) (taker : Side) (limit : ℕ)
    (inside : limit < num_ticks) where
  -- the sweep at the best level, when the taker crosses
  sweep_best :
      {b : Book} {v : View} (q : ℤ) (w : IsBook num_ticks pool_cap b v)
      → crosses taker limit b ≡ true
      → Returns
          (Sweeps num_ticks pool_cap b v
            (far_best taker b)
            (fill_queue (price_of b (far_best taker b)) (v.queue (far_best taker b)) q))
          (sweep_level num_ticks (pool_cap + 2) (opposite taker) (far_best taker b) q b)
  sweep_best {b} {v} q w h =
      let best = far_best-IsBest v w.top limit inside taker h in
      let side = makers_at-opposite taker v (far_best taker b) best.0 in
      rw (sym side) (
        sweep_level-Sweeps small w (far_best taker b)
          (makers_at-occupied taker v (far_best taker b) best.0)
          (far_best-best_of taker b ∙ ap (λ s. best_of s b) (sym side)) q)

  module _ {b : Book} {v : View} (q : ℤ) (w : IsBook num_ticks pool_cap b v)
      (cross : crosses taker limit b ≡ true) (more : pos 0 <ℤ q) where
    abbrev at : ℕ
    at = far_best taker b

    abbrev outcome : Filled
    outcome = fill_queue (price_of b at) (v.queue at) q

    lots_after : (left : ℤ) → left ≡ outcome.open_lots → (pos 0 ≤ℤ left) × (left <ℤ q)
    lots_after left e =
        let occ =
          makers_at-occupied taker v at (far_best-IsBest v w.top limit inside taker cross).0 in
        subst (λ t. (pos 0 ≤ℤ t) × (t <ℤ q)) (sym e)
          (
            (open_lots-bounds b.generations (price_of b at) (v.queue at) q (w.good at)
                (omega (arith, more))).0,
            open_lots-fewer b.generations (price_of b at) (v.queue at) q (w.good at) occ more,
          )

    -- a sweep and what the rest of the loop did
    took :
        (left : ℤ) (b1 : Book)
        → Sweeps num_ticks pool_cap b v at outcome left b1
        → (last : ℤ) (b2 : Book)
        → Matches num_ticks pool_cap b1 (filled_view v at outcome) taker limit left last b2
        → Matches num_ticks pool_cap b v taker limit q last b2
    took left b1 s last b2 m = record {
      view = m.view;
      trades = outcome.trades ++ m.trades;
      matched =
          takes at more (far_best-IsBest v w.top limit inside taker cross)
            (far_best-as_good v w.top limit inside taker cross)
            (subst
              (λ z.
                Matched z taker limit (filled_view v at outcome) outcome.open_lots m.trades m.view
                  last)
              s.base
              (subst
                (λ t. Matched b1.base taker limit (filled_view v at outcome) t m.trades m.view last)
                s.lots m.matched));
      reported =
          m.reported
          ∙ ap (λ l. l ++ m.trades) s.trades
          ∙ append_assoc b.trades outcome.trades m.trades;
      base = m.base ∙ s.base;
      book = m.book;
      lots = m.lots;
      over = m.over;
    }

  pub match_loop-Matches :
      (fuel : ℕ) (q : ℤ) {b : Book} {v : View}
      → IsBook num_ticks pool_cap b v
      → pos 0 ≤ℤ q
      → pos_part q < fuel
      → Returns
          (Matches num_ticks pool_cap b v taker limit q)
          (match_loop num_ticks pool_cap fuel taker limit q b)
  unfolding match_loop
  match_loop-Matches zero q w h l = absurd (omega arith)
  match_loop-Matches (suc fuel) q {b} {v} w h l =
      elim (Bool-cases (ltb_ℤ (pos 0) q && crosses taker limit b)) [
        | inr done ↦
            rw (done, match_loop)
              (returns (record {
                view = v;
                trades = [];
                matched =
                    stops
                      (λ k. crosses-nobody v w.top limit inside taker (ground (arith, k, done)));
                reported = sym (append-nil b.trades);
                base = refl;
                book = w;
                lots = h;
                over = done;
              }))
        | inl more ↦
            rw (more, match_loop)
              (bind (sweep_best q w (ground (arith, more))) (λ left b1 s.
                let fewer =
                  lots_after q w (ground (arith, more)) (ground (arith, more)) left (s.lots) in
                weaken
                  (match_loop-Matches fuel left s.book fewer.0
                    (omega (arith, l, fewer_rounds left q fewer.0 fewer.1)))
                  (λ last b2 m.
                    took q w (ground (arith, more)) (ground (arith, more)) left b1 s last b2 m)))
      ]
