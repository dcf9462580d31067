-- ===== src/Book/Fills/Loop.antt =====
-- The loop of `sweep_level` fills the queue first in, first out.
use c_order_book.Prelude.{
  ℕ, zero, suc, ◌<◌, ◌≡◌, ◌∙◌, ap, sym, refl, true, false, ◌&&◌, arith, Bool-cases, inl, inr,
  Option, none, some, List, [], ◌∷◌, ◌++◌, length,
}
use mathlib.Core.Path.{subst}
use mathlib.Core.List.{append_assoc, append-nil}
use c_order_book.Prelude.Int.{
  ℤ, pos, ◌-ℤ◌, ◌<ℤ◌, -ℤ_parts, ltb_ℤ, eq_ℤ, min_ℤ, int_laws, eq_of_parts,
}
use c_order_book.Order.{Trade}
use c_order_book.Book.State.{Book, and_then}
use c_order_book.Book.Queue.{Entry, first_or, last_or, last_or-append, Snoc, none_in, snoc, to_snoc}
use c_order_book.Book.Sweep.{Sweep, fill_loop, fill_step}
use c_order_book.Book.Valid.{View, price_of, occupied}
use c_order_book.Book.Returns.{Returns, returns, weaken}
use c_order_book.Book.Rest.Stored.{first_or-more}
use c_order_book.Book.Unlink.Lessened.{lessened}
use c_order_book.Book.Fills.{
  Live, put_live, Sweeping, next_clip, Filled, fill_queue, give_back, exhaust, trade_of,
}
use c_order_book.Book.Fills.Step.{
  fill_step-part, fill_step-retired, fill_step-first, fill_step-next,
}
use c_order_book.Book.Fills.Round.{at_hand, part, gone, Sweeping-part, Sweeping-gone}
use c_order_book.Book.Fills.Reload.{
  renewed, cells_first, cells_next, last_order, last_order-live, apart_slots, Sweeping-first,
  Sweeping-next,
}

-- The local variables point to the orders still linked and to the reload chain.
pub record Holds (s : Sweep) (es rl : List Entry) : Type 0 where
  pub at : s.at ≡ first_or none es
  pub head : s.reload_head ≡ first_or none rl
  pub tail : s.reload_tail ≡ last_or none rl

-- The loop, started at `x` with the reload chain `rl`, has filled a queue with the outcome `r`.
pub record Looped (pool_cap : ℕ) (b : Book) (v : View) (idx : ℕ) (x : Live) (rl : List Entry)
    (free : List ℕ) (r : Filled) (s : Sweep) (b2 : Book) : Type 0 where
  pub now : Live
  pub book : b2 ≡ put_live now b
  pub sweeping : Sweeping pool_cap b v idx now r.left (rl ++ r.reloaded) (give_back r.retired free)
  pub holds : Holds s r.left (rl ++ r.reloaded)
  pub lots : s.qty ≡ r.open_lots
  pub trades : now.trades ≡ x.trades ++ r.trades

least_self : (a q : ℤ) → ltb_ℤ q a ≡ false → min_ℤ a q ≡ a
least_self a q h = elim (Bool-cases (ltb_ℤ a q)) [
  | inl less ↦ rw less refl
  | inr more ↦ rw more (eq_of_parts q a (ground (arith, h, more)))
]

least_other : (a q : ℤ) → ltb_ℤ q a ≡ true → min_ℤ a q ≡ q
least_other a q h = let more : ltb_ℤ a q ≡ false = ground (arith, h) in rw more refl

nothing : (a : ℤ) → a -ℤ a ≡ pos 0
nothing a = omega int_laws

none_left : (a : ℤ) → eq_ℤ (a -ℤ a) (pos 0) ≡ true
none_left a = rw (nothing a) refl

none_more : (a : ℤ) → ltb_ℤ (pos 0) (a -ℤ a) ≡ false
none_more a = rw (nothing a) refl

some_left : (a q : ℤ) → ltb_ℤ q a ≡ true → eq_ℤ (a -ℤ q) (pos 0) ≡ false
some_left a q h = ground (arith, -ℤ_parts a q, h)

abbrev untouched : Sweep → List Entry → Filled
untouched s es = record { open_lots = s.qty; left = es; reloaded = []; retired = []; trades = [] }

module _ (pool_cap : ℕ) (b : Book) (v : View) (idx : ℕ) where
  -- A loop with nothing to fill stops.
  idle :
      (fuel : ℕ) (s : Sweep) (x : Live) (es rl : List Entry)
      → Holds s es rl
      → (occupied es && ltb_ℤ (pos 0) s.qty) ≡ false
      → fill_loop (suc fuel) idx (price_of b idx) s (put_live x b) ≡ some (s, put_live x b)
  unfolding fill_loop
  idle fuel s x [] rl h done =
      rw (h.at, fill_loop) (ap (λ t. some (record s { at = t }, put_live x b)) (h.at))
  idle fuel s x (e ∷ es) rl h done =
      rw (h.at, done, fill_loop) (ap (λ t. some (record s { at = t }, put_live x b)) (h.at))

  stopped :
      (fuel : ℕ) (s : Sweep) (x : Live) (es rl : List Entry) (free : List ℕ)
      → Sweeping pool_cap b v idx x es rl free
      → Holds s es rl
      → (occupied es && ltb_ℤ (pos 0) s.qty) ≡ false
      → Returns
          (Looped pool_cap b v idx x rl free (untouched s es))
          (fill_loop (suc fuel) idx (price_of b idx) s (put_live x b))
  stopped fuel s x es rl free w h done = rw (idle fuel s x es rl h done) (
      returns (record {
        now = x;
        book = refl;
        sweeping = subst (λ l. Sweeping pool_cap b v idx x es l free) (sym (append-nil rl)) w;
        holds = subst (Holds s es) (sym (append-nil rl)) h;
        lots = refl;
        trades = sym (append-nil x.trades);
      }))

  -- One round, and the rest of the loop.
  unroll :
      (fuel n : ℕ) (s : Sweep) (c : Book)
      → s.at ≡ some n
      → ltb_ℤ (pos 0) s.qty ≡ true
      → fill_loop (suc fuel) idx (price_of b idx) s c
        ≡ and_then
            (fill_step idx (price_of b idx) n s c)
            (λ s1. fill_loop fuel idx (price_of b idx) s1)
  unfolding fill_loop
  unroll fuel n s c e k =
      ap (λ t. fill_loop (suc fuel) idx (price_of b idx) (record s { at = t }) c) e
      ∙ rw (k, fill_loop) refl
      ∙ ap
          (λ t.
            and_then (fill_step idx (price_of b idx) n (record s { at = t }) c)
              (λ s1. fill_loop fuel idx (price_of b idx) s1))
          (sym e)

  module _ (x x1 : Live) (e : Entry) (rl : List Entry) (free : List ℕ) (r : Filled) (s : Sweep)
      (b2 : Book) (more : x1.trades ≡ x.trades ++ (trade_of (price_of b idx) e e.qty ∷ [])) where
    abbrev trade : List Trade
    trade = trade_of (price_of b idx) e e.qty ∷ []

    trades_after :
        (ts : List Trade) → ts ≡ x1.trades ++ r.trades → ts ≡ x.trades ++ (trade ++ r.trades)
    trades_after ts h = h ∙ ap (λ l. l ++ r.trades) more ∙ append_assoc x.trades trade r.trades

    plain-Looped :
        ltb_ℤ (pos 0) e.hidden ≡ false
        → Looped pool_cap b v idx x1 rl (e.slot ∷ free) r s b2
        → Looped pool_cap b v idx x rl free (exhaust (price_of b idx) e r) s b2
    plain-Looped plain l = rw plain (record {
      now = l.now;
      book = l.book;
      sweeping = l.sweeping;
      holds = l.holds;
      lots = l.lots;
      trades = trades_after l.now.trades l.trades;
    })

    iceberg-Looped :
        ltb_ℤ (pos 0) e.hidden ≡ true
        → Looped pool_cap b v idx x1 (rl ++ (next_clip e ∷ [])) free r s b2
        → Looped pool_cap b v idx x rl free (exhaust (price_of b idx) e r) s b2
    iceberg-Looped iceberg l =
        let joined = append_assoc rl (next_clip e ∷ []) r.reloaded in
        rw iceberg (record {
          now = l.now;
          book = l.book;
          sweeping =
              subst (λ k. Sweeping pool_cap b v idx l.now r.left k (give_back r.retired free))
                joined l.sweeping;
          holds = subst (Holds s r.left) joined l.holds;
          lots = l.lots;
          trades = trades_after l.now.trades l.trades;
        })

  module _ (cap : b.pool.capacity ≡ pool_cap) where
    -- The round at an order with lots beyond the taker's is the last one.
    last_round :
        (fuel : ℕ) (s : Sweep) (x : Live) (e : Entry) (es rl : List Entry) (free : List ℕ)
        → Sweeping pool_cap b v idx x (e ∷ es) rl free
        → Holds s (e ∷ es) rl
        → ltb_ℤ (pos 0) s.qty ≡ true
        → ltb_ℤ s.qty e.qty ≡ true
        → Returns
            (Looped pool_cap b v idx x rl free (record {
              open_lots = pos 0;
              left = lessened e s.qty ∷ es;
              reloaded = [];
              retired = [];
              trades = trade_of (price_of b idx) e s.qty ∷ [];
            }))
            (fill_loop (suc (suc fuel)) idx (price_of b idx) s (put_live x b))
    last_round fuel s x e es rl free w h more less =
        rw (unroll (suc fuel) e.slot s (put_live x b) (h.at) more) (
          rw
            (fill_step-part b x idx (price_of b idx) e.slot s (at_hand cap w) s.qty w.front.0
              (least_other e.qty s.qty less) (some_left e.qty s.qty less))
            (weaken
              (stopped fuel (record s { qty = s.qty -ℤ s.qty }) (part cap w s s.qty)
                (lessened e s.qty ∷ es) rl free (Sweeping-part cap w s s.qty (ground (arith, less)))
                (record { at = h.at; head = h.head; tail = h.tail }) (none_more s.qty))
              λ s1 b2 l. record {
                now = l.now;
                book = l.book;
                sweeping = l.sweeping;
                holds = l.holds;
                lots = l.lots ∙ nothing s.qty;
                trades = l.trades ∙ append-nil (part cap w s s.qty).trades;
              }))

    -- what the rest of the loop does, from any state
    abbrev Rest : ℕ → List Entry → Type 0
    Rest fuel es =
        (s : Sweep) (x : Live) (rl : List Entry) (free : List ℕ)
        → Sweeping pool_cap b v idx x es rl free
        → Holds s es rl
        → Returns (Looped pool_cap b v idx x rl free (fill_queue (price_of b idx) es s.qty))
            (fill_loop fuel idx (price_of b idx) s (put_live x b))

    module _ (fuel : ℕ) (s : Sweep) (x : Live) (e : Entry) (es rl : List Entry) (free : List ℕ)
        (w : Sweeping pool_cap b v idx x (e ∷ es) rl free) (h : Holds s (e ∷ es) rl)
        (rest : Rest fuel es) (more : ltb_ℤ (pos 0) s.qty ≡ true)
        (all : ltb_ℤ s.qty e.qty ≡ false) where
      abbrev Done : Sweep → Book → Type 0
      Done =
          Looped pool_cap b v idx x rl free
            (exhaust (price_of b idx) e (fill_queue (price_of b idx) es (s.qty -ℤ e.qty)))

      retired_round :
          ltb_ℤ (pos 0) e.hidden ≡ false
          → Returns Done (fill_loop (suc fuel) idx (price_of b idx) s (put_live x b))
      retired_round plain = rw (unroll fuel e.slot s (put_live x b) (h.at) more) (
          rw
            (fill_step-retired b x idx (price_of b idx) e.slot s (at_hand cap w) e.qty w.front.0
              (least_self e.qty s.qty all) (none_left e.qty) plain)
            (weaken
              (rest (record s { at = first_or none es; qty = s.qty -ℤ e.qty }) (gone cap w s e.qty)
                rl (e.slot ∷ free) (Sweeping-gone cap w s e.qty refl)
                (record { at = refl; head = h.head; tail = h.tail }))
              λ s1 b2 l. plain-Looped x (gone cap w s e.qty) e rl free _ s1 b2 refl plain l))

      abbrev sent_back : Option ℕ → Sweep
      sent_back head = record {
        at = first_or none es;
        qty = s.qty -ℤ e.qty;
        reload_head = head;
        reload_tail = some e.slot;
      }

      reloaded_round :
          (iceberg : ltb_ℤ (pos 0) e.hidden ≡ true)
          → {q : List Entry} → Snoc q
          → rl ≡ q
          → Returns Done (fill_loop (suc fuel) idx (price_of b idx) s (put_live x b))
      reloaded_round iceberg none_in empty =
          let clip : pos 0 <ℤ e.hidden = ground (arith, iceberg) in
          let tail : s.reload_tail ≡ none = h.tail ∙ ap (last_or none) empty in
          let x1 = renewed cap w s e.qty refl clip (cells_first cap w s e.qty refl clip) in
          rw (unroll fuel e.slot s (put_live x b) (h.at) more) (
            rw
              (fill_step-first b x idx (price_of b idx) e.slot s (at_hand cap w) e.qty w.front.0
                (least_self e.qty s.qty all) (none_left e.qty) iceberg tail)
              (weaken
                (rest (sent_back (some e.slot)) x1 (rl ++ (next_clip e ∷ [])) free
                  (Sweeping-first cap w s e.qty refl clip empty tail)
                  (record { at = refl; head = rw empty refl; tail = rw empty refl }))
                λ s1 b2 l. iceberg-Looped x x1 e rl free _ s1 b2 refl iceberg l))
      reloaded_round iceberg (snoc ys z) queue =
          let clip : pos 0 <ℤ e.hidden = ground (arith, iceberg) in
          let tail : s.reload_tail ≡ some z.slot =
            h.tail ∙ ap (last_or none) queue ∙ last_or-append none ys (z ∷ []) in
          let x1 =
            renewed cap w s e.qty refl clip (cells_next cap w s e.qty refl clip ys z queue tail) in
          rw (unroll fuel e.slot s (put_live x b) (h.at) more) (
            rw
              (fill_step-next b x idx (price_of b idx) e.slot s (at_hand cap w) e.qty w.front.0
                (least_self e.qty s.qty all) (none_left e.qty) iceberg z.slot
                (last_order cap w s e.qty refl clip ys z queue tail) tail
                (apart_slots cap w s e.qty refl clip ys z queue tail)
                (last_order-live cap w s e.qty refl clip ys z queue tail))
              (weaken
                (rest (sent_back s.reload_head) x1 (rl ++ (next_clip e ∷ [])) free
                  (Sweeping-next cap w s e.qty refl clip ys z queue tail)
                  (record {
                    at = refl;
                    head =
                        h.head
                        ∙ ap (first_or none) queue
                        ∙ first_or-more ys z (next_clip e)
                        ∙ sym (ap (λ q. first_or none (q ++ (next_clip e ∷ []))) queue);
                    tail = sym (last_or-append none rl (next_clip e ∷ []));
                  }))
                λ s1 b2 l. iceberg-Looped x x1 e rl free _ s1 b2 refl iceberg l))

    pub fill_loop-Looped :
        (es : List Entry) (fuel : ℕ) (s : Sweep) (x : Live) (rl : List Entry) (free : List ℕ)
        → Sweeping pool_cap b v idx x es rl free
        → Holds s es rl
        → length es < fuel
        → Returns
            (Looped pool_cap b v idx x rl free (fill_queue (price_of b idx) es s.qty))
            (fill_loop fuel idx (price_of b idx) s (put_live x b))
    unfolding fill_queue
    fill_loop-Looped es zero s x rl free w h l = absurd (omega arith)
    fill_loop-Looped [] (suc fuel) s x rl free w h l = stopped fuel s x [] rl free w h refl
    fill_loop-Looped (e ∷ es) (suc zero) s x rl free w h l = absurd (omega arith)
    fill_loop-Looped (e ∷ es) (suc (suc fuel)) s x rl free w h l =
        elim (Bool-cases (ltb_ℤ (pos 0) s.qty)) [
          | inr done ↦ rw done (stopped (suc fuel) s x (e ∷ es) rl free w h done)
          | inl more ↦ elim (Bool-cases (ltb_ℤ s.qty e.qty)) [
            | inl less ↦ rw (more, less) (last_round fuel s x e es rl free w h more less)
            | inr all ↦
                rw (more, all)
                  (further
                    (λ s1 x1 rl1 free1 w1 h1.
                      fill_loop-Looped es (suc fuel) s1 x1 rl1 free1 w1 h1 (omega (arith, l)))
                    more all)
          ]
        ]
      where
        further :
            Rest (suc fuel) es
            → ltb_ℤ (pos 0) s.qty ≡ true
            → ltb_ℤ s.qty e.qty ≡ false
            → Returns
                (Looped pool_cap b v idx x rl free
                  (exhaust (price_of b idx) e (fill_queue (price_of b idx) es (s.qty -ℤ e.qty))))
                (fill_loop (suc (suc fuel)) idx (price_of b idx) s (put_live x b))
        further rest more all = elim (Bool-cases (ltb_ℤ (pos 0) e.hidden)) [
          | inl iceberg ↦
              reloaded_round (suc fuel) s x e es rl free w h rest more all iceberg (to_snoc rl) refl
          | inr plain ↦ retired_round (suc fuel) s x e es rl free w h rest more all plain
        ]
