-- ===== src/Book/Fills/Outcome.antt =====
-- What `sweep_level` returns, and the book that it leaves.
use c_order_book.Prelude.{
  ℕ, ◌+◌, ◌^◌, ◌≤◌, ◌≡◌, ◌∙◌, sym, refl, true, arith, some, List, [], ◌∷◌, ◌++◌,
}
use mathlib.Core.Path.{subst}
use mathlib.Core.List.{append-nil}
use c_order_book.Prelude.Int.{ℤ}
use c_order_book.Order.{Side}
use c_order_book.Book.State.{Book, and_then}
use c_order_book.Book.Sweep.{Sweep, sweep_level, settle, swept}
use c_order_book.Book.Links.{clear_bid, clear_ask}
use c_order_book.Book.Queue.{Entry, Snoc, none_in, snoc, to_snoc}
use c_order_book.Book.Valid.{View, IsBook, price_of, occupied}
use c_order_book.Book.Returns.{Returns, returns, bind}
use c_order_book.Book.Unlink.{requeued}
use c_order_book.Book.Fills.{Filled, fill_queue, give_back, Live, put_live, live_of, Sweeping}
use c_order_book.Book.Fills.Loop.{Holds, fill_loop-Looped}
use c_order_book.Book.Fills.Settle.{
  settle-nobody, nobody-Settled, settle-chain, settle-unreached, settle-spliced,
}
use c_order_book.Book.Fills.Stored.{Settled}
use c_order_book.Book.Fills.Enter.{enter-Sweeping, enter-Holds, length-queue}
use c_order_book.Book.Fills.Kept.{best_of, plain-IsBook, swept-IsBook}

-- The queue of the level was filled first in, first out, with the outcome `r`.
pub record Sweeps (num_ticks pool_cap : ℕ) (b : Book) (v : View) (idx : ℕ) (r : Filled) (left : ℤ)
    (b2 : Book) : Type 0 where
  pub lots : left ≡ r.open_lots
  pub trades : b2.trades ≡ b.trades ++ r.trades
  pub base : b2.base ≡ b.base
  pub book :
      IsBook num_ticks pool_cap b2
        (requeued v idx (r.left ++ r.reloaded) (give_back r.retired v.free))

trades-swept :
    (num_ticks : ℕ) (maker : Side) (idx : ℕ) (b : Book)
    → (swept num_ticks maker idx b).trades ≡ b.trades
unfolding swept clear_bid clear_ask
trades-swept num_ticks Side.buy idx b = refl
trades-swept num_ticks Side.sell idx b = refl

base-swept :
    (num_ticks : ℕ) (maker : Side) (idx : ℕ) (b : Book)
    → (swept num_ticks maker idx b).base ≡ b.base
unfolding swept clear_bid clear_ask
base-swept num_ticks Side.buy idx b = refl
base-swept num_ticks Side.sell idx b = refl

module _ {num_ticks pool_cap : ℕ} (small : num_ticks ≤ 2 ^ 18) {b : Book} {v : View}
    (w : IsBook num_ticks pool_cap b v) (idx : ℕ) (held : occupied (v.queue idx) ≡ true)
    (best : idx ≡ best_of (v.side idx) b) where
  -- what `settle` leaves: the orders at hand, then the reload chain
  abbrev Ends : Live → List Entry → List Entry → List ℕ → Book → Type 0
  Ends now es rl free b2 =
      IsBook num_ticks pool_cap b2 (requeued v idx (es ++ rl) free)
      × (b2.trades ≡ now.trades)
      × (b2.base ≡ b.base)

  settle-Ends :
      (now : Live) (es rl : List Entry) (free : List ℕ) (s : Sweep)
      → Sweeping pool_cap b v idx now es rl free
      → Holds s es rl
      → Returns (λ _. Ends now es rl free) (settle num_ticks (v.side idx) idx s (put_live now b))
  settle-Ends now [] [] free s k h =
      rw (settle-nobody num_ticks (v.side idx) w.stored.capacity s k h) (
        returns (
          swept-IsBook small w idx held k now.cells _
              (nobody-Settled num_ticks (v.side idx) w.stored.capacity s k) refl best,
          trades-swept num_ticks (v.side idx) idx _,
          base-swept num_ticks (v.side idx) idx _,
        ))
  settle-Ends now [] (r ∷ rs) free s k h =
      let e = settle-chain num_ticks (v.side idx) w.stored.capacity s r rs k h in
      rw (e.ran)
        (returns (plain-IsBook small w idx held k e.cells e.levels e.ok r rs refl, refl, refl))
  settle-Ends now (e ∷ es) [] free s k h =
      let c = settle-unreached num_ticks (v.side idx) w.stored.capacity s e es k h in
      let ok =
        subst (λ q. Settled b v idx now q free c.cells c.levels) (sym (append-nil (e ∷ es))) c.ok in
      rw (c.ran) (
        returns (plain-IsBook small w idx held k c.cells c.levels ok e (es ++ []) refl, refl, refl))
  settle-Ends now (e ∷ es) (r ∷ rs) free s k h = spliced (to_snoc (e ∷ es)) refl
    where
      spliced :
          {q : List Entry}
          → Snoc q
          → e ∷ es ≡ q
          → Returns
              (λ _. Ends now (e ∷ es) (r ∷ rs) free)
              (settle num_ticks (v.side idx) idx s (put_live now b))
      spliced none_in nothing = absurd (cc (nothing))
      spliced (snoc ys z) queue =
          let c =
            settle-spliced num_ticks (v.side idx) w.stored.capacity s e es r rs ys z queue k h in
          rw (c.ran) (
            returns (
              plain-IsBook small w idx held k c.cells c.levels c.ok e (es ++ (r ∷ rs)) refl,
              refl,
              refl,
            ))

  -- In a well-formed book of at most 2 ^ 18 levels, `sweep_level` at the best level of a side returns,
  -- with its fuel. It fills the level's orders first in, first out: the lots that it leaves, the
  -- trades that it reports and the queue that it leaves are those of `fill_queue`, with the icebergs
  -- that show a new clip behind the orders not reached, in the order in which they do, and the slots of
  -- the exhausted orders on the free list; and the book stays well formed.
  pub sweep_level-Sweeps :
      (qty : ℤ)
      → Returns
          (Sweeps num_ticks pool_cap b v idx (fill_queue (price_of b idx) (v.queue idx) qty))
          (sweep_level num_ticks (pool_cap + 2) (v.side idx) idx qty b)
  unfolding sweep_level
  sweep_level-Sweeps qty =
      bind
        (fill_loop-Looped pool_cap b v idx w.stored.capacity (v.queue idx) (pool_cap + 2) _
          (live_of b) [] v.free (enter-Sweeping w idx) (enter-Holds w idx qty)
          (omega (arith, length-queue w idx)))
        λ s b1 l.
          subst
            (λ c.
              Returns
                (Sweeps num_ticks pool_cap b v idx (fill_queue (price_of b idx) (v.queue idx) qty))
                (and_then (settle num_ticks (v.side idx) idx s c) (λ _ b2. some (s.qty, b2))))
            (sym l.book)
            (bind (settle-Ends l.now _ _ _ s l.sweeping l.holds) λ _ b2 e.
              returns (record { lots = l.lots; trades = e.1 ∙ l.trades; base = e.2; book = e.0 }))
