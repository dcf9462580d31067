-- ===== src/Book/Sweep.antt =====
-- `sweep_level`: the fills of a taker against one level, with the reload of icebergs.
use c_order_book.Prelude.{ℕ, zero, suc, true, false, Option, none, some, if◌then◌else◌}
use c_order_book.Prelude.Int.{ℤ, pos, ltb_ℤ, eq_ℤ, min_ℤ, ◌+ℤ◌, ◌-ℤ◌}
use c_order_book.Order.{Side, Order}
use c_order_book.Book.State.{
  Book, Cmd, pure, ◌>>=◌, ◌>>◌, modify, load_order, store_order, set_next, set_prev, set_head,
  set_tail, add_total, sub_total, bump_generation, report,
}
use c_order_book.Book.Links.{clear_bid, clear_ask, release_order}

-- The local variables of the loop: the order at hand, the lots still open, the reload chain.
pub record Sweep : Type 0 where
  pub at : Option ℕ
  pub qty : ℤ
  pub reload_head : Option ℕ
  pub reload_tail : Option ℕ

-- `(reload_tail ? reload_tail->next : reload_head) = o`
unfoldable pub chain_reload : ℕ → Sweep → Cmd (Option ℕ)
chain_reload n s = elim s.reload_tail [
  | none ↦ pure (some n)
  | some t ↦ do set_next t (some n); pure s.reload_head
]

-- The iceberg branch, for the order `o` in slot `n`, whose visible clip is exhausted.
unfoldable pub reload : ℕ → ℕ → Order → Sweep → Cmd Sweep
unfolding chain_reload
reload idx n o s = do
  let refill = min_ℤ o.display_qty o.hidden_qty
  store_order n (record o {
    qty = refill;
    hidden_qty = o.hidden_qty -ℤ refill;
    next = none;
    prev = s.reload_tail;
  })
  add_total idx refill
  head ← chain_reload n s
  pure (record s { at = o.next; reload_head = head; reload_tail = some n })

-- A maker with nothing in reserve leaves the book.
unfoldable pub retire : ℕ → Order → Sweep → Cmd Sweep
retire n o s = do bump_generation n; release_order n; pure (record s { at = o.next })

-- The body of the loop, at the order in slot `n`.
unfoldable pub fill_step : ℕ → ℤ → ℕ → Sweep → Cmd Sweep
unfolding reload retire
fill_step idx px n s = do
  o ← load_order n
  let fill = min_ℤ o.qty s.qty
  let o' = record o { qty = o.qty -ℤ fill }
  let s' = record s { qty = s.qty -ℤ fill }
  store_order n o'
  sub_total idx fill
  report (record { maker_id = o.id; taker_id = 0; price = px; qty = fill })
  (if eq_ℤ o'.qty (pos 0)
      then (if ltb_ℤ (pos 0) o.hidden_qty then reload idx n o' s' else retire n o' s')
      else pure s')

-- `while (o != nullptr && qty > 0)`, with fuel for the rounds
unfoldable pub fill_loop : ℕ → ℕ → ℤ → Sweep → Cmd Sweep
fill_loop zero idx px s = λ _. none
fill_loop (suc fuel) idx px s = elim s.at [
  | none ↦ pure s
  | some n ↦ elim (ltb_ℤ (pos 0) s.qty) [
    | false ↦ pure s
    | true ↦ do s' ← fill_step idx px n s; fill_loop fuel idx px s'
  ]
]

-- The level swept clean, in `sweep_level`.
unfoldable pub swept : (num_ticks : ℕ) → Side → ℕ → Book → Book
swept num_ticks Side.sell idx b = clear_ask num_ticks idx b
swept num_ticks Side.buy idx b = clear_bid idx b

-- The reloaded orders `first … last` go behind the order in slot `n` and those after it.
unfoldable pub splice : ℕ → Option ℕ → ℕ → Option ℕ → Cmd (Unit {0})
splice idx old_tail first last = do
  set_prev first old_tail
  elim old_tail [ none ↦ λ _. none | some t ↦ set_next t (some first) ]
  set_tail idx last

-- What follows the loop.
unfoldable pub settle : (num_ticks : ℕ) → Side → ℕ → Sweep → Cmd (Unit {0})
unfolding splice swept
settle num_ticks maker idx s b = elim s.reload_head [
  | some first ↦ elim s.at [
    | some n ↦
        (do
          splice idx (b.levels idx).tail first s.reload_tail
          set_prev n none
          set_head idx (some n))
          b
    | none ↦ (do set_head idx (some first); set_tail idx s.reload_tail) b
  ]
  | none ↦ elim s.at [
    | some n ↦ (do set_head idx (some n); set_prev n none) b
    | none ↦ (do set_head idx none; set_tail idx none; modify (swept num_ticks maker idx)) b
  ]
]

unfoldable pub sweep_level : (num_ticks fuel : ℕ) → Side → ℕ → ℤ → Cmd ℤ
unfolding fill_loop fill_step settle
sweep_level num_ticks fuel maker idx qty b =
    (do
      s ←
          fill_loop fuel idx (b.base +ℤ pos idx)
            (record { at = (b.levels idx).head; qty = qty; reload_head = none; reload_tail = none })
      settle num_ticks maker idx s
      pure s.qty)
      b
