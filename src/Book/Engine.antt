-- ===== src/Book/Engine.antt =====
-- The public operations of `OrderBook`.
use c_order_book.Prelude.{
  ℕ, zero, suc, ◌+◌, Bool, true, false, not, ◌&&◌, ◌||◌, none, some, ltb, leb, ◌==◌, if◌then◌else◌,
}
use c_order_book.Prelude.Int.{ℤ, pos, negsuc, pos_part, ltb_ℤ, leb_ℤ, eq_ℤ, ◌+ℤ◌, ◌-ℤ◌}
use c_order_book.Bitmap.{npos}
use c_order_book.Order.{Side, MsgType, Message}
use c_order_book.Book.State.{Book, Cmd, pure, ◌>>=◌, ◌>>◌, load_order, store_order, sub_total, tick}
use c_order_book.Book.Links.{
  taker_filled_id, slot_of, generation_of, unlink_and_release, rest, rest_iceberg,
}
use c_order_book.Book.Sweep.{sweep_level}

-- `best_ask_ <= idx`, and `best_bid_ != NPOS && best_bid_ >= idx`
abbrev pub crosses : Side → ℕ → Book → Bool
crosses Side.buy idx b = leb b.best_ask idx
crosses Side.sell idx b = not (b.best_bid == npos) && leb idx b.best_bid

abbrev pub opposite : Side → Side
opposite Side.buy = Side.sell
opposite Side.sell = Side.buy

-- the level that a taker on `side` meets first
abbrev pub far_best : Side → Book → ℕ
far_best Side.buy b = b.best_ask
far_best Side.sell b = b.best_bid

module _ (num_ticks pool_cap : ℕ) where
  -- The matching loop of both order types. A round takes at least one lot, and a sweep of a level
  -- takes at most one round for each slot of the arena.
  unfoldable pub match_loop : ℕ → Side → ℕ → ℤ → Cmd ℤ
  match_loop zero side idx qty b = none
  match_loop (suc fuel) side idx qty b = elim (ltb_ℤ (pos 0) qty && crosses side idx b) [
    | false ↦ some (qty, b)
    | true ↦
        (do
          left ← sweep_level num_ticks (pool_cap + 2) (opposite side) (far_best side b) qty
          match_loop fuel side idx left)
          b
  ]

  abbrev pub rounds : ℤ → ℕ
  rounds qty = pos_part qty + 1

  -- the end of both: all lots filled, or the remainder rests
  abbrev pub finish : ℤ → Cmd ℕ → Cmd ℕ
  finish left k = if eq_ℤ left (pos 0) then pure taker_filled_id else k

  unfoldable pub new_order : Side → ℤ → ℤ → Bool → Cmd ℕ
  unfolding match_loop
  new_order side price qty post_only b =
      let idx = tick price b.base in
      if leb num_ticks idx || leb_ℤ qty (pos 0)
      then some (0, b)
      else if post_only && crosses side idx b
      then some (0, b)
      else (do left ← match_loop (rounds qty) side idx qty; finish left (rest side idx price left))
          b

  unfoldable pub new_iceberg_order : Side → ℤ → ℤ → ℤ → Cmd ℕ
  unfolding match_loop
  new_iceberg_order side price display_qty total_qty b =
      let idx = tick price b.base in
      if leb num_ticks idx || (leb_ℤ total_qty (pos 0) || leb_ℤ display_qty (pos 0))
      then some (0, b)
      else (do
        left ← match_loop (rounds total_qty) side idx total_qty
        finish left (rest_iceberg side idx price display_qty left))
          b

  -- the checks of `cancel` and `reduce` on an id
  unfoldable pub passes : ℕ → Book → Bool
  passes id b = not (leb pool_cap (slot_of id)) && b.generations (slot_of id) == generation_of id

  unfoldable pub cancel : ℕ → Cmd Bool
  unfolding passes
  cancel id b =
      if passes id b
      then (do unlink_and_release num_ticks (slot_of id); pure true) b
      else some (false, b)

  unfoldable pub reduce : ℕ → ℤ → Cmd ℤ
  unfolding passes
  reduce id q b =
      if passes id b
      then (do
        o ← load_order (slot_of id)
        (if ltb_ℤ q o.qty
            then (do
              store_order (slot_of id) (record o { qty = o.qty -ℤ q })
              sub_total (tick o.price b.base) q
              pure q)
            else (do unlink_and_release num_ticks (slot_of id); pure o.qty)))
          b
      else some (pos 0, b)

  unfoldable pub apply : Message → Cmd (Unit {0})
  apply m = elim m.type [
    | MsgType.new_order ↦ do new_order m.side m.price m.qty false; pure tt
    | MsgType.cancel ↦ do cancel m.id; pure tt
    | MsgType.execute ↦ do reduce m.id m.qty; pure tt
    | MsgType.reduce ↦ do reduce m.id m.qty; pure tt
  ]

unfoldable pub best_bid : Book → ℤ
best_bid b = if b.best_bid == npos then negsuc 0 else b.base +ℤ pos b.best_bid

module _ (num_ticks : ℕ) where
  unfoldable pub best_ask : Book → ℤ
  best_ask b = if leb num_ticks b.best_ask then negsuc 0 else b.base +ℤ pos b.best_ask

  unfoldable pub level_qty : ℤ → Book → ℤ
  level_qty p b =
      let idx = tick p b.base in if ltb idx num_ticks then (b.levels idx).total_qty else pos 0
