-- ===== src/Book/Rest/Sides.antt =====
-- Which levels hold bids and asks after an order was put behind a level that it does not cross.
use c_order_book.Prelude.{
  ℕ, ◌^◌, ◌<◌, ◌≤◌, ◌≡◌, sym, refl, true, false, arith, if◌then◌else◌, List, [], ◌∷◌, ◌++◌,
}
use c_order_book.Order.{Side, is_buy}
use c_order_book.Book.State.{Book}
use c_order_book.Book.Links.{mark_level}
use c_order_book.Book.Engine.{crosses}
use c_order_book.Book.Queue.{Entry}
use c_order_book.Book.Top.{IsTop, IsTop-ext, mark_buy-IsTop, mark_sell-IsTop, with_level}
use c_order_book.Book.Valid.{View, occupied, bid_at, ask_at}
use c_order_book.Book.Rest.{behind}

pub occupied-snoc : (xs : List Entry) (e : Entry) → occupied (xs ++ (e ∷ [])) ≡ true
occupied-snoc [] e = refl
occupied-snoc (x ∷ xs) e = refl

-- A level that an order on `side` does not cross holds nothing of the other side.
pub other_side :
    {num_ticks : ℕ} {b : Book} (v : View) (side : Side) (idx : ℕ)
    → IsTop num_ticks b (bid_at v) (ask_at v)
    → crosses side idx b ≡ false
    → (if is_buy side then ask_at v idx else bid_at v idx) ≡ false
other_side v Side.buy idx t h = ground (arith, t.ask_top idx, h)
other_side v Side.sell idx t h = ground (arith, t.bid_top idx, h)

pub same_side :
    (v : View) (side : Side) (idx : ℕ)
    → (if is_buy side then ask_at v idx else bid_at v idx) ≡ false
    → occupied (v.queue idx) ≡ true
    → v.side idx ≡ side
same_side v side idx h occ = by_cases side (v.side idx) (flip side h)
  where
    by_cases : (s d : Side) → is_buy d ≡ is_buy s → d ≡ s
    by_cases Side.buy Side.buy h = refl
    by_cases Side.sell Side.sell h = refl
    by_cases Side.buy Side.sell h = absurd (ground (arith, h))
    by_cases Side.sell Side.buy h = absurd (ground (arith, h))

    flip :
        (s : Side)
        → (if is_buy s then ask_at v idx else bid_at v idx) ≡ false
        → is_buy (v.side idx) ≡ is_buy s
    flip Side.buy h = ground (arith, occ, h)
    flip Side.sell h = ground (arith, occ, h)

-- The levels with bids, and those with asks, after an order was put behind level `idx`.
pub behind-bids :
    (v : View) (side : Side) (idx : ℕ) (e : Entry) (xs : List ℕ) (i : ℕ)
    → (if is_buy side then ask_at v idx else bid_at v idx) ≡ false
    → bid_at (behind v side idx e xs) i
      ≡ (if is_buy side then with_level (bid_at v) idx i else bid_at v i)
behind-bids v Side.buy idx e xs i h = ground (arith, occupied-snoc (v.queue idx) e)
behind-bids v Side.sell idx e xs i h = ground (arith, occupied-snoc (v.queue idx) e, h)

pub behind-asks :
    (v : View) (side : Side) (idx : ℕ) (e : Entry) (xs : List ℕ) (i : ℕ)
    → (if is_buy side then ask_at v idx else bid_at v idx) ≡ false
    → ask_at (behind v side idx e xs) i
      ≡ (if is_buy side then ask_at v i else with_level (ask_at v) idx i)
behind-asks v Side.buy idx e xs i h = ground (arith, occupied-snoc (v.queue idx) e, h)
behind-asks v Side.sell idx e xs i h = ground (arith, occupied-snoc (v.queue idx) e)

pub behind-IsTop :
    {num_ticks : ℕ} (small : num_ticks ≤ 2 ^ 18) {b : Book} (v : View) (side : Side) (idx : ℕ)
    (e : Entry) (xs : List ℕ)
    → idx < num_ticks
    → IsTop num_ticks b (bid_at v) (ask_at v)
    → (if is_buy side then ask_at v idx else bid_at v idx) ≡ false
    → IsTop num_ticks
        (mark_level side idx b)
        (bid_at (behind v side idx e xs))
        (ask_at (behind v side idx e xs))
behind-IsTop {num_ticks} small {b} v Side.buy idx e xs l t h =
    IsTop-ext num_ticks (λ i. sym (behind-bids v Side.buy idx e xs i h))
      (λ i. sym (behind-asks v Side.buy idx e xs i h)) (mark_buy-IsTop num_ticks small t idx l)
behind-IsTop {num_ticks} small {b} v Side.sell idx e xs l t h =
    IsTop-ext num_ticks (λ i. sym (behind-bids v Side.sell idx e xs i h))
      (λ i. sym (behind-asks v Side.sell idx e xs i h)) (mark_sell-IsTop num_ticks small t idx l)

-- Bids below an order that rests to sell, asks above one that rests to buy.
pub behind-uncrossed :
    {num_ticks : ℕ} {b : Book} (v : View) (side : Side) (idx : ℕ) (e : Entry) (xs : List ℕ)
    → IsTop num_ticks b (bid_at v) (ask_at v)
    → crosses side idx b ≡ false
    → (if is_buy side then ask_at v idx else bid_at v idx) ≡ false
    → ((i j : ℕ) → bid_at v i ≡ true → ask_at v j ≡ true → i < j)
    → (i j : ℕ) → bid_at (behind v side idx e xs) i ≡ true
    → ask_at (behind v side idx e xs) j ≡ true
    → i < j
behind-uncrossed {num_ticks} {b} v Side.buy idx e xs t c h u i j p q = ground (
  arith,
  t.ask_top j,
  u i j,
  behind-bids v Side.buy idx e xs i h,
  behind-asks v Side.buy idx e xs j h,
  c,
)
behind-uncrossed {num_ticks} {b} v Side.sell idx e xs t c h u i j p q = ground (
  arith,
  t.bid_top i,
  u i j,
  behind-bids v Side.sell idx e xs i h,
  behind-asks v Side.sell idx e xs j h,
  c,
)
