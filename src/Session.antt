-- ===== src/Session.antt =====
-- bench/bench_journal.cpp: the live session with its journal, the fingerprint of a book, and the
-- replay into a fresh gateway. Clock readings only fill the samples and are left out.
pub mod Rebuilt
use Prim.Native.Nat.{bit_xor}
use c_order_book.Prelude.{
  ℕ, zero, suc, ◌+◌, ◌-◌, ◌*◌, ◌%◌, Bool, true, false, ◌&&◌, Option, none, some, ◌==◌,
  if◌then◌else◌,
}
use c_order_book.Prelude.Int.{ℤ, pos, ◌+ℤ◌, eq_ℤ}
use c_order_book.Prelude.Word.{u64_mod, to_u64}
use c_order_book.Itch.{Wire, next, load_be}
use c_order_book.ArenaRing.{ArenaRing, try_acquire, publish, try_front, release, write_bytes}
use c_order_book.Book.State.{Book}
use c_order_book.Book.Engine.{best_bid, best_ask, level_qty}
use c_order_book.Pipeline.{Gateway, gateway_sink}
use c_order_book.Journal.{Journal, append}

-- the lambda `mix`
abbrev pub mix : ℕ → ℕ → ℕ
mix h v = bit_xor h v * 1099511628211 % u64_mod

module _ (num_ticks : ℕ) where
  -- the loop over the levels, for the first `n` of them
  unfoldable pub mix_levels : (n : ℕ) → (base : ℤ) → Book → ℕ → ℕ
  mix_levels zero base b h = h
  mix_levels (suc n) base b h =
      mix (mix_levels n base b h) (to_u64 (level_qty num_ticks (base +ℤ pos n) b))

  unfoldable pub book_fingerprint : (base : ℤ) → Book → ℕ
  unfolding mix_levels
  book_fingerprint base b =
      mix_levels num_ticks base b
        (mix (mix 1469598103934665603 (to_u64 (best_bid b))) (to_u64 (best_ask num_ticks b)))

  pub record SessionState : Type 0 where
    pub trades : ℕ
    pub lots : ℕ
    pub fp : ℕ
    pub bb : ℤ
    pub ba : ℤ

  -- `out` at the end of a session
  unfoldable pub session_state : (base : ℤ) → Gateway → SessionState
  unfolding book_fingerprint
  session_state base gw = record {
    trades = gw.trades;
    lots = gw.traded_lots;
    fp = book_fingerprint base gw.book;
    bb = best_bid gw.book;
    ba = best_ask num_ticks gw.book;
  }

  -- the comparison of the replayed session with the live one
  abbrev pub deterministic : SessionState → SessionState → Bool
  deterministic rep live =
      rep.trades == live.trades
      && (rep.lots == live.lots
          && (eq_ℤ rep.bb live.bb && (eq_ℤ rep.ba live.ba && rep.fp == live.fp)))

-- `memcpy(slot, cur, n)`
abbrev pub landed : (feed slot : ℕ → ℕ) → (cur n : ℕ) → ℕ → ℕ
landed feed slot cur zero i = slot i
landed feed slot cur (suc n) i = if i == n then feed (cur + n) else landed feed slot cur n i

-- The feed thread: its place in the feed, the arena ring and the journal.
pub record FeedThread : Type 0 where
  pub cur : ℕ
  pub arena : ArenaRing (ℕ → ℕ)
  pub jr : Journal

-- A round of its wait for a slot; with one, the frame lands in the slot and in the journal.
unfoldable pub land_frame : (arena_cap : ℕ) → (feed : ℕ → ℕ) → FeedThread → Option FeedThread
land_frame arena_cap feed f =
    let (got, r) = try_acquire arena_cap f.arena in
    let n = 2 + load_be feed 2 f.cur in
    elim got [
      | none ↦ some (record f { arena = r })
      | some slot ↦ elim (append (λ i. feed (f.cur + i)) n f.jr) [
        | none ↦ none
        | some jr ↦ some (record {
          cur = f.cur + n;
          arena = publish (write_bytes slot (landed feed (r.slots slot) f.cur n) r);
          jr = jr;
        })
      ]
    ]

module _ (num_ticks pool_cap : ℕ) where
  abbrev pub sunk : Option (Wire × ℕ) → Gateway → Option Gateway
  sunk none gw = some gw
  sunk (some (w, c)) gw = gateway_sink num_ticks pool_cap w gw

  -- the parser over the one frame at `p`
  unfoldable pub apply_frame : (p : ℕ → ℕ) → Gateway → Option Gateway
  apply_frame p gw = sunk (next p (2 + load_be p 2 0) 0) gw

  -- A poll of the engine: the number is 1 where a frame was done.
  unfoldable pub poll_frame :
      (arena_cap : ℕ) → ArenaRing (ℕ → ℕ) → Gateway → ℕ × ArenaRing (ℕ → ℕ) × Option Gateway
  unfolding apply_frame
  poll_frame arena_cap r gw =
      let (got, r2) = try_front arena_cap r in
      elim got [
        | none ↦ (0, r2, some gw)
        | some slot ↦ (1, release r2, apply_frame (r2.slots slot) gw)
      ]

  -- `while (parser.next(sink)) ++n`, with fuel for the rounds: the count and the gateway.
  unfoldable pub replay_loop :
      (fuel : ℕ) → (p : ℕ → ℕ) → (size cur n : ℕ) → Gateway → Option (ℕ × Gateway)
  replay_loop zero p size cur n gw = none
  replay_loop (suc fuel) p size cur n gw = elim (next p size cur) [
    | none ↦ some (n, gw)
    | some (w, cur2) ↦ elim (gateway_sink num_ticks pool_cap w gw) [
      | none ↦ none
      | some gw2 ↦ replay_loop fuel p size cur2 (n + 1) gw2
    ]
  ]
