-- ===== src/ZeroCopy.antt =====
-- bench/bench_zero_copy.cpp: the pacing of the feed, and the two pipelines that it compares: a parsed
-- message copied through the ring, and a frame decoded in its slot of the arena ring. Clock readings
-- are arguments; the samples are left out.
use c_order_book.Prelude.{
  ℕ, ◌+◌, ◌*◌, ◌%◌, Bool, ◌&&◌, Option, none, some, ltb, leb, ◌==◌, if◌then◌else◌,
}
use c_order_book.Prelude.Word.{add64, u64_mod}
use c_order_book.Order.{Message}
use c_order_book.Itch.{next, load_be}
use c_order_book.SpscRing.{Ring, try_pop}
use c_order_book.ArenaRing.{ArenaRing, try_acquire, publish, try_front, release, write_bytes}
use c_order_book.Pipeline.{Gateway, ring_sink, gateway_apply}
use c_order_book.Session.{landed, apply_frame}

pub record Pacer : Type 0 where
  pub gap : ℕ
  pub burst_len : ℕ
  pub next_tick : ℕ

-- `start()`, at the clock reading `now`
unfoldable pub start : (now : ℕ) → Pacer → Pacer
start now p = record p { next_tick = add64 now (p.gap * p.burst_len % u64_mod) }

-- whether `tick(i)` waits for another round at the reading `now`, and the pacer after it
unfoldable pub waits : (now i : ℕ) → Pacer → Bool
waits now i p = i % p.burst_len == 0 && ltb now p.next_tick

unfoldable pub tick : (i : ℕ) → Pacer → Pacer
tick i p =
    if i % p.burst_len == 0
    then record p { next_tick = add64 p.next_tick (p.gap * p.burst_len % u64_mod) }
    else p

-- The producer of `run_copy`: `parser.next(sink)` at its cursor, where the sink tries to push once.
unfoldable pub copy_message :
    (ring_cap : ℕ) → (feed : ℕ → ℕ) → (feed_len cur : ℕ) → Ring Message → ℕ × Ring Message
copy_message ring_cap feed feed_len cur r = elim (next feed feed_len cur) [
  | none ↦ (cur, r)
  | some (w, c) ↦ let (ok, r2) = ring_sink ring_cap w r in ((if ok then c else cur), r2)
]

-- The producer of `run_arena`: the frame lands in its slot, if there is one.
unfoldable pub land_message :
    (arena_cap : ℕ)
    → (feed : ℕ → ℕ) → (feed_len cur : ℕ) → ArenaRing (ℕ → ℕ)
    → ℕ × ArenaRing (ℕ → ℕ)
land_message arena_cap feed feed_len cur a =
    let (got, r) = try_acquire arena_cap a in
    let n = 2 + load_be feed 2 cur in
    if leb (cur + 2) feed_len
    then elim got [
      | none ↦ (cur, r)
      | some slot ↦ (cur + n, publish (write_bytes slot (landed feed (r.slots slot) cur n) r))
    ]
    else (cur, a)

module _ (num_ticks pool_cap : ℕ) where
  -- A round of the consumer of `run_copy`: the number is 1 where a message was done.
  unfoldable pub pop_message :
      (ring_cap : ℕ) → Ring Message → Gateway → ℕ × Ring Message × Option Gateway
  pop_message ring_cap r gw =
      let (got, r2) = try_pop ring_cap r in
      elim got [ none ↦ (0, r2, some gw) | some m ↦ (1, r2, gateway_apply num_ticks pool_cap m gw) ]

  -- A round of the consumer of `run_arena`, which decodes the frame where it landed.
  unfoldable pub decode_in_slot :
      (arena_cap : ℕ) → ArenaRing (ℕ → ℕ) → Gateway → ℕ × ArenaRing (ℕ → ℕ) × Option Gateway
  unfolding apply_frame
  decode_in_slot arena_cap a gw =
      let (got, r) = try_front arena_cap a in
      elim got [
        | none ↦ (0, r, some gw)
        | some slot ↦ (1, release r, apply_frame num_ticks pool_cap (r.slots slot) gw)
      ]
