-- ===== src/Sparse.antt =====
-- bench/bench_flat_hash.cpp: the gateway that translates references through the hash map, its session
-- over the arena ring, and the comparison of the map with a dense table.
pub mod Keys
pub mod Alike
pub mod Agree
use c_order_book.Prelude.{
  ℕ, zero, suc, ◌+◌, ◌-◌, ◌*◌, ◌/◌, ◌%◌, ◌^◌, Bool, true, false, Option, none, some, not, ◌&&◌,
  ◌==◌, if◌then◌else◌,
}
use Prim.Native.Nat.{bit_or}
use c_order_book.Prelude.Int.{ℤ, pos, ltb_ℤ}
use c_order_book.Prelude.Word.{update, to_u64, u64_mod, add64, sub64}
use c_order_book.Order.{Side, MsgType, Message}
use c_order_book.Itch.{Wire, next, load_be}
use c_order_book.ArenaRing.{ArenaRing, try_acquire, publish, try_front, release, write_bytes}
use c_order_book.Book.State.{Book}
use c_order_book.Book.Links.{new_book}
use c_order_book.Book.Engine.{new_order, cancel, reduce}
use c_order_book.Feed.{rng_next}
use c_order_book.FlatHash.{FlatHashMap, new_map, find, insert, erase}
use c_order_book.Pipeline.{message_of}

-- `sparse(ref)`
unfoldable pub sparse : ℕ → ℕ
sparse ref = ref * 0xC2B2AE3D27D4EB4F % u64_mod

pub record HashGateway : Type 0 where
  pub book : Book
  pub refs : FlatHashMap
  pub trades : ℕ
  pub traded_lots : ℕ

abbrev pub and_then : {A B : Type 0} → Option A → (A → Option B) → Option B
and_then none k = none
and_then (some a) k = k a

-- `log2` is that of the map's capacity.
module _ (num_ticks pool_cap log2 max_load_pct : ℕ) where
  abbrev pub new_hash_gateway : ℤ → HashGateway
  new_hash_gateway base = record {
    book = new_book num_ticks pool_cap base;
    refs = new_map;
    trades = 0;
    traded_lots = 0;
  }

  -- `refs.insert(sparse(m.id), eng)`: its result is not used
  abbrev pub remember : ℕ → ℕ → Book → HashGateway → Option HashGateway
  remember id eng b g =
      and_then (insert log2 max_load_pct (sparse id) eng g.refs)
        (λ r. some (record g { book = b; refs = r.1 }))

  abbrev pub hash_reduce : Message → HashGateway → Option (ℤ × Book)
  hash_reduce m g =
      and_then (find log2 max_load_pct (sparse m.id) g.refs)
        (λ eng. reduce num_ticks pool_cap eng m.qty g.book)

  -- the case of a full delete
  abbrev pub forget : Message → HashGateway → Option HashGateway
  forget m g = and_then (find log2 max_load_pct (sparse m.id) g.refs) (λ eng.
      and_then (cancel num_ticks pool_cap eng g.book) (λ r.
        and_then (erase log2 max_load_pct (sparse m.id) g.refs)
          (λ s. some (record g { book = r.1; refs = s.1 }))))

  -- `HashGateway::apply`
  unfoldable pub hash_apply : Message → HashGateway → Option HashGateway
  hash_apply m g = elim m.type [
    | MsgType.new_order ↦
        and_then (new_order num_ticks pool_cap m.side m.price m.qty false g.book)
          (λ r. remember m.id r.0 r.1 g)
    | MsgType.execute ↦ and_then (hash_reduce m g) (λ r. some (record g {
      book = r.1;
      trades = add64 g.trades (if ltb_ℤ (pos 0) r.0 then 1 else 0);
      traded_lots = add64 g.traded_lots (to_u64 r.0);
    }))
    | MsgType.reduce ↦ and_then (hash_reduce m g) (λ r. some (record g { book = r.1 }))
    | MsgType.cancel ↦ forget m g
  ]

-- `Sink<GW>`: the message of a wire struct goes to the gateway's `apply`.
unfoldable pub sink : {G : Type 0} → (Message → G → Option G) → Wire → G → Option G
sink apply w gw = apply (message_of w) gw

-- The producer has `left` frames to send and stands at `cur`; a slot holds the memory from it on.
pub record Producer : Type 0 where
  pub cur : ℕ
  pub left : ℕ

-- `memcpy(slot, cur, n)`
abbrev pub copied : (feed slot : ℕ → ℕ) → (cur n : ℕ) → ℕ → ℕ
copied feed slot cur zero i = slot i
copied feed slot cur (suc n) i = if i == n then feed (cur + n) else copied feed slot cur n i

-- A round of the producer's wait for a slot, and the copy where it gets one.
unfoldable pub produce_frame :
    (ring_cap : ℕ) → (feed : ℕ → ℕ) → Producer → ArenaRing (ℕ → ℕ) → Producer × ArenaRing (ℕ → ℕ)
produce_frame ring_cap feed p r =
    let (got, r2) = try_acquire ring_cap r in
    let n = 2 + load_be feed 2 p.cur in
    elim got [
      | none ↦ (p, r2)
      | some slot ↦ (
        record { cur = p.cur + n; left = p.left - 1 },
        publish (write_bytes slot (copied feed (r2.slots slot) p.cur n) r2),
      )
    ]

-- what the parser's one call does: nothing where the frame is no message
abbrev pub sunk : {G : Type 0} → (Message → G → Option G) → Option (Wire × ℕ) → G → Option G
sunk apply none gw = some gw
sunk apply (some (w, c)) gw = sink apply w gw

-- A round of the consumer: a frame from the front of the ring goes through the parser, then its slot
-- is given back. The number is 1 where a frame was done.
unfoldable pub consume_frame :
    {G : Type 0}
    → (ring_cap : ℕ) → (Message → G → Option G)
    → ArenaRing (ℕ → ℕ)
    → G
    → ℕ × ArenaRing (ℕ → ℕ) × Option G
unfolding sink
consume_frame ring_cap apply r gw =
    let (got, r2) = try_front ring_cap r in
    elim got [
      | none ↦ (0, r2, some gw)
      | some slot ↦
          let p = r2.slots slot in (1, release r2, sunk apply (next p (2 + load_be p 2 0) 0) gw)
    ]

-- The state of the comparison: the map, the dense table with 0 for an absent key, its size, and
-- whether all was well.
pub record Oracle : Type 0 where
  pub fm : FlatHashMap
  pub expect : ℕ → ℕ
  pub ref_size : ℕ
  pub ok : Bool

module _ (log2 dom : ℕ) where
  abbrev pub key_of : ℕ → ℕ
  key_of ord = (ord + 1) * 0x9E3779B97F4A7C15 % u64_mod

  abbrev pub present : ℕ → ℕ
  present v = if v == 0 then 0 else 1

  -- The body of the loop for the random number `v`.
  unfoldable pub oracle_step : ℕ → Oracle → Option Oracle
  oracle_step v o =
      let ord = v % dom in
      let was = o.expect ord in
      if v / 2 ^ 32 % 3 == 0
      then and_then (insert log2 50 (key_of ord) (bit_or v 1) o.fm) (λ r. some (record {
        ok = r.0;
        fm = r.1;
        ref_size = add64 o.ref_size (if was == 0 then 1 else 0);
        expect = update o.expect ord (bit_or v 1);
      }))
      else if v / 2 ^ 32 % 3 == 1
      then and_then (erase log2 50 (key_of ord) o.fm) (λ r. some (record {
        ok = if r.0 then not (was == 0) else was == 0;
        fm = r.1;
        ref_size = sub64 o.ref_size (present was);
        expect = update o.expect ord 0;
      }))
      else and_then (find log2 50 (key_of ord) o.fm) (λ r. some (record o { ok = r == was }))

  -- The loop, for `n` numbers of the generator; it ends where `ok` turns false.
  unfoldable pub oracle_loop : (n seed : ℕ) → Oracle → Option Oracle
  oracle_loop zero s o = some o
  oracle_loop (suc n) s o =
      let (s2, v) = rng_next s in
      let rest = and_then (oracle_step v o) (λ o2. oracle_loop n s2 o2) in
      if o.ok then rest else some o

  -- The final audit of the ordinals below `n`.
  unfoldable pub audit : (n : ℕ) → Oracle → Option Bool
  audit zero o = some (o.ok && o.fm.size == o.ref_size)
  audit (suc n) o =
      and_then (audit n o)
        (λ ok. and_then (find log2 50 (key_of n) o.fm) (λ r. some (ok && r == o.expect n)))
