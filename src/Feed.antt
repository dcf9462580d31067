-- ===== src/Feed.antt =====
-- bench/pipeline_common.hpp: the feed generator, which writes an ITCH session into a byte vector. The
-- encoders append to a vector `b`.
pub mod Bytes
pub mod Parsed
pub mod Stream
use Prim.Native.Nat.{bit_xor}
use c_order_book.Prelude.{
  ℕ, zero, suc, ◌+◌, ◌-◌, ◌*◌, ◌/◌, ◌%◌, ◌^◌, Bool, true, false, Option, none, some, List, [], ◌∷◌,
  ◌++◌, ltb, ◌==◌, if◌then◌else◌, length, get_or, set, take, min,
}
use c_order_book.Prelude.Word.{u64_mod}

-- `b.push_back(x)`
abbrev pub push_back {ℓ} : {A : Type ℓ} → List A → A → List A
push_back b x = b ++ (x ∷ [])

-- `put_be16`, `put_be32`, `put_be48` and `put_be64` are this loop at 2, 4, 6 and 8 bytes.
unfoldable pub put_be : (n : ℕ) → List ℕ → ℕ → List ℕ
put_be zero b v = b
put_be (suc i) b v = put_be i (push_back b (v / 256 ^ i % 256)) v

unfoldable pub put_header : List ℕ → ℕ → ℕ → List ℕ
put_header b type ts = put_be 6 (put_be 2 (put_be 2 (push_back b type) 1) 0) ts

-- The four frames, as the branches of `generate_feed` write them.
abbrev pub symbol : List ℕ
symbol = 76 ∷ 79 ∷ 66 ∷ 88 ∷ 32 ∷ 32 ∷ 32 ∷ 32 ∷ []

unfoldable pub put_add : List ℕ → (ts ref : ℕ) → Bool → (shares price : ℕ) → List ℕ
unfolding put_header put_be
put_add b ts ref buy shares price =
    let side = if buy then 66 else 83 in
    let start = put_be 8 (put_header (put_be 2 b 36) 65 ts) ref in
    put_be 4 (put_be 4 (push_back start side) shares ++ symbol) price

unfoldable pub put_executed : List ℕ → (ts ref shares match_number : ℕ) → List ℕ
unfolding put_header put_be
put_executed b ts ref shares match_number =
    put_be 8 (put_be 4 (put_be 8 (put_header (put_be 2 b 31) 69 ts) ref) shares) match_number

unfoldable pub put_cancel : List ℕ → (ts ref shares : ℕ) → List ℕ
unfolding put_header put_be
put_cancel b ts ref shares = put_be 4 (put_be 8 (put_header (put_be 2 b 23) 88 ts) ref) shares

unfoldable pub put_delete : List ℕ → (ts ref : ℕ) → List ℕ
unfolding put_header put_be
put_delete b ts ref = put_be 8 (put_header (put_be 2 b 19) 68 ts) ref

-- `Rng::next`: the new state and the number
unfoldable pub rng_next : ℕ → ℕ × ℕ
rng_next s =
    let s1 = bit_xor s (s / 2 ^ 12) in
    let s2 = bit_xor s1 (s1 * 2 ^ 25 % u64_mod) in
    let s3 = bit_xor s2 (s2 / 2 ^ 27) in (s3, s3 * 0x2545F4914F6CDD1D % u64_mod)

abbrev pub base_price : ℕ
base_price = 1_000_000

abbrev pub mid_price : ℕ
mid_price = base_price + 2 ^ 15

pub record Live : Type 0 where
  pub ref : ℕ
  pub shares : ℕ

pub record FeedStats : Type 0 where
  pub adds : ℕ
  pub execs : ℕ
  pub cancels : ℕ
  pub deletes : ℕ
  pub exec_lots : ℕ
  pub max_ref : ℕ

-- The local variables of `generate_feed`.
pub record Generator : Type 0 where
  pub buf : List ℕ
  pub stats : FeedStats
  pub live : List Live
  pub next_ref : ℕ
  pub ts : ℕ

abbrev pub new_generator : Generator
new_generator = record {
  buf = [];
  stats = record { adds = 0; execs = 0; cancels = 0; deletes = 0; exec_lots = 0; max_ref = 0 };
  live = [];
  next_ref = 1;
  ts = 34_200_000_000_000;
}

abbrev pub no_live : Live
no_live = record { ref = 0; shares = 0 }

-- `live[(r >> 32) % live.size()]`: the index is in range, since the branches that use it are taken
-- only while `live` has an element
abbrev pub picked : ℕ → List Live → ℕ
picked r live = r / 2 ^ 32 % length live

-- `live[k] = live.back(); live.pop_back()`
abbrev pub swap_remove : ℕ → List Live → List Live
swap_remove k live = let last = length live - 1 in take last (set live k (get_or live last no_live))

unfoldable pub emit_add : ℕ → Generator → Generator
emit_add r g =
    let buy = r / 2 ^ 8 % 2 == 1 in
    let off = 1 + r / 2 ^ 16 % 32 in
    let shares = 4 + r / 2 ^ 24 % 32 in
    record g {
      buf =
          put_add g.buf g.ts g.next_ref buy shares
            (if buy then mid_price - off else mid_price + off);
      live = push_back g.live (record { ref = g.next_ref; shares = shares });
      stats = record (g.stats) { adds = g.stats.adds + 1; max_ref = g.next_ref };
      next_ref = g.next_ref + 1;
    }

unfoldable pub emit_executed : ℕ → Generator → Generator
emit_executed r g =
    let k = picked r g.live in
    let o = get_or g.live k no_live in
    let ex = min (1 + r / 2 ^ 16 % 8) o.shares in
    let left = o.shares - ex in
    record g {
      buf = put_executed g.buf g.ts o.ref ex (g.stats.execs + 1);
      live = if left == 0 then swap_remove k g.live else set g.live k (record o { shares = left });
      stats = record (g.stats) { execs = g.stats.execs + 1; exec_lots = g.stats.exec_lots + ex };
    }

-- `false` is `--i; continue`
unfoldable pub emit_cancel : ℕ → Generator → Bool × Generator
emit_cancel r g =
    let k = picked r g.live in
    let o = get_or g.live k no_live in
    let cx = 1 + r / 2 ^ 16 % (o.shares - 1) in
    if ltb o.shares 2 then (false, g) else (
      true,
      record g {
        buf = put_cancel g.buf g.ts o.ref cx;
        live = set g.live k (record o { shares = o.shares - cx });
        stats = record (g.stats) { cancels = g.stats.cancels + 1 };
      },
    )

unfoldable pub emit_delete : ℕ → Generator → Generator
emit_delete r g =
    let k = picked r g.live in
    record g {
      buf = put_delete g.buf g.ts (get_or g.live k no_live).ref;
      live = swap_remove k g.live;
      stats = record (g.stats) { deletes = g.stats.deletes + 1 };
    }

-- The body of the loop, for the random number `r`.
unfoldable pub emit : ℕ → Generator → Bool × Generator
unfolding emit_add emit_executed emit_cancel emit_delete
emit r g0 =
    let bucket = if length g0.live == 0 then 0 else r % 100 in
    let g = record g0 { ts = g0.ts + 1 + r % 1024 } in
    if ltb bucket 55
    then (true, emit_add r g)
    else if ltb bucket 80
    then (true, emit_executed r g)
    else if ltb bucket 92
    then emit_cancel r g
    else (true, emit_delete r g)

-- The loop, with `n` messages to go; fuel counts the rounds, since a round may emit nothing.
unfoldable pub generate : (fuel n seed : ℕ) → Generator → Option Generator
generate zero n s g = none
generate (suc fuel) n s g =
    let (s2, r) = rng_next s in
    let (emitted, g2) = emit r g in
    let rest = generate fuel (if emitted then n - 1 else n) s2 g2 in if n == 0 then some g else rest
