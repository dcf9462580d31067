-- ===== src/Bitmap/Above.antt =====
-- `next_set` finds the nearest marked level from a level up, however far it is.
use Prim.Native.Nat.{bit_and}
use c_order_book.Prelude.{
  ℕ, ◌+◌, ◌*◌, ◌/◌, ◌%◌, ◌<◌, ◌≡◌, ◌≢◌, refl, false, arith, leb, ◌==◌, sym, ◌∙◌, Bool-cases, inl,
  inr,
}
use c_order_book.Prelude.Bits.{bit}
use c_order_book.Bitmap.{Bitmap, ones, shl, shl_safe, ctz, next_set}
use c_order_book.Bitmap.Word.{IsNext, NoneFrom, bit-shl, bit-shl_safe, ctz-IsNext, mask-NoneFrom}
use c_order_book.Bitmap.Occupied.{IsIndex, marked}
use c_order_book.Bitmap.Scan.{nonzero, IsNext-here, IsNext-later, none_from}
use c_order_book.Bitmap.Nearest.{Found, at, nowhere, IsNext-eq}

module _ (b : Bitmap) (v : IsIndex b) (i : ℕ) where
  abbrev w : ℕ
  w = i / 64

  abbrev u : ℕ
  u = i / 64 / 64

  abbrev m0 : ℕ
  m0 = bit_and (b.l0 w) (shl ones (i % 64))

  abbrev m1 : ℕ
  m1 = bit_and (b.l1 u) (shl_safe ones (w % 64 + 1))

  abbrev m2 : ℕ
  m2 = bit_and b.l2 (shl_safe ones (u + 1))

  word_hit : m0 ≢ 0 → IsNext (marked b) i (w * 64 + ctz m0)
  word_hit ne =
      let n = ctz-IsNext (b.l0 w) (v.words0 w) (i % 64) (shl ones (i % 64)) (bit-shl (i % 64)) ne in
      IsNext-eq (λ k. refl) (omega arith) (IsNext-here b.l0 v.words0 w (i % 64) (ctz m0) n.1 n.0)

  word_miss : m0 ≡ 0 → NoneFrom (bit (b.l0 w)) (i % 64)
  word_miss z =
      mask-NoneFrom (b.l0 w) (v.words0 w) (i % 64) (shl ones (i % 64)) (bit-shl (i % 64)) z

  -- the next word that is not zero decides
  later_word :
      (x : ℕ)
      → m0 ≡ 0
      → IsNext (nonzero b.l0) (w + 1) x
      → IsNext (marked b) i (x * 64 + ctz (b.l0 x))
  later_word x z n =
      IsNext-eq (λ k. refl) (omega arith)
        (IsNext-later b.l0 v.words0 w (i % 64) x (word_miss z) (omega arith) n)

  summary_hit : m1 ≢ 0 → IsNext (nonzero b.l0) (w + 1) (u * 64 + ctz m1)
  summary_hit ne =
      let n = ctz-IsNext (b.l1 u) (v.words1 u) (w % 64 + 1) _ (bit-shl_safe (w % 64 + 1)) ne in
      IsNext-eq v.summary1 (omega arith) (IsNext-here b.l1 v.words1 u (w % 64 + 1) (ctz m1) n.1 n.0)

  summary_miss : m1 ≡ 0 → NoneFrom (bit (b.l1 u)) (w % 64 + 1)
  summary_miss z = mask-NoneFrom (b.l1 u) (v.words1 u) (w % 64 + 1) _ (bit-shl_safe (w % 64 + 1)) z

  top_hit : m1 ≡ 0 → m2 ≢ 0 → IsNext (nonzero b.l0) (w + 1) (ctz m2 * 64 + ctz (b.l1 (ctz m2)))
  top_hit z ne =
      let n = ctz-IsNext b.l2 v.word2 (u + 1) _ (bit-shl_safe (u + 1)) ne in
      IsNext-eq v.summary1 (omega arith) (
        IsNext-later b.l1 v.words1 u (w % 64 + 1) (ctz m2) (summary_miss z) (omega arith)
          (IsNext-eq v.summary2 refl n.0))

  nothing : m0 ≡ 0 → m1 ≡ 0 → m2 ≡ 0 → NoneFrom (marked b) i
  nothing z0 z1 z2 =
      let top = mask-NoneFrom b.l2 v.word2 (u + 1) _ (bit-shl_safe (u + 1)) z2 in
      let mid =
        none_from b.l1 v.words1 u (w % 64 + 1) (summary_miss z1) (omega arith)
          (λ k h. sym (v.summary2 k) ∙ top k h) in
      let low =
        none_from b.l0 v.words0 w (i % 64) (word_miss z0) (omega arith)
          (λ k h. sym (v.summary1 k) ∙ mid k (omega arith)) in
      λ k h. low k (omega arith)

  -- On an index whose levels are in step, and from a level of the ladder, `next_set` returns the
  -- least marked level from `i` on, and NPOS exactly where no level from `i` on is marked.
  pub next_set-Found : (num_bits : ℕ) → i < num_bits → Found b i (next_set num_bits i b)
  unfolding next_set
  next_set-Found num_bits h =
      let inside : leb num_bits i ≡ false = ground arith in
      elim (Bool-cases (m0 == 0)) [
        | inr hit ↦ rw (inside, hit) (at (word_hit (ground arith)))
        | inl z0 ↦ elim (Bool-cases (m1 == 0)) [
          | inr hit ↦
              rw (inside, z0, hit) (at (later_word _ (ground arith) (summary_hit (ground arith))))
          | inl z1 ↦ elim (Bool-cases (m2 == 0)) [
            | inr hit ↦
                rw (inside, z0, z1, hit)
                  (at (later_word _ (ground arith) (top_hit (ground arith) (ground arith))))
            | inl z2 ↦
                rw (inside, z0, z1, z2)
                  (nowhere refl (nothing (ground arith) (ground arith) (ground arith)))
          ]
        ]
      ]
