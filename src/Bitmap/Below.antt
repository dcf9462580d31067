-- ===== src/Bitmap/Below.antt =====
-- `prev_set` finds the nearest marked level from a level down, however far it is.
use Prim.Native.Nat.{bit_and}
use c_order_book.Prelude.{
  ℕ, ◌+◌, ◌-◌, ◌*◌, ◌/◌, ◌%◌, ◌^◌, ◌<◌, ◌≡◌, ◌≢◌, refl, arith, ltb, ◌==◌, sym, ◌∙◌, Bool-cases, inl,
  inr,
}
use c_order_book.Prelude.Word.{add64, sub64}
use c_order_book.Prelude.Bits.{bit}
use c_order_book.Bitmap.{Bitmap, ones, shr_safe, bsr, prev_set}
use c_order_book.Bitmap.Word.{IsPrev, NoneBelow, bit-shr_safe, bsr-IsPrev, mask-NoneBelow}
use c_order_book.Bitmap.Occupied.{IsIndex, marked}
use c_order_book.Bitmap.Scan.{nonzero, IsPrev-here, IsPrev-later, none_below}
use c_order_book.Bitmap.Nearest.{FoundBelow, at, nowhere, IsPrev-eq}

module _ (b : Bitmap) (v : IsIndex b) (i : ℕ) where
  abbrev w : ℕ
  w = i / 64

  abbrev u : ℕ
  u = i / 64 / 64

  abbrev m0 : ℕ
  m0 = bit_and (b.l0 w) (shr_safe ones (63 - i % 64))

  abbrev m1 : ℕ
  m1 = bit_and (b.l1 u) (shr_safe ones (64 - w % 64))

  abbrev m2 : ℕ
  m2 = bit_and b.l2 (shr_safe ones (add64 (sub64 63 u) 1))

  mask0 : (k : ℕ) → k < 64 → bit (shr_safe ones (63 - i % 64)) k ≡ ltb k (i % 64 + 1)
  mask0 k h = bit-shr_safe (63 - i % 64) k ∙ ground arith

  mask1 : (k : ℕ) → k < 64 → bit (shr_safe ones (64 - w % 64)) k ≡ ltb k (w % 64)
  mask1 k h = bit-shr_safe (64 - w % 64) k ∙ ground arith

  word_hit : m0 ≢ 0 → IsPrev (marked b) (i + 1) (w * 64 + bsr m0)
  word_hit ne =
      let n = bsr-IsPrev (b.l0 w) (v.words0 w) (i % 64 + 1) _ mask0 ne in
      IsPrev-eq (λ k. refl) (omega arith)
        (IsPrev-here b.l0 v.words0 w (i % 64 + 1) (bsr m0) (omega arith) n.0)

  word_miss : m0 ≡ 0 → NoneBelow (bit (b.l0 w)) (i % 64 + 1)
  word_miss z = mask-NoneBelow (b.l0 w) (v.words0 w) (i % 64 + 1) _ mask0 z

  earlier_word :
      (x : ℕ)
      → m0 ≡ 0
      → IsPrev (nonzero b.l0) w x
      → IsPrev (marked b) (i + 1) (x * 64 + bsr (b.l0 x))
  earlier_word x z n =
      IsPrev-eq (λ k. refl) (omega arith)
        (IsPrev-later b.l0 v.words0 w (i % 64 + 1) x (word_miss z) (omega arith) n)

  summary_hit : m1 ≢ 0 → IsPrev (nonzero b.l0) w (u * 64 + bsr m1)
  summary_hit ne =
      let n = bsr-IsPrev (b.l1 u) (v.words1 u) (w % 64) _ mask1 ne in
      IsPrev-eq v.summary1 (omega arith)
        (IsPrev-here b.l1 v.words1 u (w % 64) (bsr m1) (omega arith) n.0)

  summary_miss : m1 ≡ 0 → NoneBelow (bit (b.l1 u)) (w % 64)
  summary_miss z = mask-NoneBelow (b.l1 u) (v.words1 u) (w % 64) _ mask1 z

  module _ (ladder : i < 2 ^ 18) where
    mask2 : (k : ℕ) → k < 64 → bit (shr_safe ones (add64 (sub64 63 u) 1)) k ≡ ltb k u
    unfolding add64 sub64
    mask2 k h = bit-shr_safe (add64 (sub64 63 u) 1) k ∙ ground arith

    top_hit : m1 ≡ 0 → m2 ≢ 0 → IsPrev (nonzero b.l0) w (bsr m2 * 64 + bsr (b.l1 (bsr m2)))
    top_hit z ne =
        let n = bsr-IsPrev b.l2 v.word2 u _ mask2 ne in
        IsPrev-eq v.summary1 (omega arith) (
          IsPrev-later b.l1 v.words1 u (w % 64) (bsr m2) (summary_miss z) (omega arith)
            (IsPrev-eq v.summary2 refl n.0))

    nothing : m0 ≡ 0 → m1 ≡ 0 → m2 ≡ 0 → NoneBelow (marked b) (i + 1)
    nothing z0 z1 z2 =
        let top = mask-NoneBelow b.l2 v.word2 u _ mask2 z2 in
        let mid =
          none_below b.l1 v.words1 u (w % 64) (summary_miss z1) (omega arith)
            (λ k h. sym (v.summary2 k) ∙ top k h) in
        let low =
          none_below b.l0 v.words0 w (i % 64 + 1) (word_miss z0) (omega arith)
            (λ k h. sym (v.summary1 k) ∙ mid k (omega arith)) in
        λ k h. low k (omega arith)

    -- On an index whose levels are in step, and from a level below 2 ^ 18, `prev_set` returns the
    -- greatest marked level up to `i`, and NPOS exactly where no level up to `i` is marked.
    pub prev_set-Found : FoundBelow b (i + 1) (prev_set i b)
    unfolding prev_set
    prev_set-Found = elim (Bool-cases (m0 == 0)) [
      | inr hit ↦ rw hit (at (word_hit (ground arith)))
      | inl z0 ↦ elim (Bool-cases (m1 == 0)) [
        | inr hit ↦ rw (z0, hit) (at (earlier_word _ (ground arith) (summary_hit (ground arith))))
        | inl z1 ↦ elim (Bool-cases (m2 == 0)) [
          | inr hit ↦
              rw (z0, z1, hit)
                (at (earlier_word _ (ground arith) (top_hit (ground arith) (ground arith))))
          | inl z2 ↦
              rw (z0, z1, z2) (nowhere refl (nothing (ground arith) (ground arith) (ground arith)))
        ]
      ]
    ]
