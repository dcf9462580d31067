-- ===== src/FlatHash/Cycle.antt =====
-- Steps along the probe path, and the distances that `erase` compares.
use c_order_book.Prelude.{
  ℕ, zero, suc, ◌+◌, ◌-◌, ◌*◌, ◌%◌, ◌^◌, ◌≤◌, ◌<◌, ◌≡◌, ◌∙◌, ap, sym, Bool-cases, inl, inr, ltb,
  arith,
}
use native.Mathlib.Nat.{mod-eq_of_lt, add-mod_right, mul-add-mod_self_left, one-le-pow, mul-suc}
use c_order_book.Prelude.Word.{u64_mod, sub64}
use c_order_book.FlatHash.{capacity, next_slot, distance}
use c_order_book.FlatHash.Probe.{visited, visited-mod, pow-split}

module _ (log2 max_load_pct : ℕ) where
  pub visited-add :
      (h a b : ℕ)
      → visited log2 max_load_pct h (a + b)
        ≡ visited log2 max_load_pct (visited log2 max_load_pct h a) b
  visited-add h a zero = ap (visited log2 max_load_pct h) (omega arith)
  visited-add h a (suc b) =
      ap (visited log2 max_load_pct h) {x = a + suc b} {y = suc (a + b)} (omega arith)
      ∙ ap (next_slot log2 max_load_pct) (visited-add h a b)

  visited_round :
      (h : ℕ)
      → h < capacity log2 max_load_pct
      → visited log2 max_load_pct h (capacity log2 max_load_pct) ≡ h
  visited_round h l =
      visited-mod log2 max_load_pct h (capacity log2 max_load_pct) l
      ∙ add-mod_right h (capacity log2 max_load_pct)
      ∙ mod-eq_of_lt l

  -- Two slots from which the same number of steps leads to the same slot are one.
  pub visited_cancel :
      (a b n : ℕ)
      → a < capacity log2 max_load_pct
      → b < capacity log2 max_load_pct
      → n < capacity log2 max_load_pct
      → visited log2 max_load_pct a n ≡ visited log2 max_load_pct b n
      → a ≡ b
  visited_cancel a b n la lb ln e =
      let split : capacity log2 max_load_pct ≡ n + (capacity log2 max_load_pct - n) = omega arith in
      sym (visited_round a la)
      ∙ ap (visited log2 max_load_pct a) split
      ∙ visited-add a n (capacity log2 max_load_pct - n)
      ∙ ap (λ x. visited log2 max_load_pct x (capacity log2 max_load_pct - n)) e
      ∙ sym (visited-add b n (capacity log2 max_load_pct - n))
      ∙ ap (visited log2 max_load_pct b) (sym split)
      ∙ visited_round b lb

  -- 2 ^ 64 is a multiple of the capacity.
  word_multiple :
      (q : ℕ)
      → 2 ^ (64 - log2) ≡ suc q
      → log2 ≤ 64
      → u64_mod ≡ capacity log2 max_load_pct * q + capacity log2 max_load_pct
  word_multiple q e bits =
      ap (λ t. 2 ^ t) {x = 64} {y = log2 + (64 - log2)} (omega arith)
      ∙ pow-split log2 (64 - log2)
      ∙ ap (λ t. 2 ^ log2 * t) e
      ∙ mul-suc (2 ^ log2) q

  wrapped :
      (x i n q : ℕ)
      → x + capacity log2 max_load_pct ≡ i + n
      → u64_mod ≡ capacity log2 max_load_pct * q + capacity log2 max_load_pct
      → i < capacity log2 max_load_pct
      → n < capacity log2 max_load_pct
      → distance log2 max_load_pct x i ≡ n
  unfolding sub64
  wrapped x i n q e w l k =
      ap (λ y. y % capacity log2 max_load_pct) {x = (x + u64_mod - i) % u64_mod}
        {y = capacity log2 max_load_pct * q + n} (omega (arith, e, w))
      ∙ mul-add-mod_self_left (capacity log2 max_load_pct) q n
      ∙ mod-eq_of_lt k

  -- The distance from a slot to the one after `n` steps.
  pub distance-visited :
      (i n : ℕ)
      → log2 ≤ 64
      → i < capacity log2 max_load_pct
      → n < capacity log2 max_load_pct
      → distance log2 max_load_pct (visited log2 max_load_pct i n) i ≡ n
  unfolding sub64
  distance-visited i n bits l k =
      let some_q : 2 ^ (64 - log2) ≡ suc (2 ^ (64 - log2) - 1) =
        omega (arith, one-le-pow (64 - log2) 2 (omega arith)) in
      let w = word_multiple (2 ^ (64 - log2) - 1) some_q bits in
      elim (Bool-cases (ltb (i + n) (capacity log2 max_load_pct))) [
        | inl e ↦
            let at : visited log2 max_load_pct i n ≡ i + n =
              visited-mod log2 max_load_pct i n l ∙ mod-eq_of_lt (ground (arith, e)) in
            ap (λ x. distance log2 max_load_pct x i) at
            ∙ ap (λ y. y % capacity log2 max_load_pct) {x = (i + n + u64_mod - i) % u64_mod} {y = n}
                (omega (arith, w))
            ∙ mod-eq_of_lt k
        | inr e ↦
            let back : i + n ≡ i + n - capacity log2 max_load_pct + capacity log2 max_load_pct =
              ground (arith, e) in
            let at : visited log2 max_load_pct i n ≡ i + n - capacity log2 max_load_pct =
              visited-mod log2 max_load_pct i n l
              ∙ ap (λ x. x % capacity log2 max_load_pct) back
              ∙ add-mod_right (i + n - capacity log2 max_load_pct) (capacity log2 max_load_pct)
              ∙ mod-eq_of_lt (omega arith) in
            ap (λ x. distance log2 max_load_pct x i) at
            ∙ wrapped (i + n - capacity log2 max_load_pct) i n (2 ^ (64 - log2) - 1) (sym back) w l
                k
      ]
