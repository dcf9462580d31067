-- ===== src/FlatHash/Find.antt =====
-- What a lookup returns.
use c_order_book.Prelude.{
  ℕ, zero, suc, ◌+◌, ◌≤◌, ◌<◌, ◌≡◌, ◌≢◌, ◌∙◌, ap, sym, refl, some, ltb, ◌==◌, ==_iff, Bool-cases,
  arith, inl, inr,
}
use mathlib.Core.Path.{subst}
use c_order_book.FlatHash.{FlatHashMap, capacity, slot_of, find, find_loop}
use c_order_book.FlatHash.Probe.{
  empty_slot, visited, visited-lt, visits, slot_of-lt, load_cap-lt, IsMap, Lookup, present, absent,
}

module _ (log2 max_load_pct : ℕ) where
  -- the key in the slot that the probe for `key` visits after `d` steps
  abbrev pub key_at : FlatHashMap → ℕ → ℕ → ℕ
  key_at m key d = (m.slots (visited log2 max_load_pct (slot_of log2 max_load_pct key) d)).key

  -- The probe for `key` has passed the first `d` slots of its path: they hold other keys.
  abbrev pub Passed : FlatHashMap → ℕ → ℕ → Type 0
  Passed m key d = (e : ℕ) → e < d → (key_at m key e ≢ 0) × (key_at m key e ≢ key)

  pub Passed-suc :
      (m : FlatHashMap) (key d : ℕ)
      → Passed m key d
      → key_at m key d ≢ 0
      → key_at m key d ≢ key
      → Passed m key (suc d)
  Passed-suc m key d p a b e l = elim (Bool-cases (e == d)) [
    | inl q ↦
        subst (λ x. (key_at m key x ≢ 0) × (key_at m key x ≢ key)) (sym ((==_iff e d).0 q)) (a, b)
    | inr q ↦ p e (ground (arith, q))
  ]

  -- Where the probe meets an empty slot, no slot has the key.
  pub Passed-absent :
      (m : FlatHashMap) (key d : ℕ)
      → IsMap log2 max_load_pct m
      → key ≢ 0
      → Passed m key d
      → key_at m key d ≡ 0
      → (i : ℕ) → i < capacity log2 max_load_pct
      → (m.slots i).key ≢ key
  Passed-absent m key d g n p z i l q =
      let (d2, l2, at, before) = g.reaches i l (λ e. n (sym q ∙ e)) in
      elim (Bool-cases (ltb d2 d)) [
        | inl lt ↦
            (p d2 (ground (arith, lt))).1
              (ap (λ k. key_at m k d2) (sym q) ∙ ap (λ x. (m.slots x).key) at ∙ q)
        | inr ge ↦ elim (Bool-cases (d2 == d)) [
          | inl same ↦ n (
              sym q
              ∙ ap (λ x. (m.slots x).key) (sym at)
              ∙ ap (λ x. key_at m (m.slots i).key x) ((==_iff d2 d).0 same)
              ∙ ap (λ k. key_at m k d) q
              ∙ z)
          | inr differ ↦ before d (ground (arith, ge, differ)) (ap (λ k. key_at m k d) q ∙ z)
        ]
      ]

  -- A full probe would pass an empty slot.
  pub Passed-bound :
      (m : FlatHashMap) (key d : ℕ)
      → IsMap log2 max_load_pct m
      → log2 ≤ 64
      → max_load_pct ≤ 90
      → Passed m key d
      → d < capacity log2 max_load_pct
  Passed-bound m key d g l c p =
      let (z, zl, empty) =
        empty_slot (capacity log2 max_load_pct) m.slots
          (omega (arith, g.sized, g.within, load_cap-lt log2 max_load_pct c)) in
      let (d2, l2, at) =
        visits log2 max_load_pct (slot_of log2 max_load_pct key) z
          (slot_of-lt log2 max_load_pct key l) zl in
      elim (Bool-cases (ltb d2 d)) [
        | inl lt ↦ absurd ((p d2 (ground (arith, lt))).0 (ap (λ x. (m.slots x).key) at ∙ empty))
        | inr ge ↦ ground (arith, ge)
      ]

  find_from :
      (fuel key d : ℕ) (m : FlatHashMap)
      → IsMap log2 max_load_pct m
      → key ≢ 0
      → log2 ≤ 64
      → max_load_pct ≤ 90
      → Passed m key d
      → capacity log2 max_load_pct < fuel + d
      → (val : ℕ) × (find_loop log2 max_load_pct fuel key
            (visited log2 max_load_pct (slot_of log2 max_load_pct key) d)
            m
          ≡ some val)
        × Lookup log2 max_load_pct m key val
  unfolding find_loop
  find_from zero key d m g n l c p f = absurd (omega (arith, Passed-bound m key d g l c p))
  find_from (suc fuel) key d m g n l c p f =
      let i = visited log2 max_load_pct (slot_of log2 max_load_pct key) d in
      elim (Bool-cases ((m.slots i).key == 0)) [
        | inl e ↦ (0, rw (e) refl, absent (Passed-absent m key d g n p ((==_iff _ _).0 e)) refl)
        | inr e ↦ elim (Bool-cases ((m.slots i).key == key)) [
          | inl q ↦ (
            (m.slots i).val,
            rw (e, q) refl,
            present i (visited-lt log2 max_load_pct _ d (slot_of-lt log2 max_load_pct key l))
                ((==_iff _ _).0 q) refl,
          )
          | inr q ↦
              let (val, found, look) =
                find_from fuel key (suc d) m g n l c
                  (Passed-suc m key d p (ground (arith, e)) (ground (arith, q))) (omega arith) in
              (val, rw (e, q) found, look)
        ]
      ]

  -- A lookup of a key other than 0 ends, in a map with no more than 2 ^ 64 slots and a load cap of at
  -- most 90 percent: it returns the value beside the key, or 0 where no slot has the key.
  pub find-Lookup :
      (key : ℕ) (m : FlatHashMap)
      → IsMap log2 max_load_pct m
      → key ≢ 0
      → log2 ≤ 64
      → max_load_pct ≤ 90
      → (val : ℕ) × (find log2 max_load_pct key m ≡ some val) × Lookup log2 max_load_pct m key val
  unfolding find
  find-Lookup key m g n l c =
      find_from (capacity log2 max_load_pct + 1) key 0 m g n l c (λ e k. absurd (omega arith))
        (omega arith)
