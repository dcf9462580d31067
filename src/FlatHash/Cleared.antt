-- ===== src/FlatHash/Cleared.antt =====
-- The map once the key of the last hole is cleared.
use c_order_book.Prelude.{
  ℕ, zero, suc, ◌+◌, ◌^◌, ◌≤◌, ◌<◌, ◌≡◌, ◌≢◌, ◌∙◌, ap, sym, refl, ◌==◌, ==_iff, Bool-cases, inl,
  inr, arith,
}
use mathlib.Core.Path.{subst}
use native.Mathlib.Nat.{pow-le-pow_right}
use c_order_book.Prelude.Word.{update, update_self, update_ne, sub64, sub64-eq}
use c_order_book.FlatHash.{Entry, FlatHashMap, capacity, slot_of}
use c_order_book.FlatHash.Probe.{occupied, visited, load_cap-lt, IsMap, Lookup, present, absent}
use c_order_book.FlatHash.Cycle.{visited-add}
use c_order_book.FlatHash.Shift.{Chained, Keeps, here, nowhere, Shifting}

occupied-update_ge :
    (n i : ℕ) (f : ℕ → Entry) (v : Entry) → n ≤ i → occupied n (update f i v) ≡ occupied n f
occupied-update_ge zero i f v l = refl
occupied-update_ge (suc n) i f v l =
    ground (arith, occupied-update_ge n i f v (omega arith), update_ne f i n v (omega arith))

occupied-update_clear :
    (n i : ℕ) (f : ℕ → Entry) (v : Entry)
    → i < n
    → (f i).key ≢ 0
    → v.key ≡ 0
    → occupied n (update f i v) + 1 ≡ occupied n f
occupied-update_clear zero i f v l a b = absurd (omega arith)
occupied-update_clear (suc n) i f v l a b = elim (Bool-cases (i == n)) [
  | inl q ↦
      let key_n : (f n).key ≢ 0 = subst (λ x. (f x).key ≢ 0) ((==_iff i n).0 q) a in
      ground (arith, occupied-update_ge n i f v (ground (arith, q)), q, key_n)
  | inr q ↦ ground (arith, q, occupied-update_clear n i f v (ground (arith, q)) a b)
]

module _ (log2 max_load_pct : ℕ) (bits : log2 ≤ 64) (load : max_load_pct ≤ 90) where
  abbrev cap : ℕ
  cap = capacity log2 max_load_pct

  -- the map once the key of the last hole is cleared
  abbrev pub cleared : ℕ → FlatHashMap → FlatHashMap
  cleared i m = record {
    slots = update m.slots i (record (m.slots i) { key = 0 });
    size = sub64 m.size 1;
  }

  -- Where the slot after those that the loop has looked at is empty, the shift is done.
  module _ (m0 : FlatHashMap) (key : ℕ) (m : FlatHashMap) (i t r z : ℕ)
      (g : IsMap log2 max_load_pct m0) (s : Shifting log2 max_load_pct bits m0 key m i t (suc r) z)
      (stop : (m.slots (visited log2 max_load_pct i (suc t))).key ≡ 0) where
    cleared_self : ((cleared i m).slots i).key ≡ 0
    cleared_self = ap (λ x. x.key) (update_self m.slots i (record (m.slots i) { key = 0 }))

    cleared_other : (x : ℕ) → x ≢ i → (cleared i m).slots x ≡ m.slots x
    cleared_other x n = update_ne m.slots i x (record (m.slots i) { key = 0 }) (λ q. n (sym q))

    not_hole : (x : ℕ) → ((cleared i m).slots x).key ≢ 0 → x ≢ i
    not_hole x f q = f (ap (λ y. ((cleared i m).slots y).key) q ∙ cleared_self)

    -- No path of an entry passes the hole any more.
    chain_kept :
        (x home : ℕ)
        → (m.slots x).key ≢ 0
        → (c : Chained log2 max_load_pct bits m i t x home) → (e : ℕ) → e < c.d
        → ((cleared i m).slots (visited log2 max_load_pct home e)).key ≢ 0
    chain_kept x home f c e l = elim (Bool-cases (visited log2 max_load_pct home e == i)) [
      | inl q ↦
          let at : visited log2 max_load_pct home e ≡ i = (==_iff _ _).0 q in
          let far = c.beyond e l at in
          let next : visited log2 max_load_pct home (e + suc t)
              ≡ visited log2 max_load_pct i (suc t) =
            visited-add log2 max_load_pct home e (suc t)
            ∙ ap (λ y. visited log2 max_load_pct y (suc t)) at in
          let empty_there = ap (λ y. (m.slots y).key) next ∙ stop in
          elim (Bool-cases (e + suc t == c.d)) [
            | inl p ↦ absurd (
                f (
                  ap (λ y. (m.slots y).key)
                    (sym (ap (visited log2 max_load_pct home) ((==_iff _ _).0 p) ∙ c.arrives))
                  ∙ empty_there))
            | inr p ↦ absurd (c.chain (e + suc t) (ground (arith, p, far)) empty_there)
          ]
      | inr q ↦ λ w. c.chain e l (ap (λ y. y.key) (sym (cleared_other _ (ground (arith, q)))) ∙ w)
    ]

    pub one_less : (cleared i m).size + 1 ≡ m0.size
    one_less =
        let clear =
          occupied-update_clear cap i m.slots (record (m.slots i) { key = 0 }) s.inside s.full
            refl in
        let bound : 2 ^ log2 ≤ 2 ^ 64 =
          pow-le-pow_right {n = 2} (omega arith) {i = log2} {j = 64} bits in
        omega (
          arith,
          sub64-eq m.size 1 (omega (arith, clear, s.counted, s.sized))
              (omega (arith, s.sized, g.within, load_cap-lt log2 max_load_pct load, bound)),
          s.sized,
          clear,
          s.counted,
        )

    pub cleared-IsMap : IsMap log2 max_load_pct (cleared i m)
    cleared-IsMap = record {
      reaches = λ x l f.
          let same = ap (λ y. y.key) (cleared_other x (not_hole x f)) in
          let full : (m.slots x).key ≢ 0 = λ q. f (same ∙ q) in
          let c = s.chained x l (not_hole x f) full in
          subst
            (λ k.
              (d : ℕ) × (d < cap)
              × (visited log2 max_load_pct (slot_of log2 max_load_pct k) d ≡ x)
              × ((e : ℕ)
                  → e < d
                  → ((cleared i m).slots
                      (visited log2 max_load_pct (slot_of log2 max_load_pct k) e)).key
                    ≢ 0))
            (sym same) (c.d, c.near, c.arrives, λ e k. chain_kept x _ full c e k);
      distinct = λ x y l k f e.
          let same = ap (λ w. w.key) (cleared_other x (not_hole x f)) in
          let other = not_hole y (λ q. f (e ∙ q)) in
          s.distinct x y l k (not_hole x f) other (λ q. f (same ∙ q))
            (sym same ∙ e ∙ ap (λ w. w.key) (cleared_other y other));
      sized = omega (
        arith,
        occupied-update_clear cap i m.slots (record (m.slots i) { key = 0 }) s.inside s.full refl,
        s.counted,
        one_less,
      );
      within = omega (arith, one_less, g.within);
    }

    pub Lookup-Keeps :
        (k v : ℕ)
        → k ≢ 0
        → Keeps log2 max_load_pct bits m i k v
        → Lookup log2 max_load_pct (cleared i m) k v
    Lookup-Keeps k v a (here x l n e p) =
        present x l (ap (λ w. w.key) (cleared_other x n) ∙ e)
          (ap (λ w. w.val) (cleared_other x n) ∙ p)
    Lookup-Keeps k v a (nowhere f p) =
        absent
          (λ x l q. elim (Bool-cases (x == i)) [
            | inl e ↦
                a (sym q ∙ ap (λ w. ((cleared i m).slots w).key) ((==_iff x i).0 e) ∙ cleared_self)
            | inr e ↦
                let apart : x ≢ i = ground (arith, e) in
                f x l apart (ap (λ w. w.key) (sym (cleared_other x apart)) ∙ q)
          ])
          p

    pub gone_key : key ≢ 0 → Lookup log2 max_load_pct (cleared i m) key 0
    gone_key a = Lookup-Keeps key 0 a (nowhere s.gone refl)
