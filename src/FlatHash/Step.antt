-- ===== src/FlatHash/Step.antt =====
-- A round of the backward shift keeps its state.
use c_order_book.Prelude.{
  ℕ, zero, suc, ◌+◌, ◌-◌, ◌≤◌, ◌<◌, ◌≡◌, ◌≢◌, ◌∙◌, ap, sym, refl, true, false, leb, ◌==◌, ==_iff,
  Bool-cases, inl, inr, if◌then◌else◌, arith,
}
use mathlib.Core.Path.{subst}
use c_order_book.Prelude.Word.{update, update_self, update_ne}
use c_order_book.FlatHash.{Entry, FlatHashMap, capacity, slot_of, distance, on_path}
use c_order_book.FlatHash.Probe.{occupied, visited, visited-lt, slot_of-lt}
use c_order_book.FlatHash.Cycle.{visited-add, visited_cancel, distance-visited}
use c_order_book.FlatHash.Shift.{Chained, Keeps, here, nowhere, Shifting, home_at}

apart_counts : {n : ℕ} → zero ≡ suc n → ⊥
apart_counts e = omega arith

not_less : (a b : ℕ) → leb a b ≡ false → a ≤ b → ⊥
not_less a b e l = ground arith

at_most : {n k : ℕ} (a b : ℕ) → leb a b ≡ true → a ≡ n → b ≡ k → n ≤ k
at_most a b e p q = ground (arith, e, p, q)

-- A full slot that is overwritten by an entry
occupied-update_full :
    (n i : ℕ) (f : ℕ → Entry) (v : Entry)
    → (f i).key ≢ 0
    → v.key ≢ 0
    → occupied n (update f i v) ≡ occupied n f
occupied-update_full zero i f v a b = refl
occupied-update_full (suc n) i f v a b = elim (Bool-cases (i == n)) [
  | inl q ↦
      let key_n : (f n).key ≢ 0 = subst (λ x. (f x).key ≢ 0) ((==_iff i n).0 q) a in
      ground (arith, occupied-update_full n i f v a b, q, key_n)
  | inr q ↦ ground (arith, q, occupied-update_full n i f v a b)
]

module _ (log2 max_load_pct : ℕ) (bits : log2 ≤ 64) where
  abbrev steps : ℕ → ℕ → ℕ
  steps h d = visited log2 max_load_pct h d

  abbrev cap : ℕ
  cap = capacity log2 max_load_pct

  -- The loop looks at the next slot, and leaves it.
  module _ (m0 : FlatHashMap) (key : ℕ) (m : FlatHashMap) (i t r z : ℕ)
      (s : Shifting log2 max_load_pct bits m0 key m i t (suc r) z) where
    abbrev next_at : ℕ
    next_at = steps i (suc t)

    next_in : next_at < cap
    next_in = visited-lt log2 max_load_pct i (suc t) s.inside

    next_apart : next_at ≢ i
    next_apart e = apart_counts (
        sym (distance-visited log2 max_load_pct i 0 bits s.inside (omega (arith, s.short)))
        ∙ ap (λ x. distance log2 max_load_pct x i) (sym e)
        ∙ distance-visited log2 max_load_pct i (suc t) bits s.inside (omega (arith, s.short)))

    next_distance : distance log2 max_load_pct next_at i ≡ suc t
    next_distance =
        distance-visited log2 max_load_pct i (suc t) bits s.inside (omega (arith, s.short))

    -- the steps from its home to the entry at the next slot
    home_distance :
        (c : Chained log2 max_load_pct bits m i t next_at
          (home_at log2 max_load_pct bits m next_at))
        → distance log2 max_load_pct next_at (home_at log2 max_load_pct bits m next_at) ≡ c.d
    home_distance c =
        ap (λ x. distance log2 max_load_pct x (home_at log2 max_load_pct bits m next_at))
          (sym c.arrives)
        ∙ distance-visited log2 max_load_pct (home_at log2 max_load_pct bits m next_at) c.d bits
            (slot_of-lt log2 max_load_pct (m.slots next_at).key bits) c.near

    still_beyond :
        on_path log2 max_load_pct i next_at m ≡ false
        → (x e : ℕ)
        → (c : Chained log2 max_load_pct bits m i t x (home_at log2 max_load_pct bits m x))
        → e < c.d
        → steps (home_at log2 max_load_pct bits m x) e ≡ i
        → suc t < c.d - e
    still_beyond off x e c l at = elim (Bool-cases (c.d - e == suc t)) [
      | inl q ↦
          let same : c.d - e ≡ suc t = (==_iff _ _).0 q in
          let whole : c.d ≡ e + suc t = omega (arith, same, l) in
          let here : x ≡ next_at =
            sym c.arrives
            ∙ ap (steps (home_at log2 max_load_pct bits m x)) whole
            ∙ visited-add log2 max_load_pct (home_at log2 max_load_pct bits m x) e (suc t)
            ∙ ap (λ y. steps y (suc t)) at in
          let off_x : on_path log2 max_load_pct i x m ≡ false =
            subst (λ y. on_path log2 max_load_pct i y m ≡ false) (sym here) off in
          let from_hole : distance log2 max_load_pct x i ≡ suc t =
            ap (λ y. distance log2 max_load_pct y i) here ∙ next_distance in
          let from_home : distance log2 max_load_pct x (home_at log2 max_load_pct bits m x) ≡ c.d =
            ap (λ y. distance log2 max_load_pct y (home_at log2 max_load_pct bits m x))
              (sym c.arrives)
            ∙ distance-visited log2 max_load_pct (home_at log2 max_load_pct bits m x) c.d bits
                (slot_of-lt log2 max_load_pct (m.slots x).key bits) c.near in
          absurd (not_less _ _ off_x (omega (arith, from_hole, from_home, whole)))
      | inr q ↦ ground (arith, q, c.beyond e l at)
    ]

    pub left :
        (m.slots next_at).key ≢ 0
        → on_path log2 max_load_pct i next_at m ≡ false
        → Shifting log2 max_load_pct bits m0 key m i (suc t) r z
    left f2 off = record {
      inside = s.inside;
      full = s.full;
      looked = f2;
      chained = λ x l n f.
          let c = s.chained x l n f in
          record {
            d = c.d;
            near = c.near;
            arrives = c.arrives;
            chain = c.chain;
            beyond = λ e k at. still_beyond off x e c k at;
          };
      distinct = s.distinct;
      kept = s.kept;
      gone = s.gone;
      counted = s.counted;
      sized = s.sized;
      ahead = ap (steps i) {x = suc t + r} {y = t + suc r} (omega arith) ∙ s.ahead;
      short = omega (arith, s.short);
      empty = s.empty;
    }

    -- The entry at the next slot moves into the hole.
    abbrev moved : FlatHashMap
    moved = record m { slots = update m.slots i (m.slots next_at) }

    -- where the entry at `x` was
    abbrev was : ℕ → ℕ
    was x = if i == x then next_at else x

    moved_eq : (x : ℕ) → moved.slots x ≡ m.slots (was x)
    moved_eq x = elim (Bool-cases (i == x)) [ inl e ↦ rw (e) refl | inr e ↦ rw (e) refl ]

    was_in : (x : ℕ) → x < cap → was x < cap
    was_in x l = elim (Bool-cases (i == x)) [ inl e ↦ rw (e) next_in | inr e ↦ rw (e) l ]

    was_apart : (x : ℕ) → was x ≢ i
    was_apart x = elim (Bool-cases (i == x)) [
      | inl e ↦ rw (e) next_apart
      | inr e ↦ rw (e) (λ q. absurd (ground (arith, e, q)))
    ]

    was_one : (x y : ℕ) → x ≢ next_at → y ≢ next_at → was x ≡ was y → x ≡ y
    was_one x y a b = elim (Bool-cases (i == x)) [
      | inl e ↦ elim (Bool-cases (i == y)) [
        | inl f ↦ λ q. sym ((==_iff i x).0 e) ∙ (==_iff i y).0 f
        | inr f ↦ rw (e, f) (λ q. absurd (b (sym q)))
      ]
      | inr e ↦ elim (Bool-cases (i == y)) [
        | inl f ↦ rw (e, f) (λ q. absurd (a q))
        | inr f ↦ rw (e, f) (λ q. q)
      ]
    ]

    still_full : (y : ℕ) → (m.slots next_at).key ≢ 0 → (m.slots y).key ≢ 0 → (moved.slots y).key ≢ 0
    still_full y f g = elim (Bool-cases (i == y)) [ inl e ↦ rw (e) f | inr e ↦ rw (e) g ]

    -- The entry in the hole can be reached from its home, since the hole is on its path.
    refilled :
        (m.slots next_at).key ≢ 0
        → on_path log2 max_load_pct i next_at m ≡ true
        → Chained log2 max_load_pct bits moved next_at 0 i
            (home_at log2 max_load_pct bits m next_at)
    refilled f on =
        let c = s.chained next_at next_in next_apart f in
        let long : suc t ≤ c.d = at_most _ _ on (next_distance) (home_distance c) in
        let whole : c.d - suc t + suc t ≡ c.d = omega arith in
        let arrived : steps (home_at log2 max_load_pct bits m next_at) (c.d - suc t) ≡ i =
          visited_cancel log2 max_load_pct _ i (suc t)
            (visited-lt log2 max_load_pct (home_at log2 max_load_pct bits m next_at) (c.d - suc t)
              (slot_of-lt log2 max_load_pct (m.slots next_at).key bits))
            s.inside (omega (arith, s.short))
            (sym (
                visited-add log2 max_load_pct (home_at log2 max_load_pct bits m next_at)
                  (c.d - suc t) (suc t))
              ∙ ap (steps (home_at log2 max_load_pct bits m next_at)) whole
              ∙ c.arrives) in
        record {
          d = c.d - suc t;
          near = omega (arith, c.near);
          arrives = arrived;
          chain = λ e l. still_full _ f (c.chain e (omega arith));
          beyond = λ e l at. omega arith;
        }

    path_moved :
        (m.slots next_at).key ≢ 0
        → on_path log2 max_load_pct i next_at m ≡ true
        → (x : ℕ) → x < cap
        → x ≢ next_at
        → (moved.slots x).key ≢ 0
        → Chained log2 max_load_pct bits moved next_at 0 x (home_at log2 max_load_pct bits moved x)
    path_moved f on x l n g = elim (Bool-cases (i == x)) [
      | inl e ↦
          let at : i ≡ x = (==_iff i x).0 e in
          let same : home_at log2 max_load_pct bits moved x
              ≡ home_at log2 max_load_pct bits m next_at =
            ap (λ y. slot_of log2 max_load_pct y.key)
              (ap moved.slots (sym at) ∙ update_self m.slots i (m.slots next_at)) in
          subst (λ h. Chained log2 max_load_pct bits moved next_at 0 x h) (sym same)
            (subst
              (λ y.
                Chained log2 max_load_pct bits moved next_at 0 y
                  (home_at log2 max_load_pct bits m next_at))
              at (refilled f on))
      | inr e ↦
          let apart : i ≢ x = ground (arith, e) in
          let same = update_ne m.slots i x (m.slots next_at) apart in
          let c = s.chained x l (λ q. apart (sym q)) (λ q. g (ap (λ y. y.key) same ∙ q)) in
          subst (λ h. Chained log2 max_load_pct bits moved next_at 0 x h)
            (ap (λ y. slot_of log2 max_load_pct y.key) (sym same))
            (record {
              d = c.d;
              near = c.near;
              arrives = c.arrives;
              chain = λ y k. still_full _ f (c.chain y k);
              beyond = λ y k at. omega arith;
            })
    ]

    Keeps_moved :
        (k v : ℕ)
        → Keeps log2 max_load_pct bits m i k v
        → Keeps log2 max_load_pct bits moved next_at k v
    Keeps_moved k v (here x l n a b) = elim (Bool-cases (x == next_at)) [
      | inl e ↦
          let at : x ≡ next_at = (==_iff x next_at).0 e in
          let same = update_self m.slots i (m.slots next_at) in
          here i s.inside (λ q. next_apart (sym q))
            (ap (λ y. y.key) same ∙ ap (λ y. (m.slots y).key) (sym at) ∙ a)
            (ap (λ y. y.val) same ∙ ap (λ y. (m.slots y).val) (sym at) ∙ b)
      | inr e ↦
          let same = update_ne m.slots i x (m.slots next_at) (λ q. n (sym q)) in
          here x l (ground (arith, e)) (ap (λ y. y.key) same ∙ a) (ap (λ y. y.val) same ∙ b)
    ]
    Keeps_moved k v (nowhere a b) =
        nowhere
          (λ x l n q. a (was x) (was_in x l) (was_apart x) (ap (λ y. y.key) (sym (moved_eq x)) ∙ q))
          b

    pub shifted :
        (m.slots next_at).key ≢ 0
        → on_path log2 max_load_pct i next_at m ≡ true
        → Shifting log2 max_load_pct bits m0 key moved next_at 0 r z
    shifted f on = record {
      inside = next_in;
      full = still_full next_at f f;
      looked = still_full next_at f f;
      chained = path_moved f on;
      distinct = λ x y l k a b g e. was_one x y a b (
          s.distinct (was x) (was y) (was_in x l) (was_in y k) (was_apart x) (was_apart y)
            (λ q. g (ap (λ w. w.key) (moved_eq x) ∙ q))
            (ap (λ w. w.key) (sym (moved_eq x)) ∙ e ∙ ap (λ w. w.key) (moved_eq y)));
      kept = λ k v a b look. Keeps_moved k v (s.kept k v a b look);
      gone = λ x l n q.
          s.gone (was x) (was_in x l) (was_apart x) (ap (λ y. y.key) (sym (moved_eq x)) ∙ q);
      counted = occupied-update_full cap i m.slots (m.slots next_at) s.full f ∙ s.counted;
      sized = s.sized;
      ahead =
          sym (visited-add log2 max_load_pct i (suc t) (0 + r))
          ∙ ap (steps i) {x = suc t + (0 + r)} {y = t + suc r} (omega arith)
          ∙ s.ahead;
      short = omega (arith, s.short);
      empty =
          ap (λ y. y.key)
            (update_ne m.slots i z (m.slots next_at)
              (λ q. s.full (ap (λ y. (m.slots y).key) q ∙ s.empty)))
          ∙ s.empty;
    }
