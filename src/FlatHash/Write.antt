-- ===== src/FlatHash/Write.antt =====
-- A slot written on the probe path of a key.
use c_order_book.Prelude.{
  ℕ, zero, suc, ◌+◌, ◌≤◌, ◌<◌, ◌≡◌, ◌≢◌, ◌∙◌, ap, sym, refl, ◌==◌, ==_iff, Bool-cases,
  if◌then◌else◌, arith, ◌⊎◌, inl, inr,
}
use mathlib.Core.Path.{subst}
use c_order_book.Prelude.Word.{update, update_self, update_ne}
use c_order_book.FlatHash.{Entry, FlatHashMap, capacity, slot_of, load_cap}
use c_order_book.FlatHash.Probe.{
  occupied, visited, visited-lt, slot_of-lt, IsMap, Lookup, present, absent,
}
use c_order_book.FlatHash.Find.{key_at, Passed, Passed-absent}

-- A write at a slot beyond the first `n`
occupied-update_ge :
    (n i : ℕ) (f : ℕ → Entry) (v : Entry) → n ≤ i → occupied n (update f i v) ≡ occupied n f
occupied-update_ge zero i f v l = refl
occupied-update_ge (suc n) i f v l =
    ground (arith, occupied-update_ge n i f v (omega arith), update_ne f i n v (omega arith))

occupied-update_fill :
    (n i : ℕ) (f : ℕ → Entry) (v : Entry)
    → i < n
    → (f i).key ≡ 0
    → v.key ≢ 0
    → occupied n (update f i v) ≡ occupied n f + 1
occupied-update_fill zero i f v l z k = absurd (omega arith)
occupied-update_fill (suc n) i f v l z k = elim (Bool-cases (i == n)) [
  | inl e ↦
      let same : i ≡ n = (==_iff i n).0 e in
      let key_n : (f n).key ≡ 0 = subst (λ x. (f x).key ≡ 0) same z in
      ground (arith, occupied-update_ge n i f v (omega arith), e, key_n)
  | inr e ↦ ground (arith, e, occupied-update_fill n i f v (ground (arith, e)) z k)
]

occupied-update_same :
    (n i : ℕ) (f : ℕ → Entry) (v : Entry)
    → (f i).key ≡ v.key
    → occupied n (update f i v) ≡ occupied n f
occupied-update_same zero i f v e = refl
occupied-update_same (suc n) i f v e = elim (Bool-cases (i == n)) [
  | inl q ↦
      let same : i ≡ n = (==_iff i n).0 q in
      let key_n : (f n).key ≡ v.key = subst (λ x. (f x).key ≡ v.key) same e in
      ground (arith, occupied-update_ge n i f v (omega arith), q, key_n)
  | inr q ↦ ground (arith, q, occupied-update_same n i f v e)
]

module _ (log2 max_load_pct : ℕ) where
  -- a slot on the probe path of `key` that is free for it
  pub record IsHome (m : FlatHashMap) (key d : ℕ) : Type 0 where
    pub steps : d < capacity log2 max_load_pct
    pub passed : Passed log2 max_load_pct m key d
    pub free : (key_at log2 max_load_pct m key d ≡ 0) ⊎ (key_at log2 max_load_pct m key d ≡ key)

  abbrev pub home_of : ℕ → ℕ → ℕ
  home_of key d = visited log2 max_load_pct (slot_of log2 max_load_pct key) d

  -- the map after `entry` is written `d` steps from the home of `key`
  abbrev pub written : (key d : ℕ) → Entry → FlatHashMap → FlatHashMap
  written key d entry m = record {
    slots = update m.slots (home_of key d) entry;
    size = if key_at log2 max_load_pct m key d == 0 then m.size + 1 else m.size;
  }

  module _ (m : FlatHashMap) (key d : ℕ) (entry : Entry) (g : IsMap log2 max_load_pct m)
      (n : key ≢ 0) (l : log2 ≤ 64) (home : IsHome m key d) (k : entry.key ≡ key) where
    abbrev after : FlatHashMap
    after = written key d entry m

    in_range : home_of key d < capacity log2 max_load_pct
    in_range =
        visited-lt log2 max_load_pct (slot_of log2 max_load_pct key) d
          (slot_of-lt log2 max_load_pct key l)

    written_self : (after.slots (home_of key d)).key ≡ key
    written_self = ap (λ x. x.key) (update_self m.slots (home_of key d) entry) ∙ k

    written_other : (j : ℕ) → home_of key d ≢ j → after.slots j ≡ m.slots j
    written_other j h = update_ne m.slots (home_of key d) j entry h

    still_full : (j : ℕ) → (m.slots j).key ≢ 0 → (after.slots j).key ≢ 0
    still_full j f = elim (Bool-cases (home_of key d == j)) [
      | inl e ↦ λ z. n (sym written_self ∙ ap (λ x. (after.slots x).key) ((==_iff _ _).0 e) ∙ z)
      | inr e ↦ λ z. f (ap (λ x. x.key) (sym (written_other j (ground (arith, e)))) ∙ z)
    ]

    only_home : (j : ℕ) → j < capacity log2 max_load_pct → (m.slots j).key ≡ key → home_of key d ≡ j
    only_home j b e = elim home.free [
      | inl z ↦ absurd (Passed-absent log2 max_load_pct m key d g n home.passed z j b e)
      | inr q ↦ g.distinct (home_of key d) j in_range b (λ z. n (sym q ∙ z)) (q ∙ sym e)
    ]

    -- an entry with the key `x` at the slot `j` can be reached
    abbrev Reached : ℕ → ℕ → Type 0
    Reached j x =
        (c : ℕ) × (c < capacity log2 max_load_pct)
        × (home_of x c ≡ j)
        × ((e : ℕ) → e < c → key_at log2 max_load_pct after x e ≢ 0)

    reaches_after :
        (j : ℕ)
        → j < capacity log2 max_load_pct
        → (after.slots j).key ≢ 0
        → Reached j (after.slots j).key
    reaches_after j b f = elim (Bool-cases (home_of key d == j)) [
      | inl e ↦
          let at : home_of key d ≡ j = (==_iff _ _).0 e in
          subst (λ x. Reached j x) (sym written_self ∙ ap (λ x. (after.slots x).key) at)
            (d, home.steps, at, λ x lt. still_full _ (home.passed x lt).0)
      | inr e ↦
          let same : (after.slots j).key ≡ (m.slots j).key =
            ap (λ x. x.key) (written_other j (ground (arith, e))) in
          let (c, lt, at, before) = g.reaches j b (λ z. f (same ∙ z)) in
          subst (λ x. Reached j x) (sym same) (c, lt, at, λ x h. still_full _ (before x h))
    ]

    distinct_after :
        (i j : ℕ)
        → i < capacity log2 max_load_pct
        → j < capacity log2 max_load_pct
        → (after.slots i).key ≢ 0
        → (after.slots i).key ≡ (after.slots j).key
        → i ≡ j
    distinct_after i j b c f e = elim (Bool-cases (home_of key d == i)) [
      | inl x ↦
          let at_i : home_of key d ≡ i = (==_iff _ _).0 x in
          elim (Bool-cases (home_of key d == j)) [
            | inl y ↦ sym at_i ∙ (==_iff _ _).0 y
            | inr y ↦
                sym at_i
                ∙ only_home j c (
                    ap (λ z. z.key) (sym (written_other j (ground (arith, y))))
                    ∙ sym e
                    ∙ ap (λ z. (after.slots z).key) (sym at_i)
                    ∙ written_self)
          ]
      | inr x ↦
          let same = ap (λ z. z.key) (written_other i (ground (arith, x))) in
          elim (Bool-cases (home_of key d == j)) [
            | inl y ↦
                let at_j : home_of key d ≡ j = (==_iff _ _).0 y in
                sym (
                  only_home i b
                    (sym same ∙ e ∙ ap (λ z. (after.slots z).key) (sym at_j) ∙ written_self))
                ∙ at_j
            | inr y ↦
                let same_j = ap (λ z. z.key) (written_other j (ground (arith, y))) in
                g.distinct i j b c (λ z. f (same ∙ z)) (sym same ∙ e ∙ same_j)
          ]
    ]

    sized_after : after.size ≡ occupied (capacity log2 max_load_pct) after.slots
    sized_after = elim home.free [
      | inl z ↦ ground (
        arith,
        z,
        g.sized,
        occupied-update_fill (capacity log2 max_load_pct) (home_of key d) m.slots entry in_range z
            (λ w. n (sym k ∙ w)),
      )
      | inr q ↦ ground (
        arith,
        q,
        g.sized,
        n,
        occupied-update_same (capacity log2 max_load_pct) (home_of key d) m.slots entry (q ∙ sym k),
      )
    ]

    pub written-IsMap : m.size < load_cap log2 max_load_pct → IsMap log2 max_load_pct after
    written-IsMap room = record {
      reaches = reaches_after;
      distinct = distinct_after;
      sized = sized_after;
      within = ground (arith, g.within);
    }

    pub Lookup-written : Lookup log2 max_load_pct after key entry.val
    Lookup-written =
        present (home_of key d) in_range written_self
          (ap (λ x. x.val) (update_self m.slots (home_of key d) entry))

    pub Lookup_kept :
        (x v : ℕ)
        → x ≢ 0
        → x ≢ key
        → Lookup log2 max_load_pct m x v
        → Lookup log2 max_load_pct after x v
    Lookup_kept x v a b (present j c e p) =
        let apart : home_of key d ≢ j = λ at. elim home.free [
          | inl z ↦ a (sym e ∙ ap (λ y. (m.slots y).key) (sym at) ∙ z)
          | inr q ↦ b (sym e ∙ ap (λ y. (m.slots y).key) (sym at) ∙ q)
        ] in
        present j c (ap (λ y. y.key) (written_other j apart) ∙ e)
          (ap (λ y. y.val) (written_other j apart) ∙ p)
    Lookup_kept x v a b (absent f p) =
        absent
          (λ j c e. elim (Bool-cases (home_of key d == j)) [
            | inl y ↦ b (
                sym e
                ∙ ap (λ z. (after.slots z).key) (sym ((==_iff (home_of key d) j).0 y))
                ∙ written_self)
            | inr y ↦ f j c (ap (λ z. z.key) (sym (written_other j (ground (arith, y)))) ∙ e)
          ])
          p
