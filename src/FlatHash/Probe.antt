-- ===== src/FlatHash/Probe.antt =====
-- The slots that a probe visits, and the invariant of the map.
use c_order_book.Prelude.{
  ℕ, zero, suc, ◌+◌, ◌-◌, ◌*◌, ◌%◌, ◌^◌, ◌≤◌, ◌<◌, ◌≡◌, ◌≢◌, ◌∙◌, ap, sym, refl, leb, Bool-cases,
  ◌==◌, if◌then◌else◌, arith, inl, inr,
}
use native.Mathlib.Nat.{
  mod-lt, div-lt_iff_lt-mul, one-le-pow, mul-le-mul_left, pow-succ', mul_assoc, mod-eq_of_lt,
  mod-add-mod, add-mod_right,
}
use mathlib.Core.Path.{subst}
use c_order_book.Prelude.Word.{u64_mod}
use c_order_book.FlatHash.{Entry, FlatHashMap, new_map, capacity, slot_of, next_slot, load_cap}

-- how many of the first `n` slots hold an entry
abbrev pub occupied : ℕ → (ℕ → Entry) → ℕ
occupied zero f = 0
occupied (suc n) f = occupied n f + (if (f n).key == 0 then 0 else 1)

pub occupied_le : (n : ℕ) (f : ℕ → Entry) → occupied n f ≤ n
occupied_le zero f = omega arith
occupied_le (suc n) f = ground (arith, occupied_le n f)

-- A table with fewer entries than slots has an empty one.
pub empty_slot : (n : ℕ) (f : ℕ → Entry) → occupied n f < n → (z : ℕ) × (z < n) × ((f z).key ≡ 0)
empty_slot zero f h = absurd (omega arith)
empty_slot (suc n) f h = elim (Bool-cases ((f n).key == 0)) [
  | inl e ↦ (n, omega arith, ground (arith, e))
  | inr e ↦ let (z, l, h2) = empty_slot n f (ground (arith, e)) in (z, omega arith, h2)
]

pub pow-split : (k n : ℕ) → 2 ^ (k + n) ≡ 2 ^ k * 2 ^ n
pow-split zero n = ap (λ t. 2 ^ t) {x = 0 + n} {y = n} (omega arith) ∙ omega arith
pow-split (suc k) n =
    ap (λ t. 2 ^ t) {x = suc k + n} {y = suc (k + n)} (omega arith)
    ∙ pow-succ' 2 (k + n)
    ∙ ap (λ t. 2 * t) (pow-split k n)
    ∙ sym (mul_assoc 2 (2 ^ k) (2 ^ n))
    ∙ ap (λ t. t * 2 ^ n) (sym (pow-succ' 2 k))

module _ (log2 max_load_pct : ℕ) where
  -- the slot after `d` steps from the home slot `h`
  abbrev pub visited : ℕ → ℕ → ℕ
  visited h zero = h
  visited h (suc d) = next_slot log2 max_load_pct (visited h d)

  abbrev cap : ℕ
  cap = capacity log2 max_load_pct

  pub visited-mod : (h d : ℕ) → h < cap → visited h d ≡ (h + d) % cap
  visited-mod h zero l = sym (mod-eq_of_lt l) ∙ ap (λ x. x % cap) (omega arith)
  visited-mod h (suc d) l =
      ap (λ i. (i + 1) % cap) (visited-mod h d l)
      ∙ mod-add-mod (h + d) cap 1
      ∙ ap (λ x. x % cap) (omega arith)

  pub visited-lt : (h d : ℕ) → h < cap → visited h d < cap
  visited-lt h d l = rw (visited-mod h d l) (mod-lt (h + d) (omega arith))

  -- Every slot is visited from every home.
  pub visits : (h i : ℕ) → h < cap → i < cap → (d : ℕ) × (d < cap) × (visited h d ≡ i)
  visits h i l k = elim (Bool-cases (leb h i)) [
    | inl e ↦
        let same : h + (i - h) ≡ i = ground (arith, e) in
        (
          i - h,
          ground (arith, e),
          visited-mod h (i - h) l ∙ ap (λ x. x % cap) same ∙ mod-eq_of_lt k,
        )
    | inr e ↦
        let same : h + (i + cap - h) ≡ i + cap = ground (arith, e) in
        (
          i + cap - h,
          ground (arith, e),
          visited-mod h (i + cap - h) l
              ∙ ap (λ x. x % cap) same
              ∙ add-mod_right i cap
              ∙ mod-eq_of_lt k,
        )
  ]

  pub slot_of-lt : (key : ℕ) → log2 ≤ 64 → slot_of log2 max_load_pct key < cap
  unfolding slot_of
  slot_of-lt key l = (div-lt_iff_lt-mul (one-le-pow (64 - log2) 2 (omega arith))).1 (
      subst (λ t. key * 0x9E3779B97F4A7C15 % u64_mod < t)
        (ap (λ t. 2 ^ t) {x = 64} {y = log2 + (64 - log2)} (omega arith)
          ∙ pow-split log2 (64 - log2))
        (omega arith))

  -- `MaxLoadPct` is at most 90.
  pub load_cap-lt : max_load_pct ≤ 90 → load_cap log2 max_load_pct < cap
  load_cap-lt l =
      let bound = mul-le-mul_left cap l in
      let positive = one-le-pow log2 2 (omega arith) in omega (arith, bound, positive)

  -- Every entry can be reached from its home, no key stands twice, and the size counts the entries.
  pub record IsMap (m : FlatHashMap) : Type 0 where
    pub reaches :
        (i : ℕ)
        → i < cap
        → (m.slots i).key ≢ 0
        → (d : ℕ) × (d < cap)
          × (visited (slot_of log2 max_load_pct (m.slots i).key) d ≡ i)
          × ((e : ℕ)
              → e < d
              → (m.slots (visited (slot_of log2 max_load_pct (m.slots i).key) e)).key ≢ 0)
    pub distinct :
        (i j : ℕ)
        → i < cap
        → j < cap
        → (m.slots i).key ≢ 0
        → (m.slots i).key ≡ (m.slots j).key
        → i ≡ j
    pub sized : m.size ≡ occupied cap m.slots
    pub within : m.size ≤ load_cap log2 max_load_pct

  -- What the map holds for a key: the value beside it, or 0 where no slot has the key.
  pub data Lookup (m : FlatHashMap) (key val : ℕ) : Type 0 where
    present : (i : ℕ) → i < cap → (m.slots i).key ≡ key → (m.slots i).val ≡ val → Lookup m key val
    absent : ((i : ℕ) → i < cap → (m.slots i).key ≢ key) → val ≡ 0 → Lookup m key val

  pub Lookup_unique :
      (m : FlatHashMap) (key v w : ℕ) → IsMap m → key ≢ 0 → Lookup m key v → Lookup m key w → v ≡ w
  Lookup_unique m key v w g n (present i l e p) (present j k f q) =
      sym p ∙ ap (λ x. (m.slots x).val) (g.distinct i j l k (λ z. n (sym e ∙ z)) (e ∙ sym f)) ∙ q
  Lookup_unique m key v w g n (present i l e p) (absent a q) = absurd (a i l e)
  Lookup_unique m key v w g n (absent a p) (present j k f q) = absurd (a j k f)
  Lookup_unique m key v w g n (absent a p) (absent b q) = p ∙ sym q

occupied_none : (n : ℕ) → occupied n new_map.slots ≡ 0
occupied_none zero = refl
occupied_none (suc n) = omega (arith, occupied_none n)

-- The new map is empty.
pub new_map-IsMap : (log2 max_load_pct : ℕ) → IsMap log2 max_load_pct new_map
new_map-IsMap log2 max_load_pct = record {
  reaches = λ i l n. absurd (n refl);
  distinct = λ i j l k n e. absurd (n refl);
  sized = sym (occupied_none (capacity log2 max_load_pct));
  within = omega arith;
}

pub Lookup-new_map :
    (log2 max_load_pct key val : ℕ) → key ≢ 0 → Lookup log2 max_load_pct new_map key val → val ≡ 0
Lookup-new_map log2 max_load_pct key val n (present i l e p) = absurd (n (sym e))
Lookup-new_map log2 max_load_pct key val n (absent a p) = p
