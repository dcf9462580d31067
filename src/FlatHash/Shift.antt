-- ===== src/FlatHash/Shift.antt =====
-- The state of the backward shift: the hole moves along the chain until an empty slot ends it.
use c_order_book.Prelude.{ℕ, ◌+◌, ◌-◌, ◌≤◌, ◌<◌, ◌≡◌, ◌≢◌}
use c_order_book.FlatHash.{FlatHashMap, capacity, slot_of}
use c_order_book.FlatHash.Probe.{occupied, visited, Lookup}

module _ (log2 max_load_pct : ℕ) (bits : log2 ≤ 64) where
  abbrev pub steps : ℕ → ℕ → ℕ
  steps h d = visited log2 max_load_pct h d

  abbrev pub cap : ℕ
  cap = capacity log2 max_load_pct

  -- A probe from `home` gets to `x` and meets no empty slot on its way; where it passes the hole at
  -- `i`, it goes on for more than `t` steps.
  pub record Chained (m : FlatHashMap) (i t x home : ℕ) : Type 0 where
    pub d : ℕ
    pub near : d < cap
    pub arrives : steps home d ≡ x
    pub chain : (e : ℕ) → e < d → (m.slots (steps home e)).key ≢ 0
    pub beyond : (e : ℕ) → e < d → steps home e ≡ i → t < d - e

  abbrev pub home_at : FlatHashMap → ℕ → ℕ
  home_at m x = slot_of log2 max_load_pct (m.slots x).key

  -- What a map with the hole `i`, whose slot is still full, holds for a key.
  pub data Keeps (m : FlatHashMap) (i key val : ℕ) : Type 0 where
    here :
        (x : ℕ)
        → x < cap
        → x ≢ i
        → (m.slots x).key ≡ key
        → (m.slots x).val ≡ val
        → Keeps m i key val
    nowhere : ((x : ℕ) → x < cap → x ≢ i → (m.slots x).key ≢ key) → val ≡ 0 → Keeps m i key val

  -- The hole is at `i`, and the loop has looked at the `t` slots after it; `r` steps further is the
  -- empty slot `z`. Nothing is lost of `m0` but `key`.
  pub record Shifting (m0 : FlatHashMap) (key : ℕ) (m : FlatHashMap) (i t r z : ℕ) : Type 0 where
    pub inside : i < cap
    pub full : (m.slots i).key ≢ 0
    pub looked : (m.slots (steps i t)).key ≢ 0
    pub chained : (x : ℕ) → x < cap → x ≢ i → (m.slots x).key ≢ 0 → Chained m i t x (home_at m x)
    pub distinct :
        (x y : ℕ)
        → x < cap
        → y < cap
        → x ≢ i
        → y ≢ i
        → (m.slots x).key ≢ 0
        → (m.slots x).key ≡ (m.slots y).key
        → x ≡ y
    pub kept : (k v : ℕ) → k ≢ 0 → k ≢ key → Lookup log2 max_load_pct m0 k v → Keeps m i k v
    pub gone : (x : ℕ) → x < cap → x ≢ i → (m.slots x).key ≢ key
    pub counted : occupied cap m.slots ≡ m0.size
    pub sized : m.size ≡ m0.size
    pub ahead : steps i (t + r) ≡ z
    pub short : t + r < cap
    pub empty : (m.slots z).key ≡ 0
