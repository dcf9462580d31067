-- ===== src/FlatHash.antt =====
-- include/lob/flat_hash.hpp: the open-addressed map from 64-bit references to engine ids. The
-- capacity is `2 ^ log2`, so that the mask `CapacityPow2 - 1` is a remainder. The loops have fuel.
pub mod Probe
pub mod Find
pub mod Write
pub mod Cycle
pub mod Shift
pub mod Step
pub mod Cleared
pub mod Erase
pub mod Insert
use c_order_book.Prelude.{
  ℕ, zero, suc, ◌+◌, ◌-◌, ◌*◌, ◌/◌, ◌%◌, ◌^◌, Bool, true, false, Option, none, some, not, ltb, leb,
  ◌==◌, if◌then◌else◌,
}
use c_order_book.Prelude.Word.{u64_mod, sub64, update}

-- Key 0 marks an empty slot.
pub record Entry : Type 0 where
  pub key : ℕ
  pub val : ℕ

pub record FlatHashMap : Type 0 where
  pub slots : ℕ → Entry
  pub size : ℕ

-- the constructor's `memset`
abbrev pub new_map : FlatHashMap
new_map = record { slots = λ _. record { key = 0; val = 0 }; size = 0 }

-- The loop that computes `LOG2`; `c` loses a bit in each round, so fuel of 64 is enough.
unfoldable pub log2_loop : (fuel c n : ℕ) → ℕ
log2_loop zero c n = n
log2_loop (suc fuel) c n = let rest = log2_loop fuel (c / 2) (n + 1) in if ltb 1 c then rest else n

module _ (log2 max_load_pct : ℕ) where
  abbrev pub capacity : ℕ
  capacity = 2 ^ log2

  -- the product wraps around at 64 bits
  unfoldable pub slot_of : ℕ → ℕ
  slot_of key = key * 0x9E3779B97F4A7C15 % u64_mod / 2 ^ (64 - log2)

  -- `(i + 1) & MASK`
  abbrev pub next_slot : ℕ → ℕ
  next_slot i = (i + 1) % capacity

  -- `CapacityPow2 * MaxLoadPct / 100`
  abbrev pub load_cap : ℕ
  load_cap = capacity * max_load_pct / 100

  unfoldable pub find_loop : (fuel key i : ℕ) → FlatHashMap → Option ℕ
  find_loop zero key i m = none
  find_loop (suc fuel) key i m =
      let rest = find_loop fuel key (next_slot i) m in
      if (m.slots i).key == 0
      then some 0
      else if (m.slots i).key == key
      then some ((m.slots i).val)
      else rest

  unfoldable pub find : ℕ → FlatHashMap → Option ℕ
  unfolding find_loop
  find key m = find_loop (capacity + 1) key (slot_of key) m

  unfoldable pub insert_loop : (fuel key val i : ℕ) → FlatHashMap → Option FlatHashMap
  insert_loop zero key val i m = none
  insert_loop (suc fuel) key val i m =
      let rest = insert_loop fuel key val (next_slot i) m in
      if (m.slots i).key == 0
      then some
          (record { slots = update m.slots i (record { key = key; val = val }); size = m.size + 1 })
      else if (m.slots i).key == key
      then some (record m { slots = update m.slots i (record (m.slots i) { val = val }) })
      else rest

  abbrev inserted : Option FlatHashMap → Option (Bool × FlatHashMap)
  inserted none = none
  inserted (some m) = some (true, m)

  unfoldable pub insert : (key val : ℕ) → FlatHashMap → Option (Bool × FlatHashMap)
  unfolding insert_loop
  insert key val m =
      if leb load_cap m.size
      then some (false, m)
      else inserted (insert_loop (capacity + 1) key val (slot_of key) m)

  -- the search of `erase`: `some none` where the key is absent
  unfoldable pub erase_search : (fuel key i : ℕ) → FlatHashMap → Option (Option ℕ)
  erase_search zero key i m = none
  erase_search (suc fuel) key i m =
      let rest = erase_search fuel key (next_slot i) m in
      if (m.slots i).key == key
      then some (some i)
      else if (m.slots i).key == 0
      then some none
      else rest

  -- `(a - b) & MASK`
  abbrev pub distance : ℕ → ℕ → ℕ
  distance a b = sub64 a b % capacity

  -- `i` lies on the probe path of the entry at `j`.
  abbrev pub on_path : (i j : ℕ) → FlatHashMap → Bool
  on_path i j m = leb (distance j i) (distance j (slot_of (m.slots j).key))

  -- The shift, with the hole at `i` after the slot `j`: the last hole, and the slots.
  unfoldable pub shift_loop : (fuel i j : ℕ) → FlatHashMap → Option (ℕ × FlatHashMap)
  shift_loop zero i j m = none
  shift_loop (suc fuel) i j0 m =
      let j = next_slot j0 in
      let moved = shift_loop fuel j j (record m { slots = update m.slots i (m.slots j) }) in
      let rest = shift_loop fuel i j m in
      if (m.slots j).key == 0 then some (i, m) else if on_path i j m then moved else rest

  abbrev pub emptied : Option (ℕ × FlatHashMap) → Option (Bool × FlatHashMap)
  emptied none = none
  emptied (some (i, m)) = some (
    true,
    record { slots = update m.slots i (record (m.slots i) { key = 0 }); size = sub64 m.size 1 },
  )

  abbrev pub erase_at : Option (Option ℕ) → FlatHashMap → Option (Bool × FlatHashMap)
  erase_at none m = none
  erase_at (some none) m = some (false, m)
  erase_at (some (some i)) m = emptied (shift_loop (capacity + 1) i i m)

  unfoldable pub erase : ℕ → FlatHashMap → Option (Bool × FlatHashMap)
  unfolding erase_search shift_loop
  erase key m = erase_at (erase_search (capacity + 1) key (slot_of key) m) m
