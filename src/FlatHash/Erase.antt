-- ===== src/FlatHash/Erase.antt =====
-- What an erasure leaves.
use c_order_book.Prelude.{
  ℕ, zero, suc, ◌+◌, ◌≤◌, ◌<◌, ◌≡◌, ◌≢◌, ◌∙◌, ap, sym, refl, Bool, true, false, Option, some, ◌==◌,
  ==_iff, Bool-cases, inl, inr, arith,
}
use mathlib.Core.Path.{subst}
use c_order_book.FlatHash.{
  FlatHashMap, capacity, slot_of, find, on_path, shift_loop, erase_search, emptied, erase_at, erase,
}
use c_order_book.FlatHash.Probe.{
  empty_slot, visited, visited-lt, visits, slot_of-lt, load_cap-lt, IsMap, Lookup, present, absent,
  Lookup_unique,
}
use c_order_book.FlatHash.Find.{Passed, Passed-suc, Passed-absent, Passed-bound, find-Lookup}
use c_order_book.FlatHash.Shift.{Keeps, here, nowhere, Shifting}
use c_order_book.FlatHash.Step.{left, shifted}
use c_order_book.FlatHash.Cleared.{cleared, one_less, cleared-IsMap, Lookup-Keeps, gone_key}

module _ (log2 max_load_pct : ℕ) (bits : log2 ≤ 64) (load : max_load_pct ≤ 90) where
  abbrev cap : ℕ
  cap = capacity log2 max_load_pct

  -- The map `out` is `m0` without `key`.
  pub record Without (m0 : FlatHashMap) (key : ℕ) (out : FlatHashMap) : Type 0 where
    pub valid : IsMap log2 max_load_pct out
    pub smaller : out.size + 1 ≡ m0.size
    pub gone : Lookup log2 max_load_pct out key 0
    pub kept :
        (k v : ℕ)
        → k ≢ 0
        → k ≢ key
        → Lookup log2 max_load_pct m0 k v
        → Lookup log2 max_load_pct out k v

  shift_done :
      (fuel : ℕ) (m0 : FlatHashMap) (key : ℕ) (m : FlatHashMap) (i t r z : ℕ)
      → key ≢ 0
      → IsMap log2 max_load_pct m0
      → Shifting log2 max_load_pct bits m0 key m i t r z
      → r < fuel
      → (i2 : ℕ) × (m2 : FlatHashMap) × (shift_loop log2 max_load_pct fuel i
            (visited log2 max_load_pct i t)
            m
          ≡ some (i2, m2))
        × Without m0 key (cleared log2 max_load_pct bits load i2 m2)
  unfolding shift_loop
  shift_done zero m0 key m i t r z n g s l = absurd (omega arith)
  shift_done (suc fuel) m0 key m i t zero z n g s l = absurd (
      s.looked (
        ap (λ y. (m.slots y).key)
          (ap (visited log2 max_load_pct i) {x = t} {y = t + 0} (omega arith) ∙ s.ahead)
        ∙ s.empty))
  shift_done (suc fuel) m0 key m i t (suc r) z n g s l =
      let next = visited log2 max_load_pct i (suc t) in
      elim (Bool-cases ((m.slots next).key == 0)) [
        | inl e ↦
            let stop = (==_iff _ _).0 e in
            (
              i,
              m,
              rw (e) refl,
              record {
                valid = cleared-IsMap log2 max_load_pct bits load m0 key m i t r z g s stop;
                smaller = one_less log2 max_load_pct bits load m0 key m i t r z g s stop;
                gone = gone_key log2 max_load_pct bits load m0 key m i t r z g s stop n;
                kept = λ k v a b look.
                    Lookup-Keeps log2 max_load_pct bits load m0 key m i t r z g s stop k v a
                      (s.kept k v a b look);
              },
            )
        | inr e ↦ elim (Bool-cases (on_path log2 max_load_pct i next m)) [
          | inl on ↦
              let (i2, m2, q, w) =
                shift_done fuel m0 key _ next 0 r z n g
                  (shifted log2 max_load_pct bits m0 key m i t r z s (ground (arith, e)) on)
                  (omega arith) in
              (i2, m2, rw (e, on) q, w)
          | inr off ↦
              let (i2, m2, q, w) =
                shift_done fuel m0 key m i (suc t) r z n g
                  (left log2 max_load_pct bits m0 key m i t r z s (ground (arith, e)) off)
                  (omega arith) in
              (i2, m2, rw (e, off) q, w)
        ]
      ]

  -- The slot where the search of an erasure finds the key, with what it has passed.
  started :
      (key i : ℕ) (m : FlatHashMap)
      → key ≢ 0
      → IsMap log2 max_load_pct m
      → i < cap
      → (m.slots i).key ≡ key
      → (r : ℕ) × (z : ℕ) × (r < cap) × Shifting log2 max_load_pct bits m key m i 0 r z
  started key i m n g l e =
      let (z, zl, empty) =
        empty_slot cap m.slots
          (omega (arith, g.sized, g.within, load_cap-lt log2 max_load_pct load)) in
      let (r, rl, at) = visits log2 max_load_pct i z l zl in
      let full : (m.slots i).key ≢ 0 = λ q. n (sym e ∙ q) in
      let from_start : visited log2 max_load_pct i (0 + r) ≡ z =
        ap (visited log2 max_load_pct i) {x = 0 + r} {y = r} (omega arith) ∙ at in
      (
        r,
        z,
        rl,
        record {
          inside = l;
          full = full;
          looked = full;
          chained = λ x k a f.
              let (d, near, arrives, chain) = g.reaches x k f in
              record {
                d = d;
                near = near;
                arrives = arrives;
                chain = chain;
                beyond = λ b c q. omega arith;
              };
          distinct = λ x y k j a b f q. g.distinct x y k j f q;
          kept = λ k v a b look. unkeyed k v b look;
          gone = λ x k a q. a (g.distinct x i k l (λ w. n (sym q ∙ w)) (q ∙ sym e));
          counted = sym g.sized;
          sized = refl;
          ahead = from_start;
          short = omega arith;
          empty = empty;
        },
      )
    where
      unkeyed :
          (k v : ℕ)
          → k ≢ key
          → Lookup log2 max_load_pct m k v
          → Keeps log2 max_load_pct bits m i k v
      unkeyed k v b (present x h p q) =
          here x h (λ w. b (sym p ∙ ap (λ y. (m.slots y).key) w ∙ e)) p q
      unkeyed k v b (absent f q) = nowhere (λ x h a. f x h) q

  -- The outcomes of an erasure.
  pub data Erases (m : FlatHashMap) (key : ℕ) : Option (Bool × FlatHashMap) → Type 0 where
    missing : find log2 max_load_pct key m ≡ some 0 → Erases m key (some (false, m))
    removed :
        (t : FlatHashMap)
        → IsMap log2 max_load_pct t
        → t.size + 1 ≡ m.size
        → find log2 max_load_pct key t ≡ some 0
        → ((x : ℕ) → x ≢ 0 → x ≢ key → find log2 max_load_pct x t ≡ find log2 max_load_pct x m)
        → Erases m key (some (true, t))

  found_eq :
      (key v : ℕ) (t : FlatHashMap)
      → IsMap log2 max_load_pct t
      → key ≢ 0
      → Lookup log2 max_load_pct t key v
      → find log2 max_load_pct key t ≡ some v
  found_eq key v t g n look =
      let (w, found, look2) = find-Lookup log2 max_load_pct key t g n bits load in
      found ∙ ap some (Lookup_unique log2 max_load_pct t key w v g n look2 look)

  erased_at :
      (key i : ℕ) (m : FlatHashMap)
      → key ≢ 0
      → IsMap log2 max_load_pct m
      → i < cap
      → (m.slots i).key ≡ key
      → Erases m key (erase_at log2 max_load_pct (some (some i)) m)
  erased_at key i m n g l e =
      let (r, z, rl, s) = started key i m n g l e in
      let (i2, m2, q, w) = shift_done (cap + 1) m key m i 0 r z n g s (omega arith) in
      subst (λ o. Erases m key (emptied log2 max_load_pct o)) (sym q)
        (removed _ w.valid w.smaller (found_eq key 0 _ w.valid n w.gone) (λ x a b.
          let (v, found, look) = find-Lookup log2 max_load_pct x m g a bits load in
          found_eq x v _ w.valid a (w.kept x v a b look) ∙ sym found))

  search_from :
      (fuel key d : ℕ) (m : FlatHashMap)
      → IsMap log2 max_load_pct m
      → key ≢ 0
      → Passed log2 max_load_pct m key d
      → cap < fuel + d
      → Erases m key (
          erase_at log2 max_load_pct
            (erase_search log2 max_load_pct fuel key
              (visited log2 max_load_pct (slot_of log2 max_load_pct key) d)
              m)
            m)
  unfolding erase_search
  search_from zero key d m g n p f =
      absurd (omega (arith, Passed-bound log2 max_load_pct m key d g bits load p))
  search_from (suc fuel) key d m g n p f =
      let i = visited log2 max_load_pct (slot_of log2 max_load_pct key) d in
      elim (Bool-cases ((m.slots i).key == key)) [
        | inl e ↦ rw (e) (
            erased_at key i m n g
              (visited-lt log2 max_load_pct _ d (slot_of-lt log2 max_load_pct key bits))
              ((==_iff _ _).0 e))
        | inr e ↦ elim (Bool-cases ((m.slots i).key == 0)) [
          | inl q ↦
              rw (e, q)
                (missing (
                  found_eq key 0 m g n (
                    absent (Passed-absent log2 max_load_pct m key d g n p ((==_iff _ _).0 q))
                      refl)))
          | inr q ↦
              rw (e, q)
                (search_from fuel key (suc d) m g n
                  (Passed-suc log2 max_load_pct m key d p (ground (arith, q)) (ground (arith, e)))
                  (omega arith))
        ]
      ]

  -- An erasure of a key other than 0 ends. It answers false only where a lookup of the key returns 0,
  -- and leaves the map; else it answers true, and the new map is valid, with no empty slot inside the
  -- probe path of an entry, its size is one less, a lookup of the key returns 0, and a lookup of any
  -- other key returns what it returned before.
  pub erase-Erases :
      (m : FlatHashMap) (key : ℕ)
      → IsMap log2 max_load_pct m
      → key ≢ 0
      → Erases m key (erase log2 max_load_pct key m)
  unfolding erase
  erase-Erases m key g n =
      search_from (cap + 1) key 0 m g n (λ x k. absurd (omega arith)) (omega arith)
