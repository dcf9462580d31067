-- ===== src/FlatHash/Insert.antt =====
-- What an insertion leaves.
use c_order_book.Prelude.{
  ℕ, zero, suc, ◌+◌, ◌≤◌, ◌<◌, ◌≡◌, ◌≢◌, ◌∙◌, ap, sym, refl, Bool, true, false, Option, some, leb,
  ◌==◌, ==_iff, Bool-cases, arith, inl, inr,
}
use mathlib.Core.Path.{subst}
use c_order_book.FlatHash.{
  Entry, FlatHashMap, capacity, load_cap, find, insert, insert_loop, inserted,
}
use c_order_book.FlatHash.Probe.{IsMap, Lookup, Lookup_unique}
use c_order_book.FlatHash.Find.{Passed, Passed-suc, Passed-bound, find-Lookup}
use c_order_book.FlatHash.Write.{
  IsHome, home_of, written, written-IsMap, Lookup-written, Lookup_kept,
}

module _ (log2 max_load_pct : ℕ) (bits : log2 ≤ 64) (load : max_load_pct ≤ 90) where
  -- the slot that the loop finds, and what it writes there
  record Stores (m : FlatHashMap) (key val : ℕ) (out : Option FlatHashMap) : Type 0 where
    d : ℕ
    entry : Entry
    home : IsHome log2 max_load_pct m key d
    key_eq : entry.key ≡ key
    val_eq : entry.val ≡ val
    out_eq : out ≡ some (written log2 max_load_pct key d entry m)

  insert_from :
      (fuel key val d : ℕ) (m : FlatHashMap)
      → IsMap log2 max_load_pct m
      → key ≢ 0
      → Passed log2 max_load_pct m key d
      → capacity log2 max_load_pct < fuel + d
      → Stores m key val
          (insert_loop log2 max_load_pct fuel key val (home_of log2 max_load_pct key d) m)
  unfolding insert_loop
  insert_from zero key val d m g n p f =
      absurd (omega (arith, Passed-bound log2 max_load_pct m key d g bits load p))
  insert_from (suc fuel) key val d m g n p f =
      let i = home_of log2 max_load_pct key d in
      let room = Passed-bound log2 max_load_pct m key d g bits load p in
      elim (Bool-cases ((m.slots i).key == 0)) [
        | inl e ↦ record {
          d = d;
          entry = record { key = key; val = val };
          home = record { steps = room; passed = p; free = inl ((==_iff _ _).0 e) };
          key_eq = refl;
          val_eq = refl;
          out_eq = rw (e) refl;
        }
        | inr e ↦ elim (Bool-cases ((m.slots i).key == key)) [
          | inl q ↦ record {
            d = d;
            entry = record (m.slots i) { val = val };
            home = record { steps = room; passed = p; free = inr ((==_iff _ _).0 q) };
            key_eq = (==_iff _ _).0 q;
            val_eq = refl;
            out_eq = rw (e, q) refl;
          }
          | inr q ↦
              let rest =
                insert_from fuel key val (suc d) m g n
                  (Passed-suc log2 max_load_pct m key d p (ground (arith, e)) (ground (arith, q)))
                  (omega arith) in
              record {
                d = rest.d;
                entry = rest.entry;
                home = rest.home;
                key_eq = rest.key_eq;
                val_eq = rest.val_eq;
                out_eq = rw (e, q) rest.out_eq;
              }
        ]
      ]

  -- The outcomes of an insertion.
  pub data Inserts (m : FlatHashMap) (key val : ℕ) : Option (Bool × FlatHashMap) → Type 0 where
    full : load_cap log2 max_load_pct ≤ m.size → Inserts m key val (some (false, m))
    stored :
        (t : FlatHashMap)
        → m.size < load_cap log2 max_load_pct
        → IsMap log2 max_load_pct t
        → find log2 max_load_pct key t ≡ some val
        → ((x : ℕ) → x ≢ 0 → x ≢ key → find log2 max_load_pct x t ≡ find log2 max_load_pct x m)
        → Inserts m key val (some (true, t))

  found_eq :
      (key v : ℕ) (t : FlatHashMap)
      → IsMap log2 max_load_pct t
      → key ≢ 0
      → Lookup log2 max_load_pct t key v
      → find log2 max_load_pct key t ≡ some v
  found_eq key v t g n look =
      let (w, found, look2) = find-Lookup log2 max_load_pct key t g n bits load in
      found ∙ ap some (Lookup_unique log2 max_load_pct t key w v g n look2 look)

  Stores-Inserts :
      (m : FlatHashMap) (key val : ℕ) (out : Option FlatHashMap)
      → IsMap log2 max_load_pct m
      → key ≢ 0
      → m.size < load_cap log2 max_load_pct
      → Stores m key val out
      → Inserts m key val (inserted log2 max_load_pct out)
  Stores-Inserts m key val out g n room s =
      let t = written log2 max_load_pct key s.d s.entry m in
      let gt = written-IsMap log2 max_load_pct m key s.d s.entry g n bits s.home s.key_eq room in
      let look = Lookup-written log2 max_load_pct m key s.d s.entry g n bits s.home s.key_eq in
      subst (λ o. Inserts m key val (inserted log2 max_load_pct o)) (sym s.out_eq)
        (stored t room gt
          (found_eq key val t gt n (subst (λ v. Lookup log2 max_load_pct t key v) s.val_eq look))
          (λ x a b.
            let (v, found, kept) = find-Lookup log2 max_load_pct x m g a bits load in
            found_eq x v t gt a (
              Lookup_kept log2 max_load_pct m key s.d s.entry g n bits s.home s.key_eq x v a b kept)
            ∙ sym found))

  -- An insertion with a key other than 0 ends. At the load cap it refuses and leaves the map as it is;
  -- below the cap the new map is valid, a lookup of the key returns the value, and a lookup of any
  -- other key returns what it returned before.
  pub insert-Inserts :
      (m : FlatHashMap) (key val : ℕ)
      → IsMap log2 max_load_pct m
      → key ≢ 0
      → Inserts m key val (insert log2 max_load_pct key val m)
  unfolding insert
  insert-Inserts m key val g n = elim (Bool-cases (leb (load_cap log2 max_load_pct) m.size)) [
    | inl e ↦ subst (λ o. Inserts m key val o) (rw (e) refl) (full (ground (arith, e)))
    | inr e ↦
        subst (λ o. Inserts m key val o) (rw (e) refl)
          (Stores-Inserts m key val _ g n (ground (arith, e)) (
            insert_from (capacity log2 max_load_pct + 1) key val 0 m g n
              (λ x k. absurd (omega arith)) (omega arith)))
  ]
