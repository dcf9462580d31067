-- ===== src/Risk/Rate.antt =====
-- The rate limit: the ring of stamps holds the last `depth` accepts, so that no more than `depth`
-- accepts fall into a window.
use c_order_book.Prelude.{
  ℕ, zero, suc, ◌+◌, ◌-◌, ◌%◌, ◌≤◌, ◌<◌, ◌≡◌, ◌≢◌, sym, refl, arith, ◌==◌, if◌then◌else◌, List, [],
  ◌∷◌, Bool-cases, inl, inr, length, get_or,
}
use mathlib.Core.Path.{subst}
use c_order_book.Prelude.Int.{ℤ}
use c_order_book.Prelude.Word.{add64, sub64, sub64-eq, update, u64_mod}
use c_order_book.Order.{Side}
use c_order_book.Risk.{Gateway, check, accept, verdict, on_cancel, on_fill, new_gateway}
use c_order_book.Risk.Verdict.{Passes-of_zero}
use c_order_book.Risk.Exposure.{Event, order, cancelled, filled, step}

module _ (depth : ℕ) where
  -- The stamp that an event adds to the accepts, newest first.
  unfoldable pub note_accept : Event → Gateway → List ℕ → List ℕ
  note_accept (order side price qty now) g h =
      if verdict depth side price qty now g == 0 then now ∷ h else h
  note_accept (cancelled side qty) g h = h
  note_accept (filled side qty) g h = h

  unfoldable pub accepts : List Event → Gateway → List ℕ → List ℕ
  accepts [] g h = h
  accepts (e ∷ es) g h = accepts es (step depth e g) (note_accept e g h)

  -- The last accepts stand in the ring, the `k`-th last at its own slot.
  record Holds (g : Gateway) (h : List ℕ) : Type 0 where
    count : g.n_sent ≡ length h
    stamped :
        (k : ℕ) → k < depth → k < length h → g.stamps ((g.n_sent - 1 - k) % depth) ≡ get_or h k 0

  -- The same modulo 2 ^ 64, as the check compares: every accept and the one `depth` accepts before it.
  abbrev Spaced : ℕ → List ℕ → Type 0
  Spaced window [] = Unit {0}
  Spaced window (t ∷ h) =
      ((k : ℕ) → suc k ≡ depth → k < length h → window ≤ sub64 t (get_or h k 0)) × Spaced window h

  slot_back : (n k : ℕ) → suc k ≡ depth → k < n → (n - 1 - k) % depth ≡ n % depth
  slot_back n k e l = grind arith

  slot_ne : (n j : ℕ) → suc j < depth → j < n → (n - 1 - j) % depth ≢ n % depth
  slot_ne n j e l f = grind arith

  module _ (side : Side) (qty : ℤ) (now : ℕ) (g : Gateway) (h : List ℕ) where
    accept-Holds :
        Holds g h → length h + 1 < u64_mod → Holds (accept depth side qty now g) (now ∷ h)
    unfolding accept add64
    accept-Holds v b = record { count = omega (arith, v.count); stamped = recent }
      where
        recent :
            (k : ℕ)
            → k < depth
            → k < suc (length h)
            → update g.stamps (g.n_sent % depth) now (((g.n_sent + 1) % u64_mod - 1 - k) % depth)
              ≡ get_or (now ∷ h) k 0
        recent zero l m =
            let e : (g.n_sent + 1) % u64_mod - 1 - 0 ≡ g.n_sent = omega (arith, v.count) in
            rw e (ground arith)
        recent (suc j) l m =
            let e : (g.n_sent + 1) % u64_mod - 1 - suc j ≡ g.n_sent - 1 - j =
              omega (arith, v.count) in
            rw e (ground (arith, slot_ne g.n_sent j, v.stamped j, v.count))

    accept-Spaced :
        (price : ℤ)
        → Holds g h
        → verdict depth side price qty now g ≡ 0
        → Spaced g.window_ticks h
        → Spaced g.window_ticks (now ∷ h)
    accept-Spaced price v z s =
        let p = Passes-of_zero depth side price qty now g z in
        (λ k e l. ground (arith, p.slow, slot_back g.n_sent k, v.stamped k, v.count), s)

  window_kept : (e : Event) (g : Gateway) → (step depth e g).window_ticks ≡ g.window_ticks
  unfolding step check accept on_cancel on_fill
  window_kept (order side price qty now) g = ground arith
  window_kept (cancelled side qty) g = refl
  window_kept (filled side qty) g = refl

  step-Holds :
      (e : Event) (g : Gateway) (h : List ℕ)
      → length h + 1 < u64_mod
      → Holds g h
      → Spaced g.window_ticks h
      → Holds (step depth e g) (note_accept e g h) × Spaced g.window_ticks (note_accept e g h)
  unfolding step check note_accept on_cancel on_fill
  step-Holds (order side price qty now) g h b v s =
      elim (Bool-cases (verdict depth side price qty now g == 0)) [
        | inl z ↦ rw z (
          accept-Holds side qty now g h v b,
          accept-Spaced side qty now g h price v (ground arith) s,
        )
        | inr nz ↦ rw nz (record { count = v.count; stamped = v.stamped }, s)
      ]
  step-Holds (cancelled side qty) g h b v s = (record { count = v.count; stamped = v.stamped }, s)
  step-Holds (filled side qty) g h b v s = (record { count = v.count; stamped = v.stamped }, s)

  length-note_accept :
      (e : Event) (g : Gateway) (h : List ℕ) → length (note_accept e g h) ≤ length h + 1
  unfolding note_accept
  length-note_accept (order side price qty now) g h = ground arith
  length-note_accept (cancelled side qty) g h = omega arith
  length-note_accept (filled side qty) g h = omega arith

  accepts-Spaced :
      (es : List Event) (g : Gateway) (h : List ℕ)
      → length h + length es + 1 < u64_mod
      → Holds g h
      → Spaced g.window_ticks h
      → Spaced g.window_ticks (accepts es g h)
  unfolding accepts
  accepts-Spaced [] g h b v s = s
  accepts-Spaced (e ∷ es) g h b v s =
      let (v', s') = step-Holds e g h (omega arith) v s in
      let more = length-note_accept e g h in
      subst (λ w. Spaced w (accepts es (step depth e g) (note_accept e g h))) (window_kept e g)
        (accepts-Spaced es (step depth e g) (note_accept e g h) (omega arith) v'
          (subst (λ w. Spaced w (note_accept e g h)) (sym (window_kept e g)) s'))

  -- The clock of the orders does not run back, from the reading `lo` on, and fits its 64 bits.
  abbrev pub IsClocked : ℕ → List Event → Type 0
  IsClocked lo [] = lo < u64_mod
  IsClocked lo (order side price qty now ∷ es) = (lo ≤ now) × IsClocked now es
  IsClocked lo (cancelled side qty ∷ es) = IsClocked lo es
  IsClocked lo (filled side qty ∷ es) = IsClocked lo es

  -- Stamps of accepts, newest first, none after the reading `hi`.
  abbrev IsFalling : ℕ → List ℕ → Type 0
  IsFalling hi [] = Unit {0}
  IsFalling hi (t ∷ h) = (t ≤ hi) × IsFalling t h

  -- Every accept comes at least `window` ticks after the one `depth` accepts before it.
  abbrev pub Apart : ℕ → List ℕ → Type 0
  Apart window [] = Unit {0}
  Apart window (t ∷ h) =
      ((k : ℕ) → suc k ≡ depth → k < length h → get_or h k 0 + window ≤ t) × Apart window h

  IsFalling-later : (lo hi : ℕ) (h : List ℕ) → lo ≤ hi → IsFalling lo h → IsFalling hi h
  IsFalling-later lo hi [] l f = tt
  IsFalling-later lo hi (t ∷ h) l f = (omega (arith, f.0), f.1)

  get_or-falls : (hi : ℕ) (h : List ℕ) (k : ℕ) → IsFalling hi h → k < length h → get_or h k 0 ≤ hi
  get_or-falls hi [] k f l = absurd (omega arith)
  get_or-falls hi (t ∷ h) zero f l = f.0
  get_or-falls hi (t ∷ h) (suc k) f l = omega (arith, f.0, get_or-falls t h k f.1 (omega arith))

  Apart-of_Spaced :
      (window hi : ℕ) (h : List ℕ)
      → hi < u64_mod
      → IsFalling hi h
      → Spaced window h
      → Apart window h
  Apart-of_Spaced window hi [] b f s = tt
  Apart-of_Spaced window hi (t ∷ h) b f s = (
    λ k e l.
        let older = get_or-falls t h k f.1 l in
        let small : t < u64_mod = omega (arith, f.0) in
        omega (arith, older, s.0 k e l, sub64-eq t (get_or h k 0) older small),
    Apart-of_Spaced window t h (omega (arith, f.0)) f.1 s.1,
  )

  clock_ends : (lo : ℕ) (es : List Event) → IsClocked lo es → lo < u64_mod
  clock_ends lo [] c = c
  clock_ends lo (order side price qty now ∷ es) c = omega (arith, c.0, clock_ends now es c.1)
  clock_ends lo (cancelled side qty ∷ es) c = clock_ends lo es c
  clock_ends lo (filled side qty ∷ es) c = clock_ends lo es c

  note_accept-falls :
      (lo : ℕ) (side : Side) (price qty : ℤ) (now : ℕ) (g : Gateway) (h : List ℕ)
      → lo ≤ now
      → IsFalling lo h
      → IsFalling now (note_accept (order side price qty now) g h)
  unfolding note_accept
  note_accept-falls lo side price qty now g h l f =
      elim (Bool-cases (verdict depth side price qty now g == 0)) [
        | inl z ↦ rw z (omega arith, IsFalling-later lo now h l f)
        | inr z ↦ rw z (IsFalling-later lo now h l f)
      ]

  accepts-Apart :
      (window lo : ℕ) (es : List Event) (g : Gateway) (h : List ℕ)
      → IsClocked lo es
      → IsFalling lo h
      → Spaced window (accepts es g h)
      → Apart window (accepts es g h)
  unfolding accepts note_accept
  accepts-Apart window lo [] g h c f s = Apart-of_Spaced window lo h c f s
  accepts-Apart window lo (order side price qty now ∷ es) g h c f s =
      accepts-Apart window now es _ _ c.1 (note_accept-falls lo side price qty now g h c.0 f) s
  accepts-Apart window lo (cancelled side qty ∷ es) g h c f s = accepts-Apart window lo es _ _ c f s
  accepts-Apart window lo (filled side qty ∷ es) g h c f s = accepts-Apart window lo es _ _ c f s

  -- In a session of fewer than 2 ^ 64 - 1 events from the constructor on, with clock readings that
  -- fit 64 bits and do not run back from one order to the next, every accepted order comes at least a
  -- window after the order accepted `depth` accepts before it.
  pub accepts_are-Apart :
      (max_qty px_lo px_hi limit : ℤ) (window : ℕ) (es : List Event)
      → length es + 1 < u64_mod
      → IsClocked 0 es
      → Apart window (accepts es (new_gateway max_qty px_lo px_hi limit window) [])
  unfolding new_gateway
  accepts_are-Apart max_qty px_lo px_hi limit window es b c =
      let g = new_gateway max_qty px_lo px_hi limit window in
      accepts-Apart window 0 es g [] c tt (
        accepts-Spaced es g [] (omega arith)
          (record { count = refl; stamped = λ k l m. absurd (omega arith) }) tt)
