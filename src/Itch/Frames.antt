-- ===== src/Itch/Frames.antt =====
-- What a call of `next` consumes, and where the loop over it stops.
use c_order_book.Prelude.{
  ℕ, zero, suc, ◌+◌, ◌≤◌, ◌<◌, ◌≡◌, ◌∙◌, ap, sym, refl, false, Option, none, some, List, [], ◌∷◌,
  ltb, Bool-cases, inl, inr, arith,
}
use c_order_book.Itch.{Wire, load_be, size_of, type_of, decode, advance, next, parse}

module _ (buf : ℕ → ℕ) (size : ℕ) where
  -- The message `m` in a frame that starts at `cur` and ends at `after`.
  pub record IsFrame (cur : ℕ) (m : Wire) (after : ℕ) : Type 0 where
    pub inside : after ≤ size
    pub prefix : after ≡ cur + 2 + load_be buf 2 cur
    pub payload : after ≡ cur + 2 + size_of m
    pub type : buf (cur + 2) ≡ type_of m

  abbrev message_or : Wire → Option (Wire × ℕ) → Wire
  message_or d none = d
  message_or d (some (m, _)) = m

  abbrev end_or : ℕ → Option (Wire × ℕ) → ℕ
  end_or d none = d
  end_or d (some (_, e)) = e

  decode_lem :
      (len p : ℕ) (m : Wire) → decode buf len p ≡ some m → (len ≡ size_of m) × (buf p ≡ type_of m)
  unfolding decode
  decode_lem len p m h = ground (arith, h)

  framed :
      (cur after : ℕ) (m : Wire) (r : Option Wire)
      → (cur + 2 + load_be buf 2 cur) ≤ size
      → decode buf (load_be buf 2 cur) (cur + 2) ≡ r
      → advance buf (load_be buf 2 cur) cur r ≡ some (m, after)
      → IsFrame cur m after
  framed cur after m none l e h = absurd (ground (arith, h))
  framed cur after m (some w) l e h =
      let same : w ≡ m = ap (message_or w) h in
      let last : cur + 2 + load_be buf 2 cur ≡ after = ap (end_or after) h in
      let d = decode_lem (load_be buf 2 cur) (cur + 2) m (e ∙ ap some same) in
      record {
        inside = omega (arith, l, last);
        prefix = sym last;
        payload = omega (arith, last, d.0);
        type = d.1;
      }

  in_bounds :
      (cur : ℕ)
      → ltb size (cur + 2) ≡ false
      → ltb size (cur + 2 + load_be buf 2 cur) ≡ false
      → next buf size cur
        ≡ advance buf (load_be buf 2 cur) cur (decode buf (load_be buf 2 cur) (cur + 2))
  unfolding next
  in_bounds cur a c = rw (a, c) refl

  pub next-IsFrame :
      (cur after : ℕ) (m : Wire) → next buf size cur ≡ some (m, after) → IsFrame cur m after
  unfolding next
  next-IsFrame cur after m h = elim (Bool-cases (ltb size (cur + 2))) [
    | inl a ↦ absurd (ground (arith, h, a))
    | inr a ↦ elim (Bool-cases (ltb size (cur + 2 + load_be buf 2 cur))) [
      | inl c ↦ absurd (ground (arith, h, a, c))
      | inr c ↦ framed cur after m _ (grind (arith, c)) refl (sym (in_bounds cur a c) ∙ h)
    ]
  ]

  -- The messages of a stream stand in frames one behind the other.
  pub data Framed : ℕ → List Wire → ℕ → Type 0 where
    done : {cur : ℕ} → Framed cur [] cur
    frame :
        {cur after last : ℕ} {m : Wire} {ms : List Wire}
        → IsFrame cur m after
        → Framed after ms last
        → Framed cur (m ∷ ms) last

  -- The loop ends.
  pub record Stops (cur : ℕ) (r : Option (List Wire × ℕ)) : Type 0 where
    pub messages : List Wire
    pub last : ℕ
    pub returned : r ≡ some (messages, last)
    pub frames : Framed cur messages last
    pub halted : next buf size last ≡ none

  payload_pos : (m : Wire) → 19 ≤ size_of m
  payload_pos m = ground arith

  -- one round, with what the rounds after it do
  Stops-round :
      (fuel cur : ℕ) (r : Option (Wire × ℕ))
      → ((m : Wire) (after : ℕ)
          → next buf size cur ≡ some (m, after)
          → Stops after (parse buf fuel size after))
      → next buf size cur ≡ r
      → Stops cur (parse buf (suc fuel) size cur)
  unfolding parse
  Stops-round fuel cur none more e =
      rw (e, parse)
        (record { messages = []; last = cur; returned = refl; frames = done; halted = e })
  Stops-round fuel cur (some (m, after)) more e =
      let t = more m after e in
      rw (e, t.returned, parse)
        (record {
          messages = m ∷ t.messages;
          last = t.last;
          returned = refl;
          frames = frame (next-IsFrame cur after m e) t.frames;
          halted = t.halted;
        })

  -- From a cursor inside the stream, with more rounds of fuel than bytes left, the loop over `next`
  -- ends. The messages that it gives the sink stand in frames one directly behind the other, each whole
  -- inside the stream with a payload of the size that its prefix announces and its type requires, and
  -- at the cursor where the loop ends `next` returns false.
  pub parse-Stops :
      (fuel cur : ℕ) → cur ≤ size → size < fuel + cur → Stops cur (parse buf fuel size cur)
  parse-Stops zero cur l h = absurd (omega arith)
  parse-Stops (suc fuel) cur l h =
      Stops-round fuel cur (next buf size cur)
        (λ m after e.
          let f = next-IsFrame cur after m e in
          parse-Stops fuel after f.inside (omega (arith, f.payload, payload_pos m)))
        refl
