-- ===== src/Feed/Parsed.antt =====
-- The parser reads back the frames that the generator writes.
use c_order_book.Prelude.{
  ℕ, ◌+◌, ◌^◌, ◌≤◌, ◌<◌, ◌≡◌, ◌∙◌, ap, refl, Bool, true, false, some, List, [], arith,
  if◌then◌else◌, ltb,
}
use c_order_book.Itch.{
  Wire, add_order, order_executed, order_cancel, order_delete, as_add, as_executed, as_cancel,
  as_delete, load_be, decode, next,
}
use c_order_book.Feed.{put_be, put_header, put_add, put_executed, put_cancel, put_delete}
use c_order_book.Feed.Bytes.{
  Holds, Holds-payload, payload, AllBytes, AllBytes-payload, load_be-Holds, digits4, digits8,
}

-- The fields that a sink reads, for each of the four frames.
pub data Event : Type 0 where
  added : (ts ref : ℕ) → Bool → (shares price : ℕ) → Event
  executed : (ts ref shares match_number : ℕ) → Event
  cancelled : (ts ref shares : ℕ) → Event
  deleted : (ts ref : ℕ) → Event

abbrev pub put : List ℕ → Event → List ℕ
put b (added ts ref buy shares price) = put_add b ts ref buy shares price
put b (executed ts ref shares match_number) = put_executed b ts ref shares match_number
put b (cancelled ts ref shares) = put_cancel b ts ref shares
put b (deleted ts ref) = put_delete b ts ref

-- An overlaid wire struct carries the values of an event.
abbrev pub Carries : Event → Wire → Type 0
Carries (added ts ref buy shares price) (add_order a) =
    (a.order_ref ≡ ref)
    × (a.side ≡ (if buy then 66 else 83))
    × (a.shares ≡ shares)
    × (a.price ≡ price)
Carries (executed ts ref shares match_number) (order_executed e) =
    (e.order_ref ≡ ref) × (e.executed_shares ≡ shares) × (e.match_number ≡ match_number)
Carries (cancelled ts ref shares) (order_cancel x) =
    (x.order_ref ≡ ref) × (x.canceled_shares ≡ shares)
Carries (deleted ts ref) (order_delete d) = d.order_ref ≡ ref
Carries _ _ = ⊥

abbrev pub Fits : Event → Type 0
Fits (added ts ref buy shares price) = (ref < 2 ^ 64) × (shares < 2 ^ 32) × (price < 2 ^ 32)
Fits (executed ts ref shares match_number) =
    (ref < 2 ^ 64) × (shares < 2 ^ 32) × (match_number < 2 ^ 64)
Fits (cancelled ts ref shares) = (ref < 2 ^ 64) × (shares < 2 ^ 32)
Fits (deleted ts ref) = ref < 2 ^ 64

module _ (m : ℕ → ℕ) (p : ℕ) where
  added_lem :
      (ts ref : ℕ) (buy : Bool) (shares price : ℕ)
      → Fits (added ts ref buy shares price)
      → Holds m p (payload (put_add [] ts ref buy shares price))
      → AllBytes (payload (put_add [] ts ref buy shares price))
      → Carries (added ts ref buy shares price) (add_order (as_add m p))
  unfolding put_add put_header put_be
  added_lem ts ref buy shares price f h a = (
    load_be-Holds m p (payload (put_add [] ts ref buy shares price)) 8 11 h a (omega arith)
        ∙ digits8 ref f.0,
    h 19 (omega arith),
    load_be-Holds m p (payload (put_add [] ts ref buy shares price)) 4 20 h a (omega arith)
        ∙ digits4 shares f.1,
    load_be-Holds m p (payload (put_add [] ts ref buy shares price)) 4 32 h a (omega arith)
        ∙ digits4 price f.2,
  )

  executed_lem :
      (ts ref shares match_number : ℕ)
      → Fits (executed ts ref shares match_number)
      → Holds m p (payload (put_executed [] ts ref shares match_number))
      → AllBytes (payload (put_executed [] ts ref shares match_number))
      → Carries (executed ts ref shares match_number) (order_executed (as_executed m p))
  unfolding put_executed put_header put_be
  executed_lem ts ref shares match_number f h a = (
    load_be-Holds m p (payload (put_executed [] ts ref shares match_number)) 8 11 h a (omega arith)
        ∙ digits8 ref f.0,
    load_be-Holds m p (payload (put_executed [] ts ref shares match_number)) 4 19 h a (omega arith)
        ∙ digits4 shares f.1,
    load_be-Holds m p (payload (put_executed [] ts ref shares match_number)) 8 23 h a (omega arith)
        ∙ digits8 match_number f.2,
  )

  cancelled_lem :
      (ts ref shares : ℕ)
      → Fits (cancelled ts ref shares)
      → Holds m p (payload (put_cancel [] ts ref shares))
      → AllBytes (payload (put_cancel [] ts ref shares))
      → Carries (cancelled ts ref shares) (order_cancel (as_cancel m p))
  unfolding put_cancel put_header put_be
  cancelled_lem ts ref shares f h a = (
    load_be-Holds m p (payload (put_cancel [] ts ref shares)) 8 11 h a (omega arith)
        ∙ digits8 ref f.0,
    load_be-Holds m p (payload (put_cancel [] ts ref shares)) 4 19 h a (omega arith)
        ∙ digits4 shares f.1,
  )

  deleted_lem :
      (ts ref : ℕ)
      → Fits (deleted ts ref)
      → Holds m p (payload (put_delete [] ts ref))
      → AllBytes (payload (put_delete [] ts ref))
      → Carries (deleted ts ref) (order_delete (as_delete m p))
  unfolding put_delete put_header put_be
  deleted_lem ts ref f h a =
      load_be-Holds m p (payload (put_delete [] ts ref)) 8 11 h a (omega arith) ∙ digits8 ref f

pub put-AllBytes : (e : Event) → AllBytes (put [] e)
unfolding put_add put_executed put_cancel put_delete put_header put_be
put-AllBytes (added ts ref true shares price) = omega arith
put-AllBytes (added ts ref false shares price) = omega arith
put-AllBytes (executed ts ref shares match_number) = omega arith
put-AllBytes (cancelled ts ref shares) = omega arith
put-AllBytes (deleted ts ref) = omega arith

-- the length of an event's payload
abbrev pub payload_size : Event → ℕ
payload_size (added ts ref buy shares price) = 36
payload_size (executed ts ref shares match_number) = 31
payload_size (cancelled ts ref shares) = 23
payload_size (deleted ts ref) = 19

module _ (m : ℕ → ℕ) (size c : ℕ) where
  next_found :
      (len : ℕ) (w : Wire)
      → load_be m 2 c ≡ len
      → decode m len (c + 2) ≡ some w
      → c + 2 + len ≤ size
      → next m size c ≡ some (w, c + 2 + len)
  unfolding next
  next_found len w e d l =
      let a : ltb size (c + 2) ≡ false = ground arith in
      let b : ltb size (c + 2 + len) ≡ false = ground arith in rw (e, a, b, d) refl

  -- the wire struct that the parser overlays on an event's frame
  abbrev overlaid : Event → Wire
  overlaid (added ts ref buy shares price) = add_order (as_add m (c + 2))
  overlaid (executed ts ref shares match_number) = order_executed (as_executed m (c + 2))
  overlaid (cancelled ts ref shares) = order_cancel (as_cancel m (c + 2))
  overlaid (deleted ts ref) = order_delete (as_delete m (c + 2))

  decode_lem :
      (e : Event) → Holds m c (put [] e) → decode m (payload_size e) (c + 2) ≡ some (overlaid e)
  unfolding decode put_add put_executed put_cancel put_delete put_header put_be
  decode_lem (added ts ref buy shares price) h = rw (h 2 (omega arith)) refl
  decode_lem (executed ts ref shares match_number) h = rw (h 2 (omega arith)) refl
  decode_lem (cancelled ts ref shares) h = rw (h 2 (omega arith)) refl
  decode_lem (deleted ts ref) h = rw (h 2 (omega arith)) refl

  pub prefix_lem : (e : Event) → Holds m c (put [] e) → load_be m 2 (c + 0) ≡ payload_size e
  unfolding put_add put_executed put_cancel put_delete put_header put_be
  prefix_lem (added ts ref buy shares price) h =
      load_be-Holds m c (put [] (added ts ref buy shares price)) 2 0 h
        (put-AllBytes (added ts ref buy shares price)) (omega arith)
  prefix_lem (executed ts ref shares match_number) h =
      load_be-Holds m c (put [] (executed ts ref shares match_number)) 2 0 h
        (put-AllBytes (executed ts ref shares match_number)) (omega arith)
  prefix_lem (cancelled ts ref shares) h =
      load_be-Holds m c (put [] (cancelled ts ref shares)) 2 0 h
        (put-AllBytes (cancelled ts ref shares)) (omega arith)
  prefix_lem (deleted ts ref) h =
      load_be-Holds m c (put [] (deleted ts ref)) 2 0 h (put-AllBytes (deleted ts ref))
        (omega arith)

  carried : (e : Event) → Fits e → Holds m c (put [] e) → Carries e (overlaid e)
  unfolding put_add put_executed put_cancel put_delete put_header put_be
  carried (added ts ref buy shares price) f h =
      added_lem m (c + 2) ts ref buy shares price f
        (Holds-payload m c (put [] (added ts ref buy shares price)) h)
        (AllBytes-payload (put [] (added ts ref buy shares price))
          (put-AllBytes (added ts ref buy shares price)))
  carried (executed ts ref shares match_number) f h =
      executed_lem m (c + 2) ts ref shares match_number f
        (Holds-payload m c (put [] (executed ts ref shares match_number)) h)
        (AllBytes-payload (put [] (executed ts ref shares match_number))
          (put-AllBytes (executed ts ref shares match_number)))
  carried (cancelled ts ref shares) f h =
      cancelled_lem m (c + 2) ts ref shares f
        (Holds-payload m c (put [] (cancelled ts ref shares)) h)
        (AllBytes-payload (put [] (cancelled ts ref shares))
          (put-AllBytes (cancelled ts ref shares)))
  carried (deleted ts ref) f h =
      deleted_lem m (c + 2) ts ref f (Holds-payload m c (put [] (deleted ts ref)) h)
        (AllBytes-payload (put [] (deleted ts ref)) (put-AllBytes (deleted ts ref)))

  -- Where a stream holds the frame of an event, `next` calls the sink with a struct that carries the
  -- event's values, and moves to the end of the frame.
  pub next-put :
      (e : Event)
      → Fits e
      → Holds m c (put [] e)
      → c + 2 + payload_size e ≤ size
      → (w : Wire) × (next m size c ≡ some (w, c + 2 + payload_size e)) × Carries e w
  next-put e f h l =
      let start : c ≡ c + 0 = omega arith in
      (
        overlaid e,
        next_found (payload_size e) (overlaid e) (ap (load_be m 2) start ∙ prefix_lem e h)
            (decode_lem e h) l,
        carried e f h,
      )
