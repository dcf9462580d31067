-- ===== src/Session/Rebuilt.antt =====
-- The replay of a journal rebuilds the gateway of the live session.
use c_order_book.Prelude.{
  ℕ, zero, suc, ◌+◌, ◌≤◌, ◌<◌, ◌≡◌, ◌∙◌, ap, sym, refl, true, false, Option, none, some, List, [],
  ◌∷◌, length, map, if◌then◌else◌, arith, Option-cases, inl, inr,
}
use mathlib.Core.Path.{subst}
use c_order_book.Prelude.Int.{pos}
use c_order_book.Prelude.Word.{u64_mod}
use c_order_book.Order.{Side, MsgType, Message}
use c_order_book.Itch.{
  Wire, add_order, order_executed, order_cancel, order_delete, next, parse, load_be,
}
use c_order_book.Feed.Bytes.{Holds}
use c_order_book.Feed.Parsed.{
  Event, added, executed, cancelled, deleted, put, Fits, Carries, payload_size, prefix_lem,
  next-put,
}
use c_order_book.Feed.Stream.{put_all, AllFit, AllCarry}
use c_order_book.Journal.{Journal, Mapping, new_journal, journal_open, replay_size}
use c_order_book.Journal.Append.{append_all}
use c_order_book.Journal.Replay.{granted, replayed, journal_round_trip}
use c_order_book.Pipeline.{Gateway, message_of, no_message, gateway_apply, gateway_sink}
use c_order_book.Session.{apply_frame, replay_loop, sunk}

-- the message that an event stands for
abbrev pub event_message : Event → Message
event_message (added ts ref buy shares price) = record {
  type = MsgType.new_order;
  side = if buy then Side.buy else Side.sell;
  price = pos price;
  qty = pos shares;
  id = ref;
}
event_message (executed ts ref shares match_number) = record no_message {
  type = MsgType.execute;
  qty = pos shares;
  id = ref;
}
event_message (cancelled ts ref shares) = record no_message {
  type = MsgType.reduce;
  qty = pos shares;
  id = ref;
}
event_message (deleted ts ref) = record no_message { type = MsgType.cancel; id = ref }

message_of-Carries : (e : Event) (w : Wire) → Carries e w → message_of w ≡ event_message e
message_of-Carries (added ts ref true shares price) (add_order a) c = rw (c.0, c.1, c.2, c.3) refl
message_of-Carries (added ts ref false shares price) (add_order a) c = rw (c.0, c.1, c.2, c.3) refl
message_of-Carries (executed ts ref shares match_number) (order_executed x) c = rw (c.0, c.1) refl
message_of-Carries (cancelled ts ref shares) (order_cancel x) c = rw (c.0, c.1) refl
message_of-Carries (deleted ts ref) (order_delete d) c = rw (c) refl
message_of-Carries (added ts ref buy shares price) (order_executed x) c = absurd c
message_of-Carries (added ts ref buy shares price) (order_cancel x) c = absurd c
message_of-Carries (added ts ref buy shares price) (order_delete x) c = absurd c
message_of-Carries (executed ts ref shares match_number) (add_order x) c = absurd c
message_of-Carries (executed ts ref shares match_number) (order_cancel x) c = absurd c
message_of-Carries (executed ts ref shares match_number) (order_delete x) c = absurd c
message_of-Carries (cancelled ts ref shares) (add_order x) c = absurd c
message_of-Carries (cancelled ts ref shares) (order_executed x) c = absurd c
message_of-Carries (cancelled ts ref shares) (order_delete x) c = absurd c
message_of-Carries (deleted ts ref) (add_order x) c = absurd c
message_of-Carries (deleted ts ref) (order_executed x) c = absurd c
message_of-Carries (deleted ts ref) (order_cancel x) c = absurd c

module _ (num_ticks pool_cap : ℕ) where
  -- The gateway after the messages of a list of events.
  abbrev pub applied : List Event → Gateway → Option Gateway
  applied [] gw = some gw
  applied (e ∷ es) gw = elim (gateway_apply num_ticks pool_cap (event_message e) gw) [
    | none ↦ none
    | some gw2 ↦ applied es gw2
  ]

  -- The engine of the live session over slots that it finds at the front of the arena, in order.
  abbrev pub live : List (ℕ → ℕ) → Gateway → Option Gateway
  live [] gw = some gw
  live (p ∷ ps) gw = elim (apply_frame num_ticks pool_cap p gw) [
    | none ↦ none
    | some gw2 ↦ live ps gw2
  ]

  -- Each slot holds the frame of its event.
  abbrev pub AllLanded : List Event → List (ℕ → ℕ) → Type 0
  AllLanded [] [] = Unit {0}
  AllLanded (e ∷ es) (p ∷ ps) = Holds p 0 (put [] e) × AllLanded es ps
  AllLanded _ _ = ⊥

  same_sink :
      (e : Event) (w : Wire) (gw : Gateway)
      → Carries e w
      → gateway_sink num_ticks pool_cap w gw ≡ gateway_apply num_ticks pool_cap (event_message e) gw
  unfolding gateway_sink
  same_sink e w gw c = ap (λ m. gateway_apply num_ticks pool_cap m gw) (message_of-Carries e w c)

  -- the loop of the replay over a list of wire structs, counting from `n`
  abbrev folded : List Wire → ℕ → Gateway → Option (ℕ × Gateway)
  folded [] n gw = some (n, gw)
  folded (w ∷ ws) n gw = elim (gateway_sink num_ticks pool_cap w gw) [
    | none ↦ none
    | some gw2 ↦ folded ws (n + 1) gw2
  ]

  abbrev first_of : Option (List Wire × ℕ) → List Wire
  first_of none = []
  first_of (some (ws, c)) = ws

  none_parsed :
      (fuel : ℕ) (p : ℕ → ℕ) (size cur : ℕ)
      → next p size cur ≡ none
      → parse p (suc fuel) size cur ≡ some ([], cur)
  unfolding parse
  none_parsed fuel p size cur e = rw (e, parse) refl

  one_parsed :
      (fuel : ℕ) (p : ℕ → ℕ) (size cur c2 : ℕ) (w : Wire) (rest : Option (List Wire × ℕ))
      → next p size cur ≡ some (w, c2)
      → parse p fuel size c2 ≡ rest
      → parse p (suc fuel) size cur ≡ (elim rest as (λ x. Option (List Wire × ℕ)) [
        | none ↦ none
        | some (ws, l) ↦ some (w ∷ ws, l)
      ])
  unfolding parse
  one_parsed fuel p size cur c2 w rest e f = rw (e, parse) (rw (f) refl)

  replay-parse :
      (fuel : ℕ) (ws : List Wire) (p : ℕ → ℕ) (size cur last n : ℕ) (gw : Gateway)
      → parse p fuel size cur ≡ some (ws, last)
      → replay_loop num_ticks pool_cap fuel p size cur n gw ≡ folded ws n gw
  unfolding replay_loop parse
  replay-parse zero ws p size cur last n gw e = absurd (cc (e))
  replay-parse (suc fuel) ws p size cur last n gw e = elim (Option-cases (next p size cur)) [
    | inl q ↦
        let none_left : [] ≡ ws = ap first_of (sym (none_parsed fuel p size cur q) ∙ e) in
        rw (q, replay_loop) (ap (λ x. folded x n gw) none_left)
    | inr (got, q) ↦ elim (Option-cases (parse p fuel size got.1)) [
      | inl r ↦ absurd (cc (one_parsed fuel p size cur got.1 got.0 none q r, e))
      | inr (out, r) ↦
          let whole : (got.0 ∷ out.0) ≡ ws =
            ap first_of (sym (one_parsed fuel p size cur got.1 got.0 (some out) q r) ∙ e) in
          subst (λ x. replay_loop num_ticks pool_cap (suc fuel) p size cur n gw ≡ folded x n gw)
            whole
            (elim (Option-cases (gateway_sink num_ticks pool_cap got.0 gw)) [
              | inl g ↦ rw (q, replay_loop) (rw (g, folded) refl)
              | inr (gw2, g) ↦
                  rw (q, replay_loop)
                    (rw (g, folded) (replay-parse fuel out.0 p size got.1 out.1 (n + 1) gw2 r))
            ])
    ]
  ]

  folded-applied :
      (es : List Event) (ws : List Wire) (n : ℕ) (gw : Gateway)
      → AllCarry es ws
      → folded ws n gw ≡ (elim (applied es gw) as (λ x. Option (ℕ × Gateway)) [
        | none ↦ none
        | some gw2 ↦ some (n + length es, gw2)
      ])
  folded-applied [] [] n gw c = ap (λ x. some (x, gw)) {x = n} {y = n + 0} (omega arith)
  folded-applied [] (w ∷ ws) n gw c = absurd c
  folded-applied (e ∷ es) [] n gw c = absurd c
  folded-applied (e ∷ es) (w ∷ ws) n gw c =
      elim (Option-cases (gateway_apply num_ticks pool_cap (event_message e) gw)) [
        | inl g ↦ rw (same_sink e w gw c.0, folded) (rw (g, applied) refl)
        | inr (gw2, g) ↦
            let total : n + 1 + length es ≡ n + length (e ∷ es) = omega arith in
            rw (same_sink e w gw c.0, folded)
              (rw (g, applied)
                (folded-applied es ws (n + 1) gw2 c.1
                  ∙ ap
                      (λ t. elim (applied es gw2) as (λ x. Option (ℕ × Gateway)) [
                        | none ↦ none
                        | some gw3 ↦ some (t, gw3)
                      ])
                      total))
      ]

  frame_applied :
      (e : Event) (p : ℕ → ℕ) (gw : Gateway)
      → Fits e
      → Holds p 0 (put [] e)
      → apply_frame num_ticks pool_cap p gw ≡ gateway_apply num_ticks pool_cap (event_message e) gw
  unfolding apply_frame
  frame_applied e p gw f h =
      let len : load_be p 2 0 ≡ payload_size e = prefix_lem p 0 0 e h in
      let (w, found, carried) = next-put p (2 + load_be p 2 0) 0 e f h (omega (arith, len)) in
      ap (λ o. sunk num_ticks pool_cap o gw) found ∙ same_sink e w gw carried

  live-applied :
      (es : List Event) (ps : List (ℕ → ℕ)) (gw : Gateway)
      → AllFit es
      → AllLanded es ps
      → live ps gw ≡ applied es gw
  live-applied [] [] gw f h = refl
  live-applied [] (p ∷ ps) gw f h = absurd h
  live-applied (e ∷ es) [] gw f h = absurd h
  live-applied (e ∷ es) (p ∷ ps) gw f h =
      elim (Option-cases (gateway_apply num_ticks pool_cap (event_message e) gw)) [
        | inl g ↦ rw (frame_applied e p gw f.0 h.0, live) (rw (g, applied) refl)
        | inr (gw2, g) ↦
            rw (frame_applied e p gw f.0 h.0, live)
              (rw (g, applied) (live-applied es ps gw2 f.1 h.1))
      ]

  -- The session of a list of events whose values fit their fields, in which the engine has found the
  -- frame of each event in a slot, in order, and the feed thread has appended the frames to a journal
  -- with room for all of them: the replay of the journal's file from the same gateway meets undefined
  -- behaviour of the book exactly where the live engine does, and else counts every event and ends
  -- with the gateway of the live session.
  pub replay_rebuilds :
      (es : List Event) (ps : List (ℕ → ℕ)) (fd cap rfd size : ℕ) (v : Mapping) (gw : Gateway)
      → AllFit es
      → AllLanded es ps
      → length (put_all [] es) ≤ cap
      → cap + cap < u64_mod
      → (j : Journal) × (view : Mapping) × (append_all
            (map (put []) es)
            (journal_open (granted fd v) cap new_journal).1
          ≡ some j)
        × (j.base ≡ some view)
        × ((replayed rfd size view).0 ≡ true)
        × (replay_loop num_ticks pool_cap
              (length es + 1)
              view.bytes
              (replay_size (replayed rfd size view).1)
              0
              0
              gw
            ≡ (elim (live ps gw) as (λ x. Option (ℕ × Gateway)) [
              | none ↦ none
              | some gw2 ↦ some (length es, gw2)
            ]))
  replay_rebuilds es ps fd cap rfd size v gw f h l b =
      let (j, view, written, based, opens, sized, ws, parsed, carried) =
        journal_round_trip es fd cap rfd size v f l b in
      (
        j,
        view,
        written,
        based,
        opens,
        replay-parse (length es + 1) ws view.bytes _ 0 _ 0 gw parsed
            ∙ folded-applied es ws 0 gw carried
            ∙ ap
                (λ n. elim (applied es gw) as (λ x. Option (ℕ × Gateway)) [
                  | none ↦ none
                  | some gw2 ↦ some (n, gw2)
                ])
                {x = 0 + length es} {y = length es} (omega arith)
            ∙ ap
                (λ (o : Option Gateway). elim o as (λ x. Option (ℕ × Gateway)) [
                  | none ↦ none
                  | some gw2 ↦ some (length es, gw2)
                ])
                (sym (live-applied es ps gw f h)),
      )
