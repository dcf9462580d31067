-- ===== src/Tests/SessionRuns.antt =====
-- A session of two messages and its replay, over a ladder of 64 ticks from 1000.
use c_order_book.Prelude.{ℕ, ◌≡◌, ap, true, Option, none, some, List, [], ◌∷◌, map, arith}
use c_order_book.Prelude.Int.{pos}
use c_order_book.Feed.{put_add, put_delete}
use c_order_book.Feed.Bytes.{memory, Holds}
use c_order_book.Feed.Parsed.{Event, added, deleted, put}
use c_order_book.Journal.{Journal, Mapping, new_journal, journal_open, replay_size}
use c_order_book.Journal.Append.{append_all}
use c_order_book.Journal.Replay.{granted, replayed}
use c_order_book.Pipeline.{Gateway, new_gateway}
use c_order_book.Session.{replay_loop}
use c_order_book.Session.Rebuilt.{live, replay_rebuilds}

abbrev blank : Mapping
blank = record {
  hdr = record { magic = 0; capacity = 0; committed = 0; dropped = 0 };
  bytes = λ _. 0;
}

abbrev events : List Event
events = added 34_200_000_000_000 1 true 10 1003 ∷ deleted 34_200_000_001_700 1 ∷ []

abbrev slots : List (ℕ → ℕ)
slots =
    memory (put [] (added 34_200_000_000_000 1 true 10 1003))
    ∷ memory (put [] (deleted 34_200_000_001_700 1))
    ∷ []

abbrev gateway : Gateway
gateway = new_gateway 64 4 (pos 1000) 1

landed : (l : List ℕ) → Holds (memory l) 0 l
landed l i h = ap (memory l) (omega arith)

replay_rebuilds_example :
    (j : Journal) × (view : Mapping) × (append_all
        (map (put []) events)
        (journal_open (granted 3 blank) 200 new_journal).1
      ≡ some j)
    × (j.base ≡ some view)
    × ((replayed 4 4296 view).0 ≡ true)
    × (replay_loop 64 4 3 view.bytes (replay_size (replayed 4 4296 view).1) 0 0 gateway
        ≡ (elim (live 64 4 slots gateway) as (λ x. Option (ℕ × Gateway)) [
          | none ↦ none
          | some gw2 ↦ some (2, gw2)
        ]))
unfolding put_add put_delete
replay_rebuilds_example =
    replay_rebuilds 64 4 events slots 3 200 4 4296 blank gateway (omega arith)
      (
        landed (put [] (added 34_200_000_000_000 1 true 10 1003)),
        (landed (put [] (deleted 34_200_000_001_700 1)), tt),
      )
      (omega arith) (omega arith)
