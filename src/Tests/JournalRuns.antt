-- ===== src/Tests/JournalRuns.antt =====
-- A journal of 200 bytes, and the replay of a session of two messages.
use c_order_book.Prelude.{ℕ, ◌≡◌, true, some, List, [], ◌∷◌, length, map, arith}
use c_order_book.Itch.{Wire, parse}
use c_order_book.Feed.{put_add, put_delete}
use c_order_book.Feed.Parsed.{Event, added, deleted, put}
use c_order_book.Feed.Stream.{put_all, AllCarry}
use c_order_book.Journal.{
  Journal, Mapping, ReplayCalls, new_journal, journal_open, new_replay, replay_open, replay_size,
}
use c_order_book.Journal.Append.{joined, append_all, fitting, overflow, Wrote}
use c_order_book.Journal.Replay.{
  granted, replayed, journal_round_trip, session-Wrote, Opens, replay_open-Opens,
}

abbrev blank : Mapping
blank = record {
  hdr = record { magic = 0; capacity = 0; committed = 0; dropped = 0 };
  bytes = λ _. 0;
}

abbrev session : List Event
session = added 34_200_000_000_000 1 true 10 1_032_760 ∷ deleted 34_200_000_001_700 1 ∷ []

journal_round_trip_example :
    (j : Journal) × (view : Mapping) × (append_all
        (map (put []) session)
        (journal_open (granted 3 blank) 200 new_journal).1
      ≡ some j)
    × (j.base ≡ some view)
    × ((replayed 4 4296 view).0 ≡ true)
    × (replay_size (replayed 4 4296 view).1 ≡ length (put_all [] session))
    × (ws : List Wire) × (parse view.bytes 3 (replay_size (replayed 4 4296 view).1) 0
        ≡ some (ws, replay_size (replayed 4 4296 view).1))
    × AllCarry session ws
unfolding put_add put_delete
journal_round_trip_example =
    journal_round_trip session 3 200 4 4296 blank (omega arith) (omega arith) (omega arith)

-- two frames, of which the second finds no room
abbrev frames : List (List ℕ)
frames = (1 ∷ 2 ∷ []) ∷ (3 ∷ 4 ∷ 5 ∷ []) ∷ (6 ∷ []) ∷ []

session-Wrote_example :
    (j : Journal) × (append_all frames (journal_open (granted 3 blank) 4 new_journal).1 ≡ some j)
    × Wrote 4 (joined (fitting 4 0 frames)) (overflow 4 0 frames) j
session-Wrote_example = session-Wrote 3 4 blank frames (omega arith)

abbrev wrong_magic : ReplayCalls
wrong_magic = record { opened = some 4; file_size = some 4096; mapped = some blank }

replay_open-Opens_example : Opens wrong_magic (replay_open wrong_magic new_replay)
replay_open-Opens_example = replay_open-Opens wrong_magic
