-- ===== src/Journal/Replay.antt =====
-- A journal is opened, written and replayed.
use c_order_book.Prelude.{
  ℕ, ◌+◌, ◌≤◌, ◌<◌, ◌≡◌, ◌≢◌, ◌∙◌, ap, sym, refl, Bool, true, false, Option, none, some, List, [],
  ◌∷◌, ◌++◌, map, length, length-append, leb, ◌==◌, ==_iff, Bool-cases, inl, inr, arith,
}
use mathlib.Core.Path.{subst}
use c_order_book.Prelude.Word.{u64_mod}
use c_order_book.Itch.{Wire, parse}
use c_order_book.Feed.Parsed.{Event, put}
use c_order_book.Feed.Stream.{put_all, put_all_append, AllFit, AllCarry, parse_from}
use c_order_book.Journal.{
  Journal, Mapping, OpenCalls, new_journal, journal_open, journal_magic, JournalReplay, ReplayCalls,
  new_replay, replay_open, replay_size,
}
use c_order_book.Journal.Append.{joined, append_all, fitting, overflow, Wrote, append_all-Wrote}

-- the system calls of an `open` that succeeds
abbrev pub granted : ℕ → Mapping → OpenCalls
granted fd v = record { opened = some fd; truncated = true; mapped = some v }

opened-Wrote :
    (fd cap : ℕ) (v : Mapping) → Wrote cap [] 0 (journal_open (granted fd v) cap new_journal).1
unfolding journal_open
opened-Wrote fd cap v = record {
  view = _;
  mapped = refl;
  magic = refl;
  capacity = refl;
  offset = refl;
  watermark = refl;
  held = λ i b. absurd (omega arith);
  dropped = refl;
  room = omega arith;
}

-- An opened journal of `cap` bytes takes any frames of fewer than 2 ^ 64 bytes with the capacity: it
-- holds those that find room, each whole and in order, from the start of its bytes on; the watermark
-- is their length, which is within the capacity, and the count of dropped bytes is the length of the
-- others.
pub session-Wrote :
    (fd cap : ℕ) (v : Mapping) (fs : List (List ℕ))
    → cap + length (joined fs) < u64_mod
    → (j : Journal) × (append_all fs (journal_open (granted fd v) cap new_journal).1 ≡ some j)
      × Wrote cap (joined (fitting cap 0 fs)) (overflow cap 0 fs) j
session-Wrote fd cap v fs b =
    let (j, e, w) = append_all-Wrote cap fs [] 0 _ (opened-Wrote fd cap v) (omega arith) in
    (j, e, subst (λ n. Wrote cap (joined (fitting cap 0 fs)) n j) (omega arith) w)

fitting_all :
    (cap used : ℕ) (fs : List (List ℕ))
    → used + length (joined fs) ≤ cap
    → (fitting cap used fs ≡ fs) × (overflow cap used fs ≡ 0)
fitting_all cap used [] h = (refl, refl)
fitting_all cap used (f ∷ fs) h =
    let fits : leb (used + length f) cap ≡ true = ground (arith, length-append f (joined fs)) in
    let (a, b) =
      fitting_all cap (used + length f) fs (omega (arith, length-append f (joined fs))) in
    (rw (fits) (ap (λ x. f ∷ x) a), rw (fits) b)

joined_frames : (es : List Event) → joined (map (put []) es) ≡ put_all [] es
joined_frames [] = refl
joined_frames (e ∷ es) =
    ap (λ x. put [] e ++ x) (joined_frames es) ∙ sym (put_all_append (put [] e) es)

-- what a replay of a mapped file returns
abbrev pub replayed : ℕ → ℕ → Mapping → Bool × JournalReplay
replayed fd size view =
    replay_open (record { opened = some fd; file_size = some size; mapped = some view }) new_replay

replay_opens :
    (fd size : ℕ) (view : Mapping)
    → view.hdr.magic ≡ journal_magic
    → ((replayed fd size view).0 ≡ true)
      × (replay_size (replayed fd size view).1 ≡ view.hdr.committed)
unfolding replay_open
replay_opens fd size view e = (rw (e) refl, rw (e) refl)

-- The frames of events with values that fit their fields, appended to a new journal with room for all
-- of them, come back: where the reader maps the file that the writer has left, its open succeeds, its
-- size is the length of the frames, and the loop over `next` on its bytes passes on one struct for
-- each event, in order, with its values, up to the watermark.
pub journal_round_trip :
    (es : List Event) (fd cap rfd size : ℕ) (v : Mapping)
    → AllFit es
    → length (put_all [] es) ≤ cap
    → cap + cap < u64_mod
    → (j : Journal) × (view : Mapping) × (append_all
          (map (put []) es)
          (journal_open (granted fd v) cap new_journal).1
        ≡ some j)
      × (j.base ≡ some view)
      × ((replayed rfd size view).0 ≡ true)
      × (replay_size (replayed rfd size view).1 ≡ length (put_all [] es))
      × (ws : List Wire) × (parse view.bytes
            (length es + 1)
            (replay_size (replayed rfd size view).1)
            0
          ≡ some (ws, replay_size (replayed rfd size view).1))
      × AllCarry es ws
journal_round_trip es fd cap rfd size v f l b =
    let frames = joined_frames es in
    let (j, e, w) = session-Wrote fd cap v (map (put []) es) (omega (arith, ap length frames)) in
    let (all, none_lost) = fitting_all cap 0 (map (put []) es) (omega (arith, ap length frames)) in
    let content : joined (fitting cap 0 (map (put []) es)) ≡ put_all [] es =
      ap joined all ∙ frames in
    let w2 = subst (λ x. Wrote cap x (overflow cap 0 (map (put []) es)) j) content w in
    let (opens, sized) = replay_opens rfd size w2.view w2.magic in
    let len = sized ∙ w2.watermark in
    let (ws, parsed, carried) =
      parse_from w2.view.bytes (put_all [] es) [] es (length es + 1) w2.held refl (omega arith) f in
    (
      j,
      w2.view,
      e,
      w2.mapped,
      opens,
      len,
      ws,
      subst (λ n. parse w2.view.bytes (length es + 1) n 0 ≡ some (ws, n)) (sym len) parsed,
      carried,
    )

-- Why an open of a replay fails.
pub data Refused (calls : ReplayCalls) : Type 0 where
  not_opened : calls.opened ≡ none → Refused calls
  not_sized : calls.file_size ≡ none → Refused calls
  not_mapped : calls.mapped ≡ none → Refused calls
  not_journal : (v : Mapping) → calls.mapped ≡ some v → v.hdr.magic ≢ journal_magic → Refused calls

-- The outcomes of an open: the mapped file with its watermark, or a failure with nothing held open.
pub data Opens (calls : ReplayCalls) : Bool × JournalReplay → Type 0 where
  mapped :
      (v : Mapping) (r : JournalReplay)
      → calls.mapped ≡ some v
      → v.hdr.magic ≡ journal_magic
      → r.base ≡ some v
      → r.len ≡ v.hdr.committed
      → Opens calls (true, r)
  failed :
      (r : JournalReplay) → Refused calls → r.base ≡ none → r.fd ≡ none → Opens calls (false, r)

by_calls :
    (o s : Option ℕ) (m : Option Mapping)
    → Opens
        (record { opened = o; file_size = s; mapped = m })
        (replay_open (record { opened = o; file_size = s; mapped = m }) new_replay)
unfolding replay_open
by_calls none s m = failed _ (not_opened refl) refl refl
by_calls (some fd) none m = failed _ (not_sized refl) refl refl
by_calls (some fd) (some s) none = failed _ (not_mapped refl) refl refl
by_calls (some fd) (some s) (some v) = elim (Bool-cases (v.hdr.magic == journal_magic)) [
  | inl e ↦ rw (e) (mapped v _ refl ((==_iff _ _).0 e) refl refl)
  | inr e ↦ rw (e) (failed _ (not_journal v refl (ground (arith, e))) refl refl)
]

-- An open of a new replay succeeds with the mapped file and its watermark, or it fails with neither a
-- mapping nor a descriptor left; it fails only where a system call has failed or the magic number is
-- another one.
pub replay_open-Opens : (calls : ReplayCalls) → Opens calls (replay_open calls new_replay)
replay_open-Opens calls = by_calls calls.opened calls.file_size calls.mapped
