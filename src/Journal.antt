-- ===== src/Journal.antt =====
-- include/lob/journal.hpp: the append-only journal of the wire's frames and its replay, on a POSIX
-- system. The results of the system calls are arguments. A mapped file is its header and the bytes
-- behind the header page; a file descriptor is `none` where it is negative.
pub mod Append
pub mod Replay
use c_order_book.Prelude.{
  ℕ, zero, suc, ◌+◌, ◌-◌, ◌%◌, Bool, true, false, Option, none, some, List, [], ◌∷◌, ◌&&◌, not, ltb,
  leb, ◌==◌, if◌then◌else◌,
}
use c_order_book.Prelude.Word.{add64}

abbrev pub journal_magic : ℕ
journal_magic = 0x314C4E524A424F4C

abbrev pub journal_hdr : ℕ
journal_hdr = 4096

pub record JournalHeader : Type 0 where
  pub magic : ℕ
  pub capacity : ℕ
  pub committed : ℕ
  pub dropped : ℕ

-- what `base_` points to: the header, and the bytes from `JOURNAL_HDR` on
pub record Mapping : Type 0 where
  pub hdr : JournalHeader
  pub bytes : ℕ → ℕ

-- `base_`, `data_` and `hdr_` are null together.
pub record Journal : Type 0 where
  pub base : Option Mapping
  pub total : ℕ
  pub cap : ℕ
  pub off : ℕ
  pub fd : Option ℕ

abbrev pub new_journal : Journal
new_journal = record { base = none; total = 0; cap = 0; off = 0; fd = none }

-- What `::open`, `ftruncate` and `mmap` return; `none` is a failure.
pub record OpenCalls : Type 0 where
  pub opened : Option ℕ
  pub truncated : Bool
  pub mapped : Option Mapping

-- `munmap` where the file is mapped, and `::close` where it is open
unfoldable pub journal_close : Journal → Journal
journal_close j = record j { base = none; fd = none }

-- The loop that writes a zero byte to every page; the header page's is overwritten.
abbrev pub pre_touch : (total : ℕ) → (ℕ → ℕ) → ℕ → ℕ
pre_touch total bytes i = if i % 4096 == 0 && ltb (journal_hdr + i) total then 0 else bytes i

abbrev pub ready : (total data_capacity : ℕ) → Mapping → Journal → Journal
ready total data_capacity v j = record j {
  base = some (record {
    hdr = record { magic = journal_magic; capacity = data_capacity; committed = 0; dropped = 0 };
    bytes = pre_touch total v.bytes;
  });
  total = total;
  cap = data_capacity;
  off = 0;
}

-- `Journal::open`, after `::open` has returned
abbrev pub sized_and_mapped : OpenCalls → ℕ → Journal → Bool × Journal
sized_and_mapped calls data_capacity j =
    if calls.truncated
    then (elim calls.mapped [
      | none ↦ (false, journal_close j)
      | some v ↦ (true, ready (add64 journal_hdr data_capacity) data_capacity v j)
    ])
    else (false, journal_close j)

unfoldable pub journal_open : OpenCalls → (data_capacity : ℕ) → Journal → Bool × Journal
unfolding journal_close
journal_open calls data_capacity j =
    let j2 = record j { fd = calls.opened } in
    elim calls.opened [ none ↦ (false, j2) | some _ ↦ sized_and_mapped calls data_capacity j2 ]

-- `memcpy(data_ + off_, p, n)`
abbrev pub copied : (bytes : ℕ → ℕ) → (off : ℕ) → (p : ℕ → ℕ) → (n : ℕ) → ℕ → ℕ
copied bytes off p n i = if leb off i && ltb i (off + n) then p (i - off) else bytes i

-- `none` is an append to a journal that is not open, which writes through a null pointer.
unfoldable pub append : (p : ℕ → ℕ) → (n : ℕ) → Journal → Option Journal
append p n j = elim j.base [
  | none ↦ none
  | some v ↦
      let refused = record j {
        base = some (record v { hdr = record (v.hdr) { dropped = add64 v.hdr.dropped n } });
      } in
      let stored = record j {
        base = some (record {
          hdr = record (v.hdr) { committed = add64 j.off n };
          bytes = copied v.bytes j.off p n;
        });
        off = add64 j.off n;
      } in
      some (if ltb j.cap (add64 j.off n) then refused else stored)
]

abbrev pub committed : Journal → ℕ
committed j = j.off

abbrev pub dropped : Journal → ℕ
dropped j = elim j.base [ none ↦ 0 | some v ↦ v.hdr.dropped ]

-- The reader.
pub record JournalReplay : Type 0 where
  pub base : Option Mapping
  pub len : ℕ
  pub fd : Option ℕ
  pub total : ℕ

abbrev pub new_replay : JournalReplay
new_replay = record { base = none; len = 0; fd = none; total = 0 }

-- What `::open`, `fstat` and `mmap` return.
pub record ReplayCalls : Type 0 where
  pub opened : Option ℕ
  pub file_size : Option ℕ
  pub mapped : Option Mapping

unfoldable pub replay_close : JournalReplay → JournalReplay
replay_close r = record r { base = none; fd = none }

-- the checks once the file is mapped
abbrev pub accepted : Mapping → JournalReplay → Bool × JournalReplay
accepted v r =
    if v.hdr.magic == journal_magic
    then (true, record r { base = some v; len = v.hdr.committed })
    else (false, replay_close (record r { base = some v }))

abbrev pub mapped_replay : ReplayCalls → JournalReplay → Bool × JournalReplay
mapped_replay calls r = elim calls.file_size [
  | none ↦ (false, replay_close r)
  | some size ↦ elim calls.mapped [
    | none ↦ (false, replay_close (record r { total = size }))
    | some v ↦ accepted v (record r { total = size })
  ]
]

unfoldable pub replay_open : ReplayCalls → JournalReplay → Bool × JournalReplay
unfolding replay_close
replay_open calls r =
    let r2 = record r { fd = calls.opened } in
    elim calls.opened [ none ↦ (false, r2) | some _ ↦ mapped_replay calls r2 ]

-- `data()`; `none` is a replay that is not open
abbrev pub replay_data : JournalReplay → Option (ℕ → ℕ)
replay_data r = elim r.base [ none ↦ none | some v ↦ some v.bytes ]

abbrev pub replay_size : JournalReplay → ℕ
replay_size r = r.len
