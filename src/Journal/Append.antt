-- ===== src/Journal/Append.antt =====
-- What a journal holds after a session of frames.
use c_order_book.Prelude.{
  ℕ, ◌+◌, ◌-◌, ◌≤◌, ◌<◌, ◌≡◌, ◌∙◌, ap, sym, refl, true, false, Option, none, some, List, [], ◌∷◌,
  ◌++◌, length, length-append, ltb, leb, Bool-cases, inl, inr, if◌then◌else◌, arith,
}
use mathlib.Core.Path.{subst}
use mathlib.Core.List.{append-nil, append_assoc}
use c_order_book.Prelude.Word.{u64_mod, add64, add64-eq}
use c_order_book.Feed.Bytes.{memory, Holds, memory-append, memory-append_left}
use c_order_book.Journal.{Journal, Mapping, journal_magic, append, copied}

abbrev pub joined : List (List ℕ) → List ℕ
joined [] = []
joined (f ∷ fs) = f ++ joined fs

-- The frames, appended one by one.
abbrev pub append_all : List (List ℕ) → Journal → Option Journal
append_all [] j = some j
append_all (f ∷ fs) j = elim (append (memory f) (length f) j) [
  | none ↦ none
  | some j2 ↦ append_all fs j2
]

-- The frames that find room behind `used` bytes, each whole or not at all.
abbrev pub fitting : (cap used : ℕ) → List (List ℕ) → List (List ℕ)
fitting cap used [] = []
fitting cap used (f ∷ fs) =
    if leb (used + length f) cap
    then (f ∷ fitting cap (used + length f) fs)
    else fitting cap used fs

-- The bytes of the frames that find none.
abbrev pub overflow : (cap used : ℕ) → List (List ℕ) → ℕ
overflow cap used [] = 0
overflow cap used (f ∷ fs) =
    if leb (used + length f) cap
    then overflow cap (used + length f) fs
    else length f + overflow cap used fs

-- An open journal of `cap` bytes that holds `l`, with `lost` bytes dropped.
pub record Wrote (cap : ℕ) (l : List ℕ) (lost : ℕ) (j : Journal) : Type 0 where
  pub view : Mapping
  pub mapped : j.base ≡ some view
  pub magic : view.hdr.magic ≡ journal_magic
  pub capacity : j.cap ≡ cap
  pub offset : j.off ≡ length l
  pub watermark : view.hdr.committed ≡ length l
  pub held : Holds view.bytes 0 l
  pub dropped : view.hdr.dropped ≡ lost
  pub room : length l ≤ cap

copied-inside :
    (bytes : ℕ → ℕ) (off : ℕ) (p : ℕ → ℕ) (n i : ℕ)
    → off ≤ i
    → i < off + n
    → copied bytes off p n i ≡ p (i - off)
copied-inside bytes off p n i a b = ground arith

copied-outside :
    (bytes : ℕ → ℕ) (off : ℕ) (p : ℕ → ℕ) (n i : ℕ) → i < off → copied bytes off p n i ≡ bytes i
copied-outside bytes off p n i a = ground arith

copied-Holds :
    (bytes : ℕ → ℕ) (l f : List ℕ)
    → Holds bytes 0 l
    → Holds (copied bytes (length l) (memory f) (length f)) 0 (l ++ f)
copied-Holds bytes l f h i b =
    let here : 0 + i ≡ i = omega arith in
    ap (copied bytes (length l) (memory f) (length f)) here ∙ elim (Bool-cases (leb (length l) i)) [
      | inl e ↦
          let split : length l + (i - length l) ≡ i = ground (arith, e) in
          copied-inside bytes (length l) (memory f) (length f) i (ground (arith, e))
            (omega (arith, length-append l f))
          ∙ sym (memory-append l f (i - length l))
          ∙ ap (memory (l ++ f)) split
      | inr e ↦
          let before : i < length l = ground (arith, e) in
          copied-outside bytes (length l) (memory f) (length f) i before
          ∙ ap bytes (sym here)
          ∙ h i before
          ∙ sym (memory-append_left l f i before)
    ]

-- One append.
append-Wrote :
    (cap : ℕ) (l f : List ℕ) (lost : ℕ) (j : Journal)
    → Wrote cap l lost j
    → cap + length f < u64_mod
    → lost + length f < u64_mod
    → (j2 : Journal) × (append (memory f) (length f) j ≡ some j2)
      × (if leb (length l + length f) cap
          then Wrote cap (l ++ f) lost j2
          else Wrote cap l (lost + length f) j2)
unfolding append
append-Wrote cap l f lost j w b c =
    let sum : add64 j.off (length f) ≡ length l + length f =
      add64-eq j.off (length f) (omega (arith, w.offset, w.room))
      ∙ ap (λ x. x + length f) w.offset in
    elim (Bool-cases (leb (length l + length f) cap)) [
      | inl e ↦
          let fits : ltb j.cap (add64 j.off (length f)) ≡ false =
            ground (arith, e, sum, w.capacity) in
          (
            record j {
              base = some (record {
                hdr = record (w.view.hdr) { committed = add64 j.off (length f) };
                bytes = copied w.view.bytes j.off (memory f) (length f);
              });
              off = add64 j.off (length f);
            },
            rw (w.mapped, fits) refl,
            rw (e) (record {
              view = record {
                hdr = record (w.view.hdr) { committed = add64 j.off (length f) };
                bytes = copied w.view.bytes j.off (memory f) (length f);
              };
              mapped = refl;
              magic = w.magic;
              capacity = w.capacity;
              offset = sum ∙ sym (length-append l f);
              watermark = sum ∙ sym (length-append l f);
              held =
                  subst (λ x. Holds (copied w.view.bytes x (memory f) (length f)) 0 (l ++ f))
                    (sym w.offset) (copied-Holds w.view.bytes l f w.held);
              dropped = w.dropped;
              room = ground (arith, e, length-append l f);
            }),
          )
      | inr e ↦
          let full : ltb j.cap (add64 j.off (length f)) ≡ true =
            ground (arith, e, sum, w.capacity) in
          let lost_sum : add64 w.view.hdr.dropped (length f) ≡ lost + length f =
            add64-eq _ _ (omega (arith, w.dropped)) ∙ ap (λ x. x + length f) w.dropped in
          (
            record j {
              base = some (record (w.view) {
                hdr = record (w.view.hdr) { dropped = add64 w.view.hdr.dropped (length f) };
              });
            },
            rw (w.mapped, full) refl,
            rw (e) (record {
              view = record (w.view) {
                hdr = record (w.view.hdr) { dropped = add64 w.view.hdr.dropped (length f) };
              };
              mapped = refl;
              magic = w.magic;
              capacity = w.capacity;
              offset = w.offset;
              watermark = w.watermark;
              held = w.held;
              dropped = lost_sum;
              room = w.room;
            }),
          )
    ]

after_append :
    (f : List ℕ) (fs : List (List ℕ)) (j j2 : Journal)
    → append (memory f) (length f) j ≡ some j2
    → append_all (f ∷ fs) j ≡ append_all fs j2
after_append f fs j j2 e =
    ap
      (λ (o : Option Journal). elim o as (λ x. Option Journal) [
        | none ↦ none
        | some x ↦ append_all fs x
      ])
      e

-- A session of frames that starts behind `l`, in fewer than 2 ^ 64 bytes in all.
pub append_all-Wrote :
    (cap : ℕ) (fs : List (List ℕ)) (l : List ℕ) (lost : ℕ) (j : Journal)
    → Wrote cap l lost j
    → cap + lost + length (joined fs) < u64_mod
    → (j2 : Journal) × (append_all fs j ≡ some j2)
      × Wrote cap (l ++ joined (fitting cap (length l) fs)) (lost + overflow cap (length l) fs) j2
append_all-Wrote cap [] l lost j w b = (
  j,
  refl,
  subst (λ x. Wrote cap x (lost + 0) j) (sym (append-nil l))
      (subst (λ x. Wrote cap l x j) {x = lost} {y = lost + 0} (omega arith) w),
)
append_all-Wrote cap (f ∷ fs) l lost j w b =
    let (j2, e, w2) =
      append-Wrote cap l f lost j w (omega (arith, length-append f (joined fs)))
        (omega (arith, length-append f (joined fs))) in
    elim (Bool-cases (leb (length l + length f) cap)) [
      | inl y ↦
          let w3 : Wrote cap (l ++ f) lost j2 = rw (y) at w2 in
          let (j3, e3, w4) =
            append_all-Wrote cap fs (l ++ f) lost j2 w3
              (omega (arith, length-append f (joined fs))) in
          (
            j3,
            after_append f fs j j2 e ∙ e3,
            rw (y) (
                subst (λ x. Wrote cap x (lost + overflow cap (length l + length f) fs) j3)
                  (append_assoc l f (joined (fitting cap (length l + length f) fs)))
                  (subst
                    (λ n.
                      Wrote cap ((l ++ f) ++ joined (fitting cap n fs)) (lost + overflow cap n fs)
                        j3)
                    (length-append l f) w4)),
          )
      | inr y ↦
          let w3 : Wrote cap l (lost + length f) j2 = rw (y) at w2 in
          let (j3, e3, w4) =
            append_all-Wrote cap fs l (lost + length f) j2 w3
              (omega (arith, length-append f (joined fs))) in
          (
            j3,
            after_append f fs j j2 e ∙ e3,
            rw (y) (
                subst (λ n. Wrote cap (l ++ joined (fitting cap (length l) fs)) n j3)
                  {x = lost + length f + overflow cap (length l) fs}
                  {y = lost + (length f + overflow cap (length l) fs)} (omega arith) w4),
          )
    ]
