-- ===== src/Pipeline/Serial/Monotonic.antt =====
-- Serials are never repeated, whatever the writes do and whenever the process restarts.
use moadian.Base.{
  Error, Result-cases, refl, ℕ, ◌+◌, ◌≤◌, ◌<◌, ◌≡◌, List, [], ◌∷◌, Result, ok, err,
  configuration_error, foreign_error, arith, inl, inr, ◌⊎◌, dec_lt,
}
use moadian.Taxid.Provider.{max_serial}
use moadian.Pipeline.Serial.{
  File, Outcome, written, lost_before_rename, failed_after_rename, read, write, issue, next_serial,
  current,
}
use moadian.Pipeline.Serial.Numeral.{read-render}

-- What one call does to a file that reads as `last`, by how its write goes.
abbrev pub Expected : Outcome → ℕ → File → Result ℕ × File → Type 0
Expected written last file (r, file') = (r ≡ ok (last + 1)) × (current file' ≡ ok (last + 1))
Expected lost_before_rename last file (r, file') = (r ≡ err foreign_error) × (file' ≡ file)
Expected failed_after_rename last file (r, file') =
    (r ≡ err foreign_error) × (current file' ≡ ok (last + 1))

next_serial_room :
    (o : Outcome) (file : File) (last : ℕ)
    → read file ≡ ok last
    → last < max_serial
    → Expected o last file (next_serial o file)
unfolding next_serial issue write current
next_serial_room written file last h room = rw (h, issue) (ground (arith, read-render (last + 1)))
next_serial_room lost_before_rename file last h room = rw (h, issue) (ground arith)
next_serial_room failed_after_rename file last h room =
    rw (h, issue) (ground (arith, read-render (last + 1)))

next_serial_full :
    (o : Outcome) (file : File) (last : ℕ)
    → read file ≡ ok last
    → max_serial ≤ last
    → next_serial o file ≡ (err configuration_error, file)
unfolding next_serial issue
next_serial_full o file last h full = rw (h, issue) (ground arith)

next_serial-unread :
    (o : Outcome) (file : File) (e : Error) → read file ≡ err e → next_serial o file ≡ (err e, file)
unfolding next_serial issue
next_serial-unread o file e h = rw (h, issue) refl

-- Any call, however its write goes. On a file that reads as `last` it returns the next number and
-- leaves a file that reads as it; where the write fails it raises, and the file is the old one or
-- reads as the next number; from 0xFFFFFFFFFF on it raises and leaves the file. On a file that cannot
-- be read as a number it raises what the reading raises and leaves the file.
pub next_serial_lem :
    (o : Outcome) (file : File)
    → ((last : ℕ) × (read file ≡ ok last)
        × (((last < max_serial) × Expected o last file (next_serial o file))
            ⊎ ((max_serial ≤ last) × (next_serial o file ≡ (err configuration_error, file)))))
      ⊎ ((e : Error) × (read file ≡ err e) × (next_serial o file ≡ (err e, file)))
next_serial_lem o file = elim (Result-cases (read file)) [
  | inr (e, h) ↦ inr (e, h, next_serial-unread o file e h)
  | inl (last, h) ↦ elim (dec_lt last max_serial) [
    | yes room ↦ inl (last, h, inl (room, next_serial_room o file last h room))
    | no full ↦ inl (last, h, inr (omega arith, next_serial_full o file last h (omega arith)))
  ]
]

-- Any number of calls, one after another; a call that raises issues nothing.
abbrev note : Result ℕ → List ℕ → List ℕ
note (ok n) rest = n ∷ rest
note (err e) rest = rest

unfoldable pub issued : List Outcome → File → List ℕ
issued [] file = []
issued (o ∷ os) file = let (r, file') = next_serial o file in note r (issued os file')

-- Each number is above the one before it, and none is above the largest serial.
abbrev pub Ascends : ℕ → List ℕ → Type 0
Ascends last [] = Unit {0}
Ascends last (n ∷ ns) = (last < n) × (n ≤ max_serial) × Ascends n ns

Ascends-weaken : (a b : ℕ) (ns : List ℕ) → a ≤ b → Ascends b ns → Ascends a ns
Ascends-weaken a b [] h k = tt
Ascends-weaken a b (n ∷ ns) h k = (omega arith, k.1, k.2)

-- One call, and what is issued after it.
Ascends-step :
    (o : Outcome) (os : List Outcome) (file : File) (last : ℕ)
    → read file ≡ ok last
    → ((file' : File) (l : ℕ) → read file' ≡ ok l → Ascends l (issued os file'))
    → last < max_serial
    → Expected o last file (next_serial o file)
    → Ascends last (note (next_serial o file).0 (issued os (next_serial o file).1))
unfolding current
Ascends-step written os file last h ih room (r, kept) =
    rw r (omega arith, omega arith, ih (next_serial written file).1 (last + 1) kept)
Ascends-step lost_before_rename os file last h ih room (r, same) = rw (r, same) (ih file last h)
Ascends-step failed_after_rename os file last h ih room (r, kept) = rw r (
    Ascends-weaken last (last + 1) (issued os (next_serial failed_after_rename file).1)
      (omega arith) (ih (next_serial failed_after_rename file).1 (last + 1) kept))

-- From a file that reads as `last`, any sequence of calls, whatever their writes do, issues serials
-- that rise strictly above `last` and stay in range: none is issued twice.
pub issued-Ascends :
    (os : List Outcome) (file : File) (last : ℕ)
    → read file ≡ ok last
    → Ascends last (issued os file)
unfolding issued
issued-Ascends [] file last h = tt
issued-Ascends (o ∷ os) file last h = elim (dec_lt last max_serial) [
  | yes room ↦
      Ascends-step o os file last h (issued-Ascends os) room (next_serial_room o file last h room)
  | no full ↦ rw (next_serial_full o file last h (omega arith)) (issued-Ascends os file last h)
]
