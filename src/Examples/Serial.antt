-- ===== src/Examples/Serial.antt =====
-- The theorems on the serial counter at concrete inputs.
use moadian.Base.{ℕ, Error, ◌≡◌, ◌≤◌, ◌<◌, refl, ◌⊎◌, [], ◌∷◌, codes, ok, err, configuration_error}
use moadian.Taxid.Provider.{max_serial}
use moadian.Pipeline.Serial.{
  File, holds, Outcome, written, lost_before_rename, failed_after_rename, read, next_serial,
}
use moadian.Pipeline.Serial.Monotonic.{issued, Ascends, Expected, next_serial_lem, issued-Ascends}

-- The value file after seven invoices.
abbrev seven : File
seven = holds (codes "7\n")

reads : read seven ≡ ok 7
unfolding read moadian.Pipeline.Serial.parse_int moadian.Pipeline.Serial.digits_value
reads = refl

next_serial_lem_example :
    ((last : ℕ) × (read seven ≡ ok last)
      × (((last < max_serial)
            × Expected lost_before_rename last seven (next_serial lost_before_rename seven))
          ⊎ ((max_serial ≤ last)
              × (next_serial lost_before_rename seven ≡ (err configuration_error, seven)))))
    ⊎ ((e : Error) × (read seven ≡ err e) × (next_serial lost_before_rename seven ≡ (err e, seven)))
next_serial_lem_example = next_serial_lem lost_before_rename seven

issued-Ascends_example :
    Ascends 7 (issued (written ∷ failed_after_rename ∷ lost_before_rename ∷ written ∷ []) seven)
issued-Ascends_example =
    issued-Ascends (written ∷ failed_after_rename ∷ lost_before_rename ∷ written ∷ []) seven 7 reads
