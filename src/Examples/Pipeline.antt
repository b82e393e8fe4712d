-- ===== src/Examples/Pipeline.antt =====
-- The theorems on the pipeline at concrete inputs.
use moadian.Base.{
  ℕ, zero, suc, ◌+◌, ◌≤◌, ◌<◌, ◌≡◌, refl, true, false, Option, none, some, [], ◌∷◌, ◌++◌, List,
  codes, Text, Result, ok, err, In, here, there, is_empty, length, map, all, take, drop,
  invoice_validation_error, arith,
}
use moadian.Base.Exec.{pure}
use moadian.Base.Int.{ℤ, pos}
use moadian.Base.Format.{in_base}
use moadian.Models.Invoice.{Invoice}
use moadian.Rules.Violations.{is_valid}
use moadian.Rules.Engine.{validate}
use moadian.Rules.Units.{is_known_unit}
use moadian.Taxid.Provider.{generate_tax_id, invoice_serial_hex, tax_id_length}
use moadian.Pipeline.Submit.{
  Packet, SubmitResult, InvoiceSubmission, PublicKey, ServerKey, Services, match_results, identify,
  submit_batch, submit, chunks,
}
use moadian.Pipeline.Submit.Chunks.{join, fits, join-chunks}
use moadian.Pipeline.Submit.Matching.{is_distinct, match_results-order, match_results-answered}
use moadian.Pipeline.Submit.Identity.{named, identify-identity}
use moadian.Pipeline.Submit.Refusal.{submit_batch-invalid}
use moadian.Examples.{whole, seconds, memory, invoice, bare, rules}

abbrev key : ServerKey
key = record { id = codes "k"; key = codes "pem"; algorithm = codes "RSA"; purpose = pos 1 }

abbrev accept : Packet → SubmitResult
accept p = record { uid = p.request_trace_id; reference_number = some (codes "r") }

-- A world that counts, a signature and a cipher that leave the text, a server that accepts.
abbrev pub services : Services ℕ
services = record {
  serial_source = λ w. (ok (pos w), suc w);
  uuid4 = λ w. (ok (in_base 10 w), suc w);
  sign = λ bytes. pure bytes;
  public_key = λ k. ok tt;
  encrypt = λ k t. pure t;
  get_public_keys =
      pure (record { id = codes "k"; key = codes "pem"; algorithm = none; purpose = none } ∷ []);
  submit_invoices = λ packets. pure (map accept packets);
  inquiry_by_reference_id = λ references. pure [];
  cached_key = λ w. none;
  cache_key = λ k w. w;
}

pub refused : is_valid (validate whole rules is_known_unit bare) ≡ false
unfolding validate is_valid moadian.Rules.Engine.check_pattern moadian.Rules.Spec.pattern_of
    moadian.Rules.Engine.check_obligations moadian.Rules.Engine.check_header
    moadian.Rules.Engine.check_header_field moadian.Rules.Spec.for_type moadian.Wire.Json.has_key
    moadian.Models.Invoice.Dump.dump_header moadian.Rules.Spec.applies moadian.Rules.Spec.setm_is_3
    moadian.Wire.Json.lookup moadian.Rules.Engine.check_records moadian.Rules.Engine.check_present
    moadian.Models.Invoice.Dump.dump_item moadian.Rules.Spec.is_complete
    moadian.Rules.Engine.check_enums moadian.Models.Invoice.Dump.dump_shipping_good
    moadian.Rules.Arithmetic.after_discount moadian.Rules.Arithmetic.check_arithmetic
    moadian.Rules.Arithmetic.check_line moadian.Rules.Arithmetic.check_lines
    moadian.Rules.Arithmetic.check_settlement moadian.Rules.Arithmetic.check_totals
    moadian.Rules.Arithmetic.line_total moadian.Rules.Arithmetic.off
    moadian.Rules.Arithmetic.other_taxes moadian.Rules.Arithmetic.pre_discount
    moadian.Rules.Arithmetic.report moadian.Rules.Arithmetic.sum_of moadian.Rules.Arithmetic.vat
    moadian.Rules.Engine.check_enum moadian.Rules.Engine.check_lengths
    moadian.Rules.Engine.check_lengths_from moadian.Rules.Engine.check_mu
    moadian.Rules.Engine.check_sstt moadian.Rules.Engine.int_attribute moadian.Rules.Spec.condition
    moadian.Base.Int.◌+ℤ◌ moadian.Base.Int.◌-ℤ◌ moadian.Base.Int.◌*ℤ◌
    moadian.Rules.Units.is_known_unit
refused = refl

submit_batch-invalid_example :
    submit_batch whole seconds services memory true rules is_known_unit key (bare ∷ invoice ∷ []) 42
    ≡ (err invoice_validation_error, 42)
submit_batch-invalid_example =
    submit_batch-invalid whole seconds services memory rules is_known_unit key bare (invoice ∷ [])
      42 refused

abbrev answer : Text → SubmitResult
answer uid = record { uid = uid; reference_number = some (codes "r") }

abbrev in_order : List SubmitResult
in_order = answer (codes "1") ∷ answer (codes "2") ∷ []

abbrev swapped : List SubmitResult
swapped = answer (codes "2") ∷ answer (codes "1") ∷ []

swap : (r : SubmitResult) → In r in_order → In r swapped
swap _ here = there here
swap _ (there here) = here
swap _ (there (there i)) = elim i [ ]

swap_back : (r : SubmitResult) → In r swapped → In r in_order
swap_back _ here = there here
swap_back _ (there here) = here
swap_back _ (there (there i)) = elim i [ ]

abbrev identities : List (Text × Text)
identities = (codes "1", codes "A") ∷ (codes "2", codes "B") ∷ []

distinct : (is_distinct in_order ≡ true) × (is_distinct swapped ≡ true)
unfolding moadian.Pipeline.Submit.result_for
distinct = (refl, refl)

match_results-order_example :
    (match_results identities in_order ≡ match_results identities swapped)
    × (map (λ x. (x.uid, x.tax_id)) (match_results identities in_order) ≡ identities)
match_results-order_example =
    match_results-order identities in_order swapped distinct.0 distinct.1 swap swap_back

abbrev second_answered : InvoiceSubmission
second_answered = record {
  uid = codes "2";
  tax_id = codes "B";
  reference_number = some (codes "r");
  raw = some (answer (codes "2"));
}

listed : In second_answered (match_results identities swapped)
unfolding match_results moadian.Pipeline.Submit.result_for
listed = there here

match_results-answered_example :
    (second_answered.raw ≡ some (answer (codes "2")))
    × (second_answered.reference_number ≡ some (codes "r"))
match_results-answered_example =
    match_results-answered identities swapped (answer (codes "2")) second_answered distinct.1 here
      listed refl

join-chunks_example :
    (join (chunks 2 (codes "abcde")) ≡ codes "abcde")
    × (all (fits 2) (chunks 2 (codes "abcde")) ≡ true)
join-chunks_example = join-chunks 2 (codes "abcde") (omega arith)

abbrev sent : Invoice ℤ
sent = record invoice {
  header = record (invoice.header) {
    taxid = codes "A111BC04B9D000000002A1";
    inno = some (codes "000000002A");
  };
}

identified : identify whole seconds services memory invoice (pos 42) ≡ ok sent
unfolding identify moadian.Taxid.Provider.generate_tax_id moadian.Taxid.Provider.invoice_serial_hex
    moadian.Taxid.Provider.validate_memory_id moadian.Taxid.Provider.validate_serial
    moadian.Taxid.Provider.validate_day moadian.Taxid.Provider.day_range
    moadian.Taxid.Verhoeff.check_digit moadian.Taxid.Verhoeff.reversed_digits
    moadian.Taxid.Provider.control moadian.Taxid.Provider.decimalise in_base
    moadian.Base.Format.padded moadian.Taxid.Verhoeff.inv moadian.Taxid.Verhoeff.checksum
    moadian.Taxid.Verhoeff.d5 moadian.Taxid.Verhoeff.perm
identified = refl

identify-identity_example :
    (t : ℤ) × (taxid : Text) × (inno : Text) × (seconds.from_millis invoice.header.indatim ≡ ok t)
    × (generate_tax_id seconds memory (pos 42) t ≡ ok taxid)
    × (invoice_serial_hex (pos 42) ≡ ok inno)
    × (inno ≡ take 10 (drop 11 taxid))
    × (sent ≡ named whole seconds services memory invoice taxid inno)
identify-identity_example =
    identify-identity whole seconds services memory invoice sent (pos 42) identified

abbrev submission : InvoiceSubmission
submission = record {
  uid = codes "43";
  tax_id = codes "A111BC04B9D000000002A1";
  reference_number = some (codes "r");
  raw = some (answer (codes "43"));
}

submitted :
    submit whole seconds services memory false rules is_known_unit (invoice ∷ []) 42
    ≡ (ok (submission ∷ []), 44)
unfolding submit submit_batch chunks match_results identify moadian.Pipeline.Submit.submit_chunks
    moadian.Pipeline.Submit.server_key moadian.Pipeline.Submit.choose_key
    moadian.Pipeline.Submit.chunks_on moadian.Pipeline.Submit.build_packets
    moadian.Pipeline.Submit.build_one moadian.Pipeline.Submit.check
    moadian.Pipeline.Submit.with_identity moadian.Pipeline.Submit.build_packet
    moadian.Pipeline.Submit.result_for moadian.Wire.Canonical.canonical_json
    moadian.Models.Invoice.Blanks.to_wire_dict moadian.Taxid.Provider.generate_tax_id
    moadian.Taxid.Provider.invoice_serial_hex moadian.Taxid.Provider.validate_memory_id
    moadian.Taxid.Provider.validate_serial moadian.Taxid.Provider.validate_day
    moadian.Taxid.Provider.day_range moadian.Taxid.Verhoeff.check_digit
    moadian.Taxid.Verhoeff.reversed_digits moadian.Taxid.Provider.control
    moadian.Taxid.Provider.decimalise in_base moadian.Base.Format.padded moadian.Taxid.Verhoeff.inv
    moadian.Taxid.Verhoeff.checksum moadian.Taxid.Verhoeff.d5 moadian.Taxid.Verhoeff.perm
    moadian.Wire.Canonical.dumps moadian.Wire.Canonical.strip_nulls
    moadian.Wire.Canonical.or_value_error moadian.Wire.Canonical.encode_utf8
    moadian.Wire.Canonical.quote moadian.Wire.Canonical.escape moadian.Wire.Canonical.escape_char
    moadian.Wire.Canonical.show_int
submitted = refl
