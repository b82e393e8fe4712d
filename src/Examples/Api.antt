-- ===== src/Examples/Api.antt =====
-- The theorems on the invoice routes and on waiting for results, at concrete inputs.
use moadian.Base.{
  ℕ, zero, suc, ◌+◌, ◌*◌, ◌≤◌, ◌≡◌, ◌≢◌, refl, ap, true, false, Option, none, some, List, [], ◌∷◌,
  codes, Text, text_eq, Result, ok, err, arith, length, map,
}
use moadian.Base.Int.{ℤ, pos, negsuc}
use moadian.Base.Exec.{Exec, pure}
use moadian.Base.Table.{Table, IsTable}
use moadian.Wire.Json.{Value, Fields, obj, end}
use moadian.Models.Invoice.{Invoice}
use moadian.Models.Invoice.Blanks.{to_wire_dict}
use moadian.Models.Responses.{success, in_progress, InquiryResult}
use moadian.Rules.Violations.{is_valid}
use moadian.Rules.Engine.{validate}
use moadian.Rules.Units.{is_known_unit}
use moadian.Store.Invoices.{
  draft, sent, cancelled, InvoiceRecord, get_invoice, list_invoices, all_states, counts_by_state,
}
use moadian.Store.Counting.{counts_by_state-list_invoices}
use moadian.Pipeline.Submit.{Services, InvoiceSubmission}
use moadian.Pipeline.Await.{Clock, references, await_results}
use moadian.Pipeline.Await.Deadline.{
  IsClock, Polled, await_results_ends, IsLastPoll, await_results-IsLastPoll,
}
use moadian.Auth.Session.{Answer, sends, raises}
use moadian.Api.Invoices.{App, Profile, is_editable, answer_for}
use moadian.Api.Filing.{
  Saved, submit_invoice, update_invoice, discard_invoice, inquire_one, ask_all,
}
use moadian.Api.Filing.Lifecycle.{Reach, Filed}
use moadian.Api.Filing.Serving.{
  update_request, inquire_request, discard_request, Call, serve, serve_all, serve-Follows,
  serve_all-Filed,
}
use moadian.Api.Filing.Guards.{filed_twice, submit_invoice-invalid}
use moadian.Api.Filing.Accepted.{HasFiled, submit_invoice-HasFiled}
use moadian.Api.Filing.Verdicts.{told, told_of, get_invoice-inquire_one}
use moadian.Examples.{whole, seconds, memory, invoice, bare, rules}
use moadian.Examples.Pipeline.{services, refused}

abbrev pub profile : Profile
profile = record { name = codes "p"; memory_id = memory }

abbrev pub stored : InvoiceRecord ℤ
stored = record {
  profile = codes "p";
  state = sent;
  payload = obj end;
  tax_id = some (codes "T");
  uid = some (codes "u");
  reference_number = some (codes "r");
  detail = none;
  created_at = 1;
  updated_at = 1;
}

abbrev pub shelf : Table (InvoiceRecord ℤ)
shelf = record { rows = (1, record stored { state = draft }) ∷ (2, stored) ∷ []; next_id = 3 }

shelf-IsTable : IsTable shelf
shelf-IsTable = record {
  ordered = (omega arith, (omega arith, tt));
  below = (omega arith, (omega arith, tt));
}

abbrev pub app : App ℤ ℕ
app = record { invoices = shelf; world = 42 }

abbrev pub verdict_of : InquiryResult
verdict_of = record {
  reference_number = some (codes "r");
  uid = some (codes "u");
  status = some success;
}

-- A server that confirms.
abbrev pub confirming : Services ℕ
confirming = record services { inquiry_by_reference_id = λ texts. pure (verdict_of ∷ []) }

abbrev pub connected : Exec ℕ (Unit {0})
connected = pure tt

abbrev calls : List (Call ℤ)
calls =
    record { profile = profile; now = 5; request = update_request 2 invoice }
    ∷ record { profile = profile; now = 6; request = inquire_request 2 }
    ∷ record { profile = profile; now = 7; request = discard_request 2 }
    ∷ []

abbrev serving : Call ℤ → App ℤ ℕ → App ℤ ℕ
serving = serve whole seconds confirming rules is_known_unit connected

serve-Follows_example :
    IsTable
      (serving (record { profile = profile; now = 6; request = inquire_request 2 }) app).invoices
    × ((i : ℕ)
        → Reach (get_invoice i shelf) (
            get_invoice i
              (serving
                (record { profile = profile; now = 6; request = inquire_request 2 })
                app).invoices))
serve-Follows_example =
    serve-Follows whole seconds confirming rules is_known_unit connected
      (record { profile = profile; now = 6; request = inquire_request 2 }) app shelf-IsTable

second : get_invoice 2 shelf ≡ some stored
unfolding get_invoice moadian.Base.Table.row
second = refl

serve_all-Filed_example : Filed stored (
    get_invoice 2
      (serve_all whole seconds confirming rules is_known_unit connected calls app).invoices)
serve_all-Filed_example =
    serve_all-Filed whole seconds confirming rules is_known_unit connected calls app 2 stored
      shelf-IsTable second refl

filed_twice_example :
    (submit_invoice whole seconds services rules is_known_unit connected profile 5
        (some 2)
        invoice
        app
      ≡ (raises 409, app))
    × (update_invoice whole seconds services rules is_known_unit connected profile 5 2 invoice app
        ≡ (raises 409, app))
    × (discard_invoice whole seconds services rules is_known_unit connected profile 5 2 app
        ≡ (raises 409, app))
filed_twice_example =
    filed_twice whole seconds services rules is_known_unit connected profile 5 2 stored invoice app
      second refl refl

submit_invoice-invalid_example :
    ((n : ℕ) × ((submit_invoice whole seconds services rules is_known_unit connected profile 5 none
          bare app).0
        ≡ raises n))
    × ((submit_invoice whole seconds services rules is_known_unit connected profile 5 none bare
          app).1.world
        ≡ 42)
submit_invoice-invalid_example =
    submit_invoice-invalid whole seconds services rules is_known_unit connected profile 5 none bare
      app refused

counts_by_state-list_invoices_example :
    ((counts_by_state (codes "p") shelf).0
      ≡ map (λ s. length (list_invoices (codes "p") (some s) (negsuc 0) shelf)) all_states)
    × ((counts_by_state (codes "p") shelf).1
        ≡ length (list_invoices (codes "p") none (negsuc 0) shelf))
counts_by_state-list_invoices_example = counts_by_state-list_invoices (codes "p") shelf

-- A record that was cancelled, asked about again.
abbrev withdrawn : InvoiceRecord ℤ
withdrawn = record stored { state = cancelled }

abbrev cancelled_app : App ℤ ℕ
cancelled_app = record { invoices = record { rows = (2, withdrawn) ∷ []; next_id = 3 }; world = 42 }

withdrawn_found :
    get_invoice 2 (record { rows = (2, withdrawn) ∷ []; next_id = 3 }) ≡ some withdrawn
unfolding get_invoice moadian.Base.Table.row
withdrawn_found = refl

asked :
    ask_all whole seconds confirming rules is_known_unit connected profile 5 (codes "r" ∷ []) 42
    ≡ (ok (verdict_of ∷ []), 42)
unfolding ask_all moadian.Api.Filing.ask moadian.Pipeline.Submit.chunks
    moadian.Pipeline.Submit.chunks_on
asked = refl

get_invoice-inquire_one_example :
    let answer = answer_for (codes "r") (verdict_of ∷ []) in
    let after =
      inquire_one whole seconds confirming rules is_known_unit connected profile 5 2
        cancelled_app in
    (after.0 ≡ told_of answer) × (get_invoice 2 after.1.invoices ≡ some (told 5 answer withdrawn))
get_invoice-inquire_one_example =
    get_invoice-inquire_one whole seconds confirming rules is_known_unit connected profile 5 2
      withdrawn cancelled_app (verdict_of ∷ []) 42 withdrawn_found refl refl asked

-- A clock that is the world, and a server that is never done.
abbrev ticking : Clock ℕ
ticking = record { monotonic = λ w. w; sleep = λ n w. w + n }

abbrev busy : Services ℕ
busy = record services {
  inquiry_by_reference_id = λ texts.
      pure (
        record { reference_number = some (codes "r"); uid = none; status = some in_progress } ∷ []);
}

busy-IsClock : IsClock busy ticking
busy-IsClock = record { asking = λ texts w. omega arith; waiting = λ n w. omega arith }

abbrev accepted : InvoiceSubmission
accepted = record {
  uid = codes "u";
  tax_id = codes "T";
  reference_number = some (codes "r");
  raw = none;
}

await_results_ends_example :
    (o : Polled busy ticking busy-IsClock) × (await_results busy ticking 25
        (accepted ∷ [])
        10
        5
        120
        0
      ≡ some o)
await_results_ends_example =
    await_results_ends busy ticking busy-IsClock (accepted ∷ []) 10 5 120 24 0 (omega arith)

abbrev still_busy : List InquiryResult
still_busy =
    record { reference_number = some (codes "r"); uid = none; status = some in_progress } ∷ []

references-accepted : references (accepted ∷ []) ≢ []
unfolding references
references-accepted = λ e. cc

expired : await_results busy ticking 25 (accepted ∷ []) 10 5 12 0 ≡ some (ok still_busy, 12)
unfolding await_results references moadian.Pipeline.Await.poll moadian.Pipeline.Await.polled
    moadian.Pipeline.Await.inquire moadian.Pipeline.Await.inquire_chunks
    moadian.Pipeline.Await.any_in_progress moadian.Pipeline.Submit.chunks
    moadian.Pipeline.Submit.chunks_on
expired = refl

await_results-IsLastPoll_example :
    IsLastPoll busy ticking busy-IsClock (references (accepted ∷ [])) 10 12 still_busy 12
await_results-IsLastPoll_example =
    await_results-IsLastPoll busy ticking busy-IsClock 25 (accepted ∷ []) 10 5 12 0 still_busy 12
      references-accepted expired

abbrev outcome : Answer Saved × App ℤ ℕ
outcome =
    submit_invoice whole seconds services rules is_known_unit connected profile 5 (some 1) invoice
      app

abbrev saved : Saved
saved = record { id = 1; state = sent }

accepted_now : outcome.0 ≡ sends saved
unfolding submit_invoice validate is_valid to_wire_dict moadian.Api.Invoices.owned
    moadian.Api.Invoices.owned_draft get_invoice moadian.Base.Table.row
    moadian.Api.Filing.send_or_refuse moadian.Api.Filing.after_filing moadian.Api.Filing.file
    moadian.Api.Filing.keep moadian.Rules.Engine.check_pattern moadian.Rules.Spec.pattern_of
    moadian.Rules.Engine.check_obligations moadian.Rules.Engine.check_header
    moadian.Rules.Engine.check_header_field moadian.Rules.Spec.for_type moadian.Wire.Json.has_key
    moadian.Models.Invoice.Dump.dump_header moadian.Rules.Spec.applies moadian.Rules.Spec.setm_is_3
    moadian.Wire.Json.lookup moadian.Rules.Engine.check_records moadian.Rules.Engine.check_present
    moadian.Models.Invoice.Dump.dump_item moadian.Rules.Spec.is_complete
    moadian.Rules.Engine.check_enums moadian.Models.Invoice.Dump.dump_shipping_good
    moadian.Rules.Arithmetic.after_discount moadian.Rules.Arithmetic.check_arithmetic
    moadian.Rules.Arithmetic.check_line moadian.Rules.Arithmetic.check_lines
    moadian.Rules.Arithmetic.check_settlement moadian.Rules.Arithmetic.check_totals
    moadian.Rules.Arithmetic.line_total moadian.Rules.Arithmetic.off
    moadian.Rules.Arithmetic.other_taxes moadian.Rules.Arithmetic.pre_discount
    moadian.Rules.Arithmetic.report moadian.Rules.Arithmetic.sum_of moadian.Rules.Arithmetic.vat
    moadian.Rules.Engine.check_enum moadian.Rules.Engine.check_lengths
    moadian.Rules.Engine.check_lengths_from moadian.Rules.Engine.check_mu
    moadian.Rules.Engine.check_sstt moadian.Rules.Engine.int_attribute moadian.Rules.Spec.condition
    moadian.Base.Int.◌+ℤ◌ moadian.Base.Int.◌-ℤ◌ moadian.Base.Int.◌*ℤ◌
    moadian.Rules.Units.is_known_unit moadian.Pipeline.Submit.submit
    moadian.Pipeline.Submit.submit_batch moadian.Pipeline.Submit.chunks
    moadian.Pipeline.Submit.match_results moadian.Pipeline.Submit.identify
    moadian.Pipeline.Submit.submit_chunks moadian.Pipeline.Submit.server_key
    moadian.Pipeline.Submit.choose_key moadian.Pipeline.Submit.chunks_on
    moadian.Pipeline.Submit.build_packets moadian.Pipeline.Submit.build_one
    moadian.Pipeline.Submit.check moadian.Pipeline.Submit.with_identity
    moadian.Pipeline.Submit.build_packet moadian.Pipeline.Submit.result_for
    moadian.Wire.Canonical.canonical_json moadian.Taxid.Provider.generate_tax_id
    moadian.Rules.Violations.raise_if_invalid moadian.Taxid.Provider.invoice_serial_hex
    moadian.Taxid.Provider.validate_memory_id moadian.Taxid.Provider.validate_serial
    moadian.Taxid.Provider.validate_day moadian.Taxid.Provider.day_range
    moadian.Taxid.Verhoeff.check_digit moadian.Taxid.Verhoeff.reversed_digits
    moadian.Taxid.Provider.control moadian.Taxid.Provider.decimalise moadian.Base.Format.in_base
    moadian.Base.Format.padded moadian.Taxid.Verhoeff.inv moadian.Taxid.Verhoeff.checksum
    moadian.Taxid.Verhoeff.d5 moadian.Taxid.Verhoeff.perm moadian.Wire.Canonical.dumps
    moadian.Wire.Canonical.strip_nulls moadian.Wire.Canonical.or_value_error
    moadian.Wire.Canonical.encode_utf8 moadian.Wire.Canonical.quote moadian.Wire.Canonical.escape
    moadian.Wire.Canonical.escape_char moadian.Wire.Canonical.show_int
accepted_now = refl

submit_invoice-HasFiled_example :
    (is_valid (validate whole rules is_known_unit invoice) ≡ true)
    × HasFiled whole seconds services rules is_known_unit connected profile 5 invoice 42 saved
        outcome.1
submit_invoice-HasFiled_example =
    submit_invoice-HasFiled whole seconds services rules is_known_unit connected profile 5 (some 1)
      invoice app saved outcome.1 shelf-IsTable (ap (λ a. (a, outcome.1)) accepted_now)
