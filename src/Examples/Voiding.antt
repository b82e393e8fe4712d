-- ===== src/Examples/Voiding.antt =====
-- A cancelling invoice at concrete inputs.
use moadian.Base.{
  ℕ, zero, suc, ◌≡◌, ◌≤◌, ◌≢◌, refl, sym, ◌∙◌, ap, Bool, true, false, Option, none, some, List, [],
  ◌∷◌, codes, Text, Result, ok, In, here, there, arith,
}
use moadian.Base.Int.{ℤ, pos}
use moadian.Base.Table.{Table, IsTable, In-row, Rows}
use moadian.Wire.Json.{Value, obj, end}
use moadian.Rules.Units.{is_known_unit}
use moadian.Store.Invoices.{cancelled, InvoiceRecord, get_invoice, has_tax_id}
use moadian.Auth.Session.{sends}
use moadian.Api.Invoices.{App}
use moadian.Api.Referring.{referring_draft, referring_invoice}
use moadian.Api.Filing.{inquire_one, ask_all}
use moadian.Api.Filing.Cancelling.{IsNewest}
use moadian.Api.Filing.Serving.{Call, discard_request, serve_all}
use moadian.Api.Filing.Voiding.{voided}
use moadian.Examples.{whole, seconds, rules}
use moadian.Examples.Api.{stored, profile, confirming, connected, verdict_of}

abbrev draft : Value ℤ
draft = referring_draft (obj end) (pos 3) (codes "T") (pos 5)

abbrev canceller : InvoiceRecord ℤ
canceller = record stored { payload = draft; tax_id = some (codes "C") }

abbrev both : Rows (InvoiceRecord ℤ)
both = (2, stored) ∷ (3, canceller) ∷ []

abbrev app : App ℤ ℕ
app = record { invoices = record { rows = both; next_id = 4 }; world = 42 }

app-IsTable : IsTable app.invoices
app-IsTable = record {
  ordered = (omega arith, (omega arith, tt));
  below = (omega arith, (omega arith, tt));
}

-- A request that is refused in between.
abbrev calls : List (Call ℤ)
calls = record { profile = profile; now = 6; request = discard_request 2 } ∷ []

abbrev later : App ℤ ℕ
later = serve_all whole seconds confirming rules is_known_unit connected calls app

unchanged : later ≡ app
unfolding serve_all moadian.Api.Filing.Serving.serve moadian.Api.Filing.discard_invoice
    moadian.Api.Invoices.owned_draft moadian.Api.Invoices.owned get_invoice moadian.Base.Table.row
unchanged = refl

first : get_invoice 2 app.invoices ≡ some stored
unfolding get_invoice moadian.Base.Table.row
first = refl

second : get_invoice 3 later.invoices ≡ some canceller
unfolding get_invoice moadian.Base.Table.row serve_all moadian.Api.Filing.Serving.serve
    moadian.Api.Filing.discard_invoice moadian.Api.Invoices.owned_draft moadian.Api.Invoices.owned
second = refl

prefilled : referring_invoice profile 2 (pos 3) (pos 5) app.invoices ≡ sends draft
unfolding referring_invoice moadian.Api.Invoices.owned get_invoice moadian.Base.Table.row
prefilled = refl

listed_before :
    (k : ℕ) (x : InvoiceRecord ℤ)
    → In (k, x) both
    → has_tax_id (codes "p") (codes "T") (k, x) ≡ true
    → k ≤ 2
listed_before k x here h = omega arith
listed_before k x (there here) h = cc
listed_before k x (there (there m)) h = elim m [ ]

only : IsNewest (codes "p") (codes "T") 2 later.invoices
unfolding get_invoice
only k x found h =
    listed_before k x (In-row k x both (ap (λ a. get_invoice k a.invoices) (sym unchanged) ∙ found))
      h

answered_now :
    ask_all whole seconds confirming rules is_known_unit connected profile 7
      (codes "r" ∷ [])
      later.world
    ≡ (ok (verdict_of ∷ []), 42)
unfolding ask_all moadian.Api.Filing.ask moadian.Pipeline.Submit.chunks
    moadian.Pipeline.Submit.chunks_on serve_all moadian.Api.Filing.Serving.serve
    moadian.Api.Filing.discard_invoice moadian.Api.Invoices.owned_draft moadian.Api.Invoices.owned
    get_invoice moadian.Base.Table.row
answered_now = refl

told : moadian.Api.Invoices.answer_for (codes "r") (verdict_of ∷ []) ≡ some verdict_of
unfolding moadian.Api.Invoices.answer_for
told = refl

voided_example :
    (x : InvoiceRecord ℤ) × (get_invoice 2
        (inquire_one whole seconds confirming rules is_known_unit connected profile 7 3
          later).1.invoices
      ≡ some x)
    × (x.state ≡ cancelled)
voided_example =
    voided whole seconds confirming rules is_known_unit connected profile 7 app calls 3 2 stored
      canceller draft (pos 5) (verdict_of ∷ []) verdict_of 42 app-IsTable first refl prefilled
      second refl refl (λ e. omega (arith, e)) refl only answered_now told refl
