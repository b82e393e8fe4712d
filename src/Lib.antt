-- ===== src/Lib.antt =====
-- Verification library of moadian, a client of the Iranian tax organization's invoice service.
--
-- The program builds an electronic invoice, checks it against the organization's rules, gives it a
-- tax id from a serial that is never repeated, signs and encrypts its canonical JSON and sends it.
-- Paths below are those of the repository; the Python package is backend/src/moadian.
--
-- Base             shared types and lemmas: Python ints (Base.Int), texts as lists of code points,
--                  calls that may raise (Base.Outcome), methods that change a state and may raise
--                  (Base.Exec), zero-padded numerals (Base.Format), SQLite tables with an
--                  ascending key (Base.Table).
-- Taxid.Verhoeff   taxid/verhoeff.py: the tables, `check_digit`, `validate`.
-- Taxid.Provider   taxid/provider.py: `generate_tax_id`, `invoice_serial_hex` and their checks.
-- Wire             crypto/canonical.py over JSON values: `strip_nulls` and `json.dumps` with the
--                  separators and flags that `canonical_json` passes, then UTF-8.
-- Models.Invoice   models/invoice.py: the records field by field, `model_dump(exclude_none,
--                  by_alias)` (Dump) and `to_wire_dict` (Blanks).
-- Models.Responses RequestStatus of models/enums.py and what is read of InquiryResult.
-- Rules            rules/violations.py, rules/spec.py, rules/arithmetic.py, rules/engine.py and
--                  units.py, one module each.
-- Pipeline.Serial  `MonotonicSerialCounter` of pipeline.py: the state is the value file.
-- Pipeline.Submit  `InvoicePipeline.submit` of pipeline.py with `build_packet` of client/api.py,
--                  over a state of the world that the services change.
-- Pipeline.Await   `await_results` and `_inquire` of pipeline.py over a clock.
-- Store.Invoices   `InvoiceRecord` and the invoice methods of `RecordStore`, store/records.py.
-- Store.Keys       the UNIQUE columns of that file; Store.Catalogue: its buyers and goods, `validate`,
--                  the methods that change them, and `_migrate`.
-- Api.Invoices     what the invoice routes of api/app.py share: the guards, `_VERDICTS`,
--                  `_inquiry_block`, `_apply_cancellation`, the loop of `_reconcile`.
-- Api.Filing       the routes themselves: `save_invoice`, `update_invoice`, `delete_invoice` (here
--                  discard_invoice), `submit_invoice`, `inquire_pending`, `inquire_one`. Its
--                  children: the lifecycle of a stored invoice as a step relation (Lifecycle),
--                  the statements and the loop as steps (Refinement, Reconciling, Requests), all
--                  requests together (Serving), the guards (Guards), what a filing did (Accepted), the
--                  answers (Verdicts).
-- Client           client/auth.py, client/endpoints.py and client/api.py: errors, decoding, tokens,
--                  `_request` and the calls that the pipeline makes; Client.Tokens: what the
--                  service is sent, and in which order.
-- Api.Referring    `referring_invoice` of api/app.py, the draft that corrects, cancels or takes back an
--                  invoice; Api.Filing.Cancelling and Api.Filing.Voiding follow such a draft through
--                  the other routes.
-- Config           config/environment.py, and config/profiles.py: a profile (Config.Profiles) and the
--                  encrypted file of all profiles (Config.Profiles.Store).
-- Persian          persian.py: `fold`, `fold_digits`, `is_digits`.
-- Store.Official   store/catalogue.py: `_fts_query` and the methods of `CatalogueStore`; the name
--                  `get` is here get_entry.
-- Mock             mock/server.py, the service that the client is run against: `issue_nonce`,
--                  `consume_nonce`, `authenticate`, `_accept`; Mock.Routes: the routes and a request
--                  as a step on the state.
-- Auth.Store       `UserStore` of auth/store.py: the users table in order, each method one step.
-- Auth.Session     `make_token`, `current_user` and `admin_user` of auth/security.py.
-- Auth.Routes      the routes of auth/routes.py that hand out tokens or change accounts.
-- Examples         concrete parameters, one small invoice, and the theorems at them.
--
-- The parts meet as in the program: the pipeline asks the rule engine for a report and stops at an
-- error, draws a serial from the counter, makes the tax id and `inno` of it, and hands the wire
-- form to canonical JSON, the signature and the cipher. The web routes load a profile and the
-- rules, call the pipeline, and keep what came of it in the record store.
--
-- Bounds and fuel. A numeral in a base takes one unit of fuel for each digit and is given one more
-- than the number itself. Chunking takes the number of elements as its fuel, since a chunk takes
-- at least one. The loop of `await_results` takes one unit for each inquiry; the number of
-- intervals in the timeout and one more is enough where the clock advances by what is waited. A
-- serial is at most 0xFFFFFFFFFF and a day range at most 0xFFFFF; both are checked by the code and
-- by the model. `int` refuses more than 4300 digits and so does the model.
--
-- Parameters. `FloatOps` stands for Python floats, with no law but one that a theorem names;
-- `Crypto` for PyJWT and the comparison of a password with its hash; `Calendar` for datetime and
-- the time zone database; `Services` for the serial source, uuid4, the signature, the decoding of
-- the server's key, the cipher, the HTTP client and the key that the pipeline keeps; a test for
-- `str.isdigit` of one character; the fields of `Client` for httpx, the validation of answers and
-- the signature; `Clock` for time.monotonic and asyncio.sleep, with the laws of `IsClock`; opening
-- a client for a profile is a parameter of the routes. The state of the world is their own.
-- `Vault` stands for JSON, UTF-8, base64, scrypt and AES-GCM, with the laws of `IsVault`;
-- `Unicode` for NFC, case folding and the test for a digit; a function for the full text search of
-- SQLite; `Checks` for the signatures, the decryption and the JSON that the mock reads.
--
-- Not modelled: the Persian messages, citations and context of a violation, and the rendering of a
-- report for a person; reading YAML; the input validation of pydantic; HTTP, cryptography, SQLite,
-- the web routes that only read or pass a call on, the settings and the key files, the seeding of
-- accounts, and the payments, the taxpayer stubs and the other inquiries of the mock server. A web
-- route is one step: two that run at once are not interleaved. The pipeline and the client are
-- joined only by the parameter of the one. Of an answer of the organization the lists of errors
-- and warnings are left out. The order in which buyers and goods are listed is left out. A stored
-- profile whose fields are not texts is an error of the model. The names of units are kept as code
-- points. An int too large for any float, on which Python's `float` raises OverflowError, is not
-- told apart: the conversion of `FloatOps` is total. Of the transaction of an import only its end
-- is seen: it is committed, or the tables are the old ones.
pub mod Base
pub mod Taxid
pub mod Wire
pub mod Models
pub mod Rules
pub mod Pipeline
pub mod Config
pub mod Persian
pub mod Mock
pub mod Client
pub mod Auth
pub mod Store
pub mod Api
pub mod Examples
