-- ===== src/Pipeline/Await.antt =====
-- `InvoicePipeline.await_results` and `_inquire` of pipeline.py. Instants and waits are whole numbers of
-- one unit of time; `time.monotonic` and `asyncio.sleep` are parameters over the world.
pub mod Deadline
use moadian.Base.{
  ℕ, zero, suc, ◌+◌, ◌-◌, min, Bool, true, false, not, ◌||◌, Option, none, some, List, [], ◌∷◌,
  ◌++◌, map, select, leb, if◌then◌else◌, Text, is_empty, Result, ok, err,
}
use moadian.Base.Exec.{Exec, pure, ◌>>=◌, ◌>>◌}
use moadian.Models.Responses.{
  RequestStatus, in_progress, success, failed, timed_out, not_found, InquiryResult,
}
use moadian.Pipeline.Submit.{Services, InvoiceSubmission, chunks}

-- The clock of the world, and a wait.
pub record Clock (W : Type 0) : Type 0 where
  pub monotonic : W → ℕ
  pub sleep : ℕ → W → W

-- `MAX_INQUIRY_IDS`
abbrev pub max_ids : ℕ
max_ids = 100

-- `[s.reference_number for s in submissions if s.reference_number]`
unfoldable pub references : List InvoiceSubmission → List Text
references [] = []
references (s ∷ rest) =
    let others = references rest in
    elim s.reference_number [ none ↦ others | some t ↦ if is_empty t then others else t ∷ others ]

abbrev pub is_in_progress : Option RequestStatus → Bool
is_in_progress none = false
is_in_progress (some in_progress) = true
is_in_progress (some success) = false
is_in_progress (some failed) = false
is_in_progress (some timed_out) = false
is_in_progress (some not_found) = false

-- `any(result.status == RequestStatus.IN_PROGRESS for result in results)`
unfoldable pub any_in_progress : List InquiryResult → Bool
any_in_progress [] = false
any_in_progress (r ∷ rs) = is_in_progress r.status || any_in_progress rs

module _ {W : Type 0} (s : Services W) (clock : Clock W) where
  -- The loop of `_inquire`.
  unfoldable pub inquire_chunks : List (List Text) → Exec W (List InquiryResult)
  inquire_chunks [] = pure []
  inquire_chunks (chunk ∷ rest) = do
    results ← s.inquiry_by_reference_id chunk
    more ← inquire_chunks rest
    pure (results ++ more)

  -- `_inquire`
  unfoldable pub inquire : List Text → Exec W (List InquiryResult)
  inquire texts = inquire_chunks (chunks max_ids texts)

  -- What the loop does with the outcome of an inquiry; `again` is its next round.
  unfoldable pub polled :
      (W → Option (Result (List InquiryResult) × W))
      → ℕ
      → ℕ
      → Result (List InquiryResult) × W
      → Option (Result (List InquiryResult) × W)
  polled again deadline interval (err e, w) = some (err e, w)
  polled again deadline interval (ok results, w) = elim (any_in_progress results) [
    | false ↦ some (ok results, w)
    | true ↦ elim (leb deadline (clock.monotonic w)) [
      | true ↦ some (ok results, w)
      | false ↦ again (clock.sleep (min interval (deadline - clock.monotonic w)) w)
    ]
  ]

  -- `while True:`, on fuel; `none` is a loop that goes on.
  unfoldable pub poll : ℕ → List Text → ℕ → ℕ → W → Option (Result (List InquiryResult) × W)
  poll zero texts deadline interval w = none
  poll (suc fuel) texts deadline interval w =
      polled (poll fuel texts deadline interval) deadline interval (inquire texts w)

  -- `await_results`
  unfoldable pub await_results :
      ℕ → List InvoiceSubmission → ℕ → ℕ → ℕ → W → Option (Result (List InquiryResult) × W)
  await_results fuel submissions min_wait interval timeout w = elim (references submissions) [
    | [] ↦ some (ok [], w)
    | t ∷ ts ↦ poll fuel (t ∷ ts) (clock.monotonic w + timeout) interval (clock.sleep min_wait w)
  ]
