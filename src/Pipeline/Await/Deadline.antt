-- ===== src/Pipeline/Await/Deadline.antt =====
-- Waiting for results ends, and what it ends with.
use moadian.Base.{
  ℕ, zero, suc, ◌+◌, ◌-◌, ◌*◌, ◌≤◌, min, ◌≡◌, ◌≢◌, refl, ◌∙◌, ap, subst, false, Option, none, some,
  List, [], ◌∷◌, leb, leb→le, arith, ◌⊎◌, inl, inr, Bool-cases, Text, Result, ok, err,
}
use moadian.Base.Exec.{Exec, continue}
use moadian.Models.Responses.{InquiryResult}
use moadian.Pipeline.Submit.{Services, InvoiceSubmission}
use moadian.Pipeline.Await.{
  Clock, references, any_in_progress, inquire_chunks, inquire, polled, poll, await_results,
}

-- What the code relies on: a monotonic clock, which an inquiry does not set back, and a wait that lasts
-- as long as it is told to, at least.
pub record IsClock {W : Type 0} (s : Services W) (clock : Clock W) : Type 0 where
  pub asking :
      (texts : List Text) (w : W)
      → clock.monotonic w ≤ clock.monotonic (s.inquiry_by_reference_id texts w).1
  pub waiting : (n : ℕ) (w : W) → clock.monotonic w + n ≤ clock.monotonic (clock.sleep n w)

List-cases : {A : Type 0} (xs : List A) → (xs ≡ []) ⊎ ((x : A) × (rest : List A) × (xs ≡ x ∷ rest))
List-cases [] = inl refl
List-cases (x ∷ xs) = inr (x, xs, refl)

module _ {W : Type 0} (s : Services W) (clock : Clock W) (timed : IsClock s clock) where
  abbrev pub Polled : Type 0
  Polled = Result (List InquiryResult) × W

  continue-later :
      {A B : Type 0} (r : Result A) (f : A → Exec W B) (n : ℕ) (w : W)
      → n ≤ clock.monotonic w
      → ((a : A) (w' : W) → clock.monotonic w' ≤ clock.monotonic (f a w').1)
      → n ≤ clock.monotonic (continue r f w).1
  continue-later (err e) f n w h later = h
  continue-later (ok a) f n w h later = omega (arith, later a w)

  inquire_chunks-later :
      (chunks : List (List Text)) (w : W)
      → clock.monotonic w ≤ clock.monotonic (inquire_chunks s clock chunks w).1
  unfolding inquire_chunks
  inquire_chunks-later [] w = ground arith
  inquire_chunks-later (c ∷ cs) w =
      continue-later (s.inquiry_by_reference_id c w).0 _ _ _ (timed.asking c w) (λ results v.
        continue-later (inquire_chunks s clock cs v).0 _ _ _ (inquire_chunks-later cs v)
          (λ more u. ground arith))

  inquire-later :
      (texts : List Text) (w : W) → clock.monotonic w ≤ clock.monotonic (inquire s clock texts w).1
  unfolding inquire
  inquire-later texts w = inquire_chunks-later _ w

  -- A round that starts `n` waits before the deadline at most, and has not ended, is followed by one
  -- that starts a wait closer to it.
  next_round :
      (again : W → Option Polled) (deadline interval n : ℕ) (v : W)
      → leb deadline (clock.monotonic v) ≡ false
      → deadline ≤ clock.monotonic v + n * interval
      → ((m : ℕ)
          → n ≡ suc m
          → (w' : W) → deadline ≤ clock.monotonic w' + m * interval
          → (o : Polled) × (again w' ≡ some o))
      → (o : Polled) × (again (clock.sleep (min interval (deadline - clock.monotonic v)) v)
          ≡ some o)
  next_round again deadline interval zero v left close go = absurd (ground arith)
  next_round again deadline interval (suc m) v left close go =
      let wait = min interval (deadline - clock.monotonic v) in
      go m refl (clock.sleep wait v) (omega (arith, timed.waiting wait v))

  polled_ends :
      (again : W → Option Polled) (deadline interval n : ℕ) (w : W) (outcome : Polled)
      → clock.monotonic w ≤ clock.monotonic outcome.1
      → deadline ≤ clock.monotonic w + n * interval
      → ((m : ℕ)
          → n ≡ suc m
          → (w' : W) → deadline ≤ clock.monotonic w' + m * interval
          → (o : Polled) × (again w' ≡ some o))
      → (o : Polled) × (polled s clock again deadline interval outcome ≡ some o)
  unfolding polled
  polled_ends again deadline interval n w (err e, v) later close go = ((err e, v), refl)
  polled_ends again deadline interval n w (ok results, v) later close go =
      elim (Bool-cases (any_in_progress results)) [
        | inr settled ↦ rw (settled, polled) ((ok results, v), refl)
        | inl open_now ↦ elim (Bool-cases (leb deadline (clock.monotonic v))) [
          | inl over ↦ rw (open_now, over, polled) ((ok results, v), refl)
          | inr left ↦
              rw (open_now, left, polled)
                (next_round again deadline interval n v left (omega arith) go)
        ]
      ]

  poll_ends :
      (texts : List Text) (deadline interval n : ℕ) (w : W)
      → deadline ≤ clock.monotonic w + n * interval
      → (o : Polled) × (poll s clock (suc n) texts deadline interval w ≡ some o)
  unfolding poll
  poll_ends texts deadline interval zero w close =
      polled_ends _ deadline interval 0 w _ (inquire-later texts w) close
        (λ m e. absurd (omega (arith, e)))
  poll_ends texts deadline interval (suc n) w close =
      polled_ends _ deadline interval (suc n) w _ (inquire-later texts w) close (λ m e w' closer.
        poll_ends texts deadline interval n w'
          (subst (λ k. deadline ≤ clock.monotonic w' + k * interval) (omega (arith, e)) closer))

  -- `await_results` returns or raises: after at most one inquiry more than the number of intervals in
  -- the timeout, whatever the organization answers. (The interval may be zero where the timeout is.)
  pub await_results_ends :
      (submissions : List InvoiceSubmission) (min_wait interval timeout n : ℕ) (w : W)
      → timeout ≤ n * interval
      → (o : Polled) × (await_results s clock (suc n) submissions min_wait interval timeout w
          ≡ some o)
  unfolding await_results
  await_results_ends submissions min_wait interval timeout n w enough =
      elim (List-cases (references submissions)) [
        | inl e ↦ rw (e, await_results) ((ok [], w), refl)
        | inr (t, ts, e) ↦
            rw (e, await_results)
              (poll_ends (t ∷ ts) (clock.monotonic w + timeout) interval n (clock.sleep min_wait w)
                (omega (arith, timed.waiting min_wait w)))
      ]

  -- Nothing is in progress any more, or the deadline has passed.
  abbrev IsOver : ℕ → Polled → Type 0
  IsOver deadline (err e, w) = Unit {0}
  IsOver deadline (ok results, w) =
      (any_in_progress results ≡ false) ⊎ (deadline ≤ clock.monotonic w)

  -- What a list of results that is returned came from.
  pub record IsLastPoll (texts : List Text) (from deadline : ℕ) (results : List InquiryResult)
      (after : W) : Type 0 where
    pub asked_at : W
    pub is_answer : inquire s clock texts asked_at ≡ (ok results, after)
    pub has_waited : from ≤ clock.monotonic asked_at
    pub is_over : IsOver deadline (ok results, after)

  outcome_injective : {o p : Polled} → some o ≡ some p → o ≡ p
  outcome_injective {o} e = ap (λ (x : Option Polled). elim x [ none ↦ o | some y ↦ y ]) e

  none_ne_some : {o : Polled} → none ≡ some o → ⊥
  none_ne_some e = cc

  -- The results of this round are the ones that are returned.
  last_round :
      (texts : List Text) (from deadline : ℕ) (w : W) (results : List InquiryResult) (v : W)
      (after : W) (answers : List InquiryResult)
      → from ≤ clock.monotonic w
      → inquire s clock texts w ≡ (ok answers, v)
      → ◌≡◌ {A = Polled} (ok answers, v) (ok results, after)
      → (any_in_progress answers ≡ false) ⊎ (deadline ≤ clock.monotonic v)
      → IsLastPoll texts from deadline results after
  last_round texts from deadline w results v after answers h asked same over = record {
    asked_at = w;
    is_answer = asked ∙ same;
    has_waited = h;
    is_over = subst (λ (o : Polled). IsOver deadline o) same over;
  }

  polled-IsLastPoll :
      (again : W → Option Polled) (texts : List Text) (from deadline interval : ℕ) (w : W)
      (outcome : Polled) (results : List InquiryResult) (after : W)
      → from ≤ clock.monotonic w
      → inquire s clock texts w ≡ outcome
      → polled s clock again deadline interval outcome ≡ some (ok results, after)
      → ((w' : W)
          → from ≤ clock.monotonic w'
          → again w' ≡ some (ok results, after)
          → IsLastPoll texts from deadline results after)
      → IsLastPoll texts from deadline results after
  unfolding polled
  polled-IsLastPoll again texts from deadline interval w (err e, v) results after h asked k go =
      absurd (ground arith)
  polled-IsLastPoll again texts from deadline interval w (ok answers, v) results after h asked k
        go =
      let later : clock.monotonic w ≤ clock.monotonic v =
        subst (λ (o : Polled). clock.monotonic w ≤ clock.monotonic o.1) asked
          (inquire-later texts w) in
      elim (Bool-cases (any_in_progress answers)) [
        | inr settled ↦
            let same : ◌≡◌ {A = Polled} (ok answers, v) (ok results, after) =
              outcome_injective (rw (settled, polled) at k) in
            last_round texts from deadline w results v after answers h asked same (inl settled)
        | inl open_now ↦ elim (Bool-cases (leb deadline (clock.monotonic v))) [
          | inl over ↦
              let same : ◌≡◌ {A = Polled} (ok answers, v) (ok results, after) =
                outcome_injective (rw (open_now, over, polled) at k) in
              last_round texts from deadline w results v after answers h asked same
                (inr (leb→le deadline (clock.monotonic v) over))
          | inr left ↦
              let wait = min interval (deadline - clock.monotonic v) in
              go (clock.sleep wait v) (omega (arith, timed.waiting wait v))
                (rw (open_now, left, polled) at k)
        ]
      ]

  poll-IsLastPoll :
      (fuel : ℕ) (texts : List Text) (from deadline interval : ℕ) (w : W)
      (results : List InquiryResult) (after : W)
      → from ≤ clock.monotonic w
      → poll s clock fuel texts deadline interval w ≡ some (ok results, after)
      → IsLastPoll texts from deadline results after
  unfolding poll
  poll-IsLastPoll zero texts from deadline interval w results after h k = absurd (none_ne_some k)
  poll-IsLastPoll (suc fuel) texts from deadline interval w results after h k =
      polled-IsLastPoll _ texts from deadline interval w _ results after h refl k
        (λ w' h' k'. poll-IsLastPoll fuel texts from deadline interval w' results after h' k')

  -- Results that `await_results` returns for submissions of which one has a reference number, at least,
  -- are those of its last inquiry, which was made no sooner than the minimal wait; none of them is in
  -- progress, or the timeout has passed when they come.
  pub await_results-IsLastPoll :
      (fuel : ℕ) (submissions : List InvoiceSubmission) (min_wait interval timeout : ℕ) (w : W)
      (results : List InquiryResult) (after : W)
      → references submissions ≢ []
      → await_results s clock fuel submissions min_wait interval timeout w
        ≡ some (ok results, after)
      → IsLastPoll
          (references submissions)
          (clock.monotonic w + min_wait)
          (clock.monotonic w + timeout)
          results
          after
  unfolding await_results
  await_results-IsLastPoll fuel submissions min_wait interval timeout w results after some_given k =
      elim (List-cases (references submissions)) [
        | inl e ↦ absurd (some_given e)
        | inr (t, ts, e) ↦ rw e (
            poll-IsLastPoll fuel (t ∷ ts) (clock.monotonic w + min_wait)
              (clock.monotonic w + timeout) interval (clock.sleep min_wait w) results after
              (timed.waiting min_wait w) (rw (e, await_results) at k))
      ]
