-- ===== src/Pipeline/Submit/Refusal.antt =====
-- An invoice that pipeline.py refuses costs nothing; one that it submits gets one answer.
use moadian.Base.{
  ◌+◌, ◌≡◌, refl, sym, ◌∙◌, ap, ap₂, subst, Bool, true, false, List, [], ◌∷◌, ◌++◌, length,
  length-append, Text, ok, err, arith, invoice_validation_error, suc,
}
use moadian.Base.Exec.{lift, Returns, Returns-pure, Returns->>=, Returns-any}
use moadian.Wire.Float.{FloatOps}
use moadian.Models.Invoice.{Invoice}
use moadian.Rules.Violations.{is_valid, raise_if_invalid-err}
use moadian.Rules.Spec.{RuleSet}
use moadian.Rules.Engine.{validate}
use moadian.Taxid.Provider.{Calendar}
use moadian.Pipeline.Submit.{
  Services, Packet, SubmitResult, InvoiceSubmission, ServerKey, match_results, check, build_one,
  build_packets, submit_batch, submit_chunks, submit, server_key, chunks, max_packets,
}
use moadian.Pipeline.Submit.Chunks.{join, join-chunks}

module _ (ops : FloatOps) (c : Calendar) {W : Type 0} (s : Services W) (memory_id : Text)
    (rules : RuleSet) (known : Text → Bool) where
  open ops use {Float}

  -- Where the first invoice of a request breaks a rule, the request raises `InvoiceValidationError`
  -- and the world is as it was: no serial and no id is drawn, nothing is signed and nothing is sent.
  pub submit_batch-invalid :
      (key : ServerKey) (invoice : Invoice Float) (rest : List (Invoice Float)) (w : W)
      → is_valid (validate ops rules known invoice) ≡ false
      → submit_batch ops c s memory_id true rules known key (invoice ∷ rest) w
        ≡ (err invoice_validation_error, w)
  unfolding submit_batch build_packets build_one check
  submit_batch-invalid key invoice rest w h = rw (raise_if_invalid-err _ h)

match_results-length :
    (ids : List (Text × Text)) (response : List SubmitResult)
    → length (match_results ids response) ≡ length ids
unfolding match_results
match_results-length [] response = refl
match_results-length (i ∷ ids) response = ap suc (match_results-length ids response)

module _ (ops : FloatOps) (c : Calendar) {W : Type 0} (s : Services W) (memory_id : Text)
    (validating : Bool) (rules : RuleSet) (known : Text → Bool) where
  open ops use {Float}

  Answers : List (Invoice Float) → List InvoiceSubmission → Type 0
  Answers invoices subs = length subs ≡ length invoices

  Names : List (Invoice Float) → List Packet × List (Text × Text) → Type 0
  Names invoices built = length built.1 ≡ length invoices

  build_packets-Names :
      (key : ServerKey) (invoices : List (Invoice Float)) (w : W)
      → Returns
          (Names invoices)
          (build_packets ops c s memory_id validating rules known key invoices w).0
  unfolding build_packets Names
  build_packets-Names key [] w = Returns-pure (Names []) ([], []) refl
  build_packets-Names key (invoice ∷ invoices) w =
      Returns->>= (λ _. Unit {0}) (Names (invoice ∷ invoices))
        (build_one ops c s memory_id validating rules known key invoice) _ w (Returns-any _)
        (λ one _ w1.
          Returns->>= (Names invoices) (Names (invoice ∷ invoices))
            (build_packets ops c s memory_id validating rules known key invoices) _ w1
            (build_packets-Names key invoices w1)
            (λ rest e w2.
              Returns-pure (Names (invoice ∷ invoices)) (one.0 ∷ rest.0, one.1 ∷ rest.1)
                (ap suc e)))

  submit_batch-Answers :
      (key : ServerKey) (invoices : List (Invoice Float)) (w : W)
      → Returns
          (Answers invoices)
          (submit_batch ops c s memory_id validating rules known key invoices w).0
  unfolding submit_batch Names Answers
  submit_batch-Answers key invoices w =
      Returns->>= (Names invoices) (Answers invoices)
        (build_packets ops c s memory_id validating rules known key invoices) _ w
        (build_packets-Names key invoices w)
        (λ built e w1.
          Returns->>= (λ _. Unit {0}) (Answers invoices) (s.submit_invoices built.0) _ w1
            (Returns-any _)
            (λ response _ w2.
              Returns-pure (Answers invoices) (match_results built.1 response)
                (match_results-length built.1 response ∙ e)))

  submit_chunks-Answers :
      (key : ServerKey) (cut : List (List (Invoice Float))) (w : W)
      → Returns
          (Answers (join cut))
          (submit_chunks ops c s memory_id validating rules known key cut w).0
  unfolding submit_chunks Answers
  submit_chunks-Answers key [] w = Returns-pure (Answers []) [] refl
  submit_chunks-Answers key (chunk ∷ rest) w =
      Returns->>= (Answers chunk) (Answers (chunk ++ join rest))
        (submit_batch ops c s memory_id validating rules known key chunk) _ w
        (submit_batch-Answers key chunk w)
        (λ subs e w1.
          Returns->>= (Answers (join rest)) (Answers (chunk ++ join rest))
            (submit_chunks ops c s memory_id validating rules known key rest) _ w1
            (submit_chunks-Answers key rest w1)
            (λ others k w2.
              Returns-pure (Answers (chunk ++ join rest)) (subs ++ others) (
                length-append subs others ∙ ap₂ (◌+◌) e k ∙ sym (length-append chunk (join rest)))))

  submit-Answers :
      (invoices : List (Invoice Float)) (w : W)
      → Returns (Answers invoices) (submit ops c s memory_id validating rules known invoices w).0
  unfolding submit Answers
  submit-Answers [] w = Returns-pure (Answers []) [] refl
  submit-Answers (invoice ∷ invoices) w =
      Returns->>= (λ _. Unit {0}) (Answers (invoice ∷ invoices)) (server_key ops c s memory_id) _ w
        (Returns-any _)
        (λ key _ w1.
          Returns->>= (λ _. Unit {0}) (Answers (invoice ∷ invoices)) (lift (s.public_key key)) _ w1
            (Returns-any _)
            (λ _ _ w2.
              subst
                (λ l.
                  Returns (Answers l)
                    (submit_chunks ops c s memory_id validating rules known key
                      (chunks max_packets (invoice ∷ invoices)) w2).0)
                (join-chunks max_packets (invoice ∷ invoices) (omega arith)).0
                (submit_chunks-Answers key (chunks max_packets (invoice ∷ invoices)) w2)))

  -- Where `submit` returns, it returns one submission for each invoice, however many requests it made.
  pub submit-length :
      (invoices : List (Invoice Float)) (w w' : W) (subs : List InvoiceSubmission)
      → submit ops c s memory_id validating rules known invoices w ≡ (ok subs, w')
      → length subs ≡ length invoices
  unfolding Answers Returns
  submit-length invoices w w' subs h = submit-Answers invoices w subs (ap (λ r. r.0) h)
