-- ===== src/Pipeline/Submit/Matching.antt =====
-- How pipeline.py finds the answer to each invoice.
use moadian.Base.{
  In-cons, map, ◌≡◌, refl, sym, ◌∙◌, ap, ap₂, Bool, true, false, Option, none, some, List, [], ◌∷◌,
  In, here, there, Text, text_eq, text_eq_sound, arith, Bool-cases, inl, inr, Option-cases, subst,
}
use moadian.Pipeline.Submit.{
  SubmitResult, InvoiceSubmission, result_for, match_results, reference_of,
}

pub text_eq_refl : (t : Text) → text_eq t t ≡ true
text_eq_refl [] = refl
text_eq_refl (x ∷ t) = ground (arith, text_eq_refl t)

-- No two results carry the same uid.
abbrev pub is_distinct : List SubmitResult → Bool
is_distinct [] = true
is_distinct (r ∷ rs) = elim (result_for r.uid rs) [ some s ↦ false | none ↦ is_distinct rs ]

found-In :
    (uid : Text) (rs : List SubmitResult) (r : SubmitResult)
    → result_for uid rs ≡ some r
    → In r rs × (r.uid ≡ uid)
unfolding result_for
found-In uid [] r h = cc
found-In uid (q ∷ rs) r h = elim (Option-cases (result_for uid rs)) [
  | inl later_none ↦ elim (Bool-cases (text_eq q.uid uid)) [
    | inl same ↦
        let e : q ≡ r = ground arith in
        (
          subst (λ z. In z (q ∷ rs)) e here,
          ap (λ (z : SubmitResult). z.uid) (sym e) ∙ text_eq_sound q.uid uid same,
        )
    | inr other ↦ absurd (ground arith)
  ]
  | inr (s, later) ↦ let deeper = found-In uid rs r (ground arith) in (there deeper.0, deeper.1)
]

In-found :
    (r : SubmitResult) (rs : List SubmitResult)
    → In r rs
    → is_distinct rs ≡ true
    → result_for r.uid rs ≡ some r
unfolding result_for
In-found r _ (here {xs = rest}) d = ground (arith, text_eq_refl r.uid)
In-found r _ (there {x = q} {xs = rest} i) d = ground (arith, In-found r rest i)

same_result :
    (uid : Text) (rs rs' : List SubmitResult)
    → is_distinct rs ≡ true
    → is_distinct rs' ≡ true
    → ((r : SubmitResult) → In r rs → In r rs')
    → ((r : SubmitResult) → In r rs' → In r rs)
    → result_for uid rs ≡ result_for uid rs'
same_result uid rs rs' d d' to from = elim (Option-cases (result_for uid rs)) [
  | inl gone ↦ elim (Option-cases (result_for uid rs')) [
    | inl gone' ↦ gone ∙ sym gone'
    | inr (r, found) ↦
        let f = found-In uid rs' r found in
        absurd (
          none_ne_some (
            sym gone ∙ sym (ap (λ (u : Text). result_for u rs) f.1) ∙ In-found r rs (from r f.0) d))
  ]
  | inr (r, found) ↦
      let f = found-In uid rs r found in
      found ∙ sym (In-found r rs' (to r f.0) d') ∙ ap (λ (u : Text). result_for u rs') f.1
]
  where
    none_ne_some : {r : SubmitResult} → none ≡ some r → ⊥
    none_ne_some e = cc

-- One entry of `match_results`.
abbrev submission : Text → Text → Option SubmitResult → InvoiceSubmission
submission uid tax_id o = record {
  uid = uid;
  tax_id = tax_id;
  reference_number = reference_of o;
  raw = o;
}

-- The order in which the organization answers does not matter: two answers with the same results, in
-- each of which no uid occurs twice, give the same submissions; and these are one for each identity,
-- in the order of the identities and with their uids and tax ids.
pub match_results-order :
    (identities : List (Text × Text)) (rs rs' : List SubmitResult)
    → is_distinct rs ≡ true
    → is_distinct rs' ≡ true
    → ((r : SubmitResult) → In r rs → In r rs')
    → ((r : SubmitResult) → In r rs' → In r rs)
    → (match_results identities rs ≡ match_results identities rs')
      × (map (λ x. (x.uid, x.tax_id)) (match_results identities rs) ≡ identities)
unfolding match_results
match_results-order [] rs rs' d d' to from = (refl, refl)
match_results-order ((uid, tax_id) ∷ ids) rs rs' d d' to from =
    let rest = match_results-order ids rs rs' d d' to from in
    (
      ap₂ (λ (o : Option SubmitResult) (l : List InvoiceSubmission). submission uid tax_id o ∷ l)
          (same_result uid rs rs' d d' to from) rest.0,
      ap (◌∷◌ (uid, tax_id)) rest.1,
    )

-- A submission whose uid is that of a result, where no uid occurs twice in the answer, has that result
-- and its reference number.
pub match_results-answered :
    (identities : List (Text × Text)) (rs : List SubmitResult) (r : SubmitResult)
    (x : InvoiceSubmission)
    → is_distinct rs ≡ true
    → In r rs
    → In x (match_results identities rs)
    → x.uid ≡ r.uid
    → (x.raw ≡ some r) × (x.reference_number ≡ r.reference_number)
unfolding match_results
match_results-answered [] rs r x d i k e = elim k [ ]
match_results-answered ((uid, tax_id) ∷ ids) rs r x d i k e =
    elim (In-cons x (submission uid tax_id (result_for uid rs)) (match_results ids rs) k) [
      | inr j ↦ match_results-answered ids rs r x d i j e
      | inl same ↦
          let mine : uid ≡ r.uid = ap (λ (z : InvoiceSubmission). z.uid) (sym same) ∙ e in
          let found : result_for uid rs ≡ some r =
            ap (λ u. result_for u rs) mine ∙ In-found r rs i d in
          (
            ap (λ (z : InvoiceSubmission). z.raw) same ∙ found,
            ap (λ (z : InvoiceSubmission). z.reference_number) same ∙ ap reference_of found,
          )
    ]
