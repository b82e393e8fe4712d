-- ===== src/Mock/Counting.antt =====
-- Counting the submissions that have a text in one of their fields.
use moadian.Base.{
  ℕ, ◌+◌, ◌≤◌, ◌≡◌, Bool, true, List, [], ◌∷◌, select, if◌then◌else◌, Text, text_eq, In, here,
  there, arith, Bool-cases, inl, inr,
}
use moadian.Mock.{dict_set, StoredSubmission}
use moadian.Mock.Routes.{values, store_all}

module _ (key : StoredSubmission → Text) where
  -- How many of the submissions have the text.
  abbrev pub tally : Text → List StoredSubmission → ℕ
  tally u [] = 0
  tally u (s ∷ ss) = (if text_eq (key s) u then 1 else 0) + tally u ss

  tally-dict_set :
      (u k : Text) (s : StoredSubmission) (t : List (Text × StoredSubmission))
      → tally u (values (dict_set k s t)) ≤ tally u (s ∷ values t)
  unfolding dict_set
  tally-dict_set u k s [] = omega arith
  tally-dict_set u k s ((j, x) ∷ t) = elim (Bool-cases (text_eq j k)) [
    | inl e ↦ rw e (omega arith)
    | inr e ↦ rw e (omega (arith, tally-dict_set u k s t))
  ]

  pub tally-store_all :
      (u : Text) (ss : List StoredSubmission) (t : List (Text × StoredSubmission))
      → tally u (values (store_all ss t)) ≤ tally u (values t) + tally u ss
  unfolding store_all
  tally-store_all u [] t = omega arith
  tally-store_all u (s ∷ ss) t = omega (
    arith,
    tally-store_all u ss (dict_set s.reference_number s t),
    tally-dict_set u s.reference_number s t,
  )

  pub tally-select :
      (u : Text) (p : StoredSubmission → Bool) (ss : List StoredSubmission)
      → tally u (select p ss) ≤ tally u ss
  tally-select u p [] = omega arith
  tally-select u p (s ∷ ss) = elim (Bool-cases (p s)) [
    | inl e ↦ rw e (omega (arith, tally-select u p ss))
    | inr e ↦ rw e (omega (arith, tally-select u p ss))
  ]

  pub tally-In :
      (u : Text) (x : StoredSubmission) (ss : List StoredSubmission)
      → text_eq (key x) u ≡ true
      → In x ss
      → 1 ≤ tally u ss
  tally-In u x _ e (here {xs = ss}) = rw e (omega arith)
  tally-In u x _ e (there {x = s} {xs = ss} k) = omega (arith, tally-In u x ss e k)
