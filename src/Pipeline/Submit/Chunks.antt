-- ===== src/Pipeline/Submit/Chunks.antt =====
-- How pipeline.py cuts a submission into requests.
use moadian.Base.{
  ℕ, zero, suc, ◌≤◌, ◌<◌, ◌≡◌, refl, ap, ◌∙◌, Bool, true, not, ◌&&◌, List, [], ◌∷◌, ◌++◌, take,
  drop, length, length-take, length-drop, take-append-drop, is_empty, leb, all, arith,
}
use moadian.Pipeline.Submit.{chunks_on, chunks}

-- The lists one after another.
abbrev pub join : {A : Type 0} → List (List A) → List A
join [] = []
join (xs ∷ rest) = xs ++ join rest

-- A request that is neither empty nor too large.
abbrev pub fits : {A : Type 0} → ℕ → List A → Bool
fits n chunk = not (is_empty chunk) && leb (length chunk) n

module _ {A : Type 0} where
  join-chunks_on :
      (fuel n : ℕ) (xs : List A) → 0 < n → length xs ≤ fuel → join (chunks_on fuel n xs) ≡ xs
  unfolding chunks_on
  join-chunks_on zero n [] hn h = refl
  join-chunks_on zero n (x ∷ xs) hn h = absurd (omega arith)
  join-chunks_on (suc f) n [] hn h = refl
  join-chunks_on (suc f) n (x ∷ xs) hn h =
      ap (◌++◌ (take n (x ∷ xs)))
        (join-chunks_on f n (drop n (x ∷ xs)) hn (omega (arith, length-drop n (x ∷ xs))))
      ∙ take-append-drop n (x ∷ xs)

  first_chunk : (n : ℕ) (x : A) (xs : List A) → 0 < n → fits n (take n (x ∷ xs)) ≡ true
  first_chunk zero x xs h = absurd (omega arith)
  first_chunk (suc n) x xs h = ground (arith, length-take n xs)

  all-chunks_on : (fuel n : ℕ) (xs : List A) → 0 < n → all (fits n) (chunks_on fuel n xs) ≡ true
  unfolding chunks_on
  all-chunks_on zero n xs hn = refl
  all-chunks_on (suc f) n [] hn = refl
  all-chunks_on (suc f) n (x ∷ xs) hn =
      rw (first_chunk n x xs hn, all-chunks_on f n (drop n (x ∷ xs)) hn)

  -- Cut by a positive limit, the requests are none of them empty, none above the limit, and hold
  -- every element once, in order.
  pub join-chunks :
      (n : ℕ) (xs : List A)
      → 0 < n
      → (join (chunks n xs) ≡ xs) × (all (fits n) (chunks n xs) ≡ true)
  unfolding chunks
  join-chunks n xs h =
      (join-chunks_on (length xs) n xs h (omega arith), all-chunks_on (length xs) n xs h)
