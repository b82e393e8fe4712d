-- ===== src/Base/Lists.antt =====
-- Lists measured and indexed by native numbers, under the library's names.
use Prim.Native.Nat.{ℕ, zero, suc, ◌+◌, ◌-◌, ◌≤◌, min}
use mathlib.Core.Path.{◌≡◌, refl, ap, subst, ◌∙◌}
use mathlib.Core.Logic.{inl, inr, ◌⊎◌}
use mathlib.Core.Bool.{Bool, true, false, ◌&&◌}
use mathlib.Core.List.{List, [], ◌∷◌, ◌++◌, map}
use native.Mathlib.Omega.{arith}
use moadian.Base.Tests.{if◌then◌else◌, Bool-cases}

module _ {ℓ} {A : Type ℓ} where
  abbrev pub length : List A → ℕ
  length [] = 0
  length (x ∷ xs) = suc (length xs)

  abbrev pub get_or : List A → ℕ → A → A
  get_or [] i d = d
  get_or (x ∷ xs) zero d = x
  get_or (x ∷ xs) (suc i) d = get_or xs i d

  abbrev pub take : ℕ → List A → List A
  take zero xs = []
  take (suc n) [] = []
  take (suc n) (x ∷ xs) = x ∷ take n xs

  abbrev pub drop : ℕ → List A → List A
  drop zero xs = xs
  drop (suc n) [] = []
  drop (suc n) (x ∷ xs) = drop n xs

  abbrev pub replicate : ℕ → A → List A
  replicate zero a = []
  replicate (suc n) a = a ∷ replicate n a

  -- Does every element pass?
  abbrev pub all : (A → Bool) → List A → Bool
  all p [] = true
  all p (x ∷ xs) = p x && all p xs

  -- The elements that pass.
  abbrev pub select : (A → Bool) → List A → List A
  select p [] = []
  select p (x ∷ xs) = let rest = select p xs in if p x then x ∷ rest else rest

  abbrev pub is_empty : List A → Bool
  is_empty [] = true
  is_empty (x ∷ xs) = false

  pub length-append : (xs ys : List A) → length (xs ++ ys) ≡ length xs + length ys
  length-append [] ys = omega arith
  length-append (x ∷ xs) ys = omega (arith, length-append xs ys)

module _ {ℓ} {A : Type ℓ} where
  pub take-append-drop : (n : ℕ) (xs : List A) → take n xs ++ drop n xs ≡ xs
  take-append-drop zero xs = refl
  take-append-drop (suc n) [] = refl
  take-append-drop (suc n) (x ∷ xs) = ap (◌∷◌ x) (take-append-drop n xs)

  pub length-take : (n : ℕ) (xs : List A) → length (take n xs) ≡ min n (length xs)
  length-take zero xs = omega arith
  length-take (suc n) [] = omega arith
  length-take (suc n) (x ∷ xs) = omega (arith, length-take n xs)

  pub length-drop : (n : ℕ) (xs : List A) → length (drop n xs) ≡ length xs - n
  length-drop zero xs = omega arith
  length-drop (suc n) [] = omega arith
  length-drop (suc n) (x ∷ xs) = omega (arith, length-drop n xs)

  pub length-map {κ} : {B : Type κ} (xs : List A) (f : A → B) → length (map f xs) ≡ length xs
  length-map [] f = refl
  length-map (x ∷ xs) f = ap suc (length-map xs f)

  pub take-append_exact : (n : ℕ) (xs ys : List A) → length xs ≡ n → take n (xs ++ ys) ≡ xs
  take-append_exact zero [] ys h = refl
  take-append_exact zero (x ∷ xs) ys h = absurd (omega arith)
  take-append_exact (suc n) [] ys h = absurd (omega arith)
  take-append_exact (suc n) (x ∷ xs) ys h = ap (◌∷◌ x) (take-append_exact n xs ys (omega arith))

  pub drop-append_exact : (n : ℕ) (xs ys : List A) → length xs ≡ n → drop n (xs ++ ys) ≡ ys
  drop-append_exact zero [] ys h = refl
  drop-append_exact zero (x ∷ xs) ys h = absurd (omega arith)
  drop-append_exact (suc n) [] ys h = absurd (omega arith)
  drop-append_exact (suc n) (x ∷ xs) ys h = drop-append_exact n xs ys (omega arith)

  pub all-append : (p : A → Bool) (xs ys : List A) → all p (xs ++ ys) ≡ (all p xs && all p ys)
  all-append p [] ys = refl
  all-append p (x ∷ xs) ys = ground (arith, all-append p xs ys)

  pub select-append :
      (p : A → Bool) (xs ys : List A) → select p (xs ++ ys) ≡ select p xs ++ select p ys
  select-append p [] ys = refl
  select-append p (x ∷ xs) ys = ground (arith, select-append p xs ys)

-- `a` stands in the list.
pub data In {ℓ} {A : Type ℓ} (a : A) : List A → Type ℓ where
  here : {xs : List A} → In a (a ∷ xs)
  there : {x : A} {xs : List A} → In a xs → In a (x ∷ xs)

module _ {ℓ} {A : Type ℓ} where
  -- Nothing selected from two lists is nothing selected from either.
  pub select-append-empty :
      (p : A → Bool) (xs ys : List A)
      → select p (xs ++ ys) ≡ []
      → (select p xs ≡ []) × (select p ys ≡ [])
  select-append-empty p [] ys h = (refl, h)
  select-append-empty p (x ∷ xs) ys h = ground (arith, select-append-empty p xs ys)

  pub is_empty-true : (xs : List A) → is_empty xs ≡ true → xs ≡ []
  is_empty-true [] h = refl
  is_empty-true (x ∷ xs) h = cc

pub In-cons {ℓ} : {A : Type ℓ} (a b : A) (xs : List A) → In a (b ∷ xs) → (a ≡ b) ⊎ In a xs
In-cons a _ _ here = inl refl
In-cons a _ _ (there k) = inr k

pub In-last {ℓ} : {A : Type ℓ} (b : A) (xs : List A) → In b (xs ++ b ∷ [])
In-last b [] = here
In-last b (x ∷ xs) = there (In-last b xs)

pub In-before {ℓ} : {A : Type ℓ} (a b : A) (xs : List A) → In a xs → In a (xs ++ b ∷ [])
In-before a b _ here = here
In-before a b _ (there k) = there (In-before a b _ k)

pub In-append_last {ℓ} :
    {A : Type ℓ} (a b : A) (xs : List A) → In a (xs ++ b ∷ []) → (a ≡ b) ⊎ In a xs
In-append_last a b [] k = In-cons a b [] k
In-append_last a b (x ∷ xs) k = elim (In-cons a x (xs ++ b ∷ []) k) [
  | inl e ↦ inr (subst (λ y. In a (y ∷ xs)) e here)
  | inr j ↦ elim (In-append_last a b xs j) [ inl e ↦ inl e | inr i ↦ inr (there i) ]
]

pub In-nothing {ℓ} : {A : Type ℓ} {a : A} → In a [] → ⊥
In-nothing k = elim k [ ]

module _ {ℓ} {A : Type ℓ} where
  pub In-take : (a : A) (n : ℕ) (xs : List A) → In a (take n xs) → In a xs
  In-take a zero xs k = elim k [ ]
  In-take a (suc n) [] k = elim k [ ]
  In-take a (suc n) (x ∷ xs) k = elim (In-cons a x (take n xs) k) [
    | inl e ↦ subst (λ y. In a (y ∷ xs)) e here
    | inr j ↦ there (In-take a n xs j)
  ]

  pub take_all : (n : ℕ) (xs : List A) → length xs ≤ n → take n xs ≡ xs
  take_all zero [] h = refl
  take_all zero (x ∷ xs) h = absurd (omega arith)
  take_all (suc n) [] h = refl
  take_all (suc n) (x ∷ xs) h = ap (◌∷◌ x) (take_all n xs (omega arith))

  -- What is selected passes and was there.
  pub In-select : (p : A → Bool) (a : A) (xs : List A) → In a (select p xs) → (p a ≡ true) × In a xs
  In-select p a [] k = elim k [ ]
  In-select p a (x ∷ xs) k = elim (Bool-cases (p x)) [
    | inr c ↦ let (passes, i) = In-select p a xs (rw c at k) in (passes, there i)
    | inl c ↦ elim (In-cons a x (select p xs) (rw c at k)) [
      | inl e ↦ (ap p e ∙ c, subst (λ y. In a (y ∷ xs)) e here)
      | inr j ↦ let (passes, i) = In-select p a xs j in (passes, there i)
    ]
  ]

  -- What is there and passes is selected.
  pub select-In : (p : A → Bool) (a : A) (xs : List A) → p a ≡ true → In a xs → In a (select p xs)
  select-In p a _ h (here {xs = xs}) = rw h here
  select-In p a _ h (there {x = x} {xs = xs} k) = elim (Bool-cases (p x)) [
    | inl c ↦ rw c (there (select-In p a xs h k))
    | inr c ↦ rw c (select-In p a xs h k)
  ]
