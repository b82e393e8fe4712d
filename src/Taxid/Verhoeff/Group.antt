-- ===== src/Taxid/Verhoeff/Group.antt =====
-- D5 and the permutations, checked value by value, and the loop as a product in the group.
use moadian.Base.{
  ℕ, zero, suc, ◌+◌, ◌%◌, ◌<◌, ◌≡◌, ◌≢◌, refl, sym, ◌∙◌, ap, Bool, true, not, ◌&&◌, ◌||◌, List, [],
  ◌∷◌, ◌==◌, ==_iff, ltb, arith,
}
use moadian.Taxid.Verhoeff.{d5, perm, inv, checksum}

-- Does `p` hold below `n`?
each_below : ℕ → (ℕ → Bool) → Bool
each_below zero p = true
each_below (suc n) p = p n && each_below n p

digits_hold : (n : ℕ) (p : ℕ → Bool) (x : ℕ) → each_below n p ≡ true → x < n → p x ≡ true
unfolding each_below
digits_hold zero p x h lt = absurd (omega arith)
digits_hold (suc n) p x h lt = ground (arith, digits_hold n p x)

-- A test of two digits, checked on all of them.
below_two :
    (p : ℕ → ℕ → Bool)
    → each_below 10 (λ a. each_below 10 (p a)) ≡ true
    → (a b : ℕ) → a < 10
    → b < 10
    → p a b ≡ true
below_two p h a b ha hb = digits_hold 10 (p a) b (digits_hold 10 _ a h ha) hb

below_three :
    (p : ℕ → ℕ → ℕ → Bool)
    → each_below 10 (λ a. each_below 10 (λ b. each_below 10 (p a b))) ≡ true
    → (a b c : ℕ) → a < 10
    → b < 10
    → c < 10
    → p a b c ≡ true
below_three p h a b c ha hb hc = below_two (p a) (digits_hold 10 _ a h ha) b c hb hc

assoc_table :
    each_below 10 (λ a. each_below 10 (λ b. each_below 10 (λ c. d5 (d5 a b) c == d5 a (d5 b c))))
    ≡ true
unfolding each_below d5
assoc_table = refl

pub d5_assoc : (a b c : ℕ) → a < 10 → b < 10 → c < 10 → d5 (d5 a b) c ≡ d5 a (d5 b c)
d5_assoc a b c ha hb hc = (==_iff _ _).0 (below_three _ assoc_table a b c ha hb hc)

closed_table : each_below 10 (λ a. each_below 10 (λ b. ltb (d5 a b) 10)) ≡ true
unfolding each_below d5
closed_table = refl

pub d5-lt : (a b : ℕ) → a < 10 → b < 10 → d5 a b < 10
d5-lt a b ha hb = ground (arith, below_two _ closed_table a b ha hb)

unit_table : each_below 10 (λ a. (d5 0 a == a) && (d5 a 0 == a)) ≡ true
unfolding each_below d5
unit_table = refl

pub d5_unit : (a : ℕ) → a < 10 → (d5 0 a ≡ a) × (d5 a 0 ≡ a)
d5_unit a ha = ground (arith, digits_hold 10 _ a unit_table ha)

inv_table : each_below 10 (λ a. (d5 (inv a) a == 0) && ltb (inv a) 10) ≡ true
unfolding each_below d5 inv
inv_table = refl

pub d5-inv : (a : ℕ) → a < 10 → (d5 (inv a) a ≡ 0) × (inv a < 10)
d5-inv a ha = ground (arith, digits_hold 10 _ a inv_table ha)

perm_table : each_below 8 (λ i. each_below 10 (λ a. ltb (perm i a) 10)) ≡ true
unfolding each_below perm
perm_table = refl

perm-lt : (i a : ℕ) → i < 8 → a < 10 → perm i a < 10
perm-lt i a hi ha = ground (arith, digits_hold 10 _ a (digits_hold 8 _ i perm_table hi) ha)

zero_table : each_below 10 (λ a. perm 0 a == a) ≡ true
unfolding each_below perm
zero_table = refl

pub perm-zero : (a : ℕ) → a < 10 → perm 0 a ≡ a
perm-zero a ha = (==_iff _ _).0 (digits_hold 10 _ a zero_table ha)

-- Multiplication by one factor loses nothing, on either side.
cancel_table :
    each_below 10 (λ a.
      each_below 10
        (λ b. each_below 10 (λ c. (a == b) || (not (d5 c a == d5 c b) && not (d5 a c == d5 b c)))))
    ≡ true
unfolding each_below d5
cancel_table = refl

pub d5_cancel :
    (a b c : ℕ) → a < 10 → b < 10 → c < 10 → a ≢ b → (d5 c a ≢ d5 c b) × (d5 a c ≢ d5 b c)
d5_cancel a b c ha hb hc ne = ground (arith, below_three _ cancel_table a b c ha hb hc)

inject_table :
    each_below 8
      (λ i. each_below 10 (λ a. each_below 10 (λ b. (a == b) || not (perm i a == perm i b))))
    ≡ true
unfolding each_below perm
inject_table = refl

pub perm_injective : (i a b : ℕ) → i < 8 → a < 10 → b < 10 → a ≢ b → perm i a ≢ perm i b
perm_injective i a b hi ha hb ne =
    ground (arith, below_two _ (digits_hold 8 _ i inject_table hi) a b ha hb)

-- The permutation of one position against that of the next, on two distinct digits.
swap_table :
    each_below 8 (λ i. each_below 10 (λ a. each_below 10 (λ b.
      (a == b)
      || not (d5 (perm i a) (perm ((i + 1) % 8) b) == d5 (perm i b) (perm ((i + 1) % 8) a)))))
    ≡ true
unfolding each_below perm d5
swap_table = refl

pub perm_swap :
    (i a b : ℕ)
    → i < 8
    → a < 10
    → b < 10
    → a ≢ b
    → d5 (perm i a) (perm ((i + 1) % 8) b) ≢ d5 (perm i b) (perm ((i + 1) % 8) a)
perm_swap i a b hi ha hb ne =
    ground (arith, below_two _ (digits_hold 8 _ i swap_table hi) a b ha hb)

-- Every element is a decimal digit.
abbrev pub Digits : List ℕ → Type 0
Digits [] = Unit {0}
Digits (x ∷ xs) = (x < 10) × Digits xs

pub perm_mod-lt : (i a : ℕ) → a < 10 → perm (i % 8) a < 10
perm_mod-lt i a ha = perm-lt (i % 8) a (omega arith) ha

pub checksum-lt : (i c : ℕ) (ds : List ℕ) → c < 10 → Digits ds → checksum i c ds < 10
unfolding checksum
checksum-lt i c [] hc h = hc
checksum-lt i c (d ∷ ds) hc h = checksum-lt (i + 1) _ ds (d5-lt c _ hc (perm_mod-lt i d h.0)) h.1

-- The start value is a left factor of the whole loop.
pub checksum_factor :
    (i c : ℕ) (ds : List ℕ) → c < 10 → Digits ds → checksum i c ds ≡ d5 c (checksum i 0 ds)
unfolding checksum
checksum_factor i c [] hc h = sym (d5_unit c hc).1
checksum_factor i c (d ∷ ds) hc h =
    let p = perm (i % 8) d in
    let hp = perm_mod-lt i d h.0 in
    let rest = checksum (i + 1) 0 ds in
    checksum_factor (i + 1) (d5 c p) ds (d5-lt c p hc hp) h.1
    ∙ d5_assoc c p rest hc hp (checksum-lt (i + 1) 0 ds (omega arith) h.1)
    ∙ ap (d5 c) (
        sym (
          ap (λ (t : ℕ). checksum (i + 1) t ds) (d5_unit p hp).0
          ∙ checksum_factor (i + 1) p ds hp h.1))

-- Two start values that differ give two results that differ.
pub checksum_injective :
    (i c e : ℕ) (ds : List ℕ)
    → c < 10
    → e < 10
    → Digits ds
    → c ≢ e
    → checksum i c ds ≢ checksum i e ds
checksum_injective i c e ds hc he h ne same =
    (d5_cancel c e (checksum i 0 ds) hc he (checksum-lt i 0 ds (omega arith) h) ne).1
      (sym (checksum_factor i c ds hc h) ∙ same ∙ checksum_factor i e ds he h)
