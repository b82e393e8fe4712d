-- ===== src/Persian/Words.antt =====
-- The folded text as words with one space between.
use moadian.Base.{
  ℕ, ◌≡◌, refl, ◌∙◌, ap, Bool, true, false, not, ◌&&◌, List, [], ◌∷◌, ◌++◌, all, select, is_empty,
  Text, is_space, is_blank, Bool-cases, both, inl, inr,
}
use moadian.Rules.Engine.{strip, strip_left, strip_right}
use moadian.Persian.{Unicode, fold, collapse, words, starts_word, joined, translate, is_mark}

-- The words after a first one, each behind a space.
abbrev pub after_space : List Text → Text
after_space [] = []
after_space (w ∷ ws) = 32 ∷ w ++ after_space ws

-- `" ".join(words)`
abbrev pub spaced : List Text → Text
spaced [] = []
spaced (w ∷ ws) = w ++ after_space ws

-- What a text is after a word: more of the word, or a space and the next words.
abbrev continued : Bool → List Text → Text
continued true ws = spaced ws
continued false ws = after_space ws

spaced-joined : (c : ℕ) (b : Bool) (ws : List Text) → spaced (joined c b ws) ≡ c ∷ continued b ws
spaced-joined c true [] = refl
spaced-joined c true (w ∷ ws) = refl
spaced-joined c false ws = refl

is_empty-joined : (c : ℕ) (b : Bool) (ws : List Text) → is_empty (joined c b ws) ≡ false
is_empty-joined c true [] = refl
is_empty-joined c true (w ∷ ws) = refl
is_empty-joined c false ws = refl

is_blank-collapse : (t : Text) → is_blank (collapse true t) ≡ is_empty (words t)
unfolding collapse words
is_blank-collapse [] = refl
is_blank-collapse (c ∷ t) = elim (Bool-cases (is_space c)) [
  | inl e ↦ rw e (is_blank-collapse t)
  | inr e ↦ rw (e, e, is_empty-joined c (starts_word t) (words t)) refl
]

strip_right-space :
    (t : Text) (ws : List Text)
    → is_blank t ≡ is_empty ws
    → strip_right t ≡ spaced ws
    → strip_right (32 ∷ t) ≡ after_space ws
strip_right-space t [] b h = rw b refl
strip_right-space t (w ∷ ws) b h = rw (b, h) refl

mutual
  unfolding collapse words

  strip_right-collapse : (t : Text) → strip_right (collapse true t) ≡ spaced (words t)
  strip_right-collapse [] = refl
  strip_right-collapse (c ∷ t) = elim (Bool-cases (is_space c)) [
    | inl e ↦ rw e (strip_right-collapse t)
    | inr e ↦
        rw (e, e, spaced-joined c (starts_word t) (words t))
          (ap (◌∷◌ c) (strip_right-collapse_word t))
  ]

  strip_right-collapse_word :
      (t : Text) → strip_right (collapse false t) ≡ continued (starts_word t) (words t)
  strip_right-collapse_word [] = refl
  strip_right-collapse_word (c ∷ t) = elim (Bool-cases (is_space c)) [
    | inl e ↦ rw e (
        strip_right-space (collapse true t) (words t) (is_blank-collapse t)
          (strip_right-collapse t))
    | inr e ↦
        rw (e, e, spaced-joined c (starts_word t) (words t))
          (ap (◌∷◌ c) (strip_right-collapse_word t))
  ]

strip_left-collapse : (t : Text) → strip_left (collapse true t) ≡ collapse true t
unfolding collapse
strip_left-collapse [] = refl
strip_left-collapse (c ∷ t) = elim (Bool-cases (is_space c)) [
  | inl e ↦ rw e (strip_left-collapse t)
  | inr e ↦ rw (e, e) refl
]

-- The two calls at the end of `fold` join the words by single spaces.
strip-collapse : (t : Text) → strip (collapse false t) ≡ spaced (words t)
unfolding collapse words
strip-collapse [] = refl
strip-collapse (c ∷ t) = elim (Bool-cases (is_space c)) [
  | inl e ↦ rw e (ap strip_right (strip_left-collapse t) ∙ strip_right-collapse t)
  | inr e ↦
      rw (e, e, e, spaced-joined c (starts_word t) (words t))
        (ap (◌∷◌ c) (strip_right-collapse_word t))
]

-- A word: not empty and without a space.
abbrev is_word : Text → Bool
is_word w = not (is_empty w) && all (λ c. not (is_space c)) w

not-true : (b : Bool) → not b ≡ true → b ≡ false
not-true true h = cc
not-true false h = refl

all-joined :
    (c : ℕ) (b : Bool) (ws : List Text)
    → is_space c ≡ false
    → all is_word ws ≡ true
    → all is_word (joined c b ws) ≡ true
all-joined c true [] e h = rw e refl
all-joined c true (w ∷ ws) e h =
    let (word, others) = both (is_word w) (all is_word ws) h in
    let (nonempty, letters) = both (not (is_empty w)) (all (λ d. not (is_space d)) w) word in
    rw (e, letters, others) refl
all-joined c false ws e h = rw (e, h) refl

all-words : (t : Text) → all is_word (words t) ≡ true
unfolding words
all-words [] = refl
all-words (c ∷ t) = elim (Bool-cases (is_space c)) [
  | inl e ↦ rw e (all-words t)
  | inr e ↦ rw e (all-joined c (starts_word t) (words t) e (all-words t))
]

is_space-after : (ws : List Text) → starts_word (after_space ws) ≡ false
is_space-after [] = refl
is_space-after (w ∷ ws) = refl

words-append :
    (w t : Text) → is_word w ≡ true → starts_word t ≡ false → words (w ++ t) ≡ w ∷ words t
unfolding words
words-append [] t h k = cc
words-append (c ∷ []) t h k = rw (not-true (is_space c) (both (not (is_space c)) true h).0, k) refl
words-append (c ∷ d ∷ w) t h k =
    let (first, later) = both (not (is_space c)) (all (λ e. not (is_space e)) (d ∷ w)) h in
    let (second, others) = both (not (is_space d)) (all (λ e. not (is_space e)) w) later in
    rw (not-true (is_space c) first, words-append (d ∷ w) t later k, second) refl

words-after_space : (ws : List Text) → all is_word ws ≡ true → words (after_space ws) ≡ ws
unfolding words
words-after_space [] h = refl
words-after_space (w ∷ ws) h =
    let (word, others) = both (is_word w) (all is_word ws) h in
    words-append w (after_space ws) word (is_space-after ws)
    ∙ ap (◌∷◌ w) (words-after_space ws others)

words-spaced : (ws : List Text) → all is_word ws ≡ true → words (spaced ws) ≡ ws
unfolding words
words-spaced [] h = refl
words-spaced (w ∷ ws) h = words-after_space (w ∷ ws) h

-- A folded text is its words with one space between, and none before, behind or in them.
pub fold-words :
    (unicode : Unicode) (t : Text)
    → (fold unicode t ≡ spaced (words (fold unicode t)))
      × (all is_word (words (fold unicode t)) ≡ true)
unfolding fold words
fold-words unicode [] = (refl, refl)
fold-words unicode (c ∷ t) =
    let mapped =
      unicode.casefold (select (λ d. not (is_mark d)) (translate (unicode.nfc (c ∷ t)))) in
    rw (strip-collapse mapped, words-spaced (words mapped) (all-words mapped))
      (refl, all-words mapped)
