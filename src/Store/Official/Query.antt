-- ===== src/Store/Official/Query.antt =====
-- What FTS5 reads in a match expression that the catalogue builds.
use moadian.Base.{
  ℕ, zero, suc, ◌≡◌, refl, sym, ap, false, Option, none, some, List, [], ◌∷◌, ◌++◌, length,
  if◌then◌else◌, ◌==◌, Text, codes, Bool-cases, ==_iff, inl, inr,
}
use mathlib.Core.Option
use mathlib.Core.List.{append_assoc}
use moadian.Persian.{Unicode, fold, words}
use moadian.Persian.Words.{spaced, fold-words}
use moadian.Store.Official.{double_quotes, all_of, fts_query}

abbrev push : ℕ → Option (Text × Text) → Option (Text × Text)
push c none = none
push c (some (t, rest)) = some (c ∷ t, rest)

-- A string of FTS5 behind its first quote: what it holds, and what comes after its last quote. Two
-- quotes in it stand for one.
unfoldable pub read_string : Text → Option (Text × Text)
read_string [] = none
read_string (c ∷ []) = if c == 34 then some ([], []) else none
read_string (c ∷ d ∷ t) =
    let shorter = read_string t in
    let rest = read_string (d ∷ t) in
    if c == 34 then (if d == 34 then push 34 shorter else some ([], d ∷ t)) else push c rest

-- What is left behind a prefix.
unfoldable pub behind : Text → Text → Option Text
behind [] t = some t
behind (p ∷ ps) [] = none
behind (p ∷ ps) (c ∷ t) = let rest = behind ps t in if p == c then rest else none

abbrev more : (Text → Option (List Text)) → Text → Text → Option (List Text)
more read w [] = some (w ∷ [])
more read w (c ∷ t) = elim (behind (codes " AND ") (c ∷ t)) [
  | none ↦ none
  | some u ↦ Option.map (◌∷◌ w) (read u)
]

abbrev starred : (Text → Option (List Text)) → Option (Text × Text) → Option (List Text)
starred read none = none
starred read (some (w, t)) = elim (behind (codes "*") t) [ none ↦ none | some u ↦ more read w u ]

-- Prefix terms, all of which a row must match: `"…"*` and `AND` between them; at most `n` of them.
unfoldable pub read_query : ℕ → Text → Option (List Text)
read_query zero [] = some []
read_query zero (c ∷ t) = none
read_query (suc n) t = elim (behind (34 ∷ []) t) [
  | none ↦ none
  | some u ↦ starred (read_query n) (read_string u)
]

read_string-plain :
    (c : ℕ) (t : Text) (y : Text × Text)
    → (c == 34) ≡ false
    → read_string t ≡ some y
    → read_string (c ∷ t) ≡ push c (some y)
unfolding read_string
read_string-plain c [] y e h = cc
read_string-plain c (d ∷ t) y e h = rw (e, h) refl

-- A quoted text is read back, whatever it holds.
read_string-double_quotes :
    (w rest : Text) → read_string (double_quotes w ++ 34 ∷ 42 ∷ rest) ≡ some (w, 42 ∷ rest)
unfolding read_string double_quotes
read_string-double_quotes [] rest = refl
read_string-double_quotes (c ∷ w) rest = elim (Bool-cases (c == 34)) [
  | inl e ↦
      rw (e, read_string-double_quotes w rest)
        (ap (λ (d : ℕ). some (d ∷ w, 42 ∷ rest)) (sym ((==_iff c 34).0 e)))
  | inr e ↦ rw e (read_string-plain c _ _ e (read_string-double_quotes w rest))
]

read_query-all_of : (ws : List Text) → read_query (length ws) (all_of ws) ≡ some ws
unfolding read_query all_of behind
read_query-all_of [] = refl
read_query-all_of (w ∷ []) = rw (read_string-double_quotes w []) refl
read_query-all_of (w ∷ v ∷ ws) =
    rw
      (
        append_assoc (double_quotes w) (34 ∷ 42 ∷ []) (codes " AND " ++ all_of (v ∷ ws)),
        read_string-double_quotes w (codes " AND " ++ all_of (v ∷ ws)),
        read_query-all_of (v ∷ ws),
      )
      refl

-- By the documented syntax of FTS5, the match expression for any text is read as exactly the words of
-- the folded text, each a prefix and all of them required, so that nothing that is typed is an
-- operator; and the folded text is these words with one space between.
pub fts_query-words :
    (unicode : Unicode) (t : Text)
    → (read_query (length (words (fold unicode t))) (fts_query unicode t)
        ≡ some (words (fold unicode t)))
      × (fold unicode t ≡ spaced (words (fold unicode t)))
fts_query-words unicode t = (read_query-all_of (words (fold unicode t)), (fold-words unicode t).0)
