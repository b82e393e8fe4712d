-- ===== src/Auth/Store/Laws.antt =====
-- What a lookup by id gives after each statement on the users table.
use moadian.Base.{
  ℕ, ◌≡◌, ◌≢◌, refl, ap, Option, none, some, List, [], ◌∷◌, ◌==◌, if◌then◌else◌, arith, Bool-cases,
  inl, inr,
}
use moadian.Auth.Store.{User, find_user, update_rows, delete_rows}

abbrev pub map_user : (User → User) → Option User → Option User
map_user f none = none
map_user f (some u) = some (f u)

pub find-update_same :
    (i : ℕ) (f : User → User) (us : List User)
    → ((u : User) → (f u).id ≡ u.id)
    → find_user i (update_rows i f us) ≡ map_user f (find_user i us)
unfolding find_user update_rows
find-update_same i f [] k = refl
find-update_same i f (u ∷ us) k = elim (Bool-cases (u.id == i)) [
  | inl e ↦ rw (e, k u, e) refl
  | inr e ↦ rw (e, e) (find-update_same i f us k)
]

pub find-update_other :
    (i j : ℕ) (f : User → User) (us : List User)
    → i ≢ j
    → ((u : User) → (f u).id ≡ u.id)
    → find_user i (update_rows j f us) ≡ find_user i us
unfolding find_user update_rows
find-update_other i j f [] ne k = refl
find-update_other i j f (u ∷ us) ne k = elim (Bool-cases (u.id == j)) [
  | inl e ↦ rw (e, k u) (ground (arith, find-update_other i j f us ne k))
  | inr e ↦ rw e (ap (λ r. if u.id == i then some u else r) (find-update_other i j f us ne k))
]

pub find-delete_same : (i : ℕ) (us : List User) → find_user i (delete_rows i us) ≡ none
unfolding find_user delete_rows
find-delete_same i [] = refl
find-delete_same i (u ∷ us) = elim (Bool-cases (u.id == i)) [
  | inl e ↦ rw e (find-delete_same i us)
  | inr e ↦ rw (e, e) (find-delete_same i us)
]

pub find-delete_other :
    (i j : ℕ) (us : List User) → i ≢ j → find_user i (delete_rows j us) ≡ find_user i us
unfolding find_user delete_rows
find-delete_other i j [] ne = refl
find-delete_other i j (u ∷ us) ne = elim (Bool-cases (u.id == j)) [
  | inl e ↦ rw e (ground (arith, find-delete_other i j us ne))
  | inr e ↦ rw e (ap (λ r. if u.id == i then some u else r) (find-delete_other i j us ne))
]
