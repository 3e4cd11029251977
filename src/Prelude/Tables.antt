-- ===== src/Prelude/Tables.antt =====
-- Tables as lists of rows: what a unique key means, and which changes respect it.
use green_lab.Prelude.Tests.{str_eq, Bool-cases}
use green_lab.Prelude.Lists.{All, get_elem?}
use green_lab.Prelude.Actions.{find_row}
use mathlib.Core.Path.{◌≡◌, refl, subst, ap}
use mathlib.Core.Logic.{inl, inr}
use mathlib.Core.Bool.{Bool, true, false, not, ◌&&◌}
use mathlib.Core.Option.{none, some, some-injective}
use mathlib.Core.List.{List, [], ◌∷◌, ◌++◌, map}
use native.Mathlib.Omega.{arith}
use text.Mathlib.TextEquality.{eq_iff}
use Prim.Native.Nat.{ℕ, suc}
use Prim.Native.String.{String}

module _ {A : Type 0} (key : A → String) where
  -- No row has the key.
  abbrev pub absent : String → List A → Bool
  absent k [] = true
  absent k (row ∷ rows) = not (str_eq (key row) k) && absent k rows

  -- No two rows have the same key.
  abbrev pub distinct : List A → Bool
  distinct [] = true
  distinct (row ∷ rows) = absent (key row) rows && distinct rows

  absent-append :
      (k : String) (rows : List A) (row : A)
      → absent k rows ≡ true
      → str_eq (key row) k ≡ false
      → absent k (rows ++ row ∷ []) ≡ true
  absent-append k [] row h n = ground arith
  absent-append k (r ∷ rows) row h n = ground (arith, absent-append k rows row)

  -- A row with a new key may be added.
  pub distinct-append :
      (rows : List A) (row : A)
      → distinct rows ≡ true
      → absent (key row) rows ≡ true
      → distinct (rows ++ row ∷ []) ≡ true
  distinct-append [] row h n = refl
  distinct-append (r ∷ rows) row h n = ground (
    arith,
    absent-append (key r) rows row,
    distinct-append rows row,
    eq_iff (key r) (key row),
    eq_iff (key row) (key r),
  )

  -- A lookup that finds nothing shows that a key is absent, if it would have found that key.
  pub find_row-absent :
      (p : A → Bool) (k : String) (rows : List A)
      → ((row : A) → p row ≡ false → str_eq (key row) k ≡ false)
      → find_row p rows ≡ none
      → absent k rows ≡ true
  unfolding find_row
  find_row-absent p k [] h n = refl
  find_row-absent p k (row ∷ rows) h n = ground (arith, h row, find_row-absent p k rows h)

  absent-map :
      (f : A → A) (k : String) (rows : List A)
      → ((row : A) → key (f row) ≡ key row)
      → absent k (map f rows) ≡ absent k rows
  absent-map f k [] h = refl
  absent-map f k (row ∷ rows) h = rw (h row, absent-map f k rows h)

  -- A change that leaves the keys leaves them different.
  pub distinct-map :
      (f : A → A) (rows : List A)
      → ((row : A) → key (f row) ≡ key row)
      → distinct (map f rows) ≡ distinct rows
  distinct-map f [] h = refl
  distinct-map f (row ∷ rows) h = rw (h row, absent-map f (key row) rows h, distinct-map f rows h)

module _ {A : Type 0} (P : A → Type 0) where
  pub All-map :
      (f : A → A) (rows : List A)
      → ((row : A) → P row → P (f row))
      → All P rows
      → All P (map f rows)
  All-map f [] h a = tt
  All-map f (row ∷ rows) h a = (h row a.0, All-map f rows h a.1)

  pub All-find_row :
      (p : A → Bool) (rows : List A) (row : A) → All P rows → find_row p rows ≡ some row → P row
  unfolding find_row
  All-find_row p [] row a h = absurd (cc)
  All-find_row p (r ∷ rows) row a h = elim (Bool-cases (p r)) [
    | inl found ↦ let same : r ≡ row = ground arith in subst P same a.0
    | inr missed ↦ All-find_row p rows row a.1 (rw missed at h)
  ]

-- A row that is found stands in the table and satisfies the condition.
pub find_row-get_elem? :
    {A : Type 0} (p : A → Bool) (rows : List A) (a : A)
    → find_row p rows ≡ some a
    → ((i : ℕ) × (get_elem? rows i ≡ some a)) × (p a ≡ true)
unfolding find_row
find_row-get_elem? p [] a h = absurd (cc)
find_row-get_elem? p (row ∷ rows) a h = elim (Bool-cases (p row)) [
  | inl hit ↦
      let same : some row ≡ some a = rw hit at h in
      ((0, same), subst (λ o. o ≡ true) (ap p (some-injective row a same)) hit)
  | inr miss ↦
      let ((i, at), fits) = find_row-get_elem? p rows a (rw miss at h) in ((suc i, at), fits)
]
