-- ===== src/Ingestion/Compact/Offsets.antt =====
-- What the loops over fields and offsets store under each name.
use green_lab.Prelude.{
  ℕ, zero, suc, ◌+◌, ◌*◌, ◌≡◌, ◌≢◌, refl, ◌∙◌, String, true, Option, none, some, List, [], ◌∷◌,
  length, get_elem?, get_elem?-lt, get_elem?-some, All, eq_iff, ◌==◌, ==_ne, ==_refl, arith, ◌⊎◌,
}
use green_lab.Prelude.Maps.{lookup, insert, lookup-insert, lookup-insert_self}
use green_lab.Ingestion.Domain.{Time, millisecond, ts_delta_invalid, ok, err}
use green_lab.Ingestion.Compact.{share_base, add_offsets, resolve_td_offsets}

-- No name stands twice.
abbrev pub Distinct : List String → Type 0
Distinct [] = Unit
Distinct (name ∷ names) = All (λ other. name ≢ other) names × Distinct names

share_base_absent :
    (base : Time) (names : List String) (m : List (String × Option Time)) (k : String)
    → All (λ other. k ≢ other) names
    → lookup k (share_base base names m) ≡ lookup k m
unfolding share_base
share_base_absent base [] m k h = refl
share_base_absent base (name ∷ names) m k h =
    share_base_absent base names (insert name (some base) m) k h.1
    ∙ ground (arith, lookup-insert name k (some base) m, eq_iff name k)

lookup-share_base :
    (base : Time) (names : List String) (m : List (String × Option Time)) (i : ℕ) {k : String}
    → Distinct names
    → get_elem? names i ≡ some k
    → lookup k (share_base base names m) ≡ some (some base)
unfolding share_base
lookup-share_base base [] m i d h = cc
lookup-share_base base (name ∷ names) m zero {k} d h =
    let same : name ≡ k = cc in
    rw (← same) (
      share_base_absent base names (insert name (some base) m) name d.0
      ∙ lookup-insert_self name (some base) m)
lookup-share_base base (name ∷ names) m (suc i) {k} d h =
    lookup-share_base base names (insert name (some base) m) i d.1 h

add_offsets_absent :
    (base : Time) (td : List ℕ) (names : List String) (m : List (String × Option Time)) (k : String)
    → All (λ other. k ≢ other) names
    → lookup k (add_offsets base td names m) ≡ lookup k m
unfolding add_offsets
add_offsets_absent base [] [] m k h = refl
add_offsets_absent base [] (name ∷ names) m k h = refl
add_offsets_absent base (d ∷ td) [] m k h = refl
add_offsets_absent base (d ∷ td) (name ∷ names) m k h =
    add_offsets_absent base td names (insert name (some (base + d * millisecond)) m) k h.1
    ∙ ground (arith, lookup-insert name k (some (base + d * millisecond)) m, eq_iff name k)

lookup-add_offsets :
    (base : Time) (td : List ℕ) (names : List String) (m : List (String × Option Time)) (i d : ℕ)
    {k : String}
    → Distinct names
    → get_elem? names i ≡ some k
    → get_elem? td i ≡ some d
    → lookup k (add_offsets base td names m) ≡ some (some (base + d * millisecond))
unfolding add_offsets
lookup-add_offsets base [] names m i d dn hn ht = cc
lookup-add_offsets base (e ∷ td) [] m i d dn hn ht = cc
lookup-add_offsets base (e ∷ td) (name ∷ names) m zero d {k} dn hn ht =
    let same : name ≡ k = cc in
    let offset : e ≡ d = cc in
    rw (← same, ← offset)
      (add_offsets_absent base td names (insert name (some (base + e * millisecond)) m) name dn.0
        ∙ lookup-insert_self name (some (base + e * millisecond)) m)
lookup-add_offsets base (e ∷ td) (name ∷ names) m (suc i) d dn hn ht =
    lookup-add_offsets base td names (insert name (some (base + e * millisecond)) m) i d dn.1 hn ht

-- The instant of the field at place `i`: the base, moved by its offset if there are offsets.
abbrev pub offset_instant : Time → List ℕ → ℕ → Option Time
offset_instant base [] i = some base
offset_instant base (d ∷ td) i = elim (get_elem? (d ∷ td) i) [
  | none ↦ none
  | some e ↦ some (base + e * millisecond)
]

-- With no offsets, or one for each of the distinct names, every field gets its instant.
pub resolve_td_offsets_ok :
    (base : Time) (td : List ℕ) (names : List String)
    → (length td ≡ 0) ⊎ (length td ≡ length names)
    → Distinct names
    → (result : List (String × Option Time)) × (resolve_td_offsets base td names ≡ ok result)
      × ((i : ℕ) (k : String)
          → get_elem? names i ≡ some k
          → lookup k result ≡ some (offset_instant base td i))
unfolding resolve_td_offsets
resolve_td_offsets_ok base [] names h d =
    (share_base base names [], refl, λ i k e. lookup-share_base base names [] i d e)
resolve_td_offsets_ok base (t ∷ td) names h d =
    let same : length (t ∷ td) ≡ length names = omega arith in
    let equal : (length (t ∷ td) == length names) ≡ true = rw same (==_refl (length names)) in
    (
      add_offsets base (t ∷ td) names [],
      ground arith,
      λ i k e.
          let (off, there) = get_elem?-some (t ∷ td) i (omega (arith, get_elem?-lt names i e)) in
          rw (there, offset_instant) (lookup-add_offsets base (t ∷ td) names [] i off d e there),
    )

-- Any other number of offsets is refused.
pub resolve_td_offsets_err :
    (base : Time) (td : List ℕ) (names : List String)
    → length td ≢ 0
    → length td ≢ length names
    → resolve_td_offsets base td names ≡ err ts_delta_invalid
unfolding resolve_td_offsets
resolve_td_offsets_err base td names h k = rw (==_ne _ _ h, ==_ne _ _ k)
