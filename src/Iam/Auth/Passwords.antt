-- ===== src/Iam/Auth/Passwords.antt =====
-- What a new password leaves in the table of users.
use Prim.Native.String.{len}
use green_lab.Prelude.{
  ◌≡◌, ◌≢◌, ◌≤◌, ◌<◌, refl, sym, ◌∙◌, ap, subst, String, true, false, Bool-cases, inl, inr,
  Option-cases, some, List, [], ◌∷◌, map, All, All-weaken, str_eq, eq_iff, ltb, if◌then◌else◌,
  arith,
}
use green_lab.Prelude.Actions.{done}
use green_lab.Ingestion.Domain.{Time}
use green_lab.Iam.User.{User, Lib, hash_password, set_password, is_reset_token_valid}
use green_lab.Iam.Store.{update_row}

-- The rows of the other users.
abbrev pub others : String → List User → List User
others id [] = []
others id (row ∷ rows) = let rest = others id rows in if str_eq row.id id then rest else row ∷ rest

-- The user has a new password, hashed, and nobody else has changed.
abbrev pub HasNewPassword : Lib → String → String → List User → List User → Type 0
HasNewPassword lib password id before after =
    (8 ≤ len password)
    × ((hash : String) × (lib.bcrypt_generate (lib.sha256_hex password) ≡ some hash)
        × All (λ (row : User). row.id ≡ id → row.password_hash ≡ hash) after)
    × (others id after ≡ others id before)
    × (map (λ (row : User). row.id) after ≡ map (λ (row : User). row.id) before)

-- The user's reset token is the one of the hash, and has not expired.
abbrev pub MayReset : Time → String → User → Type 0
MayReset now hash user =
    (hash ≢ "")
    × (user.reset_token ≡ hash)
    × ((expiry : Time) × (user.reset_token_expiry ≡ some expiry) × (now < expiry))

pub valid-MayReset :
    (now : Time) (hash : String) (user : User)
    → is_reset_token_valid now user hash ≡ true
    → MayReset now hash user
unfolding is_reset_token_valid
valid-MayReset now hash user h = elim (Option-cases user.reset_token_expiry) [
  | inr never ↦ absurd (ground (arith, never))
  | inl (expiry, on) ↦
      let same : str_eq user.reset_token hash ≡ true = ground arith in
      let given : str_eq hash "" ≡ false = ground arith in
      (
        (λ e. ground (arith, eq_iff hash "")),
        (eq_iff user.reset_token hash).0 same,
        (expiry, on, ground (arith, on)),
      )
]

-- What UserRepo.Update leaves of a user's columns.
module _ (now : Time) (u : User) where
  pub update_row-All :
      (rows : List User)
      → All
          (λ (row : User).
            row.id ≡ u.id
            → (row.password_hash ≡ u.password_hash)
              × (row.reset_token ≡ u.reset_token)
              × (row.reset_token_expiry ≡ u.reset_token_expiry))
          (map (update_row now u) rows)
  update_row-All [] = tt
  update_row-All (row ∷ rows) = elim (Bool-cases (str_eq row.id u.id)) [
    | inl hit ↦ rw hit ((λ same. (refl, refl, refl)), update_row-All rows)
    | inr miss ↦
        rw miss ((λ same. absurd (ground (arith, eq_iff row.id u.id))), update_row-All rows)
  ]

  others-update_row :
      (rows : List User) → others u.id (map (update_row now u) rows) ≡ others u.id rows
  others-update_row [] = refl
  others-update_row (row ∷ rows) = ground (arith, others-update_row rows)

  ids-update_row :
      (rows : List User)
      → map (λ (row : User). row.id) (map (update_row now u) rows)
        ≡ map (λ (row : User). row.id) rows
  ids-update_row [] = refl
  ids-update_row (row ∷ rows) = ground (arith, ids-update_row rows)

module _ (lib : Lib) (now : Time) where
  set_password-done :
      (user changed : User) (password : String)
      → set_password lib now user password ≡ done changed
      → (8 ≤ len password)
        × (hash : String) × (lib.bcrypt_generate (lib.sha256_hex password) ≡ some hash)
        × (changed ≡ record user { password_hash = hash; updated_at = now })
  unfolding set_password hash_password
  set_password-done user changed password h = elim (Bool-cases (ltb (len password) 8)) [
    | inl short ↦ absurd (ground arith)
    | inr long ↦ elim (Option-cases (lib.bcrypt_generate (lib.sha256_hex password))) [
      | inr failing ↦ absurd (ground arith)
      | inl (hash, made) ↦ (ground arith, hash, made, ground arith)
    ]
  ]

  -- The row that is saved has the hash of the new password.
  pub saved-HasNewPassword :
      (user changed u : User) (password : String) (before after : List User)
      → set_password lib now user password ≡ done changed
      → u.id ≡ changed.id
      → u.password_hash ≡ changed.password_hash
      → after ≡ map (update_row now u) before
      → HasNewPassword lib password user.id before after
  saved-HasNewPassword user changed u password before after set same_id same_hash updated =
      let (long, hash, made, changed_is) = set_password-done user changed password set in
      let hash_is = same_hash ∙ ap (λ (q : User). q.password_hash) changed_is in
      let id_is = same_id ∙ ap (λ (q : User). q.id) changed_is in
      let rows : HasNewPassword lib password u.id before (map (update_row now u) before) = (
        long,
        (
          hash,
          made,
          All-weaken _ _ (map (update_row now u) before)
              (λ row columns same. (columns same).0 ∙ hash_is) (update_row-All now u before),
        ),
        others-update_row now u before,
        ids-update_row now u before,
      ) in
      subst (λ id. HasNewPassword lib password id before after) id_is
        (subst (HasNewPassword lib password u.id before) (sym updated) rows)
