-- ===== src/Iam/Auth/Resets.antt =====
-- A user who has forgotten the password gets back in.
use Prim.Native.String.{len}
use green_lab.Prelude.{
  ◌+◌, ◌*◌, ◌<◌, ◌≡◌, ◌≢◌, refl, sym, ◌∙◌, subst, String, Bool, true, false, some, Bool-cases, inl,
  inr, List, [], ◌∷◌, map, ltb, lt→ltb, str_eq, eq_iff, arith,
}
use green_lab.Prelude.Actions.{done, ◌>>=◌, return, from, or_throw, ignore, find_row}
use text.Mathlib.TextPositions.{eq_refl}
use green_lab.Prelude.Tables.{absent}
use green_lab.Ingestion.Domain.{Time, second}
use green_lab.Iam.User.{
  AuthError, user_not_found, invalid_reset_token, User, RefreshToken, Lib, set_password,
  hash_password, check_password, set_reset_token, clear_reset_token, is_reset_token_valid,
}
use green_lab.Iam.Store.{
  Store, Call, get_user, update, publish, get_user_where, update_user, update_row, revoke_where,
  password_changed,
}
use green_lab.Iam.Auth.{
  forgot_password, forget, set_new_reset_token, reset_password, save_password, has_reset_token,
}
use green_lab.Iam.Auth.Runs.{users-send}

get_user_where_up :
    (down : Call → Bool) (now : Time) (e : AuthError) (p : User → Bool) (s : Store) (u : User)
    → down get_user ≡ false
    → find_row p s.users ≡ some u
    → get_user_where down now e p s ≡ (s, done u)
unfolding get_user_where
get_user_where_up down now e p s u up found = rw (up, found)

update_user_up :
    (down : Call → Bool) (now : Time) (u : User) (s : Store)
    → down update ≡ false
    → update_user down now u s ≡ (record s { users = map (update_row now u) s.users }, done tt)
unfolding update_user
update_user_up down now u s up = rw up

-- A lookup by columns that a change leaves finds the changed row.
find_row-map :
    (p : User → Bool) (f : User → User) (rows : List User) (u : User)
    → ((row : User) → p (f row) ≡ p row)
    → find_row p rows ≡ some u
    → find_row p (map f rows) ≡ some (f u)
unfolding find_row
find_row-map p f [] u h found = absurd (cc)
find_row-map p f (row ∷ rows) u h found = ground (arith, h row, find_row-map p f rows u h)

-- A row that is found after one that has another ID.
find_row-later :
    (q : User → Bool) (row : User) (rows : List User) (user : User)
    → str_eq row.id user.id ≡ false
    → find_row q (row ∷ rows) ≡ some user
    → find_row q rows ≡ some user
unfolding find_row
find_row-later q row rows user other found = elim (Bool-cases (q row)) [
  | inl hit ↦
      let same : row.id ≡ user.id = ground arith in absurd (ground (arith, eq_iff row.id user.id))
  | inr miss ↦ rw miss at found
]

id-update_row : (now : Time) (u row : User) → (update_row now u row).id ≡ row.id
id-update_row now u row = ground arith

-- The updated row has the new password.
password_of-update_row :
    (now : Time) (u row : User)
    → row.id ≡ u.id
    → (P : String → Type 0) → P u.password_hash
    → P (update_row now u row).password_hash
password_of-update_row now u row same P p =
    let updated : u.password_hash ≡ (update_row now u row).password_hash =
      ground (arith, eq_iff row.id u.id) in
    subst P updated p

module _ (lib : Lib) (issuer : String) where
  -- After the reset token is set, it finds a row with the user's ID.
  find_row-has_reset_token :
      (down : Call → Bool) (now later : Time) (h : String) (expiry : Time) (q : User → Bool)
      (user : User) (rows : List User)
      → later < expiry
      → absent (λ (u : User). u.reset_token) h rows ≡ true
      → find_row q rows ≡ some user
      → (v : User) × (find_row
            (has_reset_token lib issuer down later h)
            (map (update_row now (set_reset_token now h expiry user)) rows)
          ≡ some v)
        × (v.id ≡ user.id)
        × (v.reset_token ≡ h)
        × (v.reset_token_expiry ≡ some expiry)
  unfolding find_row
  find_row-has_reset_token down now later h expiry q user [] l n found = absurd (cc)
  find_row-has_reset_token down now later h expiry q user (row ∷ rows) l n found =
      elim (Bool-cases (str_eq row.id user.id)) [
        | inl same ↦
            let on_time = lt→ltb later expiry l in
            let found_row = record row {
              first_name = user.first_name;
              last_name = user.last_name;
              password_hash = user.password_hash;
              status = user.status;
              email_verified = user.email_verified;
              verify_token = user.verify_token;
              reset_token = h;
              reset_token_expiry = some expiry;
              updated_at = now;
            } in
            (
              found_row,
              rw (same, eq_refl h, on_time),
              ground (arith, eq_iff row.id user.id),
              refl,
              refl,
            )
        | inr other ↦
            let missed : str_eq row.reset_token h ≡ false = ground arith in
            let absent_later : absent (λ (u : User). u.reset_token) h rows ≡ true = ground arith in
            let found_later = find_row-later q row rows user other found in
            rw (other, missed)
              (find_row-has_reset_token down now later h expiry q user rows l absent_later
                found_later)
      ]

  forgot_password_up :
      (down : Call → Bool) (now : Time) (raw email : String) (s : Store) (user : User)
      → down get_user ≡ false
      → down update ≡ false
      → find_row (λ u. str_eq u.email email) s.users ≡ some user
      → forgot_password lib issuer down now raw email s ≡ (
        record s {
          users =
              map
                (update_row now
                  (set_reset_token now (lib.sha256_hex raw) (now + 60 * 60 * second) user))
                s.users;
        },
        done tt,
      )
  unfolding forgot_password forget set_new_reset_token
  forgot_password_up down now raw email s user up_get up_update found =
      rw (get_user_where_up down now user_not_found (λ u. str_eq u.email email) s user up_get found)
        (update_user_up down now _ s up_update)

  set_password_long :
      (now : Time) (u : User) (password hash : String)
      → ltb (len password) 8 ≡ false
      → lib.bcrypt_generate (lib.sha256_hex password) ≡ some hash
      → set_password lib now u password ≡ done (record u { password_hash = hash; updated_at = now })
  unfolding set_password hash_password
  set_password_long now u password hash long made = ground arith

  is_reset_token_valid_now :
      (later : Time) (h : String) (expiry : Time) (v : User)
      → later < expiry
      → h ≢ ""
      → v.reset_token ≡ h
      → v.reset_token_expiry ≡ some expiry
      → is_reset_token_valid later v h ≡ true
  unfolding is_reset_token_valid
  is_reset_token_valid_now later h expiry v l nonempty same on =
      ground
        (arith, eq_iff h "", eq_iff v.reset_token h, eq_iff v.reset_token "", lt→ltb later expiry)

  users-revoke_where :
      (down : Call → Bool) (now : Time) (p : RefreshToken → Bool) (s : Store)
      → (revoke_where down now p s).0.users ≡ s.users
  unfolding revoke_where
  users-revoke_where down now p s = ground arith

  -- What ends ResetPassword succeeds if the update does; the other two calls may fail.
  save_password_up :
      (down : Call → Bool) (now : Time) (u : User) (s : Store)
      → down update ≡ false
      → ((save_password lib issuer down now u s).1 ≡ done tt)
        × ((save_password lib issuer down now u s).0.users ≡ map (update_row now u) s.users)
  unfolding save_password ◌>>=◌ ignore
  save_password_up down now u s up =
      let saved = record s { users = map (update_row now u) s.users } in
      rw (update_user_up down now u s up) (
        refl,
        users-send down now publish (password_changed u.id) _
            ∙ users-revoke_where down now (λ t. str_eq t.user_id u.id) saved,
      )

  reset_password_up :
      (down : Call → Bool) (now : Time) (raw new_password hash : String) (s : Store) (v : User)
      → down get_user ≡ false
      → down update ≡ false
      → find_row (has_reset_token lib issuer down now (lib.sha256_hex raw)) s.users ≡ some v
      → is_reset_token_valid now v (lib.sha256_hex raw) ≡ true
      → ltb (len new_password) 8 ≡ false
      → lib.bcrypt_generate (lib.sha256_hex new_password) ≡ some hash
      → let out = reset_password lib issuer down now raw new_password s in
        let changed = clear_reset_token now (record v { password_hash = hash; updated_at = now }) in
        (out.1 ≡ done tt) × (out.0.users ≡ map (update_row now changed) s.users)
  unfolding reset_password ◌>>=◌ or_throw return from
  reset_password_up down now raw new_password hash s v up_get up_update found valid long made =
      rw
        (
          get_user_where_up down now invalid_reset_token
              (has_reset_token lib issuer down now (lib.sha256_hex raw)) s v up_get found,
          valid,
          set_password_long now v new_password hash long made,
        )
        (save_password_up down now _ s up_update)

  -- For a user who is found by the address, ForgotPassword stores a token that would open
  -- ResetPassword to whoever had the raw token: within an hour it would set a new password, which the
  -- row found by the address then has. This is so if the lookups and the updates of users do not
  -- fail, whether the other calls fail or not, if no row has the token's hash before, and if bcrypt
  -- hashes the new password, whose length is at least eight, to a hash that it matches. But the token
  -- goes to nobody: ForgotPassword answers without it, publishes nothing, and writes nothing else
  -- than the users' rows.
  pub reset_password-forgot_password :
      (down later_down : Call → Bool) (now later : Time) (raw email new_password hash : String)
      (s : Store) (user : User)
      → down get_user ≡ false
      → down update ≡ false
      → later_down get_user ≡ false
      → later_down update ≡ false
      → later < now + 60 * 60 * second
      → find_row (λ u. str_eq u.email email) s.users ≡ some user
      → lib.sha256_hex raw ≢ ""
      → absent (λ (u : User). u.reset_token) (lib.sha256_hex raw) s.users ≡ true
      → ltb (len new_password) 8 ≡ false
      → lib.bcrypt_generate (lib.sha256_hex new_password) ≡ some hash
      → lib.bcrypt_compare hash (lib.sha256_hex new_password) ≡ true
      → let asked = forgot_password lib issuer down now raw email s in
        let out = reset_password lib issuer later_down later raw new_password asked.0 in
        (asked.1 ≡ done tt)
        × (asked.0 ≡ record s { users = asked.0.users })
        × (out.1 ≡ done tt)
        × (u : User) × (find_row (λ u. str_eq u.email email) out.0.users ≡ some u)
        × (check_password lib later u new_password ≡ true)
  unfolding check_password
  reset_password-forgot_password down later_down now later raw email new_password hash s user up_get
        up_update later_get later_update l found nonempty fresh long made matches =
      let h = lib.sha256_hex raw in
      let expiry = now + 60 * 60 * second in
      let by_email = λ (u : User). str_eq u.email email in
      let ask = forgot_password_up down now raw email s user up_get up_update found in
      let set = update_row now (set_reset_token now h expiry user) in
      let asked = record s { users = map set s.users } in
      let (v, found_token, same_id, token, on) =
        find_row-has_reset_token later_down now later h expiry by_email user s.users l fresh
          found in
      let valid = is_reset_token_valid_now later h expiry v l nonempty token on in
      let (ok, users) =
        reset_password_up later_down later raw new_password hash asked v later_get later_update
          found_token valid long made in
      let changed =
        clear_reset_token later (record v { password_hash = hash; updated_at = later }) in
      let found_now =
        find_row-map by_email (update_row later changed) (map set s.users) (set user)
          (λ row. ground arith)
          (find_row-map by_email set s.users user (λ row. ground arith) found) in
      rw ask (
        refl,
        refl,
        ok,
        update_row later changed (set user),
        rw users found_now,
        password_of-update_row later changed (set user)
            (id-update_row now (set_reset_token now h expiry user) user ∙ sym same_id)
            (λ stored. lib.bcrypt_compare stored (lib.sha256_hex new_password) ≡ true) matches,
      )
