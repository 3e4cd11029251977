-- ===== src/Iam/Auth/Recovery.antt =====
-- What a login proves, and what a change of the password ends.
use green_lab.Prelude.{
  ℕ, ◌+◌, ◌*◌, ◌≡◌, refl, Bool-cases, inl, inr, All-weaken, get_elem?, if◌then◌else◌, sym, ◌∙◌, ap,
  subst, String, Bool, true, false, Option, none, some, List, [], ◌∷◌, ◌++◌, map, All, str_eq,
  eq_iff, arith,
}
use green_lab.Prelude.Actions.{done, failed, return}
use green_lab.Prelude.Actions.Gives.{
  done_injective, return-Gives, Gives, bind-Gives, or_throw-Gives, require-Gives, from-Gives,
  ignore-Gives,
}
use green_lab.Ingestion.Domain.{Time, second}
use green_lab.Iam.User.{
  sign_error, uuid_error, UserStatus, pending, active, disabled, Outcome, User, RefreshToken,
  TokenPair, Lib, check_password, set_password, is_active, clear_reset_token, new_refresh_token,
  refresh_token_ttl,
}
use green_lab.Iam.Store.{
  Store, Call, revoke, publish, user_logged_in, password_changed, revoke_if, update_row, roles_of,
}
use green_lab.Iam.Auth.{
  change_password, LoginInput, Fresh, claims_of, issue_token_pair, login, save_password,
  reset_password,
}
use green_lab.Prelude.Tables.{find_row-get_elem?}
use green_lab.Iam.Auth.Passwords.{
  HasNewPassword, MayReset, valid-MayReset, update_row-All, saved-HasNewPassword,
}
use green_lab.Iam.Auth.Runs.{
  hide_user_not_found-Gives, get_user_where-Gives, get_roles_of-Gives, save_token-Gives,
  update_user-Gives, tokens-send, users-send, revoke_where_up,
}

-- Every refresh token of a user is revoked.
abbrev pub LoggedOut : String → Store → Type 0
LoggedOut user_id s = All (λ (t : RefreshToken). t.user_id ≡ user_id → t.revoked ≡ true) s.tokens

revoked-All :
    (user_id : String) (ts : List RefreshToken)
    → All
        (λ (t : RefreshToken). t.user_id ≡ user_id → t.revoked ≡ true)
        (map (revoke_if (λ t. str_eq t.user_id user_id)) ts)
revoked-All user_id [] = tt
revoked-All user_id (t ∷ ts) =
    (λ same. ground (arith, eq_iff t.user_id user_id), revoked-All user_id ts)

signed-done :
    (o : Option String) (access : String)
    → (elim o as (λ _. Outcome String) [ none ↦ failed sign_error | some token ↦ done token ])
      ≡ done access
    → o ≡ some access
signed-done none access h = absurd (cc)
signed-done (some token) access h = ap some (done_injective h)

parsed_id :
    (lib : Lib) (text id : String)
    → (elim (lib.parse_uuid text) as (λ _. Outcome String) [
      | none ↦ failed uuid_error
      | some i ↦ done i
    ])
      ≡ done id
    → lib.parse_uuid text ≡ some id
parsed_id lib text id h = ground arith

is_active-active :
    (status : UserStatus) (u : User) → is_active u ≡ true → u.status ≡ status → u.status ≡ active
unfolding is_active
is_active-active active u h same = same
is_active-active pending u h same = absurd (ground (arith, same))
is_active-active disabled u h same = absurd (ground (arith, same))

-- The roles that are stored for a user.
abbrev pub granted : String → List (String × String) → List String
granted id [] = []
granted id ((u, r) ∷ rows) = (if str_eq u id then r ∷ [] else []) ++ granted id rows

roles_of-granted :
    (id : String) (rows : List (String × String)) → roles_of id rows ≡ granted id rows
unfolding roles_of
roles_of-granted id [] = refl
roles_of-granted id ((u, r) ∷ rows) = elim (Bool-cases (str_eq u id)) [
  | inl hit ↦ rw hit (ap (λ rest. r ∷ rest) (roles_of-granted id rows))
  | inr miss ↦ rw miss (roles_of-granted id rows)
]

module _ (lib : Lib) (issuer : String) (down : Call → Bool) (now : Time) where
  save_password-LoggedOut :
      (user : User) (s t : Store) (x : Unit)
      → down revoke ≡ false
      → Gives (save_password lib issuer down now user) s x t
      → LoggedOut user.id t × (t.users ≡ map (update_row now user) s.users)
  unfolding save_password
  save_password-LoggedOut user s t x up h =
      let (y, a, ha, h1) = bind-Gives _ _ s t x h in
      let (z, b, hb, h2) = bind-Gives _ _ a t x h1 in
      let (same_tokens, users) = update_user-Gives down now user s a y ha in
      let b_is =
        ignore-Gives _ a b z hb
        ∙ revoke_where_up down now (λ (r : RefreshToken). str_eq r.user_id user.id) a up in
      let t_is = ignore-Gives _ b t x h2 in
      let t_tokens =
        ap (λ (q : Store). q.tokens) t_is
        ∙ tokens-send down now publish (password_changed user.id) b
        ∙ ap (λ (q : Store). q.tokens) b_is in
      let t_users =
        ap (λ (q : Store). q.users) t_is
        ∙ users-send down now publish (password_changed user.id) b
        ∙ ap (λ (q : Store). q.users) b_is in
      (
        subst (All (λ (r : RefreshToken). r.user_id ≡ user.id → r.revoked ≡ true)) (sym t_tokens)
            (revoked-All user.id a.tokens),
        t_users ∙ users,
      )

  set_password-id :
      (user changed : User) (password : String)
      → set_password lib now user password ≡ done changed
      → changed.id ≡ user.id
  unfolding set_password
  set_password-id user changed password h = ground arith

  -- A password that is reset, of at least eight bytes, is hashed and is the password of a user of the
  -- table whose reset token was given and has not expired; that token is used up, the other users'
  -- rows are as before, and, if the call that revokes does not fail, every refresh token of the user
  -- is revoked.
  pub reset_password-LoggedOut :
      (token new_password : String) (s t : Store)
      → down revoke ≡ false
      → reset_password lib issuer down now token new_password s ≡ (t, done tt)
      → (user : User) × ((i : ℕ) × (get_elem? s.users i ≡ some user))
        × MayReset now (lib.sha256_hex token) user
        × HasNewPassword lib new_password user.id s.users t.users
        × All
            (λ (row : User).
              row.id ≡ user.id → (row.reset_token ≡ "") × (row.reset_token_expiry ≡ none))
            t.users
        × LoggedOut user.id t
  unfolding reset_password
  reset_password-LoggedOut token new_password s t up h =
      let (user, a, ha, h1) = bind-Gives _ _ s t tt h in
      let (found, a_is) =
        get_user_where-Gives down now _ _ s a user (or_throw-Gives _ _ s a user ha) in
      let (x, b, hb, h2) = bind-Gives _ _ a t tt h1 in
      let (valid, b_is) = require-Gives _ _ a b x hb in
      let (changed, c, hc, h3) = bind-Gives _ _ b t tt h2 in
      let (set, c_is) = from-Gives _ b c changed hc in
      let cleared = clear_reset_token now changed in
      let (out, users) = save_password-LoggedOut cleared c t tt up h3 in
      let c_users = ap (λ (q : Store). q.users) (c_is ∙ b_is ∙ a_is) in
      let updated = users ∙ ap (map (update_row now cleared)) c_users in
      let same = set_password-id user changed new_password set in
      let used_up =
        All-weaken _
          (λ (row : User).
            row.id ≡ changed.id → (row.reset_token ≡ "") × (row.reset_token_expiry ≡ none))
          (map (update_row now cleared) s.users)
          (λ row columns own. let (p, q, r) = columns own in (q, r))
          (update_row-All now cleared s.users) in
      (
        user,
        (find_row-get_elem? _ s.users user found).0,
        valid-MayReset now (lib.sha256_hex token) user valid,
        saved-HasNewPassword lib now user changed cleared new_password s.users t.users set refl refl
            updated,
        subst
            (λ id.
              All
                (λ (row : User).
                  row.id ≡ id → (row.reset_token ≡ "") × (row.reset_token_expiry ≡ none))
                t.users)
            same
            (subst
              (All (λ (row : User).
                row.id ≡ changed.id → (row.reset_token ≡ "") × (row.reset_token_expiry ≡ none)))
              (sym updated) used_up),
        subst (λ id. LoggedOut id t) same out,
      )

  issue_token_pair-Gives :
      (user : User) (family agent ip : String) (fresh : Fresh) (s t : Store) (pair : TokenPair)
      → Gives (issue_token_pair lib issuer down now user family agent ip fresh) s pair t
      → (t.tokens
          ≡ s.tokens
            ++ new_refresh_token fresh.row_id now user.id
                (lib.sha256_hex fresh.raw_refresh)
                family
                refresh_token_ttl
                agent
                ip
              ∷ [])
        × (pair.refresh_token ≡ fresh.raw_refresh)
        × (lib.sign (claims_of lib issuer down now user fresh) ≡ some pair.access_token)
  unfolding issue_token_pair return
  issue_token_pair-Gives user family agent ip fresh s t pair h =
      let (access, a, ha, h1) = bind-Gives _ _ s t pair h in
      let (signed, a_is) = from-Gives _ s a access ha in
      let (x, b, hb, h2) = bind-Gives _ _ a t pair h1 in
      let saved = save_token-Gives down now _ a b x hb in
      let row =
        new_refresh_token fresh.row_id now user.id (lib.sha256_hex fresh.raw_refresh) family
          refresh_token_ttl agent ip in
      let is_pair = done_injective (ap (λ q. q.1) h2) in
      (
        sym (ap (λ (q : Store × Outcome TokenPair). q.0.tokens) h2)
            ∙ saved
            ∙ ap (λ (q : Store). q.tokens ++ row ∷ []) a_is,
        sym (ap (λ (q : TokenPair). q.refresh_token) is_pair),
        signed-done (lib.sign (claims_of lib issuer down now user fresh)) access signed
            ∙ ap (λ (q : TokenPair). some q.access_token) is_pair,
      )

  -- A login that succeeds is a login of the user whose address was given, with that user's password
  -- and an active account; the access token, for 15 minutes, is the signed claims of the user with
  -- exactly the roles that are stored for it, and the refresh token, for seven days, is new: its row,
  -- with the token's hash, is the one that is added to the table.
  pub login-Gives :
      (family : String) (fresh : Fresh) (input : LoginInput) (s t : Store) (pair : TokenPair)
      → login lib issuer down now family fresh input s ≡ (t, done pair)
      → (user : User) × ((i : ℕ) × (get_elem? s.users i ≡ some user))
        × (user.email ≡ input.email)
        × (lib.bcrypt_compare user.password_hash (lib.sha256_hex input.password) ≡ true)
        × (user.status ≡ active)
        × (lib.sign (record {
          user_id = user.id;
          tenant_id = user.tenant_id;
          email = user.email;
          roles = granted user.id s.roles;
          issuer = issuer;
          issued_at = now;
          expires_at = now + 15 * 60 * second;
          jti = fresh.jti;
        })
            ≡ some pair.access_token)
        × (pair.refresh_token ≡ fresh.raw_refresh)
        × (t.tokens
            ≡ s.tokens
              ++ record {
                id = fresh.row_id;
                user_id = user.id;
                token_hash = lib.sha256_hex fresh.raw_refresh;
                family = family;
                expires_at = now + 7 * 24 * 60 * 60 * second;
                created_at = now;
                revoked = false;
                user_agent = input.user_agent;
                ip_address = input.ip_address;
              }
                ∷ [])
  unfolding login check_password
  login-Gives family fresh input s t pair h =
      let (user, a, ha, h1) = bind-Gives _ _ s t pair h in
      let (found, a_is) =
        get_user_where-Gives down now _ _ s a user (hide_user_not_found-Gives _ s a user ha) in
      let (x, b, hb, h2) = bind-Gives _ _ a t pair h1 in
      let (checked, b_is) = require-Gives _ _ a b x hb in
      let (y, c, hc, h3) = bind-Gives _ _ b t pair h2 in
      let (is_on, c_is) = require-Gives _ _ b c y hc in
      let (roles, d, hd, h4) = bind-Gives _ _ c t pair h3 in
      let (d_is, stored) =
        get_roles_of-Gives down now _ c d roles (or_throw-Gives _ _ c d roles hd) in
      let roles_are : roles ≡ granted user.id s.roles =
        sym stored
        ∙ ap (λ (q : Store). roles_of user.id q.roles) (c_is ∙ b_is ∙ a_is)
        ∙ roles_of-granted user.id s.roles in
      let (place, by_email) =
        find_row-get_elem? (λ u. str_eq u.email input.email) s.users user found in
      let (issued, e, he, h5) = bind-Gives _ _ d t pair h4 in
      let (tokens, raw, signed) =
        issue_token_pair-Gives (record user { roles = roles }) family input.user_agent
          input.ip_address fresh d e issued (or_throw-Gives _ _ d e issued he) in
      let (z, f, hf, h6) = bind-Gives _ _ e t pair h5 in
      let f_tokens =
        ap (λ (q : Store). q.tokens) (ignore-Gives _ e f z hf)
        ∙ tokens-send down now publish (user_logged_in user.id) e in
      let row =
        new_refresh_token fresh.row_id now user.id (lib.sha256_hex fresh.raw_refresh) family
          refresh_token_ttl input.user_agent input.ip_address in
      let (t_is, pair_is) = return-Gives pair issued f t h6 in
      (
        user,
        place,
        (eq_iff user.email input.email).0 by_email,
        checked,
        is_active-active user.status user is_on refl,
        ap (λ rs. lib.sign (claims_of lib issuer down now (record user { roles = rs }) fresh))
              (sym roles_are)
            ∙ signed
            ∙ ap (λ (q : TokenPair). some q.access_token) pair_is,
        sym (ap (λ (q : TokenPair). q.refresh_token) pair_is) ∙ raw,
        ap (λ (q : Store). q.tokens) t_is
            ∙ f_tokens
            ∙ tokens
            ∙ ap (λ (q : Store). q.tokens ++ row ∷ []) (d_is ∙ c_is ∙ b_is ∙ a_is),
      )

  -- A password that is changed, of at least eight bytes, is hashed and is the password of the user of
  -- the table with the given ID, who knew the old one; the other users' rows are as before, and, if the
  -- call that revokes does not fail, every refresh token of the user is revoked, those of the session
  -- that made the change included.
  pub change_password-LoggedOut :
      (user_id current_password new_password : String) (s t : Store)
      → down revoke ≡ false
      → change_password lib issuer down now user_id current_password new_password s ≡ (t, done tt)
      → (user : User) × (lib.parse_uuid user_id ≡ some user.id)
        × ((i : ℕ) × (get_elem? s.users i ≡ some user))
        × (lib.bcrypt_compare user.password_hash (lib.sha256_hex current_password) ≡ true)
        × HasNewPassword lib new_password user.id s.users t.users
        × LoggedOut user.id t
  unfolding change_password check_password
  change_password-LoggedOut user_id current_password new_password s t up h =
      let (id, a, ha, h1) = bind-Gives _ _ s t tt h in
      let (parsed, a_is) = from-Gives _ s a id ha in
      let (user, b, hb, h2) = bind-Gives _ _ a t tt h1 in
      let (found, b_is) = get_user_where-Gives down now _ _ a b user hb in
      let (x, c, hc, h3) = bind-Gives _ _ b t tt h2 in
      let (checked, c_is) = require-Gives _ _ b c x hc in
      let (changed, d, hd, h4) = bind-Gives _ _ c t tt h3 in
      let (set, d_is) = from-Gives _ c d changed hd in
      let (out, users) = save_password-LoggedOut changed d t tt up h4 in
      let (place, same) = find_row-get_elem? (λ u. str_eq u.id id) a.users user found in
      (
        user,
        parsed_id lib user_id id parsed ∙ ap some (sym ((eq_iff user.id id).0 same)),
        subst (λ (q : Store). (i : ℕ) × (get_elem? q.users i ≡ some user)) a_is place,
        checked,
        saved-HasNewPassword lib now user changed changed new_password s.users t.users set refl refl
            (users
              ∙ ap (λ (q : Store). map (update_row now changed) q.users)
                  (d_is ∙ c_is ∙ b_is ∙ a_is)),
        subst (λ i. LoggedOut i t) (set_password-id user changed new_password set) out,
      )
