-- ===== src/Iam/Auth/WellFormed.antt =====
-- The tables of the accounts are well formed, and the operations leave them so.
use green_lab.Prelude.{
  ◌≡◌, refl, sym, ◌∙◌, subst, String, Bool, true, false, ◌&&◌, ◌||◌, none, some, Option-cases,
  Bool-cases, inl, inr, List, [], ◌∷◌, map, All, All-append, ltb, str_eq, arith,
}
use green_lab.Prelude.Actions.{done, find_row}
use green_lab.Prelude.Actions.Gives.{Result-cases}
use green_lab.Prelude.Actions.Keeps.{Keeps-all}
use green_lab.Prelude.Tables.{
  distinct, distinct-append, find_row-absent, distinct-map, All-map, All-find_row,
}
use Prim.Native.String.{len}
use green_lab.Ingestion.Domain.{Time}
use green_lab.Iam.User.{
  active, User, RefreshToken, Lib, AuthError, new_user, set_password, hash_password,
}
use green_lab.Iam.Store.{
  Store, Call, Org, create_org_row, create_user, get_user_where, update_user, update_row, revoke_if,
  is_live, get_roles_of, set_roles_of, save_token, get_and_revoke_token, revoke_where, send,
}
use green_lab.Iam.Auth.Keeps.{Primitives, Methods}
use green_lab.Iam.Auth.Requests.{Request, serve_all, serve_all-keeps}

-- The unique keys of the tables.
abbrev pub unique_keys : Store → Bool
unique_keys s =
    distinct (λ (o : Org). o.id) s.orgs
    && distinct (λ (o : Org). o.slug) s.orgs
    && distinct (λ (u : User). u.id) s.users
    && distinct (λ (u : User). u.email) s.users
    && distinct (λ (t : RefreshToken). t.id) s.tokens
    && distinct (λ (t : RefreshToken). t.token_hash) s.tokens

module _ (lib : Lib) where
  -- The stored hash is bcrypt's of a password that is long enough.
  abbrev pub Hashed : User → Type 0
  Hashed u =
      (password : String) × (ltb (len password) 8 ≡ false)
      × (lib.bcrypt_generate (lib.sha256_hex password) ≡ some u.password_hash)

  -- Only a verified address makes an account active.
  abbrev pub Verified : User → Type 0
  Verified u = u.status ≡ active → u.email_verified ≡ true

  abbrev pub Proper : User → Type 0
  Proper u = Hashed u × Verified u

  abbrev pub WellFormed : Store → Type 0
  WellFormed s = (unique_keys s ≡ true) × All Proper s.users

  hash_password-done :
      (now : Time) (password hash : String)
      → hash_password lib now password ≡ done hash
      → (ltb (len password) 8 ≡ false) × (lib.bcrypt_generate (lib.sha256_hex password) ≡ some hash)
  unfolding hash_password
  hash_password-done now password hash h = (ground arith, ground arith)

  Proper-new :
      (now : Time) (id token tenant email password first_name last_name : String) (u : User)
      → new_user lib now id token tenant email password first_name last_name ≡ done u
      → Proper u
  unfolding new_user
  Proper-new now id token tenant email password first_name last_name u h =
      elim (Result-cases (hash_password lib now password)) [
        | inl (hash, e) ↦
            let (long, made) = hash_password-done now password hash e in
            let same : u.password_hash ≡ hash = ground arith in
            ((password, long, rw same made), λ on. absurd (ground arith))
        | inr (x, e) ↦ absurd (ground arith)
      ]

  Proper-set_password :
      (now : Time) (u v : User) (password : String)
      → Proper u
      → set_password lib now u password ≡ done v
      → Proper v
  unfolding set_password
  Proper-set_password now u v password good h =
      elim (Result-cases (hash_password lib now password)) [
        | inl (hash, e) ↦
            let (long, made) = hash_password-done now password hash e in
            let same : v.password_hash ≡ hash = ground arith in
            let status : v.status ≡ u.status = ground arith in
            let verified : v.email_verified ≡ u.email_verified = ground arith in
            ((password, long, rw same made), λ on. verified ∙ good.1 (sym status ∙ on))
        | inr (x, e) ↦ absurd (ground arith)
      ]

  Methods-Proper : Methods lib Proper
  Methods-Proper = record {
    good_new = Proper-new;
    good_set_password = Proper-set_password;
    good_verify_token = λ u t good. good;
    good_activate = λ now u good. (good.0, λ on. refl);
    good_set_reset_token = λ now t e u good. good;
    good_clear_reset_token = λ now u good. good;
    good_roles = λ u roles good. good;
    good_names = λ now u first_name last_name good. good;
  }

  Proper-update_row :
      (now : Time) (u row : User) → Proper u → Proper row → Proper (update_row now u row)
  Proper-update_row now u row good old = elim (Bool-cases (str_eq row.id u.id)) [
    | inl same ↦ rw same good
    | inr other ↦ rw other old
  ]

  -- What is added has new keys, and what is changed keeps its own.
  wf_create_org_row :
      (down : Call → Bool) (now : Time) (org : Org) (s : Store)
      → WellFormed s
      → WellFormed (create_org_row down now org s).0
  unfolding create_org_row
  wf_create_org_row down now org s (unique, proper) =
      let p = λ (row : Org). str_eq row.slug org.slug || str_eq row.id org.id in
      let slugs = find_row-absent (λ (o : Org). o.slug) p org.slug s.orgs (λ row h. ground arith) in
      let ids = find_row-absent (λ (o : Org). o.id) p org.id s.orgs (λ row h. ground arith) in
      ground (
        arith,
        slugs,
        ids,
        distinct-append (λ (o : Org). o.slug) s.orgs org,
        distinct-append (λ (o : Org). o.id) s.orgs org,
      )

  wf_save_token :
      (down : Call → Bool) (now : Time) (t : RefreshToken) (s : Store)
      → WellFormed s
      → WellFormed (save_token down now t s).0
  unfolding save_token
  wf_save_token down now t s (unique, proper) =
      let p = λ (row : RefreshToken). str_eq row.token_hash t.token_hash || str_eq row.id t.id in
      let hash = λ (row : RefreshToken). row.token_hash in
      let id = λ (row : RefreshToken). row.id in
      let hashes = find_row-absent hash p t.token_hash s.tokens (λ row h. ground arith) in
      let ids = find_row-absent id p t.id s.tokens (λ row h. ground arith) in
      ground (arith, hashes, ids, distinct-append hash s.tokens t, distinct-append id s.tokens t)

  wf_revoke :
      (p : RefreshToken → Bool) (s : Store)
      → WellFormed s
      → WellFormed (record s { tokens = map (revoke_if p) s.tokens })
  wf_revoke p s (unique, proper) =
      let hash =
        distinct-map (λ (t : RefreshToken). t.token_hash) (revoke_if p) s.tokens
          (λ row. ground arith) in
      let id =
        distinct-map (λ (t : RefreshToken). t.id) (revoke_if p) s.tokens (λ row. ground arith) in
      (rw (hash, id) unique, proper)

  wf_update :
      (now : Time) (u : User) (s : Store)
      → Proper u
      → WellFormed s
      → WellFormed (record s { users = map (update_row now u) s.users })
  wf_update now u s good (unique, proper) =
      let email =
        distinct-map (λ (v : User). v.email) (update_row now u) s.users (λ row. ground arith) in
      let id = distinct-map (λ (v : User). v.id) (update_row now u) s.users (λ row. ground arith) in
      (
        rw (email, id) unique,
        All-map Proper (update_row now u) s.users (λ row. Proper-update_row now u row good) proper,
      )

  wf_create_user :
      (down : Call → Bool) (now : Time) (u : User) (s : Store)
      → Proper u
      → WellFormed s
      → WellFormed (create_user down now u s).0
  unfolding create_user
  wf_create_user down now u s good (unique, proper) =
      let p = λ (row : User). str_eq row.email u.email || str_eq row.id u.id in
      let row = record u {
        roles = [];
        reset_token = "";
        reset_token_expiry = none;
        created_at = now;
        updated_at = now;
      } in
      let emails =
        find_row-absent (λ (v : User). v.email) p u.email s.users (λ v h. ground arith) in
      let ids = find_row-absent (λ (v : User). v.id) p u.id s.users (λ v h. ground arith) in
      let added = All-append Proper s.users (row ∷ []) proper (good, tt) in
      ground (
        arith,
        emails,
        ids,
        distinct-append (λ (v : User). v.email) s.users row,
        distinct-append (λ (v : User). v.id) s.users row,
      )

  Proper-get_user :
      (down : Call → Bool) (now : Time) (e : AuthError) (p : User → Bool) (s : Store)
      → WellFormed s
      → (u : User) → (get_user_where down now e p s).1 ≡ done u
      → Proper u
  unfolding get_user_where
  Proper-get_user down now e p s (unique, proper) u h = elim (Option-cases (find_row p s.users)) [
    | inl (row, found) ↦
        let same : row ≡ u = ground arith in
        subst Proper same (All-find_row Proper p s.users row proper found)
    | inr missing ↦ absurd (ground arith)
  ]

  wf_get_and_revoke :
      (down : Call → Bool) (now : Time) (hash : String) (s : Store)
      → WellFormed s
      → WellFormed (get_and_revoke_token down now hash s).0
  unfolding get_and_revoke_token
  wf_get_and_revoke down now hash s wf =
      let revoked = wf_revoke (is_live now hash) s wf in ground arith

  Primitives-WellFormed : Primitives WellFormed Proper
  unfolding get_user_where update_user get_roles_of set_roles_of revoke_where send
  Primitives-WellFormed = record {
    keeps_create_org = λ down now org. Keeps-all WellFormed (wf_create_org_row down now org);
    keeps_create =
        λ down now u good. Keeps-all WellFormed (λ s wf. wf_create_user down now u s good wf);
    ensures_get_user = λ down now e p. record {
      keeps = λ s wf. ground arith;
      ensures = Proper-get_user down now e p;
    };
    keeps_update = λ down now u good.
        Keeps-all WellFormed (λ s wf. let updated = wf_update now u s good wf in ground arith);
    keeps_get_roles = λ down now id. Keeps-all WellFormed (λ s wf. ground arith);
    keeps_set_roles = λ down now id roles. Keeps-all WellFormed (λ s wf. ground arith);
    keeps_save_token = λ down now t. Keeps-all WellFormed (wf_save_token down now t);
    keeps_get_and_revoke = λ down now hash. Keeps-all WellFormed (wf_get_and_revoke down now hash);
    keeps_revoke =
        λ down now p. Keeps-all WellFormed (λ s wf. let revoked = wf_revoke p s wf in ground arith);
    keeps_send = λ down now c e. Keeps-all WellFormed (λ s wf. ground arith);
  }

-- Whatever calls of the service are made, at whatever moments and with whichever failures of the
-- database, well-formed tables stay well formed: organisations, users and refresh tokens keep
-- different IDs, slugs, addresses and hashes, each stored password hash is bcrypt's of a password of
-- length at least eight, and each active account's address is verified.
pub serve_all-WellFormed :
    (lib : Lib) (issuer : String) (requests : List Request) (s : Store)
    → WellFormed lib s
    → WellFormed lib (serve_all lib issuer requests s)
serve_all-WellFormed lib issuer requests s wf =
    serve_all-keeps lib issuer (WellFormed lib) (Proper lib) (Primitives-WellFormed lib)
      (Methods-Proper lib) requests s wf
