-- ===== src/Iam/Auth/Spent.antt =====
-- The rows of refresh_tokens that have one hash.
use green_lab.Prelude.{
  ◌≤◌, ◌≡◌, refl, String, Bool, true, false, not, ◌&&◌, ◌||◌, none, some, List, [], ◌∷◌, ◌++◌, map,
  leb, str_eq, eq_iff, arith,
}
use green_lab.Prelude.Actions.{find_row}
use green_lab.Ingestion.Domain.{Time}
use green_lab.Prelude.Actions.Keeps.{Keeps-all}
use green_lab.Iam.Auth.Keeps.{Primitives, Methods}
use green_lab.Iam.User.{User, Lib, RefreshToken}
use green_lab.Iam.Store.{
  create_org_row, create_user, get_user_where, update_user, get_roles_of, set_roles_of, save_token,
  get_and_revoke_token, revoke_where, send, Call, Store, is_live, revoke_if,
}

-- Some row has the hash, and every row that has it is revoked or expired at `at`.
abbrev pub known : String → List RefreshToken → Bool
known h [] = false
known h (t ∷ ts) = str_eq t.token_hash h || known h ts

abbrev pub spent : Time → String → List RefreshToken → Bool
spent at h [] = true
spent at h (t ∷ ts) =
    (not (str_eq t.token_hash h) || t.revoked || leb t.expires_at at) && spent at h ts

-- Nothing is asked of a user.
abbrev pub Any : User → Type 0
Any u = Unit

pub Methods-Any : (lib : Lib) → Methods lib Any
Methods-Any lib = record {
  good_new = λ now id token tenant email password first_name last_name u e. tt;
  good_set_password = λ now u v password good e. tt;
  good_verify_token = λ u t good. tt;
  good_activate = λ now u good. tt;
  good_set_reset_token = λ now t e u good. tt;
  good_clear_reset_token = λ now u good. tt;
  good_roles = λ u roles good. tt;
  good_names = λ now u first_name last_name good. tt;
}

module _ (at : Time) (h : String) where
  abbrev pub Used : Store → Type 0
  Used s = (known h s.tokens ≡ true) × (spent at h s.tokens ≡ true)

  pub known-append :
      (ts : List RefreshToken) (t : RefreshToken)
      → known h ts ≡ true
      → known h (ts ++ t ∷ []) ≡ true
  known-append (u ∷ ts) t k = ground (arith, known-append ts t)
  known-append [] t k = absurd (cc)

  pub spent-append :
      (ts : List RefreshToken) (t : RefreshToken)
      → spent at h ts ≡ true
      → str_eq t.token_hash h ≡ false
      → spent at h (ts ++ t ∷ []) ≡ true
  spent-append [] t k n = ground arith
  spent-append (u ∷ ts) t k n = ground (arith, spent-append ts t)

  -- A row with the hash would have been found.
  pub not_inserted :
      (ts : List RefreshToken) (t : RefreshToken)
      → known h ts ≡ true
      → find_row (λ row. str_eq row.token_hash t.token_hash || str_eq row.id t.id) ts ≡ none
      → str_eq t.token_hash h ≡ false
  unfolding find_row
  not_inserted (u ∷ ts) t k n = ground (
    arith,
    not_inserted ts t,
    eq_iff u.token_hash h,
    eq_iff t.token_hash h,
    eq_iff u.token_hash t.token_hash,
  )
  not_inserted [] t k n = absurd (cc)

  pub known-map :
      (p : RefreshToken → Bool) (ts : List RefreshToken)
      → known h (map (revoke_if p) ts) ≡ known h ts
  known-map p [] = refl
  known-map p (t ∷ ts) = ground (arith, known-map p ts)

  pub spent-map :
      (p : RefreshToken → Bool) (ts : List RefreshToken)
      → spent at h ts ≡ true
      → spent at h (map (revoke_if p) ts) ≡ true
  spent-map p [] k = refl
  spent-map p (t ∷ ts) k = ground (arith, spent-map p ts)

  -- Revoking the live rows of the hash spends it.
  pub spent-revoke :
      (ts : List RefreshToken) → spent at h (map (revoke_if (is_live at h)) ts) ≡ true
  unfolding is_live
  spent-revoke [] = refl
  spent-revoke (t ∷ ts) = ground (arith, spent-revoke ts)

  pub known-found :
      (now : Time) (ts : List RefreshToken) (t : RefreshToken)
      → find_row (is_live now h) ts ≡ some t
      → known h ts ≡ true
  unfolding find_row is_live
  known-found now (u ∷ ts) t k = ground (arith, known-found now ts t)
  known-found now [] t k = absurd (cc)

  pub spent-not_found :
      (now : Time) (ts : List RefreshToken)
      → at ≤ now
      → spent at h ts ≡ true
      → find_row (is_live now h) ts ≡ none
  unfolding find_row is_live
  spent-not_found now [] l k = refl
  spent-not_found now (t ∷ ts) l k = ground (arith, spent-not_found now ts)

  Used-save_token :
      (down : Call → Bool) (now : Time) (t : RefreshToken) (s : Store)
      → Used s
      → Used (save_token down now t s).0
  unfolding save_token
  Used-save_token down now t s u =
      ground (arith, known-append s.tokens t, spent-append s.tokens t, not_inserted s.tokens t)

  Used-revoke :
      (down : Call → Bool) (now : Time) (p : RefreshToken → Bool) (s : Store)
      → Used s
      → Used (revoke_where down now p s).0
  unfolding revoke_where
  Used-revoke down now p s u = ground (arith, known-map p s.tokens, spent-map p s.tokens)

  Used-get_and_revoke :
      (down : Call → Bool) (now : Time) (hash : String) (s : Store)
      → Used s
      → Used (get_and_revoke_token down now hash s).0
  unfolding get_and_revoke_token
  Used-get_and_revoke down now hash s u =
      let p = is_live now hash in ground (arith, known-map p s.tokens, spent-map p s.tokens)

  -- A used hash stays used.
  pub Primitives-Used : Primitives Used Any
  unfolding create_org_row create_user get_user_where update_user get_roles_of set_roles_of send
  Primitives-Used = record {
    keeps_create_org = λ down now org. Keeps-all Used (λ s u. ground arith);
    keeps_create = λ down now user good. Keeps-all Used (λ s u. ground arith);
    ensures_get_user = λ down now e p. Keeps-all Used (λ s u. ground arith);
    keeps_update = λ down now user good. Keeps-all Used (λ s u. ground arith);
    keeps_get_roles = λ down now id. Keeps-all Used (λ s u. ground arith);
    keeps_set_roles = λ down now id roles. Keeps-all Used (λ s u. ground arith);
    keeps_save_token = λ down now t. Keeps-all Used (Used-save_token down now t);
    keeps_get_and_revoke = λ down now hash. Keeps-all Used (Used-get_and_revoke down now hash);
    keeps_revoke = λ down now p. Keeps-all Used (Used-revoke down now p);
    keeps_send = λ down now c e. Keeps-all Used (λ s u. ground arith);
  }
