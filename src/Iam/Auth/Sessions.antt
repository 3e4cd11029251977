-- ===== src/Iam/Auth/Sessions.antt =====
-- A refresh token is good for one use, whatever is called afterwards.
use green_lab.Prelude.{
  ◌≤◌, ◌≡◌, refl, sym, subst, String, Bool, List, Bool-cases, Option-cases, inl, inr, arith,
}
use green_lab.Prelude.Actions.{done, failed, ◌>>=◌, or_throw, resume, or_error, find_row}
use green_lab.Ingestion.Domain.{Time}
use green_lab.Iam.User.{
  AuthError, token_not_found, invalid_token, storage_error, Outcome, RefreshToken, TokenPair, Lib,
}
use green_lab.Iam.Store.{Store, Call, revoke, is_live, get_and_revoke_token}
use green_lab.Iam.Auth.{RefreshInput, Fresh, rotate, refresh}
use green_lab.Iam.Auth.Spent.{
  Used, Any, Primitives-Used, Methods-Any, known-map, spent-revoke, known-found, spent-not_found,
}
use green_lab.Iam.Auth.Operations.{Keeps-rotate}
use green_lab.Iam.Auth.Requests.{Request, serve_all, serve_all-keeps}

module _ (lib : Lib) (issuer : String) where
  -- A successful first step of Refresh uses the hash up.
  get_and_revoke_token-Used :
      (down : Call → Bool) (now : Time) (h : String) (s : Store) (t : RefreshToken)
      → (get_and_revoke_token down now h s).1 ≡ done t
      → Used now h (get_and_revoke_token down now h s).0
  unfolding get_and_revoke_token
  get_and_revoke_token-Used down now h s t e =
      elim (Option-cases (find_row (is_live now h) s.tokens)) [
        | inr missing ↦ absurd (ground arith)
        | inl (row, found) ↦
            let was_known = known-found now h now s.tokens row found in
            ground (arith, known-map now h (is_live now h) s.tokens, spent-revoke now h s.tokens)
      ]

  rotate-Used :
      (down : Call → Bool) (now : Time) (fresh : Fresh) (input : RefreshInput) (h : String)
      (s : Store) (o : Outcome RefreshToken) (pair : TokenPair)
      → ((t : RefreshToken) → o ≡ done t → Used now h s)
      → let checked = or_error o invalid_token in
        (resume s checked (rotate lib issuer down now fresh input)).1 ≡ done pair
        → Used now h (resume s checked (rotate lib issuer down now fresh input)).0
  rotate-Used down now fresh input h s (failed x) pair used e = absurd (cc)
  rotate-Used down now fresh input h s (done t) pair used e =
      let P = Used now h in
      let kept =
        Keeps-rotate P Any (Primitives-Used now h) lib (Methods-Any lib) issuer down now fresh input
          t in
      kept.keeps s (used t refl)

  refresh-Used :
      (down : Call → Bool) (now : Time) (fresh : Fresh) (input : RefreshInput) (s : Store)
      (pair : TokenPair)
      → (refresh lib issuer down now fresh input s).1 ≡ done pair
      → Used now (lib.sha256_hex input.refresh_token) (refresh lib issuer down now fresh input s).0
  unfolding refresh ◌>>=◌ or_throw
  refresh-Used down now fresh input s pair =
      let h = lib.sha256_hex input.refresh_token in
      let out = get_and_revoke_token down now h s in
      rotate-Used down now fresh input h out.0 out.1 pair (get_and_revoke_token-Used down now h s)

  get_and_revoke_token_refused :
      (down : Call → Bool) (at now : Time) (h : String) (s : Store)
      → Used at h s
      → at ≤ now
      → (x : AuthError) × (get_and_revoke_token down now h s ≡ (s, failed x))
  unfolding get_and_revoke_token
  get_and_revoke_token_refused down at now h s u l = elim (Bool-cases (down revoke)) [
    | inl d ↦ (storage_error, rw d)
    | inr d ↦ (token_not_found, rw (d, spent-not_found at h now s.tokens l u.1))
  ]

  refresh_refused :
      (down : Call → Bool) (at now : Time) (fresh : Fresh) (input : RefreshInput) (s : Store)
      → Used at (lib.sha256_hex input.refresh_token) s
      → at ≤ now
      → (refresh lib issuer down now fresh input s).1 ≡ failed invalid_token
  unfolding refresh ◌>>=◌ or_throw
  refresh_refused down at now fresh input s u l =
      let (x, e) =
        get_and_revoke_token_refused down at now (lib.sha256_hex input.refresh_token) s u l in
      rw e

  -- A refresh token that has been exchanged once is refused with ErrInvalidToken at every later
  -- moment, whatever calls of the service were made in between, at whatever moments, and whichever
  -- calls of the database failed in them.
  pub refresh_once :
      (down later_down : Call → Bool) (now later : Time) (fresh later_fresh : Fresh)
      (input later_input : RefreshInput) (s : Store) (pair : TokenPair) (requests : List Request)
      → (refresh lib issuer down now fresh input s).1 ≡ done pair
      → later_input.refresh_token ≡ input.refresh_token
      → now ≤ later
      → (refresh lib issuer later_down later later_fresh later_input
          (serve_all lib issuer requests (refresh lib issuer down now fresh input s).0)).1
        ≡ failed invalid_token
  refresh_once down later_down now later fresh later_fresh input later_input s pair requests e same
        l =
      let used = refresh-Used down now fresh input s pair e in
      let h = lib.sha256_hex input.refresh_token in
      refresh_refused later_down now later later_fresh later_input _
        (subst
          (λ token.
            Used now (lib.sha256_hex token)
              (serve_all lib issuer requests (refresh lib issuer down now fresh input s).0))
          (sym same)
          (serve_all-keeps lib issuer (Used now h) Any (Primitives-Used now h) (Methods-Any lib)
            requests _ used))
        l
