-- ===== src/Oauth/Server/RefreshGrant/Rotate.antt =====
-- When the refresh token grant issues tokens, and which.
use pgedge_postgres_mcp.Prelude.{
  ℕ, ◌+◌, ◌<◌, String, ◌≡◌, refl, ap, ◌∙◌, ◌≢◌, true, false, none, some, arith, eq_iff, eq_refl,
}
use pgedge_postgres_mcp.Oauth.Types.{Store, Token, RotatedRefresh}
use pgedge_postgres_mcp.Oauth.Server.Errors.{
  granted, Config, External, Draws, Times, Form, TokenResponse,
}
use pgedge_postgres_mcp.Oauth.Server.RefreshGrant.{handle_refresh_token_grant, refresh_rejected}
use pgedge_postgres_mcp.GoMap.{get, GoMap, put}
use pgedge_postgres_mcp.GoMap.Laws.{get-put}
use pgedge_postgres_mcp.Oauth.Store.Clients.{
  mark_refresh_rotated, rotated_refresh_family, evict_oldest_rotated_locked,
}
use pgedge_postgres_mcp.Oauth.Store.Tokens.After.{tokens-take_token}
use pgedge_postgres_mcp.Oauth.Store.Tokens.Cascade.{get-delete_token_locked_self}
use pgedge_postgres_mcp.Oauth.Server.Issue.Held.{HoldsAccess, StoresPair-HoldsAccess}
use pgedge_postgres_mcp.Oauth.Server.RefreshGrant.Rotation.{
  granted-Rotates, without_refresh, issue_after, issue_tokens-StoresPair,
}

-- What a refresh token has to be for a request to rotate it.
pub record MayRotate (ext : External) (f : Form) (now : ℕ) (t : Token) : Type 0 where
  pub refresh : t.is_refresh ≡ true
  pub unexpired : now < t.expires_at
  pub same_client : t.client_id ≡ f.client_id
  pub active : ext.subject_active t.subject ≡ true

refresh_accepted :
    (ext : External) (config : Config) (f : Form) (now : ℕ) (t : Token)
    → refresh_rejected ext config f now t ≡ false
    → ext.subject_active t.subject ≡ true
    → MayRotate ext f now t
unfolding refresh_rejected
refresh_accepted ext config f now t e active = record {
  refresh = ground arith;
  unexpired = ground arith;
  same_client = ground (arith, eq_iff t.client_id f.client_id);
  active = active;
}

rotated-mark :
    (h family : String) (until : ℕ) (s : Store)
    → rotated_refresh_family h (mark_refresh_rotated h family until s) ≡ some family
unfolding rotated_refresh_family mark_refresh_rotated
rotated-mark h family until s =
    let r : RotatedRefresh = record { family = family; until = until } in
    ground (
      arith,
      get-put h h r s.rotated,
      get-put h h r (evict_oldest_rotated_locked s.rotated),
      eq_refl h,
    )

-- The refresh token grant issues tokens only for a refresh token on file that has not expired, to
-- the client that it was issued to and while its subject is active; the access token has the
-- subject and the scope of the old token, which is on record as rotated away from its family.
pub refresh_grant_sound :
    (ext : External) (config : Config) (f : Form) (times : Times) (draws : Draws) (s : Store)
    (tr : TokenResponse)
    → (handle_refresh_token_grant ext config f times draws s).1 ≡ granted tr
    → (t : Token) × (get (ext.hash_token f.refresh_token) s.tokens ≡ some t)
      × MayRotate ext f times.checked t
      × HoldsAccess
          (handle_refresh_token_grant ext config f times draws s).0
          (ext.hash_token tr.access_token)
          f.client_id
          t.subject
          t.scope
          (times.issued + config.access_token_lifetime)
      × (rotated_refresh_family
            (ext.hash_token f.refresh_token)
            (handle_refresh_token_grant ext config f times draws s).0
          ≡ some t.family)
refresh_grant_sound ext config f times draws s tr ok =
    let (t, r) = granted-Rotates ext config f times draws s tr ok in
    let s₁ = without_refresh ext config f times draws s in
    let s₂ = (issue_after ext config f times draws s t).0 in
    let s' = (handle_refresh_token_grant ext config f times draws s).0 in
    let h = ext.hash_token f.refresh_token in
    let until = times.marked + config.refresh_token_lifetime in
    let (i, same, pair) =
      issue_tokens-StoresPair ext config f.client_id t.subject t.scope t.family draws times.issued
        s₁ tr r.issued in
    let held =
      StoresPair-HoldsAccess ext config f.client_id t.subject t.scope t.family draws times.issued s₁
        s₂ i tr same pair in
    let tokens_same : s'.tokens ≡ s₂.tokens =
      ap (λ x. Store.tokens x) r.marked ∙ (unfold mark_refresh_rotated in refl) in
    (
      t,
      r.on_file,
      refresh_accepted ext config f times.checked t r.accepted r.active,
      record {
        token = held.token;
        present = ap (get (ext.hash_token tr.access_token)) tokens_same ∙ held.present;
        access = held.access;
        client_is = held.client_is;
        subject_is = held.subject_is;
        scope_is = held.scope_is;
        until_is = held.until_is;
      },
      ap (rotated_refresh_family h) r.marked ∙ rotated-mark h t.family until s₂,
    )

not_put_twice :
    (h a r : String) (x y : Token) (m : GoMap Token)
    → a ≢ h
    → r ≢ h
    → get h m ≡ none
    → get h (put a x (put r y m)) ≡ none
not_put_twice h a r x y m ne_a ne_r absent =
    ground (arith, get-put a h x (put r y m), get-put r h y m, eq_iff a h, eq_iff r h)

-- After a rotation the old refresh token is off the file.
pub rotated_is_gone :
    (ext : External) (config : Config) (f : Form) (times : Times) (draws : Draws) (s : Store)
    (tr : TokenResponse)
    → (handle_refresh_token_grant ext config f times draws s).1 ≡ granted tr
    → ext.hash_token tr.access_token ≢ ext.hash_token f.refresh_token
    → ext.hash_token tr.refresh_token ≢ ext.hash_token f.refresh_token
    → get
        (ext.hash_token f.refresh_token)
        (handle_refresh_token_grant ext config f times draws s).0.tokens
      ≡ none
rotated_is_gone ext config f times draws s tr ok ne_a ne_r =
    let (t, r) = granted-Rotates ext config f times draws s tr ok in
    let h = ext.hash_token f.refresh_token in
    let s₁ = without_refresh ext config f times draws s in
    let s₂ = (issue_after ext config f times draws s t).0 in
    let s' = (handle_refresh_token_grant ext config f times draws s).0 in
    let (i, same, pair) =
      issue_tokens-StoresPair ext config f.client_id t.subject t.scope t.family draws times.issued
        s₁ tr r.issued in
    let a = TokenResponse.access_token i.response in
    let rt = TokenResponse.refresh_token i.response in
    let tokens_same : s'.tokens ≡ s₂.tokens =
      ap (λ x. Store.tokens x) r.marked ∙ (unfold mark_refresh_rotated in refl) in
    let absent : get h s₁.tokens ≡ none =
      ap (get h) (tokens-take_token h s) ∙ get-delete_token_locked_self h s in
    ap (get h) (tokens_same ∙ ap (λ x. Store.tokens x) pair.after)
    ∙ not_put_twice h (ext.hash_token a) (ext.hash_token rt) _ _ s₁.tokens (rw (← same) at ne_a)
        (rw (← same) at ne_r) absent
