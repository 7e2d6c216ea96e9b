-- ===== src/Database/Tokens.antt =====
-- The statements of sql/queries/refresh_token.sql that read and revoke refresh tokens.
use laburi_to.Base.{
  ℕ, String, ◌≡◌, refl, Bool, true, false, Bool-cases, inl, inr, ◌&&◌, Option, none, some, List, [],
  ◌∷◌, map, ◌==◌, string_eq, int_eq, ltb, find, if◌then◌else◌,
}
use laburi_to.Errors.{ok}
use laburi_to.Database.Schema.{UserRow, RefreshTokenRow, Tables}
use laburi_to.Database.Connection.{Query}
use laburi_to.Database.Batches.{the_row}

abbrev pub unrevoked : RefreshTokenRow → Bool
unrevoked r = elim r.revoked_at [ none ↦ true | some _ ↦ false ]

-- GetActiveRefreshToken
unfoldable pub get_active_refresh_token : String → Query RefreshTokenRow
get_active_refresh_token token t = (
  the_row (find (λ r. r.token == token && unrevoked r && ltb t.now r.expires_at) t.refresh_tokens),
  t,
)

-- GetRefreshToken
unfoldable pub get_refresh_token : String → Query RefreshTokenRow
get_refresh_token token t = (the_row (find (λ r. r.token == token) t.refresh_tokens), t)

unfoldable pub user_of_token : Tables → Option RefreshTokenRow → Option UserRow
user_of_token t none = none
user_of_token t (some r) = find (λ u. u.id == r.user_id) t.users

-- GetUserFromRefreshToken
unfoldable pub get_user_from_refresh_token : String → Query UserRow
unfolding user_of_token
get_user_from_refresh_token token t =
    (the_row (user_of_token t (find (λ r. r.token == token) t.refresh_tokens)), t)

unfoldable pub revoked : String → ℕ → RefreshTokenRow → RefreshTokenRow
revoked token now r =
    if r.token == token then record r { revoked_at = some now; updated_at = now } else r

-- RevokeRefreshToken
unfoldable pub revoke_refresh_token : String → Query (Unit {0})
unfolding revoked
revoke_refresh_token token t =
    (ok tt, record t { refresh_tokens = map (revoked token t.now) t.refresh_tokens })

inactive :
    (token : String) (now : ℕ) (rows : List RefreshTokenRow)
    → find
        (λ r. r.token == token && unrevoked r && ltb now r.expires_at)
        (map (revoked token now) rows)
      ≡ none
unfolding find revoked
inactive token now [] = refl
inactive token now (r ∷ rows) = elim (Bool-cases (r.token == token)) [
  | inl e ↦ rw (e, e) (inactive token now rows)
  | inr e ↦ rw (e, e) (inactive token now rows)
]

-- A refresh token that was revoked is not active.
pub get_active-revoke_refresh_token :
    (token : String) (t : Tables)
    → (get_active_refresh_token token (revoke_refresh_token token t).1).0 ≡ the_row none
unfolding get_active_refresh_token revoke_refresh_token
get_active-revoke_refresh_token token t = rw (inactive token t.now t.refresh_tokens) refl
