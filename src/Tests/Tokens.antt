-- ===== src/Tests/Tokens.antt =====
-- The session theorems on one device that refreshes once.
use accounting_api.Common.{◌≤◌, ◌≡◌, refl, List, [], ◌∷◌, count}
use accounting_api.Errors.{ok}
use accounting_api.Sessions.{
  RefreshToken, create, issue, rotate_row, rotate_in_tx, rotate_result, rotate, revoke_all_for_user,
  fresh_token,
}
use accounting_api.Sessions.Families.{
  is_live, Reachable, start, issued, rotation, Reachable-one_live,
}
use accounting_api.Sessions.Replay.{refused, rotate-rotate, rotate-revoke_all_for_user}

-- Token 21 of user 3, in the family 30.
abbrev first : List RefreshToken
first = fresh_token 21 3 30 1100 ∷ []

issue-first : issue 3 21 30 1000 100 [] ≡ ok (record { jti = 21; family_id = 30 }, first)
unfolding issue create
issue-first = refl

first-Reachable : Reachable first
first-Reachable =
    issued start 3 21 30 100 1000 (record { jti = 21; family_id = 30 }) refl issue-first

rotate-first : (rotate 21 3 22 1010 100 first).0 ≡ ok (record { jti = 22; family_id = 30 })
unfolding rotate rotate_in_tx rotate_row rotate_result create
rotate-first = refl

Reachable-one_live_example : count (is_live 30) (rotate 21 3 22 1010 100 first).1 ≤ 1
Reachable-one_live_example =
    Reachable-one_live (rotate 21 3 22 1010 100 first).1 (rotation first-Reachable 21 3 22 100 1010)
      30

-- Both a thief and the user send the token 21.
rotate-rotate_example :
    let ts' = (rotate 21 3 22 1010 100 first).1 in
    ((rotate 21 3 23 1020 100 ts').0 ≡ refused)
    × (count (is_live 30) (rotate 21 3 23 1020 100 ts').1 ≡ 0)
rotate-rotate_example =
    rotate-rotate 21 3 22 100 1010 (record { jti = 22; family_id = 30 }) first 23 100 1020
      rotate-first

rotate-revoke_all_for_user_example :
    let ts' = revoke_all_for_user 3 first in rotate 21 3 22 1010 100 ts' ≡ (refused, ts')
rotate-revoke_all_for_user_example = rotate-revoke_all_for_user 21 3 22 100 1010 first
