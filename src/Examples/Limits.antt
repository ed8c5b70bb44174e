-- ===== src/Examples/Limits.antt =====
-- Five requests a minute, and a token that is issued and deleted.
use ctc.Common.{
  false, ◌+◌, ◌*◌, ◌≡◌, ◌≤◌, refl, none, some, List, [], ◌∷◌, length, filter, find, find_first,
}
use ctc.Domain.{Time}
use ctc.Access.{RateBuckets, check_bucket_of, check, admitted}
use ctc.Access.Rate.{elapsed, admitted-bounded}
use ctc.Access.Tokens.{
  User, ProxyToken, AuthDb, get_user_by_id, add_proxy_token, issue_proxy_token, delete_proxy_token,
  active_tokens, evict, max_active_proxy_tokens, api_token_create, resolve,
}
use ctc.Access.Tokens.Cap.{api_token_create-capped}
use ctc.Access.Tokens.Issue.{resolve-api_token_create}

-- What the checks compute with.
program : Unit {0}
unfolding check_bucket_of check admitted elapsed get_user_by_id add_proxy_token issue_proxy_token
    active_tokens evict api_token_create length filter find find_first
program = tt

abbrev fresh : RateBuckets
fresh = λ scope key. none

-- The sixth request at once is refused; twelve seconds later one more passes.
abbrev times : List Time
times = 0 ∷ 0 ∷ 0 ∷ 0 ∷ 0 ∷ 12 ∷ []

six_of_seven : admitted 5 60 1 20 (0 ∷ times) fresh ≡ 6
unfolding program
six_of_seven = refl

admitted-bounded_example : admitted 5 60 1 20 (0 ∷ times) fresh * 60 ≤ 5 * (60 + elapsed 0 times)
admitted-bounded_example = admitted-bounded 5 60 1 20 0 times fresh refl

abbrev ann : User
ann = record { id = 20; is_giver = false }

abbrev old_token : ProxyToken
old_token = record { id = 1; token_hash = 100; user_id = 20; created_at = 3; revoked_at = none }

abbrev before : AuthDb
before = record { users = ann ∷ []; proxy_tokens = old_token ∷ [] }

abbrev issued : AuthDb
issued = record before {
  proxy_tokens =
      old_token
      ∷ record { id = 2; token_hash = 200; user_id = 20; created_at = 9; revoked_at = none }
      ∷ [];
}

issue_run : api_token_create 2 200 20 9 before ≡ some issued
unfolding program
issue_run = refl

ann_known : get_user_by_id before 20 ≡ some ann
unfolding program
ann_known = refl

resolve-api_token_create_example :
    (resolve issued 200 ≡ some (record { user_id = 20; is_giver = false }))
    × (resolve (delete_proxy_token 2 20 issued) 200 ≡ none)
resolve-api_token_create_example = resolve-api_token_create 2 200 20 9 before issue_run ann_known

api_token_create-capped_example : length (active_tokens 20 issued) ≤ max_active_proxy_tokens
api_token_create-capped_example = api_token_create-capped 2 200 20 9 before issue_run
