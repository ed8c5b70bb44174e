-- ===== src/Examples/LiveQuota.antt =====
-- The cache of live quotas, on one giver with 100 of 1000 left.
use ctc.Common.{ℕ, ◌≡◌, refl, Option, none, some, pos, arith}
use ctc.Domain.{UserId}
use ctc.Quota.{
  UserInfo, Cache, value_of, invalidate, set_exhausted, get, get-get, remaining,
  remaining-set_exhausted,
}

abbrev pat_for : UserId → Option ℕ
pat_for u = some u

abbrev info : UserInfo
info = record {
  premium_interactions =
      some (record { entitlement = some (pos 1000); remaining = some (pos 100) });
  quota_reset_date = none;
}

abbrev fetch_user : ℕ → Option UserInfo
fetch_user pat = some info

abbrev empty : Cache
empty u = none

remaining-set_exhausted_example :
    remaining 60 pat_for fetch_user 10 530 540 (set_exhausted 10 500 empty)
    ≡ (some (pos 0), set_exhausted 10 500 empty)
remaining-set_exhausted_example =
    remaining-set_exhausted 60 pat_for fetch_user 10 500 530 540 empty (omega arith)

fetched : (get 60 pat_for fetch_user 10 500 501 (invalidate 10 empty)).0 ≡ some (value_of info)
unfolding get invalidate
fetched = refl

get-get_example :
    get 60 pat_for fetch_user 10 530 531
      (get 60 pat_for fetch_user 10 500 501 (invalidate 10 empty)).1
    ≡ get 60 pat_for fetch_user 10 500 501 (invalidate 10 empty)
get-get_example = get-get 60 pat_for fetch_user 10 500 501 530 531 empty (omega arith) fetched
