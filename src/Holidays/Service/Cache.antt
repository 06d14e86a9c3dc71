-- ===== src/Holidays/Service/Cache.antt =====
-- The cache of months.
use kor_travel_transport.Prelude.{
  ℕ, ◌+◌, ◌<◌, ◌≡◌, refl, ap, ◌∙◌, none, some, arith, ltb, if-true, ℤ, pos_part,
}
use kor_travel_transport.Prelude.Dict.{get, put, get-put}
use kor_travel_transport.Holidays.Service.{
  Month, month_beq_iff, month_eq, Entry, Cache, LookupResult, Fetched, month_result, fresh, stored,
  cached_or, get_month,
}

-- the result and the cache where the client was asked
get_month-asks :
    (f : Month → Fetched) (seconds : ℤ) (now : ℕ) (cache : Cache) (k : Month)
    → fresh now (get cache k) ≡ none
    → get_month f seconds now cache k ≡ stored now seconds cache k (month_result k (f k))
unfolding get_month
get_month-asks f seconds now cache k stale =
    ap (cached_or cache (stored now seconds cache k (month_result k (f k)))) stale

get_month-hits :
    (f : Month → Fetched) (seconds : ℤ) (now : ℕ) (cache : Cache) (k : Month) (r : LookupResult)
    → fresh now (get cache k) ≡ some r
    → get_month f seconds now cache k ≡ (r, cache)
unfolding get_month
get_month-hits f seconds now cache k r hit =
    ap (cached_or cache (stored now seconds cache k (month_result k (f k)))) hit

-- A month that the client was asked for is given again, errors included, until its time is over, and the
-- client is not asked: whatever it would answer then, the result and the cache are the same.
pub get_month_again :
    (f f' : Month → Fetched) (seconds : ℤ) (now later : ℕ) (cache : Cache) (k : Month)
    → fresh now (get cache k) ≡ none
    → later < now + pos_part seconds
    → get_month f' seconds later (get_month f seconds now cache k).1 k
      ≡ get_month f seconds now cache k
get_month_again f f' seconds now later cache k stale soon =
    let r = month_result k (f k) in
    let e : Entry = record { expires_at = now + pos_part seconds; result = r } in
    rw (get_month-asks f seconds now cache k stale) (
      get_month-hits f' seconds later (put cache k e) k r (
        ap (fresh later) (get-put cache k k e ∙ if-true _ _ ((month_beq_iff k k).1 refl))
        ∙ if-true {b = ltb later (now + pos_part seconds)} _ _ (ground arith)))
