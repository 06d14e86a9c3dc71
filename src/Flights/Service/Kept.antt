-- ===== src/Flights/Service/Kept.antt =====
-- What `get_status` keeps.
use kor_travel_transport.Prelude.{
  ℕ, ◌+◌, ◌≤◌, ◌<◌, ◌≡◌, ◌⊎◌, refl, sym, ap, ◌∙◌, subst, Option, none, some, arith, ltb, if-true,
  if-false, pos_part, inl, inr,
}
use kor_travel_transport.Prelude.Dict.{get, put, get-put}
use kor_travel_transport.Flights.Service.{
  FlightSettings, Reply, Payload, Status, success, sample, disabled, config_error, rate_limited,
  upstream_error, Request, request_beq_iff, request_eq, Entry, Cache, kept_seconds, store, fresh,
  cached_or, fetch_status, get_status,
}

module _ (settings : FlightSettings) where
  get_status-asks :
      (client : Option (Request → Reply)) (now : ℕ) (cache : Cache) (q : Request)
      → fresh now (get cache q) ≡ none
      → get_status settings client now cache q
        ≡ store
            (kept_seconds settings (fetch_status settings client q).status)
            now
            cache
            q
            (fetch_status settings client q)
  unfolding get_status
  get_status-asks client now cache q stale =
      ap
        (cached_or cache (
          store (kept_seconds settings (fetch_status settings client q).status) now cache q
            (fetch_status settings client q)))
        stale

  get_status-hits :
      (client : Option (Request → Reply)) (now : ℕ) (cache : Cache) (q : Request) (p : Payload)
      → fresh now (get cache q) ≡ some p
      → get_status settings client now cache q ≡ (p, cache)
  unfolding get_status
  get_status-hits client now cache q p hit =
      ap
        (cached_or cache (
          store (kept_seconds settings (fetch_status settings client q).status) now cache q
            (fetch_status settings client q)))
        hit

  -- for how long an answer of a status is to be given again; at once is not at all
  abbrev pub lasting : Status → ℕ
  lasting upstream_error = 0
  lasting rate_limited = pos_part settings.upstream_rate_limit_backoff_seconds
  lasting success = pos_part settings.flight_status_cache_seconds
  lasting sample = pos_part settings.flight_status_cache_seconds
  lasting disabled = pos_part settings.flight_status_cache_seconds
  lasting config_error = pos_part settings.flight_status_cache_seconds

  -- A later call, after the first that asked: in the given time it gives the answer of the first and
  -- leaves the cache as it is, from the end of the time on it asks anew.
  abbrev pub Again :
      Option (Request → Reply)
      → ℕ
      → ℕ
      → Request
      → (seconds : ℕ) (first second : Payload × Cache) → Type 0
  Again client' now later q seconds first second =
      ((later < now + seconds) × (second ≡ first))
      ⊎ ((now + seconds ≤ later) × (second.0 ≡ fetch_status settings client' q))

  lt_or_le : (a b : ℕ) → (a < b) ⊎ (b ≤ a)
  lt_or_le a b = ground arith

  store_status :
      (seconds : Option ℕ) (now : ℕ) (cache : Cache) (q : Request) (p : Payload)
      → (store seconds now cache q p).0 ≡ p
  store_status none now cache q p = refl
  store_status (some seconds) now cache q p = refl

  asks_first :
      (client : Option (Request → Reply)) (now : ℕ) (cache : Cache) (q : Request)
      → fresh now (get cache q) ≡ none
      → (get_status settings client now cache q).0 ≡ fetch_status settings client q
  asks_first client now cache q stale =
      let p = fetch_status settings client q in
      ap (λ (r : Payload × Cache). r.0) (get_status-asks client now cache q stale)
      ∙ store_status (kept_seconds settings p.status) now cache q p

  -- an entry that is over stays so
  stale_later :
      (now later : ℕ) (o : Option Entry) → now ≤ later → fresh now o ≡ none → fresh later o ≡ none
  stale_later now later none h e = refl
  stale_later now later (some entry) h e = ground (arith, h, e)

  kept_lasting :
      (s : Status)
      → (kept_seconds settings s ≡ some (lasting s))
        ⊎ ((kept_seconds settings s ≡ none) × (lasting s ≡ 0))
  kept_lasting success = inl refl
  kept_lasting sample = inl refl
  kept_lasting disabled = inl refl
  kept_lasting config_error = inl refl
  kept_lasting rate_limited = inl refl
  kept_lasting upstream_error = inr (refl, refl)

  module _ (client' : Option (Request → Reply)) (now later : ℕ) (cache : Cache) (q : Request)
      (p : Payload) where
    abbrev Stored : ℕ → Option ℕ → Type 0
    Stored seconds o =
        Again client' now later q seconds (store o now cache q p)
          (get_status settings client' later (store o now cache q p).1 q)

    kept-Again : (seconds : ℕ) → Stored seconds (some seconds)
    kept-Again seconds =
        let entry : Entry = record { expires_at = now + seconds; payload = p } in
        let found : get (put cache q entry) q ≡ some entry =
          get-put cache q q entry ∙ if-true _ _ ((request_beq_iff q q).1 refl) in
        elim (lt_or_le later (now + seconds)) [
          | inl soon ↦ inl (
            soon,
            get_status-hits client' later (put cache q entry) q p (
                ap (fresh later) found
                ∙ if-true {b = ltb later (now + seconds)} _ _ (ground (arith, soon))),
          )
          | inr over ↦ inr (
            over,
            asks_first client' later (put cache q entry) q (
                ap (fresh later) found
                ∙ if-false {b = ltb later (now + seconds)} _ _ (ground (arith, over))),
          )
        ]

    store-Again :
        now ≤ later
        → fresh now (get cache q) ≡ none
        → (s : Status) → Stored (lasting s) (kept_seconds settings s)
    store-Again order stale s = elim (kept_lasting s) [
      | inl kept ↦ subst (Stored (lasting s)) (sym kept) (kept-Again (lasting s))
      | inr left ↦ subst (Stored (lasting s)) (sym left.0) (
          inr (
            omega (arith, order, left.1),
            asks_first client' later cache q (stale_later now later (get cache q) order stale),
          ))
    ]

  -- Where a call asked the upstream, the next call for the same flights, at no earlier time, depends on
  -- the status of the answer. After upstream_error it asks anew at once. After rate_limited it gives the
  -- same answer for the seconds of the back-off, after any other status for the seconds of the cache,
  -- whatever the upstream would then answer, and leaves the cache as it is; from the end of that time
  -- on it asks anew.
  pub get_status-Again :
      (client client' : Option (Request → Reply)) (now later : ℕ) (cache : Cache) (q : Request)
      → now ≤ later
      → fresh now (get cache q) ≡ none
      → let r = get_status settings client now cache q in
        Again client' now later q (lasting r.0.status) r (get_status settings client' later r.1 q)
  get_status-Again client client' now later cache q order stale =
      let p = fetch_status settings client q in
      let asked = get_status-asks client now cache q stale in
      let after : Payload → Payload × Cache → Type 0 = λ p' r.
        Again client' now later q (lasting p'.status) r (get_status settings client' later r.1 q) in
      subst (λ p'. after p' (get_status settings client now cache q))
        (sym (asks_first client now cache q stale))
        (subst (after p) (sym asked) (store-Again client' now later cache q p order stale p.status))
