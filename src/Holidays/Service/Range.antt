-- ===== src/Holidays/Service/Range.antt =====
-- `get_holidays` over a range of dates, with and without the cache.
use kor_travel_transport.Prelude.{
  ℕ, ◌≡◌, refl, sym, ap, ◌∙◌, subst, Option, none, some, List, [], ◌∷◌, ltb, if◌then◌else◌, ℤ,
  Option-cases, inl, inr, All, some-inj, length, ap₂, if-cases, Bool-cases,
}
use kor_travel_transport.Prelude.Dict.{get, put-All}
use kor_travel_transport.Holidays.{Date, date_ltb, deduplicate_holidays}
use kor_travel_transport.Holidays.Service.{
  Month, month_beq, month_beq_iff, month_eq, Entry, Cache, LookupResult, Fetched, month_result,
  fresh, stored, get_month, cached_or, Gathered, gather, gather_months, status_of, HolidayAnswer,
  nothing, get_holidays, iter_months,
}

module _ (f : Month → Fetched) where
  -- the result of a month, asked for now
  abbrev asked : Month → LookupResult
  asked k = month_result k (f k)

  -- The cache holds what the client would answer.
  abbrev pub IsTrue : Cache → Type 0
  IsTrue cache = All (λ (p : Month × Entry). p.1.result ≡ asked p.0) cache

  get-IsTrue :
      (cache : Cache) (k : Month) (e : Entry)
      → IsTrue cache
      → get cache k ≡ some e
      → e.result ≡ asked k
  unfolding get
  get-IsTrue [] k e h found = cc
  get-IsTrue ((j, e') ∷ cache) k e h found =
      if-cases (λ o. o ≡ some e → e.result ≡ asked k) (month_beq j k) {x = some e'}
        {y = get cache k}
        (λ same here.
          ap (λ (x : Entry). x.result) (sym (some-inj here))
          ∙ h.0
          ∙ ap asked ((month_beq_iff j k).0 same))
        (λ other later. get-IsTrue cache k e h.1 later) found

  fresh-asked :
      (now : ℕ) (cache : Cache) (k : Month) (r : LookupResult)
      → IsTrue cache
      → fresh now (get cache k) ≡ some r
      → r ≡ asked k
  fresh-asked now cache k r h hit = elim (Option-cases (get cache k)) [
    | inl gone ↦ cc (ap (fresh now) (sym gone) ∙ hit)
    | inr (e, there) ↦ in_time e there (ap (fresh now) (sym there) ∙ hit)
  ]
    where
      in_time : (e : Entry) → get cache k ≡ some e → fresh now (some e) ≡ some r → r ≡ asked k
      in_time e there =
          if-cases (λ o. o ≡ some r → r ≡ asked k) (ltb now e.expires_at) {x = some e.result}
            {y = none} (λ early same. sym (some-inj same) ∙ get-IsTrue cache k e h there)
            (λ late same. cc)

  stored-IsTrue :
      (now : ℕ) (seconds : ℤ) (cache : Cache) (k : Month)
      → IsTrue cache
      → IsTrue (stored now seconds cache k (asked k)).1
  stored-IsTrue now seconds cache k h =
      put-All (λ (p : Month × Entry). p.1.result ≡ asked p.0) cache k _
        (λ j same. ap asked (sym ((month_beq_iff j k).0 same))) refl h

  get_month-asked :
      (seconds : ℤ) (now : ℕ) (cache : Cache) (k : Month)
      → IsTrue cache
      → ((get_month f seconds now cache k).0 ≡ asked k) × IsTrue (get_month f seconds now cache k).1
  unfolding get_month
  get_month-asked seconds now cache k h = elim (Option-cases (fresh now (get cache k))) [
    | inl stale ↦ subst Fine (sym stale) (refl, stored-IsTrue now seconds cache k h)
    | inr (r, hit) ↦ subst Fine (sym hit) (fresh-asked now cache k r h hit, h)
  ]
    where
      Fine : Option LookupResult → Type 0
      Fine o =
          ((cached_or cache (stored now seconds cache k (asked k)) o).0 ≡ asked k)
          × IsTrue (cached_or cache (stored now seconds cache k (asked k)) o).1

  -- what the months give without a cache
  abbrev pub gathered : Date → Date → List Month → Gathered
  gathered start end [] = record { items = []; errors = []; sources = [] }
  gathered start end (k ∷ ks) = gather start end (asked k) (gathered start end ks)

  gather_months-gathered :
      (seconds : ℤ) (now : ℕ → ℕ) (start end : Date) (cache : Cache) (ks : List Month)
      → IsTrue cache
      → ((gather_months (λ n. f) seconds now start end cache ks).0 ≡ gathered start end ks)
        × IsTrue (gather_months (λ n. f) seconds now start end cache ks).1
  unfolding gather_months
  gather_months-gathered seconds now start end cache [] h = (refl, h)
  gather_months-gathered seconds now start end cache (k ∷ ks) h =
      let month = get_month-asked seconds (now (length ks)) cache k h in
      let rest =
        gather_months-gathered seconds now start end
          (get_month f seconds (now (length ks)) cache k).1 ks month.1 in
      (ap₂ (gather start end) month.0 rest.0, rest.1)

  -- the answer to a range of dates without a cache
  abbrev pub direct_answer : Date → Date → HolidayAnswer
  direct_answer start end =
      let g = gathered start end (iter_months start end) in
      if date_ltb end start then nothing "success" [] else record {
        sources = g.sources;
        status = status_of g.errors g.sources;
        errors = g.errors;
        items = deduplicate_holidays g.items;
      }

  -- With a client that answers each month in one way, and a cache that holds such answers, the answer
  -- to a range of dates is the one without a cache, whatever is cached and has expired, and the cache
  -- still holds such answers.
  pub get_holidays-direct :
      (seconds : ℤ) (now : ℕ → ℕ) (cache : Cache) (start end : Date)
      → IsTrue cache
      → ((get_holidays (some (λ n. f)) seconds now cache start end).0 ≡ direct_answer start end)
        × IsTrue (get_holidays (some (λ n. f)) seconds now cache start end).1
  unfolding get_holidays
  get_holidays-direct seconds now cache start end h =
      let all_months =
        gather_months-gathered seconds now start end cache (iter_months start end) h in
      elim (Bool-cases (date_ltb end start)) [
        | inl early ↦ rw (get_holidays, early) (refl, h)
        | inr late ↦ rw (get_holidays, late) (ap answer_of all_months.0, all_months.1)
      ]
    where
      answer_of : Gathered → HolidayAnswer
      answer_of g = record {
        sources = g.sources;
        status = status_of g.errors g.sources;
        errors = g.errors;
        items = deduplicate_holidays g.items;
      }
