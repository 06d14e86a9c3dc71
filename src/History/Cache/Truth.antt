-- ===== src/History/Cache/Truth.antt =====
-- Whatever the tasks do in turn, a prepared response is the one that would be rendered now.
use kor_travel_transport.Prelude.{
  ℕ, suc, ◌≤◌, ◌≡◌, refl, sym, ap, ◌∙◌, subst, Bool, true, not, Option, none, some, [], ◌∷◌, keep,
  length, ltb, ==_iff, ◌&&◌, ◌||◌, if◌then◌else◌, if-cases, if-both, if-true, if-false, All,
  All-keep, All-append, length-append, Bool-cases, Option-cases, inl, inr, arith,
}
use kor_travel_transport.Prelude.Chars.{Text}
use kor_travel_transport.Prelude.Dict.{Dict, get, put, put-All, get-All}
use kor_travel_transport.History.{
  ParkingHistorySnapshot, Key, key_beq, key_eq, key_beq_iff, render, render_from,
}
use kor_travel_transport.History.Encoding.{Coding, br, gzip, identity, coding_beq}
use kor_travel_transport.History.Cache.{
  HistoryCache, Fingerprint, is_same, move_to_end, evict, max_prepared_responses, compress_body,
  lookup_prepared, store_prepared, key_of, encoded_response, response_body, refresh_once,
  prepared_for, has_snapshot, is_unchanged, fingerprint_beq,
}

module _ (object : ℕ → ParkingHistorySnapshot) (compress : Coding → Text → Text)
    (is_positive : Text → Bool) where
  -- the response of a key, from a snapshot
  abbrev pub direct : ℕ → Key → Text
  direct address k =
      compress_body compress k.coding
        (render_from (object address) k.start k.airport_code k.parking_lot_id)

  abbrev Prepared : ℕ → Dict Key Text → Type 0
  Prepared address d = All (λ (e : Key × Text). e.1 ≡ direct address e.0) d

  abbrev PreparedFor : Option ℕ → Dict Key Text → Type 0
  PreparedFor none d = d ≡ []
  PreparedFor (some address) d = Prepared address d

  abbrev pub IsTrue : HistoryCache → Type 0
  IsTrue c =
      PreparedFor c.snapshot c.prepared_responses
      × (length c.prepared_responses ≤ max_prepared_responses)

  moved-Prepared :
      (address : ℕ) (d : Dict Key Text) (k : Key)
      → Prepared address d
      → Prepared address (move_to_end d k)
  unfolding move_to_end
  moved-Prepared address d k h = elim (Option-cases (get d k)) [
    | inl missing ↦ rw missing h
    | inr (v, found) ↦ rw found (
        All-append (λ (e : Key × Text). e.1 ≡ direct address e.0)
          (keep (λ e. not (key_beq e.0 k)) d) ((k, v) ∷ [])
          (All-keep (λ (e : Key × Text). e.1 ≡ direct address e.0) (λ e. not (key_beq e.0 k)) d h)
          (get-All (λ (e : Key × Text). e.1 ≡ direct address e.0) d k v h found, tt))
  ]

  evict-Prepared :
      (address : ℕ) (d : Dict Key Text) → Prepared address d → Prepared address (evict d)
  unfolding evict
  evict-Prepared address [] h = tt
  evict-Prepared address (e ∷ d) h =
      if-both (Prepared address) (ltb max_prepared_responses (suc (length d)))
        (evict-Prepared address d h.1) h

  length-evict : (d : Dict Key Text) → length (evict d) ≤ max_prepared_responses
  unfolding evict
  length-evict [] = omega arith
  length-evict (e ∷ d) = ground (arith, length-evict d)

  length-keep_out :
      (k : Key) (d : Dict Key Text) → length (keep (λ e. not (key_beq e.0 k)) d) ≤ length d
  length-keep_out k [] = omega arith
  length-keep_out k (e ∷ d) = ground (arith, length-keep_out k d)

  length-found :
      (d : Dict Key Text) (k : Key) (v : Text)
      → get d k ≡ some v
      → suc (length (keep (λ e. not (key_beq e.0 k)) d)) ≤ length d
  unfolding get
  length-found [] k v found = cc
  length-found ((j, w) ∷ d) k v found = elim (Bool-cases (key_beq j k)) [
    | inl same ↦ ground (arith, same, length-keep_out k d)
    | inr other ↦ ground (arith, other, length-found d k v (sym (if-false _ _ other) ∙ found))
  ]

  -- an entry that is found leaves its place, so the length stays
  length-moved : (d : Dict Key Text) (k : Key) → length (move_to_end d k) ≤ length d
  unfolding move_to_end
  length-moved d k = elim (Option-cases (get d k)) [
    | inl missing ↦ rw missing (omega arith)
    | inr (v, found) ↦
        let kept = keep (λ (e : Key × Text). not (key_beq e.0 k)) d in
        rw found (omega (arith, length-append kept ((k, v) ∷ []), length-found d k v found))
  ]

  -- the key of a request stands for its response
  key_of-direct :
      (address cutoff : ℕ) (airport_code : Option Text) (parking_lot_id : Option ℕ) (accept : Text)
      → encoded_response object compress is_positive address cutoff airport_code parking_lot_id
          accept
        ≡ direct address
            (key_of object compress is_positive address cutoff airport_code parking_lot_id accept)
  unfolding key_of render
  key_of-direct address cutoff airport_code parking_lot_id accept = refl

  is_same-some : (s : Option ℕ) (address : ℕ) → is_same s address ≡ true → s ≡ some address
  is_same-some none address h = cc
  is_same-some (some current) address h = ap some ((==_iff current address).0 h)

  -- a prepared response that is found is the one of its key
  lookup_prepared-direct :
      (c : HistoryCache) (address : ℕ) (k : Key) (v : Text)
      → IsTrue c
      → lookup_prepared object compress is_positive c address k ≡ some v
      → (v ≡ direct address k)
        × ((c.snapshot ≡ some address) × (get c.prepared_responses k ≡ some v))
  unfolding lookup_prepared
  lookup_prepared-direct c address k v h found =
      elim (Bool-cases (coding_beq k.coding identity || not (is_same c.snapshot address))) [
        | inl out ↦ cc (sym (if-true _ _ out) ∙ found)
        | inr inside ↦
            let same : is_same c.snapshot address ≡ true = ground (arith, inside) in
            let current = is_same-some c.snapshot address same in
            let there = sym (if-false _ _ inside) ∙ found in
            (
              get-All (λ (e : Key × Text). e.1 ≡ direct address e.0) c.prepared_responses k v
                  (subst (λ s. PreparedFor s c.prepared_responses) current h.0) there,
              (current, there),
            )
      ]

  store_prepared-IsTrue :
      (c : HistoryCache) (address : ℕ) (k : Key)
      → IsTrue c
      → IsTrue (store_prepared object compress is_positive c address k (direct address k))
  unfolding store_prepared
  store_prepared-IsTrue c address k h =
      if-cases IsTrue (coding_beq k.coding identity || not (is_same c.snapshot address)) (λ out. h)
        λ inside.
          let same : is_same c.snapshot address ≡ true = ground (arith, inside) in
          let current = is_same-some c.snapshot address same in
          let old = subst (λ s. PreparedFor s c.prepared_responses) current h.0 in
          let d = put c.prepared_responses k (direct address k) in
          (
            subst (λ s. PreparedFor s (evict (move_to_end d k))) (sym current)
                (evict-Prepared address (move_to_end d k) (
                  moved-Prepared address d k (
                    put-All (λ (e : Key × Text). e.1 ≡ direct address e.0) c.prepared_responses k
                      (direct address k) (λ j e. ap (direct address) (sym ((key_beq_iff j k).0 e)))
                      refl old))),
            length-evict (move_to_end d k),
          )

  refresh_once-IsTrue :
      (during : HistoryCache → HistoryCache) (c : HistoryCache) (f again : Fingerprint)
      (loaded cutoff now : ℕ)
      → IsTrue c
      → IsTrue (during c)
      → IsTrue (refresh_once object compress is_positive during c f again loaded cutoff now)
  unfolding refresh_once render
  refresh_once-IsTrue during c f again loaded cutoff now h hd =
      let checked : HistoryCache → HistoryCache =
        λ c. record c { last_fingerprint = some f; validated_at = now } in
      let fresh : HistoryCache = checked (record (during c) {
        prepared_responses =
            prepared_for object compress is_positive loaded cutoff br
            ∷ prepared_for object compress is_positive loaded cutoff gzip
            ∷ [];
        snapshot = some loaded;
      }) in
      let fresh_true : IsTrue fresh = ((refl, (refl, tt)), omega arith) in
      let changed = not (fingerprint_beq again f) in
      if-cases IsTrue (has_snapshot c.snapshot && is_unchanged c.last_fingerprint f) {x = checked c}
        {y = if changed then during c else fresh} (λ _. h)
        (λ _. if-cases IsTrue changed {x = during c} {y = fresh} (λ _. hd) (λ _. fresh_true))

  -- what the tasks do, one after the other: a request finds a response, a request that has rendered
  -- one keeps it, and a refresh ends
  pub data Step : HistoryCache → HistoryCache → Type 0 where
    found :
        (c : HistoryCache) (k : Key)
        → Step c (record c { prepared_responses = move_to_end c.prepared_responses k })
    rendered :
        (c : HistoryCache) (address cutoff : ℕ) (airport_code : Option Text)
        (parking_lot_id : Option ℕ) (accept : Text)
        → Step c (
            store_prepared object compress is_positive c address
              (key_of object compress is_positive address cutoff airport_code parking_lot_id accept)
              (encoded_response object compress is_positive address cutoff airport_code
                parking_lot_id accept))
    refreshed :
        (c : HistoryCache) (f again : Fingerprint) (loaded cutoff now : ℕ)
        → Step c (refresh_once object compress is_positive (λ c. c) c f again loaded cutoff now)

  pub data Reach : HistoryCache → Type 0 where
    start :
        (now : ℕ)
        → Reach (record {
          snapshot = none;
          validated_at = now;
          last_fingerprint = none;
          prepared_responses = [];
        })
    next : {c d : HistoryCache} → Reach c → Step c d → Reach d

  moved-PreparedFor :
      (s : Option ℕ) (d : Dict Key Text) (k : Key)
      → PreparedFor s d
      → PreparedFor s (move_to_end d k)
  unfolding move_to_end get
  moved-PreparedFor none d k h = rw h refl
  moved-PreparedFor (some address) d k h = moved-Prepared address d k h

  Step-IsTrue : {c d : HistoryCache} → Step c d → IsTrue c → IsTrue d
  Step-IsTrue (found c k) h = (
    moved-PreparedFor c.snapshot c.prepared_responses k h.0,
    omega (arith, length-moved c.prepared_responses k, h.1),
  )
  Step-IsTrue (rendered c address cutoff airport_code parking_lot_id accept) h =
      let k =
        key_of object compress is_positive address cutoff airport_code parking_lot_id accept in
      subst (λ v. IsTrue (store_prepared object compress is_positive c address k v))
        (sym (key_of-direct address cutoff airport_code parking_lot_id accept))
        (store_prepared-IsTrue c address k h)
  Step-IsTrue (refreshed c f again loaded cutoff now) h =
      refresh_once-IsTrue (λ c. c) c f again loaded cutoff now h h

  Reach-IsTrue : {c : HistoryCache} → Reach c → IsTrue c
  Reach-IsTrue (start now) = (refl, omega arith)
  Reach-IsTrue (next r s) = Step-IsTrue s (Reach-IsTrue r)

  -- Whatever requests and refreshes have come before, in any order, and whatever happens while a
  -- response is rendered: the body that a request gets is the one that is rendered and encoded from
  -- its snapshot, and the cache never holds more than eight prepared responses.
  pub response_body-direct :
      (between : HistoryCache → HistoryCache) (c : HistoryCache) (address cutoff : ℕ)
      (airport_code : Option Text) (parking_lot_id : Option ℕ) (accept : Text)
      → Reach c
      → ((response_body object compress is_positive between c address cutoff airport_code
            parking_lot_id accept).0
          ≡ encoded_response object compress is_positive address cutoff airport_code parking_lot_id
              accept)
        × (length c.prepared_responses ≤ 8)
  unfolding response_body
  response_body-direct between c address cutoff airport_code parking_lot_id accept r =
      let k =
        key_of object compress is_positive address cutoff airport_code parking_lot_id accept in
      let valid = Reach-IsTrue r in
      (
        elim (Option-cases (lookup_prepared object compress is_positive c address k)) [
          | inl missing ↦ rw missing refl
          | inr (v, hit) ↦ rw hit (
              (lookup_prepared-direct c address k v valid hit).0
              ∙ sym (key_of-direct address cutoff airport_code parking_lot_id accept))
        ],
        valid.1,
      )
