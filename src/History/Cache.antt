-- ===== src/History/Cache.antt =====
-- `ParkingHistoryReadCache`: the snapshot, when it was checked, and the prepared responses.
pub mod Truth
use kor_travel_transport.Prelude.{
  ℕ, suc, ◌+◌, ◌*◌, Bool, true, false, not, Option, none, some, List, [], ◌∷◌, ◌++◌, keep, length,
  ltb, ◌==◌, ◌&&◌, ◌||◌, if◌then◌else◌,
}
use kor_travel_transport.Prelude.Chars.{Text}
use kor_travel_transport.Prelude.Dict.{Dict, get, put}
use kor_travel_transport.History.{
  ParkingHistorySnapshot, Key, key_beq, key_eq, bisect_left, render, render_from,
}
use kor_travel_transport.History.Encoding.{
  Coding, br, gzip, identity, coding_beq, response_encoding,
}

abbrev pub max_unchecked_seconds : ℕ
max_unchecked_seconds = 30

abbrev pub max_prepared_responses : ℕ
max_prepared_responses = 8

-- the greatest id and the counters of the table
pub record Fingerprint : Type 0 where
  pub current_max_id : ℕ
  pub inserted : ℕ
  pub updated : ℕ
  pub deleted : ℕ

abbrev pub fingerprint_beq : Fingerprint → Fingerprint → Bool
fingerprint_beq a b =
    a.current_max_id == b.current_max_id
    && (a.inserted == b.inserted && (a.updated == b.updated && a.deleted == b.deleted))

pub record HistoryCache : Type 0 where
  pub snapshot : Option ℕ
  pub validated_at : ℕ
  pub last_fingerprint : Option Fingerprint
  pub prepared_responses : Dict Key Text

abbrev pub is_same : Option ℕ → ℕ → Bool
is_same none address = false
is_same (some current) address = current == address

-- `OrderedDict.move_to_end`
abbrev pub moved : Dict Key Text → Key → Option Text → Dict Key Text
moved d k none = d
moved d k (some v) = keep (λ e. not (key_beq e.0 k)) d ++ (k, v) ∷ []

pub move_to_end : Dict Key Text → Key → Dict Key Text
move_to_end d k = moved d k (get d k)

-- `while len(d) > MAX_PREPARED_RESPONSES: d.popitem(last=False)`
pub evict : Dict Key Text → Dict Key Text
evict [] = []
evict (e ∷ d) =
    let rest = evict d in if ltb max_prepared_responses (suc (length d)) then rest else e ∷ d

abbrev pub compress_body : (Coding → Text → Text) → Coding → Text → Text
compress_body compress identity body = body
compress_body compress coding body = compress coding body

abbrev pub is_unchanged : Option Fingerprint → Fingerprint → Bool
is_unchanged none fingerprint = false
is_unchanged (some last) fingerprint = fingerprint_beq last fingerprint

abbrev pub has_snapshot : Option ℕ → Bool
has_snapshot none = false
has_snapshot (some address) = true

module _ (object : ℕ → ParkingHistorySnapshot) (compress : Coding → Text → Text)
    (is_positive : Text → Bool) where
  pub lookup_prepared : HistoryCache → ℕ → Key → Option Text
  lookup_prepared cache address key =
      if coding_beq key.coding identity || not (is_same cache.snapshot address)
      then none
      else get cache.prepared_responses key

  -- after the response was prepared, in what the cache is by then
  pub store_prepared : HistoryCache → ℕ → Key → Text → HistoryCache
  unfolding move_to_end evict
  store_prepared cache address key prepared =
      if coding_beq key.coding identity || not (is_same cache.snapshot address)
      then cache
      else record cache {
        prepared_responses = evict (move_to_end (put cache.prepared_responses key prepared) key);
      }

  pub key_of : ℕ → ℕ → Option Text → Option ℕ → Text → Key
  key_of address cutoff airport_code parking_lot_id accept_encoding = record {
    start = bisect_left (object address).items cutoff;
    airport_code = airport_code;
    parking_lot_id = parking_lot_id;
    coding = response_encoding is_positive accept_encoding;
  }

  -- what `encode_response` makes of the body
  abbrev pub encoded_response : ℕ → ℕ → Option Text → Option ℕ → Text → Text
  encoded_response address cutoff airport_code parking_lot_id accept_encoding =
      compress_body compress (response_encoding is_positive accept_encoding)
        (render (object address) cutoff airport_code parking_lot_id)

  abbrev pub answered :
      (HistoryCache → HistoryCache)
      → HistoryCache
      → ℕ
      → Key
      → Text
      → Option Text
      → Text × HistoryCache
  answered between cache address key fresh (some prepared) =
      (prepared, record cache { prepared_responses = move_to_end cache.prepared_responses key })
  answered between cache address key fresh none =
      (fresh, store_prepared (between cache) address key fresh)

  -- the body that is sent, with the cache after it
  pub response_body :
      (HistoryCache → HistoryCache)
      → HistoryCache
      → ℕ
      → ℕ
      → Option Text
      → Option ℕ
      → Text
      → Text × HistoryCache
  unfolding lookup_prepared store_prepared key_of move_to_end
  response_body between cache address cutoff airport_code parking_lot_id accept_encoding =
      let key = key_of address cutoff airport_code parking_lot_id accept_encoding in
      answered between cache address key
        (encoded_response address cutoff airport_code parking_lot_id accept_encoding)
        (lookup_prepared cache address key)

  -- the two responses that a refresh prepares, for the whole history
  abbrev pub prepared_for : ℕ → ℕ → Coding → Key × Text
  prepared_for address cutoff coding = (
    record {
      start = bisect_left (object address).items cutoff;
      airport_code = none;
      parking_lot_id = none;
      coding = coding;
    },
    compress_body compress coding (render (object address) cutoff none none),
  )

  -- `refresh_once`: the fingerprint before and after, the address of what was loaded between, the
  -- cutoff of thirty days and the clock at the end. `during` is what others make of the cache.
  pub refresh_once :
      (HistoryCache → HistoryCache)
      → HistoryCache
      → Fingerprint
      → Fingerprint
      → ℕ
      → ℕ
      → ℕ
      → HistoryCache
  refresh_once during cache fingerprint again loaded cutoff now =
      let checked = λ (c : HistoryCache). record c {
        last_fingerprint = some fingerprint;
        validated_at = now;
      } in
      if has_snapshot cache.snapshot && is_unchanged cache.last_fingerprint fingerprint
      then checked cache
      else if not (fingerprint_beq again fingerprint)
      then during cache
      else checked (record (during cache) {
        prepared_responses = prepared_for loaded cutoff br ∷ prepared_for loaded cutoff gzip ∷ [];
        snapshot = some loaded;
      })

  abbrev pub usable_from : HistoryCache → ℕ → ℕ → Option ℕ → Option ℕ
  usable_from cache now cutoff none = none
  usable_from cache now cutoff (some address) =
      if ltb cutoff (object address).earliest_observed_at
        || ltb (cache.validated_at + max_unchecked_seconds) now
      then none
      else some address

  pub usable_snapshot : HistoryCache → ℕ → ℕ → Option ℕ
  usable_snapshot cache now cutoff = usable_from cache now cutoff cache.snapshot
