-- ===== src/Buckets/Exact.antt =====
-- The buckets hold each snapshot once, under its own key.
use kor_travel_transport.Prelude.{
  ℕ, suc, ◌≡◌, refl, ap, ◌∙◌, Bool, true, false, List, [], ◌∷◌, arith, map, count, ltb, ◌==◌,
  if◌then◌else◌, All, All-imp, ℤ,
}
use kor_travel_transport.Prelude.Dict.{Dict, nat_eq}
use kor_travel_transport.Prelude.Sort.{sorted, IsSorted, sorted-IsSorted, sorted-All, count-sorted}
use kor_travel_transport.Analytics.{Snapshot}
use kor_travel_transport.Series.{grouped}
use kor_travel_transport.Series.Lots.{values_of, grouped-whole, grouped-once}
use kor_travel_transport.Buckets.{Bucket, stats_of, bucket_of, key_before, build_buckets}

abbrev bucket_before : Bucket → Bucket → Bool
bucket_before a b = ltb a.key b.key

module _ (key : Snapshot → ℕ) where
  abbrev pub readings : ℕ → List Snapshot → List ℤ
  readings k rows = values_of key (λ (s : Snapshot). s.available_spaces) k rows

  -- one bucket for each key, of all readings of the key, by the keys
  pub record IsBucketing (rows : List Snapshot) (buckets : List Bucket) : Type 0 where
    pub exact : All (λ b. b.stats ≡ stats_of (readings b.key rows)) buckets
    pub once : All (λ r. count (λ (b : Bucket). b.key == key r) buckets ≡ 1) rows
    pub ordered : IsSorted bucket_before buckets

  abbrev groups : List Snapshot → Dict ℕ (List ℤ)
  groups rows = grouped key (λ (s : Snapshot). s.available_spaces) [] rows

  abbrev Entry : Type 0
  Entry = ℕ × List ℤ

  abbrev Exact : List Snapshot → Entry → Type 0
  Exact rows p = stats_of p.1 ≡ stats_of (readings p.0 rows)

  groups-Exact : (rows : List Snapshot) → All (Exact rows) (groups rows)
  groups-Exact rows =
      All-imp (λ (p : Entry). p.1 ≡ readings p.0 rows) (Exact rows) (λ p whole. ap stats_of whole)
        (groups rows) (grouped-whole key (λ (s : Snapshot). s.available_spaces) rows)

  count-buckets :
      (k : ℕ) (entries : List Entry)
      → count (λ (b : Bucket). b.key == k) (map bucket_of entries)
        ≡ count (λ (p : Entry). p.0 == k) entries
  count-buckets k [] = refl
  count-buckets k (p ∷ ps) = ap (λ n. if p.0 == k then suc n else n) (count-buckets k ps)

  ordered-buckets :
      (entries : List Entry)
      → IsSorted key_before entries
      → IsSorted bucket_before (map bucket_of entries)
  ordered-buckets [] h = tt
  ordered-buckets (p ∷ []) h = tt
  ordered-buckets (p ∷ q ∷ ps) h = (h.0, ordered-buckets (q ∷ ps) h.1)

  Exact-buckets :
      (rows : List Snapshot) (entries : List Entry)
      → All (Exact rows) entries
      → All (λ (b : Bucket). b.stats ≡ stats_of (readings b.key rows)) (map bucket_of entries)
  Exact-buckets rows [] h = tt
  Exact-buckets rows (p ∷ ps) h = (h.0, Exact-buckets rows ps h.1)

  entry_asym : (p q : Entry) → key_before p q ≡ true → key_before q p ≡ false
  entry_asym p q h = ground arith

  -- For any key of the snapshots, as the local hour and the local weekday: there is one bucket for each
  -- key that a snapshot has, with the sum, the least, the greatest and the number of all readings with
  -- that key and of no others, and the buckets are in the order of the keys.
  pub build_buckets-IsBucketing : (rows : List Snapshot) → IsBucketing rows (build_buckets key rows)
  unfolding build_buckets
  build_buckets-IsBucketing rows =
      let entries = sorted key_before (groups rows) in
      record {
        exact =
            Exact-buckets rows entries
              (sorted-All key_before (Exact rows) (groups rows) (groups-Exact rows));
        once =
            All-imp (λ (r : Snapshot). count (λ (p : Entry). p.0 == key r) (groups rows) ≡ 1)
              (λ (r : Snapshot). count (λ (b : Bucket). b.key == key r) (map bucket_of entries) ≡ 1)
              (λ r one.
                count-buckets (key r) entries
                ∙ count-sorted key_before (λ (p : Entry). p.0 == key r) (groups rows)
                ∙ one)
              rows (grouped-once key (λ (s : Snapshot). s.available_spaces) rows);
        ordered = ordered-buckets entries (sorted-IsSorted key_before entry_asym (groups rows));
      }
