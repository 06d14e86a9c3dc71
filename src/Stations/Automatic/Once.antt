-- ===== src/Stations/Automatic/Once.antt =====
-- No place gets two automatic links.
use kor_travel_transport.Prelude.{
  ◌+◌, ◌≤◌, ◌<◌, ◌≡◌, refl, sym, ap, ◌∙◌, subst, Bool, true, false, Option, none, some, List, [],
  ◌∷◌, keep, any, count, All, arith, ◌==◌, ◌&&◌, if◌then◌else◌, if-true, if-false, Bool-cases, inl,
  inr,
}
use kor_travel_transport.Prelude.Chars.{Text, strip, text_beq, text_beq_iff}
use kor_travel_transport.Prelude.Dict.{get, values}
use kor_travel_transport.Stations.{
  KricStation, RailStation, CodeKey, code_eq, provider_key, normalized_station_name,
}
use kor_travel_transport.Stations.Automatic.{
  AutomaticMapping, sole, exact_of, exact, exact_targets, free_place, numbered, is_passed_over,
  number_of, by_number, target_count, result_from, with_result, results_of,
  automatic_station_mappings, place_has,
}
use kor_travel_transport.Stations.Automatic.Found.{
  opt_is, or_else, CodesOnce, collect_by-get, collect_by-count,
}
use kor_travel_transport.Stations.Automatic.Exact.{
  count_witness, absent-count, zero_add, is_t, exactly, by_name, exactly-once,
}

module _ (nfkc : Text → Text) (codes : List KricStation) (places : List RailStation)
    (t : Text) where
  free_place-free :
      (o : Option RailStation)
      → opt_is (is_t nfkc codes places t) (free_place nfkc codes places o) ≡ true
      → any (text_beq t) (exact_targets nfkc codes places) ≡ false
  free_place-free none h = cc
  free_place-free (some p) h =
      elim (Bool-cases (any (text_beq p.identity_key) (exact_targets nfkc codes places))) [
        | inl taken ↦ cc (ap (opt_is (is_t nfkc codes places t)) (sym (if-true _ _ taken)) ∙ h)
        | inr free ↦
            let mine : (is_t nfkc codes places t) p ≡ true =
              ap (opt_is (is_t nfkc codes places t)) (sym (if-false _ _ free)) ∙ h in
            ap (λ n. any (text_beq n) (exact_targets nfkc codes places))
              (sym ((text_beq_iff p.identity_key t).0 mine))
            ∙ free
      ]

  numbered-free :
      (r : KricStation) (number name : Text)
      → opt_is (is_t nfkc codes places t) (numbered nfkc codes places r number name) ≡ true
      → any (text_beq t) (exact_targets nfkc codes places) ≡ false
  numbered-free r number name h =
      elim (Bool-cases (is_passed_over nfkc codes places r number name)) [
        | inl passed ↦ cc (ap (opt_is (is_t nfkc codes places t)) (sym (if-true _ _ passed)) ∙ h)
        | inr looked ↦
            free_place-free (sole (keep (place_has nfkc codes places number name) places))
              (ap (opt_is (is_t nfkc codes places t)) (sym (if-false _ _ looked)) ∙ h)
      ]

  -- a place that is found by its number has no exact link
  by_name-free :
      (r : KricStation)
      → (by_name nfkc codes places t) r ≡ true
      → any (text_beq t) (exact_targets nfkc codes places) ≡ false
  unfolding number_of
  by_name-free r h =
      numbered-free r (strip r.station_code) (normalized_station_name nfkc r.station_name) h

  abbrev to_t : AutomaticMapping → Bool
  to_t m = text_beq m.target t

  result_from-count :
      (k : CodeKey) (e n : Option RailStation) (rest : List AutomaticMapping)
      → count to_t (with_result nfkc codes places (result_from nfkc codes places k e n) rest)
        ≤ count to_t rest
          + ((if opt_is (is_t nfkc codes places t) e then 1 else 0)
              + (if target_count nfkc codes places t == 1 && opt_is (is_t nfkc codes places t) n
                  then 1
                  else 0))
  result_from-count k (some p) n rest = ground arith
  result_from-count k none none rest = ground arith
  result_from-count k none (some p) rest =
      elim (Bool-cases (target_count nfkc codes places p.identity_key == 1)) [
        | inl unique ↦ elim (Bool-cases ((is_t nfkc codes places t) p)) [
          | inl mine ↦
              let same =
                ap (λ n. target_count nfkc codes places n == 1)
                  ((text_beq_iff p.identity_key t).0 mine) in
              rw unique (ground (arith, mine, sym same ∙ unique))
          | inr other ↦ rw unique (ground (arith, other))
        ]
        | inr several ↦ rw several (omega arith)
      ]

  -- the links of some rows, by the two dicts
  results_of-count :
      (rows : List KricStation)
      → All
          (λ r. get (exact nfkc codes places) (provider_key r) ≡ exact_of nfkc codes places r)
          rows
      → All
          (λ r. get (by_number nfkc codes places) (provider_key r) ≡ number_of nfkc codes places r)
          rows
      → count to_t (results_of nfkc codes places rows)
        ≤ count (exactly nfkc codes places t) rows
          + (if target_count nfkc codes places t == 1
              then count (by_name nfkc codes places t) rows
              else 0)
  results_of-count [] he hn = ground arith
  results_of-count (r ∷ rows) he hn =
      let k = provider_key r in
      let rest = results_of nfkc codes places rows in
      let mine =
        subst
          (λ e.
            count to_t (
              with_result nfkc codes places
                (result_from nfkc codes places k e (get (by_number nfkc codes places) k)) rest)
            ≤ count to_t rest
              + ((if (exactly nfkc codes places t) r then 1 else 0)
                  + (if target_count nfkc codes places t == 1 && (by_name nfkc codes places t) r
                      then 1
                      else 0)))
          (sym he.0)
          (subst
            (λ n.
              count to_t (
                with_result nfkc codes places
                  (result_from nfkc codes places k (exact_of nfkc codes places r) n) rest)
              ≤ count to_t rest
                + ((if (exactly nfkc codes places t) r then 1 else 0)
                    + (if target_count nfkc codes places t == 1 && (by_name nfkc codes places t) r
                        then 1
                        else 0)))
            (sym hn.0)
            (result_from-count k (exact_of nfkc codes places r) (number_of nfkc codes places r)
              rest)) in
      ground (arith, mine, results_of-count rows he.1 hn.1)

  all-none :
      (rows : List KricStation)
      → All (λ r. get {K = CodeKey} {V = RailStation} [] (provider_key r) ≡ none) rows
  unfolding get
  all-none [] = tt
  all-none (r ∷ rows) = (refl, all-none rows)

  or_else-none : (o : Option RailStation) → or_else o none ≡ o
  or_else-none none = refl
  or_else-none (some p) = refl

  found_alone :
      (find : KricStation → Option RailStation) (d : KricStation → Option RailStation)
      (rows : List KricStation)
      → All
          (λ r. d r ≡ or_else (find r) (get {K = CodeKey} {V = RailStation} [] (provider_key r)))
          rows
      → All (λ r. d r ≡ find r) rows
  unfolding get
  found_alone find d [] h = tt
  found_alone find d (r ∷ rows) h = (h.0 ∙ or_else-none (find r), found_alone find d rows h.1)

  exact-get :
      CodesOnce codes
      → All
          (λ r. get (exact nfkc codes places) (provider_key r) ≡ exact_of nfkc codes places r)
          codes
  unfolding exact
  exact-get once =
      let find = exact_of nfkc codes places in
      found_alone find (λ r. get (exact nfkc codes places) (provider_key r)) codes
        (collect_by-get find [] codes once)

  by_number-get :
      CodesOnce codes
      → All
          (λ r. get (by_number nfkc codes places) (provider_key r) ≡ number_of nfkc codes places r)
          codes
  unfolding by_number
  by_number-get once =
      let find = number_of nfkc codes places in
      found_alone find (λ r. get (by_number nfkc codes places) (provider_key r)) codes
        (collect_by-get find [] codes once)

  exact-count :
      CodesOnce codes
      → count (is_t nfkc codes places t) (values (exact nfkc codes places))
        ≡ count (exactly nfkc codes places t) codes
  unfolding exact
  exact-count once =
      collect_by-count (exact_of nfkc codes places) (is_t nfkc codes places t) [] codes once
        (all-none codes)
      ∙ zero_add (count (exactly nfkc codes places t) codes)

  target_count-codes :
      CodesOnce codes → target_count nfkc codes places t ≡ count (by_name nfkc codes places t) codes
  unfolding by_number
  target_count-codes once =
      collect_by-count (number_of nfkc codes places) (is_t nfkc codes places t) [] codes once
        (all-none codes)
      ∙ zero_add (count (by_name nfkc codes places t) codes)

  no-exact :
      CodesOnce codes
      → 0 < count (by_name nfkc codes places t) codes
      → count (exactly nfkc codes places t) codes ≡ 0
  no-exact once some_row =
      sym (exact-count once)
      ∙ absent-count t (values (exact nfkc codes places)) (
          count_witness (any (text_beq t) (exact_targets nfkc codes places) ≡ false)
            (by_name nfkc codes places t) codes some_row by_name-free)

  -- If no code stands twice, as the callers check, and no two places have the identity key `t`: at most
  -- one code gets an automatic link to `t`, by its names or by its number.
  pub automatic_station_mappings-once :
      CodesOnce codes
      → count (λ p. text_beq p.identity_key t) places ≤ 1
      → count (λ m. text_beq m.target t) (automatic_station_mappings nfkc codes places) ≤ 1
  unfolding automatic_station_mappings
  automatic_station_mappings-once once single =
      let total = results_of-count codes (exact-get once) (by_number-get once) in
      let same = target_count-codes once in
      elim (Bool-cases (target_count nfkc codes places t == 1)) [
        | inl unique ↦
            let named_once : count (by_name nfkc codes places t) codes ≡ 1 =
              ground (arith, same, unique) in
            ground (arith, total, unique, named_once, no-exact once (omega (arith, named_once)))
        | inr several ↦ ground (arith, total, several, (exactly-once nfkc codes places t) single)
      ]
