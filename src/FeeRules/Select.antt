-- ===== src/FeeRules/Select.antt =====
-- `select_fee_rules`: one rule for each day type, and a rule of the lot goes before a common one.
use kor_travel_transport.Prelude.{
  some-inj, ℕ, ◌≡◌, refl, ap, sym, subst, ◌∙◌, Bool, true, Option, none, some, List, [], ◌∷◌, ◌++◌,
  any, keep, arith, All, All-append, All-imp, String, str_eq, eq_iff, if◌then◌else◌, Bool-cases,
  inl, inr, ◌⊎◌, ◌&&◌,
}
use kor_travel_transport.Prelude.Dict.{
  Dict, get, put, get-put, string_eq, values, NodupKeys, put-NodupKeys,
}
use kor_travel_transport.Fee.{FeeRule, by_day_type}
use kor_travel_transport.FeeRules.{is_lot, is_generic, one_per_day_type, select_fee_rules}

-- the last rule of a day type, or what was there before
abbrev pub last_for : String → Option FeeRule → List FeeRule → Option FeeRule
last_for k seen [] = seen
last_for k seen (r ∷ rs) = last_for k (if str_eq r.day_type k then some r else seen) rs

pub get-by_day_type :
    (k : String) (d : Dict String FeeRule) (rules : List FeeRule)
    → get (by_day_type d rules) k ≡ last_for k (get d k) rules
unfolding by_day_type
get-by_day_type k d [] = refl
get-by_day_type k d (r ∷ rs) =
    get-by_day_type k (put d r.day_type r) rs ∙ ap (λ o. last_for k o rs) (get-put d r.day_type k r)

last_for-head :
    (k : String) (o : Option FeeRule) (v : FeeRule) (rest : List FeeRule)
    → str_eq v.day_type k ≡ true
    → last_for k o (v ∷ rest) ≡ last_for k (some v) rest
last_for-head k o v rest h = rw h

last_for-append :
    (k : String) (o : Option FeeRule) (xs ys : List FeeRule)
    → last_for k o (xs ++ ys) ≡ last_for k (last_for k o xs) ys
last_for-append k o [] ys = refl
last_for-append k o (x ∷ xs) ys =
    last_for-append k (if str_eq x.day_type k then some x else o) xs ys

-- The entries stand under the day types of their rules, each once.
record IsByDayType (d : Dict String FeeRule) : Type 0 where
  keyed : All (λ (p : String × FeeRule). p.1.day_type ≡ p.0) d
  nodup : NodupKeys d

put-keyed :
    (d : Dict String FeeRule) (r : FeeRule)
    → All (λ (p : String × FeeRule). p.1.day_type ≡ p.0) d
    → All (λ (p : String × FeeRule). p.1.day_type ≡ p.0) (put d r.day_type r)
unfolding put
put-keyed [] r h = (refl, tt)
put-keyed ((j, w) ∷ d) r h = elim (Bool-cases (str_eq j r.day_type)) [
  | inl same ↦ rw same (sym ((eq_iff j r.day_type).0 same), h.1)
  | inr other ↦ rw other (h.0, put-keyed d r h.1)
]

by_day_type-IsByDayType :
    (d : Dict String FeeRule) (rules : List FeeRule)
    → IsByDayType d
    → IsByDayType (by_day_type d rules)
unfolding by_day_type
by_day_type-IsByDayType d [] h = h
by_day_type-IsByDayType d (r ∷ rs) h =
    by_day_type-IsByDayType (put d r.day_type r) rs
      (record { keyed = put-keyed d r h.keyed; nodup = put-NodupKeys d r.day_type r h.nodup })

last_for-absent :
    (k : String) (o : Option FeeRule) (d : Dict String FeeRule)
    → All (λ (p : String × FeeRule). p.1.day_type ≡ p.0) d
    → get d k ≡ none
    → last_for k o (values d) ≡ o
unfolding get
last_for-absent k o [] h a = refl
last_for-absent k o ((j, v) ∷ d) h a = elim (Bool-cases (str_eq j k)) [
  | inl same ↦ cc (rw same at a)
  | inr other ↦ rw (h.0, other) (last_for-absent k o d h.1 (rw other at a))
]

last_for-values :
    (k : String) (d : Dict String FeeRule) → IsByDayType d → last_for k none (values d) ≡ get d k
unfolding get
last_for-values k [] h = refl
last_for-values k ((j, v) ∷ d) h = elim (Bool-cases (str_eq j k)) [
  | inl same ↦
      last_for-head k none v (values d) (subst (λ x. str_eq x k ≡ true) (sym h.keyed.0) same)
      ∙ rw same (
          last_for-absent k (some v) d h.keyed.1
            (subst (λ x. get d x ≡ none) ((eq_iff j k).0 same) h.nodup.0))
  | inr other ↦
      rw (h.keyed.0, other) (last_for-values k d (record { keyed = h.keyed.1; nodup = h.nodup.1 }))
]

-- What the price looks up among the selected rules is the last of the candidates of that day type.
get_selected :
    (k : String) (candidates : List FeeRule)
    → get (by_day_type [] (one_per_day_type candidates)) k ≡ last_for k none candidates
unfolding one_per_day_type get
get_selected k candidates =
    get-by_day_type k [] (values (by_day_type [] candidates))
    ∙ last_for-values k (by_day_type [] candidates)
        (by_day_type-IsByDayType [] candidates (record { keyed = tt; nodup = tt }))
    ∙ get-by_day_type k [] candidates

keep-All : (p : FeeRule → Bool) (xs : List FeeRule) → All (λ x. p x ≡ true) (keep p xs)
keep-All p [] = tt
keep-All p (x ∷ xs) = elim (Bool-cases (p x)) [
  | inl good ↦ rw good (good, keep-All p xs)
  | inr bad ↦ rw bad (keep-All p xs)
]

last_for-All :
    (P : FeeRule → Type 0) (k : String) (o : Option FeeRule) (xs : List FeeRule) {r : FeeRule}
    → All P xs
    → last_for k o xs ≡ some r
    → (o ≡ some r) ⊎ P r
last_for-All P k o [] h e = inl e
last_for-All P k o (x ∷ xs) {r} h e = elim (Bool-cases (str_eq x.day_type k)) [
  | inl same ↦ elim (last_for-All P k (some x) xs h.1 (rw same at e)) [
    | inl this ↦ inr (subst P (some-inj this) h.0)
    | inr later ↦ inr later
  ]
  | inr other ↦ last_for-All P k o xs h.1 (rw other at e)
]

-- with a rule of the day type among them the earlier ones do not count
last_for-found :
    (P : FeeRule → Type 0) (k : String) (o : Option FeeRule) (xs : List FeeRule) {r : FeeRule}
    → All P xs
    → any (λ x. str_eq x.day_type k) xs ≡ true
    → last_for k o xs ≡ some r
    → P r
last_for-found P k o [] h a e = cc
last_for-found P k o (x ∷ xs) h a e = elim (Bool-cases (str_eq x.day_type k)) [
  | inl same ↦ elim (last_for-All P k (some x) xs h.1 (rw same at e)) [
    | inl this ↦ subst P (some-inj this) h.0
    | inr later ↦ later
  ]
  | inr other ↦ last_for-found P k o xs h.1 (rw other at a) (rw other at e)
]

any-keep : (p q : FeeRule → Bool) (xs : List FeeRule) → any (λ x. p x && q x) xs ≡ any q (keep p xs)
any-keep p q [] = refl
any-keep p q (x ∷ xs) = ground (arith, any-keep p q xs)

-- Where a lot is asked for and has a stored rule for a day type, the rule selected for that day
-- type is one of the lot's own, not a common one.
pub lot_rule_first :
    (rules : List FeeRule) (lot_id : ℕ) (day_type : String) (r : FeeRule)
    → any (λ x. is_lot lot_id x && str_eq x.day_type day_type) rules ≡ true
    → get (by_day_type [] (select_fee_rules rules (some lot_id)).0) day_type ≡ some r
    → is_lot lot_id r ≡ true
unfolding select_fee_rules
lot_rule_first rules lot_id k r there found =
    let lots = keep (is_lot lot_id) rules in
    last_for-found (λ x. is_lot lot_id x ≡ true) k (last_for k none (keep is_generic rules)) lots
      (keep-All (is_lot lot_id) rules)
      (sym (any-keep (is_lot lot_id) (λ x. str_eq x.day_type k) rules) ∙ there)
      (sym (last_for-append k none (keep is_generic rules) lots)
        ∙ sym (get_selected k (keep is_generic rules ++ lots))
        ∙ found)

-- Every rule that is looked up for a lot is the lot's own or a common one.
pub lot_rule_fits :
    (rules : List FeeRule) (lot_id : ℕ) (day_type : String) (r : FeeRule)
    → get (by_day_type [] (select_fee_rules rules (some lot_id)).0) day_type ≡ some r
    → (is_lot lot_id r ≡ true) ⊎ (is_generic r ≡ true)
unfolding select_fee_rules
lot_rule_fits rules lot_id k r found =
    let P = λ (x : FeeRule). (is_lot lot_id x ≡ true) ⊎ (is_generic x ≡ true) in
    let candidates = keep is_generic rules ++ keep (is_lot lot_id) rules in
    let fits =
      All-append P (keep is_generic rules) (keep (is_lot lot_id) rules)
        (All-imp (λ x. is_generic x ≡ true) P (λ x g. inr g) (keep is_generic rules)
          (keep-All is_generic rules))
        (All-imp (λ x. is_lot lot_id x ≡ true) P (λ x l. inl l) (keep (is_lot lot_id) rules)
          (keep-All (is_lot lot_id) rules)) in
    elim (last_for-All P k none candidates fits (sym (get_selected k candidates) ∙ found)) [
      | inl never ↦ cc
      | inr fit ↦ fit
    ]
