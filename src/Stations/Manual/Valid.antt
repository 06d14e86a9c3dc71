-- ===== src/Stations/Manual/Valid.antt =====
-- What the links of an administrator have in common once they were accepted.
use kor_travel_transport.Prelude.{
  ◌+◌, ◌≤◌, ◌≡◌, sym, ap, ◌∙◌, subst, true, false, Option, none, some, List, [], ◌∷◌, any, count,
  All, arith, ◌||◌, if◌then◌else◌, Bool-cases, inl, inr,
}
use kor_travel_transport.Prelude.Chars.{Text, text_beq, text_beq_sym, text_beq_iff}
use kor_travel_transport.Prelude.Sort.{sorted, count-sorted, sorted-All}
use kor_travel_transport.Stations.{CodeKey, code_beq, code_beq_iff}
use kor_travel_transport.Stations.Manual.{
  MappingItem, Mappings, not_array, array, ManualMapping, Validated, ok, type_error, value_error,
  mapping_of, is_refused, with_item, validate_items, earlier, in_order, validate_manual_mappings,
}

-- no code and no target stands twice, and every code is one of the catalog
pub record IsValid (catalog : List CodeKey) (ms : List ManualMapping) : Type 0 where
  pub codes_once : (k : CodeKey) → count (λ m. code_beq m.code k) ms ≤ 1
  pub targets_once : (t : Text) → count (λ m. text_beq m.target t) ms ≤ 1
  pub in_catalog : All (λ m. any (code_beq m.code) catalog ≡ true) ms

-- how a run of the loop that accepts the items ends
abbrev Accepted : List CodeKey → List CodeKey → List Text → Validated → Type 0
Accepted catalog keys targets (ok ms) =
    ((k : CodeKey)
      → count (λ m. code_beq m.code k) ms + (if any (code_beq k) keys then 1 else 0) ≤ 1)
    × (((t : Text)
          → count (λ m. text_beq m.target t) ms + (if any (text_beq t) targets then 1 else 0) ≤ 1)
        × All (λ m. any (code_beq m.code) catalog ≡ true) ms)
Accepted catalog keys targets type_error = Unit
Accepted catalog keys targets value_error = Unit

pub code_beq_sym : (a b : CodeKey) → code_beq a b ≡ code_beq b a
code_beq_sym a b = ground (
  arith,
  text_beq_sym a.operator_code b.operator_code,
  text_beq_sym a.line_code b.line_code,
  text_beq_sym a.station_code b.station_code,
)

code-free :
    (m : ManualMapping) (keys : List CodeKey) (k : CodeKey)
    → any (code_beq m.code) keys ≡ false
    → code_beq m.code k ≡ true
    → any (code_beq k) keys ≡ false
code-free m keys k fresh same =
    ap (λ j. any (code_beq j) keys) (sym ((code_beq_iff m.code k).0 same)) ∙ fresh

target-free :
    (m : ManualMapping) (targets : List Text) (t : Text)
    → any (text_beq m.target) targets ≡ false
    → text_beq m.target t ≡ true
    → any (text_beq t) targets ≡ false
target-free m targets t fresh same =
    ap (λ j. any (text_beq j) targets) (sym ((text_beq_iff m.target t).0 same)) ∙ fresh

with_item-Accepted :
    (catalog keys : List CodeKey) (targets : List Text) (m : ManualMapping) (r : Validated)
    → (is_refused catalog m || (any (code_beq m.code) keys || any (text_beq m.target) targets))
      ≡ false
    → Accepted catalog (m.code ∷ keys) (m.target ∷ targets) r
    → Accepted catalog keys targets (with_item m r)
with_item-Accepted catalog keys targets m (ok ms) fine h =
    let new_code : any (code_beq m.code) keys ≡ false = ground (arith, fine) in
    let new_target : any (text_beq m.target) targets ≡ false = ground (arith, fine) in
    (
      λ k.
          let there = h.0 k in
          elim (Bool-cases (code_beq m.code k)) [
            | inl same ↦
                ground (arith, there, same, code_beq_sym k m.code, code-free m keys k new_code same)
            | inr other ↦ ground (arith, there, other, code_beq_sym k m.code)
          ],
      (
        λ t.
            let there = h.1.0 t in
            elim (Bool-cases (text_beq m.target t)) [
              | inl same ↦ ground (
                arith,
                there,
                same,
                text_beq_sym t m.target,
                target-free m targets t new_target same,
              )
              | inr other ↦ ground (arith, there, other, text_beq_sym t m.target)
            ],
        (ground (arith, fine), h.1.1),
      ),
    )
with_item-Accepted catalog keys targets m type_error fine h = tt
with_item-Accepted catalog keys targets m value_error fine h = tt

validate_items-Accepted :
    (catalog keys : List CodeKey) (targets : List Text) (items : List (Option MappingItem))
    → Accepted catalog keys targets (validate_items catalog keys targets items)
unfolding validate_items
validate_items-Accepted catalog keys targets [] = (λ k. ground arith, (λ t. ground arith, tt))
validate_items-Accepted catalog keys targets (none ∷ items) = tt
validate_items-Accepted catalog keys targets (some item ∷ items) =
    let m = mapping_of item in
    elim (Bool-cases
      (is_refused catalog m || (any (code_beq m.code) keys || any (text_beq m.target) targets))) [
        | inl refused ↦ rw refused tt
        | inr fine ↦ rw fine (
            with_item-Accepted catalog keys targets m
              (validate_items catalog (m.code ∷ keys) (m.target ∷ targets) items) fine
              (validate_items-Accepted catalog (m.code ∷ keys) (m.target ∷ targets) items))
      ]

in_order-IsValid :
    (catalog : List CodeKey) (r : Validated) (ms : List ManualMapping)
    → Accepted catalog [] [] r
    → in_order r ≡ ok ms
    → IsValid catalog ms
in_order-IsValid catalog (ok unsorted) ms h e =
    let same : sorted earlier unsorted ≡ ms = ok-inj e in
    subst (IsValid catalog) same (record {
      codes_once =
          λ k. omega (arith, h.0 k, count-sorted earlier (λ m. code_beq m.code k) unsorted);
      targets_once =
          λ t. omega (arith, h.1.0 t, count-sorted earlier (λ m. text_beq m.target t) unsorted);
      in_catalog = sorted-All earlier (λ m. any (code_beq m.code) catalog ≡ true) unsorted h.1.1;
    })
  where
    ok-inj : {a b : List ManualMapping} → ok a ≡ ok b → a ≡ b
    ok-inj h = cc
in_order-IsValid catalog type_error ms h e = cc
in_order-IsValid catalog value_error ms h e = cc

pub validate_manual_mappings-IsValid :
    (raw : Mappings) (catalog : List CodeKey) (ms : List ManualMapping)
    → validate_manual_mappings raw catalog ≡ ok ms
    → IsValid catalog ms
unfolding validate_manual_mappings
validate_manual_mappings-IsValid not_array catalog ms e = cc
validate_manual_mappings-IsValid (array items) catalog ms e =
    in_order-IsValid catalog (validate_items catalog [] [] items) ms
      (validate_items-Accepted catalog [] [] items) e
