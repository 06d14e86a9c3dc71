-- ===== src/Stations/Apply.antt =====
-- `apply_automatic_station_mappings` with the tests of `build_automatic_mapping_plan`. The revision of
-- the links is an argument, since it is a digest; so are the tests of the stored JSON that the model
-- has no JSON for: the types of its fields, the catalog against the active codes, and the methods.
pub mod Linked
use kor_travel_transport.Prelude.{
  ℕ, Bool, true, false, not, Option, none, some, List, [], ◌∷◌, ◌++◌, map, keep, any, all, length,
  leb, ◌==◌, ◌&&◌, ◌||◌, if◌then◌else◌,
}
use kor_travel_transport.Prelude.Chars.{Text, text_beq}
use kor_travel_transport.Prelude.Sort.{sorted}
use kor_travel_transport.Stations.{
  KricStation, RailStation, CodeKey, code_beq, code_before, provider_key,
}
use kor_travel_transport.Stations.Manual.{is_empty}
use kor_travel_transport.Stations.Effective.{Links, StoredLink, effective_station_mappings}
use kor_travel_transport.Stations.Automatic.{AutomaticMapping, automatic_station_mappings}
use kor_travel_transport.Stations.Plan.{Updates, Blocker, link_updates, blockers, relink}

-- `len(set(xs)) == len(xs)`
abbrev pub unique {ℓ} : {A : Type ℓ} → (A → A → Bool) → List A → List A
unique beq [] = []
unique beq (x ∷ xs) = let rest = unique beq xs in if any (beq x) xs then rest else x ∷ rest

abbrev pub is_distinct {ℓ} : {A : Type ℓ} → (A → A → Bool) → List A → Bool
is_distinct beq xs = length (unique beq xs) == length xs

-- `_stored_mapping_records`, for items whose fields are texts
abbrev pub stored_item_fails : List CodeKey → List Text → StoredLink → Bool
stored_item_fails keys targets item =
    is_empty item.code.operator_code
    || (is_empty item.code.line_code
        || (is_empty item.code.station_code
            || (is_empty item.target
                || (any (code_beq item.code) keys || any (text_beq item.target) targets))))

unfoldable pub records_valid : List CodeKey → List Text → List StoredLink → Bool
records_valid keys targets [] = true
records_valid keys targets (item ∷ items) =
    let rest = records_valid (item.code ∷ keys) (item.target ∷ targets) items in
    not (stored_item_fails keys targets item) && rest

abbrev pub stored_mapping_records : List StoredLink → Bool
stored_mapping_records items = leb (length items) 10000 && records_valid [] [] items

pub record Registry : Type 0 where
  pub automatic_mappings : List StoredLink
  pub manual_mappings : List StoredLink
  pub documents_valid : Bool

abbrev pub active_rows : List KricStation → List KricStation
active_rows codes = keep (λ r. r.active) codes

abbrev pub is_some_row {ℓ} : {A : Type ℓ} → List A → Bool
is_some_row [] = false
is_some_row (x ∷ xs) = true

abbrev pub rows_valid : List KricStation → List RailStation → Bool
rows_valid codes places =
    is_some_row (active_rows codes)
    && (is_some_row places && (leb (length codes) 10000 && leb (length places) 10000))

abbrev pub places_valid : List RailStation → Bool
places_valid places =
    is_distinct text_beq (map (λ p. p.identity_key) places)
    && (is_distinct (λ a b. a == b) (map (λ p. p.id) places)
        && not (any (λ p. is_empty p.identity_key) places))

abbrev pub is_known : List RailStation → StoredLink → Bool
is_known places item = any (λ p. text_beq p.identity_key item.target) places

-- the tests before a plan is made, each of which is an AutomaticMappingInputError
unfoldable pub is_ready : Registry → List KricStation → List RailStation → Bool
unfolding records_valid
is_ready registry codes places =
    rows_valid codes places
    && (registry.documents_valid
        && (is_distinct code_beq (map provider_key (active_rows codes))
            && (places_valid places
                && (stored_mapping_records registry.automatic_mappings
                    && (stored_mapping_records registry.manual_mappings
                        && all (is_known places)
                            (registry.automatic_mappings ++ registry.manual_mappings))))))

abbrev pub stored_automatic : AutomaticMapping → StoredLink
stored_automatic m = record { code = m.code; target = m.target }

abbrev pub code_first : StoredLink → StoredLink → Bool
code_first a b = code_before a.code b.code

pub record Request : Type 0 where
  pub expected_revision : Text
  pub candidate_revision : Text

pub data Response : Type 0 where
  input_error stale blocked unchanged conflict : Response
  applied : ℕ → List KricStation → Registry → Response

abbrev pub committed : ℕ → Registry → Option (List KricStation) → Response
committed n registry none = conflict
committed n registry (some rows) = applied n rows registry

abbrev pub has_blocker : List Blocker → Bool
has_blocker [] = false
has_blocker (b ∷ bs) = true

module _ (nfkc : Text → Text) (enumerate : List CodeKey → List CodeKey)
    (order : CodeKey → CodeKey → Bool) (revision : Registry → Text) where
  abbrev pub new_automatic : List KricStation → List RailStation → List StoredLink
  new_automatic codes places =
      sorted code_first
        (map stored_automatic (automatic_station_mappings nfkc (active_rows codes) places))

  abbrev pub links_of : Registry → List KricStation → List RailStation → Links
  links_of registry codes places =
      effective_station_mappings enumerate (active_rows codes) places registry.automatic_mappings
        registry.manual_mappings

  abbrev pub candidate : Registry → List KricStation → List RailStation → Registry
  candidate registry codes places = record registry {
    automatic_mappings = new_automatic codes places;
  }

  abbrev pub plan_updates : Registry → List KricStation → List RailStation → Updates
  plan_updates registry codes places =
      link_updates places (links_of (candidate registry codes places) codes places)
        (active_rows codes)

  abbrev pub plan_blockers : Registry → List KricStation → List RailStation → List Blocker
  plan_blockers registry codes places =
      blockers places (links_of registry codes places)
        (links_of (candidate registry codes places) codes places) codes

  unfoldable pub apply_automatic_station_mappings :
      Request → Registry → List KricStation → List RailStation → Response
  apply_automatic_station_mappings request registry codes places =
      let next = candidate registry codes places in
      let updates = plan_updates registry codes places in
      if not (is_ready registry codes places)
      then input_error
      else if not (text_beq request.expected_revision (revision registry))
          || not (text_beq request.candidate_revision (revision next))
      then stale
      else if has_blocker (plan_blockers registry codes places)
      then blocked
      else if text_beq (revision registry) (revision next)
      then unchanged
      else committed (length updates) next (relink order updates codes)
