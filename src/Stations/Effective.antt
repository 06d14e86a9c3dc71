-- ===== src/Stations/Effective.antt =====
-- `effective_station_mappings`: manual links first, then the automatic ones to places that are free.
pub mod Once
pub mod Saved
use kor_travel_transport.Prelude.{
  ℕ, Bool, true, false, not, Option, none, some, List, [], ◌∷◌, map, any, count, ◌==◌, ◌&&◌, ◌||◌,
  if◌then◌else◌,
}
use kor_travel_transport.Prelude.Chars.{Text, text_beq}
use kor_travel_transport.Prelude.Dict.{Dict, get, put}
use kor_travel_transport.Stations.{
  KricStation, RailStation, CodeKey, code_beq, code_eq, provider_key,
}
use kor_travel_transport.Stations.Manual.{is_empty}

pub data LinkMethod : Type 0 where
  manual automatic : LinkMethod

pub record Link : Type 0 where
  pub target : Text
  pub method : LinkMethod

-- a stored item as the loops read it
pub record StoredLink : Type 0 where
  pub code : CodeKey
  pub target : Text

abbrev pub Links : Type 0
Links = Dict CodeKey Link

abbrev pub link : Text → LinkMethod → Link
link target method = record { target = target; method = method }

-- a set of codes, as a list without repetitions
abbrev pub unique_codes : List CodeKey → List CodeKey
unique_codes [] = []
unique_codes (k ∷ ks) = let rest = unique_codes ks in if any (code_beq k) ks then rest else k ∷ rest

abbrev pub active_keys : List KricStation → List CodeKey
active_keys codes = unique_codes (map provider_key codes)

abbrev pub is_skipped : List CodeKey → List RailStation → List Text → StoredLink → Bool
is_skipped active places reserved item =
    not (any (code_beq item.code) active)
    || (not (count (λ p. text_beq p.identity_key item.target) places == 1)
        || any (text_beq item.target) reserved)

-- the loop over the manual items; the links stand in the dict at once as manual ones
unfoldable pub manual_loop :
    List CodeKey → List RailStation → Links → List Text → List StoredLink → Links × List Text
manual_loop active places links reserved [] = (links, reserved)
manual_loop active places links reserved (item ∷ items) =
    let skipped = manual_loop active places links reserved items in
    let kept =
      manual_loop active places (put links item.code (link item.target manual))
        (item.target ∷ reserved) items in
    if is_skipped active places reserved item then skipped else kept

abbrev pub by_key : Dict CodeKey Text → List StoredLink → Dict CodeKey Text
by_key d [] = d
by_key d (item ∷ items) = by_key (put d item.code item.target) items

abbrev pub is_none {ℓ} : {A : Type ℓ} → Option A → Bool
is_none none = true
is_none (some a) = false

abbrev pub free_target : List Text → Bool → Option Text → Option Text
free_target reserved linked none = none
free_target reserved linked (some target) =
    if linked || (is_empty target || any (text_beq target) reserved) then none else some target

abbrev pub linked_to : Links × List Text → CodeKey → Option Text → Links × List Text
linked_to state key none = state
linked_to (links, reserved) key (some target) =
    (put links key (link target automatic), target ∷ reserved)

-- the loop over the active codes, in the order in which Python enumerates them
unfoldable pub automatic_loop :
    Dict CodeKey Text → Links × List Text → List CodeKey → Links × List Text
automatic_loop by_code state [] = state
automatic_loop by_code state (key ∷ keys) =
    automatic_loop by_code
      (linked_to state key
        (free_target state.1 (not (is_none (get state.0 key))) (get by_code key)))
      keys

unfoldable pub effective_station_mappings :
    (List CodeKey → List CodeKey)
    → List KricStation
    → List RailStation
    → List StoredLink
    → List StoredLink
    → Links
unfolding manual_loop automatic_loop
effective_station_mappings enumerate codes places automatic_items manual_items =
    let active = active_keys codes in
    (automatic_loop (by_key [] automatic_items) (manual_loop active places [] [] manual_items)
      (enumerate active)).0
