-- ===== src/Stations/Plan.antt =====
-- `build_automatic_mapping_plan` and `apply_automatic_station_mappings`: what changes in the table of
-- codes when the automatic links are made again, and how it is written. The table holds a place only
-- once (uq_kric_station_place); a write that breaks this is an error of the database.
pub mod Writes
pub mod Updates
pub mod Targets
pub mod Final
pub mod Applied
use kor_travel_transport.Prelude.{
  ℕ, Bool, true, false, not, Option, none, some, List, [], ◌∷◌, ◌++◌, map, keep, any, all, count,
  length, ltb, ◌==◌, ◌&&◌, ◌||◌, if◌then◌else◌,
}
use kor_travel_transport.Prelude.Chars.{Text, text_beq, text_eq}
use kor_travel_transport.Prelude.Dict.{Dict, get, put}
use kor_travel_transport.Prelude.Sort.{sorted}
use kor_travel_transport.Stations.{
  KricStation, RailStation, CodeKey, code_beq, code_eq, code_before, provider_key,
}
use kor_travel_transport.Stations.Manual.{is_empty}
use kor_travel_transport.Stations.Effective.{
  Link, Links, LinkMethod, StoredLink, manual, automatic, unique_codes, active_keys,
  effective_station_mappings,
}
use kor_travel_transport.Stations.Automatic.{AutomaticMapping, automatic_station_mappings}

abbrev pub Updates : Type 0
Updates = Dict CodeKey (Option ℕ)

-- what keeps a plan from being applied
pub data Blocker : Type 0 where
  persisted_link_mismatch inactive_target_occupied : CodeKey → Blocker
  manual_link_changed : Blocker

abbrev pub is_station : Option ℕ → ℕ → Bool
is_station none n = false
is_station (some m) n = m == n

abbrev pub same_station : Option ℕ → Option ℕ → Bool
same_station none none = true
same_station (some m) o = is_station o m
same_station none (some n) = false

abbrev pub by_identity : Dict Text RailStation → List RailStation → Dict Text RailStation
by_identity d [] = d
by_identity d (place ∷ places) = by_identity (put d place.identity_key place) places

abbrev pub id_of_place : Option RailStation → Option ℕ
id_of_place none = none
id_of_place (some place) = some place.id

abbrev pub id_of_link : Dict Text RailStation → Option Link → Option ℕ
id_of_link place_by_identity none = none
id_of_link place_by_identity (some l) = id_of_place (get place_by_identity l.target)

-- the place that a code is linked to
unfoldable pub target_id : List RailStation → Links → CodeKey → Option ℕ
target_id places links key = id_of_link (by_identity [] places) (get links key)

abbrev pub key_before : KricStation → KricStation → Bool
key_before a b = code_before (provider_key a) (provider_key b)

abbrev pub with_update : Updates → KricStation → Option ℕ → Updates
with_update d row new =
    if same_station row.rail_station_id new then d else put d (provider_key row) new

unfoldable pub updates_from : List RailStation → Links → Updates → List KricStation → Updates
unfolding target_id provider_key
updates_from places after d [] = d
updates_from places after d (row ∷ rows) =
    updates_from places after (with_update d row (target_id places after (provider_key row))) rows

unfoldable pub link_updates : List RailStation → Links → List KricStation → Updates
unfolding updates_from
link_updates places after code_rows = updates_from places after [] (sorted key_before code_rows)

-- `row.rail_station_id in new_target_ids`
abbrev pub is_target : List RailStation → Links → Option ℕ → Bool
is_target places after none = false
is_target places after (some n) =
    any (λ e. is_station (id_of_place (get (by_identity [] places) e.1.target)) n) after

abbrev pub is_manual : LinkMethod → Bool
is_manual manual = true
is_manual automatic = false

abbrev pub manual_by_key : Links → Dict CodeKey Text
manual_by_key [] = []
manual_by_key ((k, l) ∷ links) =
    let rest = manual_by_key links in if is_manual l.method then (k, l.target) ∷ rest else rest

abbrev pub is_text : Option Text → Text → Bool
is_text none t = false
is_text (some s) t = text_beq s t

-- `==` of two dicts, whatever the order of their entries is
abbrev pub same_dict : Dict CodeKey Text → Dict CodeKey Text → Bool
same_dict a b = length a == length b && all (λ e. is_text (get b e.0) e.1) a

unfoldable pub mismatches : List RailStation → Links → List KricStation → List Blocker
unfolding target_id provider_key
mismatches places before [] = []
mismatches places before (row ∷ rows) =
    let rest = mismatches places before rows in
    if same_station row.rail_station_id (target_id places before (provider_key row))
    then rest
    else persisted_link_mismatch (provider_key row) ∷ rest

abbrev pub is_occupied : List RailStation → Links → KricStation → Bool
is_occupied places after row = not row.active && is_target places after row.rail_station_id

unfoldable pub occupied : List RailStation → Links → List KricStation → List Blocker
unfolding provider_key
occupied places after rows =
    map (λ row. inactive_target_occupied (provider_key row)) (keep (is_occupied places after) rows)

abbrev pub manual_changes : Links → Links → List Blocker
manual_changes before after =
    if same_dict (manual_by_key before) (manual_by_key after) then [] else manual_link_changed ∷ []

-- the blockers, before they are sorted for the view
unfoldable pub blockers : List RailStation → Links → Links → List KricStation → List Blocker
unfolding mismatches occupied
blockers places before after codes =
    mismatches places before (sorted key_before (keep (λ r. r.active) codes))
    ++ (occupied places after codes ++ manual_changes before after)

-- `rows[key].rail_station_id = …`, for the active rows
unfoldable pub set_link : CodeKey → Option ℕ → KricStation → KricStation
unfolding provider_key
set_link key id row = record row {
  rail_station_id =
      if row.active && code_beq (provider_key row) key then id else row.rail_station_id;
}

abbrev pub has_station : ℕ → KricStation → Bool
has_station n row = is_station row.rail_station_id n

abbrev pub shares : Option ℕ → List KricStation → Bool
shares none rows = false
shares (some n) rows = any (has_station n) rows

-- uq_kric_station_place
abbrev pub is_unique : List KricStation → Bool
is_unique [] = true
is_unique (row ∷ rows) = not (shares row.rail_station_id rows) && is_unique rows

-- a flush sends one UPDATE after the other, and the database tests each
unfoldable pub flush : Updates → List KricStation → Option (List KricStation)
unfolding set_link
flush [] rows = some rows
flush ((key, id) ∷ writes) rows =
    let written = map (set_link key id) rows in
    let rest = flush writes written in if is_unique written then rest else none

abbrev pub cleared : CodeKey × Option ℕ → CodeKey × Option ℕ
cleared e = (e.0, none)

abbrev pub flush_again : Updates → Option (List KricStation) → Option (List KricStation)
flush_again writes none = none
flush_again writes (some rows) = flush writes rows

-- the links that change are emptied and flushed, then written and flushed with the commit; `order` is
-- the one in which a flush sends its rows
unfoldable pub relink :
    (CodeKey → CodeKey → Bool) → Updates → List KricStation → Option (List KricStation)
unfolding flush
relink order updates rows =
    flush_again (sorted (λ a b. order a.0 b.0) updates)
      (flush (sorted (λ a b. order a.0 b.0) (map cleared updates)) rows)
