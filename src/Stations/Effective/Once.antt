-- ===== src/Stations/Effective/Once.antt =====
-- No place is linked twice, and a manual link is never given up for an automatic one.
use kor_travel_transport.Prelude.{
  ℕ, ◌+◌, ◌≤◌, ◌≡◌, sym, ap, ◌∙◌, Bool, true, false, not, Option, none, some, List, [], ◌∷◌, any,
  count, arith, ◌||◌, if◌then◌else◌, Bool-cases, inl, inr, if-cases,
}
use kor_travel_transport.Prelude.Chars.{Text, text_beq, text_beq_sym, text_beq_iff}
use kor_travel_transport.Prelude.Dict.{Dict, get, put, get-put}
use kor_travel_transport.Stations.{
  KricStation, RailStation, CodeKey, code_beq, code_eq, code_beq_iff,
}
use kor_travel_transport.Stations.Manual.{is_empty}
use kor_travel_transport.Stations.Effective.{
  Link, Links, StoredLink, link, manual, automatic, is_skipped, manual_loop, by_key, is_none,
  free_target, linked_to, automatic_loop, active_keys, effective_station_mappings,
}

-- how many codes are linked to a place
abbrev pub links_to : Text → Links → ℕ
links_to t links = count (λ e. text_beq e.1.target t) links

links_to-put :
    (t : Text) (links : Links) (k : CodeKey) (l : Link)
    → links_to t (put links k l) ≤ links_to t links + (if text_beq l.target t then 1 else 0)
unfolding put
links_to-put t [] k l = ground arith
links_to-put t ((j, w) ∷ links) k l = ground (arith, links_to-put t links k l)

-- a place is linked at most once, and only if it is reserved
abbrev pub IsOnce : Links × List Text → Type 0
IsOnce state = (t : Text) → links_to t state.0 ≤ (if any (text_beq t) state.1 then 1 else 0)

reserve-IsOnce :
    (links : Links) (reserved : List Text) (k : CodeKey) (l : Link)
    → any (text_beq l.target) reserved ≡ false
    → IsOnce (links, reserved)
    → IsOnce (put links k l, l.target ∷ reserved)
reserve-IsOnce links reserved k l fresh once t = elim (Bool-cases (text_beq l.target t)) [
  | inl same ↦
      let free : any (text_beq t) reserved ≡ false =
        ap (λ n. any (text_beq n) reserved) (sym ((text_beq_iff l.target t).0 same)) ∙ fresh in
      ground (arith, same, text_beq_sym t l.target, free, once t, links_to-put t links k l)
  | inr other ↦ ground (arith, other, text_beq_sym t l.target, once t, links_to-put t links k l)
]

manual_loop-IsOnce :
    (active : List CodeKey) (places : List RailStation) (links : Links) (reserved : List Text)
    (items : List StoredLink)
    → IsOnce (links, reserved)
    → IsOnce (manual_loop active places links reserved items)
unfolding manual_loop
manual_loop-IsOnce active places links reserved [] once = once
manual_loop-IsOnce active places links reserved (item ∷ items) once =
    if-cases IsOnce (is_skipped active places reserved item)
      {x = manual_loop active places links reserved items}
      {y = manual_loop active places (put links item.code (link item.target manual))
        (item.target ∷ reserved) items}
      (λ _. manual_loop-IsOnce active places links reserved items once)
      λ kept.
        manual_loop-IsOnce active places (put links item.code (link item.target manual))
          (item.target ∷ reserved) items
          (reserve-IsOnce links reserved item.code (link item.target manual) (ground (arith, kept))
            once)

linked_to-IsOnce :
    (state : Links × List Text) (key : CodeKey) (linked : Bool) (o : Option Text)
    → IsOnce state
    → IsOnce (linked_to state key (free_target state.1 linked o))
linked_to-IsOnce state key linked none once = once
linked_to-IsOnce state key linked (some target) once =
    elim (Bool-cases (linked || (is_empty target || any (text_beq target) state.1))) [
      | inl taken ↦ rw taken once
      | inr free ↦
          rw free
            (reserve-IsOnce state.0 state.1 key (link target automatic) (ground (arith, free)) once)
    ]

automatic_loop-IsOnce :
    (by_code : Dict CodeKey Text) (state : Links × List Text) (keys : List CodeKey)
    → IsOnce state
    → IsOnce (automatic_loop by_code state keys)
unfolding automatic_loop
automatic_loop-IsOnce by_code state [] once = once
automatic_loop-IsOnce by_code state (key ∷ keys) once =
    automatic_loop-IsOnce by_code
      (linked_to state key
        (free_target state.1 (not (is_none (get state.0 key))) (get by_code key)))
      keys (linked_to-IsOnce state key (not (is_none (get state.0 key))) (get by_code key) once)

-- the automatic loop leaves a link that is there
linked_to-kept :
    (state : Links × List Text) (key k : CodeKey) (l : Link) (o : Option Text)
    → get state.0 k ≡ some l
    → get (linked_to state key (free_target state.1 (not (is_none (get state.0 key))) o)).0 k
      ≡ some l
linked_to-kept state key k l none there = there
linked_to-kept state key k l (some target) there =
    elim (Bool-cases
      (not (is_none (get state.0 key)) || (is_empty target || any (text_beq target) state.1))) [
        | inl taken ↦ rw taken there
        | inr free ↦ rw free (
            get-put state.0 key k (link target automatic) ∙ elim (Bool-cases (code_beq key k)) [
              | inl same ↦
                  let missing : is_none (get state.0 key) ≡ true = ground (arith, free) in
                  let found = ap is_none (ap (get state.0) ((code_beq_iff key k).0 same) ∙ there) in
                  cc (missing, found)
              | inr other ↦ rw other there
            ])
      ]

pub automatic_loop-kept :
    (by_code : Dict CodeKey Text) (state : Links × List Text) (keys : List CodeKey) (k : CodeKey)
    (l : Link)
    → get state.0 k ≡ some l
    → get (automatic_loop by_code state keys).0 k ≡ some l
unfolding automatic_loop
automatic_loop-kept by_code state [] k l there = there
automatic_loop-kept by_code state (key ∷ keys) k l there =
    automatic_loop-kept by_code
      (linked_to state key
        (free_target state.1 (not (is_none (get state.0 key))) (get by_code key)))
      keys k l (linked_to-kept state key k l (get by_code key) there)

-- Whatever is stored, and in whatever order the codes are taken: no place is linked to two codes.
pub effective_station_mappings-once :
    (enumerate : List CodeKey → List CodeKey) (codes : List KricStation) (places : List RailStation)
    (automatic_items manual_items : List StoredLink) (t : Text)
    → links_to t (effective_station_mappings enumerate codes places automatic_items manual_items)
      ≤ 1
unfolding effective_station_mappings
effective_station_mappings-once enumerate codes places automatic_items manual_items t =
    let active = active_keys codes in
    let taken = manual_loop active places [] [] manual_items in
    let once =
      automatic_loop-IsOnce (by_key [] automatic_items) taken (enumerate active)
        (manual_loop-IsOnce active places [] [] manual_items (λ t. omega arith)) t in
    ground (arith, once)
