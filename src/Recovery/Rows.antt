-- ===== src/Recovery/Rows.antt =====
-- What the recovery of one row does to the row, to an ended row and to the other rows.
use kor_travel_transport.Prelude.{
  ℕ, ◌≡◌, refl, inl, inr, sym, ap, ◌∙◌, Bool, true, false, none, some, arith, Bool-cases,
  Option-cases, ==_iff, ◌==◌, if-both,
}
use kor_travel_transport.Recovery.{
  Row, Db, failed, Metadata, missing, finished, alive, unavailable, is_held, is_running, is_expired,
  recover_row, update_row,
}
use kor_travel_transport.Recovery.Fencing.{is_live}

-- A row of another id stays as it is.
update-other :
    (me : Bool) (j owner : ℕ) (seen : Row) (db : Db) (id : ℕ)
    → (id == j) ≡ false
    → update_row me j owner seen db id ≡ db id
unfolding update_row
update-other me j owner seen db id differ = ground (arith, differ)

pub recover-other :
    (now j owner : ℕ) (seen : Row) (m : Metadata) (db : Db) (id : ℕ)
    → (id == j) ≡ false
    → recover_row now j owner seen m db id ≡ db id
unfolding recover_row
recover-other now j owner seen missing db id differ =
    if-both (λ (d : Db). d id ≡ db id) (is_expired now seen) {x = update_row true j owner seen db}
      {y = db} (update-other true j owner seen db id differ) refl
recover-other now j owner seen finished db id differ = update-other false j owner seen db id differ
recover-other now j owner seen alive db id differ = refl
recover-other now j owner seen unavailable db id differ = refl

-- A row that is held by an owner who has finished becomes failed.
pub recover-finished :
    (now id owner : ℕ) (seen r : Row) (db : Db)
    → db id ≡ some r
    → is_held (some r) owner ≡ true
    → recover_row now id owner seen finished db id ≡ some (record r { status = failed })
unfolding recover_row update_row
recover-finished now id owner seen r db there held = ground (arith, there, held)

update_keeps :
    (me : Bool) (j owner : ℕ) (seen : Row) (db : Db) (id : ℕ) (r : Row)
    → db id ≡ some r
    → is_running r.status ≡ false
    → update_row me j owner seen db id ≡ some r
unfolding update_row
update_keeps me j owner seen db id r e ended = elim (Bool-cases (id == j)) [
  | inl same ↦
      let e' : db j ≡ some r = ap db (sym ((==_iff id j).0 same)) ∙ e in
      ground (arith, e', e, ended)
  | inr other ↦ ground (arith, e)
]

pub recover_keeps :
    (now j owner : ℕ) (seen : Row) (m : Metadata) (db : Db) (id : ℕ) (r : Row)
    → db id ≡ some r
    → is_running r.status ≡ false
    → recover_row now j owner seen m db id ≡ some r
unfolding recover_row
recover_keeps now j owner seen missing db id r e ended =
    if-both (λ (d : Db). d id ≡ some r) (is_expired now seen) {x = update_row true j owner seen db}
      {y = db} (update_keeps true j owner seen db id r e ended) e
recover_keeps now j owner seen finished db id r e ended =
    update_keeps false j owner seen db id r e ended
recover_keeps now j owner seen alive db id r e ended = e
recover_keeps now j owner seen unavailable db id r e ended = e

update_missing :
    (me : Bool) (j owner : ℕ) (seen : Row) (db : Db) (id : ℕ)
    → db j ≡ none
    → update_row me j owner seen db id ≡ db id
unfolding update_row
update_missing me j owner seen db id gone = ground (arith, gone)

-- The sensor starts no run.
update-live :
    (me : Bool) (j owner : ℕ) (seen : Row) (db : Db) (id : ℕ)
    → is_live (update_row me j owner seen db id) ≡ true
    → is_live (db id) ≡ true
update-live me j owner seen db id h = elim (Bool-cases (id == j)) [
  | inl same ↦ elim (Option-cases (db j)) [
    | inl gone ↦ ap is_live (sym (update_missing me j owner seen db id gone)) ∙ h
    | inr (r, there) ↦
        let e : db id ≡ some r = ap db ((==_iff id j).0 same) ∙ there in
        elim (Bool-cases (is_running r.status)) [
          | inl runs ↦ rw (e, runs)
          | inr ended ↦ cc (ap is_live (update_keeps me j owner seen db id r e ended) ∙ ended)
        ]
  ]
  | inr other ↦ ap is_live (sym (update-other me j owner seen db id other)) ∙ h
]

pub recover-live :
    (now j owner : ℕ) (seen : Row) (m : Metadata) (db : Db) (id : ℕ)
    → is_live (recover_row now j owner seen m db id) ≡ true
    → is_live (db id) ≡ true
unfolding recover_row
recover-live now j owner seen missing db id h =
    if-both (λ (d : Db). is_live (d id) ≡ true → is_live (db id) ≡ true) (is_expired now seen)
      {x = update_row true j owner seen db} {y = db} (update-live true j owner seen db id)
      (λ same. same) h
recover-live now j owner seen finished db id h = update-live false j owner seen db id h
recover-live now j owner seen alive db id h = h
recover-live now j owner seen unavailable db id h = h
