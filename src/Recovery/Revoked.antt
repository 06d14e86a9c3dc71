-- ===== src/Recovery/Revoked.antt =====
-- A lease that is revoked: no session of its operation flushes or commits any more.
use kor_travel_transport.Prelude.{ℕ, ◌≡◌, ap, true, false, List, [], ◌∷◌, ◌++◌, not, keep}
use kor_travel_transport.Recovery.{Db, Lease, Session, Outcome, has, before_flush, before_commit}
use kor_travel_transport.Recovery.Fencing.{fence_revoked, revoked_by}

-- A call of one of the handlers that fence, by any session and on any database.
pub data Call : Type 0 where
  flushes : (now : ℕ) (new : List ℕ) (s : Session) (db : Db) → Call
  commits : (now : ℕ) (s : Session) (db : Db) → Call

abbrev pub db_of : Call → Db
db_of (flushes now new s db) = db
db_of (commits now s db) = db

abbrev pub handled : Lease → Call → Outcome
handled l (flushes now new s db) = before_flush now new l s db
handled l (commits now s db) = before_commit now l s db

-- Each of the calls, one after the other under one lease, raises and changes nothing in the database.
abbrev pub AllRefused : Lease → List Call → Type 0
AllRefused l [] = Unit
AllRefused l (c ∷ cs) =
    ((handled l c).returned ≡ false)
    × ((handled l c).db ≡ db_of c)
    × ((handled l c).lease.revoked ≡ true)
    × AllRefused (handled l c).lease cs

handled_revokes :
    (l : Lease) (c : Call) → (handled l c).returned ≡ false → (handled l c).lease.revoked ≡ true
unfolding before_flush before_commit
handled_revokes l (flushes now new s db) h =
    revoked_by now l (record s { pending = s.pending ++ keep (λ id. not (has s.pending id)) new })
      db h
handled_revokes l (commits now s db) h = revoked_by now l s db h

handled_refused :
    (l : Lease) (c : Call)
    → l.revoked ≡ true
    → ((handled l c).returned ≡ false) × ((handled l c).db ≡ db_of c)
unfolding before_flush before_commit
handled_refused l (flushes now new s db) h =
    let same =
      fence_revoked now l
        (record s { pending = s.pending ++ keep (λ id. not (has s.pending id)) new }) db h in
    (ap (λ (o : Outcome). o.returned) same, ap (λ (o : Outcome). o.db) same)
handled_refused l (commits now s db) h =
    let same = fence_revoked now l s db h in
    (ap (λ (o : Outcome). o.returned) same, ap (λ (o : Outcome). o.db) same)

revoked-AllRefused : (cs : List Call) (l : Lease) → l.revoked ≡ true → AllRefused l cs
revoked-AllRefused [] l h = tt
revoked-AllRefused (c ∷ cs) l h =
    let now = handled_refused l c h in
    let still = handled_revokes l c now.0 in
    (now.0, now.1, still, revoked-AllRefused cs (handled l c).lease still)

-- Where a flush or a commit of one session raises in `_fence`, the lease is revoked, and then every
-- later flush and commit of any session that shares the lease, in any order and on any database,
-- raises, changes nothing in the database and leaves the lease revoked.
pub handled_revokes_all :
    (l : Lease) (c : Call) (later : List Call)
    → (handled l c).returned ≡ false
    → ((handled l c).lease.revoked ≡ true) × AllRefused (handled l c).lease later
handled_revokes_all l c later raised =
    let gone = handled_revokes l c raised in
    (gone, revoked-AllRefused later (handled l c).lease gone)
