-- ===== src/Backups/Upload/Whole.antt =====
-- What the loop of an upload has read when it returns.
use kor_travel_transport.Prelude.{
  ℕ, ◌+◌, ◌≤◌, ◌<◌, ◌≡◌, sym, List, [], ◌∷◌, arith, ◌==◌, ==_iff, subst, Bool-cases, inl, inr,
}
use kor_travel_transport.Backups.{ok, max_backup_bytes}
use kor_travel_transport.Backups.Upload.{Read, chunk, timed_out, receive}

-- The reads make up a file of some bytes: each has a chunk, up to an empty chunk or the last read.
pub data IsWhole : List (ℕ × Read) → ℕ → Type 0 where
  all_read : IsWhole [] 0
  ended : {clock : ℕ} {reads : List (ℕ × Read)} → IsWhole ((clock, chunk 0) ∷ reads) 0
  then_read :
      {clock size : ℕ} {reads : List (ℕ × Read)} {rest : ℕ}
      → 0 < size
      → IsWhole reads rest
      → IsWhole ((clock, chunk size) ∷ reads) (size + rest)

-- A file that is received has all the bytes of the reads, and no more than the greatest size.
module _ (deadline : ℕ) where
  pub receive-IsWhole :
      (written : ℕ) (reads : List (ℕ × Read)) (size : ℕ)
      → written ≤ max_backup_bytes
      → receive deadline written reads ≡ ok size
      → (rest : ℕ) × IsWhole reads rest × (size ≡ written + rest) × (size ≤ max_backup_bytes)
  unfolding receive
  receive-IsWhole written [] size h e = (0, all_read, ground (arith, e), ground (arith, e, h))
  receive-IsWhole written ((clock, timed_out) ∷ reads) size h e = cc
  receive-IsWhole written ((clock, chunk n) ∷ reads) size h e = elim (Bool-cases (n == 0)) [
    | inl end ↦
        let empty : n ≡ 0 = (==_iff n 0).0 end in
        (
          0,
          subst (λ m. IsWhole ((clock, chunk m) ∷ reads) 0) (sym empty) ended,
          ground (arith, e, end),
          ground (arith, e, end, h),
        )
    | inr more ↦
        let small : written + n ≤ max_backup_bytes = ground (arith, e, more) in
        let left : receive deadline (written + n) reads ≡ ok size = ground (arith, e, more) in
        let (rest, whole, sum, bound) = receive-IsWhole (written + n) reads size small left in
        (n + rest, then_read (ground (arith, more)) whole, omega (arith, sum), bound)
  ]
