-- ===== src/Fee/Chunks.antt =====
-- The loop of `calculate_total_fee`: that it ends, and the chunks that it makes.
use native.Mathlib.Nat.{add-zero, add_assoc}
use kor_travel_transport.Prelude.{
  ℕ, zero, suc, ◌+◌, ◌-◌, ◌≤◌, ◌<◌, ◌≡◌, refl, ap, false, List, [], ◌∷◌, ◌++◌, append_assoc,
  append-nil, map, min, if◌then◌else◌, ◌⊎◌, inl, inr, Bool-cases, arith, sum, All,
}
use kor_travel_transport.Clock.{day_us}
use kor_travel_transport.Fee.{
  FeeError, Result, ok, err, rule_invalid, BreakdownItem, CalculatedFee, Visit, ceil_div,
  rule_is_invalid, rule_at, breakdown_item, fee_loop,
}

-- The stay cut at each 24 hours after the entry: the starts of its chunks.
abbrev pub starts : ℕ → ℕ → List ℕ
starts zero start = []
starts (suc n) start = start ∷ starts n (start + day_us)

-- `n` full or partial days from `start`
abbrev pub item_at : Visit → ℕ → ℕ → BreakdownItem
item_at v exit_at start = breakdown_item v start (min (start + day_us) exit_at)

abbrev pub ValidAt : Visit → List ℕ → Type 0
ValidAt v = All (λ s. rule_is_invalid (rule_at v s) ≡ false)

abbrev pub applied : BreakdownItem → ℕ
applied i = i.applied_fee

-- What the loop adds for the chunks with these starts, in order, up to the first invalid rule.
pub priced : Visit → ℕ → List ℕ → ℕ → List BreakdownItem → Result CalculatedFee
priced v exit_at [] total items = ok (record { total_fee = total; breakdown = items })
priced v exit_at (s ∷ rest) total items =
    let later =
      priced v exit_at rest (total + (item_at v exit_at s).applied_fee)
        (items ++ item_at v exit_at s ∷ []) in
    if rule_is_invalid (rule_at v s) then err rule_invalid else later

starts-eq : (n m k : ℕ) → (n ≡ 0) ⊎ (m ≡ k) → starts n m ≡ starts n k
starts-eq zero m k h = refl
starts-eq (suc n) m k (inl z) = absurd (omega arith)
starts-eq (suc n) m k (inr e) = ap (starts (suc n)) e

pub loop-priced :
    (n fuel : ℕ) (v : Visit) (exit_at start total : ℕ) (items : List BreakdownItem)
    → n < fuel
    → start ≤ exit_at
    → n ≡ ceil_div (exit_at - start) day_us
    → fee_loop fuel v exit_at start total items ≡ priced v exit_at (starts n start) total items
unfolding fee_loop priced
loop-priced n zero v exit_at start total items lt le e = absurd (omega arith)
loop-priced zero (suc fuel) v exit_at start total items lt le e = ground arith
loop-priced (suc n) (suc fuel) v exit_at start total items lt le e =
    let m = min (start + day_us) exit_at in
    let f = (item_at v exit_at start).applied_fee in
    let ih =
      loop-priced n fuel v exit_at m (total + f) (items ++ item_at v exit_at start ∷ [])
        (omega arith) (omega arith) (omega arith) in
    let tail : (n ≡ 0) ⊎ (m ≡ start + day_us) = ground arith in
    ground (arith, ih, starts-eq n m (start + day_us) tail)

pub priced_valid :
    (starts : List ℕ) (v : Visit) (exit_at total : ℕ) (items : List BreakdownItem)
    → ValidAt v starts
    → priced v exit_at starts total items
      ≡ ok (record {
        total_fee = total + sum (map applied (map (item_at v exit_at) starts));
        breakdown = items ++ map (item_at v exit_at) starts;
      })
unfolding priced
priced_valid [] v exit_at total items h = rw (add-zero, append-nil)
priced_valid (s ∷ rest) v exit_at total items h = rw (
  h.0,
  priced_valid rest v exit_at (total + (item_at v exit_at s).applied_fee)
      (items ++ item_at v exit_at s ∷ []) h.1,
  append_assoc,
  add_assoc,
)

-- The first start whose rule is invalid ends the loop.
pub priced_invalid :
    (starts : List ℕ) (v : Visit) (exit_at total : ℕ) (items : List BreakdownItem)
    {r : CalculatedFee}
    → priced v exit_at starts total items ≡ ok r
    → ValidAt v starts
unfolding priced
priced_invalid [] v exit_at total items h = tt
priced_invalid (s ∷ rest) v exit_at total items h =
    elim (Bool-cases (rule_is_invalid (rule_at v s))) [
      | inl bad ↦ cc (rw bad at h)
      | inr good ↦ (
        good,
        priced_invalid rest v exit_at (total + (item_at v exit_at s).applied_fee)
            (items ++ item_at v exit_at s ∷ []) (rw good at h),
      )
    ]

-- it fails with no other error
pub priced_error :
    (starts : List ℕ) (v : Visit) (exit_at total : ℕ) (items : List BreakdownItem) {e : FeeError}
    → priced v exit_at starts total items ≡ err e
    → e ≡ rule_invalid
unfolding priced
priced_error [] v exit_at total items {e = e} h = cc
priced_error (s ∷ rest) v exit_at total items {e = e} h = ground (
  arith,
  priced_error rest v exit_at (total + (item_at v exit_at s).applied_fee)
      (items ++ item_at v exit_at s ∷ []) {e = e},
)
