-- ===== src/Prelude/Dict.antt =====
-- Python's `dict`: the entries in the order in which their keys first came. A write to a key that
-- is there replaces the value in place.
use mathlib.Core.Path.{◌≡◌, refl, sym, ap, ◌∙◌, subst}
use mathlib.Core.Logic.{◌↔◌, inl, inr}
use mathlib.Core.Bool.{Bool, true}
use mathlib.Core.Option.{Option, none, some}
use mathlib.Core.List.{List, [], ◌∷◌}
use Prim.Native.Nat.{ℕ, suc, ◌≤◌}
use Prim.Native.String.{String}
use native.Mathlib.Omega.{arith}
use text.Mathlib.Text.{◌==◌ as str_eq}
use text.Mathlib.TextEquality.{eq_iff}
use kor_travel_transport.Prelude.Tests.{
  if◌then◌else◌, ==_iff, ◌==◌ as nat_beq, Bool-cases, if-true, if-false, some-inj,
}
use kor_travel_transport.Prelude.Lists.{length, All, All-imp, count}

-- `==` of the keys
pub record Eq {ℓ} (A : Type ℓ) : Type ℓ where
  pub beq : A → A → Bool
  pub beq_iff : (a b : A) → (beq a b ≡ true) ↔ (a ≡ b)

instance abbrev pub nat_eq : Eq ℕ
nat_eq = record { beq = nat_beq; beq_iff = ==_iff }

instance abbrev pub string_eq : Eq String
string_eq = record { beq = str_eq; beq_iff = eq_iff }

abbrev pub Dict {ℓ κ} : Type ℓ → Type κ → Type (ℓ ⊔ κ)
Dict K V = List (K × V)

module _ {ℓ κ} {K : Type ℓ} {V : Type κ} ⦃e : Eq K⦄ where
  -- `d.get(k)`
  unfoldable pub get : Dict K V → K → Option V
  get [] k = none
  get ((j, v) ∷ d) k = if e.beq j k then some v else get d k

  -- `d[k] = v`
  unfoldable pub put : Dict K V → K → V → Dict K V
  put [] k v = (k, v) ∷ []
  put ((j, w) ∷ d) k v = if e.beq j k then (j, v) ∷ d else (j, w) ∷ put d k v

  pub get-put :
      (d : Dict K V) (k j : K) (v : V) → get (put d k v) j ≡ (if e.beq k j then some v else get d j)
  unfolding get put
  get-put [] k j v = refl
  get-put ((i, w) ∷ d) k j v =
      ground (arith, e.beq_iff i k, e.beq_iff i j, e.beq_iff k j, get-put d k j v)

  pub length-put : (d : Dict K V) (k : K) (v : V) → length (put d k v) ≤ suc (length d)
  unfolding put
  length-put [] k v = omega arith
  length-put ((i, w) ∷ d) k v = ground (arith, length-put d k v)

abbrev pub presence {ℓ} : {A : Type ℓ} → Option A → ℕ
presence none = 0
presence (some a) = 1

abbrev pub values {ℓ κ} : {K : Type ℓ} {V : Type κ} → Dict K V → List V
values [] = []
values ((k, v) ∷ d) = v ∷ values d

module _ {ℓ κ} {K : Type ℓ} {V : Type κ} ⦃e : Eq K⦄ where
  -- no key stands twice
  abbrev pub NodupKeys : Dict K V → Type κ
  NodupKeys [] = Unit
  NodupKeys ((k, v) ∷ d) = (get d k ≡ none) × NodupKeys d

  pub put-NodupKeys : (d : Dict K V) (k : K) (v : V) → NodupKeys d → NodupKeys (put d k v)
  unfolding get put
  put-NodupKeys [] k v h = (refl, tt)
  put-NodupKeys ((j, w) ∷ d) k v h = elim (Bool-cases (e.beq j k)) [
    | inl same ↦ rw same h
    | inr other ↦
        rw other
          (rw get-put (ground (arith, e.beq_iff k j, e.beq_iff j k)), put-NodupKeys d k v h.1)
  ]

module _ {ℓ κ} {K : Type ℓ} {V : Type κ} ⦃e : Eq K⦄ where
  pub put-All :
      (P : K × V → Type 0) (d : Dict K V) (k : K) (v : V)
      → ((j : K) → (e.beq j k ≡ true) → P (j, v))
      → P (k, v)
      → All P d
      → All P (put d k v)
  unfolding put
  put-All P [] k v there new h = (new, tt)
  put-All P ((j, w) ∷ d) k v there new h = elim (Bool-cases (e.beq j k)) [
    | inl same ↦ rw same (there j same, h.1)
    | inr other ↦ rw other (h.0, put-All P d k v there new h.1)
  ]

  -- what holds of all entries holds of the one that is found
  pub get-All :
      (P : K × V → Type 0) (d : Dict K V) (k : K) (v : V) → All P d → get d k ≡ some v → P (k, v)
  unfolding get
  get-All P [] k v h found = cc
  get-All P ((j, w) ∷ d) k v h found = elim (Bool-cases (e.beq j k)) [
    | inl same ↦
        subst (λ i. P (i, v)) ((e.beq_iff j k).0 same)
          (subst (λ x. P (j, x)) (some-inj (sym (if-true _ _ same) ∙ found)) h.0)
    | inr other ↦ get-All P d k v h.1 (sym (if-false _ _ other) ∙ found)
  ]

  get-later :
      (d : Dict K V) (k : K) (v : V) (j : K) (w : V)
      → get d k ≡ none
      → get d j ≡ some w
      → get ((k, v) ∷ d) j ≡ some w
  unfolding get
  get-later d k v j w fresh found = elim (Bool-cases (e.beq k j)) [
    | inl same ↦ cc (ap (get d) ((e.beq_iff k j).0 same))
    | inr other ↦ if-false _ _ other ∙ found
  ]

  -- with no key twice each entry is what the dict gives for its key
  pub get-entries : (d : Dict K V) → NodupKeys d → All (λ (p : K × V). get d p.0 ≡ some p.1) d
  unfolding get
  get-entries [] h = tt
  get-entries ((k, v) ∷ d) h = (
    if-true _ _ ((e.beq_iff k k).1 refl),
    All-imp (λ (p : K × V). get d p.0 ≡ some p.1) (λ (p : K × V). get ((k, v) ∷ d) p.0 ≡ some p.1)
        (λ p q. get-later d k v p.0 p.1 h.0 q) d (get-entries d h.1),
  )

  pub values-All : (P : V → Type 0) (d : Dict K V) → All (λ (p : K × V). P p.1) d → All P (values d)
  values-All P [] h = tt
  values-All P ((k, v) ∷ d) h = (h.0, values-All P d h.1)

  -- the entries whose values stand under their own keys: none of a missing key, one of a key that is there
  pub count-values :
      (own : V → K) (d : Dict K V) (k : K)
      → All (λ (p : K × V). own p.1 ≡ p.0) d
      → NodupKeys d
      → count (λ v. e.beq (own v) k) (values d) ≡ presence (get d k)
  unfolding get
  count-values own [] k held h = refl
  count-values own ((j, w) ∷ d) k held h = rw held.0 (elim (Bool-cases (e.beq j k)) [
    | inl same ↦ rw same (
        ap suc (
          count-values own d k held.1 h.1
          ∙ ap presence (sym (ap (get d) ((e.beq_iff j k).0 same)) ∙ h.0)))
    | inr other ↦ rw other (count-values own d k held.1 h.1)
  ])

module _ {ℓ κ} {K : Type ℓ} {V : Type κ} ⦃e : Eq K⦄ where
  -- the entries of a key: none of a missing key, one of a key that is there
  pub count-entries :
      (d : Dict K V) (k : K)
      → NodupKeys d
      → count (λ (p : K × V). e.beq p.0 k) d ≡ presence (get d k)
  unfolding get
  count-entries [] k h = refl
  count-entries ((j, w) ∷ d) k h = elim (Bool-cases (e.beq j k)) [
    | inl same ↦ rw same (
        ap suc
          (count-entries d k h.1 ∙ ap presence (sym (ap (get d) ((e.beq_iff j k).0 same)) ∙ h.0)))
    | inr other ↦ rw other (count-entries d k h.1)
  ]
