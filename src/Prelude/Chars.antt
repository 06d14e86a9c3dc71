-- ===== src/Prelude/Chars.antt =====
-- Texts as lists of code points, with the methods of Python's `str` that the code calls.
use Prim.Native.Nat.{ℕ}
use Prim.Native.Char.{code}
use Prim.Native.String.{String}
use mathlib.Core.Path.{◌≡◌, refl, sym, ap, ap₂, ◌∙◌}
use mathlib.Core.Logic.{◌↔◌, inl, inr}
use mathlib.Core.Bool.{Bool, true, false, ◌&&◌, ◌||◌}
use mathlib.Core.List.{List, [], ◌∷◌, ◌++◌}
use native.Mathlib.Omega.{arith}
use kor_travel_transport.Prelude.Tests.{Bool-cases, ltb, leb, ◌==◌, if◌then◌else◌}
use kor_travel_transport.Prelude.Dict.{Eq}

abbrev pub Text : Type 0
Text = List ℕ

-- the code points of a literal
abbrev pub codes : String → Text
codes String.[] = []
codes (String.◌∷◌ c s) = code c ∷ codes s

-- `str.isspace` of one character
abbrev pub is_space : ℕ → Bool
is_space c =
    (leb 9 c && leb c 13)
    || (leb 28 c && leb c 32)
    || c == 133
    || c == 160
    || c == 5760
    || (leb 8192 c && leb c 8202)
    || c == 8232
    || c == 8233
    || c == 8239
    || c == 8287
    || c == 12288

drop_spaces : Text → Text
drop_spaces [] = []
drop_spaces (c ∷ cs) = let rest = drop_spaces cs in if is_space c then rest else c ∷ cs

unfoldable pub backwards : Text → Text
backwards [] = []
backwards (c ∷ cs) = backwards cs ++ c ∷ []

-- the method `strip`
unfoldable pub strip : Text → Text
unfolding drop_spaces backwards
strip s = backwards (drop_spaces (backwards (drop_spaces s)))

-- `a or b` of two texts
abbrev pub or_text : Text → Text → Text
or_text [] b = b
or_text (c ∷ cs) b = c ∷ cs

-- `<` of texts
unfoldable pub text_ltb : Text → Text → Bool
text_ltb xs [] = false
text_ltb [] (y ∷ ys) = true
text_ltb (x ∷ xs) (y ∷ ys) = let rest = text_ltb xs ys in if ltb x y then true else (x == y && rest)

-- `==` of texts
unfoldable pub text_beq : Text → Text → Bool
text_beq [] [] = true
text_beq (x ∷ xs) (y ∷ ys) = let rest = text_beq xs ys in x == y && rest
text_beq _ _ = false

pub text_beq_self : (s : Text) → text_beq s s ≡ true
unfolding text_beq
text_beq_self [] = refl
text_beq_self (c ∷ cs) = ground (arith, text_beq_self cs)

pub text_beq_sym : (s t : Text) → text_beq s t ≡ text_beq t s
unfolding text_beq
text_beq_sym [] [] = refl
text_beq_sym [] (d ∷ ds) = refl
text_beq_sym (c ∷ cs) [] = refl
text_beq_sym (c ∷ cs) (d ∷ ds) = ground (arith, text_beq_sym cs ds)

-- equal texts compare alike with a third
pub text_beq_cong : (s t u : Text) → text_beq s t ≡ true → text_beq s u ≡ text_beq t u
unfolding text_beq
text_beq_cong [] [] u h = refl
text_beq_cong [] (d ∷ ds) u h = cc
text_beq_cong (c ∷ cs) [] u h = cc
text_beq_cong (c ∷ cs) (d ∷ ds) [] h = refl
text_beq_cong (c ∷ cs) (d ∷ ds) (e ∷ es) h =
    let tail : text_beq cs ds ≡ true = ground arith in
    ground (arith, text_beq_cong cs ds es tail, h)

text_beq_eq : (s t : Text) → text_beq s t ≡ true → s ≡ t
unfolding text_beq
text_beq_eq [] [] h = refl
text_beq_eq [] (d ∷ ds) h = cc
text_beq_eq (c ∷ cs) [] h = cc
text_beq_eq (c ∷ cs) (d ∷ ds) h =
    let tail : text_beq cs ds ≡ true = ground arith in
    let head : c ≡ d = ground (arith, h) in ap₂ (λ x l. x ∷ l) head (text_beq_eq cs ds tail)

pub text_beq_iff : (s t : Text) → (text_beq s t ≡ true) ↔ (s ≡ t)
text_beq_iff s t = (text_beq_eq s t, λ e. ap (text_beq s) (sym e) ∙ text_beq_self s)

instance abbrev pub text_eq : Eq Text
text_eq = record { beq = text_beq; beq_iff = text_beq_iff }

pub text_ltb_irrefl : (s : Text) → text_ltb s s ≡ false
unfolding text_ltb
text_ltb_irrefl [] = refl
text_ltb_irrefl (c ∷ cs) = ground (arith, text_ltb_irrefl cs)

pub text_ltb_asym : (s t : Text) → text_ltb s t ≡ true → text_ltb t s ≡ false
unfolding text_ltb
text_ltb_asym s [] h = cc
text_ltb_asym [] (d ∷ ds) h = refl
text_ltb_asym (c ∷ cs) (d ∷ ds) h = elim (Bool-cases (text_ltb cs ds)) [
  | inl tail ↦ let back = text_ltb_asym cs ds tail in ground (arith, h, tail, back)
  | inr tail ↦ ground (arith, h, tail)
]

pub text_ltb_trans :
    (s t u : Text) → text_ltb s t ≡ false → text_ltb t u ≡ false → text_ltb s u ≡ false
unfolding text_ltb
text_ltb_trans s t [] h k = refl
text_ltb_trans s [] (e ∷ es) h k = cc
text_ltb_trans [] (d ∷ ds) (e ∷ es) h k = cc
text_ltb_trans (c ∷ cs) (d ∷ ds) (e ∷ es) h k = elim (Bool-cases (text_ltb cs ds)) [
  | inl first ↦ ground (arith, h, k, first)
  | inr first ↦ elim (Bool-cases (text_ltb ds es)) [
    | inl second ↦ ground (arith, h, k, first, second)
    | inr second ↦
        let both = text_ltb_trans cs ds es first second in ground (arith, h, k, first, second, both)
  ]
]
