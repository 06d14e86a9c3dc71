-- ===== src/History/Encoding.antt =====
-- `accepts_br`, `accepts_gzip` and `response_encoding`: the choice of the encoding by the header
-- `Accept-Encoding`. Whether a text is a float above 0 is an argument.
use kor_travel_transport.Prelude.{
  ℕ, ◌+◌, Bool, true, false, List, [], ◌∷◌, ◌++◌, map, leb, ◌==◌, ◌&&◌, if◌then◌else◌,
}
use kor_travel_transport.Prelude.Chars.{Text, codes, text_beq, strip}

pub data Coding : Type 0 where
  br gzip identity : Coding

abbrev pub coding_beq : Coding → Coding → Bool
coding_beq br br = true
coding_beq gzip gzip = true
coding_beq identity identity = true
coding_beq _ _ = false

-- `text.split(c)`, from the part that is being read
abbrev pub split_from : ℕ → Text → Text → List Text
split_from c part [] = part ∷ []
split_from c part (d ∷ s) =
    let next = split_from c [] s in
    let same = split_from c (part ++ d ∷ []) s in if d == c then part ∷ next else same

abbrev pub split : ℕ → Text → List Text
split c s = split_from c [] s

-- `str.lower` on the letters that a header has
abbrev pub lower : ℕ → ℕ
lower c = if leb b'A' c && leb c b'Z' then c + 32 else c

module _ (is_positive : Text → Bool) where
  -- the parameters of a coding: the first `q=` decides
  abbrev pub quality : List Text → Bool
  quality [] = true
  quality ([] ∷ parts) = quality parts
  quality ((c ∷ []) ∷ parts) = quality parts
  quality ((c ∷ d ∷ value) ∷ parts) =
      let rest = quality parts in if c == b'q' && d == b'=' then is_positive value else rest

  -- the values of the header: the first of the given name decides
  abbrev pub accepts_value : Text → List (List Text) → Bool
  accepts_value name [] = false
  accepts_value name ([] ∷ values) = accepts_value name values
  accepts_value name ((first ∷ parts) ∷ values) =
      let rest = accepts_value name values in if text_beq first name then quality parts else rest

  -- `[part.strip().lower() for part in value.split(";")]`
  pub parts_of : Text → List Text
  unfolding strip
  parts_of value = map (λ part. map lower (strip part)) (split b';' value)

  pub accepts : Text → Text → Bool
  unfolding parts_of
  accepts name header = accepts_value name (map parts_of (split b',' header))

  unfoldable pub response_encoding : Text → Coding
  unfolding accepts
  response_encoding accept_encoding =
      if accepts (codes "br") accept_encoding
      then br
      else if accepts (codes "gzip") accept_encoding
      then gzip
      else identity
