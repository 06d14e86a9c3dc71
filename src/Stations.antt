-- ===== src/Stations.antt =====
-- backend/app/services/rail_station_mapping.py: which place of the reference file a station code of
-- KRIC is linked to. A name that is null in the database is the empty text, which the code makes of
-- it. NFKC, the digests and the order in which Python enumerates a set are arguments.
pub mod Manual
pub mod Effective
pub mod Automatic
pub mod Plan
pub mod Apply
use kor_travel_transport.Prelude.{
  ℕ, Bool, true, false, not, Option, none, some, List, [], ◌∷◌, ◌++◌, any, keep, ◌==◌, ◌&&◌, ◌||◌,
  if◌then◌else◌, ◌≡◌, ◌↔◌, refl, ap, arith,
}
use kor_travel_transport.Prelude.Chars.{
  Text, codes, strip, is_space, text_beq, text_beq_iff, text_ltb, or_text, backwards,
}
use kor_travel_transport.Prelude.Dict.{Eq}

-- KricStationCode
pub record KricStation : Type 0 where
  pub operator_code : Text
  pub line_code : Text
  pub station_code : Text
  pub operator_name : Text
  pub line_name : Text
  pub station_name : Text
  pub rail_station_id : Option ℕ
  pub active : Bool

-- RailStationReference
pub record RailStation : Type 0 where
  pub id : ℕ
  pub identity_key : Text
  pub rail_operator_name : Text
  pub operating_line_name : Text
  pub station_number : Text
  pub station_name : Text

-- the three codes of a station
pub record CodeKey : Type 0 where
  pub operator_code : Text
  pub line_code : Text
  pub station_code : Text

abbrev pub code_beq : CodeKey → CodeKey → Bool
code_beq a b =
    text_beq a.operator_code b.operator_code
    && (text_beq a.line_code b.line_code && text_beq a.station_code b.station_code)

pub code_beq_iff : (a b : CodeKey) → (code_beq a b ≡ true) ↔ (a ≡ b)
code_beq_iff a b = (
  λ h.
      let operator : text_beq a.operator_code b.operator_code ≡ true = ground (arith, h) in
      let line : text_beq a.line_code b.line_code ≡ true = ground (arith, h) in
      let station : text_beq a.station_code b.station_code ≡ true = ground (arith, h) in
      cc (
        (text_beq_iff a.operator_code b.operator_code).0 operator,
        (text_beq_iff a.line_code b.line_code).0 line,
        (text_beq_iff a.station_code b.station_code).0 station,
      ),
  λ e. rw e (
      ground (
        arith,
        (text_beq_iff b.operator_code b.operator_code).1 refl,
        (text_beq_iff b.line_code b.line_code).1 refl,
        (text_beq_iff b.station_code b.station_code).1 refl,
      )),
)

instance abbrev pub code_eq : Eq CodeKey
code_eq = record { beq = code_beq; beq_iff = code_beq_iff }

abbrev pub code_before : CodeKey → CodeKey → Bool
code_before a b =
    text_ltb a.operator_code b.operator_code
    || (text_beq a.operator_code b.operator_code
        && (text_ltb a.line_code b.line_code
            || (text_beq a.line_code b.line_code && text_ltb a.station_code b.station_code)))

unfoldable pub provider_key : KricStation → CodeKey
unfolding strip
provider_key row = record {
  operator_code = strip row.operator_code;
  line_code = strip row.line_code;
  station_code = strip row.station_code;
}

-- what two rows are compared by: names within one line of Korail, or operator, line and name
pub data MatchKey : Type 0 where
  kric_code_line : Text → MatchKey
  source_names : Text → Text → Text → MatchKey

abbrev pub match_beq : MatchKey → MatchKey → Bool
match_beq (kric_code_line a) (kric_code_line b) = text_beq a b
match_beq (source_names a b c) (source_names d e f) = text_beq a d && (text_beq b e && text_beq c f)
match_beq _ _ = false

-- the two ways in which Korail's Gyeongui-Jungang line is written
abbrev pub is_alias : Text → Text → Bool
is_alias operator line =
    (text_beq operator (codes "코레일") && text_beq line (codes "경의중앙선"))
    || (text_beq operator (codes "한국철도공사") && text_beq line (codes "경의중앙"))

abbrev pub match_key : Bool → Text → Text → Text → MatchKey
match_key allowed operator line name =
    if is_alias operator line && allowed
    then kric_code_line name
    else source_names operator line name

abbrev pub is_kr_k4 : CodeKey → Bool
is_kr_k4 k = text_beq k.operator_code (codes "KR") && text_beq k.line_code (codes "K4")

unfoldable pub code_match_key : KricStation → MatchKey
unfolding strip provider_key
code_match_key row =
    match_key (is_kr_k4 (provider_key row)) (strip row.operator_name) (strip row.line_name)
      (strip row.station_name)

unfoldable pub place_match_key : RailStation → MatchKey
unfolding strip
place_match_key row =
    match_key true (strip row.rail_operator_name) (strip row.operating_line_name)
      (strip row.station_name)

abbrev pub is_open : ℕ → Bool
is_open c = c == b'(' || c == 65288

abbrev pub is_close : ℕ → Bool
is_close c = c == b')' || c == 65289

-- `re.sub(r"[（(][^（）()]*[）)]", "", name)`: the text since an open bracket is held back until it is
-- closed, and is given back where another one opens or the text ends
abbrev pub drop_brackets : Option Text → Text → Text
drop_brackets none [] = []
drop_brackets (some held) [] = held
drop_brackets none (c ∷ s) =
    let held = drop_brackets (some (c ∷ [])) s in
    let plain = drop_brackets none s in if is_open c then held else c ∷ plain
drop_brackets (some held) (c ∷ s) =
    let closed = drop_brackets none s in
    let opened = drop_brackets (some (c ∷ [])) s in
    let more = drop_brackets (some (held ++ c ∷ [])) s in
    if is_close c then closed else if is_open c then held ++ opened else more

-- `name.removesuffix("역")`
abbrev pub without_last : ℕ → Text → Text
without_last c [] = []
without_last c (d ∷ s) = if d == c then s else d ∷ s

abbrev pub remove_suffix : ℕ → Text → Text
remove_suffix c s = backwards (without_last c (backwards s))

unfoldable pub normalized_station_name : (Text → Text) → Text → Text
unfolding strip backwards
normalized_station_name nfkc value =
    keep (λ c. not (is_space c))
      (remove_suffix 50669 (strip (drop_brackets none (nfkc (strip value)))))
