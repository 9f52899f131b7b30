-- ===== src/Router/Segment.antt =====
-- server/web/tree.go: `splitPath` and `splitSegment`, on texts of ASCII characters.
use beego.Common.{
  ◌≡◌, refl, ℕ, zero, suc, ltb, leb, Bool, true, false, not, ◌&&◌, ◌||◌, ◌==◌, if◌then◌else◌, List,
  [], ◌∷◌, ◌++◌, Text, text_eq, codes, split, holds,
}
use beego.Common.Paths.{trim, has_prefix}

abbrev pub is_empty {ℓ} : {A : Type ℓ} → List A → Bool
is_empty [] = true
is_empty (_ ∷ _) = false

unfoldable pub split_path : Text → List Text
split_path key =
    let key = trim (λ c. (c == b'/') || (c == b' ')) key in
    if is_empty key then [] else split b'/' key

pub record Segment : Type 0 where
  pub iswild : Bool
  pub params : List Text
  pub regexp_str : Text

-- The variables of the loop of `splitSegment`.
pub record Scan : Type 0 where
  pub params_num : ℕ
  pub out : Text
  pub start : Bool
  pub startexp : Bool
  pub param : Text
  pub expt : Text
  pub skipnum : ℕ
  pub params : List Text

abbrev pub is_word : ℕ → Bool
is_word v =
    (leb b'a' v && leb v b'z')
    || (leb b'A' v && leb v b'Z')
    || (leb b'0' v && leb v b'9')
    || (v == b'_')

-- A parameter that ends here, with the expression for its values, `skip` characters before the next.
abbrev end_param : Scan → Text → ℕ → Scan
end_param st expr skip = record st {
  params_num = suc st.params_num;
  out = st.out ++ expr;
  start = false;
  startexp = false;
  param = [];
  skipnum = skip;
  params = st.params ++ ((b':' ∷ st.param) ∷ []);
}

-- The rest of a round, where no name of a parameter is being read; `escaped` if a `\` stands before.
scan_plain : Bool → ℕ → Scan → Scan
scan_plain escaped v st =
    if st.startexp && not (v == b')')
    then record st { expt = st.expt ++ (v ∷ []) }
    else if escaped
    then record st { out = st.out ++ (v ∷ []) }
    else if v == b':'
    then record st { param = []; start = true }
    else if v == b'('
    then record st {
      startexp = true;
      start = false;
      params = if is_empty st.param then st.params else st.params ++ ((b':' ∷ st.param) ∷ []);
      param = [];
      params_num = suc st.params_num;
      expt = codes "(";
    }
    else if v == b')'
    then record st {
      startexp = false;
      expt = st.expt ++ codes ")";
      out = st.out ++ (st.expt ++ codes ")");
      param = [];
    }
    else if v == b'?'
    then record st { params = st.params ++ (codes ":" ∷ []) }
    else record st { out = st.out ++ (v ∷ []) }

-- A round at the character `v`, which the text `rest` follows.
unfoldable pub scan_step : Bool → ℕ → Text → Scan → Scan
unfolding scan_plain
scan_step escaped v rest st = elim st.skipnum [
  | suc n ↦ record st { skipnum = n }
  | zero ↦
      if st.start
      then if (v == b':') && has_prefix rest (codes "int")
        then end_param st (codes "([0-9]+)") 3
        else if (v == b':') && has_prefix rest (codes "string")
        then end_param st (codes "([\\w]+)") 6
        else if is_word v
        then record st { param = st.param ++ (v ∷ []) }
        else if v == b'('
        then scan_plain escaped v st
        else scan_plain escaped v (end_param st (codes "(.+)") 0)
      else scan_plain escaped v st
]

unfoldable pub scan : Bool → Text → Scan → Scan
scan escaped [] st = st
scan escaped (v ∷ rest) st = scan (v == b'\\') rest (scan_step escaped v rest st)

abbrev pub scan_start : Scan
scan_start = record {
  params_num = 0;
  out = [];
  start = false;
  startexp = false;
  param = [];
  expt = [];
  skipnum = 0;
  params = [];
}

-- What follows the loop.
unfoldable pub scan_end : Scan → Segment
scan_end st =
    if is_empty st.param
    then record { iswild = true; params = st.params; regexp_str = st.out }
    else record {
      iswild = true;
      params = st.params ++ ((b':' ∷ st.param) ∷ []);
      regexp_str = if ltb 0 st.params_num then st.out ++ codes "(.+)" else st.out;
    }

unfoldable pub split_segment : Text → Segment
split_segment key =
    if has_prefix key (codes "*")
    then if text_eq key (codes "*.*")
      then record {
        iswild = true;
        params = codes "." ∷ codes ":path" ∷ codes ":ext" ∷ [];
        regexp_str = [];
      }
      else record { iswild = true; params = codes ":splat" ∷ []; regexp_str = [] }
    else if holds b':' key
    then scan_end (scan false key scan_start)
    else record { iswild = false; params = []; regexp_str = [] }

segment_id : split_segment (codes ":id([0-9]+)_:name") ≡ record {
  iswild = true;
  params = codes ":id" ∷ codes ":name" ∷ [];
  regexp_str = codes "([0-9]+)_(.+)";
}
unfolding split_segment holds scan scan_step scan_end
segment_id = refl

segment_page : split_segment (codes "cms_:id_:page.html") ≡ record {
  iswild = true;
  params = codes ":id_" ∷ codes ":page" ∷ [];
  regexp_str = codes "cms_(.+)(.+).html";
}
unfolding split_segment holds scan scan_step scan_end
segment_page = refl

segment_optional :
    split_segment (codes "?:id")
    ≡ record { iswild = true; params = codes ":" ∷ codes ":id" ∷ []; regexp_str = [] }
unfolding split_segment holds scan scan_step scan_end
segment_optional = refl

segment_name :
    split_segment (codes ":name:string")
    ≡ record { iswild = true; params = codes ":name" ∷ []; regexp_str = codes "([\\w]+)" }
unfolding split_segment holds scan scan_step scan_end
segment_name = refl
