-- ===== src/Attribution/Texts.antt =====
-- The work on texts that engine/packs.py and engine/evidence.py leave to `unicodedata`, `re` and the
-- methods of `str`, as parameters, and the tests on texts that the language has.
use Prim.Native.String.{String, len, slice, find as find_text, ◌++◌ as join_text}
use untangle.Base.{◌-◌, leb, Bool, ◌&&◌, List, [], ◌∷◌}
use untangle.Base.Int.{ℤ}
use untangle.Base.Keys.{◌=?◌, string_eq}

pub record Texts : Type 0 where
  -- `normalize_narration`, `str.lower` and `str.strip`
  pub normalize : String → String
  pub lower : String → String
  pub strip : String → String
  -- `[m.group(0) for m in _UTR.finditer(norm)]`
  pub utr_matches : String → List String
  -- `sorted({m.group(0) for m in _ALNUM.finditer(text)})`
  pub alnum_matches : String → List String
  -- `str(n)` and `repr(s)`
  pub show : ℤ → String
  pub quote : String → String
  -- `str(texts)` of a list
  pub show_list : List String → String
  -- whether a pattern stands in a text between spaces or the signs - _ / (the search of `match_rule`)
  pub keyword_in : String → String → Bool
  -- `re.search(r"settlement_utr\s+([a-z0-9]+)", detail, re.I)`, its group in lower case, or ""
  pub utr_of_detail : String → String

-- An f-string of its parts.
abbrev pub concat : List String → String
concat [] = ""
concat (s ∷ ss) = join_text s (concat ss)

-- `needle in s`: `find_text` gives a place past the end where there is none.
abbrev pub occurs : String → String → Bool
occurs needle s = leb (find_text s needle) (len s)

-- `s.endswith(t)`
abbrev pub ends_with : String → String → Bool
ends_with s t = leb (len t) (len s) && (slice s (len s - len t) (len s) =? t)
