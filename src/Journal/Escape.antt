-- ===== src/Journal/Escape.antt =====
-- engine/journal.py: `_xml_escape`, over the code points of a text.
use mathlib.Core.List.{append_assoc}
use untangle.Base.{
  ℕ, ◌≡◌, ◌≢◌, refl, ap, sym, ◌∙◌, inl, inr, Bool, ◌&&◌, ◌||◌, Bool-cases, List, [], ◌∷◌, ◌++◌,
  filter, flat_map, All, All-append, leb, ◌==◌, if◌then◌else◌, arith,
}

-- What `_XML_ILLEGAL_RE` does not match.
unfoldable pub is_xml_char : ℕ → Bool
is_xml_char c =
    (c == 0x9)
    || ((c == 0xa)
        || ((c == 0xd)
            || ((leb 0x20 c && leb c 0xd7ff)
                || ((leb 0xe000 c && leb c 0xfffd) || (leb 0x10000 c && leb c 0x10ffff)))))

-- `text.replace(old, new)` for an old text of one character.
abbrev pub put : ℕ → List ℕ → ℕ → List ℕ
put old new c = if c == old then new else c ∷ []

unfoldable pub replace : ℕ → List ℕ → List ℕ → List ℕ
replace old new text = flat_map (put old new) text

abbrev pub amp : List ℕ
amp = b'&' ∷ b'a' ∷ b'm' ∷ b'p' ∷ b';' ∷ []

abbrev pub lt : List ℕ
lt = b'&' ∷ b'l' ∷ b't' ∷ b';' ∷ []

abbrev pub gt : List ℕ
gt = b'&' ∷ b'g' ∷ b't' ∷ b';' ∷ []

abbrev pub quot : List ℕ
quot = b'&' ∷ b'q' ∷ b'u' ∷ b'o' ∷ b't' ∷ b';' ∷ []

abbrev pub apos : List ℕ
apos = b'&' ∷ b'a' ∷ b'p' ∷ b'o' ∷ b's' ∷ b';' ∷ []

abbrev pub quote : ℕ
quote = 34

abbrev pub apostrophe : ℕ
apostrophe = 39

unfoldable pub xml_escape : List ℕ → List ℕ
unfolding replace is_xml_char
xml_escape text = replace apostrophe apos (
    replace quote quot
      (replace b'>' gt (replace b'<' lt (replace b'&' amp (filter is_xml_char text)))))

-- What the reader of the file takes for a character.
abbrev pub entity : ℕ → List ℕ
entity c =
    if c == b'&'
    then amp
    else if c == b'<'
    then lt
    else if c == b'>'
    then gt
    else if c == quote
    then quot
    else if c == apostrophe
    then apos
    else c ∷ []

replace-append :
    (old : ℕ) (new xs ys : List ℕ)
    → replace old new (xs ++ ys) ≡ replace old new xs ++ replace old new ys
unfolding replace
replace-append old new [] ys = refl
replace-append old new (x ∷ xs) ys =
    ap (λ t. put old new x ++ t) (replace-append old new xs ys)
    ∙ sym (append_assoc (put old new x) _ _)

abbrev rest_of : List ℕ → List ℕ
rest_of text = replace apostrophe apos (replace quote quot (replace b'>' gt (replace b'<' lt text)))

rest_of-append : (xs ys : List ℕ) → rest_of (xs ++ ys) ≡ rest_of xs ++ rest_of ys
rest_of-append xs ys =
    rw
      (
        replace-append b'<' lt xs ys,
        replace-append b'>' gt (replace b'<' lt xs) (replace b'<' lt ys),
        replace-append quote quot (replace b'>' gt (replace b'<' lt xs)) _,
        replace-append apostrophe apos (replace quote quot (replace b'>' gt (replace b'<' lt xs)))
            _,
      )
      refl

one_char : (c : ℕ) → rest_of (put b'&' amp c) ≡ entity c
unfolding replace
one_char c = elim (Bool-cases (c == b'&')) [
  | inl t ↦ rw t refl
  | inr f ↦ elim (Bool-cases (c == b'<')) [
    | inl t ↦ rw (f, t) refl
    | inr g ↦ elim (Bool-cases (c == b'>')) [
      | inl t ↦ rw (f, g, t) refl
      | inr h ↦ elim (Bool-cases (c == quote)) [
        | inl t ↦ rw (f, g, h, t) refl
        | inr i ↦ elim (Bool-cases (c == apostrophe)) [
          | inl t ↦ rw (f, g, h, i, t) refl
          | inr j ↦ rw (f, g, h, i, j) refl
        ]
      ]
    ]
  ]
]

escape_all : (text : List ℕ) → rest_of (replace b'&' amp text) ≡ flat_map entity text
unfolding replace
escape_all [] = refl
escape_all (c ∷ cs) =
    rest_of-append (put b'&' amp c) (replace b'&' amp cs)
    ∙ ap (λ t. t ++ rest_of (replace b'&' amp cs)) (one_char c)
    ∙ ap (λ t. entity c ++ t) (escape_all cs)

-- The five replacements one after the other put for every character its entity, each once: none of
-- them touches what another has written. Characters that XML does not allow are dropped.
pub xml_escape-flat_map :
    (text : List ℕ) → xml_escape text ≡ flat_map entity (filter is_xml_char text)
unfolding xml_escape
xml_escape-flat_map text = escape_all (filter is_xml_char text)

-- A character that markup could take for its own.
abbrev pub IsPlain : ℕ → Type 0
IsPlain c = (c ≢ b'<') × (c ≢ b'>') × (c ≢ quote) × (c ≢ apostrophe)

entity-IsPlain : (c : ℕ) → All IsPlain (entity c)
entity-IsPlain c = ground arith

entities-IsPlain : (text : List ℕ) → All IsPlain (flat_map entity text)
entities-IsPlain [] = tt
entities-IsPlain (c ∷ cs) = All-append IsPlain (entity c) _ (entity-IsPlain c) (entities-IsPlain cs)

-- An escaped text has no angle bracket and no quote, whatever the text was.
pub xml_escape-IsPlain : (text : List ℕ) → All IsPlain (xml_escape text)
xml_escape-IsPlain text = rw (xml_escape-flat_map text) (entities-IsPlain (filter is_xml_char text))
