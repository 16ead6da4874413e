-- ===== src/Canonical/Stringify.antt =====
-- JSON.stringify, without white space.
use hashira_be_railway_deplo.Base.{
  ℕ, ◌/◌, ◌%◌, Bool, true, false, ◌&&◌, [], ◌∷◌, ◌++◌, Text, str, ltb, leb, ◌==◌, if◌then◌else◌,
}
use hashira_be_railway_deplo.Base.Hex.{hex_digit}
use hashira_be_railway_deplo.Canonical.Values.{
  Json, Items, Fields, null, bool, num, string, arr, obj, nil, cons, end, field,
}

-- `\u` and four hexadecimal digits
unfoldable pub unicode_escape : ℕ → Text
unicode_escape c =
    92
    ∷ b'u'
    ∷ hex_digit (c / 4096)
    ∷ hex_digit (c / 256 % 16)
    ∷ hex_digit (c / 16 % 16)
    ∷ hex_digit (c % 16)
    ∷ []

-- One code unit that is no surrogate.
unfoldable pub escape_unit : ℕ → Text
unfolding unicode_escape
escape_unit c =
    if c == 8
    then 92 ∷ b'b' ∷ []
    else if c == 9
    then 92 ∷ b't' ∷ []
    else if c == 10
    then 92 ∷ b'n' ∷ []
    else if c == 12
    then 92 ∷ b'f' ∷ []
    else if c == 13
    then 92 ∷ b'r' ∷ []
    else if c == 34
    then 92 ∷ 34 ∷ []
    else if c == 92
    then 92 ∷ 92 ∷ []
    else if ltb c 32
    then unicode_escape c
    else c ∷ []

abbrev is_lead : ℕ → Bool
is_lead c = leb 0xd800 c && leb c 0xdbff

abbrev is_trail : ℕ → Bool
is_trail c = leb 0xdc00 c && leb c 0xdfff

-- A surrogate pair stays as it is; a surrogate that stands alone is escaped.
unfoldable pub escape : Text → Text
unfolding escape_unit
escape [] = []
escape (c ∷ []) =
    if is_lead c then unicode_escape c else if is_trail c then unicode_escape c else escape_unit c
escape (c ∷ d ∷ s) =
    let pair = c ∷ d ∷ escape s in
    let rest = escape (d ∷ s) in
    if is_lead c && is_trail d
    then pair
    else if is_lead c
    then unicode_escape c ++ rest
    else if is_trail c
    then unicode_escape c ++ rest
    else escape_unit c ++ rest

unfoldable pub quote : Text → Text
unfolding escape
quote s = 34 ∷ (escape s ++ 34 ∷ [])

abbrev bool_text : Bool → Text
bool_text true = str "true"
bool_text false = str "false"

unfoldable mutual
  pub stringify : Json → Text
  stringify null = str "null"
  stringify (bool b) = bool_text b
  stringify (num n) = n
  stringify (string s) = quote s
  stringify (arr xs) = b'[' ∷ stringify_items xs
  stringify (obj fs) = b'{' ∷ stringify_fields fs

  -- What follows the opening bracket.
  pub stringify_items : Items → Text
  stringify_items nil = str "]"
  stringify_items (cons x nil) = stringify x ++ str "]"
  stringify_items (cons x (cons y xs)) = stringify x ++ (b',' ∷ stringify_items (cons y xs))

  pub stringify_fields : Fields → Text
  stringify_fields end = str "}"
  stringify_fields (field k v end) = quote k ++ (b':' ∷ (stringify v ++ str "}"))
  stringify_fields (field k v (field j u fs)) =
      quote k ++ (b':' ∷ (stringify v ++ (b',' ∷ stringify_fields (field j u fs))))
