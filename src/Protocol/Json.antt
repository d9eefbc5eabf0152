-- ===== src/Protocol/Json.antt =====
-- JSON values and the two canonical printers (canonicalStringify of session-reducer.ts, and its copy
-- stableStringify of connection/runner-connection.ts). A text is its list of code points. A number
-- is `whole`, or the text that JSON.stringify prints for it. The strings here have no lone surrogates,
-- which JSON.stringify would print in six characters each.
use harness_control_protocol.Base.{
  ℕ, zero, suc, ◌+◌, ◌-◌, ◌/◌, ◌%◌, String, Bool, true, false, List, [], ◌∷◌, ◌++◌, ltb, ◌==◌,
  if◌then◌else◌, nat_eq,
}
use harness_control_protocol.Base.Sort.{sort}
use harness_control_protocol.Base.Collation.{Collation, codes}

mutual
  pub data Json : Type 0 where
    null : Json
    boolean : Bool → Json
    whole : ℕ → Json
    number : String → Json
    text : String → Json
    arr : Items → Json
    obj : Fields → Json

  pub data Items : Type 0 where
    nil : Items
    cons : Json → Items → Items

  pub data Fields : Type 0 where
    end : Fields
    field : String → Json → Fields → Fields

-- The decimal digits, with fuel for each of them: a number has at most as many as its value plus one.
unfoldable pub decimal : ℕ → ℕ → List ℕ
decimal zero n = []
decimal (suc fuel) n =
    let more = decimal fuel (n / 10) ++ (b'0' + n % 10) ∷ [] in
    if ltb n 10 then (b'0' + n) ∷ [] else more

-- Of a number below 16.
hex_digit : ℕ → ℕ
hex_digit n = if ltb n 10 then b'0' + n else b'a' + (n - 10)

-- One code point inside the quotes of JSON.stringify.
escape : ℕ → List ℕ
unfolding hex_digit
escape c =
    if c == b'"'
    then codes "\\\""
    else if c == 0x5c
    then codes "\\\\"
    else if c == 8
    then codes "\\b"
    else if c == 9
    then codes "\\t"
    else if c == 10
    then codes "\\n"
    else if c == 12
    then codes "\\f"
    else if c == 13
    then codes "\\r"
    else if ltb c 32
    then codes "\\u00" ++ hex_digit (c / 16) ∷ hex_digit (c % 16) ∷ []
    else c ∷ []

escape_all : List ℕ → List ℕ
unfolding escape
escape_all [] = []
escape_all (c ∷ cs) = escape c ++ escape_all cs

-- JSON.stringify of a string.
quote : String → List ℕ
unfolding escape_all
quote s = b'"' ∷ (escape_all (codes s) ++ b'"' ∷ [])

join : List (List ℕ) → List ℕ
join [] = []
join (t ∷ []) = t
join (t ∷ u ∷ ts) = t ++ b',' ∷ join (u ∷ ts)

render_entries : List (String × List ℕ) → List (List ℕ)
unfolding quote
render_entries [] = []
render_entries ((key, t) ∷ rest) = (quote key ++ b':' ∷ t) ∷ render_entries rest

module _ (locale : Collation) where
  key_before : String × List ℕ → String × List ℕ → Bool
  key_before (left, _) (right, _) = locale.before left right

unfoldable mutual
  unfolding decimal quote join render_entries key_before sort

  pub canonical : Collation → Json → List ℕ
  canonical locale null = codes "null"
  canonical locale (boolean true) = codes "true"
  canonical locale (boolean false) = codes "false"
  canonical locale (whole n) = decimal (suc n) n
  canonical locale (number s) = codes s
  canonical locale (text s) = quote s
  canonical locale (arr xs) = b'[' ∷ (join (canonical_items locale xs) ++ b']' ∷ [])
  canonical locale (obj fs) =
      b'{'
      ∷ (join (render_entries (sort (key_before locale) (canonical_fields locale fs))) ++ b'}' ∷ [])

  pub canonical_items : Collation → Items → List (List ℕ)
  canonical_items locale nil = []
  canonical_items locale (cons x xs) = canonical locale x ∷ canonical_items locale xs

  pub canonical_fields : Collation → Fields → List (String × List ℕ)
  canonical_fields locale end = []
  canonical_fields locale (field key v fs) = (key, canonical locale v) ∷ canonical_fields locale fs

-- JSON.stringify, which keeps the order of the keys.
unfoldable mutual
  unfolding decimal quote join render_entries

  pub stringify : Json → List ℕ
  stringify null = codes "null"
  stringify (boolean true) = codes "true"
  stringify (boolean false) = codes "false"
  stringify (whole n) = decimal (suc n) n
  stringify (number s) = codes s
  stringify (text s) = quote s
  stringify (arr xs) = b'[' ∷ (join (stringify_items xs) ++ b']' ∷ [])
  stringify (obj fs) = b'{' ∷ (join (render_entries (stringify_fields fs)) ++ b'}' ∷ [])

  pub stringify_items : Items → List (List ℕ)
  stringify_items nil = []
  stringify_items (cons x xs) = stringify x ∷ stringify_items xs

  pub stringify_fields : Fields → List (String × List ℕ)
  stringify_fields end = []
  stringify_fields (field key v fs) = (key, stringify v) ∷ stringify_fields fs

-- Buffer.byteLength(text, "utf8")
unfoldable pub utf8_bytes : List ℕ → ℕ
utf8_bytes [] = 0
utf8_bytes (c ∷ cs) =
    (if ltb c 0x80 then 1 else if ltb c 0x800 then 2 else if ltb c 0x10000 then 3 else 4)
    + utf8_bytes cs
