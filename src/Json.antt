-- ===== src/Json.antt =====
-- `json.dumps(value, sort_keys=True, separators=(",", ":"), ensure_ascii=False)`, the text that the
-- program hashes.
pub mod Reading
use Prim.Native.Char.{Char, code}
use Prim.Native.String
use Prim.Native.String.{String}
use flop_proof_api.Base.{
  ◌≡◌, refl, ℕ, zero, suc, ◌+◌, ◌/◌, ◌%◌, Bool, true, false, List, [], ◌∷◌, map, ltb, ◌==◌,
  if◌then◌else◌,
}
use flop_proof_api.Value.{
  Value, null, bool, pos, negsuc, str, arr, obj, Items, nil, cons, Fields, end, field,
}

-- `s + t`, one character at a time
infixr 66 ◌+++◌
abbrev pub ◌+++◌ : String → String → String
String.[] +++ t = t
(String.◌∷◌ c s) +++ t = String.◌∷◌ c (s +++ t)

abbrev digit : ℕ → String
digit n =
    if n == 0
    then "0"
    else if n == 1
    then "1"
    else if n == 2
    then "2"
    else if n == 3
    then "3"
    else if n == 4
    then "4"
    else if n == 5
    then "5"
    else if n == 6
    then "6"
    else if n == 7
    then "7"
    else if n == 8
    then "8"
    else "9"

-- The decimal digits, on fuel: a number has at most as many as itself and one more.
decimal_from : ℕ → ℕ → String
decimal_from zero n = ""
decimal_from (suc fuel) n =
    let front = decimal_from fuel (n / 10) in if ltb n 10 then digit n else front +++ digit (n % 10)

abbrev decimal : ℕ → String
decimal n = decimal_from (suc n) n

pub hex_of : ℕ → String
hex_of n =
    if ltb n 10
    then digit n
    else if n == 10
    then "a"
    else if n == 11
    then "b"
    else if n == 12
    then "c"
    else if n == 13
    then "d"
    else if n == 14
    then "e"
    else "f"

-- `\u00..`
pub control : ℕ → String
control n = "\\u00" +++ hex_of (n / 16) +++ hex_of (n % 16)

-- The escapes that stay with `ensure_ascii=False`.
pub escape : Char → String
escape c =
    let n = code c in
    if n == 34
    then "\\\""
    else if n == 92
    then "\\\\"
    else if n == 10
    then "\\n"
    else if n == 13
    then "\\r"
    else if n == 9
    then "\\t"
    else if n == 8
    then "\\b"
    else if n == 12
    then "\\f"
    else if ltb n 32
    then control n
    else String.◌∷◌ c ""

pub escaped : String → String
escaped String.[] = ""
escaped (String.◌∷◌ c s) = escape c +++ escaped s

abbrev pub quoted : String → String
quoted s = "\"" +++ escaped s +++ "\""

-- The order of texts by code points.
unfoldable pub text_before : String → String → Bool
text_before String.[] s = true
text_before (String.◌∷◌ c r) String.[] = false
text_before (String.◌∷◌ c r) (String.◌∷◌ d s) =
    let rest = text_before r s in
    if ltb (code c) (code d) then true else if code c == code d then rest else false

insert_pair : String × String → List (String × String) → List (String × String)
insert_pair p [] = p ∷ []
insert_pair p (q ∷ pairs) =
    let rest = insert_pair p pairs in if text_before p.0 q.0 then p ∷ (q ∷ pairs) else q ∷ rest

sort_pairs : List (String × String) → List (String × String)
sort_pairs [] = []
sort_pairs (p ∷ pairs) = insert_pair p (sort_pairs pairs)

join_comma : List String → String
join_comma [] = ""
join_comma (s ∷ []) = s
join_comma (s ∷ (t ∷ rest)) = s +++ "," +++ join_comma (t ∷ rest)

abbrev entry : String × String → String
entry (key, value) = quoted key +++ ":" +++ value

unfoldable mutual
  unfolding decimal_from hex_of control escape escaped insert_pair sort_pairs join_comma text_before

  pub dumps : Value → String
  dumps null = "null"
  dumps (bool true) = "true"
  dumps (bool false) = "false"
  dumps (pos n) = decimal n
  dumps (negsuc n) = "-" +++ decimal (suc n)
  dumps (str s) = quoted s
  dumps (arr items) = "[" +++ join_comma (dump_items items) +++ "]"
  dumps (obj fields) = "{" +++ join_comma (map entry (sort_pairs (dump_fields fields))) +++ "}"

  pub dump_items : Items → List String
  dump_items nil = []
  dump_items (cons v items) = dumps v ∷ dump_items items

  pub dump_fields : Fields → List (String × String)
  dump_fields end = []
  dump_fields (field key v fields) = (key, dumps v) ∷ dump_fields fields

dumps_run :
    dumps (
      obj (
        field "b"
          (arr (cons (pos 120) (cons (negsuc 4) (cons (bool true) nil))))
          (field "a" (str "x\"|é\n") (field "" null end))))
    ≡ "{\"\":null,\"a\":\"x\\\"|é\\n\",\"b\":[120,-5,true]}"
unfolding dumps
dumps_run = refl
