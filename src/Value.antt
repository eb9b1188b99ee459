-- ===== src/Value.antt =====
-- JSON values, as `json.loads` and the request models give them to the program. Floats are left out.
use Prim.Native.String.{String}
use text.Mathlib.Text.{◌==◌}
use flop_proof_api.Base.{
  ℕ, zero, suc, Bool, true, false, ◌&&◌, ◌≡◌, List, [], ◌∷◌, Option, none, some, if◌then◌else◌,
  ◌==◌ as nat_eq,
}

-- `negsuc n` is the integer -(n + 1).
mutual
  -- The keys and values of an object, in the order of the text.
  pub data Fields : Type 0 where
    end : Fields
    field : String → Value → Fields → Fields

  pub data Value : Type 0 where
    str : String → Value
    null : Value
    bool : Bool → Value
    obj : Fields → Value
    arr : Items → Value
    pos : ℕ → Value
    negsuc : ℕ → Value

  -- The items of a list.
  pub data Items : Type 0 where
    cons : Value → Items → Items
    nil : Items

pub str_inj : {s t : String} → str s ≡ str t → s ≡ t
str_inj h = cc

-- `value == text` for a text of the program
unfoldable pub is_text : Value → String → Bool
is_text (str s) text = s == text
is_text _ text = false

-- `value == n` for a natural number of the program; Python has True == 1 and False == 0.
unfoldable pub is_nat : Value → ℕ → Bool
is_nat (pos m) n = nat_eq m n
is_nat (bool true) n = nat_eq 1 n
is_nat (bool false) n = nat_eq 0 n
is_nat _ n = false

-- `payload.get(key)`, with the missing key apart
unfoldable pub find : String → Fields → Option Value
find key end = none
find key (field k v fields) = if k == key then some v else find key fields

-- The texts of a list; the program takes them only after every item was found to be one.
unfoldable pub texts : Items → List String
texts nil = []
texts (cons (str s) items) = s ∷ texts items
texts (cons _ items) = texts items

-- `len(items)`
unfoldable pub count_items : Items → ℕ
count_items nil = 0
count_items (cons v items) = suc (count_items items)

-- `all(p(item) for item in items)`
unfoldable pub all_items : (Value → Bool) → Items → Bool
all_items p nil = true
all_items p (cons v items) = p v && all_items p items

-- `event.get(key)`
unfoldable pub get : String → Fields → Value
unfolding find
get key fields = elim (find key fields) [ none ↦ null | some v ↦ v ]

unfoldable pub count_fields : Fields → ℕ
count_fields end = 0
count_fields (field k v fields) = suc (count_fields fields)

-- The number that Python takes a value for in `==`.
abbrev number_of : Value → Option ℕ
number_of (pos n) = some n
number_of (bool true) = some 1
number_of (bool false) = some 0
number_of _ = none

abbrev same_number : Option ℕ → Option ℕ → Bool
same_number (some m) (some n) = nat_eq m n
same_number _ _ = false

abbrev is_negsuc : ℕ → Value → Bool
is_negsuc n (negsuc m) = nat_eq n m
is_negsuc n _ = false

abbrev is_null : Value → Bool
is_null null = true
is_null _ = false

-- `a == b` of two JSON values; the keys of an object are taken to be distinct, and unordered.
unfoldable mutual
  unfolding find is_text count_fields

  pub same_value : Value → Value → Bool
  same_value null b = is_null b
  same_value (bool a) b = same_number (number_of (bool a)) (number_of b)
  same_value (pos a) b = same_number (some a) (number_of b)
  same_value (negsuc a) b = is_negsuc a b
  same_value (str a) b = is_text b a
  same_value (arr as') b = elim b [ arr bs ↦ same_items as' bs | _ ↦ false ]
  same_value (obj as') b = elim b [
    | obj bs ↦ nat_eq (count_fields as') (count_fields bs) && same_fields as' bs
    | _ ↦ false
  ]

  pub same_items : Items → Items → Bool
  same_items nil bs = elim bs [ nil ↦ true | cons _ _ ↦ false ]
  same_items (cons a as') bs = elim bs [
    | nil ↦ false
    | cons b bs' ↦ same_value a b && same_items as' bs'
  ]

  pub same_fields : Fields → Fields → Bool
  same_fields end bs = true
  same_fields (field k a as') bs = elim (find k bs) [
    | none ↦ false
    | some b ↦ same_value a b && same_fields as' bs
  ]

-- `bool(value)`
unfoldable pub truthy : Value → Bool
truthy null = false
truthy (bool b) = b
truthy (pos n) = elim n [ zero ↦ false | suc _ ↦ true ]
truthy (negsuc n) = true
truthy (str s) = elim s [ String.[] ↦ false | String.◌∷◌ _ _ ↦ true ]
truthy (arr items) = elim items [ nil ↦ false | cons _ _ ↦ true ]
truthy (obj fields) = elim fields [ end ↦ false | field _ _ _ ↦ true ]

-- `payload.get(key) if isinstance(payload, dict) else None`
unfoldable pub get_in : String → Value → Value
get_in key (obj fields) = get key fields
get_in key _ = null

abbrev pub is_object : Value → Bool
is_object (obj _) = true
is_object _ = false

-- A text or Python's None, as a JSON value.
abbrev pub text_or_null : Option String → Value
text_or_null none = null
text_or_null (some s) = str s
