-- ===== src/Policy/Json.antt =====
-- The values of a policy's `rules`, which are JSON (`Any` in services/policy_engine.py), and
-- Python's `str` and truth of them. Numbers are natural.
use auth_claw.Prelude.{
  Bool, List, Text, [], any, codes, false, if◌then◌else◌, is_empty, ltb, not, suc, text_eq, true,
  zero, ℕ, ◌%◌, ◌&&◌, ◌++◌, ◌+◌, ◌/◌, ◌==◌, ◌||◌, ◌∷◌,
}

mutual
  pub data Json : Type 0 where
    null : Json
    bool : Bool → Json
    int : ℕ → Json
    str : Text → Json
    arr : Items → Json
    obj : Fields → Json

  pub data Items : Type 0 where
    nil : Items
    cons : Json → Items → Items

  pub data Fields : Type 0 where
    end : Fields
    field : Text → Json → Fields → Fields

abbrev pub items : Items → List Json
items nil = []
items (cons v vs) = v ∷ items vs

abbrev pub fields : Fields → List (Text × Json)
fields end = []
fields (field k v fs) = (k, v) ∷ fields fs

abbrev pub Rules : Type 0
Rules = Fields

-- d.get(key), with None for a key that is not there
unfoldable pub get : Rules → Text → Json
get end key = null
get (field k v fs) key = if text_eq k key then v else get fs key

-- key in d
unfoldable pub has_key : Rules → Text → Bool
has_key end key = false
has_key (field k v fs) key = text_eq k key || has_key fs key

-- bool(value)
unfoldable pub truthy : Json → Bool
truthy null = false
truthy (bool b) = b
truthy (int n) = not (n == 0)
truthy (str t) = not (is_empty t)
truthy (arr nil) = false
truthy (arr (cons v vs)) = true
truthy (obj end) = false
truthy (obj (field k v fs)) = true

-- value or other
unfoldable pub or_else : Json → Json → Json
unfolding truthy
or_else v w = if truthy v then v else w

digits_from : ℕ → ℕ → Text → Text
digits_from zero n out = out
digits_from (suc fuel) n out =
    let more = digits_from fuel (n / 10) ((48 + n % 10) ∷ out) in if n == 0 then out else more

-- str(n): the fuel is one more than the number, which falls tenfold at each round
decimal : ℕ → Text
unfolding digits_from
decimal n = if n == 0 then 48 ∷ [] else digits_from (suc n) n []

hex_digit : ℕ → ℕ
hex_digit d = if ltb d 10 then 48 + d else 87 + d

escape : ℕ → ℕ → Text
unfolding hex_digit
escape quote c =
    if c == 92
    then 92 ∷ 92 ∷ []
    else if c == quote
    then 92 ∷ quote ∷ []
    else if c == 10
    then 92 ∷ b'n' ∷ []
    else if c == 13
    then 92 ∷ b'r' ∷ []
    else if c == 9
    then 92 ∷ b't' ∷ []
    else if ltb c 32 || (c == 127)
    then 92 ∷ b'x' ∷ hex_digit (c / 16) ∷ hex_digit (c % 16) ∷ []
    else c ∷ []

escape_all : ℕ → Text → Text
unfolding escape
escape_all quote [] = []
escape_all quote (c ∷ s) = escape quote c ++ escape_all quote s

quote_of : Text → ℕ
quote_of s = if any (λ c. c == 39) s && not (any (λ c. c == 34) s) then 34 else 39

repr_text : Text → Text
unfolding escape_all quote_of
repr_text s = quote_of s ∷ (escape_all (quote_of s) s ++ quote_of s ∷ [])

unfoldable mutual
  unfolding codes decimal repr_text

  pub repr : Json → Text
  repr null = codes "None"
  repr (bool true) = codes "True"
  repr (bool false) = codes "False"
  repr (int n) = decimal n
  repr (str t) = repr_text t
  repr (arr vs) = b'[' ∷ repr_items vs
  repr (obj fs) = b'{' ∷ repr_fields fs

  pub repr_items : Items → Text
  repr_items nil = b']' ∷ []
  repr_items (cons v nil) = repr v ++ b']' ∷ []
  repr_items (cons v (cons w vs)) = repr v ++ codes ", " ++ repr_items (cons w vs)

  pub repr_fields : Fields → Text
  repr_fields end = b'}' ∷ []
  repr_fields (field k v end) = repr_text k ++ codes ": " ++ repr v ++ b'}' ∷ []
  repr_fields (field k v (field j w fs)) =
      repr_text k ++ codes ": " ++ repr v ++ codes ", " ++ repr_fields (field j w fs)

-- str(value)
unfoldable pub py_str : Json → Text
unfolding repr
py_str (str t) = t
py_str v = repr v

-- isinstance(value, str)
abbrev pub is_str : Json → Bool
is_str (str t) = true
is_str _ = false
