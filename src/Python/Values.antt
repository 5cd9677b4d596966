-- ===== src/Python/Values.antt =====
-- A JSON document as the Python code sees it, with the dictionary and list operations it uses.
-- Numbers are integers: no field that the code computes with is a float.
use algorandscout.Prelude.{
  Bool, List, Option, String, Text, [], ap, false, if◌then◌else◌, is_nil, none, not, refl, some,
  str_eq, text_eq, true, ℕ, ◌==◌, ◌∷◌, ◌≡◌,
}
use algorandscout.Prelude.Int.{eq_ℤ, pos, ℤ}

mutual
  pub data Value : Type 0 where
    null : Value
    bool : Bool → Value
    num : ℤ → Value
    text : Text → Value
    obj : Fields → Value
    arr : Items → Value

  pub data Fields : Type 0 where
    end : Fields
    field : String → Value → Fields → Fields

  pub data Items : Type 0 where
    nil : Items
    cons : Value → Items → Items

-- Number literals.
abbrev pub nat : ℕ → Value
nat n = num (pos n)

-- A dictionary literal, its entries in the order written.
abbrev pub fields : List (String × Value) → Fields
fields [] = end
fields ((k, v) ∷ l) = field k v (fields l)

abbrev pub dict : List (String × Value) → Value
dict l = obj (fields l)

abbrev pub items : List Value → Items
items [] = nil
items (v ∷ l) = cons v (items l)

abbrev pub list : List Value → Value
list l = arr (items l)

abbrev pub elements : Items → List Value
elements nil = []
elements (cons v r) = v ∷ elements r

pub elements-items : (l : List Value) → elements (items l) ≡ l
elements-items [] = refl
elements-items (v ∷ l) = ap (◌∷◌ v) (elements-items l)

-- `d[k]` if it is there.
abbrev pub lookup : String → Fields → Option Value
lookup k end = none
lookup k (field j v r) = if str_eq j k then some v else lookup k r

abbrev pub or_default : Option Value → Value → Value
or_default none d = d
or_default (some v) d = v

-- `d.get(k, default)` and `d.get(k)` on a dictionary.
abbrev pub get_or : Fields → String → Value → Value
get_or d k default = or_default (lookup k d) default

abbrev pub get : Fields → String → Value
get d k = get_or d k null

-- `k in d`
abbrev pub has_key : Fields → String → Bool
has_key d k = elim (lookup k d) [ none ↦ false | some _ ↦ true ]

-- `d[k] = v`: an old key keeps its place, a new one goes to the end.
abbrev pub put : String → Value → Fields → Fields
put k v end = field k v end
put k v (field j w r) = if str_eq j k then field j v r else field j w (put k v r)

-- `bool(v)`
abbrev pub truthy : Value → Bool
truthy null = false
truthy (bool b) = b
truthy (num n) = not (eq_ℤ n (pos 0))
truthy (text s) = not (is_nil s)
truthy (arr nil) = false
truthy (arr (cons v r)) = true
truthy (obj end) = false
truthy (obj (field k v r)) = true

-- `v or w`
abbrev pub or_else : Value → Value → Value
or_else v w = if truthy v then v else w

abbrev pub is_null : Value → Bool
is_null null = true
is_null _ = false

-- `v == "..."`
abbrev pub is_text : Value → Text → Bool
is_text (text s) t = text_eq s t
is_text _ t = false

-- `v == n`: Python's `True` is 1 and `False` is 0.
abbrev pub is_num : Value → ℕ → Bool
is_num (num n) k = eq_ℤ n (pos k)
is_num (bool true) k = k == 1
is_num (bool false) k = k == 0
is_num _ k = false

abbrev pub of_option : Option Value → Value
of_option none = null
of_option (some v) = v

-- What a text option is in a response.
abbrev pub text_or_null : Option Text → Value
text_or_null none = null
text_or_null (some s) = text s

-- The integer that a value is in an equation or a sum; a `bool` is one too.
abbrev pub number : Value → Option ℤ
number (num n) = some n
number (bool true) = some (pos 1)
number (bool false) = some (pos 0)
number _ = none

abbrev pub same_number : Option ℤ → Option ℤ → Bool
same_number (some a) (some b) = eq_ℤ a b
same_number _ _ = false

-- `v == w`, where one of them may be a key of a dictionary.
abbrev pub key_match : Value → Value → Bool
key_match null null = true
key_match (text s) (text t) = text_eq s t
key_match v w = same_number (number v) (number w)
