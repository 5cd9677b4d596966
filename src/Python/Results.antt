-- ===== src/Python/Results.antt =====
-- Raised exceptions as values, and the operations on JSON values that may raise.
use algorandscout.Prelude.{
  Bool, List, Option, Text, [], false, inl, inr, length, refl, suc, true, ℕ, ◌++◌, ◌∷◌, ◌≡◌, ◌⊎◌,
}
use algorandscout.Prelude.Int.{pos, ℤ, ◌+ℤ◌}
use algorandscout.Python.Values.{
  Fields, Value, arr, bool, elements, end, field, items, num, obj, text,
}

-- client.py: `AlgorandError`, with `not_found` for its subclass `NotFound`.
pub record AlgorandError : Type 0 where
  pub message : Text
  pub status : Option ℕ
  pub url : Text
  pub not_found : Bool

-- `timestamp_error` stands for the `OverflowError`, `ValueError` or `OSError` that `fromtimestamp`
-- raises out of range: which one depends on the platform.
pub data Exception : Type 0 where
  attribute_error type_error value_error key_error timestamp_error recursion_error : Exception
  validation_error : Text → Exception
  algorand_error : AlgorandError → Exception
  http_exception : ℕ → Text → Exception

-- What a call returns, or the exception it raises.
pub data Result {ℓ} (T : Type ℓ) : Type ℓ where
  ok : T → Result T
  raise : Exception → Result T

pub Result-cases {ℓ} :
    {T : Type ℓ} (r : Result T) → ((t : T) × (r ≡ ok t)) ⊎ ((e : Exception) × (r ≡ raise e))
Result-cases (raise e) = inr (e, refl)
Result-cases (ok t) = inl (t, refl)

-- The next statement runs only if the one before it raised nothing.
infixl 5 ◌>>=◌
abbrev pub ◌>>=◌ {κ ℓ} : {S : Type κ} {T : Type ℓ} → Result S → (S → Result T) → Result T
raise e >>= next = raise e
ok s >>= next = next s

-- Both statements of a block that returned have returned.
pub >>=-eq-ok {κ ℓ} :
    {S : Type κ} {T : Type ℓ} {t : T} (r : Result S) (next : S → Result T)
    → (r >>= next) ≡ ok t
    → (s : S) × (r ≡ ok s) × (next s ≡ ok t)
>>=-eq-ok (raise e) next returned = cc
>>=-eq-ok (ok s) next returned = (s, refl, returned)

-- Whatever `.get` is called on must be a dictionary.
abbrev pub as_dict : Value → Result Fields
as_dict (obj d) = ok d
as_dict _ = raise attribute_error

-- A `for` loop over a value: text and dictionaries iterate over characters and keys, which no loop
-- of the program can use, as it calls `.get` on each element.
abbrev pub as_list : Value → Result (List Value)
as_list (arr r) = ok (elements r)
as_list (text []) = ok []
as_list (text (c ∷ s)) = raise attribute_error
as_list (obj end) = ok []
as_list (obj _) = raise attribute_error
as_list _ = raise type_error

-- Ordering and arithmetic against an integer: a `bool` is an integer too.
abbrev pub as_int : Value → Result ℤ
as_int (num n) = ok n
as_int (bool true) = ok (pos 1)
as_int (bool false) = ok (pos 0)
as_int _ = raise type_error

abbrev pub count_fields : Fields → ℕ
count_fields end = 0
count_fields (field k v r) = suc (count_fields r)

-- `len(v)`
abbrev pub len : Value → Result ℕ
len (arr r) = ok (length (elements r))
len (obj d) = ok (count_fields d)
len (text s) = ok (length s)
len _ = raise type_error

-- `v + w`: integers add up, texts and lists are joined.
abbrev pub plus : Value → Value → Result Value
plus (text s) (text t) = ok (text (s ++ t))
plus (arr r) (arr q) = ok (arr (items (elements r ++ elements q)))
plus v w = do a ← as_int v; b ← as_int w; ok (num (a +ℤ b))

abbrev pub traverse {ℓ κ} : {A : Type ℓ} {B : Type κ} → (A → Result B) → List A → Result (List B)
traverse f [] = ok []
traverse f (x ∷ l) = do y ← f x; r ← traverse f l; ok (y ∷ r)
