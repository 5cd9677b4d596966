-- ===== src/Mapping/Transactions/Bounded.antt =====
-- Which steps of mapping.py can exceed the recursion limit: none but `map_transaction` itself.
use algorandscout.Mapping.Amounts.{decimal_string}
use algorandscout.Mapping.Dates.{iso}
use algorandscout.Mapping.Transactions.Frames.{Frame, transaction_frame, value_decimal}
use algorandscout.Mapping.Transactions.Movements.{
  close_payment, close_transfer, extract_close, extract_movement,
}
use algorandscout.Mapping.Transactions.Tables.{contains, detail_key, signature_type}
use algorandscout.Prelude.{All, Bool, List, [], arith, false, if◌then◌else◌, true, ◌∷◌}
use algorandscout.Python.{
  Exception, Fields, Platform, Result, Value, as_dict, as_int, as_list, attribute_error, ok, plus,
  raise, recursion_error, traverse, ◌>>=◌,
}

-- A run that did not reach the recursion limit.
unfoldable pub IsBounded {ℓ} : {A : Type ℓ} → Result A → Type 0
IsBounded (raise recursion_error) = ⊥
IsBounded _ = Unit

module _ {A : Type 0} {B : Type 0} where
  pub >>=-IsBounded :
      (m : Result A) (f : A → Result B)
      → IsBounded m
      → ((a : A) → IsBounded (f a))
      → IsBounded (m >>= f)
  unfolding IsBounded
  >>=-IsBounded (ok a) f h k = k a
  >>=-IsBounded (raise recursion_error) f h k = h
  >>=-IsBounded (raise e) f h k = tt

detail_key-IsBounded : (v : Value) → IsBounded (detail_key v)
unfolding IsBounded detail_key
detail_key-IsBounded v = ground arith

as_int-IsBounded : (v : Value) → IsBounded (as_int v)
unfolding IsBounded
as_int-IsBounded v = ground arith

decimal_string-IsBounded : (P : Platform) (v d : Value) → IsBounded (decimal_string P v d)
unfolding IsBounded decimal_string
decimal_string-IsBounded P v d = ground arith

iso-IsBounded : (v : Value) → IsBounded (iso v)
unfolding IsBounded iso
iso-IsBounded v = ground arith

extract_movement-IsBounded : (P : Platform) (t d : Value) → IsBounded (extract_movement P t d)
unfolding IsBounded extract_movement
extract_movement-IsBounded P t d = ground arith

signature_type-IsBounded : (v : Value) → IsBounded (signature_type v)
unfolding IsBounded signature_type contains
signature_type-IsBounded v = ground arith

pub ok-IsBounded : {A : Type 0} (a : A) → IsBounded (ok a)
unfolding IsBounded
ok-IsBounded a = tt

if-IsBounded :
    {A : Type 0} (b : Bool) (x y : Result A)
    → IsBounded x
    → IsBounded y
    → IsBounded (if b then x else y)
unfolding IsBounded
if-IsBounded true x y h k = h
if-IsBounded false x y h k = k

as_dict-IsBounded : (v : Value) → IsBounded (as_dict v)
unfolding IsBounded
as_dict-IsBounded v = ground arith

as_list-IsBounded : (v : Value) → IsBounded (as_list v)
unfolding IsBounded
as_list-IsBounded v = ground arith

plus-IsBounded : (v w : Value) → IsBounded (plus v w)
unfolding IsBounded
plus-IsBounded v w = ground arith

ruleset bounded = (
  ok-IsBounded, if-IsBounded, >>=-IsBounded, as_int-IsBounded, as_dict-IsBounded, as_list-IsBounded,
  plus-IsBounded, detail_key-IsBounded, decimal_string-IsBounded, iso-IsBounded,
  extract_movement-IsBounded, signature_type-IsBounded,
)

close_payment-IsBounded : (P : Platform) (d tx : Fields) → IsBounded (close_payment P d tx)
unfolding close_payment
close_payment-IsBounded P d tx = search bounded depth 12

close_transfer-IsBounded : (P : Platform) (d : Fields) → IsBounded (close_transfer P d)
unfolding close_transfer
close_transfer-IsBounded P d = search bounded

extract_close-IsBounded :
    (P : Platform) (t d : Value) (tx : Fields) → IsBounded (extract_close P t d tx)
unfolding extract_close
extract_close-IsBounded P t d tx =
    search (bounded, close_payment-IsBounded, close_transfer-IsBounded)

pub transaction_frame-IsBounded : (P : Platform) (tx : Fields) → IsBounded (transaction_frame P tx)
unfolding transaction_frame value_decimal
transaction_frame-IsBounded P tx = search (bounded, extract_close-IsBounded) depth 20

pub raise-IsBounded :
    (x : Exception) → IsBounded {A = Frame} (raise x) → IsBounded {A = Fields} (raise x)
unfolding IsBounded
raise-IsBounded recursion_error h = h
raise-IsBounded x h = tt

pub no_dict-IsBounded : IsBounded {A = Fields} (raise attribute_error)
unfolding IsBounded
no_dict-IsBounded = tt

pub traverse-IsBounded :
    {A B : Type 0} (f : A → Result B) (l : List A)
    → All (λ a. IsBounded (f a)) l
    → IsBounded (traverse f l)
traverse-IsBounded f [] h = ok-IsBounded []
traverse-IsBounded f (x ∷ l) (b, h) =
    >>=-IsBounded _ _ b
      (λ y. >>=-IsBounded _ _ (traverse-IsBounded f l h) (λ r. ok-IsBounded (y ∷ r)))
