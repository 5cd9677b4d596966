-- ===== src/Mapping/Transactions/Shape.antt =====
-- What every dictionary that `map_transaction` of mapping.py returns looks like.
use algorandscout.Mapping.Amounts.{decimal_string}
use algorandscout.Mapping.Dates.{iso}
use algorandscout.Mapping.Transactions.{map_transaction}
use algorandscout.Mapping.Transactions.Frames.{
  Frame, transaction_fields, transaction_frame, value_decimal,
}
use algorandscout.Mapping.Transactions.Tables.{signature_type}
use algorandscout.Prelude.{
  All, Bool, List, String, Text, [], ap, arith, codes, false, if◌then◌else◌, inl, inr, length,
  length-map, map, refl, suc, true, zero, ℕ, ◌∷◌, ◌≡◌, ◌⊎◌,
}
use algorandscout.Python.{
  Fields, Platform, Result, Value, bool, get, list, nat, null, obj, ok, recursion_error, text,
  traverse,
}
use algorandscout.Python.Entries.{names}
use algorandscout.Python.Gives.{>>=-Gives, Gives, Gives-ok, if-Gives, ok-Gives, raise-Gives}

abbrev pub IsText : Value → Type 0
IsText v = (s : Text) × (v ≡ text s)

-- `str | None`
abbrev pub IsOptionalText : Value → Type 0
IsOptionalText v = (v ≡ null) ⊎ IsText v

pub null-IsOptionalText : IsOptionalText null
null-IsOptionalText = inl refl

pub text-IsOptionalText : (s : Text) → IsOptionalText (text s)
text-IsOptionalText s = inr (s, refl)

if-IsOptionalText :
    (b : Bool) (v w : Value)
    → IsOptionalText v
    → IsOptionalText w
    → IsOptionalText (if b then v else w)
if-IsOptionalText true v w h k = h
if-IsOptionalText false v w h k = k

pub ruleset typed =
    (>>=-Gives, ok-Gives, raise-Gives, if-Gives, null-IsOptionalText, text-IsOptionalText)

iso-IsOptionalText : (v : Value) → Gives IsOptionalText (iso v)
unfolding iso
iso-IsOptionalText null = search typed
iso-IsOptionalText v = search typed depth 8

module _ (P : Platform) where
  decimal_string-IsOptionalText :
      (v decimals : Value) → Gives IsOptionalText (decimal_string P v decimals)
  unfolding decimal_string
  decimal_string-IsOptionalText null decimals = search typed
  decimal_string-IsOptionalText v decimals = search typed depth 8

  value_decimal-IsOptionalText : (v w : Value) → Gives IsOptionalText (value_decimal P v w)
  unfolding value_decimal
  value_decimal-IsOptionalText v w = search (typed, decimal_string-IsOptionalText) depth 8

signature_type-IsOptionalText : (v : Value) → Gives IsOptionalText (signature_type v)
unfolding signature_type
signature_type-IsOptionalText v = search (typed, if-IsOptionalText) depth 16

-- What `transaction_frame` has typed.
record IsTyped (fr : Frame) : Type 0 where
  timestamp : IsOptionalText fr.timestamp
  decimal : IsOptionalText fr.decimal
  fee_decimal : IsOptionalText fr.fee_decimal
  signature : IsOptionalText fr.signature

iso-is_typed : (v : Value) {a : Value} → iso v ≡ ok a → IsOptionalText a
iso-is_typed v = Gives-ok IsOptionalText (iso-IsOptionalText v)

decimal_string-is_typed :
    (P : Platform) (v w : Value) {a : Value} → decimal_string P v w ≡ ok a → IsOptionalText a
decimal_string-is_typed P v w = Gives-ok IsOptionalText (decimal_string-IsOptionalText P v w)

value_decimal-is_typed :
    (P : Platform) (v w : Value) {a : Value} → value_decimal P v w ≡ ok a → IsOptionalText a
value_decimal-is_typed P v w = Gives-ok IsOptionalText (value_decimal-IsOptionalText P v w)

signature_type-is_typed : (v : Value) {a : Value} → signature_type v ≡ ok a → IsOptionalText a
signature_type-is_typed v = Gives-ok IsOptionalText (signature_type-IsOptionalText v)

frame-IsTyped :
    (fr : Frame)
    → IsOptionalText fr.timestamp
    → IsOptionalText fr.decimal
    → IsOptionalText fr.fee_decimal
    → IsOptionalText fr.signature
    → IsTyped fr
frame-IsTyped fr timestamp decimal fee_decimal signature = record {
  timestamp = timestamp;
  decimal = decimal;
  fee_decimal = fee_decimal;
  signature = signature;
}

ruleset frames = (
  >>=-Gives, ok-Gives, frame-IsTyped, iso-is_typed, decimal_string-is_typed, value_decimal-is_typed,
  signature_type-is_typed,
)

transaction_frame-IsTyped : (P : Platform) (tx : Fields) → Gives IsTyped (transaction_frame P tx)
unfolding transaction_frame
transaction_frame-IsTyped P tx = search frames depth 16

abbrev pub transaction_names : List String
transaction_names =
    "hash" ∷ "block_number" ∷ "timestamp" ∷ "timestamp_unix" ∷ "from" ∷ "to" ∷ "value"
    ∷ "value_decimal" ∷ "close" ∷ "closes_account" ∷ "value_total" ∷ "fee" ∷ "fee_decimal"
    ∷ "status" ∷ "method" ∷ "tx_type" ∷ "confirmations" ∷ "position" ∷ "note" ∷ "group" ∷ "rekey_to"
    ∷ "signature_type" ∷ "validity" ∷ "token_transfer" ∷ "created_asset_index"
    ∷ "created_application_index" ∷ "logs" ∷ "internal_transactions_count" ∷ "internal_transactions"
    ∷ "algorand" ∷ "gas_used" ∷ "gas_price" ∷ "gas_limit" ∷ "nonce" ∷ "revert_reason" ∷ []

-- One level of a mapped transaction: all its keys, each once, and the types of the values that the
-- mapper computes.
pub record HasShape (d : Fields) : Type 0 where
  pub named : names d ≡ transaction_names
  pub timestamp : IsOptionalText (get d "timestamp")
  pub value : IsText (get d "value")
  pub decimal : IsOptionalText (get d "value_decimal")
  pub value_total : IsText (get d "value_total")
  pub closes_account : (b : Bool) × (get d "closes_account" ≡ bool b)
  pub fee : IsText (get d "fee")
  pub fee_decimal : IsOptionalText (get d "fee_decimal")
  pub status : (get d "status" ≡ text (codes "ok")) ⊎ (get d "status" ≡ text (codes "pending"))
  pub signature : IsOptionalText (get d "signature_type")

-- A mapped transaction, its inner transactions nested less than `n` deep.
unfoldable pub IsTransaction : ℕ → Fields → Type 0
IsTransaction zero d = ⊥
IsTransaction (suc n) d =
    HasShape d
    × ((inner : List Fields) × (get d "internal_transactions" ≡ list (map obj inner))
        × (get d "internal_transactions_count" ≡ nat (length inner))
        × All (IsTransaction n) inner)

transaction_fields-HasShape :
    (P : Platform) (tx : Fields) (fr : Frame) (inner : List Value)
    → IsTyped fr
    → HasShape (transaction_fields P tx fr inner)
unfolding transaction_fields
transaction_fields-HasShape P tx fr inner typed = record {
  named = refl;
  timestamp = typed.timestamp;
  value = (_, refl);
  decimal = typed.decimal;
  value_total = (_, refl);
  closes_account = (_, refl);
  fee = (_, refl);
  fee_decimal = typed.fee_decimal;
  status = ground arith;
  signature = typed.signature;
}

cons-All : {A : Type 0} (Q : A → Type 0) (b : A) (bs : List A) → Q b → All Q bs → All Q (b ∷ bs)
cons-All Q b bs h k = (h, k)

traverse-Gives :
    {A B : Type 0} (Q : B → Type 0) (f : A → Result B) (l : List A)
    → ((a : A) → Gives Q (f a))
    → Gives (All Q) (traverse f l)
traverse-Gives Q f [] h = ok-Gives (All Q) [] tt
traverse-Gives Q f (x ∷ l) h =
    let first : (b : _) → f x ≡ ok b → Q b = λ b. Gives-ok Q (h x) in
    let rest : (bs : _) → traverse f l ≡ ok bs → All Q bs =
      λ bs. Gives-ok (All Q) (traverse-Gives Q f l h) in
    search (>>=-Gives, ok-Gives, cons-All, first, rest) depth 8

transaction_fields-IsTransaction :
    (P : Platform) (n : ℕ) (tx : Fields) (fr : Frame) (inner : List Fields)
    → IsTyped fr
    → All (IsTransaction n) inner
    → IsTransaction (suc n) (transaction_fields P tx fr (map obj inner))
unfolding IsTransaction transaction_fields
transaction_fields-IsTransaction P n tx fr inner typed all = (
  transaction_fields-HasShape P tx fr (map obj inner) typed,
  (inner, refl, ap nat (length-map inner obj), all),
)

maps : (P : Platform) (n : ℕ) (v : Value) → Gives (IsTransaction n) (map_transaction P n v)
unfolding map_transaction
maps P zero v = raise-Gives (IsTransaction zero) recursion_error
maps P (suc n) v =
    let typed : (tx : Fields) (fr : Frame) → transaction_frame P tx ≡ ok fr → IsTyped fr =
      λ tx fr. Gives-ok IsTyped (transaction_frame-IsTyped P tx) in
    let inner : (l : List Value) (ds : List Fields)
        → traverse (map_transaction P n) l ≡ ok ds
        → All (IsTransaction n) ds =
      λ l ds.
        Gives-ok (All (IsTransaction n))
          (traverse-Gives (IsTransaction n) (map_transaction P n) l (maps P n)) in
    search (>>=-Gives, ok-Gives, transaction_fields-IsTransaction, typed, inner) depth 10

-- For any JSON without floats that stands for a transaction, however deep it is nested, what
-- `map_transaction` returns has the same keys in the same order, amounts that are texts, a status
-- that is "ok" or "pending", times, decimals and a signature type that are texts or null, and a
-- count and a list of inner transactions that agree; and so does each of the inner transactions.
pub map_transaction-IsTransaction :
    (P : Platform) (n : ℕ) (v : Value) (d : Fields)
    → map_transaction P n v ≡ ok d
    → IsTransaction n d
unfolding Gives
map_transaction-IsTransaction P n v d e = maps P n v d e
