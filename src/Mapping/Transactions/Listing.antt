-- ===== src/Mapping/Transactions/Listing.antt =====
-- The pages of `map_transaction_list` of mapping.py.
use algorandscout.Mapping.Pages.{listed, page, page-Pairs}
use algorandscout.Mapping.Transactions.{list_entry, map_transaction, map_transaction_list}
use algorandscout.Mapping.Transactions.Frames.{Frame, transaction_fields}
use algorandscout.Mapping.Transactions.Shape.{
  HasShape, IsTransaction, map_transaction-IsTransaction,
}
use algorandscout.Prelude.{
  List, String, false, inl, inr, refl, str_eq, suc, true, zero, ℕ, ◌||◌, ◌∙◌, ◌≡◌, ◌⊎◌,
}
use algorandscout.Prelude.Int.{max_zero, ℤ, ◌-ℤ◌}
use algorandscout.Python.{
  Fields, Platform, Value, as_int, get, has_key, is_null, null, num, obj, ok, put, recursion_error,
}
use algorandscout.Python.Entries.{get-put_other, get-put_same, names-put}
use algorandscout.Python.Gives.{
  >>=-Gives, Gives, Gives-ok, Pairs, ok-Gives, raise-Gives, test-Gives,
}

-- What an item says of its confirmations, for the tip of the chain and the round of the transaction:
-- nothing if one of them is not known, and else how far the tip is beyond the round, but not less
-- than zero.
abbrev pub HasConfirmations : Value → Value → Value → Type 0
HasConfirmations tip round v =
    ((v ≡ null) × ((is_null tip || is_null round) ≡ true))
    ⊎ ((t r : ℤ) × (as_int tip ≡ ok t) × (as_int round ≡ ok r) × (v ≡ num (max_zero (t -ℤ r))))

module _ (P : Platform) (n : ℕ) (tip : Value) where
  -- The item of a transaction: what `map_transaction` makes of it, but for the confirmations.
  abbrev pub IsItem : Value → Value → Type 0
  IsItem tx v =
      (m d : Fields) × (map_transaction P n tx ≡ ok m)
      × (v ≡ obj d)
      × IsTransaction n d
      × ((k : String) → str_eq "confirmations" k ≡ false → get d k ≡ get m k)
      × HasConfirmations tip (get m "block_number") (get d "confirmations")

abbrev IsUnconfirmed : Fields → Type 0
IsUnconfirmed d = (has_key d "confirmations" ≡ true) × (get d "confirmations" ≡ null)

transaction_fields-IsUnconfirmed :
    (P : Platform) (tx : Fields) (fr : Frame) (inner : List Value)
    → IsUnconfirmed (transaction_fields P tx fr inner)
unfolding transaction_fields
transaction_fields-IsUnconfirmed P tx fr inner = (refl, refl)

map_transaction-IsUnconfirmed :
    (P : Platform) (n : ℕ) (v : Value) → Gives IsUnconfirmed (map_transaction P n v)
unfolding map_transaction
map_transaction-IsUnconfirmed P zero v = raise-Gives IsUnconfirmed recursion_error
map_transaction-IsUnconfirmed P (suc n) v =
    search (>>=-Gives, ok-Gives, transaction_fields-IsUnconfirmed) depth 10

put-HasShape :
    (v : Value) (d : Fields)
    → has_key d "confirmations" ≡ true
    → HasShape d
    → HasShape (put "confirmations" v d)
put-HasShape v d there shape =
    let other : (j : String)
        → str_eq "confirmations" j ≡ false
        → get (put "confirmations" v d) j ≡ get d j =
      λ j. get-put_other "confirmations" j v d in
    record {
      named = names-put "confirmations" v d there ∙ shape.named;
      timestamp = rw (other "timestamp" refl) shape.timestamp;
      value = rw (other "value" refl) shape.value;
      decimal = rw (other "value_decimal" refl) shape.decimal;
      value_total = rw (other "value_total" refl) shape.value_total;
      closes_account = rw (other "closes_account" refl) shape.closes_account;
      fee = rw (other "fee" refl) shape.fee;
      fee_decimal = rw (other "fee_decimal" refl) shape.fee_decimal;
      status = rw (other "status" refl) shape.status;
      signature = rw (other "signature_type" refl) shape.signature;
    }

put-IsTransaction :
    (n : ℕ) (v : Value) (d : Fields)
    → has_key d "confirmations" ≡ true
    → IsTransaction n d
    → IsTransaction n (put "confirmations" v d)
unfolding IsTransaction
put-IsTransaction zero v d there h = h
put-IsTransaction (suc n) v d there (shape, (inner, e, count, all)) = (
  put-HasShape v d there shape,
  (
    inner,
    get-put_other "confirmations" "internal_transactions" v d refl ∙ e,
    get-put_other "confirmations" "internal_transactions_count" v d refl ∙ count,
    all,
  ),
)

module _ (P : Platform) (n : ℕ) (tip tx : Value) (m : Fields)
    (e : map_transaction P n tx ≡ ok m) where
  as_mapped : (is_null tip || is_null (get m "block_number")) ≡ true → IsItem P n tip tx (obj m)
  as_mapped unknown = (
    m,
    m,
    e,
    refl,
    map_transaction-IsTransaction P n tx m e,
    (λ k h. refl),
    inl ((Gives-ok IsUnconfirmed (map_transaction-IsUnconfirmed P n tx) e).1, unknown),
  )

  as_filled :
      (t r : ℤ)
      → as_int tip ≡ ok t
      → as_int (get m "block_number") ≡ ok r
      → IsItem P n tip tx (obj (put "confirmations" (num (max_zero (t -ℤ r))) m))
  as_filled t r te re =
      let v = num (max_zero (t -ℤ r)) in
      let there = (Gives-ok IsUnconfirmed (map_transaction-IsUnconfirmed P n tx) e).0 in
      (
        m,
        put "confirmations" v m,
        e,
        refl,
        put-IsTransaction n v m there (map_transaction-IsTransaction P n tx m e),
        (λ k h. get-put_other "confirmations" k v m h),
        inr (t, r, te, re, get-put_same "confirmations" v m),
      )

list_entry-IsItem :
    (P : Platform) (n : ℕ) (tip tx : Value) → Gives (IsItem P n tip tx) (list_entry P n tip tx)
unfolding list_entry
list_entry-IsItem P n tip tx =
    search (>>=-Gives, ok-Gives, test-Gives, as_mapped, as_filled) depth 16

-- Every page that `map_transaction_list` returns has, for the transactions that were sent, one item
-- each in the same order: what `map_transaction` makes of it, complete and typed as it is, but for
-- the confirmations. These are null while the tip of the chain or the round is not known, and else
-- the distance from the round to the tip, and never negative.
pub map_transaction_list-IsItem :
    (P : Platform) (n : ℕ) (payload : Fields) (tip p : Value)
    → map_transaction_list P n payload tip ≡ ok p
    → (txs items : List Value) × (listed payload "transactions" ≡ ok txs)
      × (p ≡ page items payload)
      × Pairs (IsItem P n tip) txs items
unfolding map_transaction_list
map_transaction_list-IsItem P n payload tip p h =
    page-Pairs (IsItem P n tip) (list_entry P n tip) payload "transactions" p
      (list_entry-IsItem P n tip) h
