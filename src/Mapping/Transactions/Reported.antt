-- ===== src/Mapping/Transactions/Reported.antt =====
-- What the dictionary that `map_transaction` of mapping.py returns says of the transaction.
use mathlib.Core.Path.{subst}
use algorandscout.Mapping.Dates.{iso}
use algorandscout.Mapping.Holdings.{IsExact, decimal_read_back}
use algorandscout.Mapping.Transactions.{map_transaction}
use algorandscout.Mapping.Transactions.Framed.{FrameOf, map_transaction-steps}
use algorandscout.Mapping.Transactions.Frames.{Frame, transaction_fields, value_decimal}
use algorandscout.Mapping.Transactions.Movements.{Close, Movement, extract_movement, value_text}
use algorandscout.Mapping.Transactions.Tables.{detail_key, detail_key_of}
use algorandscout.Prelude.{
  All, Bool-cases, List, Option, String, Text, [], ap, arith, codes, false, if◌then◌else◌, inl, inr,
  length, length-map, map, none, refl, some, suc, sym, text_eq, text_eq_iff, true, zero, ℕ, ◌∷◌,
  ◌≡◌, ◌≢◌, ◌⊎◌,
}
use algorandscout.Python.{
  >>=-eq-ok, Fields, Platform, Result, Value, as_dict, as_list, bool, dict, get, get_or, is_text,
  list, nat, null, obj, ok, or_else, recursion_error, str, text, truthy,
}
use algorandscout.Python.Decimal.{digits, str_ℕ, str_ℤ}
use algorandscout.Python.Gives.{
  >>=-Gives, Gives, Gives-ok, Pairs, if-Gives, ok-Gives, raise-Gives, traverse-Pairs,
}
use algorandscout.Service.Confirmations.{confirmed}

-- The entries that are passed on as they are, with the names they have in the transaction.
abbrev pub copied_names : List (String × String)
copied_names =
    ("hash", "id")
    ∷ ("block_number", "confirmed-round")
    ∷ ("timestamp_unix", "round-time")
    ∷ ("tx_type", "tx-type")
    ∷ ("position", "intra-round-offset")
    ∷ ("note", "note")
    ∷ ("group", "group")
    ∷ ("created_asset_index", "created-asset-index")
    ∷ ("created_application_index", "created-application-index")
    ∷ ("logs", "logs")
    ∷ []

-- The receiver, if there is one.
abbrev pub IsReceiver : Value → Value → Type 0
IsReceiver receiver to =
    ((truthy receiver ≡ true) × (to ≡ dict (("hash", receiver) ∷ [])))
    ⊎ ((truthy receiver ≡ false) × (to ≡ null))

-- The total of a transaction without a close is its value. A close has a total of its own.
abbrev pub IsTotal : Fields → Type 0
IsTotal d =
    ((get d "close" ≡ null)
      × (get d "value_total" ≡ get d "value")
      × (get d "closes_account" ≡ bool false))
    ⊎ ((close : Fields) × (get d "close" ≡ obj close)
        × (get close "value_total" ≡ get d "value_total")
        × (get close "closes_account" ≡ get d "closes_account"))

abbrev pub IsStatus : Value → Value → Type 0
IsStatus confirmed status =
    ((truthy confirmed ≡ true) × (status ≡ text (codes "ok")))
    ⊎ ((truthy confirmed ≡ false) × (status ≡ text (codes "pending")))

module _ (P : Platform) where
  -- An amount as a text and as a decimal number of algos.
  abbrev pub IsAmount : Value → Value → Value → Type 0
  IsAmount amount value decimal =
      ((amount ≡ null) × (value ≡ text (codes "0")) × (decimal ≡ null))
      ⊎ ((amount ≢ null) × (value ≡ text (str P amount)) × IsExact amount (nat 6) decimal)

  -- The value of a payment is its amount. No other transaction moves algos.
  abbrev pub IsValued : Fields → Fields → Type 0
  IsValued tx d =
      ((get tx "tx-type" ≡ text (codes "pay"))
        × ((payment : Fields) × (as_dict
                (or_else (get_or tx "payment-transaction" (dict [])) (dict []))
              ≡ ok payment)
            × IsReceiver (get payment "receiver") (get d "to")
            × IsAmount (get_or payment "amount" (nat 0)) (get d "value") (get d "value_decimal")))
      ⊎ ((get tx "tx-type" ≢ text (codes "pay"))
          × (get d "value" ≡ text (codes "0"))
          × (get d "value_decimal" ≡ null))

  -- One level of a report on a transaction.
  pub record IsReported (tx d : Fields) : Type 0 where
    pub copied : All (λ p. get d p.0 ≡ get tx p.1) copied_names
    pub sender : get d "from" ≡ dict (("hash", get tx "sender") ∷ [])
    pub timestamp : iso (get tx "round-time") ≡ ok (get d "timestamp")
    pub status : IsStatus (get tx "confirmed-round") (get d "status")
    pub fee : get d "fee" ≡ text (str P (get_or tx "fee" (nat 0)))
    pub fee_decimal : IsExact (get_or tx "fee" (nat 0)) (nat 6) (get d "fee_decimal")
    pub valued : IsValued tx d
    pub total : IsTotal d

  -- A report on a transaction and, in order, on each of its inner transactions, which are nested less
  -- than `n` deep.
  abbrev pub Reports : ℕ → Value → Fields → Type 0
  Reports zero v d = ⊥
  Reports (suc n) v d =
      (tx : Fields) × (v ≡ obj tx)
      × IsReported tx d
      × ((txs : List Value) × (inner : List Fields) × (as_list
              (or_else (get_or tx "inner-txns" (list [])) (list []))
            ≡ ok txs)
          × (get d "internal_transactions" ≡ list (map obj inner))
          × (get d "internal_transactions_count" ≡ nat (length inner))
          × Pairs (Reports n) txs inner)

  status-IsStatus :
      (confirmed : Value)
      → IsStatus confirmed (text (if truthy confirmed then codes "ok" else codes "pending"))
  status-IsStatus confirmed = elim (Bool-cases (truthy confirmed)) [
    | inl e ↦ inl (e, rw e refl)
    | inr e ↦ inr (e, rw e refl)
  ]

  dict_or_null-IsReceiver :
      (v : Value) → IsReceiver v (if truthy v then dict (("hash", v) ∷ []) else null)
  dict_or_null-IsReceiver v = elim (Bool-cases (truthy v)) [
    | inl e ↦ inl (e, rw e refl)
    | inr e ↦ inr (e, rw e refl)
  ]

  fields-IsTotal :
      (tx : Fields) (fr : Frame) (inner : List Value) (o : Option Close)
      → fr.close ≡ o
      → IsTotal (transaction_fields P tx fr inner)
  unfolding transaction_fields
  fields-IsTotal tx fr inner none e = rw e (inl (refl, refl, refl))
  fields-IsTotal tx fr inner (some c) e = elim (Bool-cases c.closes_asset_holding) [
    | inl b ↦ rw (e, b) (inr (_, refl, refl, refl))
    | inr b ↦ rw (e, b) (inr (_, refl, refl, refl))
  ]

  is_text-eq : (v : Value) (s : Text) → is_text v s ≡ true → v ≡ text s
  is_text-eq (text t) s h = ap text ((text_eq_iff t s).0 h)
  is_text-eq _ s h = cc

  is_text-ne : (v : Value) (s : Text) → is_text v s ≡ false → v ≢ text s
  is_text-ne v s h e =
      let same : text_eq s s ≡ true = (text_eq_iff s s).1 refl in
      let other : text_eq s s ≡ false = rw e at h in cc

  zero_printed : value_text P (nat 0) ≡ codes "0"
  unfolding value_text str_ℤ str_ℕ digits
  zero_printed = refl

  else-Gives :
      {A : Type 0} (Q : A → Type 0) (x y : Result A) → Gives Q y → Gives Q (if false then x else y)
  else-Gives Q x y h = h

  extract_movement-zero :
      (type detail : Value)
      → is_text type (codes "pay") ≡ false
      → Gives (λ m. m.value ≡ nat 0) (extract_movement P type detail)
  unfolding extract_movement
  extract_movement-zero type detail h =
      rw h (search (else-Gives, >>=-Gives, ok-Gives, if-Gives) depth 16)

  value_decimal-IsAmount :
      (v : Value) {decimal : Value}
      → value_decimal P (text (codes "pay")) v ≡ ok decimal
      → IsAmount v (text (value_text P v)) decimal
  unfolding value_decimal value_text
  value_decimal-IsAmount null h = inl (refl, refl, ground arith)
  value_decimal-IsAmount v h = inr (λ e. cc, refl, decimal_read_back P v (nat 6) h)

  pub pay_key :
      (key : String) → detail_key (text (codes "pay")) ≡ ok key → key ≡ "payment-transaction"
  unfolding detail_key detail_key_of
  pay_key key h = ground arith

  pub pay_movement :
      (detail : Value) (m : Movement)
      → extract_movement P (text (codes "pay")) detail ≡ ok m
      → (d : Fields) × (as_dict detail ≡ ok d)
        × (m.counterparty ≡ get d "receiver")
        × (m.value ≡ get_or d "amount" (nat 0))
  unfolding extract_movement
  pay_movement detail m h =
      let (d, e, k) = >>=-eq-ok (as_dict detail) _ h in (d, e, ground arith, ground arith)

  no_decimal :
      (type v : Value) {decimal : Value}
      → is_text type (codes "pay") ≡ false
      → value_decimal P type v ≡ ok decimal
      → decimal ≡ null
  unfolding value_decimal
  no_decimal type v h e = ground arith

  fields-IsValued :
      (tx : Fields) (fr : Frame) (inner : List Value)
      → FrameOf P tx fr
      → IsValued tx (transaction_fields P tx fr inner)
  unfolding transaction_fields Gives
  fields-IsValued tx fr inner of_tx = elim (Bool-cases (is_text (get tx "tx-type") (codes "pay"))) [
    | inl pays ↦
        let type = is_text-eq (get tx "tx-type") (codes "pay") pays in
        let (d, e, to, amount) = pay_movement fr.detail fr.movement (rw type at of_tx.movement) in
        let key = pay_key fr.key (rw type at of_tx.key) in
        inl (
          type,
          (
            d,
            rw (← key, ← of_tx.detail) e,
            rw (← to) (dict_or_null-IsReceiver fr.movement.counterparty),
            rw (← amount) (value_decimal-IsAmount fr.movement.value (rw type at of_tx.decimal)),
          ),
        )
    | inr other ↦
        let zero_value =
          extract_movement-zero (get tx "tx-type") fr.detail other fr.movement of_tx.movement in
        inr (
          is_text-ne (get tx "tx-type") (codes "pay") other,
          rw zero_value (ap text zero_printed),
          no_decimal (get tx "tx-type") fr.movement.value other of_tx.decimal,
        )
  ]

  fields-IsReported :
      (tx : Fields) (fr : Frame) (inner : List Value)
      → FrameOf P tx fr
      → IsReported tx (transaction_fields P tx fr inner)
  unfolding transaction_fields
  fields-IsReported tx fr inner of_tx = record {
    copied = (refl, (refl, (refl, (refl, (refl, (refl, (refl, (refl, (refl, (refl, tt))))))))));
    sender = refl;
    timestamp = of_tx.timestamp;
    status = status-IsStatus (get tx "confirmed-round");
    fee = refl;
    fee_decimal = decimal_read_back P (get_or tx "fee" (nat 0)) (nat 6) of_tx.fee_decimal;
    valued = fields-IsValued tx fr inner of_tx;
    total = fields-IsTotal tx fr inner fr.close refl;
  }

  fields-Reports :
      (n : ℕ) (tx : Fields) (fr : Frame) (mapped : List Fields)
      → FrameOf P tx fr
      → Pairs (Reports n) fr.inner mapped
      → Reports (suc n) (obj tx) (transaction_fields P tx fr (map obj mapped))
  unfolding transaction_fields
  fields-Reports n tx fr mapped of_tx inner = (
    tx,
    refl,
    fields-IsReported tx fr (map obj mapped) of_tx,
    (fr.inner, mapped, of_tx.inner, refl, ap nat (length-map mapped obj), inner),
  )

  maps_once :
      (n : ℕ) (v : Value)
      → ((v : Value) → Gives (Reports n v) (map_transaction P n v))
      → Gives (Reports (suc n) v) (map_transaction P (suc n) v)
  unfolding Gives
  maps_once n v inner_maps d h =
      let (tx, fr, mapped, e, of_tx, inners, made) = map_transaction-steps P n v d h in
      let inner : Pairs (Reports n) fr.inner mapped =
        Gives-ok (Pairs (Reports n) fr.inner)
          (traverse-Pairs (Reports n) (map_transaction P n) fr.inner inner_maps) inners in
      subst (Reports (suc n) v) made (
        subst (λ v. Reports (suc n) v (transaction_fields P tx fr (map obj mapped))) (sym e)
          (fields-Reports n tx fr mapped of_tx inner))

  maps : (n : ℕ) (v : Value) → Gives (Reports n v) (map_transaction P n v)
  maps zero v = unfold map_transaction in raise-Gives (Reports zero v) recursion_error
  maps (suc n) v = maps_once n v (maps n)

-- What `map_transaction` returns for a transaction without floats reports that transaction. Its
-- id, round, time, type, position, note, group, created ids and logs are passed on, its timestamp
-- is what `iso` makes of its time, and `from` is its sender. The status is "ok" if the round of
-- the confirmation is a true value and "pending" otherwise. The fee is passed on as a text and, if
-- it is an integer, as a decimal that reads back as exactly the fee. The value of a payment is its
-- amount in the same two forms, "0" and null for an amount of null, and `to` is its receiver, if
-- that is a true value. Any other transaction has the value "0" and no decimal. The total is the
-- value if nothing is closed, and the total of the close otherwise. The inner transactions are
-- reported in the same way, one for one and in their order, with their number.
pub map_transaction-Reports :
    (P : Platform) (n : ℕ) (v : Value) (d : Fields) → map_transaction P n v ≡ ok d → Reports P n v d
unfolding Gives
map_transaction-Reports P n v d e = maps P n v d e
