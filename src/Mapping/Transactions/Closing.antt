-- ===== src/Mapping/Transactions/Closing.antt =====
-- What `_extract_close` of mapping.py says of a payment that closes its sender's account.
use mathlib.Core.Path.{subst}
use algorandscout.Mapping.Amounts.{clean, is_zero_address, zero_address}
use algorandscout.Mapping.Amounts.RoundTrip.{decimal_string-exact, read_decimal}
use algorandscout.Mapping.Days.{total}
use algorandscout.Mapping.Transactions.{map_transaction}
use algorandscout.Mapping.Transactions.Framed.{FrameOf, map_transaction-steps}
use algorandscout.Mapping.Transactions.Frames.{Frame, transaction_fields}
use algorandscout.Mapping.Transactions.Movements.{Close, close_payment, extract_close, value_text}
use algorandscout.Mapping.Transactions.Reported.{pay_key, pay_movement}
use algorandscout.Mapping.Transactions.Shape.{IsOptionalText}
use algorandscout.Prelude.{
  Bool-cases, List, Option-cases, String, Text, [], ap, arith, codes, false, inl, inr, is_nil, map,
  none, refl, some, suc, text_eq, text_eq_iff, true, zero, ℕ, ◌∙◌, ◌∷◌, ◌≡◌, ◌⊎◌,
}
use algorandscout.Prelude.Int.{negsuc, pos, ℤ, ◌+ℤ◌}
use algorandscout.Python.{
  Fields, Platform, Value, as_dict, bool, dict, end, field, get, get_or, lookup, nat, null, num,
  obj, ok, or_else, text,
}
use algorandscout.Python.Decimal.{str_ℤ}

or_else-num : (n : ℤ) → or_else (num n) (nat 0) ≡ num n
or_else-num (pos zero) = refl
or_else-num (pos (suc n)) = ground arith
or_else-num (negsuc n) = refl

clean_other :
    (target : Text) → text_eq target zero_address ≡ false → clean (text target) ≡ text target
unfolding clean is_zero_address
clean_other target h = ground arith

abbrev close_of : (P : Platform) (target : Text) (a s : ℤ) → Text → Text → Close
close_of P target a s swept total = record {
  closes_account = true;
  closes_asset_holding = false;
  close_remainder_to = text target;
  close_amount = str_ℤ s;
  close_amount_decimal = text swept;
  value_total = str_ℤ (a +ℤ s);
  value_total_decimal = text total;
  asset_id = null;
}

-- What `_extract_close` returns for a payment of `a` microalgos that sweeps `s` more to an address.
extract_close_total :
    (P : Platform) (detail tx : Fields) (target : Text) (a s : ℤ)
    → get detail "close-remainder-to" ≡ text target
    → is_nil target ≡ false
    → text_eq target zero_address ≡ false
    → get_or detail "amount" (nat 0) ≡ num a
    → get_or detail "close-amount" (get_or tx "closing-amount" (nat 0)) ≡ num s
    → (t t' : Text) × (extract_close P (text (codes "pay")) (obj detail) tx
        ≡ ok (some (close_of P target a s t' t)))
      × (read_decimal 6 t ≡ a +ℤ s)
      × (read_decimal 6 t' ≡ s)
unfolding extract_close close_payment
extract_close_total P detail tx target a s to proper other amount swept =
    let (t, printed, back) = decimal_string-exact P (a +ℤ s) 5 in
    let (t', printed', back') = decimal_string-exact P s 5 in
    (
      t,
      t',
      rw
          (
            to,
            clean_other target other,
            amount,
            swept,
            proper,
            or_else-num a,
            or_else-num s,
            printed,
            printed',
          )
          refl,
      back,
      back',
    )

-- No close is asked for: there is no address to sweep the rest to.
abbrev pub IsNobody : Value → Type 0
IsNobody v = (v ≡ null) ⊎ (v ≡ text []) ⊎ (v ≡ text zero_address)

extract_close-none :
    (P : Platform) (detail tx : Fields)
    → IsNobody (get detail "close-remainder-to")
    → extract_close P (text (codes "pay")) (obj detail) tx ≡ ok none
unfolding extract_close close_payment clean is_zero_address
extract_close-none P detail tx (inl e) = rw e refl
extract_close-none P detail tx (inr (inl e)) = rw e refl
extract_close-none P detail tx (inr (inr e)) = rw e refl

-- An address that a payment sweeps to.
abbrev pub IsTarget : Value → Text → Type 0
IsTarget v target =
    (v ≡ text target) × (is_nil target ≡ false) × (text_eq target zero_address ≡ false)

remainder_cases :
    (v : Value)
    → (v ≡ null) ⊎ ((s : Text) × (v ≡ text s))
    → IsNobody v ⊎ ((s : Text) × IsTarget v s)
remainder_cases v (inl e) = inl (inl e)
remainder_cases v (inr ([], e)) = inl (inr (inl e))
remainder_cases v (inr (c ∷ s, e)) = elim (Bool-cases (text_eq (c ∷ s) zero_address)) [
  | inl zero_it ↦ inl (inr (inr (e ∙ ap text ((text_eq_iff (c ∷ s) zero_address).0 zero_it))))
  | inr other ↦ inr (c ∷ s, (e, refl, other))
]

-- A decimal text of algos that reads back as this number of microalgos.
abbrev pub Reads : Value → ℤ → Type 0
Reads v n = (t : Text) × (v ≡ text t) × (read_decimal 6 t ≡ n)

-- What is reported of a payment of `a` microalgos that may sweep the rest of its sender's account,
-- `s` microalgos.
abbrev pub IsClosed : Value → ℤ → ℤ → Fields → Type 0
IsClosed remainder a s d =
    (IsNobody remainder
      × (get d "closes_account" ≡ bool false)
      × (get d "close" ≡ null)
      × (get d "value_total" ≡ text (str_ℤ a)))
    ⊎ ((target : Text) × (close : Fields) × IsTarget remainder target
        × (get d "closes_account" ≡ bool true)
        × (get d "value_total" ≡ text (str_ℤ (a +ℤ s)))
        × (get d "close" ≡ obj close)
        × (get close "close_remainder_to" ≡ text target)
        × (get close "close_amount" ≡ text (str_ℤ s))
        × Reads (get close "close_amount_decimal") s
        × Reads (get close "value_total_decimal") (a +ℤ s))

module _ (P : Platform) (tx detail : Fields) (a s : ℤ) (fr : Frame) (inner : List Value) where
  fields-nobody :
      fr.movement.value ≡ num a
      → fr.close ≡ none
      → IsNobody (get detail "close-remainder-to")
      → IsClosed (get detail "close-remainder-to") a s (transaction_fields P tx fr inner)
  unfolding transaction_fields value_text
  fields-nobody e k nobody = inl (nobody, rw k refl, rw k refl, rw (k, e) refl)

  fields-target :
      (target t t' : Text)
      → fr.close ≡ some (close_of P target a s t' t)
      → IsTarget (get detail "close-remainder-to") target
      → read_decimal 6 t ≡ a +ℤ s
      → read_decimal 6 t' ≡ s
      → IsClosed (get detail "close-remainder-to") a s (transaction_fields P tx fr inner)
  unfolding transaction_fields
  fields-target target t t' e to back back' =
      rw e (inr (target, _, to, refl, refl, refl, refl, refl, (t', refl, back'), (t, refl, back)))

  fields-IsClosed :
      FrameOf P tx fr
      → get tx "tx-type" ≡ text (codes "pay")
      → fr.detail ≡ obj detail
      → IsOptionalText (get detail "close-remainder-to")
      → get_or detail "amount" (nat 0) ≡ num a
      → get_or detail "close-amount" (get_or tx "closing-amount" (nat 0)) ≡ num s
      → fr.movement.value ≡ num a
      → IsClosed (get detail "close-remainder-to") a s (transaction_fields P tx fr inner)
  fields-IsClosed of_tx type payment optional amount swept value =
      let found : extract_close P (text (codes "pay")) (obj detail) tx ≡ ok fr.close =
        rw (type, payment) at of_tx.close in
      elim (remainder_cases (get detail "close-remainder-to") optional) [
        | inl nobody ↦
            let none_it = extract_close-none P detail tx nobody in
            fields-nobody value (ground arith) nobody
        | inr (target, to) ↦
            let (t, t', made, back, back') =
              extract_close_total P detail tx target a s to.0 to.1 to.2 amount swept in
            fields-target target t t' (ground arith) to back back'
      ]

get_or-get :
    (d e : Fields) (k : String) (default : Value) → get d k ≡ obj e → get_or d k default ≡ obj e
get_or-get d e k default h = elim (Option-cases (lookup k d)) [
  | inl none_it ↦ absurd (ground arith)
  | inr (v, some_it) ↦ ground arith
]

or_else-obj : (d : Fields) → or_else (obj d) (dict []) ≡ obj d
or_else-obj end = refl
or_else-obj (field k v r) = refl

fields-value :
    (P : Platform) (tx : Fields) (fr : Frame) (inner : List Value) (a : ℤ)
    → fr.movement.value ≡ num a
    → get (transaction_fields P tx fr inner) "value" ≡ text (str_ℤ a)
unfolding transaction_fields value_text
fields-value P tx fr inner a e = rw e refl

payment_detail :
    (P : Platform) (tx detail : Fields) (fr : Frame)
    → FrameOf P tx fr
    → get tx "tx-type" ≡ text (codes "pay")
    → get tx "payment-transaction" ≡ obj detail
    → (fr.detail ≡ obj detail) × (fr.movement.value ≡ get_or detail "amount" (nat 0))
payment_detail P tx detail fr of_tx type payment =
    let key = pay_key P fr.key (rw type at of_tx.key) in
    let there : fr.detail ≡ or_else (get_or tx "payment-transaction" (dict [])) (dict []) =
      rw key at of_tx.detail in
    let held = get_or-get tx detail "payment-transaction" (dict []) payment in
    let whole : fr.detail ≡ obj detail =
      there ∙ ap (λ v. or_else v (dict [])) held ∙ or_else-obj detail in
    let (d, e, to, amount) = pay_movement P fr.detail fr.movement (rw type at of_tx.movement) in
    let got : as_dict (obj detail) ≡ ok d = rw whole at e in
    let same : d ≡ detail = ground arith in
    (whole, amount ∙ ap (λ d. get_or d "amount" (nat 0)) same)

-- For a payment of `a` microalgos with a close amount of `s`, both integers, and with a remainder
-- address that is a text, null or missing: if it is a text other than the empty one and the zero
-- address, the mapped transaction has the value `a`, closes its account and has the total `a + s`,
-- and its close names that address, the swept amount `s` and the total, each also as a decimal
-- that reads back exactly. In every other case it has the value `a`, closes nothing and has the
-- total `a`, whatever the close amount.
pub map_transaction-IsClosed :
    (P : Platform) (n : ℕ) (tx detail d : Fields) (a s : ℤ)
    → get tx "tx-type" ≡ text (codes "pay")
    → get tx "payment-transaction" ≡ obj detail
    → IsOptionalText (get detail "close-remainder-to")
    → get_or detail "amount" (nat 0) ≡ num a
    → get_or detail "close-amount" (get_or tx "closing-amount" (nat 0)) ≡ num s
    → map_transaction P (suc n) (obj tx) ≡ ok d
    → (get d "value" ≡ text (str_ℤ a)) × IsClosed (get detail "close-remainder-to") a s d
map_transaction-IsClosed P n tx detail d a s type payment optional amount swept h =
    let (tx', fr, mapped, same, of_tx', inners, made) = map_transaction-steps P n (obj tx) d h in
    let eq : tx' ≡ tx = ground arith in
    let of_tx : FrameOf P tx fr = subst (λ t. FrameOf P t fr) eq of_tx' in
    let made_of : transaction_fields P tx fr (map obj mapped) ≡ d =
      subst (λ t. transaction_fields P t fr (map obj mapped) ≡ d) eq made in
    let (whole, value) = payment_detail P tx detail fr of_tx type payment in
    let paid : fr.movement.value ≡ num a = value ∙ amount in
    subst (λ d. (get d "value" ≡ text (str_ℤ a)) × IsClosed (get detail "close-remainder-to") a s d)
      made_of
      (
        fields-value P tx fr (map obj mapped) a paid,
        fields-IsClosed P tx detail a s fr (map obj mapped) of_tx type whole optional amount swept
            paid,
      )
