-- ===== src/Mapping/Transactions/Tables.antt =====
-- The tables by transaction type and `_signature_type`, of mapping.py.
use algorandscout.Prelude.{
  Bool, Option, String, Text, [], codes, if◌then◌else◌, is_nil, none, some, some_of, starts_with,
  text_eq, ◌||◌, ◌∷◌,
}
use algorandscout.Python.{
  Result, Value, arr, cons, elements, field, has_key, is_text, null, obj, ok, raise, text,
  type_error, ◌>>=◌,
}

-- `TX_TYPE_DETAIL_KEY.get(t, "")`
unfoldable pub detail_key_of : Text → String
detail_key_of t =
    if text_eq t (codes "pay")
    then "payment-transaction"
    else if text_eq t (codes "axfer")
    then "asset-transfer-transaction"
    else if text_eq t (codes "acfg")
    then "asset-config-transaction"
    else if text_eq t (codes "afrz")
    then "asset-freeze-transaction"
    else if text_eq t (codes "appl")
    then "application-transaction"
    else if text_eq t (codes "keyreg")
    then "keyreg-transaction"
    else if text_eq t (codes "stpf")
    then "state-proof-transaction"
    else if text_eq t (codes "hb")
    then "heartbeat-transaction"
    else ""

-- `TX_TYPE_LABEL.get(t)`
unfoldable pub label_of : Text → Option Text
label_of t =
    if text_eq t (codes "pay")
    then some (codes "Payment")
    else if text_eq t (codes "axfer")
    then some (codes "Asset Transfer")
    else if text_eq t (codes "acfg")
    then some (codes "Asset Configuration")
    else if text_eq t (codes "afrz")
    then some (codes "Asset Freeze")
    else if text_eq t (codes "appl")
    then some (codes "Application Call")
    else if text_eq t (codes "keyreg")
    then some (codes "Key Registration")
    else if text_eq t (codes "stpf")
    then some (codes "State Proof")
    else if text_eq t (codes "hb")
    then some (codes "Heartbeat")
    else none

-- `TX_TYPE_DETAIL_KEY.get(tx_type or "", "")`: a list or a dictionary is no key of a table.
unfoldable pub detail_key : Value → Result String
unfolding detail_key_of
detail_key (text t) = ok (detail_key_of t)
detail_key (arr (cons v r)) = raise type_error
detail_key (obj (field k v r)) = raise type_error
detail_key _ = ok ""

-- `TX_TYPE_LABEL.get(tx_type or "", tx_type)`
unfoldable pub method_of : Value → Value
unfolding label_of
method_of (text t) = elim (label_of t) [ none ↦ text t | some l ↦ text l ]
method_of v = v

-- `s in "..."` on texts.
abbrev pub occurs_in : Text → Text → Bool
occurs_in s [] = is_nil s
occurs_in s (c ∷ t) = starts_with (c ∷ t) s || occurs_in s t

-- `key in signature`
unfoldable pub contains : Value → String → Result Bool
contains (obj d) key = ok (has_key d key)
contains (text t) key = ok (occurs_in (codes key) t)
contains (arr r) key = ok (some_of (λ v. is_text v (codes key)) (elements r))
contains _ key = raise type_error

-- `_signature_type`
unfoldable pub signature_type : Value → Result Value
signature_type signature = do
  sig ← contains signature "sig"
  if sig then ok (text (codes "ed25519")) else do
    multisig ← contains signature "multisig"
    if multisig then ok (text (codes "multisig")) else do
      logicsig ← contains signature "logicsig"
      ok (if logicsig then text (codes "logicsig") else null)
