-- ===== src/Mapping/Transactions/Framed.antt =====
-- Where each part of what `map_transaction` of mapping.py works out comes from.
use algorandscout.Mapping.Amounts.{algo_decimals, decimal_string}
use algorandscout.Mapping.Dates.{iso}
use algorandscout.Mapping.Transactions.{map_transaction}
use algorandscout.Mapping.Transactions.Frames.{
  Frame, transaction_fields, transaction_frame, value_decimal,
}
use algorandscout.Mapping.Transactions.Movements.{extract_close, extract_movement}
use algorandscout.Mapping.Transactions.Tables.{detail_key, signature_type}
use algorandscout.Prelude.{List, [], arith, map, refl, suc, ℕ, ◌≡◌}
use algorandscout.Python.{
  >>=-eq-ok, Fields, Platform, Value, as_dict, as_list, dict, get, get_or, list, nat, obj, ok,
  or_else, traverse,
}
use algorandscout.Python.Gives.{Gives, ok-Gives}

-- What `transaction_frame` has worked out of a transaction.
pub record FrameOf (P : Platform) (tx : Fields) (fr : Frame) : Type 0 where
  pub key : detail_key (get tx "tx-type") ≡ ok fr.key
  pub detail : fr.detail ≡ or_else (get_or tx fr.key (dict [])) (dict [])
  pub movement : extract_movement P (get tx "tx-type") fr.detail ≡ ok fr.movement
  pub close : extract_close P (get tx "tx-type") fr.detail tx ≡ ok fr.close
  pub timestamp : iso (get tx "round-time") ≡ ok fr.timestamp
  pub decimal : value_decimal P (get tx "tx-type") fr.movement.value ≡ ok fr.decimal
  pub fee_decimal : decimal_string P (get_or tx "fee" (nat 0)) (nat 6) ≡ ok fr.fee_decimal
  pub inner : as_list (or_else (get_or tx "inner-txns" (list [])) (list [])) ≡ ok fr.inner

pub transaction_frame-FrameOf :
    (P : Platform) (tx : Fields) (fr : Frame) → transaction_frame P tx ≡ ok fr → FrameOf P tx fr
unfolding transaction_frame
transaction_frame-FrameOf P tx fr h =
    let type = get tx "tx-type" in
    let (key, e1, h1) = >>=-eq-ok (detail_key type) _ h in
    let detail = or_else (get_or tx key (dict [])) (dict []) in
    let (movement, e2, h2) = >>=-eq-ok (extract_movement P type detail) _ h1 in
    let (close, e3, h3) = >>=-eq-ok (extract_close P type detail tx) _ h2 in
    let (timestamp, e4, h4) = >>=-eq-ok (iso (get tx "round-time")) _ h3 in
    let (decimal, e5, h5) = >>=-eq-ok (value_decimal P type movement.value) _ h4 in
    let (fee_decimal, e6, h6) =
      >>=-eq-ok (decimal_string P (get_or tx "fee" (nat 0)) (nat algo_decimals)) _ h5 in
    let (signature, e7, h7) =
      >>=-eq-ok (signature_type (or_else (get_or tx "signature" (dict [])) (dict []))) _ h6 in
    let (inner, e8, h8) =
      >>=-eq-ok (as_list (or_else (get_or tx "inner-txns" (list [])) (list []))) _ h7 in
    unfold Gives in
    ok-Gives (FrameOf P tx)
      (record {
        key = key;
        detail = detail;
        movement = movement;
        close = close;
        timestamp = timestamp;
        decimal = decimal;
        fee_decimal = fee_decimal;
        signature = signature;
        inner = inner;
      })
      (record {
        key = e1;
        detail = refl;
        movement = e2;
        close = e3;
        timestamp = e4;
        decimal = e5;
        fee_decimal = e6;
        inner = e8;
      })
      fr h8

-- The steps of `map_transaction` for a dictionary.
pub map_transaction-steps :
    (P : Platform) (n : ℕ) (v : Value) (d : Fields)
    → map_transaction P (suc n) v ≡ ok d
    → (tx : Fields) × (fr : Frame) × (mapped : List Fields) × (v ≡ obj tx)
      × FrameOf P tx fr
      × (traverse (map_transaction P n) fr.inner ≡ ok mapped)
      × (transaction_fields P tx fr (map obj mapped) ≡ d)
unfolding map_transaction
map_transaction-steps P n v d h =
    let (tx, e1, h1) = >>=-eq-ok (as_dict v) _ h in
    let (fr, e2, h2) = >>=-eq-ok (transaction_frame P tx) _ h1 in
    let (mapped, e3, h3) = >>=-eq-ok (traverse (map_transaction P n) fr.inner) _ h2 in
    (tx, fr, mapped, ground arith, transaction_frame-FrameOf P tx fr e2, e3, ground arith)
