-- ===== src/Mapping/Applications.antt =====
-- `map_application` and `_decode_state_entry` of mapping.py.
use algorandscout.Mapping.Pages.{nested, unwrapped}
use algorandscout.Prelude.{[], codes, false, if◌then◌else◌, none, some, true, ◌∷◌}
use algorandscout.Python.{
  Fields, Platform, Result, Value, as_dict, as_list, bool, dict, get, get_or, is_num, list, nat,
  null, ok, or_else, str, text, traverse, ◌>>=◌,
}

module _ (P : Platform) where
  -- The printable decoded key, or `null`: every failure of the decoder ends in `null`.
  unfoldable pub decoded_key : Value → Value
  decoded_key (text raw) = elim (P.b64_utf8 raw) [
    | none ↦ null
    | some s ↦ if P.is_printable s then text s else null
  ]
  decoded_key _ = null

  unfoldable pub decode_state_entry : Value → Result Value
  unfolding decoded_key
  decode_state_entry entry = do
    e ← as_dict entry
    let raw_key = get_or e "key" (text [])
    v ← nested e "value"
    let is_bytes = is_num (get v "type") 1
    ok (
        dict (
          ("key_b64", raw_key)
          ∷ ("key", decoded_key raw_key)
          ∷ ("type", text (if is_bytes then codes "bytes" else codes "uint"))
          ∷ ("value", if is_bytes then get v "bytes" else get v "uint")
          ∷ []))

  unfoldable pub map_application : Fields → Result Value
  map_application payload = do
    app ← unwrapped payload "application"
    params ← nested app "params"
    let state = or_else (get_or params "global-state" (list [])) (list [])
    entries ← as_list state
    decoded ← traverse decode_state_entry entries
    ok (
        dict (
          ("address", text (str P (get app "id")))
          ∷ ("app_id", get app "id")
          ∷ ("creator_address_hash", get params "creator")
          ∷ ("is_contract", bool true)
          ∷ ("language", text (codes "TEAL/AVM"))
          ∷ ("approval_program", get params "approval-program")
          ∷ ("clear_state_program", get params "clear-state-program")
          ∷ ("extra_program_pages", get_or params "extra-program-pages" (nat 0))
          ∷ ("created_at_round", get app "created-at-round")
          ∷ ("deleted_at_round", get app "deleted-at-round")
          ∷ ("deleted", get_or app "deleted" (bool false))
          ∷ (
            "state_schema",
            dict (
                ("global", get params "global-state-schema")
                ∷ ("local", get params "local-state-schema")
                ∷ []),
          )
          ∷ ("global_state", list decoded)
          ∷ ("abi", null)
          ∷ ("source_code", null)
          ∷ ("is_verified", bool false)
          ∷ ("compiler_version", null)
          ∷ ("optimization_enabled", null)
          ∷ ("as_of_round", get payload "current-round")
          ∷ []))
