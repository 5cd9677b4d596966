-- ===== src/Mapping/Pages.antt =====
-- `_next_page` and the shape of a page of items.
use algorandscout.Prelude.{List, String, [], if◌then◌else◌, ◌∷◌, ◌≡◌}
use algorandscout.Python.{
  >>=-eq-ok, Fields, Result, Value, as_dict, as_list, dict, get, get_or, list, null, obj, ok,
  or_else, traverse, truthy, ◌>>=◌,
}
use algorandscout.Python.Gives.{Gives, Gives-ok, Pairs, traverse-Pairs}

-- `_next_page`
unfoldable pub next_page : Fields → Value
next_page payload =
    let token = get payload "next-token" in
    if truthy token then dict (("next_token", token) ∷ []) else null

-- `{"items": items, "next_page_params": _next_page(payload)}`
abbrev pub page : List Value → Fields → Value
page l payload = dict (("items", list l) ∷ ("next_page_params", next_page payload) ∷ [])

-- `payload.get(key, []) or []`, iterated over.
abbrev pub listed : Fields → String → Result (List Value)
listed d key = as_list (or_else (get_or d key (list [])) (list []))

-- `payload.get(key, payload) or {}`, on which `.get` is called.
abbrev pub unwrapped : Fields → String → Result Fields
unwrapped payload key = as_dict (or_else (get_or payload key (obj payload)) (dict []))

-- `d.get(key, {}) or {}`, on which `.get` is called.
abbrev pub nested : Fields → String → Result Fields
nested d key = as_dict (or_else (get_or d key (dict [])) (dict []))

-- A page whose items are made one by one has an item for each thing that was sent, in its order.
pub page-Pairs :
    (R : Value → Value → Type 0) (f : Value → Result Value) (payload : Fields) (key : String)
    (p : Value)
    → ((x : Value) → Gives (R x) (f x))
    → (do sent ← listed payload key; made ← traverse f sent; ok (page made payload)) ≡ ok p
    → (sent made : List Value) × (listed payload key ≡ ok sent)
      × (p ≡ page made payload)
      × Pairs R sent made
page-Pairs R f payload key p each h =
    let (sent, e, h1) = >>=-eq-ok (listed payload key) _ h in
    let (made, done, last) = >>=-eq-ok (traverse f sent) _ h1 in
    (sent, made, e, cc, Gives-ok (Pairs R sent) (traverse-Pairs R f sent each) done)
