-- ===== src/Service/Passthrough.antt =====
-- The allowlist of the passthrough of service.py.
use mathlib.Core.Bool.{true≢false}
use algorandscout.Client.Config.{Config}
use algorandscout.Client.Reads.{indexer}
use algorandscout.Prelude.{
  Bool-cases, List, Text, [], arith, codes, inl, inr, refl, starts_with-append, starts_with-rest,
  sym, text_eq, text_eq_iff, text_eq_refl, true, ℕ, ◌++◌, ◌↔◌, ◌∙◌, ◌∷◌, ◌≡◌, ◌⊎◌,
}
use algorandscout.Python.{Platform, Value, http_exception, raise}
use algorandscout.Service.{passthrough, passthrough_prefixes, path_allowed, under_prefix}
use algorandscout.World.{World, lift}

-- The prefix itself, or a path below it.
abbrev pub IsUnder : Text → Text → Type 0
IsUnder p target = (target ≡ p) ⊎ ((rest : Text) × (target ≡ (p ++ codes "/") ++ rest))

-- What the passthrough may ask of the indexer.
abbrev pub IsAllowed : Text → List Text → Type 0
IsAllowed target [] = ⊥
IsAllowed target (p ∷ l) = IsUnder p target ⊎ IsAllowed target l

under_prefix_iff : (target p : Text) → (under_prefix target p ≡ true) ↔ IsUnder p target
unfolding under_prefix
under_prefix_iff target p = (
  λ h. elim (Bool-cases (text_eq target p)) [
    | inl e ↦ inl ((text_eq_iff target p).0 e)
    | inr e ↦ inr (starts_with-rest target (p ++ codes "/") (ground arith))
  ],
  λ h. elim h [
    | inl e ↦ rw (e, text_eq_refl p) refl
    | inr (rest, e) ↦ rw (e, starts_with-append (p ++ codes "/") rest) (ground arith)
  ],
)

path_allowed_iff :
    (target : Text) (l : List Text) → (path_allowed target l ≡ true) ↔ IsAllowed target l
unfolding path_allowed
path_allowed_iff target [] = ((λ h. cc), λ h. elim h [ ])
path_allowed_iff target (p ∷ l) = (
  λ h. elim (Bool-cases (under_prefix target p)) [
    | inl e ↦ inl ((under_prefix_iff target p).0 e)
    | inr e ↦ inr ((path_allowed_iff target l).0 (ground arith))
  ],
  λ h. elim h [
    | inl e ↦ rw ((under_prefix_iff target p).1 e) refl
    | inr e ↦ rw ((path_allowed_iff target l).1 e) (ground arith)
  ],
)

-- A path is passed on exactly when `/v2/` and the path make an allowed target. It is then the one
-- read of the indexer at that target, with the query's parameters; any other path is refused with a
-- 403 that leaves the state as it was, so that nothing is sent.
pub passthrough_allowlist :
    (P : Platform) (c : Config) (fuel : ℕ) (path : Text) (params : List (Text × Value)) (w : World)
    → (let target = codes "/v2/" ++ path in
        (IsAllowed target passthrough_prefixes
          × (passthrough P c fuel path params w ≡ indexer P c target params w))
        ⊎ ((¬ IsAllowed target passthrough_prefixes)
            × (passthrough P c fuel path params w ≡ (
              raise (http_exception 403 (codes "path not in passthrough allowlist: " ++ target)),
              w,
            ))))
unfolding passthrough lift
passthrough_allowlist P c fuel path params w =
    let target = codes "/v2/" ++ path in
    elim (Bool-cases (path_allowed target passthrough_prefixes)) [
      | inl e ↦ inl ((path_allowed_iff target passthrough_prefixes).0 e, rw e refl)
      | inr e ↦ inr (
        (λ h. true≢false (sym ((path_allowed_iff target passthrough_prefixes).1 h) ∙ e)),
        rw e refl,
      )
    ]
