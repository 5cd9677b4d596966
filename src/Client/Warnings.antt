-- ===== src/Client/Warnings.antt =====
-- The warnings of `AlgorandConfig` about a URL that names another network.
use mathlib.Core.Bool.{true≢false}
use mathlib.Core.Path.{subst}
use mathlib.Core.List.{cons-ne-nil}
use algorandscout.Client.Config.{
  Config, Environment, configure, endpoints_of, first_of_urls, mentions, mismatches,
  network_endpoints, settled, without_slash,
}
use algorandscout.Client.Reads.{algod, indexer}
use algorandscout.Prelude.{
  All, Bool-cases, List, Option-cases, Text, [], ap, arith, codes, inl, inr, refl, starts_with,
  starts_with-append, starts_with-rest, sym, text_eq, text_eq_iff, true, ◌++◌, ◌↔◌, ◌∙◌, ◌∷◌, ◌≡◌,
  ◌⊎◌,
}
use algorandscout.Python.{Platform, ok}

-- `other in s`, as a text cut into three.
abbrev pub Contains : Text → Text → Type 0
Contains other s = (before after : Text) × (s ≡ before ++ (other ++ after))

mentions-Contains : (other s : Text) → mentions other s ≡ true → Contains other s
unfolding mentions
mentions-Contains [] s h = ([], s, refl)
mentions-Contains (d ∷ other) [] h = cc
mentions-Contains (d ∷ other) (c ∷ s) h = elim (Bool-cases (starts_with (c ∷ s) (d ∷ other))) [
  | inl e ↦ let (after, cut) = starts_with-rest (c ∷ s) (d ∷ other) e in ([], after, cut)
  | inr e ↦
      let (before, after, cut) = mentions-Contains (d ∷ other) s (ground arith) in
      (c ∷ before, after, ap (◌∷◌ c) cut)
]

mentions-append : (other before after : Text) → mentions other (before ++ (other ++ after)) ≡ true
unfolding mentions
mentions-append [] [] [] = refl
mentions-append [] [] (c ∷ after) = refl
mentions-append (d ∷ other) [] after = rw (starts_with-append (d ∷ other) after) refl
mentions-append other (c ∷ before) after = ground (arith, mentions-append other before after)

mentions_iff : (other s : Text) → (mentions other s ≡ true) ↔ Contains other s
mentions_iff other s = (
  mentions-Contains other s,
  λ h. let (before, after, cut) = h in rw cut (mentions-append other before after),
)

-- A URL, in lower case, names no network of the list but this one.
abbrev pub Agrees : Text → Text → List (Text × (Text × Text)) → Type 0
Agrees network url = All (λ e. (e.0 ≡ network) ⊎ (¬ Contains e.0 url))

module _ (P : Platform) (network role url : Text) where
  silent-Agrees :
      (l : List (Text × (Text × Text)))
      → mismatches P network role url l ≡ []
      → Agrees network (P.lower url) l
  unfolding mismatches
  silent-Agrees [] h = tt
  silent-Agrees ((other, e) ∷ l) h = elim (Bool-cases (text_eq other network)) [
    | inl same ↦ (inl ((text_eq_iff other network).0 same), silent-Agrees l (rw same at h))
    | inr differs ↦ elim (Bool-cases (mentions other (P.lower url))) [
      | inl named ↦ absurd (ground arith)
      | inr silent ↦ (
        inr (λ k. true≢false (sym ((mentions_iff other (P.lower url)).1 k) ∙ silent)),
        silent-Agrees l (ground arith),
      )
    ]
  ]

  Agrees-silent :
      (l : List (Text × (Text × Text)))
      → Agrees network (P.lower url) l
      → mismatches P network role url l ≡ []
  unfolding mismatches
  Agrees-silent [] h = refl
  Agrees-silent ((other, e) ∷ l) (h, t) = elim h [
    | inl e' ↦
        let same : text_eq other network ≡ true = (text_eq_iff other network).1 e' in
        rw same (Agrees-silent l t)
    | inr k ↦ elim (Bool-cases (mentions other (P.lower url))) [
      | inl named ↦ absurd (k ((mentions_iff other (P.lower url)).0 named))
      | inr silent ↦ ground (arith, Agrees-silent l t)
    ]
  ]

append-both : {A : Type 0} (xs ys : List A) → (xs ++ ys ≡ []) ↔ ((xs ≡ []) × (ys ≡ []))
append-both [] ys = ((λ h. (refl, h)), λ h. h.1)
append-both (x ∷ xs) ys = ((λ h. absurd (cons-ne-nil x (xs ++ ys) h)), λ h. cc)

configure-settled :
    (P : Platform) (network algod_url indexer_url : Text) (env : Environment) (c : Config)
    → configure P network algod_url indexer_url env ≡ ok c
    → (algod indexer : Text) × (settled P network algod indexer ≡ c)
unfolding configure endpoints_of
configure-settled P network algod_url indexer_url env c h =
    elim (Option-cases (endpoints_of network network_endpoints)) [
      | inl e ↦ absurd (ground arith)
      | inr ((a, i), e) ↦
          let done = rw e at h in
          (
            without_slash (first_of_urls algod_url env.algod_url a),
            without_slash (first_of_urls indexer_url env.indexer_url i),
            cc,
          )
    ]

abbrev Honest : Platform → Text → Config → Type 0
Honest P network c = (c.warnings ≡ []) ↔ (
    Agrees network (P.lower c.algod_url) network_endpoints
    × Agrees network (P.lower c.indexer_url) network_endpoints)

settled-Honest :
    (P : Platform) (network algod indexer : Text)
    → Honest P network (settled P network algod indexer)
unfolding settled
settled-Honest P network algod indexer =
    let algods = mismatches P network (codes "algod") algod network_endpoints in
    let indexers = mismatches P network (codes "indexer") indexer network_endpoints in
    let both = append-both algods indexers in
    (
      λ e. (
        silent-Agrees P network (codes "algod") algod network_endpoints (both.0 e).0,
        silent-Agrees P network (codes "indexer") indexer network_endpoints (both.0 e).1,
      ),
      λ a. both.1 (
        Agrees-silent P network (codes "algod") algod network_endpoints a.0,
        Agrees-silent P network (codes "indexer") indexer network_endpoints a.1,
      ),
    )

-- A configuration that was accepted warns of nothing exactly when neither of the URLs it settled on
-- names, in any letter case, another network than its own: no mismatch passes silently.
pub configure-Agrees :
    (P : Platform) (network algod_url indexer_url : Text) (env : Environment) (c : Config)
    → configure P network algod_url indexer_url env ≡ ok c
    → (c.warnings ≡ []) ↔ (
        Agrees network (P.lower c.algod_url) network_endpoints
        × Agrees network (P.lower c.indexer_url) network_endpoints)
configure-Agrees P network algod_url indexer_url env c h =
    let (algod, indexer, e) = configure-settled P network algod_url indexer_url env c h in
    subst (Honest P network) e (settled-Honest P network algod indexer)
