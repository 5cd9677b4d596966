-- ===== src/Python/Gives.antt =====
-- What the results of a run have in common.
use mathlib.Core.Path.{subst}
use algorandscout.Prelude.{Bool, List, [], false, if◌then◌else◌, refl, true, ◌∷◌, ◌≡◌}
use algorandscout.Python.Results.{>>=-eq-ok, Exception, Result, ok, raise, traverse, ◌>>=◌}

-- Whatever a run returns has the property.
unfoldable pub Gives {ℓ κ} : {A : Type ℓ} → (A → Type κ) → Result A → Type (ℓ ⊔ κ)
Gives {A = A} Q r = (a : A) → r ≡ ok a → Q a

pub ok-Gives : {A : Type 0} (Q : A → Type 0) (a : A) → Q a → Gives Q (ok a)
unfolding Gives
ok-Gives Q a q b e = let same : a ≡ b = cc in subst Q same q

pub >>=-Gives :
    {A B : Type 0} (Q : B → Type 0) (m : Result A) (f : A → Result B)
    → ((a : A) → m ≡ ok a → Gives Q (f a))
    → Gives Q (m >>= f)
unfolding Gives
>>=-Gives Q m f h b e = let (a, first, last) = >>=-eq-ok m f e in h a first b last

pub Gives-ok : {A : Type 0} (Q : A → Type 0) {r : Result A} {a : A} → Gives Q r → r ≡ ok a → Q a
unfolding Gives
Gives-ok Q h e = h _ e

pub raise-Gives : {A : Type 0} (Q : A → Type 0) (e : Exception) → Gives Q (raise e)
unfolding Gives
raise-Gives Q e a h = cc

pub if-Gives :
    {A : Type 0} (Q : A → Type 0) (b : Bool) (r r' : Result A)
    → Gives Q r
    → Gives Q r'
    → Gives Q (if b then r else r')
if-Gives Q true r r' h k = h
if-Gives Q false r r' h k = k

pub test-Gives :
    {A : Type 0} (Q : A → Type 0) (b : Bool) (r r' : Result A)
    → (b ≡ true → Gives Q r)
    → (b ≡ false → Gives Q r')
    → Gives Q (if b then r else r')
test-Gives Q true r r' h k = h refl
test-Gives Q false r r' h k = k refl

-- Two lists whose elements are related one by one.
abbrev pub Pairs : {A B : Type 0} → (A → B → Type 0) → List A → List B → Type 0
Pairs R [] [] = Unit
Pairs R (a ∷ l) (b ∷ m) = R a b × Pairs R l m
Pairs R l m = ⊥

cons-Pairs :
    {A B : Type 0} (R : A → B → Type 0) (a : A) (b : B) (l : List A) (m : List B)
    → R a b
    → Pairs R l m
    → Pairs R (a ∷ l) (b ∷ m)
cons-Pairs R a b l m h k = (h, k)

pub traverse-Pairs :
    {A B : Type 0} (R : A → B → Type 0) (f : A → Result B) (l : List A)
    → ((a : A) → Gives (R a) (f a))
    → Gives (Pairs R l) (traverse f l)
traverse-Pairs R f [] h = ok-Gives (Pairs R []) [] tt
traverse-Pairs R f (x ∷ l) h =
    let first : (b : _) → f x ≡ ok b → R x b = λ b. Gives-ok (R x) (h x) in
    let rest : (bs : _) → traverse f l ≡ ok bs → Pairs R l bs =
      λ bs. Gives-ok (Pairs R l) (traverse-Pairs R f l h) in
    search (>>=-Gives, ok-Gives, cons-Pairs, first, rest) depth 8
