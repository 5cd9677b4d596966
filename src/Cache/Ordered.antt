-- ===== src/Cache/Ordered.antt =====
-- The `OrderedDict` of the cache: association lists, oldest entry first.
use algorandscout.Prelude.{
  All, All-append, Bool, Bool-cases, List, Option, String, Text, [], arith, drop, eq_iff, false,
  if◌then◌else◌, inl, inr, length, ltb, none, refl, some, str_eq, suc, tests, text_eq, text_eq_iff,
  true, zero, ℕ, ◌&&◌, ◌++◌, ◌+◌, ◌-◌, ◌↔◌, ◌∷◌, ◌≡◌,
}
use algorandscout.Python.{Value}

abbrev pub Key : Type 0
Key = String × Text

-- When the value was stored, and the value.
abbrev pub Entry : Type 0
Entry = Key × (ℕ × Value)

abbrev pub Entries : Type 0
Entries = List Entry

unfoldable pub key_eq : Key → Key → Bool
key_eq a b = str_eq a.0 b.0 && text_eq a.1 b.1

pub key_eq_iff : (a b : Key) → (key_eq a b ≡ true) ↔ (a ≡ b)
unfolding key_eq
key_eq_iff a b = ground (arith, eq_iff a.0 b.0, text_eq_iff a.1 b.1)

unfoldable pub find : Key → Entries → Option (ℕ × Value)
find k [] = none
find k ((j, e) ∷ l) = if key_eq j k then some e else find k l

-- `del d[k]`
unfoldable pub delete : Key → Entries → Entries
delete k [] = []
delete k ((j, e) ∷ l) = if key_eq j k then l else (j, e) ∷ delete k l

-- `d[k] = e`: an old key keeps its place.
unfoldable pub assign : Key → ℕ × Value → Entries → Entries
assign k e [] = (k, e) ∷ []
assign k e ((j, d) ∷ l) = if key_eq j k then (j, e) ∷ l else (j, d) ∷ assign k e l

-- `d.move_to_end(k)`, of a key that is there.
unfoldable pub move_to_end : Key → Entries → Entries
move_to_end k [] = []
move_to_end k ((j, e) ∷ l) = if key_eq j k then l ++ (j, e) ∷ [] else (j, e) ∷ move_to_end k l

-- `while len(d) > bound: d.popitem(last=False)`, with the number of rounds.
unfoldable pub evict : ℕ → Entries → Entries × ℕ
evict bound [] = ([], 0)
evict bound (e ∷ l) =
    let rest = evict bound l in
    if ltb bound (length (e ∷ l)) then (rest.0, rest.1 + 1) else (e ∷ l, 0)

abbrev pub Absent : Key → Entries → Type 0
Absent k = All (λ e. key_eq e.0 k ≡ false)

abbrev pub IsDistinct : Entries → Type 0
IsDistinct [] = Unit
IsDistinct ((j, e) ∷ l) = Absent j l × IsDistinct l

module _ (k : Key) where
  -- A write ends up behind all other entries, in place of the old entry.
  pub move_to_end-assign :
      (e : ℕ × Value) (l : Entries) → move_to_end k (assign k e l) ≡ delete k l ++ (k, e) ∷ []
  unfolding move_to_end assign delete
  move_to_end-assign e [] = ground arith
  move_to_end-assign e ((j, d) ∷ l) = ground (arith, key_eq_iff j k, move_to_end-assign e l)

  pub move_to_end-delete :
      (l : Entries) {e : ℕ × Value}
      → find k l ≡ some e
      → move_to_end k l ≡ delete k l ++ (k, e) ∷ []
  unfolding move_to_end find delete
  move_to_end-delete [] h = cc
  move_to_end-delete ((j, d) ∷ l) {e} h =
      ground (arith, key_eq_iff j k, move_to_end-delete l {e = e})

pub evict-drop : (n : ℕ) (l : Entries) → evict n l ≡ (drop (length l - n) l, length l - n)
unfolding evict
evict-drop n [] = ground arith
evict-drop n (e ∷ l) = elim (Bool-cases (ltb n (suc (length l)))) [
  | inl more ↦
      let one : suc (length l) - n ≡ suc (length l - n) = omega (tests) in
      rw (more, one, evict-drop n l) (ground arith)
  | inr fits ↦ let none_left : suc (length l) - n ≡ 0 = ground arith in rw (fits, none_left)
]

-- What the operations on the list keep.
module _ {ℓ} (Q : Entry → Type ℓ) where
  pub All-delete : (k : Key) (l : Entries) → All Q l → All Q (delete k l)
  unfolding delete
  All-delete k [] h = tt
  All-delete k ((j, e) ∷ l) (q, h) = ground (arith, All-delete k l h)

  pub All-drop : (n : ℕ) (l : Entries) → All Q l → All Q (drop n l)
  All-drop zero l h = h
  All-drop (suc n) [] h = tt
  All-drop (suc n) (e ∷ l) (q, h) = All-drop n l h

key_eq_sym : (a b : Key) → key_eq a b ≡ false → key_eq b a ≡ false
key_eq_sym a b h = ground (arith, key_eq_iff a b, key_eq_iff b a)

pub Absent-delete : (k : Key) (l : Entries) → IsDistinct l → Absent k (delete k l)
unfolding delete
Absent-delete k [] d = tt
Absent-delete k ((j, e) ∷ l) (a, d) = elim (Bool-cases (key_eq j k)) [
  | inl same ↦ let eq : j ≡ k = (key_eq_iff j k).0 same in rw same (rw eq at a)
  | inr other ↦ rw other (other, Absent-delete k l d)
]

pub delete-IsDistinct : (k : Key) (l : Entries) → IsDistinct l → IsDistinct (delete k l)
unfolding delete
delete-IsDistinct k [] d = tt
delete-IsDistinct k ((j, e) ∷ l) (a, d) =
    ground (arith, delete-IsDistinct k l d, All-delete (λ e. key_eq e.0 j ≡ false) k l a)

pub snoc-IsDistinct :
    (k : Key) (e : ℕ × Value) (l : Entries)
    → IsDistinct l
    → Absent k l
    → IsDistinct (l ++ (k, e) ∷ [])
snoc-IsDistinct k e [] d a = (tt, tt)
snoc-IsDistinct k e ((j, x) ∷ l) (b, d) (n, a) =
    (All-append _ l _ b (key_eq_sym j k n, tt), snoc-IsDistinct k e l d a)

pub drop-IsDistinct : (n : ℕ) (l : Entries) → IsDistinct l → IsDistinct (drop n l)
drop-IsDistinct zero l d = d
drop-IsDistinct (suc n) [] d = tt
drop-IsDistinct (suc n) ((j, e) ∷ l) (a, d) = drop-IsDistinct n l d

-- A deletion drops one entry if the key is there, and none otherwise.
pub length-delete :
    (k : Key) (l : Entries)
    → length (delete k l) + (elim (find k l) [ none ↦ 0 | some _ ↦ 1 ]) ≡ length l
unfolding delete find
length-delete k [] = refl
length-delete k ((j, e) ∷ l) = ground (arith, length-delete k l)
