-- ===== src/Metrics/Labels.antt =====
-- `_esc` against the exposition format: an escaped text cannot end its label.
use algorandscout.Metrics.Rendering.{esc, replace}
use algorandscout.Prelude.{
  Bool, Option, Text, [], append_assoc, arith, false, if◌then◌else◌, none, refl, some, true, ℕ,
  ◌++◌, ◌==◌, ◌∷◌, ◌≡◌,
}

-- What one character becomes: a backslash and a quote are escaped, a newline is dropped.
esc_char : ℕ → Text
esc_char c =
    if c == b'\\'
    then b'\\' ∷ b'\\' ∷ []
    else if c == b'"'
    then b'\\' ∷ b'"' ∷ []
    else if c == b'\n'
    then []
    else c ∷ []

abbrev kept_char : ℕ → Text
kept_char c = if c == b'\n' then [] else c ∷ []

-- The text without its newlines.
unfoldable pub one_line : Text → Text
one_line [] = []
one_line (c ∷ s) = kept_char c ++ one_line s

abbrev prefixed : ℕ → Option (Text × Text) → Option (Text × Text)
prefixed c none = none
prefixed c (some (s, rest)) = some (c ∷ s, rest)

-- A reader of label values: a quote ends the value, a backslash takes the next character as it is,
-- but for `n`, which stands for a newline. The result is the value and what follows the quote.
unfoldable pub read_label : Bool → Text → Option (Text × Text)
read_label escaped [] = none
read_label true (c ∷ s) = prefixed (if c == b'n' then b'\n' else c) (read_label false s)
read_label false (c ∷ s) =
    let behind = read_label true s in
    let plain = prefixed c (read_label false s) in
    if c == b'"' then some ([], s) else if c == b'\\' then behind else plain

replace-append :
    (old : ℕ) (new s t : Text) → replace old new (s ++ t) ≡ replace old new s ++ replace old new t
unfolding replace
replace-append old new [] t = refl
replace-append old new (c ∷ s) t =
    ground
      (arith, replace-append old new s t, append_assoc new (replace old new s) (replace old new t))

-- The three passes of `_esc` work on each character by itself.
esc-cons : (c : ℕ) (s : Text) → esc (c ∷ s) ≡ esc_char c ++ esc s
unfolding esc esc_char
esc-cons c s =
    let quoted : Text = b'\\' ∷ b'"' ∷ [] in
    let slashes : Text = b'\\' ∷ b'\\' ∷ [] in
    let inner = replace b'\\' slashes s in
    ground (
      arith,
      replace-append b'"' quoted slashes inner,
      replace-append b'\n' [] quoted (replace b'"' quoted inner),
      replace-append b'\n' [] slashes (replace b'"' quoted inner),
    )

read_label-esc_char :
    (c : ℕ) (s : Text) (v rest : Text)
    → read_label false s ≡ some (v, rest)
    → read_label false (esc_char c ++ s) ≡ some (kept_char c ++ v, rest)
unfolding read_label esc_char
read_label-esc_char c s v rest h = ground arith

-- Whatever text `_esc` is given, its result between quotes is read back as that text without its
-- newlines, and what follows the closing quote is untouched: no route, target or outcome can end
-- its label early.
pub read_label-esc :
    (s rest : Text) → read_label false (esc s ++ b'"' ∷ rest) ≡ some (one_line s, rest)
unfolding one_line
read_label-esc [] rest = unfold esc read_label in refl
read_label-esc (c ∷ s) rest =
    rw (esc-cons c s, append_assoc)
      (read_label-esc_char c (esc s ++ b'"' ∷ rest) (one_line s) rest (read_label-esc s rest))
