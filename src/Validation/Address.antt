-- ===== src/Validation/Address.antt =====
-- What `validate_address` and `validate_txid` accept, and what they raise.
use mathlib.Core.Path.{subst}
use mathlib.Core.List.{cons-ne-nil}
use algorandscout.Prelude.{
  All, List, Option-cases, Text, [], ap, arith, codes, drop, inl, inr, length, some, take,
  text_eq_iff, true, ℕ, ◌++◌, ◌-◌, ◌↔◌, ◌∷◌, ◌≡◌,
}
use algorandscout.Python.{
  >>=-eq-ok, Exception, Platform, Result, Result-cases, Value, ok, raise, text, validation_error,
  ◌>>=◌,
}
use algorandscout.Validation.{
  b32_decode, base32_match, check_address, last_4, padding, validate_address, validate_txid,
}
use algorandscout.Validation.Base32.{
  All-base32_match, All-padding, IsBase32, RefusesOther, base32_match-All,
}

-- An Algorand address: 58 base32 characters for 32 bytes of key and the last 4 of its hash.
pub record IsAddress (P : Platform) (s : Text) : Type 0 where
  pub fits : length s ≡ 58
  pub alphabet : All IsBase32 s
  pub raw : List ℕ
  pub decodes : P.b32decode (s ++ codes "======") ≡ some raw
  pub raw_length : length raw ≡ 36
  pub digest : List ℕ
  pub hashes : P.sha512_256 (take 32 raw) ≡ some digest
  pub checksum : drop 32 raw ≡ drop (length digest - 4) digest

-- A transaction id: 52 base32 characters for 32 bytes.
pub record IsTxid (P : Platform) (s : Text) : Type 0 where
  pub fits : length s ≡ 52
  pub alphabet : All IsBase32 s
  pub raw : List ℕ
  pub decodes : P.b32decode (s ++ codes "====") ≡ some raw
  pub raw_length : length raw ≡ 32

-- `hashlib` has SHA-512/256.
pub record HashAvailable (P : Platform) : Type 0 where
  pub digest : List ℕ → List ℕ
  pub available : (key : List ℕ) → P.sha512_256 key ≡ some (digest key)

abbrev pub IsValidationError : Exception → Type 0
IsValidationError (validation_error m) = Unit
IsValidationError _ = ⊥

module _ (P : Platform) where
  b32_decode-eq-ok :
      (what s : Text) (n : ℕ) (raw : List ℕ)
      → b32_decode P what s n ≡ ok raw
      → (P.b32decode (s ++ padding s) ≡ some raw) × (length raw ≡ n)
  unfolding b32_decode
  b32_decode-eq-ok what s n raw h = ground arith

  b32_decode-error :
      (what s : Text) (n : ℕ) (e : Exception)
      → b32_decode P what s n ≡ raise e
      → IsValidationError e
  unfolding b32_decode
  b32_decode-error what s n e h = ground arith

  check_address-eq-ok :
      (s t : Text) (raw : List ℕ)
      → check_address P s raw ≡ ok t
      → (s ≡ t)
        × (digest : List ℕ) × (P.sha512_256 (take 32 raw) ≡ some digest)
        × (drop 32 raw ≡ last_4 digest)
  unfolding check_address
  check_address-eq-ok s t raw h = elim (Option-cases (P.sha512_256 (take 32 raw))) [
    | inl e ↦ absurd (ground arith)
    | inr (digest, e) ↦
        let same : drop 32 raw ≡ last_4 digest =
          (text_eq_iff (drop 32 raw) (last_4 digest)).0 (ground arith) in
        (ground arith, digest, e, same)
  ]

  check_address-error :
      HashAvailable P
      → (s : Text) (raw : List ℕ) (e : Exception) → check_address P s raw ≡ raise e
      → IsValidationError e
  unfolding check_address
  check_address-error a s raw e h = ground (arith, a.available (take 32 raw))

  padding_58 : (s : Text) → length s ≡ 58 → padding s ≡ codes "======"
  padding_58 s h = rw h

  padding_52 : (s : Text) → length s ≡ 52 → padding s ≡ codes "===="
  padding_52 s h = rw h

  -- The tests in front of the decoder.
  validate_address-parts :
      (t s : Text)
      → validate_address P (text t) ≡ ok s
      → (length t ≡ 58)
        × (base32_match t ≡ true)
        × ((b32_decode P (codes "address") t 36 >>= check_address P t) ≡ ok s)
  unfolding validate_address
  validate_address-parts t s h = ground arith

  validate_txid-parts :
      (t s : Text)
      → validate_txid P (text t) ≡ ok s
      → (length t ≡ 52)
        × (base32_match t ≡ true)
        × ((b32_decode P (codes "transaction id") t 32 >>= λ raw. ok t) ≡ ok s)
  unfolding validate_txid
  validate_txid-parts t s h = ground arith

  validate_address_sound :
      RefusesOther P
      → (v : Value) (s : Text) → validate_address P v ≡ ok s
      → (v ≡ text s) × IsAddress P s
  validate_address_sound r (text t) s h =
      let (fits, match, rest) = validate_address-parts t s h in
      let (raw, decoded, checked) = >>=-eq-ok _ _ rest in
      let (decodes, raw_length) = b32_decode-eq-ok _ t 36 raw decoded in
      let (same, digest, hashes, checksum) = check_address-eq-ok t s raw checked in
      let a : IsAddress P t = record {
        fits = fits;
        alphabet = base32_match-All t match (All-padding t (r.refuses _ raw decodes));
        raw = raw;
        decodes = rw (padding_58 t fits) at decodes;
        raw_length = raw_length;
        digest = digest;
        hashes = hashes;
        checksum = checksum;
      } in
      (ap text same, subst (IsAddress P) same a)
  validate_address_sound r _ s h = unfold validate_address in cc

  validate_txid_sound :
      RefusesOther P → (v : Value) (s : Text) → validate_txid P v ≡ ok s → (v ≡ text s) × IsTxid P s
  validate_txid_sound r (text t) s h =
      let (fits, match, rest) = validate_txid-parts t s h in
      let (raw, decoded, checked) = >>=-eq-ok _ _ rest in
      let (decodes, raw_length) = b32_decode-eq-ok _ t 32 raw decoded in
      let same : t ≡ s = cc in
      let a : IsTxid P t = record {
        fits = fits;
        alphabet = base32_match-All t match (All-padding t (r.refuses _ raw decodes));
        raw = raw;
        decodes = rw (padding_52 t fits) at decodes;
        raw_length = raw_length;
      } in
      (ap text same, subst (IsTxid P) same a)
  validate_txid_sound r _ s h = unfold validate_txid in cc

  b32_decode_complete :
      (what s : Text) (n : ℕ) (raw : List ℕ)
      → P.b32decode (s ++ padding s) ≡ some raw
      → length raw ≡ n
      → b32_decode P what s n ≡ ok raw
  unfolding b32_decode
  b32_decode_complete what s n raw h k = ground arith

  check_address_complete :
      (s : Text) (raw digest : List ℕ)
      → P.sha512_256 (take 32 raw) ≡ some digest
      → drop 32 raw ≡ last_4 digest
      → check_address P s raw ≡ ok s
  unfolding check_address
  check_address_complete s raw digest h k =
      ground (arith, text_eq_iff (drop 32 raw) (last_4 digest))

  validate_address_complete : (s : Text) → IsAddress P s → validate_address P (text s) ≡ ok s
  unfolding validate_address
  validate_address_complete [] a = absurd (omega arith)
  validate_address_complete (c ∷ s) a =
      let padded : P.b32decode ((c ∷ s) ++ padding (c ∷ s)) ≡ some a.raw =
        rw (padding_58 (c ∷ s) a.fits) a.decodes in
      rw (a.fits, All-base32_match (c ∷ s) (cons-ne-nil c s) a.alphabet)
        (rw (b32_decode_complete (codes "address") (c ∷ s) 36 a.raw padded a.raw_length)
          (check_address_complete (c ∷ s) a.raw a.digest a.hashes a.checksum))

  validate_txid_complete : (s : Text) → IsTxid P s → validate_txid P (text s) ≡ ok s
  unfolding validate_txid
  validate_txid_complete [] a = absurd (omega arith)
  validate_txid_complete (c ∷ s) a =
      let padded : P.b32decode ((c ∷ s) ++ padding (c ∷ s)) ≡ some a.raw =
        rw (padding_52 (c ∷ s) a.fits) a.decodes in
      rw (a.fits, All-base32_match (c ∷ s) (cons-ne-nil c s) a.alphabet)
        (rw (b32_decode_complete (codes "transaction id") (c ∷ s) 32 a.raw padded a.raw_length))

  -- If the base32 decoder refuses foreign characters, `validate_address` returns exactly the texts
  -- that are Algorand addresses: 58 base32 characters that decode to 36 bytes, the last 4 of them
  -- the last 4 of the hash of the first 32. It returns its argument, and takes nothing but a text.
  pub validate_address_iff :
      RefusesOther P
      → (v : Value) (s : Text) → (validate_address P v ≡ ok s) ↔ ((v ≡ text s) × IsAddress P s)
  validate_address_iff r v s =
      (validate_address_sound r v s, λ h. rw h.0 (validate_address_complete s h.1))

  -- If the base32 decoder refuses foreign characters, `validate_txid` returns exactly the texts of
  -- 52 base32 characters that decode to 32 bytes, unchanged.
  pub validate_txid_iff :
      RefusesOther P
      → (v : Value) (s : Text) → (validate_txid P v ≡ ok s) ↔ ((v ≡ text s) × IsTxid P s)
  validate_txid_iff r v s = (validate_txid_sound r v s, λ h. rw h.0 (validate_txid_complete s h.1))

  raise->>= :
      (what s : Text) (n : ℕ) (k : List ℕ → Result Text) (e : Exception)
      → ((raw : List ℕ) → k raw ≡ raise e → IsValidationError e)
      → (b32_decode P what s n >>= k) ≡ raise e
      → IsValidationError e
  raise->>= what s n k e later h = elim (Result-cases (b32_decode P what s n)) [
    | inl (raw, e') ↦ later raw (rw e' at h)
    | inr (x, e') ↦
        let same : x ≡ e = cc in subst IsValidationError same (b32_decode-error what s n x e')
  ]

  validate_address-error :
      HashAvailable P
      → (v : Value) (e : Exception) → validate_address P v ≡ raise e
      → IsValidationError e
  unfolding validate_address
  validate_address-error a (text s) e h = ground (
    arith,
    raise->>= (codes "address") s 36 (check_address P s) e (λ raw. check_address-error a s raw e),
  )
  validate_address-error a _ e h = ground arith

  validate_txid-error :
      (v : Value) (e : Exception) → validate_txid P v ≡ raise e → IsValidationError e
  unfolding validate_txid
  validate_txid-error (text s) e h =
      ground (arith, raise->>= (codes "transaction id") s 32 (λ raw. ok s) e (λ raw k. cc))
  validate_txid-error _ e h = ground arith

  -- If SHA-512/256 is available, whatever `validate_address` raises is a `ValidationError`,
  -- whatever value it is given and whatever the decoder raises, and the same holds of
  -- `validate_txid`.
  pub validation_errors :
      HashAvailable P
      → (v : Value) (e : Exception)
      → (validate_address P v ≡ raise e → IsValidationError e)
        × (validate_txid P v ≡ raise e → IsValidationError e)
  validation_errors a v e = (validate_address-error a v e, validate_txid-error v e)
