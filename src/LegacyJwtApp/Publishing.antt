-- ===== src/LegacyJwtApp/Publishing.antt =====
-- The key set that the app publishes, as the service reads it.
use centralized_identity.Common.{
  sym, ap, Str, codes, ℕ, zero, suc, ◌+◌, ◌*◌, ◌/◌, ◌%◌, ◌≤◌, eqb, eqb_iff, All, [], ◌∷◌, ok, some,
  ◌≡◌, ◌∙◌, refl, inl, inr, arith, Bool-cases,
}
use centralized_identity.Common.Base64.{decode_raw_url}
use centralized_identity.Common.Base64.Encoding.{IsByte, encode_raw_url, decode_raw_url-encode}
use centralized_identity.Jwt.{public_key}
use centralized_identity.Server.Issuers.{TrustedIssuerEntry}
use centralized_identity.Server.Keys.{
  EcJwk, set_bytes, parse_ec_public_key, Network, fetch_all_jwks, decoded_keys,
}
use centralized_identity.Server.Keys.Fetch.{fetch_all_jwks-one}
use centralized_identity.LegacyJwtApp.{big_bytes_from, big_bytes, handle_jwks}

set_bytes-cons : (n b : ℕ) (bs : Str) → set_bytes n (b ∷ bs) ≡ set_bytes (n * 256 + b) bs
unfolding set_bytes
set_bytes-cons n b bs = refl

set_bytes-big_bytes_from :
    (f n : ℕ) (acc : Str) → n ≤ f → set_bytes 0 (big_bytes_from f n acc) ≡ set_bytes n acc
unfolding big_bytes_from
set_bytes-big_bytes_from zero zero acc h = refl
set_bytes-big_bytes_from zero (suc n) acc h = absurd (omega arith)
set_bytes-big_bytes_from (suc f) n acc h = elim (Bool-cases (eqb n 0)) [
  | inl done ↦ rw done (ap (λ m. set_bytes m acc) (sym ((eqb_iff n 0).0 done)))
  | inr more ↦
      let smaller : n / 256 ≤ f = ground (arith, h, more) in
      let whole : n / 256 * 256 + n % 256 ≡ n = omega arith in
      rw more (
        set_bytes-big_bytes_from f (n / 256) (n % 256 ∷ acc) smaller
        ∙ set_bytes-cons (n / 256) (n % 256) acc
        ∙ ap (λ m. set_bytes m acc) whole)
]

big_bytes_from-IsByte : (f n : ℕ) (acc : Str) → All IsByte acc → All IsByte (big_bytes_from f n acc)
unfolding big_bytes_from
big_bytes_from-IsByte zero n acc h = h
big_bytes_from-IsByte (suc f) n acc h = elim (Bool-cases (eqb n 0)) [
  | inl done ↦ rw done h
  | inr more ↦ rw more (big_bytes_from-IsByte f (n / 256) (n % 256 ∷ acc) (omega arith, h))
]

set_bytes-big_bytes : (n : ℕ) → set_bytes 0 (big_bytes n) ≡ n
unfolding big_bytes set_bytes
set_bytes-big_bytes n = set_bytes-big_bytes_from n n [] (omega arith)

decode-coordinate : (n : ℕ) → decode_raw_url (encode_raw_url (big_bytes n)) ≡ some (big_bytes n)
unfolding big_bytes
decode-coordinate n = decode_raw_url-encode (big_bytes n) (big_bytes_from-IsByte n n [] tt)

-- The service reads the published coordinates of a key back as that key.
pub parse_ec_public_key-encode :
    (x y : ℕ) (k : EcJwk)
    → k.x ≡ encode_raw_url (big_bytes x)
    → k.y ≡ encode_raw_url (big_bytes y)
    → parse_ec_public_key k ≡ ok (public_key x y)
unfolding parse_ec_public_key
parse_ec_public_key-encode x y k hx hy =
    rw
      (
        hx,
        hy,
        decode-coordinate x,
        decode-coordinate y,
        set_bytes-big_bytes x,
        set_bytes-big_bytes y,
      )
      refl

-- The key as it is decoded.
abbrev published : ℕ → ℕ → EcJwk
published x y = record {
  kty = codes "EC";
  crv = codes "P-256";
  x = encode_raw_url (big_bytes x);
  y = encode_raw_url (big_bytes y);
  kid = codes "legacy-key-1";
}

decoded_keys-handle_jwks : (x y : ℕ) → decoded_keys (some (handle_jwks x y)) ≡ published x y ∷ []
unfolding decoded_keys handle_jwks
decoded_keys-handle_jwks x y = refl

-- The service gets the key of an app, at its first request, if the network answers that with the
-- key set which the app publishes.
pub fetch_all_jwks-handle_jwks :
    (net : Network) (e : TrustedIssuerEntry) (body : Str) (x y : ℕ)
    → net.get 0 e.jwks_url ≡ some body
    → net.decode_json body ≡ some (handle_jwks x y)
    → fetch_all_jwks net (e ∷ []) ≡ record { keys = (e.name, public_key x y) ∷ []; requests = 1 }
fetch_all_jwks-handle_jwks net e body x y answered decoded =
    fetch_all_jwks-one net e body (published x y) (public_key x y) answered
      (ap decoded_keys decoded ∙ decoded_keys-handle_jwks x y) refl
      (parse_ec_public_key-encode x y (published x y) refl refl)
