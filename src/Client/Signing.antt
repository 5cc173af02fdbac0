-- ===== src/Client/Signing.antt =====
-- The signatures of a connector's requests, internal/clientconnector/signing.go. Base64, SHA-256 and
-- Ed25519 are a record of operations; seconds are those of Unix time, an int64.
use tok_hub.Prelude.{
  ℕ, zero, suc, ◌+◌, ◌-◌, ◌*◌, ◌/◌, ◌%◌, ◌<◌, ◌^◌, String, ◌≡◌, ◌≤◌, refl, subst, Bool, true, false,
  not, ◌||◌, Option, none, some, ◌==◌, arith, eqb, ltb, if◌then◌else◌, Bool-cases, inl, inr,
}
use Prim.Native.Nat.pow
use Prim.Native.Char.{Char, char}
use Prim.Native.String.{◌∷◌, ◌++◌}
use tok_hub.Prelude.Text.{trim_space, to_upper, byte_length, IsScalar-of_ascii}
use tok_hub.Clock.{Time, Duration, second, minute, unix_epoch}

-- An int64: a number that is not negative, or the amount of one that is.
pub data Stamp : Type 0 where
  since before : ℕ → Stamp

-- time.Unix. An instant before the zero time is the zero time here; every clock is far past both.
unfoldable pub unix_time : Stamp → Time
unix_time (since n) = unix_epoch + n * second
unix_time (before n) = unix_epoch - n * second

digit : ℕ → Char
digit d = char (48 + d % 10) (IsScalar-of_ascii (48 + d % 10) (omega arith))

-- The decimal digits of a number in front of a text, `k` of them at most.
unfoldable pub put_digits : ℕ → ℕ → String → String
unfolding digit
put_digits zero n s = s
put_digits (suc k) n s =
    let rest = put_digits k (n / 10) (digit n ∷ s) in if ltb n 10 then digit n ∷ s else rest

-- strconv.FormatInt in base 10: an int64 has 19 digits at most.
unfoldable pub format_int : Stamp → String
format_int (since n) = put_digits 19 n ""
format_int (before n) = "-" ++ put_digits 19 n ""

-- The digits that it writes are all of the number's: more of them would be the same.
pub put_digits-enough :
    (k n : ℕ) (s : String) → n < 10 ^ suc k → put_digits (suc (suc k)) n s ≡ put_digits (suc k) n s
unfolding put_digits
put_digits-enough zero n s h = elim (Bool-cases (ltb n 10)) [
  | inl short ↦ rw short refl
  | inr long ↦ absurd (ground arith)
]
put_digits-enough (suc k) n s h = elim (Bool-cases (ltb n 10)) [
  | inl short ↦ rw short refl
  | inr long ↦ rw long (
      put_digits-enough k (n / 10) (digit n ∷ s)
        (let p = pow.suc 10 (suc k) in omega (arith, h, p)))
]

-- CanonicalRequest; `hash` is the hexadecimal SHA-256.
unfoldable pub canonical_request :
    (String → String) → String → String → String → Stamp → String → String
canonical_request hash method path body timestamp nonce =
    to_upper (trim_space method)
    ++ "\n"
    ++ path
    ++ "\n"
    ++ hash body
    ++ "\n"
    ++ format_int timestamp
    ++ "\n"
    ++ trim_space nonce

pub data SignatureError : Type 0 where
  stale_request invalid_public_key invalid_signature : SignatureError

-- The operations on bytes.
pub record Signatures (B : Type 0) : Type 0 where
  pub decode : String → Option B
  pub encode : B → String
  pub size : B → ℕ
  pub hash : String → String
  pub sign : B → String → B
  pub public : B → B
  pub verify : B → String → B → Bool

-- What is documented of them: unpadded base64 is read back and has no blanks, keys and signatures have
-- their sizes, and a signature verifies.
pub record SignatureLaws {B : Type 0} (o : Signatures B) : Type 0 where
  pub decode-encode : (b : B) → o.decode (o.encode b) ≡ some b
  pub trim-encode : (b : B) → trim_space (o.encode b) ≡ o.encode b
  pub size-public : (k : B) → o.size k ≡ 64 → o.size (o.public k) ≡ 32
  pub size-sign : (k : B) (m : String) → o.size k ≡ 64 → o.size (o.sign k m) ≡ 64
  pub verify-sign :
      (k : B) (m : String) → o.size k ≡ 64 → o.verify (o.public k) m (o.sign k m) ≡ true

abbrev pub maximum_clock_skew : Duration
maximum_clock_skew = minute

unfoldable pub is_stale : Stamp → Time → Bool
is_stale timestamp now =
    ltb (unix_time timestamp) (now - maximum_clock_skew)
    || ltb (now + maximum_clock_skew) (unix_time timestamp)

-- A text that decodes to a given number of bytes.
unfoldable pub decode_sized : {B : Type 0} → Signatures B → ℕ → String → Option B
decode_sized o n text = elim (o.decode (trim_space text)) [
  | none ↦ none
  | some b ↦ if eqb (o.size b) n then some b else none
]

module _ {B : Type 0} (o : Signatures B) where
  unfoldable pub sign_request : B → String → String → String → Stamp → String → Option String
  sign_request key method path body timestamp nonce =
      if not (eqb (o.size key) 64)
      then none
      else some (o.encode (o.sign key (canonical_request o.hash method path body timestamp nonce)))

  -- VerifyRequest, of a time that is not zero.
  unfoldable pub verify_request :
      String → String → String → String → String → Stamp → String → Time → Option SignatureError
  verify_request public_key signature method path body timestamp nonce now =
      if is_stale timestamp now then some stale_request else elim (decode_sized o 32 public_key) [
        | none ↦ some invalid_public_key
        | some key ↦ elim (decode_sized o 64 signature) [
          | none ↦ some invalid_signature
          | some sig ↦
              if trim_space nonce == "" || ltb 128 (byte_length nonce)
              then some invalid_signature
              else if o.verify key (canonical_request o.hash method path body timestamp nonce) sig
              then none
              else some invalid_signature
        ]
      ]

  decode-sized :
      SignatureLaws o → (n : ℕ) (b : B) → o.size b ≡ n → decode_sized o n (o.encode b) ≡ some b
  unfolding decode_sized
  decode-sized laws n b e =
      let d = laws.decode-encode b in
      let same : eqb (o.size b) n ≡ true = ground (arith, e) in
      rw (decode_sized, laws.trim-encode b, d, same) refl

  -- A request that is signed with a private key passes with its public key within a minute of its
  -- timestamp, on either side of it, with a nonce that is not blank and has 128 bytes at most.
  pub signed_request_passes :
      SignatureLaws o
      → (key : B) (signature method path body nonce : String) (timestamp : Stamp) (now : Time)
      → sign_request key method path body timestamp nonce ≡ some signature
      → now ≤ unix_time timestamp + minute
      → unix_time timestamp ≤ now + minute
      → (trim_space nonce == "") ≡ false
      → byte_length nonce ≤ 128
      → verify_request (o.encode (o.public key)) signature method path body timestamp nonce now
        ≡ none
  unfolding sign_request verify_request
  signed_request_passes laws key signature method path body nonce timestamp now e late early given
        short =
      elim (Bool-cases (eqb (o.size key) 64)) [
        | inr other ↦ absurd (ground arith)
        | inl sized ↦
            (let m = canonical_request o.hash method path body timestamp nonce in
              let size : o.size key ≡ 64 = ground arith in
              let text : o.encode (o.sign key m) ≡ signature = ground arith in
              let fresh : is_stale timestamp now ≡ false = unfold is_stale in ground arith in
              let pk = decode-sized laws 32 (o.public key) (laws.size-public key size) in
              let sig : decode_sized o 64 signature ≡ some (o.sign key m) =
                subst (λ t. decode_sized o 64 t ≡ some (o.sign key m)) text
                  (decode-sized laws 64 (o.sign key m) (laws.size-sign key m size)) in
              let fits : ltb 128 (byte_length nonce) ≡ false = ground arith in
              rw (verify_request, fresh, pk, sig, given, fits, laws.verify-sign key m size) refl)
      ]
