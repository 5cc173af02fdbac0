-- ===== src/Tests/ToyCipher.antt =====
-- A cipher that hides nothing, with the laws of one: its sealed text has the context woven into it.
use Prim.Native.Char.{char, code}
use Prim.Native.String.{String, [], ◌∷◌}
use text.Mathlib.TextEquality.{Char-path}
use tok_hub.Prelude.{
  ◌≡◌, refl, arith, true, ◌&&◌, Option, none, some, eqb, if◌then◌else◌, Bool-cases, inl, inr,
}
use tok_hub.Crypto.{Cipher, CipherLaws}

unfoldable pub weave : String → String → String
weave plain [] = char 48 tt ∷ plain
weave plain (a ∷ context) = char 49 tt ∷ a ∷ weave plain context

-- The text behind the context.
unfoldable pub unweave : String → String → Option String
unweave [] [] = none
unweave [] (t ∷ text) = if eqb (code t) 48 then some text else none
unweave (a ∷ context) [] = none
unweave (a ∷ context) (t ∷ []) = none
unweave (a ∷ context) (t ∷ b ∷ text) =
    let rest = unweave context text in
    if eqb (code t) 49 && eqb (code b) (code a) then rest else none

unweave-weave : (plain context : String) → unweave context (weave plain context) ≡ some plain
unfolding weave unweave
unweave-weave plain [] = refl
unweave-weave plain (a ∷ context) =
    let same : eqb (code a) (code a) ≡ true = ground arith in rw same (unweave-weave plain context)

unweave_same :
    (plain context other read : String)
    → unweave other (weave plain context) ≡ some read
    → other ≡ context
unfolding weave unweave
unweave_same plain [] [] read e = refl
unweave_same [] [] (a ∷ other) read e = absurd cc
unweave_same (p ∷ plain) [] (a ∷ other) read e = absurd cc
unweave_same plain (b ∷ context) [] read e = absurd cc
unweave_same plain (b ∷ context) (a ∷ other) read e = elim (Bool-cases (eqb (code b) (code a))) [
  | inr apart ↦ absurd (ground arith)
  | inl same ↦
      (let rest = unweave_same plain context other read (ground arith) in
        let chars : b ≡ a = Char-path b a (ground arith) in cc)
]

abbrev pub toy_cipher : Cipher String
toy_cipher = record {
  digest = λ secret. secret;
  seal = λ key nonce plain context. weave plain context;
  open_sealed = λ key nonce sealed context. unweave context sealed;
  mac = λ key text. text;
  encode = λ b. b;
  decode = some;
}

pub toy_cipher_laws : CipherLaws toy_cipher
toy_cipher_laws = record {
  open-seal = λ key nonce plain context. unweave-weave plain context;
  open-context = λ key nonce plain context other read e. unweave_same plain context other read e;
  decode-encode = λ b. refl;
}
