-- ===== src/Http/Text/RoundTrip.antt =====
-- A text that was encoded as UTF-8 is read back.
use Prim.Native.Nat.{◌/◌, ◌%◌}
use pycage.Prelude.{
  ℕ, suc, ◌+◌, ◌-◌, ◌*◌, ◌<◌, ◌≤◌, ◌≡◌, refl, List, [], ◌∷◌, ◌++◌, ltb, ◌==◌, if◌then◌else◌, arith,
  Bool-cases, inl, inr, ◌⊎◌, ap, ◌∙◌,
}
use pycage.Http.{Bytes, Response}
use pycage.Http.Text.{Decoder, start, inside, first_byte, take_byte, decode, text}

-- UTF-8.
abbrev pub encode_char : ℕ → Bytes
encode_char c =
    if ltb c 128
    then c ∷ []
    else if ltb c 2048
    then (192 + c / 64) ∷ (128 + c % 64) ∷ []
    else if ltb c 65536
    then (224 + c / 4096) ∷ (128 + c / 64 % 64) ∷ (128 + c % 64) ∷ []
    else (240 + c / 262144) ∷ (128 + c / 4096 % 64) ∷ (128 + c / 64 % 64) ∷ (128 + c % 64) ∷ []

abbrev pub encode : List ℕ → Bytes
encode [] = []
encode (c ∷ cs) = encode_char c ++ encode cs

-- The code points that are characters: all but the surrogates.
abbrev pub IsScalar : ℕ → Type 0
IsScalar c = (c < 55296) ⊎ ((57344 ≤ c) × (c < 1114112))

abbrev pub AreScalars : List ℕ → Type 0
AreScalars [] = Unit {0}
AreScalars (c ∷ cs) = IsScalar c × AreScalars cs

-- The decoder goes on inside a character, and comes to its last byte.
decode-first :
    (b : ℕ) (d : Decoder) (bs : Bytes)
    → first_byte b ≡ ([], d)
    → decode start (b ∷ bs) ≡ decode d bs
unfolding decode take_byte
decode-first b d bs e = rw e refl

decode-next :
    (n bits low high b : ℕ) (bs : Bytes)
    → low ≤ b
    → b ≤ high
    → decode (inside (suc (suc n)) bits low high) (b ∷ bs)
      ≡ decode (inside (suc n) (bits * 64 + (b - 128)) 128 191) bs
unfolding decode take_byte
decode-next n bits low high b bs h k = ground arith

decode-last :
    (bits low high b : ℕ) (bs : Bytes)
    → low ≤ b
    → b ≤ high
    → decode (inside 1 bits low high) (b ∷ bs) ≡ (bits * 64 + (b - 128)) ∷ decode start bs
unfolding decode take_byte
decode-last bits low high b bs h k = ground arith

first_byte-one : (c : ℕ) → c < 128 → first_byte c ≡ (c ∷ [], start)
unfolding first_byte
first_byte-one c h = ground arith

first_byte-two : (b : ℕ) → 194 ≤ b → b < 224 → first_byte b ≡ ([], inside 1 (b - 192) 128 191)
unfolding first_byte
first_byte-two b h k = ground arith

-- The first byte of a character of `n` more bytes, whose next byte is `m`.
abbrev Leads : ℕ → ℕ → ℕ → ℕ → Type 0
Leads n b bits m =
    (low : ℕ) × (high : ℕ) × (first_byte b ≡ ([], inside n bits low high)) × (low ≤ m) × (m ≤ high)

first_byte-three :
    (a m : ℕ)
    → a < 16
    → m < 64
    → (a ≡ 0 → 32 ≤ m)
    → (a ≡ 13 → m < 32)
    → Leads 2 (224 + a) a (128 + m)
unfolding first_byte
first_byte-three a m h k z s = elim (Bool-cases (a == 0)) [
  | inl e ↦ (160, 191, ground arith, ground (arith, z), omega arith)
  | inr e ↦ elim (Bool-cases (a == 13)) [
    | inl f ↦ (128, 159, ground arith, omega arith, ground (arith, s))
    | inr f ↦ (128, 191, ground arith, omega arith, omega arith)
  ]
]

first_byte-four :
    (a m : ℕ) → a < 5 → m < 64 → (a ≡ 0 → 16 ≤ m) → (a ≡ 4 → m < 16) → Leads 3 (240 + a) a (128 + m)
unfolding first_byte
first_byte-four a m h k z s = elim (Bool-cases (a == 0)) [
  | inl e ↦ (144, 191, ground arith, ground (arith, z), omega arith)
  | inr e ↦ elim (Bool-cases (a == 4)) [
    | inl f ↦ (128, 143, ground arith, omega arith, ground (arith, s))
    | inr f ↦ (128, 191, ground arith, omega arith, omega arith)
  ]
]

decode-one : (c : ℕ) (bs : Bytes) → c < 128 → decode start (c ∷ bs) ≡ c ∷ decode start bs
unfolding decode take_byte
decode-one c bs h = rw (first_byte-one c h) refl

decode-two :
    (c : ℕ) (bs : Bytes)
    → 128 ≤ c
    → c < 2048
    → decode start ((192 + c / 64) ∷ (128 + c % 64) ∷ bs) ≡ c ∷ decode start bs
decode-two c bs h k =
    decode-first (192 + c / 64) (inside 1 (192 + c / 64 - 192) 128 191) ((128 + c % 64) ∷ bs)
      (first_byte-two (192 + c / 64) (omega arith) (omega arith))
    ∙ decode-last (192 + c / 64 - 192) 128 191 (128 + c % 64) bs (omega arith) (omega arith)
    ∙ ap (λ x. x ∷ decode start bs) (omega arith)

-- The last two bytes of a character.
decode-tail :
    (bits m l low high : ℕ) (bs : Bytes)
    → low ≤ 128 + m
    → 128 + m ≤ high
    → l < 64
    → decode (inside 2 bits low high) ((128 + m) ∷ (128 + l) ∷ bs)
      ≡ (bits * 4096 + m * 64 + l) ∷ decode start bs
decode-tail bits m l low high bs h k s =
    decode-next 0 bits low high (128 + m) ((128 + l) ∷ bs) h k
    ∙ decode-last (bits * 64 + (128 + m - 128)) 128 191 (128 + l) bs (omega arith) (omega arith)
    ∙ ap (λ x. x ∷ decode start bs) (omega arith)

decode-three :
    (c : ℕ) (bs : Bytes)
    → 2048 ≤ c
    → c < 65536
    → IsScalar c
    → decode start ((224 + c / 4096) ∷ (128 + c / 64 % 64) ∷ (128 + c % 64) ∷ bs)
      ≡ c ∷ decode start bs
decode-three c bs h k scalar =
    let (low, high, e, p, q) =
      first_byte-three (c / 4096) (c / 64 % 64) (omega arith) (omega arith) (λ z. omega arith)
        (surrogates scalar) in
    decode-first (224 + c / 4096) (inside 2 (c / 4096) low high)
      ((128 + c / 64 % 64) ∷ (128 + c % 64) ∷ bs) e
    ∙ decode-tail (c / 4096) (c / 64 % 64) (c % 64) low high bs p q (omega arith)
    ∙ ap (λ x. x ∷ decode start bs) (omega arith)
  where
    surrogates : IsScalar c → c / 4096 ≡ 13 → c / 64 % 64 < 32
    surrogates (inl s) e = omega arith
    surrogates (inr s) e = absurd (omega (arith, s.0))

decode-four :
    (c : ℕ) (bs : Bytes)
    → 65536 ≤ c
    → c < 1114112
    → decode start
        ((240 + c / 262144) ∷ (128 + c / 4096 % 64) ∷ (128 + c / 64 % 64) ∷ (128 + c % 64) ∷ bs)
      ≡ c ∷ decode start bs
decode-four c bs h k =
    let (low, high, e, p, q) =
      first_byte-four (c / 262144) (c / 4096 % 64) (omega arith) (omega arith) (λ z. omega arith)
        (λ z. omega arith) in
    decode-first (240 + c / 262144) (inside 3 (c / 262144) low high)
      ((128 + c / 4096 % 64) ∷ (128 + c / 64 % 64) ∷ (128 + c % 64) ∷ bs) e
    ∙ decode-next 1 (c / 262144) low high (128 + c / 4096 % 64)
        ((128 + c / 64 % 64) ∷ (128 + c % 64) ∷ bs) p q
    ∙ decode-tail (c / 262144 * 64 + (128 + c / 4096 % 64 - 128)) (c / 64 % 64) (c % 64) 128 191 bs
        (omega arith) (omega arith) (omega arith)
    ∙ ap (λ x. x ∷ decode start bs) (omega arith)

decode-char :
    (c : ℕ) (bs : Bytes) → IsScalar c → decode start (encode_char c ++ bs) ≡ c ∷ decode start bs
decode-char c bs s = elim (Bool-cases (ltb c 128)) [
  | inl e ↦ rw e (decode-one c bs (ground arith))
  | inr e ↦ elim (Bool-cases (ltb c 2048)) [
    | inl f ↦ rw (e, f) (decode-two c bs (ground arith) (ground arith))
    | inr f ↦ elim (Bool-cases (ltb c 65536)) [
      | inl g ↦ rw (e, f, g) (decode-three c bs (ground arith) (ground arith) s)
      | inr g ↦ rw (e, f, g) (decode-four c bs (ground arith) (ground (arith, s)))
    ]
  ]
]

-- `Response.text` reads a body that is the UTF-8 of a text, of any characters, back as that text.
pub text-encode : (cs : List ℕ) (r : Response) → AreScalars cs → r.content ≡ encode cs → text r ≡ cs
unfolding decode
text-encode cs r s e = ap (decode start) e ∙ go cs s
  where
    go : (cs : List ℕ) → AreScalars cs → decode start (encode cs) ≡ cs
    go [] s = refl
    go (c ∷ cs) (s, ss) = decode-char c (encode cs) s ∙ ap (λ l. c ∷ l) (go cs ss)
