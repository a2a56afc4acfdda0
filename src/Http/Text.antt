-- ===== src/Http/Text.antt =====
-- guest/pycage_http.py, `Response.text`: `bytes.decode("utf-8", errors="replace")`, as a machine
-- that takes one byte after the other. A text is the list of its code points.
pub mod RoundTrip
mod Examples
use pycage.Prelude.{
  ℕ, zero, suc, ◌+◌, ◌-◌, ◌*◌, Bool, true, false, ◌&&◌, List, [], ◌∷◌, ◌++◌, ltb, leb, ◌==◌,
  if◌then◌else◌,
}
use pycage.Http.{Bytes, Response}

-- Between two characters, or inside one: the bytes that it still needs, the bits so far, and the
-- range of the next byte.
pub data Decoder : Type 0 where
  start : Decoder
  inside : (needed bits low high : ℕ) → Decoder

-- `U+FFFD`, which stands for a sequence that is not UTF-8
abbrev pub replacement : ℕ
replacement = 65533

-- The first byte of a character: 128 to 193, and 245 on, are none.
unfoldable pub first_byte : ℕ → List ℕ × Decoder
first_byte b =
    if ltb b 128
    then (b ∷ [], start)
    else if ltb b 194
    then (replacement ∷ [], start)
    else if ltb b 224
    then ([], inside 1 (b - 192) 128 191)
    else if b == 224
    then ([], inside 2 0 160 191)
    else if b == 237
    then ([], inside 2 13 128 159)
    else if ltb b 240
    then ([], inside 2 (b - 224) 128 191)
    else if b == 240
    then ([], inside 3 0 144 191)
    else if ltb b 244
    then ([], inside 3 (b - 240) 128 191)
    else if b == 244
    then ([], inside 3 4 128 143)
    else (replacement ∷ [], start)

-- A byte that does not continue the character ends it, replaced, and is a first byte itself.
unfoldable pub take_byte : Decoder → ℕ → List ℕ × Decoder
unfolding first_byte
take_byte start b = first_byte b
take_byte (inside needed bits low high) b =
    if leb low b && leb b high
    then (if needed == 1
        then ((bits * 64 + (b - 128)) ∷ [], start)
        else ([], inside (needed - 1) (bits * 64 + (b - 128)) 128 191))
    else (replacement ∷ (first_byte b).0, (first_byte b).1)

unfoldable pub decode : Decoder → Bytes → List ℕ
unfolding take_byte
decode start [] = []
decode (inside needed bits low high) [] = replacement ∷ []
decode d (b ∷ bs) = (take_byte d b).0 ++ decode (take_byte d b).1 bs

-- `Response.text`
abbrev pub text : Response → List ℕ
text r = decode start r.content
