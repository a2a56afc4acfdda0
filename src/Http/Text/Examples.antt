-- ===== src/Http/Text/Examples.antt =====
-- Bodies that are UTF-8, and that are not.
use pycage.Prelude.{ℕ, ◌≡◌, refl, List, [], ◌∷◌, inl, inr, arith}
use pycage.Http.Text.{start, first_byte, take_byte, decode, text}
use pycage.Http.Text.RoundTrip.{encode, text-encode}

-- A body that is no UTF-8: a truncated character, and a byte that starts none.
replaced :
    decode start (226 ∷ 130 ∷ 65 ∷ 255 ∷ 240 ∷ 128 ∷ []) ≡ 65533 ∷ 65 ∷ 65533 ∷ 65533 ∷ 65533 ∷ []
unfolding decode take_byte first_byte
replaced = refl

-- `é€😀`
abbrev characters : List ℕ
characters = 233 ∷ 8364 ∷ 128512 ∷ []

text-encode_example :
    text (record { status_code = 200; content = encode characters; url = "" }) ≡ characters
text-encode_example =
    text-encode characters (record { status_code = 200; content = encode characters; url = "" })
      (inl (omega arith), (inl (omega arith), (inr (omega arith, omega arith), tt))) refl
