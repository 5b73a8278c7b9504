-- ===== src/Tests/Unary.antt =====
-- A stand-in for base64 that reads back what it writes.
use passbubble.Prelude.{
  ℕ, zero, suc, String, Option, none, some, [], ◌∷◌, ◌==◌, if◌then◌else◌, ◌≡◌, refl, arith,
}
use Prim.Native.Char.{code}
use passbubble.Store.{Bytes}

-- Bytes as texts: each byte in unary, closed by a 'b'.
abbrev mark : ℕ → String → String
mark zero s = String.◌∷◌ "b" s
mark (suc n) s = String.◌∷◌ "a" (mark n s)

abbrev pub encode : Bytes → String
encode [] = String.[]
encode (b ∷ bs) = mark b (encode bs)

abbrev add_mark : ℕ → Option Bytes → Option Bytes
add_mark c none = none
add_mark c (some []) = if c == 98 then some (0 ∷ []) else none
add_mark c (some (b ∷ bs)) = if c == 98 then some (0 ∷ b ∷ bs) else some (suc b ∷ bs)

abbrev pub decode : String → Option Bytes
decode String.[] = some []
decode (String.◌∷◌ c s) = add_mark (code c) (decode s)

decode-mark :
    (n : ℕ) (s : String) (bs : Bytes) → decode s ≡ some bs → decode (mark n s) ≡ some (n ∷ bs)
decode-mark zero s [] h = ground arith
decode-mark zero s (b ∷ bs) h = ground arith
decode-mark (suc n) s bs h = ground (arith, decode-mark n s bs h)

pub decode-encode : (b : Bytes) → decode (encode b) ≡ some b
decode-encode [] = refl
decode-encode (b ∷ bs) = decode-mark b (encode bs) bs (decode-encode bs)
