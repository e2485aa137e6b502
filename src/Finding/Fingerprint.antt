-- ===== src/Finding/Fingerprint.antt =====
-- `Fingerprint` of internal/finding/finding.go: the length-prefixed encoding of four fields.
pub mod Injective
use mathlib.Core.List.{flat_map}
use aurvet.Prelude.{
  Bytes, List, [], codes, if◌then◌else◌, length, ltb, refl, suc, take, zero, ℕ, ◌%◌, ◌++◌, ◌+◌, ◌/◌,
  ◌∷◌, ◌≡◌,
}

-- `%d` of a length: decimal digits, the last one on the right.
decimal_fuel : ℕ → ℕ → Bytes
decimal_fuel zero n = []
decimal_fuel (suc f) n =
    let rest = decimal_fuel f (n / 10) ++ (48 + n % 10) ∷ [] in
    if ltb n 10 then (48 + n) ∷ [] else rest

unfoldable pub decimal : ℕ → Bytes
unfolding decimal_fuel
decimal n = decimal_fuel (suc n) n

unfoldable pub encode_field : Bytes → Bytes
encode_field field = decimal (length field) ++ (b':' ∷ field)

unfoldable pub encode_fields : List Bytes → Bytes
encode_fields [] = []
encode_fields (field ∷ fields) = encode_field field ++ encode_fields fields

pub hex_digit : ℕ → ℕ
hex_digit n = if ltb n 10 then 48 + n else 87 + n

-- `hex.EncodeToString`.
unfoldable pub hex : Bytes → Bytes
unfolding hex_digit
hex = flat_map (λ b. hex_digit (b / 16) ∷ hex_digit (b % 16) ∷ [])

-- `sha256` is `crypto/sha256.Sum256`.
unfoldable pub fingerprint : (sha256 : Bytes → Bytes) → Bytes → Bytes → Bytes → Bytes → Bytes
fingerprint sha256 rule_id subject_kind subject scope =
    hex (take 16 (sha256 (encode_fields (rule_id ∷ subject_kind ∷ subject ∷ scope ∷ []))))

decimal_test : decimal 1204 ≡ codes "1204"
unfolding decimal
decimal_test = refl

encode_test : encode_fields (codes "ab" ∷ [] ∷ []) ≡ codes "2:ab0:"
unfolding encode_fields encode_field decimal
encode_test = refl
