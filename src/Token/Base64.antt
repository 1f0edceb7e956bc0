-- ===== src/Token/Base64.antt =====
-- `generateToken`: random bytes in URL-safe base64 (`base64.URLEncoding`) without padding.
use showroom_msp_private_llm.Prelude.{
  ℕ, zero, suc, ◌+◌, ◌*◌, ◌/◌, ◌%◌, String, ◌≡◌, refl, List, [], ◌∷◌,
}
use showroom_msp_private_llm.Prelude.Text.{trim_padding}
use showroom_msp_private_llm.Api.{read_random, Api, pure, ◌>>=◌, request}

abbrev alphabet : String
alphabet = "ABCDEFGHIJKLMNOPQRSTUVWXYZabcdefghijklmnopqrstuvwxyz0123456789-_"

nth : String → ℕ → String → String
nth String.[] n rest = rest
nth (String.◌∷◌ c s) zero rest = String.◌∷◌ c rest
nth (String.◌∷◌ c s) (suc n) rest = nth s n rest

abbrev sextet : ℕ → String → String
sextet n rest = nth alphabet n rest

-- `base64.URLEncoding.EncodeToString`
unfoldable pub encode : List ℕ → String
unfolding nth
encode [] = ""
encode (a ∷ []) = sextet (a / 4) (sextet (a % 4 * 16) "==")
encode (a ∷ b ∷ []) = sextet (a / 4) (sextet (a % 4 * 16 + b / 16) (sextet (b % 16 * 4) "="))
encode (a ∷ b ∷ c ∷ rest) =
    sextet (a / 4)
      (sextet (a % 4 * 16 + b / 16) (sextet (b % 16 * 4 + c / 64) (sextet (c % 64) (encode rest))))

unfoldable pub generate_token : ℕ → Api String
generate_token num_bytes = do
  bytes ← request (read_random num_bytes)
  pure (trim_padding (encode bytes))

encode_tests :
    (encode (77 ∷ 97 ∷ 110 ∷ []) ≡ "TWFu")
    × (encode (77 ∷ 97 ∷ []) ≡ "TWE=")
    × (encode (255 ∷ 239 ∷ []) ≡ "_-8=")
unfolding encode
encode_tests = (refl, refl, refl)
