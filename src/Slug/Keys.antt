-- ===== src/Slug/Keys.antt =====
-- `rejectDuplicateKeys` of internal/slugpolicy/policy.go, over the tokens that `json.Decoder` hands
-- out. `bad` stands for the error of `Token` at a syntax error, the end of the list for `io.EOF`.
-- The recursion runs on fuel: every round consumes a token, so fuel for their number is enough.
pub mod Laws
use showroom_msp_private_llm.Prelude.{
  ℕ, zero, suc, String, Bool, true, false, List, [], ◌∷◌, ◌||◌, ◌==◌, if◌then◌else◌,
}
use showroom_msp_private_llm.Api.{Result, ok, err, Error, failure}

pub data Token : Type 0 where
  open_object close_object open_array close_array scalar bad : Token
  text : String → Token

unfoldable pub contains : List String → String → Bool
contains [] k = false
contains (j ∷ ks) k = j == k || contains ks k

-- the `switch name` of the loop over an object's fields
unfoldable pub is_known : String → Bool
is_known name =
    name == "cutover"
    || name == "entries"
    || name == "uid"
    || name == "namespace"
    || name == "name"
    || name == "mode"
    || name == "slug"

-- `decoder.More()`
abbrev more : List Token → Bool
more [] = false
more (close_object ∷ _) = false
more (close_array ∷ _) = false
more _ = true

-- `_, err = decoder.Token(); return err`
abbrev skip_token : List Token → Result (List Token)
skip_token [] = err (failure "EOF")
skip_token (bad ∷ _) = err (failure "invalid character")
skip_token (_ ∷ rest) = ok rest

-- `decoder.Token()` where an object's field name is read
abbrev key_token : List String → List Token → Result (String × List Token)
key_token keys [] = err (failure "EOF")
key_token keys (bad ∷ _) = err (failure "invalid character")
key_token keys (text name ∷ rest) =
    if contains keys name
    then err (failure "duplicate or invalid object field")
    else if is_known name
    then ok (name, rest)
    else err (failure "unknown or noncanonical object field")
key_token keys (_ ∷ rest) = err (failure "duplicate or invalid object field")

-- What is left of the tokens behind the value at their head.
unfoldable mutual
  pub reject_duplicate_keys : ℕ → List Token → Result (List Token)
  reject_duplicate_keys zero tokens = err (failure "fuel")
  reject_duplicate_keys (suc fuel) [] = err (failure "EOF")
  reject_duplicate_keys (suc fuel) (bad ∷ _) = err (failure "invalid character")
  reject_duplicate_keys (suc fuel) (scalar ∷ rest) = ok rest
  reject_duplicate_keys (suc fuel) (text _ ∷ rest) = ok rest
  reject_duplicate_keys (suc fuel) (open_object ∷ rest) = object_fields fuel [] rest
  reject_duplicate_keys (suc fuel) (open_array ∷ rest) = array_items fuel rest
  reject_duplicate_keys (suc fuel) (_ ∷ rest) = err (failure "unexpected closing delimiter")

  -- `for decoder.More()` of an object, `keys` the names that were read
  pub object_fields : ℕ → List String → List Token → Result (List Token)
  object_fields zero keys tokens = err (failure "fuel")
  object_fields (suc fuel) keys tokens = elim (more tokens) [
    | false ↦ skip_token tokens
    | true ↦ elim (key_token keys tokens) [
      | err e ↦ err e
      | ok (name, rest) ↦ elim (reject_duplicate_keys fuel rest) [
        | err e ↦ err e
        | ok rest' ↦ object_fields fuel (name ∷ keys) rest'
      ]
    ]
  ]

  -- `for decoder.More()` of an array
  pub array_items : ℕ → List Token → Result (List Token)
  array_items zero tokens = err (failure "fuel")
  array_items (suc fuel) tokens = elim (more tokens) [
    | false ↦ skip_token tokens
    | true ↦ elim (reject_duplicate_keys fuel tokens) [
      | err e ↦ err e
      | ok rest ↦ array_items fuel rest
    ]
  ]
