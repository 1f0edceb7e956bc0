-- ===== src/Hosted/Models/Flags.antt =====
-- A number that `setServerIntFlag` writes is the one that `serverIntFlag` reads.
use showroom_msp_private_llm.Prelude.{
  String, ◌≡◌, refl, ◌∙◌, true, false, none, some, List, [], ◌∷◌, ◌++◌, ◌==◌, inl, inr, arith,
  Bool-cases, Option-cases,
}
use text.Mathlib.TextPositions.{eq_refl}
use showroom_msp_private_llm.Prelude.Int.{ℤ}
use showroom_msp_private_llm.Hosted.Models.{
  Texts, replace_flag, set_server_int_flag, server_int_flag,
}

module _ (texts : Texts) (flag : String) (value fallback : ℤ) where
  server_int_flag_skip :
      (a : String) (args : List String)
      → (a == flag) ≡ false
      → server_int_flag texts (a ∷ args) flag fallback ≡ server_int_flag texts args flag fallback
  unfolding server_int_flag
  server_int_flag_skip a [] h = refl
  server_int_flag_skip a (b ∷ rest) h = rw h refl

  server_int_flag_hit :
      (a : String) (rest : List String)
      → texts.atoi (texts.show value) ≡ some value
      → (a == flag) ≡ true
      → server_int_flag texts (a ∷ texts.show value ∷ rest) flag fallback ≡ value
  unfolding server_int_flag
  server_int_flag_hit a rest shown h = rw (h, shown) refl

  replaced_flag :
      (args replaced : List String)
      → texts.atoi (texts.show value) ≡ some value
      → replace_flag texts args flag value ≡ some replaced
      → server_int_flag texts replaced flag fallback ≡ value
  unfolding replace_flag
  replaced_flag [] replaced shown h = cc
  replaced_flag (a ∷ []) replaced shown h = cc
  replaced_flag (a ∷ b ∷ rest) replaced shown h = elim (Bool-cases (a == flag)) [
    | inl hit ↦
        let same : a ∷ texts.show value ∷ rest ≡ replaced = ground (arith, hit) in
        rw (← same) (server_int_flag_hit a rest shown hit)
    | inr miss ↦ elim (Option-cases (replace_flag texts (b ∷ rest) flag value)) [
      | inl nothing ↦ absurd (ground (arith, miss, nothing))
      | inr (later, found) ↦
          let same : a ∷ later ≡ replaced = ground (arith, miss, found) in
          rw (← same)
            (server_int_flag_skip a later miss ∙ replaced_flag (b ∷ rest) later shown found)
    ]
  ]

  appended_flag :
      (args : List String)
      → texts.atoi (texts.show value) ≡ some value
      → texts.atoi flag ≡ none
      → replace_flag texts args flag value ≡ none
      → server_int_flag texts (args ++ flag ∷ texts.show value ∷ []) flag fallback ≡ value
  unfolding replace_flag server_int_flag
  appended_flag [] shown name h = server_int_flag_hit flag [] shown (eq_refl flag)
  appended_flag (a ∷ []) shown name h =
      let last = server_int_flag_hit flag [] shown (eq_refl flag) in
      elim (Bool-cases (a == flag)) [ inl hit ↦ rw (hit, name) last | inr miss ↦ rw miss last ]
  appended_flag (a ∷ b ∷ rest) shown name h =
      let miss : (a == flag) ≡ false = ground (arith, h) in
      let nothing : replace_flag texts (b ∷ rest) flag value ≡ none = ground (arith, h, miss) in
      server_int_flag_skip a ((b ∷ rest) ++ flag ∷ texts.show value ∷ []) miss
      ∙ appended_flag (b ∷ rest) shown name nothing

  -- If `Atoi` reads a printed number back and does not read the flag's name as a number, then
  -- `serverIntFlag` reads the value that `setServerIntFlag` has written into the arguments,
  -- whatever they are: an occurrence is replaced, or the flag is appended.
  pub server_int_flag-set_server_int_flag :
      (args : List String)
      → texts.atoi (texts.show value) ≡ some value
      → texts.atoi flag ≡ none
      → server_int_flag texts (set_server_int_flag texts args flag value) flag fallback ≡ value
  unfolding set_server_int_flag server_int_flag
  server_int_flag-set_server_int_flag args shown name =
      elim (Option-cases (replace_flag texts args flag value)) [
        | inl nothing ↦ rw (nothing, set_server_int_flag) (appended_flag args shown name nothing)
        | inr (replaced, found) ↦
            rw (found, set_server_int_flag) (replaced_flag args replaced shown found)
      ]
