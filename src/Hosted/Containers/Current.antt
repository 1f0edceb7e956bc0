-- ===== src/Hosted/Containers/Current.antt =====
-- The single assignments of `ensureDeploymentModel`: what each leaves, and that another finds nothing
-- to change.
use showroom_msp_private_llm.Prelude.{
  String, ◌≡◌, refl, Bool, true, false, some, List, [], ◌∷◌, ◌++◌, ◌==◌, Bool-cases, inl, inr,
  if◌then◌else◌, and_parts, eq_of_==,
}
use text.Mathlib.TextPositions.{eq_refl}
use showroom_msp_private_llm.Prelude.Dict.{lookup}
use showroom_msp_private_llm.Kube.Workloads.{EnvVar}
use showroom_msp_private_llm.Hosted.Containers.{
  keep_or, string_slice_equal, write_model_path, ensure_env,
}

-- An assignment whose test the desired value passes leaves a value that passes it.
pub keep_or_passes {ℓ} :
    {A : Type ℓ} (test : A → Bool) (current desired : A)
    → test desired ≡ true
    → test (keep_or (test current) current desired).0 ≡ true
unfolding keep_or
keep_or_passes test current desired h = elim (Bool-cases (test current)) [
  | inl e ↦ rw e e
  | inr e ↦ rw e h
]

-- Then the next assignment changes nothing.
pub keep_or_again {ℓ} :
    {A : Type ℓ} (test : A → Bool) (current desired : A)
    → test desired ≡ true
    → let kept : A = (keep_or (test current) current desired).0 in
      (keep_or (test kept) kept desired).1 ≡ false
unfolding keep_or
keep_or_again test current desired h = elim (Bool-cases (test current)) [
  | inl e ↦ rw e (rw e refl)
  | inr e ↦ rw e (rw h refl)
]

pub string_slice_equal_refl : (xs : List String) → string_slice_equal xs xs ≡ true
unfolding string_slice_equal
string_slice_equal_refl [] = refl
string_slice_equal_refl (x ∷ xs) = rw (eq_refl x) (string_slice_equal_refl xs)

pub string_slice_equal_sound : (xs ys : List String) → string_slice_equal xs ys ≡ true → xs ≡ ys
unfolding string_slice_equal
string_slice_equal_sound [] [] h = refl
string_slice_equal_sound [] (y ∷ ys) h = cc
string_slice_equal_sound (x ∷ xs) [] h = cc
string_slice_equal_sound (x ∷ xs) (y ∷ ys) h =
    let (first, rest) = and_parts (x == y) (string_slice_equal xs ys) h in
    let head : x ≡ y = eq_of_== x y first in let tail = string_slice_equal_sound xs ys rest in cc

write_model_path_again :
    (v : String) (env : List EnvVar)
    → write_model_path v (write_model_path v env).0
      ≡ ((write_model_path v env).0, ((write_model_path v env).1.0, false))
unfolding write_model_path
write_model_path_again v [] = refl
write_model_path_again v ((name, old) ∷ env) =
    let later = write_model_path_again v env in
    elim (Bool-cases (name == "MODEL_PATH")) [
      | inl e ↦ rw e (rw e (rw later (rw (eq_refl v) refl)))
      | inr e ↦ rw e (rw e (rw later refl))
    ]

write_model_path-append :
    (v : String) (env : List EnvVar)
    → (write_model_path v env).1.0 ≡ false
    → write_model_path v (env ++ ("MODEL_PATH", v) ∷ [])
      ≡ (env ++ ("MODEL_PATH", v) ∷ [], (true, false))
unfolding write_model_path
write_model_path-append v [] h = rw (eq_refl v) refl
write_model_path-append v ((name, old) ∷ env) h = elim (Bool-cases (name == "MODEL_PATH")) [
  | inl e ↦ cc (rw e at h)
  | inr e ↦ rw e (rw (write_model_path-append v env (rw e at h)) refl)
]

-- Writing the path a second time changes nothing.
pub ensure_env_again :
    (v : String) (env : List EnvVar) → (ensure_env v (ensure_env v env).0).1 ≡ false
unfolding ensure_env
ensure_env_again v env = elim (Bool-cases (write_model_path v env).1.0) [
  | inl e ↦ rw e (rw (write_model_path_again v env) (rw e refl))
  | inr e ↦ rw e (rw (write_model_path-append v env e) refl)
]

lookup-write_model_path :
    (v : String) (env : List EnvVar)
    → lookup "MODEL_PATH" (write_model_path v env).0
      ≡ (if (write_model_path v env).1.0 then some v else lookup "MODEL_PATH" env)
unfolding lookup write_model_path
lookup-write_model_path v [] = refl
lookup-write_model_path v ((name, old) ∷ env) =
    let later = lookup-write_model_path v env in
    elim (Bool-cases (name == "MODEL_PATH")) [
      | inl e ↦ rw e (rw e refl)
      | inr e ↦ rw e (rw e later)
    ]

lookup-append :
    (v : String) (env : List EnvVar)
    → (write_model_path v env).1.0 ≡ false
    → lookup "MODEL_PATH" (env ++ ("MODEL_PATH", v) ∷ []) ≡ some v
unfolding lookup write_model_path
lookup-append v [] h = refl
lookup-append v ((name, old) ∷ env) h = elim (Bool-cases (name == "MODEL_PATH")) [
  | inl e ↦ cc (rw e at h)
  | inr e ↦ rw e (lookup-append v env (rw e at h))
]

pub lookup-ensure_env :
    (v : String) (env : List EnvVar) → lookup "MODEL_PATH" (ensure_env v env).0 ≡ some v
unfolding ensure_env
lookup-ensure_env v env = elim (Bool-cases (write_model_path v env).1.0) [
  | inl e ↦ rw e (rw (lookup-write_model_path v env) (rw e refl))
  | inr e ↦ rw e (lookup-append v env e)
]
