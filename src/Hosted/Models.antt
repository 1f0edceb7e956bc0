-- ===== src/Hosted/Models.antt =====
-- `resolveModel` and `modelForInstance`: the model server's settings, the defaults of the requested
-- model overridden by the instance's spec; `setServerIntFlag` and `serverIntFlag`, which write and
-- read a number in the server's arguments.
pub mod Flags
use showroom_msp_private_llm.Prelude.{
  String, Bool, true, false, Option, none, some, List, [], ◌∷◌, ◌++◌, ◌||◌, ◌&&◌, ◌==◌,
  if◌then◌else◌,
}
use showroom_msp_private_llm.Prelude.Text.{◌+++◌, trim_space}
use showroom_msp_private_llm.Prelude.Int.{ℤ}
use showroom_msp_private_llm.Kube.{CpuResources, MemoryResources, ModelServerResources, LlmInstance}

-- `modelSelection`
pub record ModelSelection : Type 0 where
  pub name : String
  pub file : String
  pub url : String
  pub sha256 : String
  pub server_args : List String
  pub ephemeral_storage_request : String
  pub ephemeral_storage_limit : String
  pub memory_request : String
  pub memory_limit : String
  pub cpu_request : String
  pub cpu_limit : String

-- `strings.ToLower`, `fmt.Sprint` and `strconv.Atoi` on integers, and the two values of
-- `resource.MustParse`: thousandths, and whole units.
pub record Texts : Type 0 where
  pub to_lower : String → String
  pub show : ℤ → String
  pub atoi : String → Option ℤ
  pub milli_value : String → ℤ
  pub whole_value : String → ℤ

abbrev plain : String → String → String → ModelSelection
plain name file url = record {
  name = name;
  file = file;
  url = url;
  sha256 = "";
  server_args = [];
  ephemeral_storage_request = "";
  ephemeral_storage_limit = "";
  memory_request = "";
  memory_limit = "";
  cpu_request = "";
  cpu_limit = "";
}

abbrev tinyllama : String → ModelSelection
tinyllama name =
    plain name "tinyllama.gguf"
      "https://huggingface.co/TheBloke/TinyLlama-1.1B-Chat-v1.0-GGUF/resolve/main/tinyllama-1.1b-chat-v1.0.Q4_K_M.gguf?download=true"

abbrev qwen3 : ModelSelection
qwen3 = record {
  name = "qwen3-4b";
  file = "Qwen3-4B-Q4_K_M.gguf";
  url =
      "https://huggingface.co/Qwen/Qwen3-4B-GGUF/resolve/34778e26c8fa5e8bc0daa2389a9f958cffb1aedd/Qwen3-4B-Q4_K_M.gguf";
  sha256 = "7485fe6f11af29433bc51cab58009521f205840f5b4ae3a32fa7f92e8534fdf5";
  server_args =
      "--ctx-size" ∷ "8192" ∷ "--jinja" ∷ "--reasoning-format" ∷ "deepseek" ∷ "--reasoning" ∷ "off"
      ∷ "--no-webui" ∷ [];
  ephemeral_storage_request = "4Gi";
  ephemeral_storage_limit = "5Gi";
  memory_request = "4Gi";
  memory_limit = "7Gi";
  cpu_request = "500m";
  cpu_limit = "1800m";
}

abbrev name_or : String → String → String
name_or name default_name = if name == "" then default_name else name

-- The `switch` of `resolveModel` on the lowered name `key`, with the trimmed name for the label.
abbrev resolve_key : String → String → ModelSelection
resolve_key key name =
    if key == "qwen3-4b" || key == "qwen3-4b-q4_k_m" || key == "qwen3-4b-q4_k_m.gguf"
    then qwen3
    else if key == "gemma-3-1b-it"
        || key == "gemma-3-1b-it-q4_k_m"
        || key == "gemma-3-1b-it-q4_k_m.gguf"
    then plain (name_or name "gemma-3-1b-it") "gemma-3-1b-it-Q4_K_M.gguf"
        "https://huggingface.co/ggml-org/gemma-3-1b-it-GGUF/resolve/main/gemma-3-1b-it-Q4_K_M.gguf?download=true"
    else if key == "gemma-3-4b-it"
        || key == "gemma-3-4b-it-q4_k_m"
        || key == "gemma-3-4b-it-q4_k_m.gguf"
    then plain (name_or name "gemma-3-4b-it") "gemma-3-4b-it-Q4_K_M.gguf"
        "https://huggingface.co/ggml-org/gemma-3-4b-it-GGUF/resolve/main/gemma-3-4b-it-Q4_K_M.gguf?download=true"
    else if key == "gemma-3-12b-it"
        || key == "gemma-3-12b-it-q4_k_m"
        || key == "gemma-3-12b-it-q4_k_m.gguf"
    then plain (name_or name "gemma-3-12b-it") "gemma-3-12b-it-Q4_K_M.gguf"
        "https://huggingface.co/ggml-org/gemma-3-12b-it-GGUF/resolve/main/gemma-3-12b-it-Q4_K_M.gguf?download=true"
    else if key == "phi-2"
    then plain (name_or name "phi-2") "phi-2.Q4_0.gguf"
        "https://huggingface.co/TheBloke/phi-2-GGUF/resolve/main/phi-2.Q4_0.gguf?download=true"
    else tinyllama name

-- `(modelSelection).path`
abbrev pub path : ModelSelection → String
path model = "/models/" +++ model.file

module _ (texts : Texts) where
  -- `resolveModel`
  unfoldable pub resolve_model : String → ModelSelection
  resolve_model requested =
      let trimmed = trim_space requested in resolve_key (texts.to_lower trimmed) trimmed

  -- The loop of `setServerIntFlag`; `none` where it ends without an occurrence.
  unfoldable pub replace_flag : List String → String → ℤ → Option (List String)
  replace_flag [] flag value = none
  replace_flag (a ∷ []) flag value = none
  replace_flag (a ∷ b ∷ rest) flag value =
      let later = replace_flag (b ∷ rest) flag value in
      if a == flag
      then some (a ∷ texts.show value ∷ rest)
      else elim later [ none ↦ none | some args ↦ some (a ∷ args) ]

  -- `setServerIntFlag`
  unfoldable pub set_server_int_flag : List String → String → ℤ → List String
  set_server_int_flag args flag value = elim (replace_flag args flag value) [
    | some replaced ↦ replaced
    | none ↦ args ++ flag ∷ texts.show value ∷ []
  ]

  -- `serverIntFlag`
  unfoldable pub server_int_flag : List String → String → ℤ → ℤ
  server_int_flag [] name fallback = fallback
  server_int_flag (a ∷ []) name fallback = fallback
  server_int_flag (a ∷ b ∷ rest) name fallback =
      let later = server_int_flag (b ∷ rest) name fallback in
      if a == name then (elim (texts.atoi b) [ some value ↦ value | none ↦ later ]) else later

  abbrev override_cpu : Option CpuResources → ModelSelection → ModelSelection
  override_cpu none model = model
  override_cpu (some cpu) model = record model {
    cpu_request = texts.show cpu.request_milli +++ "m";
    cpu_limit = texts.show cpu.limit_milli +++ "m";
  }

  abbrev override_memory : Option MemoryResources → ModelSelection → ModelSelection
  override_memory none model = model
  override_memory (some memory) model = record model {
    memory_request = texts.show memory.request_mib +++ "Mi";
    memory_limit = texts.show memory.limit_mib +++ "Mi";
  }

  abbrev override_resources : Option ModelServerResources → ModelSelection → ModelSelection
  override_resources none model = model
  override_resources (some resources) model =
      override_memory resources.memory (override_cpu resources.cpu model)

  abbrev override_flag : String → Option ℤ → ModelSelection → ModelSelection
  override_flag flag none model = model
  override_flag flag (some value) model = record model {
    server_args = set_server_int_flag model.server_args flag value;
  }

  -- `modelForInstance`
  unfoldable pub model_for_instance : LlmInstance → ModelSelection
  model_for_instance inst = override_flag "--parallel" inst.spec.parallel_slots (
      override_flag "--ctx-size" inst.spec.context_size
        (override_resources inst.spec.resources (resolve_model inst.spec.model)))
