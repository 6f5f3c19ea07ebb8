-- ===== src/Runtime/Environment.antt =====
-- What llm_metrics/_runtime.py reads from environment variables when it is imported. `os.environ`,
-- and `float` of a text (nothing if it raises), are the record `Environ`.
use Prim.Native.Char.{Char}
use llm_metrics.Prelude.{
  String, Bool, true, false, not, ◌||◌, ◌&&◌, Option, none, some, List, [], ◌∷◌, is_blank, str_eq,
  if◌then◌else◌, ◌≡◌, refl,
}
use llm_metrics.Prelude.Int.{ℤ, pos}
use llm_metrics.Client.{contains}
use llm_metrics.Runtime.{Settings, Runtime, one, clamp_rate}

-- a Python float, in millionths where it is finite
pub data Float : Type 0 where
  finite : ℤ → Float
  infinity minus_infinity not_a_number : Float

pub record Environ : Type 0 where
  pub lookup : String → Option String
  pub parse_float : String → Option Float

abbrev has_char : Char → String → Bool
has_char c String.[] = false
has_char c (String.◌∷◌ d s) =
    str_eq (String.◌∷◌ c String.[]) (String.◌∷◌ d String.[]) || has_char c s

-- the characters that `str.strip` takes off
abbrev spaces : String
spaces =
    "\t\n\u{b}\u{c}\r\u{1c}\u{1d}\u{1e}\u{1f} \u{85}\u{a0}\u{1680}\u{2000}\u{2001}\u{2002}\u{2003}\u{2004}\u{2005}\u{2006}\u{2007}\u{2008}\u{2009}\u{200a}\u{2028}\u{2029}\u{202f}\u{205f}\u{3000}"

lstrip : String → String
lstrip String.[] = String.[]
lstrip (String.◌∷◌ c s) = let rest = lstrip s in if has_char c spaces then rest else String.◌∷◌ c s

rstrip : String → String
rstrip String.[] = String.[]
rstrip (String.◌∷◌ c s) =
    let rest = rstrip s in
    if is_blank rest && has_char c spaces then String.[] else String.◌∷◌ c rest

-- `raw.strip()`
unfoldable pub strip : String → String
unfolding lstrip rstrip
strip raw = rstrip (lstrip raw)

abbrev lower_char : Char → (upper lower : String) → Char
lower_char c (String.◌∷◌ u us) (String.◌∷◌ l ls) =
    let rest = lower_char c us ls in
    if str_eq (String.◌∷◌ c String.[]) (String.◌∷◌ u String.[]) then l else rest
lower_char c _ _ = c

-- `lower()` on ASCII letters; that of no other character is in one of the words below
unfoldable pub lower : String → String
lower String.[] = String.[]
lower (String.◌∷◌ c s) =
    String.◌∷◌ (lower_char c "ABCDEFGHIJKLMNOPQRSTUVWXYZ" "abcdefghijklmnopqrstuvwxyz") (lower s)

-- `_FALSEY`
abbrev pub falsey : List String
falsey = "0" ∷ "false" ∷ "no" ∷ "off" ∷ []

-- `_env_enabled`, by the variable
unfoldable pub env_enabled : Option String → Bool
unfolding strip lower contains
env_enabled none = true
env_enabled (some raw) = not (contains (lower (strip raw)) falsey)

env_enabled_runs : (env_enabled (some " OFF\n") ≡ false) × (env_enabled (some "offline") ≡ true)
unfolding env_enabled
env_enabled_runs = (refl, refl)

-- `_clamp_rate`; `max(0.0, nan)` is `0.0`, as no comparison with a nan holds
unfoldable pub clamp_float : Float → ℤ
unfolding clamp_rate
clamp_float (finite rate) = clamp_rate rate
clamp_float infinity = one
clamp_float minus_infinity = pos 0
clamp_float not_a_number = pos 0

abbrev pub rate_or_one : Option Float → ℤ
rate_or_one none = one
rate_or_one (some rate) = clamp_float rate

-- `_env_sample_rate`, by the variable
unfoldable pub env_sample_rate : Environ → Option String → ℤ
unfolding clamp_float
env_sample_rate env none = one
env_sample_rate env (some raw) = rate_or_one (env.parse_float raw)

-- `_env_str`, by the variable
unfoldable pub env_str : Option String → Option String
unfolding strip
env_str none = none
env_str (some raw) = if is_blank (strip raw) then none else some (strip raw)

-- the settings at the start
unfoldable pub initial_settings : Environ → Settings
unfolding env_enabled env_str env_sample_rate
initial_settings env = record {
  enabled = env_enabled (env.lookup "LLM_METRICS_ENABLED");
  capture_input = true;
  capture_output = true;
  max_value_chars = 2000;
  environment = env_str (env.lookup "LLM_METRICS_ENVIRONMENT");
  release = env_str (env.lookup "LLM_METRICS_RELEASE");
  sample_rate = env_sample_rate env (env.lookup "LLM_METRICS_SAMPLE_RATE");
  redact = none;
}

-- the state of the module after its import
unfoldable pub initial : {E : Type 0} → Environ → Runtime E
unfolding initial_settings
initial env = record {
  settings = initial_settings env;
  buffer = none;
  client = none;
  overridden = false;
  next = 0;
  calls = [];
}
