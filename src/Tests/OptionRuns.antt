-- ===== src/Tests/OptionRuns.antt =====
-- The options of the commands, compared with each other.
use peggo.Base.{
  ◌≡◌, refl, Bool, true, false, not, Bytes, codes, String, List, [], ◌∷◌, ◌++◌, ◌==◌, ◌||◌, ◌&&◌,
  bytes_eq,
}
use peggo.CommandLine.{split}
use peggo.CommandLine.Options.{
  OptValue, string_value, float_value, bool_value, int_value, CliOpt, init_interactive_options,
  init_cosmos_options, init_cosmos_key_options, init_ethereum_key_options, init_statsd_options,
}
use peggo.CommandLine.Options.Orchestrate.{init_config}

abbrev same : String → String → Bool
same a b = bytes_eq (codes a) (codes b)

abbrev same_value : OptValue → OptValue → Bool
same_value (string_value a) (string_value b) = same a b
same_value (float_value a) (float_value b) = same a b
same_value (bool_value true) (bool_value b) = b
same_value (bool_value false) (bool_value b) = not b
same_value (int_value a) (int_value b) = a == b
same_value _ _ = false

abbrev same_opt : CliOpt → CliOpt → Bool
same_opt a b =
    same a.variable b.variable
    && same a.name b.name
    && same a.desc b.desc
    && same a.env_var b.env_var
    && same_value a.value b.value

abbrev has : {A : Type 0} → (A → A → Bool) → A → List A → Bool
has eq x [] = false
has eq x (y ∷ ys) = eq x y || has eq x ys

abbrev all_in : {A : Type 0} → (A → A → Bool) → List A → List A → Bool
all_in eq [] ys = true
all_in eq (x ∷ xs) ys = has eq x ys && all_in eq xs ys

abbrev distinct : List Bytes → Bool
distinct [] = true
distinct (x ∷ xs) = not (has bytes_eq x xs) && distinct xs

abbrev names : List CliOpt → List Bytes
names [] = []
names (x ∷ xs) = split 32 (codes x.name) ++ names xs

abbrev env_vars : List CliOpt → List Bytes
env_vars [] = []
env_vars (x ∷ xs) = codes x.env_var ∷ env_vars xs

-- The options of the keys, which both commands have.
abbrev key_options : List CliOpt
key_options = init_cosmos_options ++ init_cosmos_key_options ++ init_ethereum_key_options

-- The two commands declare them alike.
shared_options : all_in same_opt key_options init_config ≡ true
unfolding bytes_eq
shared_options = refl

-- mow.cli refuses a name that a command declares twice.
orchestrator_names : distinct (names (init_statsd_options ++ init_config)) ≡ true
unfolding bytes_eq
orchestrator_names = refl

register_names : distinct (names (key_options ++ init_interactive_options)) ≡ true
unfolding bytes_eq
register_names = refl

orchestrator_env_vars : distinct (env_vars (init_statsd_options ++ init_config)) ≡ true
unfolding bytes_eq
orchestrator_env_vars = refl
