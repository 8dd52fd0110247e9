-- ===== src/Query/Examples.antt =====
-- Parameters and settings of a query.
use php_clickhouse.Base.{◌≡◌, refl, codes, true, [], ◌∷◌, none, some}
use php_clickhouse.Base.Int.{pos}
use php_clickhouse.Php.{
  index, name, Entries, nil, entry, is_null, is_bool, is_long, is_array, Engine,
}
use php_clickhouse.Query.{
  set_param, set_setting, param_value, apply_params, apply_settings, or_empty,
  apply_params_settings, find_name, settings_of,
}

-- An engine that prints every value alike.
abbrev plain : Engine
plain = record {
  get_long = λ v. pos 0;
  get_double = λ v. 0;
  get_string = λ v. codes "7";
  is_true = λ v. true;
  to_float = λ d. d;
  of_uint64 = λ n. n;
  round_scaled = λ d n. pos 0;
  numeric_key = λ s. none;
}

abbrev params : Entries
params =
    entry (name (codes "a")) is_null
      (entry (index (pos 0)) (is_long (pos 1)) (entry (name (codes "b")) (is_bool true) nil))

abbrev settings : Entries
settings = entry (name (codes "max_threads")) (is_long (pos 7)) nil

-- The parameter without a name is passed over, and null is a NULL parameter.
calls_made :
    apply_params_settings plain (some params) (some settings)
    ≡ set_param (codes "a") none
      ∷ set_param (codes "b") (some (codes "true"))
      ∷ set_setting (codes "max_threads") (codes "7")
      ∷ []
unfolding apply_params_settings apply_params apply_settings or_empty param_value
calls_made = refl

settings_found :
    settings_of (some (entry (name (codes "settings")) (is_array settings) nil)) ≡ some settings
unfolding settings_of find_name or_empty
settings_found = refl
