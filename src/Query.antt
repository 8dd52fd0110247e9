-- ===== src/Query.antt =====
-- `ch_param_value` and `ch_apply_params_settings` of ch_client.cpp, and the part of `Client::query` of
-- clickhouse_async.cpp that looks for the settings. The client library's `Query` is the list of the calls that are
-- made of it.
mod Examples
use php_clickhouse.Base.{
  Bytes, codes, Bool, true, false, List, [], ◌∷◌, ◌++◌, Option, none, some, bytes_eq, if◌then◌else◌,
}
use php_clickhouse.Php.{
  Key, index, name, Zval, is_null, is_bool, is_long, is_double, is_string, is_array, is_date,
  is_object, Entries, nil, entry, Engine,
}

-- `none` is a NULL parameter.
pub param_value : Engine → Zval → Option Bytes
param_value engine is_null = none
param_value engine (is_bool true) = some (codes "true")
param_value engine (is_bool false) = some (codes "false")
param_value engine value = some (engine.get_string value)

pub data QueryCall : Type 0 where
  set_param : Bytes → Option Bytes → QueryCall
  set_setting : Bytes → Bytes → QueryCall

-- An entry with an integer key has no name and is passed over.
unfoldable pub apply_params : Engine → Entries → List QueryCall
apply_params engine nil = []
apply_params engine (entry (name n) v es) =
    set_param n (param_value engine v) ∷ apply_params engine es
apply_params engine (entry (index _) v es) = apply_params engine es

unfoldable pub apply_settings : Engine → Entries → List QueryCall
apply_settings engine nil = []
apply_settings engine (entry (name n) v es) =
    set_setting n (engine.get_string v) ∷ apply_settings engine es
apply_settings engine (entry (index _) v es) = apply_settings engine es

-- `none` is a null pointer.
pub or_empty : Option Entries → Entries
or_empty none = nil
or_empty (some es) = es

pub apply_params_settings : Engine → Option Entries → Option Entries → List QueryCall
apply_params_settings engine params settings =
    apply_params engine (or_empty params) ++ apply_settings engine (or_empty settings)

-- zend_hash_str_find
pub find_name : Bytes → Entries → Option Zval
find_name key nil = none
find_name key (entry (name n) v es) = if bytes_eq n key then some v else find_name key es
find_name key (entry (index _) v es) = find_name key es

-- The settings are the array under that key of the options.
as_array : Option Zval → Option Entries
as_array (some (is_array es)) = some es
as_array _ = none

pub settings_of : Option Entries → Option Entries
unfolding as_array
settings_of options = as_array (find_name (codes "settings") (or_empty options))
