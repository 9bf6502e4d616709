-- ===== src/Config/Global/Defs.antt =====
-- The struct Global and its conversions. A `time.Duration` is an int64: a number below 2 ^ 64, in two's
-- complement.
use volplugin.Base.{
  ℕ, ◌-◌, ◌*◌, ◌/◌, ◌%◌, Bool, false, ◌||◌, Option, none, some, Text, codes, ltb, leb, ◌==◌,
  if◌then◌else◌,
}
use volplugin.Storage.Name.{is_empty}
use volplugin.Errors.{Result, ok, err, Error, plain, etcd, key_not_found, etcd_to_errored}

abbrev pub two_64 : ℕ
two_64 = 18446744073709551616

abbrev pub two_63 : ℕ
two_63 = 9223372036854775808

abbrev pub is_negative : ℕ → Bool
is_negative d = leb two_63 d

-- `d < b`, `d * b` and `d / b` for a positive `b`.
unfoldable pub less : ℕ → ℕ → Bool
less d b = is_negative d || ltb d b

unfoldable pub times : ℕ → ℕ → ℕ
times d b = (d * b) % two_64

unfoldable pub divided : ℕ → ℕ → ℕ
divided d b = if is_negative d then (two_64 - (two_64 - d) / b) % two_64 else d / b

pub record Global : Type 0 where
  pub debug : Bool
  pub timeout : ℕ
  pub ttl : ℕ
  pub mount_path : Text

-- `timeoutFixBase` and `ttlFixBase`, in nanoseconds.
abbrev pub timeout_fix_base : ℕ
timeout_fix_base = 60000000000

abbrev pub ttl_fix_base : ℕ
ttl_fix_base = 1000000000

-- DefaultGlobalTTL, DefaultTimeout and defaultMountPath.
abbrev pub default_ttl : ℕ
default_ttl = 30000000000

abbrev pub default_timeout : ℕ
default_timeout = 600000000000

abbrev pub default_mount_path : Text
default_mount_path = codes "/mnt/ceph"

abbrev pub new_global_config : Global
new_global_config = record {
  debug = false;
  timeout = default_timeout;
  ttl = default_ttl;
  mount_path = default_mount_path;
}

unfoldable pub published : Global → Global
unfolding divided
published g = record g {
  ttl = divided g.ttl ttl_fix_base;
  timeout = divided g.timeout timeout_fix_base;
}

unfoldable pub canonical : Global → Global
unfolding less times
canonical g = record g {
  ttl = if less g.ttl ttl_fix_base then times g.ttl ttl_fix_base else g.ttl;
  timeout = if less g.timeout timeout_fix_base then times g.timeout timeout_fix_base else g.timeout;
}

unfoldable pub set_empty : Global → Global
set_empty g = record g {
  timeout = if g.timeout == 0 then default_timeout else g.timeout;
  ttl = if g.ttl == 0 then default_ttl else g.ttl;
  mount_path = if is_empty g.mount_path then default_mount_path else g.mount_path;
}

-- The key `global-config`: the configuration whose JSON it holds. All the fields are in that JSON, so
-- reading it into the defaults gives it back. `answer` is the error of the write.
unfoldable pub publish_global :
    (answer : Option Error) → Global → Option Global → Option Error × Option Global
unfolding canonical etcd_to_errored
publish_global none g key = (none, some (canonical g))
publish_global (some e) g key = (some (etcd_to_errored e), key)

unfoldable pub get_global : Option Global → Result Global
unfolding set_empty
get_global none = err (plain (etcd key_not_found))
get_global (some g) = ok (set_empty g)
