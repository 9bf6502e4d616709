-- ===== src/Config/Global/Tests.antt =====
-- The default configuration, out and back.
use volplugin.Base.{◌≡◌, refl, none, arith}
use volplugin.Errors.{ok}
use volplugin.Config.Global.Defs.{new_global_config, published, publish_global, get_global, divided}
use volplugin.Config.Global.Forms.{IsWhole, get_global-publish_global}

default_ttl_published : (published new_global_config).ttl ≡ 30
unfolding published divided
default_ttl_published = refl

default-IsWhole : IsWhole new_global_config 30 10
default-IsWhole = record {
  ttl = refl;
  timeout = refl;
  some_seconds = omega arith;
  few_seconds = omega arith;
  some_minutes = omega arith;
  few_minutes = omega arith;
  path = ground arith;
}

get_global-publish_global_example :
    let (e, key) = publish_global none (published new_global_config) none in
    (e ≡ none) × (get_global key ≡ ok new_global_config)
get_global-publish_global_example =
    get_global-publish_global new_global_config 30 10 default-IsWhole none
