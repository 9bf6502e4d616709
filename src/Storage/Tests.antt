-- ===== src/Storage/Tests.antt =====
-- Names that are split, and names that are not.
use volplugin.Base.{◌≡◌, refl, [], ◌∷◌, codes, count_byte, cut}
use volplugin.Errors.{ok, err, errored, invalid_volume, message}
use volplugin.Storage.Name.{split_name}

split_web : split_name (codes "policy1/web") ≡ ok (codes "policy1", codes "web")
unfolding split_name count_byte cut
split_web = refl

split_deep : split_name (codes "policy1/web/data") ≡ err (errored (invalid_volume ∷ message ∷ []))
unfolding split_name count_byte cut
split_deep = refl
