-- ===== src/Lock/Cluster/Tests.antt =====
-- Two hosts and one volume.
use volplugin.Base.{◌≡◌, refl, none, some, true, [], ◌∷◌, Text, codes, pos}
use volplugin.Etcd.{Etcd, memory}
use volplugin.Config.Use.{
  UseLocker, UseLocker-discrete, use_mount, lock_key, may_exist, publish_use, publish_use_with_ttl,
}
use volplugin.Config.Use.Publish.{held_at}
use volplugin.Lock.Cluster.{Cluster, Step, Steps, refreshed, done, next}
use volplugin.Lock.Cluster.Stale.{stale_stop, once, told, twice, swept}

abbrev kv : Etcd UseLocker
kv = memory UseLocker-discrete

abbrev prefix : Text
prefix = codes "/volplugin"

abbrev ours : UseLocker
ours = use_mount (codes "policy1/web") (codes "mon0") (codes "Mount")

abbrev theirs : UseLocker
theirs = use_mount (codes "policy1/web") (codes "mon1") (codes "Mount")

abbrev mounted : Cluster (kv.Store)
mounted = record {
  store = (lock_key prefix ours, some (record { value = ours; ttl = 0 })) ∷ [];
  refreshing = ours ∷ [];
  stopping = [];
}

abbrev later : Cluster (kv.Store)
later = record mounted { store = (publish_use_with_ttl prefix kv mounted.store ours (pos 30)).1 }

abbrev one_refresh : Steps prefix kv mounted later
one_refresh = next mounted later later (refreshed mounted ours 30 [] [] refl) (done later)

abbrev empty : Cluster (kv.Store)
empty = record { store = []; refreshing = []; stopping = [] }

ours_allowed : may_exist ours ≡ true
unfolding may_exist
ours_allowed = refl

abbrev after_stop : Cluster (kv.Store)
after_stop = swept prefix kv ours empty

stale_stop_example :
    (Step prefix kv empty (once prefix kv ours empty)
      × Step prefix kv (once prefix kv ours empty) (told prefix kv ours empty)
      × Step prefix kv (told prefix kv ours empty) (twice prefix kv ours empty)
      × Step prefix kv (twice prefix kv ours empty) after_stop)
    × ((publish_use prefix kv (told prefix kv ours empty).store ours).0 ≡ none)
    × (held_at prefix kv (twice prefix kv ours empty).store ours
        ≡ some (record { value = ours; ttl = 0 }))
    × (after_stop.refreshing ≡ ours ∷ [])
    × (held_at prefix kv after_stop.store ours ≡ none)
    × ((w : UseLocker)
        → lock_key prefix w ≡ lock_key prefix ours
        → (publish_use prefix kv after_stop.store w).0 ≡ none)
stale_stop_example = stale_stop prefix kv ours empty ours_allowed refl
