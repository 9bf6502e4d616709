-- ===== src/Lock/Cluster/Stale.antt =====
-- A goroutine that was told to stop, and a lock that was taken again meanwhile.
use volplugin.Base.{◌≡◌, ◌∙◌, ap, refl, none, some, true, false, [], ◌∷◌, ◌++◌, Text}
use volplugin.Etcd.{Etcd}
use volplugin.Config.Use.{UseLocker, publish_use, remove_use, may_exist, lock_key}
use volplugin.Config.Use.Publish.{held_at, publish_use_free, publish_use_again}
use volplugin.Config.Use.Remove.{remove_use_own}
use volplugin.Lock.Cluster.{Cluster, Step, taken, stopped, cleared}

module _ (prefix : Text) (kv : Etcd UseLocker) (u : UseLocker) (c : Cluster (kv.Store)) where
  open kv use {Store, read}

  abbrev pub once : Cluster Store
  once = record c { store = (publish_use prefix kv c.store u).1; refreshing = u ∷ c.refreshing }

  abbrev pub told : Cluster Store
  told = record once { refreshing = [] ++ c.refreshing; stopping = u ∷ c.stopping }

  abbrev pub twice : Cluster Store
  twice = record told {
    store = (publish_use prefix kv told.store u).1;
    refreshing = u ∷ c.refreshing;
  }

  abbrev pub swept : Cluster Store
  swept = record twice {
    store = (remove_use prefix kv twice.store u false).1;
    stopping = [] ++ c.stopping;
  }

  -- A mount lock whose key is free can be taken, its goroutine told to stop, and the lock taken again before
  -- that goroutine comes to run: both publications succeed, and the lock stands after the second. The first
  -- goroutine then removes it: its key is free while the goroutine of the second taking still refreshes it,
  -- and any other lock at the key can be taken.
  pub stale_stop :
      may_exist u ≡ true
      → held_at prefix kv c.store u ≡ none
      → (Step prefix kv c once
          × Step prefix kv once told
          × Step prefix kv told twice
          × Step prefix kv twice swept)
        × ((publish_use prefix kv told.store u).0 ≡ none)
        × (held_at prefix kv twice.store u ≡ some (record { value = u; ttl = 0 }))
        × (swept.refreshing ≡ u ∷ c.refreshing)
        × (held_at prefix kv swept.store u ≡ none)
        × ((w : UseLocker)
            → lock_key prefix w ≡ lock_key prefix u
            → (publish_use prefix kv swept.store w).0 ≡ none)
  stale_stop may free =
      let first = publish_use_free prefix kv c.store u free in
      let again =
        publish_use_again prefix kv once.store u (record { value = u; ttl = 0 }) first.1 refl may in
      let removed = (remove_use_own prefix kv twice.store u _ again.1 refl).1 in
      (
        (
          taken c u first.0,
          stopped once u [] c.refreshing refl,
          taken told u again.0,
          cleared twice u [] c.stopping refl,
        ),
        again.0,
        again.1,
        refl,
        removed,
        λ w same.
            (publish_use_free prefix kv swept.store w (ap (read swept.store) same ∙ removed)).0,
      )
