-- ===== src/Lock/Cluster/Exclusion.antt =====
-- What the goroutines of other hosts can do to a lock that stands.
use volplugin.Base.{◌≡◌, Text}
use volplugin.Etcd.{Etcd}
use volplugin.Config.Use.{UseLocker, lock_key}
use volplugin.Lock.Cluster.{
  Cluster, Step, taken, refused, refreshed, refreshed_late, stopped, cleared, expired, Steps, done,
  next,
}

module _ (prefix : Text) (kv : Etcd UseLocker) where
  open kv use {Store, read}

  -- The step is not the removal of this lock, nor the end of the time of a node at its key.
  abbrev pub Spares : UseLocker → {c d : Cluster Store} → Step prefix kv c d → Type 0
  Spares u (taken c w ok) = Unit
  Spares u (refused c w bad) = Unit
  Spares u (refreshed c w t before after e) = Unit
  Spares u (refreshed_late c w t before after e) = Unit
  Spares u (stopped c w before after e) = Unit
  Spares u (cleared c w before after e) = w ≡ u → ⊥
  Spares u (expired c k n s there positive gone kept) = k ≡ lock_key prefix u → ⊥

  abbrev pub AllSpare : UseLocker → {c d : Cluster Store} → Steps prefix kv c d → Type 0
  AllSpare u (done c) = Unit
  AllSpare u (next c d e step steps) = Spares u step × AllSpare u steps
