-- ===== src/Lock/Cluster.antt =====
-- The goroutines of `AcquireWithTTLRefresh` on all hosts, over the store that they share: a lock is taken,
-- refreshed every now and then, and removed when its goroutine is told to stop; the service drops a node
-- whose time to live is over.
pub mod Exclusion
pub mod Stale
mod Tests
use volplugin.Base.{ℕ, ◌≡◌, ◌≢◌, ◌<◌, Option, none, some, false, List, [], ◌∷◌, ◌++◌, Text, pos}
use volplugin.Etcd.{Etcd, Node}
use volplugin.Config.Use.{UseLocker, publish_use, publish_use_with_ttl, remove_use}

-- A goroutine is known by its lock: those that refresh, and those with a signal in their channel. One that has a
-- signal can be in an attempt to refresh, or its timer can be picked before the signal.
pub record Cluster (S : Type 0) : Type 0 where
  pub store : S
  pub refreshing : List UseLocker
  pub stopping : List UseLocker

module _ (prefix : Text) (kv : Etcd UseLocker) where
  open kv use {Store, read}

  -- One step of one goroutine, or of the service. An attempt of a refresh is a step; that it is tried
  -- again is another.
  pub data Step : Cluster Store → Cluster Store → Type 0 where
    taken :
        (c : Cluster Store) (u : UseLocker)
        → (publish_use prefix kv c.store u).0 ≡ none
        → Step c (record c {
          store = (publish_use prefix kv c.store u).1;
          refreshing = u ∷ c.refreshing;
        })
    refused :
        (c : Cluster Store) (u : UseLocker)
        → (publish_use prefix kv c.store u).0 ≢ none
        → Step c (record c { store = (publish_use prefix kv c.store u).1 })
    refreshed :
        (c : Cluster Store) (u : UseLocker) (ttl : ℕ) (before after : List UseLocker)
        → c.refreshing ≡ before ++ u ∷ after
        → Step c (record c { store = (publish_use_with_ttl prefix kv c.store u (pos ttl)).1 })
    refreshed_late :
        (c : Cluster Store) (u : UseLocker) (ttl : ℕ) (before after : List UseLocker)
        → c.stopping ≡ before ++ u ∷ after
        → Step c (record c { store = (publish_use_with_ttl prefix kv c.store u (pos ttl)).1 })
    stopped :
        (c : Cluster Store) (u : UseLocker) (before after : List UseLocker)
        → c.refreshing ≡ before ++ u ∷ after
        → Step c (record c { refreshing = before ++ after; stopping = u ∷ c.stopping })
    cleared :
        (c : Cluster Store) (u : UseLocker) (before after : List UseLocker)
        → c.stopping ≡ before ++ u ∷ after
        → Step c (record c {
          store = (remove_use prefix kv c.store u false).1;
          stopping = before ++ after;
        })
    expired :
        (c : Cluster Store) (k : Text) (n : Node UseLocker) (s : Store)
        → read c.store k ≡ some n
        → 0 < n.ttl
        → read s k ≡ none
        → ((j : Text) → (k ≡ j → ⊥) → read s j ≡ read c.store j)
        → Step c (record c { store = s })

  pub data Steps : Cluster Store → Cluster Store → Type 0 where
    done : (c : Cluster Store) → Steps c c
    next : (c d e : Cluster Store) → Step c d → Steps d e → Steps c e
