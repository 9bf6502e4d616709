-- ===== src/Etcd/Defs.antt =====
-- The requests, the documented preconditions, and the interface of the service.
use mathlib.Core.Logic.{ite}
use volplugin.Base.{ℕ, ◌≡◌, Option, none, some, Text}
use volplugin.Errors.{key_not_found, test_failed, node_exist}

-- A file node: its value, and its time to live in seconds, where 0 is a node that stays.
pub record Node (V : Type 0) : Type 0 where
  pub value : V
  pub ttl : ℕ

-- `client.PrevExistType`.
pub data PrevExistType : Type 0 where
  prev_ignore prev_exist prev_no_exist : PrevExistType

-- `client.SetOptions`; a PrevValue that is not given is `none`.
pub record SetOptions (V : Type 0) : Type 0 where
  pub prev_exist : PrevExistType
  pub prev_value : Option V
  pub ttl : ℕ

module _ {V : Type 0} (V-discrete : Discrete V) where
  -- The comparison with PrevValue: `none` lets the request through, else it is the error code.
  abbrev pub compare_value : Option V → Option (Node V) → Option ℕ
  compare_value none n = none
  compare_value (some v) none = some key_not_found
  compare_value (some v) (some n) = ite (V-discrete n.value v) none (some test_failed)

  abbrev pub refusal : PrevExistType → Option V → Option (Node V) → Option ℕ
  refusal PrevExistType.prev_ignore p n = compare_value p n
  refusal PrevExistType.prev_exist p none = some key_not_found
  refusal PrevExistType.prev_exist p (some n) = compare_value p (some n)
  refusal PrevExistType.prev_no_exist p none = none
  refusal PrevExistType.prev_no_exist p (some n) = some node_exist

  -- Deleting needs a node, and the given PrevValue.
  abbrev pub delete_refusal : Option V → Option (Node V) → Option ℕ
  delete_refusal p none = some key_not_found
  delete_refusal p (some n) = compare_value p (some n)

-- What is left at a key by a request that was answered with `r`.
abbrev pub after {ℓ} : {A : Type ℓ} → Option ℕ → A → A → A
after none new old = new
after (some code) new old = old

-- A set or a delete is answered with an error code, or goes through and changes its key only.
pub record Etcd (V : Type 0) : Type 1 where
  pub Store : Type 0
  pub V-discrete : Discrete V
  pub read : Store → Text → Option (Node V)
  pub set : Store → Text → V → SetOptions V → Option ℕ × Store
  pub delete : Store → Text → Option V → Option ℕ × Store
  pub set-answer :
      (s : Store) (k : Text) (v : V) (o : SetOptions V)
      → (set s k v o).0 ≡ refusal V-discrete o.prev_exist o.prev_value (read s k)
  pub read-set_self :
      (s : Store) (k : Text) (v : V) (o : SetOptions V)
      → read (set s k v o).1 k
        ≡ after (set s k v o).0 (some (record { value = v; ttl = o.ttl })) (read s k)
  pub read-set_ne :
      (s : Store) (k j : Text) (v : V) (o : SetOptions V)
      → (k ≡ j → ⊥)
      → read (set s k v o).1 j ≡ read s j
  pub delete-answer :
      (s : Store) (k : Text) (p : Option V)
      → (delete s k p).0 ≡ delete_refusal V-discrete p (read s k)
  pub read-delete_self :
      (s : Store) (k : Text) (p : Option V)
      → read (delete s k p).1 k ≡ after (delete s k p).0 none (read s k)
  pub read-delete_ne :
      (s : Store) (k j : Text) (p : Option V) → (k ≡ j → ⊥) → read (delete s k p).1 j ≡ read s j
