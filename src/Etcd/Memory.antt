-- ===== src/Etcd/Memory.antt =====
-- A store in memory that obeys the laws: they can be met, and runs can be evaluated.
use volplugin.Base.{
  ℕ, ◌≡◌, refl, Option, none, some, List, [], ◌∷◌, Text, arith, text_eq, text_eq_iff, if◌then◌else◌,
}
use volplugin.Etcd.Defs.{Node, Etcd, refusal, delete_refusal, after}

abbrev pub Nodes : Type 0 → Type 0
Nodes V = List (Text × Option (Node V))

module _ {V : Type 0} where
  abbrev pub find : Nodes V → Text → Option (Node V)
  find [] k = none
  find ((j, n) ∷ s) k = if text_eq j k then n else find s k

  find_self : (k : Text) (n : Option (Node V)) (s : Nodes V) → find ((k, n) ∷ s) k ≡ n
  find_self k n s = ground (arith, text_eq_iff k k)

  find_ne :
      (k j : Text) (n : Option (Node V)) (s : Nodes V)
      → (k ≡ j → ⊥)
      → find ((k, n) ∷ s) j ≡ find s j
  find_ne k j n s h = ground (arith, text_eq_iff k j)

  -- A request writes its key in front, or changes nothing.
  abbrev pub write_node : Option ℕ → Nodes V → Text → Option (Node V) → Option ℕ × Nodes V
  write_node none s k n = (none, (k, n) ∷ s)
  write_node (some c) s k n = (some c, s)

  pub write_answer :
      (r : Option ℕ) (s : Nodes V) (k : Text) (n : Option (Node V)) → (write_node r s k n).0 ≡ r
  write_answer none s k n = refl
  write_answer (some c) s k n = refl

  pub write_self :
      (r : Option ℕ) (s : Nodes V) (k : Text) (n : Option (Node V))
      → find (write_node r s k n).1 k ≡ after (write_node r s k n).0 n (find s k)
  write_self none s k n = find_self k n s
  write_self (some c) s k n = refl

  pub write_ne :
      (r : Option ℕ) (s : Nodes V) (k j : Text) (n : Option (Node V))
      → (k ≡ j → ⊥)
      → find (write_node r s k n).1 j ≡ find s j
  write_ne none s k j n h = find_ne k j n s h
  write_ne (some c) s k j n h = refl

-- `abbrev`, so that runs compute.
abbrev pub memory : {V : Type 0} → Discrete V → Etcd V
memory {V} d = record {
  Store = Nodes V;
  V-discrete = d;
  read = find;
  set = λ s k v o.
      write_node (refusal d o.prev_exist o.prev_value (find s k)) s k
        (some (record { value = v; ttl = o.ttl }));
  delete = λ s k p. write_node (delete_refusal d p (find s k)) s k none;
  set-answer = λ s k v o. write_answer _ s k _;
  read-set_self = λ s k v o. write_self _ s k _;
  read-set_ne = λ s k j v o h. write_ne _ s k j _ h;
  delete-answer = λ s k p. write_answer _ s k _;
  read-delete_self = λ s k p. write_self _ s k _;
  read-delete_ne = λ s k j p h. write_ne _ s k j _ h;
}
