-- ===== src/Daemon.antt =====
-- volplugin/init.go: what a volume plugin that starts does for the volumes that are mounted on its host. What Docker,
-- the drivers and the intent store answer is part of the request; a map is the list of its entries, in one order
-- of iteration.
pub mod Kept
pub mod Restored
mod Tests
use volplugin.Base.{
  ℕ, Bool, true, false, Option, none, some, List, [], ◌∷◌, Text, codes, ℤ, pos, ◌-ℤ◌, ltb_ℤ,
  text_eq, split, if◌then◌else◌,
}
use volplugin.Errors.{
  Result, ok, err, panic, Error, errored, plain, Fault, get_volume, any_fault, is_not_exists,
  combine, message, ◌>>=◌, ◌>>◌,
}
use volplugin.Etcd.{Etcd}
use volplugin.Config.Types.{Volume}
use volplugin.Config.Use.{UseLocker}
use volplugin.Storage.Driver.{Mount, new_mount_driver}
use volplugin.Storage.Name.{slash}
use volplugin.Api.Mounts.{Counter, new_counter, add, add_count, add_mount, Collection}
use volplugin.Api.State.{Host}
use volplugin.Api.Handlers.{mount_lock, start_ttl_refresh}

pub record ContainerMount : Type 0 where
  pub driver : Text
  pub name : Text

pub record Container : Type 0 where
  pub state : Text
  pub mounts : List ContainerMount

-- One turn of the loop that asks Docker: `unanswered` has the time since the start, in `time.Now()`.
pub data Docker : Type 0 where
  no_client : Error → Docker
  unanswered : ℕ → Docker
  listed : List Container → Docker

-- The loop, over the turns that there are: the difference of the two times is taken the wrong way round.
unfoldable pub poll : ℤ → List Docker → Option (Result (List Container))
poll timeout [] = none
poll timeout (no_client e ∷ turns) = some (err (combine (message ∷ []) e))
poll timeout (unanswered since ∷ turns) =
    let rest = poll timeout turns in if ltb_ℤ timeout (pos 0 -ℤ pos since) then some panic else rest
poll timeout (listed containers ∷ turns) = some (ok containers)

abbrev pub Entries : Type 0
Entries = List (Text × Option Mount)

abbrev put_entry : Text → Option Mount → Entries → Entries
put_entry k v [] = (k, v) ∷ []
put_entry k v ((j, w) ∷ es) =
    let rest = put_entry k v es in if text_eq j k then (k, v) ∷ es else (j, w) ∷ rest

abbrev count_mounts : Text → List ContainerMount → Entries × Counter → Entries × Counter
count_mounts plugin [] s = s
count_mounts plugin (m ∷ ms) (es, c) =
    count_mounts plugin ms
      (if text_eq m.driver plugin then (put_entry m.name none es, (add c m.name).0) else (es, c))

abbrev count_containers : Text → List Container → Entries × Counter → Entries × Counter
count_containers plugin [] s = s
count_containers plugin (x ∷ xs) s =
    count_containers plugin xs
      (if text_eq x.state (codes "running") then count_mounts plugin x.mounts s else s)

abbrev put_mounts : List Mount → Entries → Entries
put_mounts [] es = es
put_mounts (m ∷ ms) es = put_mounts ms (put_entry m.volume.name (some m) es)

-- The loop over the table of the drivers, with what each of them finds.
abbrev add_mounted : Text → List (Text × Result (List Mount)) → Entries → Result Entries
add_mounted mountpath [] es = ok es
add_mounted mountpath ((name, answer) ∷ drivers) es =
    new_mount_driver name mountpath
    >> (answer >>= λ mounted. add_mounted mountpath drivers (put_mounts mounted es))

-- What the start meets.
pub record Surroundings : Type 0 where
  pub plugin_name : Text
  pub mount_path : Text
  pub hostname : Text
  pub timeout : ℤ
  pub docker : List Docker
  pub drivers : List (Text × Result (List Mount))
  pub volume : Text → Text → Result Volume

abbrev with_counts : Surroundings → Entries × Counter → Result (Entries × Counter)
with_counts q (es, c) = add_mounted q.mount_path q.drivers es >>= λ es'. ok (es', c)

abbrev got : Surroundings → Option (Result (List Container)) → Option (Result (Entries × Counter))
got q none = none
got q (some r) =
    some (r >>= λ xs. with_counts q (count_containers q.plugin_name xs ([], new_counter)))

-- `getMounted`: none while Docker has not answered.
unfoldable pub get_mounted : Surroundings → Option (Result (Entries × Counter))
unfolding poll new_mount_driver
get_mounted q = got q (poll q.timeout q.docker)

-- How the start goes on after one of the mounts: to the next, out of the process by `Fatalf`, or by a nil
-- pointer or the panic of a collection.
pub data Turn : Type 0 where
  goes_on exits crashes : Turn

abbrev is_get_volume : Fault → Bool
is_get_volume get_volume = true
is_get_volume _ = false

-- An error of package errored that is neither of the two leaves the volume nil, and its field is read.
abbrev unread : Error → Turn
unread (plain f) = exits
unread (errored fs) =
    if any_fault is_not_exists fs
    then goes_on
    else if any_fault is_get_volume fs
    then exits
    else crashes

abbrev pub two_parts : List Text → Option (Text × Text)
two_parts (p ∷ v ∷ []) = some (p, v)
two_parts _ = none

-- `lock.Unlocked`.
abbrev pub unlocked_host : Text
unlocked_host = codes "-unlocked-"

abbrev pub lock_of : Text → Text → Volume → UseLocker
lock_of hostname name vol = mount_lock name (if vol.unlocked then unlocked_host else hostname)

module _ (prefix : Text) (kv : Etcd UseLocker) (from_human_size : Text → Result ℕ) where
  open kv use {Store}

  abbrev pub acquired : Option Error × Host Store → Turn × Host Store
  acquired (none, a) = (goes_on, a)
  acquired (some e, a) = (exits, a)

  abbrev pub collected : Text → UseLocker → Result Collection → Host Store → Turn × Host Store
  collected name ut (ok c) a =
      acquired (start_ttl_refresh prefix kv from_human_size name ut (record a { collection = c }))
  collected name ut (err e) a = (crashes, a)
  collected name ut panic a = (crashes, a)

  -- A mount that the collection has stays as it is.
  abbrev pub unless_live : Option Mount → Text → UseLocker → Mount → Host Store → Turn × Host Store
  unless_live (some live) name ut mc a = (goes_on, a)
  unless_live none name ut mc a = collected name ut (add_mount a.collection mc) a

  abbrev pub of_volume : Text → Text → Mount → Result Volume → Host Store → Turn × Host Store
  of_volume hostname name mc (ok vol) a =
      unless_live (a.collection name) name (lock_of hostname name vol) mc a
  of_volume hostname name mc (err e) a = (unread e, a)
  of_volume hostname name mc panic a = (crashes, a)

  abbrev pub of_parts :
      Surroundings → Text → Mount → Option (Text × Text) → Host Store → Turn × Host Store
  of_parts q name mc none a = (goes_on, a)
  of_parts q name mc (some (p, v)) a = of_volume q.hostname name mc (q.volume p v) a

  -- The body of the loop of `updateMounts`.
  unfoldable pub update_mount :
      Surroundings → Counter → Text × Option Mount → Host Store → Turn × Host Store
  unfolding split add_count
  update_mount q counts (name, none) a = (crashes, a)
  update_mount q counts (name, some mc) a =
      of_parts q name mc (two_parts (split slash name))
        (record a { counter = (add_count a.counter name (counts name)).0 })

  abbrev pub next_mount : Turn × Host Store → (Host Store → Turn × Host Store) → Turn × Host Store
  next_mount (goes_on, a) k = k a
  next_mount (exits, a) k = (exits, a)
  next_mount (crashes, a) k = (crashes, a)

  unfoldable pub update_each : Surroundings → Counter → Entries → Host Store → Turn × Host Store
  update_each q counts [] a = (goes_on, a)
  update_each q counts (e ∷ es) a = next_mount (update_mount q counts e a) (update_each q counts es)

  -- The error of `updateMounts`, or how its loop has ended.
  abbrev Ending : Type 0
  Ending = Result Turn × Host Store

  abbrev by_mounted :
      Surroundings → Option (Result (Entries × Counter)) → Host Store → Option Ending
  by_mounted q none a = none
  by_mounted q (some (ok (es, counts))) a =
      let (t, a') = update_each q counts es a in some (ok t, a')
  by_mounted q (some (err e)) a = some (err e, a)
  by_mounted q (some panic) a = some (panic, a)

  -- `updateMounts`.
  unfoldable pub update_mounts : Surroundings → Host Store → Option Ending
  unfolding get_mounted
  update_mounts q a = by_mounted q (get_mounted q) a
