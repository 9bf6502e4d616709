-- ===== src/Api/Mounts.antt =====
-- api/internals/mount: the counter of mounts and the collection of live mounts. Their mutexes make
-- each method one step.
use volplugin.Base.{
  Option, none, some, [], ◌∷◌, Text, ℤ, pos, ◌+ℤ◌, ◌-ℤ◌, ltb_ℤ, update, if◌then◌else◌,
}
use volplugin.Errors.{Result, ok, err, panic, errored, message, not_exists}
use volplugin.Storage.Driver.{Mount}

-- `count map[string]int`.
abbrev pub Counter : Type 0
Counter = Text → ℤ

abbrev pub new_counter : Counter
new_counter mp = pos 0

unfoldable pub get_count : Counter → Text → ℤ
get_count c mp = c mp

unfoldable pub add : Counter → Text → Counter × ℤ
add c mp = (update c mp (c mp +ℤ pos 1), c mp +ℤ pos 1)

unfoldable pub add_count : Counter → Text → ℤ → Counter × ℤ
add_count c mp n = (update c mp (c mp +ℤ n), c mp +ℤ n)

-- `Sub` panics below zero; the count has been written by then.
unfoldable pub sub : Counter → Text → Counter × Result ℤ
sub c mp = let n = c mp -ℤ pos 1 in (update c mp n, if ltb_ℤ n (pos 0) then panic else ok n)

-- `mountMap map[string]*storage.Mount`.
abbrev pub Collection : Type 0
Collection = Text → Option Mount

abbrev pub new_collection : Collection
new_collection vol = none

abbrev add_at : Option Mount → Collection → Mount → Result Collection
add_at none c mc = ok (update c mc.volume.name (some mc))
add_at (some _) c mc = panic

-- `Collection.Add`: a second mount of the volume is a panic.
unfoldable pub add_mount : Collection → Mount → Result Collection
add_mount c mc = add_at (c mc.volume.name) c mc

unfoldable pub remove_mount : Collection → Text → Collection
remove_mount c vol = update c vol none

unfoldable pub get_mount : Collection → Text → Result Mount
get_mount c vol = elim (c vol) [
  | none ↦ err (errored (message ∷ not_exists ∷ []))
  | some mc ↦ ok mc
]
