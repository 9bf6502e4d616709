-- ===== src/Supervisor/Defs.antt =====
-- volsupervisor/loop.go: one turn of `loop` for one volume, `createSnapshot` and `pruneSnapshots`.
-- What the surroundings answer is part of the request: the lock, the driver, and the list.
use volplugin.Base.{
  ℕ, zero, suc, ◌+◌, ◌-◌, ◌/◌, ◌%◌, ◌==◌, Bool, true, false, Option, none, some, List, [], ◌∷◌,
  Text, ℤ, pos, negsuc, ltb, length, get_elem?, if◌then◌else◌,
}
use volplugin.Errors.{Result, ok, err, panic, Error}
use volplugin.Storage.Driver.{new_ceph_driver}
use volplugin.Storage.Name.{is_empty}

-- What the supervisor asks of the driver, in order.
pub data Call : Type 0 where
  create_snapshot : Call
  remove_snapshot : Text → Call

-- The run of one of the functions: the calls, whether a lock was taken and its goroutine told to stop,
-- and whether it ended in a panic.
pub record Trace : Type 0 where
  pub calls : List Call
  pub locked : Bool
  pub stopped : Bool
  pub crashed : Bool

abbrev pub idle : Trace
idle = record { calls = []; locked = false; stopped = false; crashed = false }

-- 64 bits as an `int`, in two's complement.
abbrev pub to_int : ℕ → ℤ
to_int keep =
    if ltb keep 9223372036854775808 then pos keep else negsuc (18446744073709551615 - keep)

-- `len(list) - int(keep)`, which wraps.
unfoldable pub to_delete_count : ℕ → ℕ → ℤ
to_delete_count len keep = to_int ((len + (18446744073709551616 - keep)) % 18446744073709551616)

abbrev cons_call : Text → List Call × Bool → List Call × Bool
cons_call name (calls, crashed) = (remove_snapshot name ∷ calls, crashed)

-- The loop from index `i`, with `n` steps left: a removal that fails is only logged, and an index past
-- the end of the list is a panic.
abbrev at_index : Option Text → List Call × Bool → List Call × Bool
at_index none rest = ([], true)
at_index (some name) rest = cons_call name rest

unfoldable pub remove_from : List Text → ℕ → ℕ → List Call × Bool
remove_from list i zero = ([], false)
remove_from list i (suc n) = at_index (get_elem? list i) (remove_from list (suc i) n)

abbrev pub removals : List Text → ℤ → List Call × Bool
removals list (pos n) = remove_from list 0 n
removals list (negsuc n) = ([], false)

-- The deferred send on the stop channel is made also when the function panics.
abbrev pub held : List Call × Bool → Trace
held (calls, crashed) = record { calls = calls; locked = true; stopped = true; crashed = crashed }

-- `pruneSnapshots`: the backend, the error of the lock, the answer of `ListSnapshots`, and Keep.
unfoldable pub prune_snapshots : Text → Option Error → Result (List Text) → ℕ → Trace
unfolding to_delete_count new_ceph_driver
prune_snapshots backend (some e) listed keep = idle
prune_snapshots backend none listed keep =
    if is_empty backend then idle else elim (new_ceph_driver backend) [
      | ok d ↦ elim listed [
        | ok list ↦ held (removals list (to_delete_count (length list) keep))
        | err e ↦ held ([], false)
        | panic ↦ held ([], true)
      ]
      | err e ↦ held ([], false)
      | panic ↦ held ([], true)
    ]

-- `createSnapshot`.
unfoldable pub create_snapshot_of : Text → Option Error → Trace
unfolding new_ceph_driver
create_snapshot_of backend (some e) = idle
create_snapshot_of backend none = elim (new_ceph_driver backend) [
  | ok d ↦ held (create_snapshot ∷ [], false)
  | err e ↦ held ([], false)
  | panic ↦ held ([], true)
]

-- What a turn does with a volume: nothing, the goroutine that it starts, with `isUsed`, or a panic.
pub data Turn : Type 0 where
  passed : Turn
  processed : Bool → Turn
  crash : Turn

-- `int64(freq.Seconds())`, for a duration in nanoseconds that a float64 of seconds tells apart.
abbrev pub seconds : ℤ → ℕ
seconds (pos d) = d / 1000000000
seconds (negsuc d) = suc d / 1000000000

-- The frequency that is used: a text that cannot be parsed leaves zero.
abbrev pub frequency : Result ℤ → ℤ
frequency (ok d) = d
frequency (err e) = pos 0
frequency panic = pos 0

-- `a % b`: the sign of a divisor does not matter, and a zero divisor is a panic.
abbrev pub remainder : ℕ → ℕ → Result ℕ
remainder a zero = panic
remainder a (suc b) = ok (a % suc b)

abbrev pub by_remainder : Result ℕ → Bool → Turn
by_remainder (ok r) is_used = if r == 0 then processed is_used else passed
by_remainder (err e) is_used = crash
by_remainder panic is_used = crash

-- The body of the loop for one volume.
unfoldable pub turn : Bool → Result ℤ → ℕ → Bool → Turn
turn use_snapshots parsed now is_used =
    if use_snapshots
    then by_remainder (remainder now (seconds (frequency parsed))) is_used
    else passed

-- A volume of the copy that the loop goes over, with what it meets: the parsed frequency, the clock, and whether
-- it is in use.
pub record Scheduled : Type 0 where
  pub name : Text
  pub use_snapshots : Bool
  pub parsed : Result ℤ
  pub now : ℕ
  pub is_used : Bool

abbrev pub after_turn : Text → Turn → List (Text × Bool) × Bool → List (Text × Bool) × Bool
after_turn name passed rest = rest
after_turn name (processed is_used) (started, crashed) = ((name, is_used) ∷ started, crashed)
after_turn name crash rest = ([], true)

-- One pass of `loop` over the copy of the volumes, in one order of the map: the goroutines that it starts,
-- and whether it ends the process.
unfoldable pub pass : List Scheduled → List (Text × Bool) × Bool
unfolding turn
pass [] = ([], false)
pass (v ∷ vs) = after_turn v.name (turn v.use_snapshots v.parsed v.now v.is_used) (pass vs)

-- The goroutine of a turn: a snapshot is taken of a volume in use, and the pruning follows.
unfoldable pub process :
    Text → (created pruned : Option Error) → Result (List Text) → ℕ → Bool → List Trace
unfolding prune_snapshots create_snapshot_of
process backend created pruned listed keep true =
    create_snapshot_of backend created ∷ prune_snapshots backend pruned listed keep ∷ []
process backend created pruned listed keep false = prune_snapshots backend pruned listed keep ∷ []
