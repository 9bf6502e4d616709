-- ===== src/Supervisor/Due.antt =====
-- When a turn of the loop acts on a volume.
use volplugin.Base.{
  ℕ, ◌≡◌, ◌↔◌, ◌≢◌, ◌⊎◌, inl, inr, ◌∙◌, refl, Bool, true, false, ◌&&◌, ◌==◌, ℤ, ◌%◌, List, [], ◌∷◌,
  ◌++◌, Text, All, arith, if◌then◌else◌,
}
use volplugin.Errors.{Result, ok, err, Error}
use volplugin.Supervisor.Defs.{processed, seconds, frequency, turn, Scheduled, after_turn, pass}

-- A volume with snapshots is processed exactly at the times that are a multiple of its frequency in
-- whole seconds, where that is not zero.
turn-processed :
    (parsed : Result ℤ) (now : ℕ) (is_used : Bool)
    → seconds (frequency parsed) ≢ 0
    → (turn true parsed now is_used ≡ processed is_used) ↔ (now % seconds (frequency parsed) ≡ 0)
unfolding turn
turn-processed parsed now is_used h = ground arith

-- A volume that takes no snapshots, or whose frequency is at least a second.
abbrev pub IsSound : Scheduled → Type 0
IsSound v = v.use_snapshots ≡ true → seconds (frequency v.parsed) ≢ 0

-- A volume that takes snapshots, and whose frequency cannot be parsed or is below a second.
abbrev pub IsFaulty : Scheduled → Type 0
IsFaulty v =
    (v.use_snapshots ≡ true)
    × (((e : Error) × (v.parsed ≡ err e)) ⊎ ((d : ℤ) × (v.parsed ≡ ok d) × (seconds d ≡ 0)))

-- The volumes whose time is a multiple of their frequency in whole seconds.
abbrev pub due : List Scheduled → List (Text × Bool)
due [] = []
due (v ∷ vs) =
    let rest = due vs in
    if v.use_snapshots && (v.now % seconds (frequency v.parsed) == 0)
    then (v.name, v.is_used) ∷ rest
    else rest

faulty_seconds : (v : Scheduled) → IsFaulty v → seconds (frequency v.parsed) ≡ 0
faulty_seconds v (uses, inl (e, unparsed)) = rw unparsed refl
faulty_seconds v (uses, inr (d, parsed, short)) = rw parsed short

sound_turn :
    (v : Scheduled)
    → (rest : List (Text × Bool) × Bool) → IsSound v
    → after_turn v.name (turn v.use_snapshots v.parsed v.now v.is_used) rest ≡ (
      if v.use_snapshots && (v.now % seconds (frequency v.parsed) == 0)
          then (v.name, v.is_used) ∷ rest.0
          else rest.0,
      rest.1,
    )
unfolding turn
sound_turn v rest sound = ground (arith, sound)

faulty_turn :
    (v : Scheduled)
    → (rest : List (Text × Bool) × Bool) → IsFaulty v
    → after_turn v.name (turn v.use_snapshots v.parsed v.now v.is_used) rest ≡ ([], true)
unfolding turn
faulty_turn v rest f = rw (f.0, faulty_seconds v f) refl

-- The pass over the volumes starts a goroutine for each volume that is due, when all the volumes are sound. A
-- volume that takes snapshots and whose frequency cannot be parsed, or is below a second, ends the
-- process in a panic at its turn: the goroutines of the volumes before it that are due are started, and
-- none of a volume after it.
pub pass_crashes :
    (before after : List Scheduled)
    → (v : Scheduled) → All IsSound before
    → IsFaulty v
    → (pass before ≡ (due before, false)) × (pass (before ++ v ∷ after) ≡ (due before, true))
unfolding pass
pass_crashes [] after v sound f = (refl, faulty_turn v (pass after) f)
pass_crashes (w ∷ before) after v (here, sound) f =
    let (whole, stops) = pass_crashes before after v sound f in
    (
      sound_turn w (pass before) here ∙ rw whole refl,
      sound_turn w (pass (before ++ v ∷ after)) here ∙ rw stops refl,
    )
