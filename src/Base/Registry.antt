-- ===== src/Base/Registry.antt =====
-- What a module has taken from the kernel, along a run of calls that take things and give them back.
use mathlib.Core.Bool.{Bool, false, ◌||◌}
use mathlib.Core.Option.{Option, none, some}
use mathlib.Core.List.{List, [], ◌∷◌}
use doomsday_kernel_modules.Base.Tests.{if◌then◌else◌, ◌>>=◌}

pub data Act (R : Type 0) : Type 0 where
  takes gives : R → Act R

-- `same` tests whether two things are the same.
module _ {R : Type 0} (same : R → R → Bool) where
  abbrev pub holds : List R → R → Bool
  holds [] r = false
  holds (x ∷ held) r = same x r || holds held r

  abbrev pub without : List R → R → List R
  without [] r = []
  without (x ∷ held) r = if same x r then held else (x ∷ without held r)

  -- Taking what is held, and giving back what is not, are faults.
  abbrev pub act : Act R → List R → Option (List R)
  act (takes r) held = if holds held r then none else some (r ∷ held)
  act (gives r) held = if holds held r then some (without held r) else none

  abbrev pub replay : List (Act R) → List R → Option (List R)
  replay [] held = some held
  replay (a ∷ acts) held = act a held >>= λ held'. replay acts held'
