-- ===== src/Elevator/Invariant/Stops.antt =====
-- part3/elevator.c: `stop_elevator` against the invariant.
use kernal_elevator.Base.{◌≡◌, refl, Bool, true, false, some, [], arith}
use kernal_elevator.Elevator.State.{Globals}
use kernal_elevator.Elevator.Calls.{stop_entry, stop_section}
use kernal_elevator.Elevator.Boarding.Unload.{move_all_lem, free_all_lem}
use kernal_elevator.Elevator.Invariant.Defs.{Inv, Inv-outside}

-- The section, which does not fault.
pub stop_section-Inv :
    (locked : Bool) (g : Globals)
    → Inv g
    → (h : Globals) × (stop_section locked g ≡ some (tt, h)) × Inv h
unfolding stop_section
stop_section-Inv false g v = (_, refl, Inv-outside v)
stop_section-Inv true g v = (
  _,
  refl,
  record {
    track = v.track;
    empty_clean = v.empty_clean;
    cabin = record {
      loads_le = v.cabin.loads_le;
      aboard = omega arith;
      status_le = v.cabin.status_le;
      clean = λ _. tt;
      riders = tt;
    };
    queued = v.queued;
    blocks = rw (move_all_lem g.onboard [], free_all_lem g.onboard g.live) (omega arith);
  },
)

pub stop_entry-Inv : (g h : Globals) → Inv g → stop_entry g ≡ some h → Inv h
unfolding stop_entry
stop_entry-Inv g h v e = ground arith
