-- ===== src/System/Locks/Sections/Evacuate.antt =====
-- The section of `removeAllPassengers`, statement by statement.
use kernal_elevator.Base.{
  ℕ, zero, suc, ◌+◌, ◌≡◌, refl, sym, ap, ◌∙◌, none, some, ◌>>=◌, List, [], ◌∷◌, ◌++◌, append_assoc,
  length, length-append, get_elem?, set, set-set,
}
use kernal_elevator.Elevator.State.{Passenger, Globals, move_all}
use kernal_elevator.Elevator.Setup.{move_floors, emptied_lists, remove_body}
use kernal_elevator.System.Locks.Bodies.{Body, ended, run_body, and_then, run_body-and_then}
use kernal_elevator.System.Locks.Sections.Defs.{with_lists, assign, look, fault}
use kernal_elevator.System.Locks.Sections.Remove.{set_onboard, empty_pieces, empty_pieces_lem}

-- Both loops over a list move its first passenger to the list to delete.
abbrev pub set_queue : ℕ → List Passenger → Globals → Globals
set_queue i ps g = record g { waiting_list = set g.waiting_list i ps }

unfoldable pub queue_pieces : ℕ → List Passenger → List Passenger → Body (List Passenger)
queue_pieces i [] delete_list = ended delete_list
queue_pieces i (p ∷ ps) delete_list =
    assign (set_queue i ps) (λ g. refl) (queue_pieces i ps (delete_list ++ p ∷ []))

unfoldable pub floors_pieces : ℕ → ℕ → List Passenger → Body (List Passenger)
unfolding queue_pieces
floors_pieces i zero delete_list = ended delete_list
floors_pieces i (suc n) delete_list = look (λ g. elim (get_elem? g.waiting_list i) [
  | none ↦ fault delete_list
  | some queue ↦
      and_then (queue_pieces i queue delete_list) (λ moved. floors_pieces (i + 1) n moved)
])

-- `FLOORS` is the size of the array.
unfoldable pub evacuate_pieces : Body (List Passenger)
unfolding floors_pieces empty_pieces
evacuate_pieces = look (λ g.
    and_then (empty_pieces g.onboard []) (λ moved. floors_pieces 0 (length g.waiting_list) moved))

queue_pieces_lem :
    (i : ℕ) (ps delete_list : List Passenger) (g : Globals)
    → run_body (queue_pieces i ps delete_list) (set_queue i ps g)
      ≡ some (move_all ps delete_list, set_queue i [] g)
unfolding run_body queue_pieces move_all
queue_pieces_lem i [] delete_list g = refl
queue_pieces_lem i (p ∷ ps) delete_list g =
    ap (λ qs. run_body (queue_pieces i ps (delete_list ++ p ∷ [])) (record g { waiting_list = qs }))
      (set-set g.waiting_list i (p ∷ ps) ps)
    ∙ queue_pieces_lem i ps (delete_list ++ p ∷ []) g

-- The list behind those that are emptied already.
get_elem?-behind :
    (done : List (List Passenger)) (q : List Passenger) (qs : List (List Passenger))
    → get_elem? (done ++ q ∷ qs) (length done) ≡ some q
get_elem?-behind [] q qs = refl
get_elem?-behind (d ∷ done) q qs = get_elem?-behind done q qs

set-behind :
    (done : List (List Passenger)) (q a : List Passenger) (qs : List (List Passenger))
    → set (done ++ q ∷ qs) (length done) a ≡ done ++ a ∷ qs
set-behind [] q a qs = refl
set-behind (d ∷ done) q a qs = ap (λ rs. d ∷ rs) (set-behind done q a qs)

floor_step :
    (i n : ℕ) (q delete_list : List Passenger) (g : Globals)
    → get_elem? g.waiting_list i ≡ some q
    → run_body (floors_pieces i (suc n) delete_list) g
      ≡ run_body
          (and_then (queue_pieces i q delete_list) (λ moved. floors_pieces (i + 1) n moved))
          g
unfolding run_body floors_pieces
floor_step i n q delete_list g e = rw (e, run_body) refl

-- One round of the loop over the floors.
floor_round :
    (done : List (List Passenger)) (q : List Passenger) (qs : List (List Passenger)) (n : ℕ)
    (delete_list : List Passenger) (g : Globals)
    → run_body (floors_pieces (length done) (suc n) delete_list) (with_lists (done ++ q ∷ qs) g)
      ≡ run_body
          (floors_pieces (length done + 1) n (move_all q delete_list))
          (with_lists (done ++ [] ∷ qs) g)
floor_round done q qs n delete_list g =
    let i = length done in
    let h = with_lists (done ++ q ∷ qs) g in
    let back : with_lists (set (done ++ q ∷ qs) i q) g ≡ h =
      ap (λ rs. with_lists rs g) (set-behind done q q qs) in
    let out : run_body (queue_pieces i q delete_list) h
        ≡ some (move_all q delete_list, with_lists (done ++ [] ∷ qs) g) =
      ap (λ k. run_body (queue_pieces i q delete_list) k) (sym back)
      ∙ queue_pieces_lem i q delete_list h
      ∙ ap (λ rs. some (move_all q delete_list, with_lists rs g)) (set-behind done q [] qs) in
    floor_step i n q delete_list h (get_elem?-behind done q qs)
    ∙ run_body-and_then (queue_pieces i q delete_list) (λ moved. floors_pieces (i + 1) n moved) h
    ∙ ap (λ o. o >>= λ r. run_body (floors_pieces (i + 1) n r.0) r.1) out

floors_pieces_lem :
    (done qs : List (List Passenger)) (delete_list : List Passenger) (g : Globals)
    → run_body (floors_pieces (length done) (length qs) delete_list) (with_lists (done ++ qs) g)
      ≡ some (move_floors qs delete_list, with_lists (done ++ emptied_lists qs) g)
unfolding run_body floors_pieces move_floors emptied_lists
floors_pieces_lem done [] delete_list g = refl
floors_pieces_lem done (q ∷ qs) delete_list g =
    let next = done ++ [] ∷ [] in
    let moved = move_all q delete_list in
    floor_round done q qs (length qs) delete_list g
    ∙ ap (λ n. run_body (floors_pieces n (length qs) moved) (with_lists (done ++ [] ∷ qs) g))
        (sym (length-append {0} done ([] ∷ [])))
    ∙ ap (λ rs. run_body (floors_pieces (length next) (length qs) moved) (with_lists rs g))
        (sym (append_assoc done ([] ∷ []) qs))
    ∙ floors_pieces_lem next qs moved g
    ∙ ap (λ rs. some (move_floors qs moved, with_lists rs g))
        (append_assoc done ([] ∷ []) (emptied_lists qs))

-- Whole, it is the body of the model.
pub evacuate_pieces_lem : (g : Globals) → run_body evacuate_pieces g ≡ remove_body g
unfolding run_body evacuate_pieces remove_body
evacuate_pieces_lem g =
    let next = λ (moved : List Passenger). floors_pieces 0 (length g.waiting_list) moved in
    run_body-and_then (empty_pieces g.onboard []) next g
    ∙ ap (λ o. o >>= λ r. run_body (next r.0) r.1) (empty_pieces_lem g.onboard [] g)
    ∙ floors_pieces_lem [] g.waiting_list (move_all g.onboard []) (set_onboard [] g)
