-- ===== src/Executor/Run/Gates.antt =====
-- A closed gate: the keys that a module awaits and those that it passes the sentinel on to, and what
-- a reading of the edges does at the sentinel.
pub mod Skipped
pub mod Spread
pub mod Shut
use aqueduct_test.Base.{
  ◌≡◌, sym, String, string_eq, inl, inr, Option, none, some, List, [], ◌∷◌, map, Member,
  Member-of_cons, Member-of_one,
}
use aqueduct_test.Patch.Value.{get}
use aqueduct_test.Parser.Models.{Module, Edge}
use aqueduct_test.Executor.Selection.{incoming_data, incoming_main}
use aqueduct_test.Executor.Run.Store.{
  Slot, frame, gate_closed, get_at, Input, gated, missing, ready, gather, read_slot, from_of,
  key_of,
}
use aqueduct_test.Executor.Run.State.{World, Plan, RunState, Next, goes_on}
use aqueduct_test.Executor.Run.Steps.{reading, on_input, reading_one, branch_ids, branch_key}
use aqueduct_test.Executor.Run.{Kind, egress, channel, junction, funnel, regulator, assert}

abbrev pub first_key : (Edge → String) → List Edge → List String
first_key key [] = []
first_key key (e ∷ _) = key e ∷ []

abbrev pub or_none : Option (List String) → List String
or_none none = []
or_none (some ids) = ids

module _ {F : Type 0} (w : World F) (plan : Plan F) where
  -- The keys whose sentinel makes the module skip itself, and those where it puts the sentinel then.
  unfoldable pub awaited : Option Kind → Module → List String
  unfolding incoming_main incoming_data
  awaited (some channel) m = map from_of (incoming_main m.id' plan.edges)
  awaited (some funnel) m = map key_of (incoming_data m.id' plan.edges)
  awaited (some egress) m = first_key key_of (incoming_data m.id' plan.edges)
  awaited (some junction) m = first_key from_of (incoming_main m.id' plan.edges)
  awaited (some assert) m = first_key from_of (incoming_main m.id' plan.edges)
  awaited (some regulator) m = first_key from_of (incoming_main m.id' plan.edges)
  awaited _ m = []

  unfoldable pub passed_on : Option Kind → Module → List String
  unfolding branch_key get
  passed_on (some channel) m = m.id' ∷ []
  passed_on (some funnel) m = m.id' ∷ []
  passed_on (some junction) m =
      map (branch_key w plan m) (or_none (branch_ids w.show (get "branches" m.config)))
  passed_on (some assert) m = m.id' ∷ []
  passed_on (some regulator) m = m.id' ∷ []
  passed_on _ m = []

module _ {F : Type 0} where
  abbrev pub IsClosed : RunState F → String → Type 0
  IsClosed s k = get_at k s.frames ≡ some gate_closed

  -- If the module did not stop the run, then it did what it does at a closed gate.
  abbrev pub CloseOr : Next F → Next F → Type 0
  CloseOr closed n = (s' : RunState F) → n ≡ goes_on s' → closed ≡ goes_on s'

module _ {F : Type 0} (key name : Edge → String) (s : RunState F) where
  abbrev IsReady : Input F → Type 0
  IsReady gated = ⊥
  IsReady (missing n) = ⊥
  IsReady (ready u) = Unit

  later_not-IsReady :
      (e : Edge) (rest : List (String × F) → Input F) (upstream : List (String × F))
      → ((u : List (String × F)) → ¬ IsReady (rest u))
      → (slot : Option (Slot F)) → ¬ IsReady (read_slot key name s.frames slot e rest upstream)
  later_not-IsReady e rest upstream none_ready none h = h
  later_not-IsReady e rest upstream none_ready (some gate_closed) h = h
  later_not-IsReady e rest upstream none_ready (some (frame df)) h = none_ready _ h

  not-IsReady :
      (k : String) (es : List Edge) (upstream : List (String × F))
      → Member k (map key es)
      → IsClosed s k
      → ¬ IsReady (gather key name s.frames es upstream)
  unfolding gather
  not-IsReady k [] upstream i closed r = elim i [ ]
  not-IsReady k (e ∷ es) upstream i closed r = elim (Member-of_cons k (key e) (map key es) i) [
    | inl same ↦ rw (sym same, closed) at r
    | inr later ↦
        later_not-IsReady e (gather key name s.frames es) upstream
          (λ u. not-IsReady k es u later closed) (get_at (key e) s.frames) r
  ]

module _ {F : Type 0} (w : World F) (plan : Plan F) (m : Module) (key name : Edge → String)
    (no_edges : String) (close : RunState F → Next F) (s : RunState F) (k : String) where
  on_input_closed :
      (next : List (String × F) → RunState F → Next F) (i : Input F)
      → ¬ IsReady key name s i
      → CloseOr (close s) (on_input w plan m close next i s)
  on_input_closed next gated h s' e = e
  on_input_closed next (missing n) h s' e = cc
  on_input_closed next (ready u) h s' e = absurd (h tt)

  pub reading_closed :
      (next : List (String × F) → RunState F → Next F) (edges : List Edge)
      → Member k (map key edges)
      → IsClosed s k
      → CloseOr (close s) (reading w plan key name no_edges m edges close next s)
  unfolding reading
  reading_closed next [] i closed s' e = elim i [ ]
  reading_closed next (e ∷ es) i closed s' h =
      on_input_closed next _ (not-IsReady key name s k (e ∷ es) [] i closed) s' h

  pub reading_one_closed :
      (next : F → RunState F → Next F) (edges : List Edge)
      → Member k (first_key key edges)
      → IsClosed s k
      → CloseOr (close s) (reading_one w plan key name no_edges m edges close next s)
  unfolding reading_one
  reading_one_closed next [] i closed s' e = elim i [ ]
  reading_one_closed next (e ∷ es) i closed s' h = rw (sym (Member-of_one k (key e) i), closed) at h
