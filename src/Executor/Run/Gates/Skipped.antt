-- ===== src/Executor/Run/Gates/Skipped.antt =====
-- A module that awaits a key with the sentinel is skipped without an effect, and passes the sentinel
-- on.
use aqueduct_test.Base.{
  ◌≡◌, refl, ap, String, string_eq, inl, inr, Option, none, some, List, [], ◌∷◌, ◌++◌, map, Member,
  here, there, Member-of_cons, arith,
}
use aqueduct_test.Parser.Models.{Module}
use aqueduct_test.Executor.Models.{skipped}
use aqueduct_test.Executor.Run.Store.{gate_closed, put_at, get_at, get_at-put_at}
use aqueduct_test.Executor.Run.State.{World, Plan, RunState, goes_on, results, skip}
use aqueduct_test.Executor.Run.Steps.{pass_on, close_each, closing, close_branches, branch_key}
use aqueduct_test.Executor.Run.Channel.{run_channel}
use aqueduct_test.Executor.Run.Branches.{
  run_junction, run_funnel, run_assert, run_regulator, run_egress,
}
use aqueduct_test.Executor.Run.{
  Kind, ingress, egress, channel, junction, funnel, probe, regulator, assert, run_kind,
}
use aqueduct_test.Executor.Run.Gates.{
  or_none, awaited, passed_on, IsClosed, reading_closed, reading_one_closed,
}

module _ {F : Type 0} (w : World F) (plan : Plan F) (m : Module) where
  -- The module is skipped, nothing is done outside, and the sentinel stands at the given keys.
  pub record IsSkipped (keys : List String) (s s' : RunState F) : Type 0 where
    pub adds :
        results s'
        ≡ results s ++ (record { module_id = m.id'; status = skipped; error_text = none } ∷ [])
    pub does_nothing : s'.effects ≡ s.effects
    pub closes : (k : String) → Member k keys → IsClosed s' k

  goes_on-eq : {s s' : RunState F} → goes_on s ≡ goes_on s' → s ≡ s'
  goes_on-eq e = cc

  closed_here :
      (key : String) (s : RunState F)
      → get_at key (put_at key gate_closed s.frames) ≡ some gate_closed
  closed_here key s = ground (arith, get_at-put_at key key gate_closed s.frames)

  pass_on-IsSkipped :
      (s s' : RunState F) → pass_on w plan m s ≡ goes_on s' → IsSkipped (m.id' ∷ []) s s'
  pass_on-IsSkipped s s' e =
      rw (← goes_on-eq e) (record { adds = refl; does_nothing = refl; closes = λ k i. own k i })
    where
      own :
          (k : String)
          → Member k (m.id' ∷ [])
          → get_at k (put_at m.id' gate_closed s.frames) ≡ some gate_closed
      own k (here _ _) = closed_here m.id' s
      own k (there _ _ _ i) = elim i [ ]

  close_key_closed :
      (key k : String) (s : RunState F)
      → IsClosed s k
      → get_at k (put_at key gate_closed s.frames) ≡ some gate_closed
  close_key_closed key k s closed = ground (arith, get_at-put_at k key gate_closed s.frames, closed)

  stays-IsClosed :
      (ids : List String) (s : RunState F) (k : String)
      → IsClosed s k
      → IsClosed (close_each w plan m ids s) k
  unfolding close_each
  stays-IsClosed [] s k closed = closed
  stays-IsClosed (b ∷ bs) s k closed =
      stays-IsClosed bs _ k (close_key_closed (branch_key w plan m b) k s closed)

  close_each_closes :
      (ids : List String) (s : RunState F) (k : String)
      → Member k (map (branch_key w plan m) ids)
      → IsClosed (close_each w plan m ids s) k
  unfolding close_each
  close_each_closes [] s k i = elim i [ ]
  close_each_closes (b ∷ bs) s k i =
      elim (Member-of_cons k (branch_key w plan m b) (map (branch_key w plan m) bs) i) [
        | inl same ↦
            rw same
              (stays-IsClosed bs _ (branch_key w plan m b) (closed_here (branch_key w plan m b) s))
        | inr later ↦ close_each_closes bs _ k later
      ]

  close_each_quiet :
      (ids : List String) (s : RunState F)
      → (results (close_each w plan m ids s) ≡ results s)
        × ((close_each w plan m ids s).effects ≡ s.effects)
  unfolding close_each
  close_each_quiet [] s = (refl, refl)
  close_each_quiet (b ∷ bs) s = close_each_quiet bs _

  closing-IsSkipped :
      (ids : Option (List String)) (s s' : RunState F)
      → closing w plan m (λ t. goes_on (skip m t)) ids s ≡ goes_on s'
      → IsSkipped (map (branch_key w plan m) (or_none ids)) s s'
  closing-IsSkipped none s s' e = cc
  closing-IsSkipped (some ids) s s' e =
      let (same_results, same_effects) = close_each_quiet ids s in
      rw (← goes_on-eq e) (record {
        adds =
            ap
              (λ rs. rs ++ (record { module_id = m.id'; status = skipped; error_text = none } ∷ []))
              same_results;
        does_nothing = same_effects;
        closes = close_each_closes ids s;
      })

  skip-IsSkipped : (s s' : RunState F) → goes_on (skip m s) ≡ goes_on s' → IsSkipped [] s s'
  skip-IsSkipped s s' e =
      rw (← goes_on-eq e) (record { adds = refl; does_nothing = refl; closes = λ k i. elim i [ ] })

  -- A module that awaits a closed key, and does not stop the run, is skipped.
  pub run_kind-IsSkipped :
      (kind : Kind) (s s' : RunState F) (k : String)
      → Member k (awaited w plan (some kind) m)
      → IsClosed s k
      → run_kind w plan kind m s ≡ goes_on s'
      → IsSkipped (passed_on w plan (some kind) m) s s'
  unfolding run_kind awaited passed_on run_channel run_junction run_funnel run_assert run_regulator
      run_egress close_branches
  run_kind-IsSkipped channel s s' k i closed e =
      pass_on-IsSkipped s s' (reading_closed w plan m _ _ _ _ s k _ _ i closed s' e)
  run_kind-IsSkipped funnel s s' k i closed e =
      pass_on-IsSkipped s s' (reading_closed w plan m _ _ _ _ s k _ _ i closed s' e)
  run_kind-IsSkipped junction s s' k i closed e =
      closing-IsSkipped _ s s' (reading_one_closed w plan m _ _ _ _ s k _ _ i closed s' e)
  run_kind-IsSkipped assert s s' k i closed e =
      pass_on-IsSkipped s s' (reading_one_closed w plan m _ _ _ _ s k _ _ i closed s' e)
  run_kind-IsSkipped regulator s s' k i closed e =
      pass_on-IsSkipped s s' (reading_one_closed w plan m _ _ _ _ s k _ _ i closed s' e)
  run_kind-IsSkipped egress s s' k i closed e =
      skip-IsSkipped s s' (reading_one_closed w plan m _ _ _ _ s k _ _ i closed s' e)
  run_kind-IsSkipped ingress s s' k i closed e = elim i [ ]
  run_kind-IsSkipped probe s s' k i closed e = elim i [ ]
