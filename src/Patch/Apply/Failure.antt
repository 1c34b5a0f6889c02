-- ===== src/Patch/Apply/Failure.antt =====
-- Which operation stops a patch.
use aqueduct_test.Base.{
  ◌≡◌, refl, sym, ap, subst, ◌∙◌, ℕ, ◌+◌, String, List, [], ◌∷◌, ◌++◌, length, arith,
}
use aqueduct_test.Patch.Value.{Value, obj, Fields}
use aqueduct_test.Patch.Grammar.{PatchOp, op_name, PatchSpec}
use aqueduct_test.Patch.Result.{Result, ok, op_error, crash, OpError}
use aqueduct_test.Patch.Operations.{apply_operation}
use aqueduct_test.Patch.Apply.{
  patched, operation_failed, on_applied, apply_each, on_copy, apply_patch_to_dict,
}

module _ (reload : Value → Value) (name : String) (e : OpError) where
  -- The operations before the failure, the operation that fails, and the Blueprint it fails on.
  pub record FailsAt (bp : Fields) (i j : ℕ) (ops : List PatchOp) : Type 0 where
    pub before : List PatchOp
    pub failing : PatchOp
    pub later : List PatchOp
    pub reached : Fields
    pub splits : ops ≡ before ++ (failing ∷ later)
    pub position : j ≡ i + length before + 1
    pub is_named : name ≡ op_name failing
    pub runs : apply_each reload bp i before ≡ patched reached
    pub fails : apply_operation reload reached failing ≡ op_error e

  failed_name :
      (i j : ℕ) (n : String) (x : OpError)
      → operation_failed i n x ≡ operation_failed j name e
      → (i ≡ j) × (n ≡ name) × (x ≡ e)
  failed_name i j n x h = (cc, cc, cc)

  fails_here :
      (bp : Fields) (i j : ℕ) (op : PatchOp) (ops : List PatchOp) (x : OpError)
      → apply_operation reload bp op ≡ op_error x
      → operation_failed (i + 1) (op_name op) x ≡ operation_failed j name e
      → FailsAt bp i j (op ∷ ops)
  unfolding apply_each
  fails_here bp i j op ops x r h =
      let (hi, hn, hx) = failed_name (i + 1) j (op_name op) x h in
      record {
        before = [];
        failing = op;
        later = ops;
        reached = bp;
        splits = refl;
        position = omega (arith, hi);
        is_named = sym hn;
        runs = refl;
        fails = r ∙ ap op_error hx;
      }

  fails_later :
      (bp bp' : Fields) (i j : ℕ) (op : PatchOp) (ops : List PatchOp)
      → apply_operation reload bp op ≡ ok bp'
      → FailsAt bp' (i + 1) j ops
      → FailsAt bp i j (op ∷ ops)
  unfolding apply_each on_applied
  fails_later bp bp' i j op ops r f = record {
    before = op ∷ f.before;
    failing = f.failing;
    later = f.later;
    reached = f.reached;
    splits = ap (λ xs. op ∷ xs) f.splits;
    position = omega (arith, f.position);
    is_named = f.is_named;
    runs = rw r f.runs;
    fails = f.fails;
  }

  on_applied-FailsAt :
      (bp : Fields) (i j : ℕ) (op : PatchOp) (ops : List PatchOp) (r : Result Fields)
      → apply_operation reload bp op ≡ r
      → ((bp' : Fields)
          → apply_each reload bp' (i + 1) ops ≡ operation_failed j name e
          → FailsAt bp' (i + 1) j ops)
      → on_applied reload i op r (λ bp'. apply_each reload bp' (i + 1) ops)
        ≡ operation_failed j name e
      → FailsAt bp i j (op ∷ ops)
  unfolding on_applied
  on_applied-FailsAt bp i j op ops (ok bp') q rest h = fails_later bp bp' i j op ops q (rest bp' h)
  on_applied-FailsAt bp i j op ops (op_error x) q rest h = fails_here bp i j op ops x q h
  on_applied-FailsAt bp i j op ops crash q rest h = cc

  apply_each-FailsAt :
      (bp : Fields) (i j : ℕ) (ops : List PatchOp)
      → apply_each reload bp i ops ≡ operation_failed j name e
      → FailsAt bp i j ops
  unfolding apply_each
  apply_each-FailsAt bp i j [] h = cc
  apply_each-FailsAt bp i j (op ∷ ops) h =
      on_applied-FailsAt bp i j op ops (apply_operation reload bp op) refl
        (λ bp'. apply_each-FailsAt bp' (i + 1) j ops) h

  -- Where dumping a Blueprint and loading it gives it back, a patch that fails at operation `j`
  -- fails there first: the operations before it succeed one after the other, and the one that the
  -- error names fails for the reason of the error on the Blueprint that they reach.
  pub apply_patch_to_dict-FailsAt :
      (bp : Fields) (patch : PatchSpec) (j : ℕ)
      → reload (obj bp) ≡ obj bp
      → apply_patch_to_dict reload bp patch ≡ operation_failed j name e
      → FailsAt bp 0 j patch.operations
  unfolding apply_patch_to_dict on_copy
  apply_patch_to_dict-FailsAt bp patch j same h =
      apply_each-FailsAt bp 0 j patch.operations
        (subst (λ v. on_copy reload v patch.operations ≡ operation_failed j name e) same h)
