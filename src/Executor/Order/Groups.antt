-- ===== src/Executor/Order/Groups.antt =====
-- `probes_by_attach`: which probes stand under which key, and that none is lost.
use aqueduct_test.Base.{
  ◌≡◌, refl, ap, ◌∙◌, ◌+◌, ◌≤◌, true, String, string_eq, count, count-append, Option, none, some,
  List, [], ◌∷◌, ◌++◌, Member, here, there, arith,
}
use aqueduct_test.Parser.Models.{Module}
use aqueduct_test.Executor.Order.{
  ids_of, Groups, same_key, add_probe, group, probes_at, without, all_probes,
}

pub ids_of-append : (xs ys : List Module) → ids_of (xs ++ ys) ≡ ids_of xs ++ ids_of ys
ids_of-append [] ys = refl
ids_of-append (x ∷ xs) ys = ground (arith, ids_of-append xs ys)

pub count-ids_of-append :
    (xs ys : List Module) (v : String)
    → count (ids_of (xs ++ ys)) v ≡ count (ids_of xs) v + count (ids_of ys) v
count-ids_of-append xs ys v =
    ap (λ ids. count ids v) (ids_of-append xs ys) ∙ count-append (ids_of xs) (ids_of ys) v

pub same_key_self : (key : Option String) → same_key key key ≡ true
same_key_self none = refl
same_key_self (some a) = ground arith

-- `pop` splits the probes.
pub count-without :
    (key : Option String) (groups : Groups) (v : String)
    → count (ids_of (all_probes groups)) v
      ≡ count (ids_of (probes_at key groups)) v + count (ids_of (all_probes (without key groups))) v
unfolding all_probes probes_at without
count-without key [] v = omega arith
count-without key ((k, probes) ∷ groups) v = ground (
  arith,
  count-without key groups v,
  count-ids_of-append probes (all_probes groups) v,
  count-ids_of-append probes (all_probes (without key groups)) v,
)

-- It leaves the other keys.
pub probes_at-without :
    (a b : String) (groups : Groups)
    → ¬ (a ≡ b)
    → probes_at (some a) (without (some b) groups) ≡ probes_at (some a) groups
unfolding probes_at without
probes_at-without a b [] n = refl
probes_at-without a b ((none, probes) ∷ groups) n = probes_at-without a b groups n
probes_at-without a b ((some k, probes) ∷ groups) n = ground (arith, probes_at-without a b groups n)

count-add_probe :
    (key : Option String) (probe : Module) (groups : Groups) (v : String)
    → count (ids_of (all_probes (add_probe key probe groups))) v
      ≡ count (ids_of (all_probes groups)) v + count (probe.id' ∷ []) v
unfolding all_probes add_probe
count-add_probe key probe [] v = omega arith
count-add_probe key probe ((k, probes) ∷ groups) v = ground (
  arith,
  count-add_probe key probe groups v,
  count-ids_of-append probes (all_probes groups) v,
  count-ids_of-append probes (all_probes (add_probe key probe groups)) v,
  count-ids_of-append (probes ++ (probe ∷ [])) (all_probes groups) v,
  count-ids_of-append probes (probe ∷ []) v,
)

pub count-group :
    (groups : Groups) (probes : List Module) (v : String)
    → count (ids_of (all_probes (group groups probes))) v
      ≡ count (ids_of (all_probes groups)) v + count (ids_of probes) v
unfolding group
count-group groups [] v = omega arith
count-group groups (p ∷ probes) v = omega (
  arith,
  count-group (add_probe p.attach_to p groups) probes v,
  count-add_probe p.attach_to p groups v,
)

-- A probe stands under its key.
probes_at-add_probe :
    (key : Option String) (probe : Module) (groups : Groups)
    → 1 ≤ count (ids_of (probes_at key (add_probe key probe groups))) probe.id'
unfolding probes_at add_probe
probes_at-add_probe key probe [] = ground (arith, same_key_self key)
probes_at-add_probe key probe ((k, probes) ∷ groups) =
    ground (
      arith,
      probes_at-add_probe key probe groups,
      count-ids_of-append probes (probe ∷ []) probe.id',
    )

add_probe_keeps :
    (key other : Option String) (probe : Module) (groups : Groups) (v : String)
    → count (ids_of (probes_at other groups)) v
      ≤ count (ids_of (probes_at other (add_probe key probe groups))) v
unfolding probes_at add_probe
add_probe_keeps key other probe [] v = omega arith
add_probe_keeps key other probe ((k, probes) ∷ groups) v =
    ground
      (arith, add_probe_keeps key other probe groups v, count-ids_of-append probes (probe ∷ []) v)

group_keeps :
    (other : Option String) (groups : Groups) (probes : List Module) (v : String)
    → count (ids_of (probes_at other groups)) v
      ≤ count (ids_of (probes_at other (group groups probes))) v
unfolding group
group_keeps other groups [] v = omega arith
group_keeps other groups (p ∷ probes) v = omega (
  arith,
  group_keeps other (add_probe p.attach_to p groups) probes v,
  add_probe_keeps p.attach_to other p groups v,
)

pub probes_at-group :
    (groups : Groups) (probes : List Module) (p : Module)
    → Member p probes
    → 1 ≤ count (ids_of (probes_at p.attach_to (group groups probes))) p.id'
unfolding group
probes_at-group groups _ p (here _ probes) = omega (
  arith,
  group_keeps p.attach_to (add_probe p.attach_to p groups) probes p.id',
  probes_at-add_probe p.attach_to p groups,
)
probes_at-group groups _ p (there _ q probes m) =
    probes_at-group (add_probe q.attach_to q groups) probes p m
