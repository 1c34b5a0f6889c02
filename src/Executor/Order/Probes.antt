-- ===== src/Executor/Order/Probes.antt =====
-- What `_build_execution_order` makes of a sorted list and the probes.
use aqueduct_test.Base.{
  ◌≡◌, subst, ap, ◌∙◌, ◌+◌, ◌≤◌, ◌<◌, String, string_eq, count, index_of, index_of-lt,
  index_of_absent, index_of_front, index_of_back, some, List, [], ◌∷◌, ◌++◌, length, arith,
}
use aqueduct_test.Parser.Models.{Module}
use aqueduct_test.Executor.Order.{ids_of, Groups, probes_at, without, all_probes, insert_probes}
use aqueduct_test.Executor.Order.Groups.{
  ids_of-append, count-ids_of-append, count-without, probes_at-without,
}

-- No id comes twice among the modules and the probes.
abbrev pub AreDistinct : List Module → Groups → Type 0
AreDistinct order groups =
    (v : String) → count (ids_of order) v + count (ids_of (all_probes groups)) v ≤ 1

abbrev pub placed : List Module → Groups → List String
placed order groups = ids_of (insert_probes order groups)

placed-eq :
    (m : Module) (ms : List Module) (groups : Groups)
    → placed (m ∷ ms) groups
      ≡ m.id' ∷ (ids_of (probes_at (some m.id') groups) ++ placed ms (without (some m.id') groups))
unfolding insert_probes
placed-eq m ms groups =
    ap (λ ids. m.id' ∷ ids)
      (ids_of-append (probes_at (some m.id') groups)
        (insert_probes ms (without (some m.id') groups)))

pub count-placed :
    (order : List Module) (groups : Groups) (v : String)
    → count (placed order groups) v ≡ count (ids_of order) v + count (ids_of (all_probes groups)) v
unfolding insert_probes
count-placed [] groups v = omega arith
count-placed (m ∷ ms) groups v = omega (
  arith,
  count-placed ms (without (some m.id') groups) v,
  count-without (some m.id') groups v,
  count-ids_of-append (probes_at (some m.id') groups)
      (insert_probes ms (without (some m.id') groups)) v,
)

distinct_rest :
    (m : Module) (ms : List Module) (groups : Groups)
    → AreDistinct (m ∷ ms) groups
    → AreDistinct ms (without (some m.id') groups)
distinct_rest m ms groups d v = omega (arith, d v, count-without (some m.id') groups v)

-- A module or probe that comes neither first nor right behind has its place in the rest.
index_of-placed :
    (m : Module) (ms : List Module) (groups : Groups) (v : String)
    → ¬ (v ≡ m.id')
    → count (ids_of (probes_at (some m.id') groups)) v ≡ 0
    → index_of (placed (m ∷ ms) groups) v
      ≡ 1
        + (length (ids_of (probes_at (some m.id') groups))
            + index_of (placed ms (without (some m.id') groups)) v)
index_of-placed m ms groups v n absent =
    let probes = ids_of (probes_at (some m.id') groups) in
    let rest = placed ms (without (some m.id') groups) in
    ground (
      arith,
      ap (λ ids. index_of ids v) (placed-eq m ms groups),
      index_of_back probes rest v absent,
    )

index_of-placed_first :
    (m : Module) (ms : List Module) (groups : Groups) → index_of (placed (m ∷ ms) groups) m.id' ≡ 0
index_of-placed_first m ms groups =
    ground (arith, ap (λ ids. index_of ids m.id') (placed-eq m ms groups))

index_of-placed_later :
    (m : Module) (ms : List Module) (groups : Groups) (v : String)
    → AreDistinct (m ∷ ms) groups
    → 1 ≤ count (ids_of ms) v
    → index_of (placed (m ∷ ms) groups) v
      ≡ 1
        + (length (ids_of (probes_at (some m.id') groups))
            + index_of (placed ms (without (some m.id') groups)) v)
index_of-placed_later m ms groups v d h =
    index_of-placed m ms groups v (λ e. absurd (ground (arith, d v)))
      (omega (arith, d v, count-without (some m.id') groups v))

-- What stands behind something stands in the rest, and so does what it stands behind.
in_rest :
    (m : Module) (ms : List Module) (u v : String)
    → 1 ≤ count (ids_of (m ∷ ms)) v
    → index_of (ids_of (m ∷ ms)) u < index_of (ids_of (m ∷ ms)) v
    → 1 ≤ count (ids_of ms) v
in_rest m ms u v there_v h = ground arith

both_in_rest :
    (m : Module) (ms : List Module) (u v : String)
    → 1 ≤ count (ids_of (m ∷ ms)) v
    → ¬ (u ≡ m.id')
    → index_of (ids_of (m ∷ ms)) u < index_of (ids_of (m ∷ ms)) v
    → (index_of (ids_of ms) u < index_of (ids_of ms) v) × (1 ≤ count (ids_of ms) u)
both_in_rest m ms u v there_v n h =
    ground
      (arith, in_rest m ms u v there_v h, index_of_absent (ids_of ms) u, index_of-lt (ids_of ms) v)

-- The modules keep their order.
pub placed_forward :
    (order : List Module) (groups : Groups) (u v : String)
    → AreDistinct order groups
    → 1 ≤ count (ids_of order) v
    → index_of (ids_of order) u < index_of (ids_of order) v
    → index_of (placed order groups) u < index_of (placed order groups) v
placed_forward [] groups u v d there_v h = absurd (omega arith)
placed_forward (m ∷ ms) groups u v d there_v h =
    let rest = in_rest m ms u v there_v h in
    let later = index_of-placed_later m ms groups v d rest in
    elim (string_eq.dec u m.id') [
      | yes e ↦
          let first =
            ap (index_of (placed (m ∷ ms) groups)) e ∙ index_of-placed_first m ms groups in
          omega arith
      | no n ↦
          let (behind, u_rest) = both_in_rest m ms u v there_v n h in
          omega (
            arith,
            index_of-placed_later m ms groups u d u_rest,
            placed_forward ms (without (some m.id') groups) u v (distinct_rest m ms groups d) rest
                behind,
          )
    ]

-- The place of a probe attached to the first module, and of another probe.
index_of-placed_own :
    (m : Module) (ms : List Module) (groups : Groups) (p : String)
    → AreDistinct (m ∷ ms) groups
    → 1 ≤ count (ids_of (probes_at (some m.id') groups)) p
    → (1 ≤ index_of (placed (m ∷ ms) groups) p)
      × (index_of (placed (m ∷ ms) groups) p ≤ length (ids_of (probes_at (some m.id') groups)))
index_of-placed_own m ms groups p d own =
    let probes = ids_of (probes_at (some m.id') groups) in
    ground (
      arith,
      d p,
      count-without (some m.id') groups p,
      ap (λ ids. index_of ids p) (placed-eq m ms groups),
      index_of_front probes (placed ms (without (some m.id') groups)) p own,
      index_of-lt probes p own,
    )

other_at :
    (m : Module) (groups : Groups) (u p : String)
    → ¬ (u ≡ m.id')
    → 1 ≤ count (ids_of (probes_at (some u) groups)) p
    → 1 ≤ count (ids_of (probes_at (some u) (without (some m.id') groups))) p
other_at m groups u p n at_u =
    omega (arith, ap (λ ps. count (ids_of ps) p) (probes_at-without u m.id' groups n))

index_of-placed_other :
    (m : Module) (ms : List Module) (groups : Groups) (u p : String)
    → AreDistinct (m ∷ ms) groups
    → ¬ (u ≡ m.id')
    → 1 ≤ count (ids_of (probes_at (some u) groups)) p
    → index_of (placed (m ∷ ms) groups) p
      ≡ 1
        + (length (ids_of (probes_at (some m.id') groups))
            + index_of (placed ms (without (some m.id') groups)) p)
index_of-placed_other m ms groups u p d n at_u =
    let groups' = without (some m.id') groups in
    let still = other_at m groups u p n at_u in
    let somewhere : 1 ≤ count (ids_of (all_probes groups')) p =
      omega (arith, count-without (some u) groups' p) in
    let all_of = count-without (some m.id') groups p in
    index_of-placed m ms groups p (λ e. absurd (ground (arith, d p))) (omega (arith, d p))

-- A probe comes behind the module that it is attached to, and before all that comes behind that.
pub placed_behind :
    (order : List Module) (groups : Groups) (u p : String)
    → AreDistinct order groups
    → 1 ≤ count (ids_of order) u
    → 1 ≤ count (ids_of (probes_at (some u) groups)) p
    → index_of (placed order groups) u < index_of (placed order groups) p
placed_behind [] groups u p d there_u at_u = absurd (omega arith)
placed_behind (m ∷ ms) groups u p d there_u at_u =
    let groups' = without (some m.id') groups in
    elim (string_eq.dec u m.id') [
      | yes e ↦
          let own = subst (λ w. 1 ≤ count (ids_of (probes_at (some w) groups)) p) e at_u in
          let first =
            ap (index_of (placed (m ∷ ms) groups)) e ∙ index_of-placed_first m ms groups in
          omega (arith, index_of-placed_own m ms groups p d own)
      | no n ↦
          let u_rest : 1 ≤ count (ids_of ms) u = ground arith in
          omega (
            arith,
            index_of-placed_later m ms groups u d u_rest,
            index_of-placed_other m ms groups u p d n at_u,
            placed_behind ms groups' u p (distinct_rest m ms groups d) u_rest
                (other_at m groups u p n at_u),
          )
    ]

pub placed_before :
    (order : List Module) (groups : Groups) (u p v : String)
    → AreDistinct order groups
    → 1 ≤ count (ids_of (probes_at (some u) groups)) p
    → 1 ≤ count (ids_of order) v
    → index_of (ids_of order) u < index_of (ids_of order) v
    → index_of (placed order groups) p < index_of (placed order groups) v
placed_before [] groups u p v d at_u there_v h = absurd (omega arith)
placed_before (m ∷ ms) groups u p v d at_u there_v h =
    let rest = in_rest m ms u v there_v h in
    let later = index_of-placed_later m ms groups v d rest in
    elim (string_eq.dec u m.id') [
      | yes e ↦
          let own = subst (λ w. 1 ≤ count (ids_of (probes_at (some w) groups)) p) e at_u in
          omega (arith, index_of-placed_own m ms groups p d own)
      | no n ↦
          let (behind, _) = both_in_rest m ms u v there_v n h in
          omega (
            arith,
            index_of-placed_other m ms groups u p d n at_u,
            placed_before ms (without (some m.id') groups) u p v (distinct_rest m ms groups d)
                (other_at m groups u p n at_u) rest behind,
          )
    ]
