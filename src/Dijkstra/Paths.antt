-- ===== src/Dijkstra/Paths.antt =====
-- What the distances of `dijkstra` are: the weights of the shortest paths of the program's graph.
use unix_sys_prog.Base.{
  ℕ, zero, suc, ◌+◌, ◌≤◌, ◌<◌, ◌≡◌, ◌⊎◌, inl, inr, refl, Bool, true, false, ◌&&◌, ◌||◌, ◌==◌, ltb,
  leb, List, [], ◌∷◌, Option, none, some, arith, has, ◌∈◌, every, every_sound, Bool-cases, eq_of_==,
}
use unix_sys_prog.Dijkstra.Run.{
  cost, State, add_n_prime, clear_n_prime, fill, find_min, relax, rounds, dijkstra,
}

abbrev pub nodes : List ℕ
nodes = 0 ∷ 1 ∷ 2 ∷ 3 ∷ 4 ∷ 5 ∷ []

-- A path of the graph from `u`, with its end and its weight.
pub data PathFrom (u : ℕ) : ℕ → ℕ → Type 0 where
  start : PathFrom u u 0
  step : {v w : ℕ} → PathFrom u v w → v ∈ nodes → (x : ℕ) → x ∈ nodes → PathFrom u x (w + cost v x)

-- No edge shortens a distance, and every node but the root is reached from its predecessor, which is
-- nearer.
hop : State → ℕ → Bool
hop r v = ltb (r.d (r.p v)) (r.d v) && (r.d v == r.d (r.p v) + cost (r.p v) v) && has (r.p v) nodes

closed : ℕ → State → Bool
closed root r =
    (r.d root == 0)
    && every nodes (λ u. every nodes (λ v. leb (r.d v) (r.d u + cost u v)))
    && every nodes (λ v. (v == root) || hop r v)

closed_result : ℕ → Option State → Bool
closed_result root none = false
closed_result root (some r) = closed root r

table : (s : State) → every nodes (λ root. closed_result root (dijkstra root s)) ≡ true
unfolding closed_result closed hop every dijkstra rounds relax find_min fill clear_n_prime
    add_n_prime cost
table s = refl

result_of :
    (root : ℕ) (o : Option State)
    → closed_result root o ≡ true
    → (r : State) × (o ≡ some r) × (closed root r ≡ true)
unfolding closed_result
result_of root none h = cc
result_of root (some r) h = (r, refl, h)

-- The predecessor of `v` is a node that is nearer, by the edge between them.
abbrev pub Hop : State → ℕ → Type 0
Hop r v = (r.d (r.p v) < r.d v) × (r.d v ≡ r.d (r.p v) + cost (r.p v) v) × (r.p v ∈ nodes)

module _ (root : ℕ) (r : State) (c : closed root r ≡ true) where
  root_near : r.d root ≡ 0
  unfolding closed
  root_near = ground arith

  edge : (u v : ℕ) → u ∈ nodes → v ∈ nodes → r.d v ≤ r.d u + cost u v
  unfolding closed
  edge u v hu hv =
      let rows : every nodes (λ u. every nodes (λ v. leb (r.d v) (r.d u + cost u v))) ≡ true =
        ground arith in
      let cell =
        every_sound nodes (λ v. leb (r.d v) (r.d u + cost u v)) v (every_sound nodes _ u rows hu)
          hv in
      ground arith

  -- No path is shorter than the distance of its end.
  lower_bound : {v w : ℕ} → PathFrom root v w → r.d v ≤ w
  lower_bound start = omega (arith, root_near)
  lower_bound (step {v} {w} path hv x hx) = omega (arith, lower_bound path, edge v x hv hx)

  last-Hop : (v : ℕ) → v ∈ nodes → (v ≡ root) ⊎ Hop r v
  unfolding closed hop
  last-Hop v hv =
      let hops : every nodes (λ v. (v == root) || hop r v) ≡ true = ground arith in
      let here = every_sound nodes (λ v. (v == root) || hop r v) v hops hv in
      elim (Bool-cases (v == root)) [
        | inl e ↦ inl (eq_of_== v root e)
        | inr n ↦ inr (ground arith, ground arith, ground arith)
      ]

  attained : (fuel v : ℕ) → v ∈ nodes → r.d v < fuel → PathFrom root v (r.d v)
  attained zero v hv f = absurd (omega arith)
  attained (suc fuel) v hv f = elim (last-Hop v hv) [
    | inl e ↦ rw e (rw root_near start)
    | inr (near, sum, known) ↦
        rw sum (step (attained fuel (r.p v) known (omega (arith, near))) known v hv)
  ]

-- `dijkstra` ends without an access to `D[-1]`, from any earlier contents of its tables. For every node
-- of the graph D holds the weight of a path from the root, and no path from the root to that node
-- weighs less; p holds, for every node but the root, the node before it on such a path.
pub dijkstra_shortest :
    (root : ℕ) (s : State)
    → root ∈ nodes
    → (r : State) × (dijkstra root s ≡ some r)
      × ((v : ℕ)
          → v ∈ nodes
          → PathFrom root v (r.d v)
            × ((w : ℕ) → PathFrom root v w → r.d v ≤ w)
            × ((v ≡ root) ⊎ Hop r v))
dijkstra_shortest root s h =
    let (r, run, c) =
      result_of root (dijkstra root s)
        (every_sound nodes (λ root. closed_result root (dijkstra root s)) root (table s) h) in
    (
      r,
      run,
      λ v hv. (
        attained root r c (suc (r.d v)) v hv (omega arith),
        λ w path. lower_bound root r c path,
        last-Hop root r c v hv,
      ),
    )
