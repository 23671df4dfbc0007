-- ===== src/Dijkstra/Examples.antt =====
-- The paths from node A, and the check of the costs.
use unix_sys_prog.Base.{ℕ, ◌≤◌, ◌≡◌, ◌⊎◌, refl, true, some, ◌∈◌}
use unix_sys_prog.Dijkstra.Run.{State, dijkstra, value_check, row_check, cost, nnode}
use unix_sys_prog.Dijkstra.Paths.{PathFrom, Hop, nodes, dijkstra_shortest}

value_check_test : value_check nnode 0 ≡ true
unfolding value_check row_check cost
value_check_test = refl

abbrev zeroed : State
zeroed = record { n_prime = λ _. some 0; i_n_prime = 0; d = λ _. 0; p = λ _. 0 }

dijkstra_shortest_example :
    (r : State) × (dijkstra 0 zeroed ≡ some r)
    × ((v : ℕ)
        → v ∈ nodes
        → PathFrom 0 v (r.d v) × ((w : ℕ) → PathFrom 0 v w → r.d v ≤ w) × ((v ≡ 0) ⊎ Hop r v))
dijkstra_shortest_example = dijkstra_shortest 0 zeroed refl
