-- ===== src/Dijkstra/Run.antt =====
-- The tables of dijkstra.c, `value_check`, and `dijkstra`. A node number that may be -1 is an option.
use unix_sys_prog.Base.{
  ℕ, zero, suc, ◌+◌, ◌%◌, Bool, true, false, ◌&&◌, ◌||◌, not, ◌==◌, ltb, if◌then◌else◌, List, [],
  ◌∷◌, update, Option, none, some, get_elem?,
}

abbrev pub nnode : ℕ
nnode = 6

abbrev pub inf : ℕ
inf = 100

abbrev row : ℕ → ℕ → ℕ → ℕ → ℕ → ℕ → List ℕ
row a b c d e f = a ∷ b ∷ c ∷ d ∷ e ∷ f ∷ []

abbrev pub cost_table : List (List ℕ)
cost_table =
    row 0 2 5 1 inf inf
    ∷ row 2 0 3 2 inf inf
    ∷ row 5 3 0 3 1 5
    ∷ row 1 2 3 0 1 inf
    ∷ row inf inf 1 1 0 2
    ∷ row inf inf 5 inf 2 0
    ∷ []

abbrev or_zero : Option ℕ → ℕ
or_zero none = 0
or_zero (some n) = n

abbrev or_empty : Option (List ℕ) → List ℕ
or_empty none = []
or_empty (some r) = r

-- `cost[i][j]`, for two nodes.
unfoldable pub cost : ℕ → ℕ → ℕ
cost i j = or_zero (get_elem? (or_empty (get_elem? cost_table i)) j)

-- The part of `value_check` that can fail for costs that are natural numbers.
unfoldable pub row_check : ℕ → ℕ → ℕ → Bool
row_check zero i j = true
row_check (suc n) i j = not (ltb inf (cost i j)) && row_check n i (j + 1)

unfoldable pub value_check : ℕ → ℕ → Bool
value_check zero i = true
value_check (suc n) i = row_check nnode i 0 && value_check n (i + 1)

pub record State : Type 0 where
  pub n_prime : ℕ → Option ℕ
  pub i_n_prime : ℕ
  pub d : ℕ → ℕ
  pub p : ℕ → ℕ

abbrev is_node : Option ℕ → ℕ → Bool
is_node none i = false
is_node (some n) i = n == i

-- `exist`, from the cell `i` on.
unfoldable pub exist : (ℕ → Option ℕ) → ℕ → ℕ → ℕ → Bool
exist array zero i target = false
exist array (suc n) i target = is_node (array i) target || exist array n (i + 1) target

unfoldable pub add_n_prime : ℕ → State → State
add_n_prime num s = record s {
  n_prime = update s.n_prime s.i_n_prime (some num);
  i_n_prime = (s.i_n_prime + 1) % nnode;
}

unfoldable pub clear_n_prime : State → State
clear_n_prime s = record s {
  n_prime = λ i. if ltb i nnode then none else s.n_prime i;
  i_n_prime = 0;
}

-- `D[i] = cost[root][i]; p[i] = root` for `n` nodes from `i` on.
unfoldable pub fill : ℕ → ℕ → ℕ → State → State
fill root zero i s = s
fill root (suc n) i s =
    fill root n (i + 1) (record s { d = update s.d i (cost root i); p = update s.p i root })

-- The locals of a round: `min` and `fin`.
pub record Search : Type 0 where
  pub index : Option ℕ
  pub value : ℕ
  pub fin : Bool

abbrev visited : State → ℕ → Bool
visited s i = exist s.n_prime nnode 0 i

-- The search for the nearest node that is not in N'.
unfoldable pub find_min : ℕ → ℕ → State → Search → Search
unfolding exist
find_min zero i s m = m
find_min (suc n) i s m = find_min n (i + 1) s (
    if visited s i
    then m
    else if ltb (s.d i) m.value
    then record { index = some i; value = s.d i; fin = false }
    else record m { fin = false })

-- The distances that the node `k` shortens.
unfoldable pub relax : ℕ → ℕ → ℕ → State → State
unfolding exist
relax k zero i s = s
relax k (suc n) i s = relax k n (i + 1) (
    if not (visited s i) && ltb (s.d k + cost k i) (s.d i)
    then record s { d = update s.d i (s.d k + cost k i); p = update s.p i k }
    else s)

-- The loop; `none` is an access to `D[-1]`.
unfoldable pub rounds : ℕ → State → Option State
rounds zero s = some s
rounds (suc k) s =
    let m = find_min nnode 0 s (record { index = none; value = inf; fin = true }) in
    elim m.fin [
      | true ↦ some s
      | false ↦ elim m.index [ none ↦ none | some i ↦ rounds k (relax i nnode 0 (add_n_prime i s)) ]
    ]

unfoldable pub dijkstra : ℕ → State → Option State
dijkstra root s = rounds nnode (fill root nnode 0 (add_n_prime root (clear_n_prime s)))
