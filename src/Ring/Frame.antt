-- ===== src/Ring/Frame.antt =====
-- What writes to single cells do to a chain of links: the chains they spare, and the chains they
-- make.
use unix_sys_prog.Base.{◌≡◌, List, [], ◌∷◌, ◌++◌, arith, ◌==◌, if◌then◌else◌, ◌∈◌, ◌∉◌, Distinct}
use unix_sys_prog.Ring.{Ptr, Links, Link}

-- A chain survives any change that spares the cells it runs through.
pub Link-frame :
    (l l' : Links) (p : Ptr) (xs : List Ptr) (e : Ptr)
    → Link l p xs e
    → ((a : Ptr) → a ∈ p ∷ xs → l'.fp a ≡ l.fp a)
    → ((a : Ptr) → a ∈ e ∷ xs → l'.bp a ≡ l.bp a)
    → Link l' p xs e
Link-frame l l' p [] e k f b = (ground (arith, f p), ground (arith, b e))
Link-frame l l' p (x ∷ xs) e k f b = (
  ground (arith, f p),
  ground (arith, b x),
  Link-frame l l' x xs e k.2 (λ a m. f a (ground arith)) (λ a m. b a (ground arith)),
)

pub Link-append :
    (l : Links) (p : Ptr) (xs : List Ptr) (q : Ptr) (ys : List Ptr) (e : Ptr)
    → Link l p xs q
    → Link l q ys e
    → Link l p (xs ++ q ∷ ys) e
Link-append l p [] q ys e k m = (k.0, k.1, m)
Link-append l p (x ∷ xs) q ys e k m = (k.0, k.1, Link-append l x xs q ys e k.2 m)

-- The node before the end of a chain is on the chain.
pub mem-bp_end : (l : Links) (p : Ptr) (xs : List Ptr) (e : Ptr) → Link l p xs e → l.bp e ∈ p ∷ xs
mem-bp_end l p [] e k = ground arith
mem-bp_end l p (x ∷ xs) e k = ground (arith, mem-bp_end l x xs e k.2)

-- The node after the start of a chain is on the chain, or is its end.
pub mem-fp_start : (l : Links) (p : Ptr) (xs : List Ptr) (e : Ptr) → Link l p xs e → l.fp p ∈ e ∷ xs
mem-fp_start l p [] e k = ground arith
mem-fp_start l p (x ∷ xs) e k = ground arith

-- The neighbours of a node of a chain.
pub mem-bp :
    (l : Links) (p : Ptr) (xs : List Ptr) (e x : Ptr) → Link l p xs e → x ∈ xs → l.bp x ∈ p ∷ xs
mem-bp l p [] e x k m = cc
mem-bp l p (y ∷ ys) e x k m = ground (arith, mem-bp l y ys e x k.2)

pub mem-fp :
    (l : Links) (p : Ptr) (xs : List Ptr) (e x : Ptr) → Link l p xs e → x ∈ xs → l.fp x ∈ e ∷ xs
mem-fp l p [] e x k m = cc
mem-fp l p (y ∷ ys) e x k m = ground (arith, mem-fp l y ys e x k.2, mem-fp_start l y ys e k.2)

-- A chain may be led to a new end by its last node.
pub Link-to_new_end :
    (l l' : Links) (p : Ptr) (xs : List Ptr) (e n : Ptr)
    → Link l p xs e
    → Distinct (p ∷ xs)
    → n ∉ p ∷ xs
    → e ∉ xs
    → ((a : Ptr) → a ∈ p ∷ xs → l'.fp a ≡ (if a == l.bp e then n else l.fp a))
    → ((a : Ptr) → a ∈ n ∷ xs → l'.bp a ≡ (if a == n then l.bp e else l.bp a))
    → Link l' p xs n
Link-to_new_end l l' p [] e n k d o u f b = (ground (arith, f p), ground (arith, b n))
Link-to_new_end l l' p (x ∷ xs) e n k d o u f b =
    let before = mem-bp_end l x xs e k.2 in
    (
      ground (arith, f p),
      ground (arith, b x),
      Link-to_new_end l l' x xs e n k.2 d.1 (ground arith) (ground arith)
          (λ a m. f a (ground arith)) (λ a m. b a (ground arith)),
    )
