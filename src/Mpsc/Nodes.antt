-- ===== src/Mpsc/Nodes.antt =====
-- fumio-utils/src/mpsc.rs, the types that `mpsc!` makes: queues of nodes, whose links stand at an
-- offset in them.
use rust_fumio.Prelude.{
  ℕ, ◌+◌, ◌-◌, ◌≡◌, refl, sym, ap, ◌∙◌, true, List, [], ◌∷◌, Option, none, some, length, arith,
  IsDistinct, ◌∉◌,
}
use rust_fumio.Mpsc.{null, Head, new, push, pop_all, drop_assertion}
use rust_fumio.Mpsc.Drain.{push_all, pop_all-push_all}

module _ (offset : ℕ) where
  -- `&(*node).$member`, and `__base_from_node`
  abbrev pub link_of : ℕ → ℕ
  link_of node = node + offset

  abbrev pub base_from_node : ℕ → ℕ
  base_from_node link = link - offset

  abbrev pub links : List ℕ → List ℕ
  links [] = []
  links (n ∷ ns) = link_of n ∷ links ns

  abbrev pub bases : List ℕ → List ℕ
  bases [] = []
  bases (l ∷ ls) = base_from_node l ∷ bases ls

  pub push_node : ℕ → Head → Head
  push_node node h = push (link_of node) h

  -- The items of a loop over `start_pop`, as nodes.
  abbrev pub nodes_of : Option (List ℕ × Head) → Option (List ℕ × Head)
  nodes_of none = none
  nodes_of (some (ls, h)) = some (bases ls, h)

  pub pop_nodes : ℕ → Head → Option (List ℕ × Head)
  pop_nodes fuel h = nodes_of (pop_all fuel h)

  pub push_nodes : List ℕ → Head → Head
  unfolding push_node
  push_nodes [] h = h
  push_nodes (n ∷ ns) h = push_nodes ns (push_node n h)

  push_nodes-push_all : (ns : List ℕ) (h : Head) → push_nodes ns h ≡ push_all (links ns) h
  unfolding push_nodes push_node push_all
  push_nodes-push_all [] h = refl
  push_nodes-push_all (n ∷ ns) h = push_nodes-push_all ns (push (link_of n) h)

  length-links : (ns : List ℕ) → length (links ns) ≡ length ns
  length-links [] = refl
  length-links (n ∷ ns) = omega (arith, length-links ns)

  bases-links : (ns : List ℕ) → bases (links ns) ≡ ns
  bases-links [] = refl
  bases-links (n ∷ ns) =
      let back : base_from_node (link_of n) ≡ n = omega arith in rw (bases-links ns, back) refl

  -- What is pushed into a new queue comes out, whatever the offset of the links: nodes whose links are
  -- distinct, not null and not the stub are returned in the order of their pushes, and the queue then
  -- passes the assertion of its `Drop`.
  pub pop_nodes-push_nodes :
      (stub : ℕ) (ns : List ℕ)
      → IsDistinct (stub ∷ links ns)
      → null ∉ (stub ∷ links ns)
      → (h : Head) × ((pop_nodes (length ns + 1) (push_nodes ns (new stub (λ _. null)))
            ≡ some (ns, h))
          × (drop_assertion h ≡ true))
  unfolding pop_nodes
  pop_nodes-push_nodes stub ns d real =
      let (h, out, empty) = pop_all-push_all stub (links ns) d real in
      (
        h,
        (
          ap (λ q. nodes_of (pop_all (length ns + 1) q))
                (push_nodes-push_all ns (new stub (λ _. null)))
              ∙ ap (λ k. nodes_of (pop_all (k + 1) (push_all (links ns) (new stub (λ _. null)))))
                  (sym (length-links ns))
              ∙ ap nodes_of out
              ∙ ap (λ ms. some (ms, h)) (bases-links ns),
          empty,
        ),
      )
