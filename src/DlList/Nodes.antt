-- ===== src/DlList/Nodes.antt =====
-- fumio-utils/src/local_dl_list.rs, the types that `local_dl_list!` makes: heads of lists of nodes,
-- whose links stand at an offset in them.
use rust_fumio.Prelude.{ℕ, ◌+◌, ◌-◌, ◌≡◌, Bool, [], ◌∷◌, Option, none, some, arith, ap, ◌∙◌, ◌∉◌}
use rust_fumio.DlList.{
  Heap, ok, M, pure, ◌>>=◌, and_then, is_unlinked, unlink, insert_before, insert_after, pop_front,
  pop_back, take_from,
}
use rust_fumio.DlList.Ring.{IsList, IsAlone}
use rust_fumio.DlList.Insert.{insert_before-snoc}
use rust_fumio.DlList.Pop.{pop_back-snoc}

module _ (offset : ℕ) where
  -- `&node.$member`, and `__base_from_node`
  abbrev pub link_of : ℕ → ℕ
  link_of node = node + offset

  abbrev pub base_from_node : ℕ → ℕ
  base_from_node link = link - offset

  abbrev pub base_of : Option ℕ → Option ℕ
  base_of none = none
  base_of (some link) = some (base_from_node link)

  pub node_is_unlinked : ℕ → M Bool
  node_is_unlinked node = is_unlinked (link_of node)

  pub node_unlink : ℕ → M (Unit {0})
  node_unlink node = unlink (link_of node)

  pub node_insert_after : ℕ → ℕ → M (Unit {0})
  node_insert_after self node = insert_after (link_of self) (link_of node)

  pub node_insert_before : ℕ → ℕ → M (Unit {0})
  node_insert_before self node = insert_before (link_of self) (link_of node)

  pub head_is_empty : ℕ → M Bool
  head_is_empty head = is_unlinked head

  pub head_prepend : ℕ → ℕ → M (Unit {0})
  head_prepend head node = insert_after head (link_of node)

  pub head_append : ℕ → ℕ → M (Unit {0})
  head_append head node = insert_before head (link_of node)

  pub head_pop_front : ℕ → M (Option ℕ)
  head_pop_front head = do link ← pop_front head; pure (base_of link)

  pub head_pop_back : ℕ → M (Option ℕ)
  head_pop_back head = do link ← pop_back head; pure (base_of link)

  pub head_take_from : ℕ → ℕ → M (Unit {0})
  head_take_from head other = take_from head other

  -- Appending a lone node to an empty list and popping the back gives that node, whatever the offset of
  -- its link, and leaves the list empty.
  pub head_pop_back-head_append :
      (h : Heap) (l node : ℕ)
      → IsList h l []
      → IsAlone h (link_of node)
      → link_of node ∉ (l ∷ [])
      → (g : Heap) × (((head_append l node >>= (λ _. head_pop_back l)) h ≡ ok (some node) g)
          × IsList g l [])
  unfolding head_append head_pop_back
  head_pop_back-head_append h l node is alone out =
      let (g, runs, list, _) = insert_before-snoc h l (link_of node) [] is alone out in
      let (g', pops, rest, _, _) = pop_back-snoc g l (link_of node) [] list in
      let back : base_from_node (link_of node) ≡ node = omega arith in
      (
        g',
        (
          ap (λ r. and_then r (λ _. head_pop_back l)) runs
              ∙ ap (λ r. and_then r (λ link. pure (base_of link))) pops
              ∙ ap (λ n. ok (some n) g') back,
          rest,
        ),
      )
