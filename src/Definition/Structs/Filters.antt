-- ===== src/Definition/Structs/Filters.antt =====
-- The filters of a struct: the children of one that applies stand in its place.
use mathlib.Core.Path.{fun_ext}
use openrom.Base.{
  ◌≡◌, refl, ap, sym, ◌∙◌, inl, inr, true, false, none, some, if◌then◌else◌, Bool-cases,
  Option-cases,
}
use openrom.Decode.{ℤ}
use openrom.Definition.{
  same, Node, element, other, Nodes, end, next, Parsed, parsed, rejected, thrown, and_then,
}
use openrom.Definition.Structs.{
  Body, Place, filter_applies, parse_child, parse_nodes, parse_node, parse_filtered, parse_plain,
}

-- No filter stands among the nodes.
abbrev pub ArePlain : Nodes → Type 0
ArePlain end = Unit {0}
ArePlain (next other rest) = ArePlain rest
ArePlain (next (element tag attributes children) rest) = (same tag "filter" ≡ false) × ArePlain rest

-- No filter stands in a filter.
abbrev pub AreFlat : Nodes → Type 0
AreFlat end = Unit {0}
AreFlat (next other rest) = AreFlat rest
AreFlat (next (element tag attributes children) rest) =
    (same tag "filter" ≡ true → ArePlain children) × AreFlat rest

pub joined : Nodes → Nodes → Nodes
joined end more = more
joined (next node rest) more = next node (joined rest more)

-- The children of a filter that applies, nothing for one that does not, and any other node.
pub chosen : ℤ → Node → Nodes
chosen version other = next other end
chosen version (element tag attributes children) =
    if same tag "filter"
    then elim (filter_applies version attributes) [
      | none ↦ next (element tag attributes children) end
      | some true ↦ children
      | some false ↦ end
    ]
    else next (element tag attributes children) end

pub selected : ℤ → Nodes → Nodes
selected version end = end
selected version (next node rest) = joined (chosen version node) (selected version rest)

and_then_assoc :
    {A : Type 0} (p : Parsed A) (f g : A → Parsed A)
    → and_then (and_then p f) g ≡ and_then p (λ a. and_then (f a) g)
unfolding and_then
and_then_assoc (parsed a) f g = refl
and_then_assoc rejected f g = refl
and_then_assoc (thrown a) f g = refl

and_then-parsed : {A : Type 0} (p : Parsed A) → and_then p parsed ≡ p
unfolding and_then
and_then-parsed (parsed a) = refl
and_then-parsed rejected = refl
and_then-parsed (thrown a) = refl

parse_nodes-joined :
    (e : Place) (b : Body) (ns ms : Nodes)
    → parse_nodes e b (joined ns ms) ≡ and_then (parse_nodes e b ns) (λ b'. parse_nodes e b' ms)
unfolding parse_nodes joined and_then
parse_nodes-joined e b end ms = refl
parse_nodes-joined e b (next node rest) ms =
    ap (and_then (parse_node e b node)) (fun_ext (λ b'. parse_nodes-joined e b' rest ms))
    ∙ sym (and_then_assoc (parse_node e b node) _ _)

-- Without filters the two loops are one.
parse_filtered_plain :
    (e : Place) (b : Body) (ns : Nodes) → ArePlain ns → parse_filtered e b ns ≡ parse_nodes e b ns
unfolding parse_filtered parse_nodes parse_plain parse_node and_then
parse_filtered_plain e b end plain = refl
parse_filtered_plain e b (next other rest) plain = parse_filtered_plain e b rest plain
parse_filtered_plain e b (next (element tag attributes children) rest) (others, plain) = rw others (
    ap (and_then (parse_child e b tag attributes (λ e' b'. parse_nodes e' b' children)))
      (fun_ext (λ b'. parse_filtered_plain e b' rest plain)))

-- A pass of the loop is the loop over the nodes that are chosen.
parse_node-chosen :
    (e : Place) (b : Body) (node : Node)
    → AreFlat (next node end)
    → parse_node e b node ≡ parse_nodes e b (chosen e.version node)
unfolding parse_node parse_nodes chosen and_then
parse_node-chosen e b other flat = refl
parse_node-chosen e b (element tag attributes children) flat =
    elim (Bool-cases (same tag "filter")) [
      | inr different ↦ rw (different, parse_nodes, parse_node, different) (sym (and_then-parsed _))
      | inl filter ↦ elim (Option-cases (filter_applies e.version attributes)) [
        | inl bad ↦ rw (filter, bad, parse_nodes, parse_node, filter, bad, and_then) refl
        | inr (applies, found) ↦ elim (Bool-cases applies) [
          | inl takes ↦
              rw (filter, found, takes) (parse_filtered_plain e b children (flat.0 filter))
          | inr leaves ↦ rw (filter, found, leaves, parse_nodes) refl
        ]
      ]
    ]

first_flat : (node : Node) (rest : Nodes) → AreFlat (next node rest) → AreFlat (next node end)
first_flat other rest flat = tt
first_flat (element tag attributes children) rest flat = (flat.0, tt)

rest_flat : (node : Node) (rest : Nodes) → AreFlat (next node rest) → AreFlat rest
rest_flat other rest flat = flat
rest_flat (element tag attributes children) rest flat = flat.1

-- A struct parses like one in which the children of the filters that apply stand in their place, and
-- nothing in the place of the others. No filter stands in a filter.
pub parse_nodes-selected :
    (e : Place) (b : Body) (ns : Nodes)
    → AreFlat ns
    → parse_nodes e b ns ≡ parse_nodes e b (selected e.version ns)
unfolding parse_nodes selected
parse_nodes-selected e b end flat = refl
parse_nodes-selected e b (next node rest) flat =
    ap (and_then (parse_node e b node))
      (fun_ext (λ b'. parse_nodes-selected e b' rest (rest_flat node rest flat)))
    ∙ ap (λ p. and_then p (λ b'. parse_nodes e b' (selected e.version rest)))
        (parse_node-chosen e b node (first_flat node rest flat))
    ∙ sym (parse_nodes-joined e b (chosen e.version node) (selected e.version rest))
