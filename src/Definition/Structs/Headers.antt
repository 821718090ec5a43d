-- ===== src/Definition/Structs/Headers.antt =====
-- The header of a packet, and what a parsing function leaves.
use openrom.Base.{
  ◌<◌, ◌≡◌, refl, ◌⊎◌, arith, inl, inr, List, [], ◌∷◌, Bool-cases, Option-cases, ◌==◌,
}
use openrom.Definition.{
  get_prop, Nodes, Source, unknown, server, client, PacketDef, ProtocolDefinition, Parsed, parsed,
  rejected, thrown, and_then, put_in,
}
use openrom.Definition.Fields.{Attributes}
use openrom.Definition.Structs.{
  constant_actions, source_of, packet_of, check_size, finish_packet, parse_packet_node,
}
use Prim.Native.String.{String}

-- A packet whose node is parsed knows the size of its header, and has one if it has subpackets.
pub data IsMeasured (p : PacketDef) : Type 0 where
  unfinished : p.source ≡ unknown → p.num_packet_bytes ≡ 0 → IsMeasured p
  measured :
      p.num_packet_bytes ≡ constant_actions p.actions 0
      → (p.subpackets ≡ []) ⊎ (0 < p.num_packet_bytes)
      → IsMeasured p

-- What is left has a property.
abbrev pub Leaves : {A : Type 0} → (A → Type 0) → Parsed A → Type 0
Leaves P (parsed a) = P a
Leaves P rejected = Unit {0}
Leaves P (thrown a) = P a

pub and_then-Leaves :
    {A : Type 0} (P : A → Type 0) (p : Parsed A) (f : A → Parsed A)
    → Leaves P p
    → ((a : A) → P a → Leaves P (f a))
    → Leaves P (and_then p f)
unfolding and_then
and_then-Leaves P (parsed a) f l go = go a l
and_then-Leaves P rejected f l go = tt
and_then-Leaves P (thrown a) f l go = l

pub put_in-Leaves :
    {A B : Type 0} (P : A → Type 0) (Q : B → Type 0) (f : A → B) (p : Parsed A)
    → Leaves P p
    → ((a : A) → P a → Q (f a))
    → Leaves Q (put_in f p)
unfolding put_in
put_in-Leaves P Q f (parsed a) l go = go a l
put_in-Leaves P Q f rejected l go = tt
put_in-Leaves P Q f (thrown a) l go = go a l

pub anything : {A : Type 0} (p : Parsed A) → Leaves (λ a. Unit {0}) p
anything (parsed a) = tt
anything rejected = tt
anything (thrown a) = tt

check_size-Leaves :
    (p : PacketDef)
    → p.num_packet_bytes ≡ constant_actions p.actions 0
    → Leaves IsMeasured (check_size p)
unfolding check_size
check_size-Leaves p size = elim (list_cases p.subpackets) [
  | inl none_left ↦ rw (none_left, check_size) (measured size (inl none_left))
  | inr (sp, rest, some_left) ↦ elim (Bool-cases (p.num_packet_bytes == 0)) [
    | inl empty ↦ rw (some_left, empty, check_size) tt
    | inr header ↦ rw (some_left, header, check_size) (measured size (inr (ground arith)))
  ]
]
  where
    list_cases :
        {A : Type 0} (xs : List A) → (xs ≡ []) ⊎ ((x : A) × (rest : List A) × (xs ≡ x ∷ rest))
    list_cases [] = inl refl
    list_cases (x ∷ xs) = inr (x, xs, refl)

finish_packet-Leaves :
    (attributes : Attributes) (p : PacketDef) → Leaves IsMeasured (finish_packet attributes p)
unfolding finish_packet
finish_packet-Leaves attributes p = elim (Option-cases (get_prop "source" attributes)) [
  | inl missing ↦ rw (missing, finish_packet) tt
  | inr (s, found) ↦ rw (found, finish_packet) (by_source (source_of s))
]
  where
    sized : Source → PacketDef
    sized side = record p { source = side; num_packet_bytes = constant_actions p.actions 0 }

    by_source :
        (side : Source)
        → Leaves IsMeasured (elim side [ unknown ↦ rejected | side' ↦ check_size (sized side') ])
    by_source unknown = tt
    by_source server = check_size-Leaves (sized server) refl
    by_source client = check_size-Leaves (sized client) refl

pub parse_packet_node-Leaves :
    (d : ProtocolDefinition) (name : String) (attributes : Attributes) (children : Nodes)
    → Leaves IsMeasured (parse_packet_node d name attributes children)
unfolding parse_packet_node packet_of
parse_packet_node-Leaves d name attributes children =
    and_then-Leaves IsMeasured _ _
      (put_in-Leaves (λ a. Unit {0}) IsMeasured (packet_of name) _ (anything _)
        (λ b u. unfinished refl refl))
      (λ p m. finish_packet-Leaves attributes p)
