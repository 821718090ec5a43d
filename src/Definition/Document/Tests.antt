-- ===== src/Definition/Document/Tests.antt =====
-- A protocol definition that is loaded.
use openrom.Base.{◌≡◌, refl, [], ◌∷◌, false, some}
use openrom.Decode.{pos}
use openrom.Definition.{
  Node, element, other, Nodes, end, next, ProtocolDefinition, field, done, get_prop,
  lookup_definition, put_in, and_then, server,
}
use openrom.Definition.Numbers.{strtol, to_int}
use openrom.Definition.Structs.{parse_packet_node, Place, empty_body, parse_nodes}
use openrom.Definition.Structs.Filters.{AreFlat, selected, parse_nodes-selected}
use openrom.Definition.Document.{
  new_definition, load, loaded, load_nodes, parse_top, parse_enum, parse_definition, parse_packet,
  parse_values, add_value, add, lookup, integer,
}
use openrom.Definition.Document.Enumerations.{Enumerates, parse_values-Enumerates}
use openrom.Definition.Document.Invariant.{IsValid, load-IsValid}
use Prim.Native.String.{String}

abbrev value : String → String → Node
value num name = element "value" (("num", num) ∷ ("name", name) ∷ []) end

abbrev field_of : String → String → Node
field_of name type = element "field" (("name", name) ∷ ("type", type) ∷ []) end

abbrev colours : Nodes
colours = next (value "1" "red") (next other (next (value "0x10" "blue") end))

colours_are_read : parse_values [] colours ≡ some ((pos 1, "red") ∷ (pos 16, "blue") ∷ [])
unfolding parse_values add_value add lookup get_prop strtol to_int
colours_are_read = refl

parse_values-Enumerates_example : Enumerates [] ((pos 1, "red") ∷ (pos 16, "blue") ∷ []) colours
parse_values-Enumerates_example = parse_values-Enumerates [] _ colours tt colours_are_read

abbrev place : Place
place = record { sees = λ b. new_definition; in_packet = false; version = pos 5 }

abbrev with_filters : Nodes
with_filters = next (field_of "id" "u32") (
    next (element "filter" (("version", "3") ∷ []) (next (field_of "x" "u8") end))
      (next (element "filter" (("version", "9") ∷ []) (next (field_of "y" "u8") end)) end))

with_filters-AreFlat : AreFlat with_filters
with_filters-AreFlat = ((λ e. tt), ((λ e. (refl, tt)), ((λ e. (refl, tt)), tt)))

parse_nodes-selected_example :
    parse_nodes place empty_body with_filters
    ≡ parse_nodes place empty_body (selected (pos 5) with_filters)
parse_nodes-selected_example =
    parse_nodes-selected place empty_body with_filters with_filters-AreFlat

new_definition-IsValid : IsValid new_definition
unfolding new_definition
new_definition-IsValid = record { definitions = tt; enums = tt; packets = tt }

abbrev tree : Nodes
tree = next (element "define" (("name", "SIZE") ∷ ("value", "4") ∷ []) end) (
    next (element "enum" (("name", "colour") ∷ []) colours) (
      next
        (element "packet" (("name", "hello") ∷ ("source", "server") ∷ [])
          (next (field_of "id" "u32") end))
        end))

abbrev loaded_tree : ProtocolDefinition
loaded_tree = record new_definition {
  definitions = ("SIZE", "4") ∷ [];
  enums = record { name = "colour"; entries = (pos 1, "red") ∷ (pos 16, "blue") ∷ [] } ∷ [];
  packets =
      record {
        name = "hello";
        actions = field "id" (integer "u32" 4 false) done;
        subpackets = [];
        source = server;
        num_packet_bytes = 4;
      }
      ∷ [];
  version = pos 1;
}

document_is_read : load new_definition (some tree) (pos 1) ≡ some loaded_tree
unfolding load loaded load_nodes parse_top parse_enum parse_definition parse_packet parse_values
    add_value add lookup get_prop lookup_definition put_in and_then strtol to_int parse_packet_node
    new_definition integer
document_is_read = refl

load-IsValid_example : IsValid loaded_tree
load-IsValid_example =
    load-IsValid new_definition loaded_tree (some tree) (pos 1) new_definition-IsValid
      document_is_read
