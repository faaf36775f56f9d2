-- ===== src/Examples/Depths.antt =====
-- Searches through a tree, and acknowledgements written to one.
use openiotrsp.Common.{Bytes}
use openiotrsp.Asn1.Tlv.{tag_euicc_pkg, tag_eid, tag_notification_list, context_primitive}
use openiotrsp.Asn1.Search.{Finds}
use openiotrsp.Esipa.Resolve.Searches.{IsMetadata, IsEid, IsTransaction, searches_find_first}
use openiotrsp.Common.{
  ℕ, suc, ◌<◌, ◌≡◌, refl, ap, List, [], ◌∷◌, All, arith, some, ok, if◌then◌else◌, ◌==◌, eq_nat,
  eq_bytes,
}
use openiotrsp.Asn1.Depth.{Shrinks}
use openiotrsp.Asn1.Tlv.{Tag, eq_tag}
use openiotrsp.Asn1.Tlv.Laws.{BertlvLaws, first_tagged}
use openiotrsp.Asn1.Notification.{
  EimAcknowledgements, marshal_acknowledgements, unmarshal_acknowledgements,
}
use openiotrsp.Asn1.Acknowledgements.{acknowledgements_read_back}
use openiotrsp.Asn1.Notification.Queries.{find_notification_metadata, eid_from_tlv}
use openiotrsp.Esipa.Resolve.{first_context_primitive2}
use openiotrsp.Examples.Objects.{
  Node, Nodes, node, no_nodes, more_nodes, node_list, nodes_of, height_of, height_of_all,
  children_of, first_of, tag_of, leaf, tree, tree_lib,
}

within :
    (bound : ℕ) (inner : Nodes)
    → height_of_all inner < suc bound
    → All (λ c. height_of c < bound) (node_list inner)
unfolding height_of_all node_list
within bound no_nodes h = tt
within bound (more_nodes n inner) h = (ground (arith, h), within bound inner (ground (arith, h)))

shrinks : Shrinks tree_lib
unfolding tree_lib children_of height_of
shrinks (node tag value inner) = within (height_of_all inner) inner (omega arith)

abbrev sixteen : Bytes
sixteen = 0 ∷ 1 ∷ 2 ∷ 3 ∷ 4 ∷ 5 ∷ 6 ∷ 7 ∷ 8 ∷ 9 ∷ 10 ∷ 11 ∷ 12 ∷ 13 ∷ 14 ∷ 15 ∷ []

-- An EID below an object of another tag.
abbrev wrapped_eid : Node
wrapped_eid = tree tag_euicc_pkg (
    leaf (context_primitive 2) (5 ∷ [])
    ∷ tree tag_notification_list (leaf tag_eid sixteen ∷ [])
    ∷ [])

searches_find_first_example :
    let enough = suc (tree_lib.height wrapped_eid) in
    Finds tree_lib
      (IsMetadata tree_lib)
      (λ found. found)
      wrapped_eid
      (find_notification_metadata tree_lib enough wrapped_eid)
    × Finds tree_lib
        (IsEid tree_lib)
        tree_lib.value
        wrapped_eid
        (eid_from_tlv tree_lib enough wrapped_eid)
    × Finds tree_lib
        (IsTransaction tree_lib)
        tree_lib.value
        wrapped_eid
        (first_context_primitive2 tree_lib enough wrapped_eid)
searches_find_first_example = searches_find_first tree_lib shrinks wrapped_eid

list_of_nodes : (l : List Node) → node_list (nodes_of l) ≡ l
unfolding node_list nodes_of
list_of_nodes [] = refl
list_of_nodes (n ∷ l) = ap (λ r. n ∷ r) (list_of_nodes l)

first_agrees : (wanted : Tag) (l : List Node) → first_of wanted l ≡ first_tagged tree_lib wanted l
unfolding first_of tree_lib
first_agrees wanted [] = refl
first_agrees wanted (n ∷ l) =
    ap (λ r. if tag_of n == wanted then some n else r) (first_agrees wanted l)

tree_laws : BertlvLaws tree_lib
unfolding tree_lib children_of
tree_laws = record {
  tag-new_value = λ t b. refl;
  value-new_value = λ t b. refl;
  tag-new_children = λ t cs. refl;
  children-new_children = λ t cs. list_of_nodes cs;
  first_lem = λ o t. first_agrees t (children_of o);
  integer = λ t x small. (leaf t (x ∷ []), refl, refl, refl);
}

abbrev two_acknowledgements : EimAcknowledgements
two_acknowledgements = record { sequence_numbers = 4 ∷ 7 ∷ [] }

acknowledgements_read_back_example :
    (o : Node) × (marshal_acknowledgements tree_lib two_acknowledgements ≡ ok o)
    × (unmarshal_acknowledgements tree_lib o ≡ ok two_acknowledgements)
acknowledgements_read_back_example =
    acknowledgements_read_back tree_lib tree_laws two_acknowledgements
      (omega arith, (omega arith, tt))
