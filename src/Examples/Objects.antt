-- ===== src/Examples/Objects.antt =====
-- Test data: objects as trees, a reader of two known byte strings, and a store that is a list of
-- operations.
use openiotrsp.Storage.Api.{StoreApi}
use openiotrsp.Storage.{Operation, OperationKind, OperationStatus}
use openiotrsp.Common.{
  ℕ, suc, ltb, true, Option, none, some, List, [], ◌∷◌, ◌++◌, if◌then◌else◌, ◌==◌, Bytes, ascii,
  eq_nat, eq_bytes, bytes_eq, Int64, not_found, invalid_input, encoding_error, Result, ok, err,
  Action,
}
use openiotrsp.Asn1.Tlv.{
  eq_tag, Tag, Bertlv, tag_euicc_pkg, tag_sequence, context_constructed, context_primitive, tag_eid,
  tag_signature,
}

mutual
  pub data Node : Type 0 where
    node : Tag → Bytes → Nodes → Node

  pub data Nodes : Type 0 where
    no_nodes : Nodes
    more_nodes : Node → Nodes → Nodes

abbrev pub tag_of : Node → Tag
tag_of (node tag value inner) = tag

abbrev pub value_of : Node → Bytes
value_of (node tag value inner) = value

unfoldable pub node_list : Nodes → List Node
node_list no_nodes = []
node_list (more_nodes n inner) = n ∷ node_list inner

unfoldable pub children_of : Node → List Node
unfolding node_list
children_of (node tag value inner) = node_list inner

abbrev pub larger : ℕ → ℕ → ℕ
larger m n = if ltb m n then n else m

-- How deeply a tree is nested.
unfoldable mutual
  pub height_of : Node → ℕ
  height_of (node tag value inner) = height_of_all inner

  pub height_of_all : Nodes → ℕ
  height_of_all no_nodes = 0
  height_of_all (more_nodes n inner) = larger (suc (height_of n)) (height_of_all inner)

unfoldable pub nodes_of : List Node → Nodes
nodes_of [] = no_nodes
nodes_of (n ∷ l) = more_nodes n (nodes_of l)

unfoldable pub first_of : Tag → List Node → Option Node
first_of wanted [] = none
first_of wanted (n ∷ l) = if tag_of n == wanted then some n else first_of wanted l

-- A primitive object, and a constructed one.
abbrev pub leaf : Tag → Bytes → Node
leaf tag value = node tag value no_nodes

unfoldable pub tree : Tag → List Node → Node
unfolding nodes_of
tree tag inner = node tag [] (nodes_of inner)

abbrev pub small_integer : Bytes → Result Int64
small_integer [] = err (encoding_error (ascii "empty INTEGER"))
small_integer (x ∷ bytes) = ok x

-- A package that enables a profile.
abbrev pub package_object : Node
package_object = tree tag_euicc_pkg (
    tree tag_sequence (
      leaf (context_primitive 0) (65 ∷ [])
      ∷ leaf tag_eid (137 ∷ [])
      ∷ leaf (context_primitive 1) (4 ∷ [])
      ∷ tree (context_constructed 0)
          (tree (context_constructed 3) (leaf tag_eid (1 ∷ []) ∷ []) ∷ [])
      ∷ [])
    ∷ leaf tag_signature (9 ∷ [])
    ∷ [])

abbrev pub package_bytes : Bytes
package_bytes = 7 ∷ []

-- The signed data of a result that reports its success.
abbrev pub signed_part : Bytes
signed_part =
    0x30 ∷ 14 ∷ 0x80 ∷ 1 ∷ 65 ∷ 0x81 ∷ 1 ∷ 4 ∷ 0x83 ∷ 1 ∷ 12 ∷ 0x30 ∷ 3 ∷ 0x83 ∷ 1 ∷ 0 ∷ []

abbrev pub result_signature : Bytes
result_signature = signed_part ++ 132 ∷ 1 ∷ 0 ∷ []

abbrev pub result_bytes : Bytes
result_bytes = 0xbf ∷ 0x51 ∷ 40 ∷ 0xa0 ∷ 38 ∷ (signed_part ++ 0x5f ∷ 0x37 ∷ 19 ∷ result_signature)

abbrev pub result_object : Node
result_object = tree tag_euicc_pkg (
    tree (context_constructed 0) (
      tree tag_sequence (
        leaf (context_primitive 0) (65 ∷ [])
        ∷ leaf (context_primitive 1) (4 ∷ [])
        ∷ leaf (context_primitive 3) (12 ∷ [])
        ∷ tree tag_sequence (leaf (context_primitive 3) (0 ∷ []) ∷ [])
        ∷ [])
      ∷ leaf tag_signature result_signature
      ∷ [])
    ∷ [])

unfoldable pub read_known : Bytes → Result (Node × ℕ)
read_known input =
    if bytes_eq input package_bytes
    then ok (package_object, 1)
    else if bytes_eq input result_bytes
    then ok (result_object, 43)
    else err (encoding_error (ascii "unknown bytes"))

unfoldable pub tree_lib : Bertlv Node
unfolding height_of children_of first_of nodes_of read_known
tree_lib = record {
  tag = tag_of;
  value = value_of;
  children = children_of;
  height = height_of;
  first = λ o wanted. first_of wanted (children_of o);
  marshal_binary = λ o. ok (value_of o);
  read_from = read_known;
  new_value = leaf;
  new_children = λ tag inner. node tag [] (nodes_of inner);
  marshal_int = λ tag x. ok (leaf tag (x ∷ []));
  unmarshal_int = λ o. small_integer (value_of o);
  marshal_bool = λ tag b. ok (leaf tag []);
  unmarshal_bool = λ o. ok true;
}

-- Methods that the examples do not reach.
abbrev pub closed {ℓ} : {A : Type ℓ} → Action (List Operation) A
closed s = (err (invalid_input []), s)

abbrev pub desk_api : StoreApi (List Operation)
desk_api = record {
  get_profile_state = λ ctx t eid iccid. closed;
  list_profile_states = λ ctx t eid. closed;
  set_profile_state = λ ctx t state. closed;
  delete_profile_state = λ ctx t eid iccid. closed;
  get_euicc_state = λ ctx t eid. closed;
  set_euicc_state = λ ctx t state. closed;
  set_associated_eim = λ ctx t associated. closed;
  delete_associated_eim = λ ctx t eid eim_id. closed;
  get_associated_eim = λ ctx t eid eim_id s. (err not_found, s);
  next_euicc_package_counter = λ ctx t eid. closed;
  record_euicc_package_result = λ ctx t result. closed;
  enqueue_operation = λ ctx t request. closed;
  fetch_pending_operations = λ ctx t eid limit s. (ok s, s);
  list_operations = λ ctx t eid limit s. (ok s, s);
  list_pending_operations = λ ctx t limit s. (ok s, s);
  store_notification = λ ctx t notification. closed;
}

abbrev pub package_operation : Operation
package_operation = record {
  id = 1;
  eid = ascii "89";
  sequence_number = 1;
  kind = OperationKind.euicc_package;
  payload = package_bytes;
  status = OperationStatus.pending;
  created_at = 2;
  updated_at = 2;
}
