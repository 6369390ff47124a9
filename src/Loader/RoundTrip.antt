-- ===== src/Loader/RoundTrip.antt =====
-- What the publisher reads back of the rows that the loader writes.
use Prim.Native.Char.{Char}
use Prim.Native.String.count
use Prim.Native.String.{[], ◌∷◌, count}
use text.Mathlib.TextLemmas
use text.Mathlib.TextLemmas.{length-append, nil-append, cons-append}
use mathlib.Core.List.{append-nil, append_assoc}
use amundsen_fork.Prelude.{
  String, ◌<>◌, str_eq, str_eq_iff, ◌≡◌, refl, sym, ap, ◌∙◌, false, List, ◌++◌, map, All,
  All-append, Bool-cases, inl, inr, arith,
}
use amundsen_fork.Models.Graph.{Value, str, int, bool, null, GraphNode}
use amundsen_fork.Publisher.{Record, put, unquoted, create_props_param, props_param_into}
use amundsen_fork.Loader.Rows.{get_neo4j_suffix_value, add_attributes, or_null, serialize_node}

-- A text is never its own proper beginning.
too_long : (c : Char) (s : String) → str_eq (c ∷ (s <> ":UNQUOTED")) ":UNQUOTED" ≡ false
too_long c s = elim (Bool-cases (str_eq (c ∷ (s <> ":UNQUOTED")) ":UNQUOTED")) [
  | inl h ↦ absurd (
      omega (
        arith,
        ap count ((str_eq_iff (c ∷ (s <> ":UNQUOTED")) ":UNQUOTED").0 h),
        count.cons c (s <> ":UNQUOTED"),
        length-append s ":UNQUOTED",
      ))
  | inr h ↦ h
]

unquoted_suffix : (k : String) → unquoted (k <> ":UNQUOTED") ≡ k
unfolding unquoted
unquoted_suffix [] = ap unquoted (nil-append ":UNQUOTED")
unquoted_suffix (c ∷ s) =
    ap unquoted (cons-append c s ":UNQUOTED") ∙ ground (arith, too_long c s, unquoted_suffix s)

unquoted_name :
    (k : String) (v : Value) → unquoted k ≡ k → unquoted (k <> get_neo4j_suffix_value v) ≡ k
unfolding get_neo4j_suffix_value
unquoted_name k (int _) h = unquoted_suffix k
unquoted_name k (bool _) h = unquoted_suffix k
unquoted_name k (str _) h = ap unquoted (TextLemmas.append-nil k) ∙ h
unquoted_name k null h = ap unquoted (TextLemmas.append-nil k) ∙ h

-- No entry of the record has the name.
abbrev pub Absent : String → Record → Type 0
Absent k entries = All (λ e. ¬ (e.0 ≡ k)) entries

-- The attributes' names are new, one after the other, and do not end with the suffix themselves.
abbrev pub Fits : Record → List (String × Value) → Type 0
Fits params List.[] = Unit
Fits params (List.◌∷◌ (k, v) attributes) =
    Absent k params × (unquoted k ≡ k) × Fits (params ++ List.◌∷◌ (k, v) List.[]) attributes

str_eq-differ : (j k : String) → ¬ (j ≡ k) → str_eq j k ≡ false
str_eq-differ j k n = elim (Bool-cases (str_eq j k)) [
  | inl h ↦ absurd (n ((str_eq_iff j k).0 h))
  | inr h ↦ h
]

put-new :
    (k : String) (v : Value) (entries : Record)
    → Absent k entries
    → put k v entries ≡ entries ++ List.◌∷◌ (k, v) List.[]
unfolding put
put-new k v List.[] h = refl
put-new k v (List.◌∷◌ (j, w) entries) h =
    ground (arith, str_eq-differ j k h.0, put-new k v entries h.1)

suffixed : List (String × Value) → Record
suffixed attributes = map (λ e. (e.0 <> get_neo4j_suffix_value e.1, e.1)) attributes

-- The entries under the names that the publisher reads.
read : Record → Record
read entries = map (λ e. (unquoted e.0, e.1)) entries

Absent-later :
    (j k : String) (entries : Record) → unquoted j ≡ k → Absent k (read entries) → Absent j entries
unfolding read
Absent-later j k List.[] p h = tt
Absent-later j k (List.◌∷◌ e entries) p h =
    ((λ q. h.0 (ap unquoted q ∙ p)), Absent-later j k entries p h.1)

read-append :
    (entries : Record) (j k : String) (v : Value)
    → unquoted j ≡ k
    → read (entries ++ List.◌∷◌ (j, v) List.[]) ≡ read entries ++ List.◌∷◌ (k, v) List.[]
unfolding read
read-append List.[] j k v p = ap (λ n. List.◌∷◌ (n, v) List.[]) p
read-append (List.◌∷◌ e entries) j k v p =
    ap (λ r. List.◌∷◌ (unquoted e.0, e.1) r) (read-append entries j k v p)

add_attributes-suffixed :
    (dict params : Record) (attributes : List (String × Value))
    → read dict ≡ params
    → Fits params attributes
    → add_attributes dict attributes ≡ dict ++ suffixed attributes
unfolding add_attributes suffixed
add_attributes-suffixed dict params List.[] p h = sym (append-nil dict)
add_attributes-suffixed dict params (List.◌∷◌ (k, v) attributes) p h =
    let name = unquoted_name k v h.1 in
    let j = k <> get_neo4j_suffix_value v in
    ap (λ d. add_attributes d attributes) (put-new j v dict (Absent-later j k dict name (rw p h.0)))
    ∙ add_attributes-suffixed (dict ++ List.◌∷◌ (j, v) List.[]) (params ++ List.◌∷◌ (k, v) List.[])
        attributes (read-append dict j k v name ∙ ap (λ r. r ++ List.◌∷◌ (k, v) List.[]) p) h.2
    ∙ append_assoc dict (List.◌∷◌ (j, v) List.[]) (suffixed attributes)

Absent-last :
    (j k : String) (v : Value) (entries : Record)
    → Absent j (entries ++ List.◌∷◌ (k, v) List.[])
    → Absent j entries × (¬ (k ≡ j))
Absent-last j k v List.[] h = (tt, h.0)
Absent-last j k v (List.◌∷◌ e entries) h =
    let (rest, last) = Absent-last j k v entries h.1 in ((h.0, rest), last)

-- The two columns that every node has.
abbrev pub label_and_key : GraphNode → Record
label_and_key node =
    List.◌∷◌ ("LABEL", or_null node.label) (List.◌∷◌ ("KEY", or_null node.key) List.[])

-- What is read back of a cell of a CSV file, by its column: pandas makes it text, a number or a truth
-- value.
module _ (read_cell : String → Value → Value) where
  -- The row that is read back of one that is written.
  abbrev pub read_row : Record → Record
  read_row row = map (λ e. (e.0, read_cell e.0 e.1)) row

  -- The attributes, with what is read back of their values from their columns.
  abbrev pub read_attributes : List (String × Value) → Record
  read_attributes attributes =
      map (λ e. (e.0, read_cell (e.0 <> get_neo4j_suffix_value e.1) e.1)) attributes

  -- An absent name of the first is one of the second.
  abbrev Within : Record → Record → Type 0
  Within params entries = (j : String) → Absent j params → Absent j entries

  Within-last :
      (k : String) (v w : Value) (params entries : Record)
      → Within params entries
      → Within (params ++ List.◌∷◌ (k, v) List.[]) (entries ++ List.◌∷◌ (k, w) List.[])
  Within-last k v w params entries h j a =
      let (rest, last) = Absent-last j k v params a in
      All-append (λ (e : String × Value). ¬ (e.0 ≡ j)) entries (List.◌∷◌ (k, w) List.[]) (h j rest)
        (last, tt)

  props_param-read :
      (params entries : Record) (attributes : List (String × Value))
      → Fits params attributes
      → Within params entries
      → props_param_into entries (read_row (suffixed attributes))
        ≡ entries ++ read_attributes attributes
  unfolding props_param_into suffixed
  props_param-read params entries List.[] h n = sym (append-nil entries)
  props_param-read params entries (List.◌∷◌ (k, v) attributes) h n =
      let column = k <> get_neo4j_suffix_value v in
      let w = read_cell column v in
      ap (λ name. props_param_into (put name w entries) (read_row (suffixed attributes)))
        (unquoted_name k v h.1)
      ∙ ap (λ r. props_param_into r (read_row (suffixed attributes)))
          (put-new k w entries (n k h.0))
      ∙ props_param-read (params ++ List.◌∷◌ (k, v) List.[]) (entries ++ List.◌∷◌ (k, w) List.[])
          attributes h.2 (Within-last k v w params entries n)
      ∙ append_assoc entries (List.◌∷◌ (k, w) List.[]) (read_attributes attributes)

  -- If the names of a node's attributes are different from each other and from LABEL and KEY, and none
  -- ends with the suffix that marks unquoted columns: where the row that the loader writes of the
  -- node is read back with its columns in their order, whatever is read for their values, the
  -- publisher's statement for it has just the node's label, key and attributes as its parameters,
  -- under their own names, in order, each with the value that is read from its own column.
  pub create_props_param-serialize_node :
      (node : GraphNode)
      → Fits (label_and_key node) node.attributes
      → create_props_param (read_row (serialize_node node))
        ≡ read_row (label_and_key node) ++ read_attributes node.attributes
  unfolding create_props_param serialize_node put unquoted read props_param_into
  create_props_param-serialize_node node h =
      ap (λ row. create_props_param (read_row row))
        (add_attributes-suffixed (label_and_key node) (label_and_key node) node.attributes refl h)
      ∙ props_param-read (label_and_key node) (read_row (label_and_key node)) node.attributes h
          (λ j a. a)
