-- ===== src/Panels/DependencyMap/Laws.antt =====
-- The dependency map's edges against its nodes.
use polyglot_infinity.Prelude.{
  ℕ, zero, suc, ◌+◌, ◌*◌, ◌-◌, max, min, ap, ◌∙◌, ◌<◌, ◌≡◌, refl, sym, subst, Bool, true, false,
  ◌&&◌, none, some, List, [], ◌∷◌, get_elem?, Mem, ltb, Text, text_eq, text_eq_iff, Bool-cases,
  Option-cases, arith, inl, inr,
}
use mathlib.Core.List.{Memᴰ}
use polyglot_infinity.Panels.DependencyMap.{
  Node, Edge, nodes, edges, nx, ny, node_map, dashed, lines,
}

-- `nodeMap` has under a name only a node of that name.
node_map-some :
    (ns : List Node) (i : Text) (n : Node) → node_map ns i ≡ some n → Memᴰ n ns × (n.id ≡ i)
unfolding node_map
node_map-some [] i n h = absurd (cc)
node_map-some (m ∷ ns) i n h = elim (Option-cases (node_map ns i)) [
  | inr (k, e) ↦
      let same : some k ≡ some n = rw (e, node_map) at h in
      let (here, named) = node_map-some ns i n (e ∙ same) in (Memᴰ.tail here, named)
  | inl e ↦ elim (Bool-cases (text_eq m.id i)) [
    | inl b ↦
        let found : some m ≡ some n = rw (e, b, node_map) at h in
        let same : n ≡ m = cc in
        (Memᴰ.head same, ap (λ (x : Node). x.id) same ∙ (text_eq_iff m.id i).0 b)
    | inr b ↦ let found : none ≡ some n = rw (e, b, node_map) at h in absurd (cc)
  ]
]

-- The places of two nodes are further apart than the circles of both together are wide.
abbrev apart : Node → Node → Bool
apart m n =
    let dx = max (nx m) (nx n) - min (nx m) (nx n) in
    let dy = max (ny m) (ny n) - min (ny m) (ny n) in ltb (2800 * 2800) (dx * dx + dy * dy)

abbrev all_nodes : (Node → Bool) → List Node → Bool
all_nodes p [] = true
all_nodes p (n ∷ ns) = p n && all_nodes p ns

-- Each node with those behind it.
abbrev all_apart : List Node → Bool
all_apart [] = true
all_apart (n ∷ ns) = all_nodes (apart n) ns && all_apart ns

-- The nodes at the ends of an edge, and the line between their places, in hundredths on the canvas
-- of 900 by 540.
pub record IsDrawn (ns : List Node) (es : List Edge) (i : ℕ) (e : Edge) : Type 0 where
  pub tail : Node
  pub head : Node
  pub tail_in : Mem tail ns
  pub head_in : Mem head ns
  pub tail_id : tail.id ≡ e.source
  pub head_id : head.id ≡ e.target
  pub drawn :
      get_elem? (lines ns es) i
      ≡ some (record {
        x1 = tail.x * 900;
        y1 = tail.y * 540;
        x2 = head.x * 900;
        y2 = head.y * 540;
        is_dashed = dashed e.style;
      })

abbrev has_node : List Node → Text → Bool
has_node ns i = elim (node_map ns i) [ none ↦ false | some n ↦ true ]

abbrev all_resolve : List Node → List Edge → Bool
all_resolve ns [] = true
all_resolve ns (e ∷ es) = has_node ns e.source && has_node ns e.target && all_resolve ns es

has_node-some :
    (ns : List Node) (i : Text) → has_node ns i ≡ true → (n : Node) × (node_map ns i ≡ some n)
has_node-some ns i h = elim (Option-cases (node_map ns i)) [
  | inr found ↦ found
  | inl e ↦ absurd (let no : false ≡ true = rw (e, has_node) at h in cc)
]

lines-cons :
    (ns : List Node) (d : Edge) (es : List Edge) (a b : Node)
    → node_map ns d.source ≡ some a
    → node_map ns d.target ≡ some b
    → lines ns (d ∷ es)
      ≡ record { x1 = nx a; y1 = ny a; x2 = nx b; y2 = ny b; is_dashed = dashed d.style }
        ∷ lines ns es
unfolding lines
lines-cons ns d es a b h k = rw (lines, h, k) refl

resolved-IsDrawn :
    (ns : List Node) (es : List Edge) (i : ℕ) (e : Edge)
    → all_resolve ns es ≡ true
    → get_elem? es i ≡ some e
    → IsDrawn ns es i e
resolved-IsDrawn ns [] i e h k = absurd (cc)
resolved-IsDrawn ns (d ∷ es) zero e h k =
    let same : d ≡ e = cc in
    let (a, found_a) = has_node-some ns d.source (ground (arith, h)) in
    let (b, found_b) = has_node-some ns d.target (ground (arith, h)) in
    let (a_in, a_id) = node_map-some ns d.source a found_a in
    let (b_in, b_id) = node_map-some ns d.target b found_b in
    subst (IsDrawn ns (d ∷ es) zero) same (record {
      tail = a;
      head = b;
      tail_in = ∣ a_in ∣₁;
      head_in = ∣ b_in ∣₁;
      tail_id = a_id;
      head_id = b_id;
      drawn = ap (λ ls. get_elem? ls 0) (lines-cons ns d es a b found_a found_b);
    })
resolved-IsDrawn ns (d ∷ es) (suc i) e h k =
    let (a, found_a) = has_node-some ns d.source (ground (arith, h)) in
    let (b, found_b) = has_node-some ns d.target (ground (arith, h)) in
    let later = resolved-IsDrawn ns es i e (ground (arith, h)) k in
    record {
      tail = later.tail;
      head = later.head;
      tail_in = later.tail_in;
      head_in = later.head_in;
      tail_id = later.tail_id;
      head_id = later.head_id;
      drawn =
          ap (λ ls. get_elem? ls (suc i)) (lines-cons ns d es a b found_a found_b) ∙ later.drawn;
    }

tables_resolve : all_resolve nodes edges ≡ true
unfolding node_map text_eq
tables_resolve = refl

tables_apart : all_apart nodes ≡ true
tables_apart = refl

all_nodes-get_elem? :
    (p : Node → Bool) (ns : List Node) (i : ℕ) (n : Node)
    → all_nodes p ns ≡ true
    → get_elem? ns i ≡ some n
    → p n ≡ true
all_nodes-get_elem? p [] i n h k = absurd (cc)
all_nodes-get_elem? p (m ∷ ns) zero n h k =
    let same : m ≡ n = cc in ap p (sym same) ∙ ground (arith, h)
all_nodes-get_elem? p (m ∷ ns) (suc i) n h k = all_nodes-get_elem? p ns i n (ground (arith, h)) k

-- Every edge of the table is drawn: the line with its number goes from the place of a node of the
-- table that has the id of the edge's source to that of one that has the id of its target, on the
-- canvas of 900 by 540, and is dashed as the edge is.
pub edges-IsDrawn : (i : ℕ) (e : Edge) → get_elem? edges i ≡ some e → IsDrawn nodes edges i e
edges-IsDrawn i e h = resolved-IsDrawn nodes edges i e tables_resolve h

all_apart-get_elem? :
    (ns : List Node) (i j : ℕ) (m n : Node)
    → all_apart ns ≡ true
    → i < j
    → get_elem? ns i ≡ some m
    → get_elem? ns j ≡ some n
    → apart m n ≡ true
all_apart-get_elem? [] i j m n h lt k l = absurd (cc)
all_apart-get_elem? (o ∷ ns) i zero m n h lt k l = absurd (omega arith)
all_apart-get_elem? (o ∷ ns) zero (suc j) m n h lt k l =
    let same : o ≡ m = cc in
    subst (λ q. apart q n ≡ true) same (all_nodes-get_elem? (apart o) ns j n (ground (arith, h)) l)
all_apart-get_elem? (o ∷ ns) (suc i) (suc j) m n h lt k l =
    all_apart-get_elem? ns i j m n (ground (arith, h)) (omega arith) k l

-- The circles of two nodes, whose radius is at most 14 units, do not touch; places are in hundredths.
nodes-apart :
    (i j : ℕ) (m n : Node)
    → i < j
    → get_elem? nodes i ≡ some m
    → get_elem? nodes j ≡ some n
    → let dx = max (nx m) (nx n) - min (nx m) (nx n) in
      let dy = max (ny m) (ny n) - min (ny m) (ny n) in (2 * 1400) * (2 * 1400) < dx * dx + dy * dy
nodes-apart i j m n lt h k =
    let far = all_apart-get_elem? nodes i j m n tables_apart lt h k in ground (arith, far)
